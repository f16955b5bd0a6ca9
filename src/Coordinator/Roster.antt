-- ===== src/Coordinator/Roster.antt =====
-- `list_roster` after `insert_roster`.
use cheget.Base.{
  ◌≡◌, ◌↔◌, ◌⊎◌, inl, inr, refl, sym, ap, ◌∙◌, some, List, [], ◌∷◌, true, false, Text, text_dec,
  ℕ_discrete, codes, ok, err, eqb, if◌then◌else◌, Bool-cases, cons_injective, arith,
}
use mathlib.Core.Path.{ap₂, subst}
use cheget.Base.TextOrder.{text_ltb, text_total}
use cheget.Base.Sorted.{put}
use cheget.Store.Errors.{sqlite}
use cheget.Coordinator.Sql.{text, Row, Select, comes_after, value_ltb, Engine}
use cheget.Coordinator.Schema.{roster_table}
use cheget.Coordinator.Sqlite.{SameKey, HasKey, Follows, IsSqlite}
use cheget.Coordinator.Rows.{RosterEntry, roster_params}
use cheget.Coordinator.Kept.{kept_row, kept_roster, text_injective, text-ne-null, executed}
use cheget.Coordinator.Store.{select_roster, insert_roster, list_roster}
use cheget.Coordinator.Orders.{text_order}
use cheget.Coordinator.Listing.{Grouped, listing-insert}
use cheget.Coordinator.Listing.Collected.{Reads}

-- What a row that holds an entry has in the columns of its key.
roster_identifier :
    (m : Row) (a : RosterEntry) → Reads kept_roster m a → m (codes "identifier") ≡ text a.identifier
unfolding roster_params
roster_identifier m a r = (cons_injective (cons_injective (kept_roster.exact m a r)).1).0

pub group-kept_roster : (a : RosterEntry) → kept_row kept_roster a (codes "key_id") ≡ text a.key_id
unfolding roster_params text_dec ℕ_discrete
group-kept_roster a = refl

roster_key :
    (m : Row) (a : RosterEntry) (g : Text)
    → Reads kept_roster m a
    → m (codes "key_id") ≡ text g
    → HasKey roster_table m
roster_key m a g r p c (inl e) q = text-ne-null g (sym p ∙ ap m (sym e) ∙ q)
roster_key m a g r p c (inr (inl e)) q =
    text-ne-null a.identifier (sym (roster_identifier m a r) ∙ ap m (sym e) ∙ q)
roster_key m a g r p c (inr (inr n)) q = absurd n

pub roster_same :
    (m m' : Row) (a a' : RosterEntry)
    → Reads kept_roster m a
    → Reads kept_roster m' a'
    → m (codes "key_id") ≡ m' (codes "key_id")
    → SameKey roster_table m m' ↔ (a.identifier ≡ a'.identifier)
roster_same m m' a a' r r' p = (
  λ s. text_injective (
      sym (roster_identifier m a r)
      ∙ (cons_injective (cons_injective s).1).0
      ∙ roster_identifier m' a' r'),
  λ e.
      ap₂ ◌∷◌ p
        (ap₂ ◌∷◌ (roster_identifier m a r ∙ ap text e ∙ sym (roster_identifier m' a' r')) refl),
)

-- Rows in order have their keys in order.
ordered_by_text :
    (c : Text) (m m' : Row) (t u : Text)
    → m c ≡ text t
    → m' c ≡ text u
    → comes_after (c ∷ []) m m' ≡ false
    → text_ltb u t ≡ false
ordered_by_text c m m' t u p q h =
    let e : (if text_ltb u t then true else if text_ltb t u then false else false) ≡ false =
      subst
        (λ v.
          (if value_ltb v (text t) then true else if value_ltb (text t) v then false else false)
          ≡ false)
        q
        (subst
          (λ v.
            (if value_ltb (m' c) v then true else if value_ltb v (m' c) then false else false)
            ≡ false)
          p h) in
    ground arith

pub roster_follows :
    (q : Select) (g : Text) (m m' : Row) (a a' : RosterEntry)
    → q.order ≡ codes "identifier" ∷ []
    → m (codes "key_id") ≡ text g
    → m' (codes "key_id") ≡ text g
    → Reads kept_roster m a
    → Reads kept_roster m' a'
    → Follows q roster_table m m'
    → text_ltb a.identifier a'.identifier ≡ true
roster_follows q g m m' a a' o p p' r r' f =
    let up =
      ordered_by_text (codes "identifier") m m' a.identifier a'.identifier (roster_identifier m a r)
        (roster_identifier m' a' r') (subst (λ w. comes_after w m m' ≡ false) o f.0) in
    elim (Bool-cases (text_ltb a.identifier a'.identifier)) [
      | inl t ↦ t
      | inr n ↦ absurd (
          f.1 (roster_key m a g r p) (
            (roster_same m m' a a' r r' (p ∙ sym p')).1
              (text_total a.identifier a'.identifier n up)))
    ]

unfoldable pub grouped_roster : Grouped kept_roster (codes "identifier" ∷ []) (codes "key_id")
grouped_roster = record {
  Key = Text;
  order = text_order;
  key = λ a. a.identifier;
  group = λ a. a.key_id;
  grouped = group-kept_roster;
  same_group = λ m m' s. (cons_injective s).0;
  same_key = roster_same;
  follows = roster_follows;
}

module _ (E : Engine) (law : IsSqlite E) where
  -- After `insert_roster` has succeeded on a database that does what it documents and holds the
  -- roster, `list_roster` gives its earlier list with the entry put in its place by identifier,
  -- where it replaces the entry of the same identifier; the list of another key is what it was; or
  -- the listing fails with an error of SQLite.
  pub list_roster-insert_roster :
      (e : RosterEntry) (key_id : Text) (s : E.State) (rows : List Row) (xs : List RosterEntry)
      → (law.view s).tables (codes "roster") ≡ some (roster_table, rows)
      → (insert_roster E e s).0 ≡ ok tt
      → list_roster E key_id s ≡ ok xs
      → let found = list_roster E key_id (insert_roster E e s).1 in
        (found
          ≡ ok (
              if eqb text_dec e.key_id key_id then put text_order (λ a. a.identifier) e xs else xs))
        ⊎ (found ≡ err sqlite)
  unfolding insert_roster list_roster grouped_roster
  list_roster-insert_roster e key_id s rows xs there done h =
      listing-insert kept_roster (codes "identifier" ∷ []) (codes "key_id") grouped_roster key_id
        (select_roster key_id) E law refl refl refl refl e s rows xs there (executed _ done) h
