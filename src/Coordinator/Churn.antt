-- ===== src/Coordinator/Churn.antt =====
-- `list_churn` after `insert_churn`.
use cheget.Base.{
  ◌≡◌, ◌↔◌, ◌⊎◌, inl, inr, refl, sym, ap, ◌∙◌, some, List, [], ◌∷◌, true, false, Text, text_dec,
  ℕ_discrete, codes, ok, err, eqb, if◌then◌else◌, Bool-cases, cons_injective, arith,
}
use mathlib.Core.Path.{ap₂, subst}
use cheget.Base.Int.{ℤ, int_ltb}
use cheget.Base.TextOrder.{text_ltb}
use cheget.Base.Sorted.{put}
use cheget.Store.Errors.{sqlite}
use cheget.Coordinator.Sql.{integer, text, Row, Select, comes_after, value_ltb, Engine}
use cheget.Coordinator.Schema.{churn_table}
use cheget.Coordinator.Sqlite.{SameKey, HasKey, Follows, IsSqlite}
use cheget.Coordinator.Rows.{ChurnEntry, churn_params}
use cheget.Coordinator.Kept.{
  kept_row, kept_churn, text_injective, text-ne-null, integer-ne-null, integer_injective, executed,
}
use cheget.Coordinator.Store.{select_churn, insert_churn, list_churn}
use cheget.Coordinator.Orders.{epoch_order, epoch_ltb}
use cheget.Coordinator.Listing.{Grouped, listing-insert}
use cheget.Coordinator.Listing.Collected.{Reads}

churn_identifier :
    (m : Row) (a : ChurnEntry) → Reads kept_churn m a → m (codes "identifier") ≡ text a.identifier
unfolding churn_params
churn_identifier m a r = (cons_injective (cons_injective (kept_churn.exact m a r)).1).0

churn_epoch :
    (m : Row) (a : ChurnEntry)
    → Reads kept_churn m a
    → m (codes "left_epoch") ≡ integer a.left_epoch
unfolding churn_params
churn_epoch m a r =
    (cons_injective
      (cons_injective (cons_injective (cons_injective (kept_churn.exact m a r)).1).1).1).0

pub group-kept_churn : (a : ChurnEntry) → kept_row kept_churn a (codes "key_id") ≡ text a.key_id
unfolding churn_params text_dec ℕ_discrete
group-kept_churn a = refl

churn_key :
    (m : Row) (a : ChurnEntry) (g : Text)
    → Reads kept_churn m a
    → m (codes "key_id") ≡ text g
    → HasKey churn_table m
churn_key m a g r p c (inl e) q = text-ne-null g (sym p ∙ ap m (sym e) ∙ q)
churn_key m a g r p c (inr (inl e)) q =
    text-ne-null a.identifier (sym (churn_identifier m a r) ∙ ap m (sym e) ∙ q)
churn_key m a g r p c (inr (inr (inl e))) q =
    integer-ne-null a.left_epoch (sym (churn_epoch m a r) ∙ ap m (sym e) ∙ q)
churn_key m a g r p c (inr (inr (inr n))) q = absurd n

pub left : ChurnEntry → ℤ × Text
left a = (a.left_epoch, a.identifier)

pub churn_same :
    (m m' : Row) (a a' : ChurnEntry)
    → Reads kept_churn m a
    → Reads kept_churn m' a'
    → m (codes "key_id") ≡ m' (codes "key_id")
    → SameKey churn_table m m' ↔ (left a ≡ left a')
unfolding left
churn_same m m' a a' r r' p = (
  λ s.
      let rest = (cons_injective s).1 in
      ap₂ (λ (i : ℤ) (t : Text). (i, t))
        (integer_injective (
          sym (churn_epoch m a r)
          ∙ (cons_injective (cons_injective rest).1).0
          ∙ churn_epoch m' a' r'))
        (text_injective
          (sym (churn_identifier m a r) ∙ (cons_injective rest).0 ∙ churn_identifier m' a' r')),
  λ e. ap₂ ◌∷◌ p (
      ap₂ ◌∷◌ (churn_identifier m a r ∙ ap (λ k. text k.1) e ∙ sym (churn_identifier m' a' r'))
        (ap₂ ◌∷◌ (churn_epoch m a r ∙ ap (λ k. integer k.0) e ∙ sym (churn_epoch m' a' r')) refl)),
)

-- Rows in order have their keys in order.
ordered_by_epoch :
    (m m' : Row) (i j : ℤ) (t u : Text)
    → m (codes "left_epoch") ≡ integer i
    → m' (codes "left_epoch") ≡ integer j
    → m (codes "identifier") ≡ text t
    → m' (codes "identifier") ≡ text u
    → comes_after (codes "left_epoch" ∷ codes "identifier" ∷ []) m m' ≡ false
    → epoch_ltb (j, u) (i, t) ≡ false
ordered_by_epoch m m' i j t u p p' q q' h =
    let last : comes_after (codes "identifier" ∷ []) m m'
        ≡ (if text_ltb u t then true else if text_ltb t u then false else false) =
      subst
        (λ v.
          comes_after (codes "identifier" ∷ []) m m'
          ≡ (if value_ltb v (text t) then true else if value_ltb (text t) v then false else false))
        q'
        (subst
          (λ v. comes_after (codes "identifier" ∷ []) m m' ≡ (
            if value_ltb (m' (codes "identifier")) v
            then true
            else if value_ltb v (m' (codes "identifier"))
            then false
            else false))
          q refl) in
    let rest = comes_after (codes "identifier" ∷ []) m m' in
    let e : (if int_ltb j i then true else if int_ltb i j then false else rest) ≡ false =
      subst
        (λ v.
          (if value_ltb v (integer i)
            then true
            else if value_ltb (integer i) v
            then false
            else rest)
          ≡ false)
        p'
        (subst
          (λ v.
            (if value_ltb (m' (codes "left_epoch")) v
              then true
              else if value_ltb v (m' (codes "left_epoch"))
              then false
              else rest)
            ≡ false)
          p h) in
    ground arith

pub churn_follows :
    (q : Select) (g : Text) (m m' : Row) (a a' : ChurnEntry)
    → q.order ≡ codes "left_epoch" ∷ codes "identifier" ∷ []
    → m (codes "key_id") ≡ text g
    → m' (codes "key_id") ≡ text g
    → Reads kept_churn m a
    → Reads kept_churn m' a'
    → Follows q churn_table m m'
    → epoch_ltb (left a) (left a') ≡ true
unfolding left
churn_follows q g m m' a a' o p p' r r' f =
    let up =
      ordered_by_epoch m m' a.left_epoch a'.left_epoch a.identifier a'.identifier
        (churn_epoch m a r) (churn_epoch m' a' r') (churn_identifier m a r)
        (churn_identifier m' a' r') (subst (λ w. comes_after w m m' ≡ false) o f.0) in
    elim (Bool-cases (epoch_ltb (left a) (left a'))) [
      | inl t ↦ t
      | inr n ↦ absurd (
          f.1 (churn_key m a g r p) (
            (churn_same m m' a a' r r' (p ∙ sym p')).1 (epoch_order.total (left a) (left a') n up)))
    ]

unfoldable pub grouped_churn :
    Grouped kept_churn (codes "left_epoch" ∷ codes "identifier" ∷ []) (codes "key_id")
unfolding left
grouped_churn = record {
  Key = ℤ × Text;
  order = epoch_order;
  key = λ a. (a.left_epoch, a.identifier);
  group = λ a. a.key_id;
  grouped = group-kept_churn;
  same_group = λ m m' s. (cons_injective s).0;
  same_key = churn_same;
  follows = churn_follows;
}

module _ (E : Engine) (law : IsSqlite E) where
  -- After `insert_churn` has succeeded on a database that does what it documents and holds the
  -- ledger, `list_churn` gives its earlier list with the entry put in its place by epoch and
  -- identifier, where it replaces the entry of the same two; the list of another key is what it
  -- was; or the listing fails with an error of SQLite.
  pub list_churn-insert_churn :
      (e : ChurnEntry) (key_id : Text) (s : E.State) (rows : List Row) (xs : List ChurnEntry)
      → (law.view s).tables (codes "churn_ledger") ≡ some (churn_table, rows)
      → (insert_churn E e s).0 ≡ ok tt
      → list_churn E key_id s ≡ ok xs
      → let found = list_churn E key_id (insert_churn E e s).1 in
        (found
          ≡ ok (
              if eqb text_dec e.key_id key_id
              then put epoch_order (λ a. (a.left_epoch, a.identifier)) e xs
              else xs))
        ⊎ (found ≡ err sqlite)
  unfolding insert_churn list_churn grouped_churn
  list_churn-insert_churn e key_id s rows xs there done h =
      listing-insert kept_churn (codes "left_epoch" ∷ codes "identifier" ∷ []) (codes "key_id")
        grouped_churn key_id (select_churn key_id) E law refl refl refl refl e s rows xs there
        (executed _ done) h
