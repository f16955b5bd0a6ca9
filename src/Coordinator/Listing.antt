-- ===== src/Coordinator/Listing.antt =====
-- Listings of one group (`key_id`) in the order of a key: how an insertion changes them.
pub mod Collected
use cheget.Base.{
  ◌≡◌, ◌≢◌, ◌↔◌, ◌⊎◌, inl, inr, refl, sym, ap, ◌∙◌, List, [], ◌∷◌, Text, text_dec, Result, ok, err,
  ◌>>=◌, map_err, Result-cases, In, ok_injective, some, eqb, holds, if◌then◌else◌, arith,
}
use mathlib.Core.Path.{subst}
use cheget.Base.Sorted.{Pairwise, StrictOrder, Before, put, In-put, put-Pairwise, Before-ext}
use cheget.Store.Errors.{StoreError, sqlite}
use cheget.Coordinator.Sql.{SqlError, Value, text, Row, project, Select, insert, Engine}
use cheget.Coordinator.Sqlite.{SameKey, Replaces, Yields, Follows, IsSqlite}
use cheget.Coordinator.Kept.{Kept, kept_row, read-kept_row, text_injective}
use cheget.Coordinator.Store.{folded, replace_into, collect_rows}
use cheget.Coordinator.Listing.Collected.{
  Reads, collected, In-AllRead_to, In-AllRead_of, Pairwise-AllRead,
}

-- The rows of a group are told apart by a key, and come in its order.
pub record Grouped {A : Type 0} (k : Kept A) (order_by : List Text) (c : Text) : Type 1 where
  pub Key : Type 0
  pub order : StrictOrder Key
  pub key : A → Key
  pub group : A → Text
  pub grouped : (a : A) → kept_row k a c ≡ text (group a)
  pub same_group : (m m' : Row) → SameKey k.table m m' → m c ≡ m' c
  pub same_key :
      (m m' : Row) (a a' : A)
      → Reads k m a
      → Reads k m' a'
      → m c ≡ m' c
      → SameKey k.table m m' ↔ (key a ≡ key a')
  pub follows :
      (q : Select) (g : Text) (m m' : Row) (a a' : A)
      → q.order ≡ order_by
      → m c ≡ text g
      → m' c ≡ text g
      → Reads k m a
      → Reads k m' a'
      → Follows q k.table m m'
      → Before order key a a'

module _ {A : Type 0} (k : Kept A) (order_by : List Text) (c : Text) (G : Grouped k order_by c)
    (g : Text) where
  abbrev pub Listed : List Row → List A → Type 0
  Listed rows xs =
      ((a : A) → In a xs ↔ ((m : Row) × In m rows × (m c ≡ text g) × Reads k m a))
      × Pairwise (Before G.order G.key) xs

  listed :
      (q : Select) (rows ms : List Row) (results : List (Result SqlError (List Value)))
      (xs : List A)
      → q.order ≡ order_by
      → ((r : Row) → In r ms ↔ (In r rows × (r c ≡ text g)))
      → Pairwise (Follows q k.table) ms
      → Yields k.columns results ms
      → collect_rows k.read results ≡ ok xs
      → Listed rows xs
  listed q rows ms results xs o is follows yields h =
      let all = collected k results ms xs yields h in
      (
        λ a. (
          λ i.
              let (m, j, r) = In-AllRead_to k a ms xs all i in
              (m, ((is m).0 j).0, ((is m).0 j).1, r),
          λ f. In-AllRead_of k f.0 a ms xs all ((is f.0).1 (f.1, f.2)) f.3,
        ),
        Pairwise-AllRead k (λ m. m c ≡ text g) (Follows q k.table) (Before G.order G.key)
            (λ m m' a a' p p' r r' f. G.follows q g m m' a a' o p p' r r' f) ms xs
            (λ m i. ((is m).0 i).1) all follows,
      )

  Reads-kept_row : (e : A) → Reads k (kept_row k e) e
  Reads-kept_row e = read-kept_row k e

  -- A struct of the group takes its place in the listing.
  Listed-same :
      (e : A) (rows after : List Row) (xs ys : List A)
      → G.group e ≡ g
      → Replaces k.table (kept_row k e) rows after
      → Listed rows xs
      → Listed after ys
      → ys ≡ put G.order G.key e xs
  Listed-same e rows after xs ys same replaces (is, s) (is', s') =
      let new = kept_row k e in
      let there : new c ≡ text g = G.grouped e ∙ ap text same in
      Before-ext G.order G.key ys (put G.order G.key e xs) s' (put-Pairwise G.order G.key e xs s)
        (λ a. (
          λ i. (In-put G.order G.key e a xs s).1 (
              let (m, j, p, r) = (is' a).0 i in
              elim ((replaces m).0 j) [
                | inl n ↦ inl (
                    ok_injective
                      (sym r ∙ ap (λ w. k.read (project k.columns w)) n ∙ Reads-kept_row e))
                | inr (old, apart) ↦ inr (
                  (is a).1 (m, old, p, r),
                  λ q. apart ((G.same_key m new a e r (Reads-kept_row e) (p ∙ sym there)).1 q),
                )
              ]),
          λ i. (is' a).1 (elim ((In-put G.order G.key e a xs s).0 i) [
            | inl q ↦ (new, (replaces new).1 (inl refl), there, Reads-kept_row e ∙ ap ok (sym q))
            | inr (old, apart) ↦
                let (m, j, p, r) = (is a).0 old in
                (
                  m,
                  (replaces m).1 (
                      inr (
                        j,
                        λ q.
                            apart ((G.same_key m new a e r (Reads-kept_row e) (p ∙ sym there)).0 q),
                      )),
                  p,
                  r,
                )
          ]),
        ))

  -- A struct of another group leaves the listing alone.
  Listed-other :
      (e : A) (rows after : List Row) (xs ys : List A)
      → G.group e ≢ g
      → Replaces k.table (kept_row k e) rows after
      → Listed rows xs
      → Listed after ys
      → ys ≡ xs
  Listed-other e rows after xs ys other replaces (is, s) (is', s') =
      let new = kept_row k e in
      let away : new c ≡ text g → ⊥ = λ p. other (text_injective (sym (G.grouped e) ∙ p)) in
      Before-ext G.order G.key ys xs s' s (λ a. (
        λ i.
            let (m, j, p, r) = (is' a).0 i in
            elim ((replaces m).0 j) [
              | inl n ↦ absurd (away (ap (λ w. w c) (sym n) ∙ p))
              | inr (old, apart) ↦ (is a).1 (m, old, p, r)
            ],
        λ i.
            let (m, j, p, r) = (is a).0 i in
            (is' a).1
              (m, (replaces m).1 (inr (j, λ q. away (sym (G.same_group m new q) ∙ p))), p, r),
      ))

  module _ (q : Select) (E : Engine) (law : IsSqlite E) where
    abbrev pub listing : E.State → Result StoreError (List A)
    listing s = do rows ← map_err folded (E.query q s); map_err folded (collect_rows k.read rows)

    listing_err : (s : E.State) (e : StoreError) → listing s ≡ err e → listing s ≡ err sqlite
    listing_err s e h = elim (Result-cases (E.query q s)) [
      | inr (f, r) ↦ ground arith
      | inl (results, r) ↦ elim (Result-cases (collect_rows k.read results)) [
        | inr (f, t) ↦ ground arith
        | inl (y, t) ↦ ground arith
      ]
    ]

    module _ (o : q.order ≡ order_by) (at : q.column ≡ c) (is : q.value ≡ text g)
        (columns : q.columns ≡ k.columns) where
      pub gives :
          (s : E.State) (rows : List Row) (xs : List A)
          → (law.view s).tables q.table ≡ some (k.table, rows)
          → listing s ≡ ok xs
          → Listed rows xs
      gives s rows xs there h = elim (Result-cases (E.query q s)) [
        | inr (e, r) ↦ absurd (ground arith)
        | inl (results, r) ↦
            let (ms, members, follows, yields) = law.selected q s k.table rows results there r in
            elim (Result-cases (collect_rows k.read results)) [
              | inr (e, t) ↦ absurd (ground arith)
              | inl (ys, t) ↦
                  let same : ys ≡ xs = ground arith in
                  listed q rows ms results xs o
                    (λ m.
                      subst (λ v. In m ms ↔ (In m rows × (m c ≡ v))) is
                        (subst (λ col. In m ms ↔ (In m rows × (m col ≡ q.value))) at (members m)))
                    follows (subst (λ cols. Yields cols results ms) columns yields) (t ∙ ap ok same)
            ]
      ]

      -- After an insertion the struct has taken its place in the listing of its group, and the
      -- listing of another group is what it was, or it fails with an error of SQLite.
      pub listing-insert :
          (e : A) (s : E.State) (rows : List Row) (xs : List A)
          → (law.view s).tables q.table ≡ some (k.table, rows)
          → (E.execute (insert (replace_into q.table k.columns (k.params e))) s).0 ≡ ok tt
          → listing s ≡ ok xs
          → let after = (E.execute (insert (replace_into q.table k.columns (k.params e))) s).1 in
            (listing after ≡ ok (if eqb text_dec (G.group e) g then put G.order G.key e xs else xs))
            ⊎ (listing after ≡ err sqlite)
      listing-insert e s rows xs there done h =
          let insertion = replace_into q.table k.columns (k.params e) in
          let s' = (E.execute (insert insertion) s).1 in
          let (after, held, replaces) = law.inserted insertion s k.table rows there done in
          let before = gives s rows xs there h in
          elim (Result-cases (listing s')) [
            | inr (e', r) ↦ inr (listing_err s' e' r)
            | inl (ys, r) ↦
                inl
                  (elim (text_dec (G.group e) g)
                    as (λ d. listing s' ≡ ok (if holds d then put G.order G.key e xs else xs)) [
                      | yes same ↦
                          r
                          ∙ ap ok (
                              Listed-same e rows after xs ys same replaces before
                                (gives s' after ys held r))
                      | no other ↦
                          r
                          ∙ ap ok (
                              Listed-other e rows after xs ys other replaces before
                                (gives s' after ys held r))
                    ])
          ]
