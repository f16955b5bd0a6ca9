-- ===== src/Coordinator/Lookup/Answers.antt =====
-- What a cursor over the rows of one id yields, and how an insertion changes it.
use cheget.Base.{
  ◌≡◌, ◌≢◌, ◌↔◌, ◌⊎◌, inl, inr, refl, sym, ap, ◌∙◌, Option, none, some, List, [], ◌∷◌, Text, Result,
  ok, err, Result-cases, In, arith, ok_injective, cons_injective,
}
use mathlib.Core.Path.{subst}
use cheget.Base.Sorted.{Pairwise}
use cheget.Coordinator.Sql.{SqlError, Value, text, Row, project, Select}
use cheget.Coordinator.Sqlite.{SameKey, HasKey, Replaces, Yields, Follows}
use cheget.Coordinator.Kept.{Kept, kept_row, read-kept_row, text_injective, text-ne-null}
use cheget.Coordinator.Store.{next_row}

module _ {A : Type 0} (k : Kept A) (c : Text) (primary : k.table.primary ≡ c ∷ []) (q : Select)
    (columns : q.columns ≡ k.columns) (id : Text) where
  same_key : (m m' : Row) → m c ≡ text id → m' c ≡ text id → SameKey k.table m m'
  same_key m m' e e' = rw primary (rw (e, e') refl)

  has_key : (m : Row) → m c ≡ text id → HasKey k.table m
  has_key m e d i p = elim (rw primary at i) [
    | inl same ↦ text-ne-null id (sym e ∙ ap m (sym same) ∙ p)
    | inr none_left ↦ absurd none_left
  ]

  -- At most one row answers.
  single :
      (m : Row) (ms : List Row)
      → ((r : Row) → In r (m ∷ ms) → r c ≡ text id)
      → Pairwise (Follows q k.table) (m ∷ ms)
      → ms ≡ []
  single m [] all s = refl
  single m (m' ∷ ms) all s = absurd (
      (s.0 m' (inl refl)).1 (has_key m (all m (inl refl)))
        (same_key m m' (all m (inl refl)) (all m' (inr (inl refl)))))

  -- What `next_row` gives is none of no row, or what the closure reads of the first row.
  yielded :
      (results : List (Result SqlError (List Value))) (ms : List Row) (x : Option A)
      → Yields k.columns results ms
      → next_row k.read results ≡ ok x
      → ((ms ≡ []) × (x ≡ none))
        ⊎ ((m : Row) × (rest : List Row) × (a : A) × (ms ≡ m ∷ rest)
            × (x ≡ some a)
            × (k.read (project k.columns m) ≡ ok a))
  unfolding next_row
  yielded [] [] x y h = inl (refl, ground arith)
  yielded [] (m ∷ ms) x y h = absurd y
  yielded (err e ∷ rest) ms x y h = absurd (ground arith)
  yielded (ok values ∷ rest) [] x y h = absurd y
  yielded (ok values ∷ rest) (m ∷ ms) x y h = elim (Result-cases (k.read values)) [
    | inr (e, r) ↦ absurd (ground arith)
    | inl (a, r) ↦ inr (m, ms, a, refl, ground arith, ap k.read (sym y.0) ∙ r)
  ]

  abbrev pub Answer : List Row → Option A → Type 0
  Answer rows x =
      ((x ≡ none) × ((r : Row) → In r rows → r c ≡ text id → ⊥))
      ⊎ ((m : Row) × (a : A) × In m rows
          × (m c ≡ text id)
          × ((r : Row) → In r rows → r c ≡ text id → r ≡ m)
          × (x ≡ some a)
          × (k.read (project k.columns m) ≡ ok a))

  pub answer :
      (rows ms : List Row) (results : List (Result SqlError (List Value))) (x : Option A)
      → ((r : Row) → In r ms ↔ (In r rows × (r c ≡ text id)))
      → Pairwise (Follows q k.table) ms
      → Yields k.columns results ms
      → next_row k.read results ≡ ok x
      → Answer rows x
  answer rows ms results x is follows yields h = elim (yielded results ms x yields h) [
    | inl (empty, e) ↦ inl (e, λ r i at. rw empty at ((is r).1 (i, at)))
    | inr (m, rest, a, split, e, read) ↦
        let all : (r : Row) → In r (m ∷ rest) → r c ≡ text id = λ r i. ((is r).0 (rw split i)).1 in
        let alone = single m rest all (subst (Pairwise (Follows q k.table)) split follows) in
        let (there, at) = (is m).0 (rw split (inl refl)) in
        inr (
          m,
          a,
          there,
          at,
          λ r i at'. elim (subst (In r) (split ∙ ap (◌∷◌ m) alone) ((is r).1 (i, at'))) [
            | inl e ↦ e
            | inr none_left ↦ absurd none_left
          ],
          e,
          read,
        )
  ]

  pub Answer-same :
      (e : A) (rows after : List Row) (x : Option A)
      → kept_row k e c ≡ text id
      → Replaces k.table (kept_row k e) rows after
      → Answer after x
      → x ≡ some e
  Answer-same e rows after x at replaces (inl (n, lacks)) =
      absurd (lacks (kept_row k e) ((replaces (kept_row k e)).1 (inl refl)) at)
  Answer-same e rows after x at replaces (inr (m, a, there, here, unique, f, read)) =
      let same = unique (kept_row k e) ((replaces (kept_row k e)).1 (inl refl)) at in
      f
      ∙ ap some (
          ok_injective
            (sym read ∙ ap (λ r. k.read (project k.columns r)) (sym same) ∙ read-kept_row k e))

  -- A row of another id answers as before.
  stays :
      (e : A) (id' : Text) (rows after : List Row) (r : Row)
      → kept_row k e c ≡ text id'
      → id' ≢ id
      → Replaces k.table (kept_row k e) rows after
      → r c ≡ text id
      → In r after ↔ In r rows
  stays e id' rows after r at other replaces here = (
    λ i. elim ((replaces r).0 i) [
      | inl p ↦ absurd (other (text_injective (sym at ∙ ap (λ m. m c) (sym p) ∙ here)))
      | inr old ↦ old.0
    ],
    λ i. (replaces r).1 (
        inr (
          i,
          λ same.
              other (text_injective (sym at ∙ sym (cons_injective (rw primary at same)).0 ∙ here)),
        )),
  )

  pub Answer-other :
      (e : A) (id' : Text) (rows after : List Row) (x y : Option A)
      → kept_row k e c ≡ text id'
      → id' ≢ id
      → Replaces k.table (kept_row k e) rows after
      → Answer rows x
      → Answer after y
      → y ≡ x
  Answer-other e id' rows after x y at other replaces (inl (n, lacks)) (inl (n', lacks')) =
      n' ∙ sym n
  Answer-other e id' rows after x y at other replaces (inl (n, lacks)) (inr (m, a, i, h, u, f, g)) =
      absurd (lacks m ((stays e id' rows after m at other replaces h).0 i) h)
  Answer-other e id' rows after x y at other replaces (inr (m, a, i, h, u, f, g)) (inl (n, lacks)) =
      absurd (lacks m ((stays e id' rows after m at other replaces h).1 i) h)
  Answer-other e id' rows after x y at other replaces (inr (m, a, i, h, u, f, g))
        (inr (m', a', i', h', u', f', g')) =
      let same = u' m ((stays e id' rows after m at other replaces h).1 i) h in
      f'
      ∙ ap some (ok_injective (sym g' ∙ ap (λ r. k.read (project k.columns r)) (sym same) ∙ g))
      ∙ sym f
