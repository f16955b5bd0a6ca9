-- ===== src/Coordinator/Listing/Collected.antt =====
-- What `collect_rows` gives of the rows that a cursor yields, and how an insertion changes it.
use cheget.Base.{
  ◌≡◌, inl, inr, refl, sym, ap, ◌∙◌, List, [], ◌∷◌, Result, ok, err, Result-cases, In, ok_injective,
  arith,
}
use mathlib.Core.Path.{subst}
use cheget.Base.Sorted.{Pairwise}
use cheget.Coordinator.Sql.{SqlError, Value, Row, project}
use cheget.Coordinator.Sqlite.{Yields}
use cheget.Coordinator.Kept.{Kept}
use cheget.Coordinator.Store.{collect_rows}

module _ {A : Type 0} (k : Kept A) where
  -- The row holds the struct.
  abbrev pub Reads : Row → A → Type 0
  Reads m a = k.read (project k.columns m) ≡ ok a

  abbrev pub AllRead : List Row → List A → Type 0
  AllRead [] [] = Unit
  AllRead [] (a ∷ bs) = ⊥
  AllRead (m ∷ ms) [] = ⊥
  AllRead (m ∷ ms) (a ∷ bs) = Reads m a × AllRead ms bs

  pub collected :
      (results : List (Result SqlError (List Value))) (ms : List Row) (xs : List A)
      → Yields k.columns results ms
      → collect_rows k.read results ≡ ok xs
      → AllRead ms xs
  unfolding collect_rows
  collected [] [] xs y h = rw (← ok_injective h) tt
  collected [] (m ∷ ms) xs y h = absurd y
  collected (err e ∷ rest) ms xs y h = absurd (ground arith)
  collected (ok values ∷ rest) [] xs y h = absurd y
  collected (ok values ∷ rest) (m ∷ ms) xs y h = elim (Result-cases (k.read values)) [
    | inr (e, r) ↦ absurd (ground arith)
    | inl (a, r) ↦ elim (Result-cases (collect_rows k.read rest)) [
      | inr (e, t) ↦ absurd (ground arith)
      | inl (bs, t) ↦
          let all : a ∷ bs ≡ xs = ok_injective {E = SqlError} (ground arith) in
          subst (AllRead (m ∷ ms)) all (ap k.read (sym y.0) ∙ r, collected rest ms bs y.1 t)
    ]
  ]

  pub In-AllRead_to :
      (a : A) (ms : List Row) (xs : List A)
      → AllRead ms xs
      → In a xs
      → (m : Row) × In m ms × Reads m a
  In-AllRead_to a [] [] h i = absurd i
  In-AllRead_to a [] (x ∷ xs) h i = absurd h
  In-AllRead_to a (m ∷ ms) [] h i = absurd h
  In-AllRead_to a (m ∷ ms) (x ∷ xs) h (inl p) = (m, inl refl, h.0 ∙ ap ok (sym p))
  In-AllRead_to a (m ∷ ms) (x ∷ xs) h (inr i) =
      let (m', j, r) = In-AllRead_to a ms xs h.1 i in (m', inr j, r)

  pub In-AllRead_of :
      (m : Row) (a : A) (ms : List Row) (xs : List A)
      → AllRead ms xs
      → In m ms
      → Reads m a
      → In a xs
  In-AllRead_of m a [] xs h i r = absurd i
  In-AllRead_of m a (m' ∷ ms) [] h i r = absurd h
  In-AllRead_of m a (m' ∷ ms) (x ∷ xs) h (inl p) r =
      inl (ok_injective (sym r ∙ ap (λ n. k.read (project k.columns n)) p ∙ h.0))
  In-AllRead_of m a (m' ∷ ms) (x ∷ xs) h (inr i) r = inr (In-AllRead_of m a ms xs h.1 i r)

  -- An order of the rows is one of what they hold.
  pub Pairwise-AllRead :
      (P : Row → Type 0) (Q : Row → Row → Type 0) (R : A → A → Type 0)
      → ((m m' : Row) (a a' : A) → P m → P m' → Reads m a → Reads m' a' → Q m m' → R a a')
      → (ms : List Row) (xs : List A) → ((m : Row) → In m ms → P m)
      → AllRead ms xs
      → Pairwise Q ms
      → Pairwise R xs
  Pairwise-AllRead P Q R f [] [] p h s = tt
  Pairwise-AllRead P Q R f [] (x ∷ xs) p h s = absurd h
  Pairwise-AllRead P Q R f (m ∷ ms) [] p h s = absurd h
  Pairwise-AllRead P Q R f (m ∷ ms) (x ∷ xs) p h s = (
    λ y i.
        let (m', j, r) = In-AllRead_to y ms xs h.1 i in
        f m m' x y (p m (inl refl)) (p m' (inr j)) h.0 r (s.0 m' j),
    Pairwise-AllRead P Q R f ms xs (λ n i. p n (inr i)) h.1 s.1,
  )
