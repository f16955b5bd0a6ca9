-- ===== src/Base/Sorted.antt =====
-- Lists in a strict order are determined by their members.
use Prim.Native.Nat.{ℕ, zero, suc}
use mathlib.Core.Path.{◌≡◌, refl, ap, ap₂, sym, ◌∙◌, subst}
use mathlib.Core.Logic.{◌⊎◌, inl, inr, ◌↔◌, ◌≢◌}
use mathlib.Core.Bool.{Bool, true, false}
use native.Mathlib.Omega.{arith}
use cheget.Base.Tests.{if◌then◌else◌, Bool-cases}
use mathlib.Core.List.{List, [], ◌∷◌}
use cheget.Base.Lists.{In, take}

module _ {A : Type 0} where
  -- Every element stands in `R` to each that follows it.
  abbrev pub Pairwise : (A → A → Type 0) → List A → Type 0
  Pairwise R [] = Unit
  Pairwise R (x ∷ xs) = ((y : A) → In y xs → R x y) × Pairwise R xs

  pub In-take : (n : ℕ) (a : A) (xs : List A) → In a (take n xs) → In a xs
  In-take zero a xs h = absurd h
  In-take (suc n) a [] h = absurd h
  In-take (suc n) a (x ∷ xs) (inl e) = inl e
  In-take (suc n) a (x ∷ xs) (inr i) = inr (In-take n a xs i)

  pub Pairwise-take :
      (R : A → A → Type 0) (n : ℕ) (xs : List A) → Pairwise R xs → Pairwise R (take n xs)
  Pairwise-take R zero xs h = tt
  Pairwise-take R (suc n) [] h = tt
  Pairwise-take R (suc n) (x ∷ xs) h = (λ y i. h.0 y (In-take n y xs i), Pairwise-take R n xs h.1)

module _ {A : Type 0} (R : A → A → Type 0) (irrefl : (a : A) → R a a → ⊥)
    (trans : (a b c : A) → R a b → R b c → R a c) where
  heads :
      (x y : A) (xs ys : List A)
      → Pairwise R (x ∷ xs)
      → Pairwise R (y ∷ ys)
      → In x (y ∷ ys)
      → In y (x ∷ xs)
      → x ≡ y
  heads x y xs ys s t (inl p) k = p
  heads x y xs ys s t (inr i) (inl p) = sym p
  heads x y xs ys s t (inr i) (inr j) = absurd (irrefl x (trans x y x (s.0 y j) (t.0 x i)))

  tails : (x a : A) (xs ys : List A) → Pairwise R (x ∷ xs) → In a xs → In a (x ∷ ys) → In a ys
  tails x a xs ys s i (inl p) = absurd (irrefl x (rw p at (s.0 a i)))
  tails x a xs ys s i (inr j) = j

  pub sorted_ext :
      (xs ys : List A)
      → Pairwise R xs
      → Pairwise R ys
      → ((a : A) → In a xs → In a ys)
      → ((a : A) → In a ys → In a xs)
      → xs ≡ ys
  sorted_ext [] [] s t f g = refl
  sorted_ext [] (y ∷ ys) s t f g = absurd (g y (inl refl))
  sorted_ext (x ∷ xs) [] s t f g = absurd (f x (inl refl))
  sorted_ext (x ∷ xs) (y ∷ ys) s t f g =
      let p = heads x y xs ys s t (f x (inl refl)) (g y (inl refl)) in
      ap₂ ◌∷◌ p (
        sorted_ext xs ys s.1 t.1 (λ a i. tails x a xs ys s i (rw p (f a (inr i))))
          (λ a i. tails y a ys xs t i (rw (← p) (g a (inr i)))))

pub record StrictOrder (K : Type 0) : Type 0 where
  pub lt : K → K → Bool
  pub irrefl : (a : K) → lt a a ≡ false
  pub trans : (a b c : K) → lt a b ≡ true → lt b c ≡ true → lt a c ≡ true
  pub total : (a b : K) → lt a b ≡ false → lt b a ≡ false → a ≡ b

module _ {A K : Type 0} (order : StrictOrder K) (key : A → K) where
  abbrev pub Before : A → A → Type 0
  Before a b = order.lt (key a) (key b) ≡ true

  -- An element takes its place in the order, and the place of the one that has its key.
  unfoldable pub put : A → List A → List A
  put e [] = e ∷ []
  put e (x ∷ xs) =
      let rest = put e xs in
      if order.lt (key e) (key x)
      then e ∷ x ∷ xs
      else if order.lt (key x) (key e)
      then x ∷ rest
      else e ∷ xs

  Before-irrefl : (a : A) → Before a a → ⊥
  Before-irrefl a h = ground (arith, order.irrefl (key a))

  Before-trans : (a b c : A) → Before a b → Before b c → Before a c
  Before-trans a b c h k = order.trans (key a) (key b) (key c) h k

  Before-ne : (a b : A) → Before a b → key a ≢ key b
  Before-ne a b h e = ground (arith, order.irrefl (key a))

  -- What follows an element that comes after `e` comes after `e`.
  after_head :
      (e a x : A) (xs : List A) → Before e x → Pairwise Before (x ∷ xs) → In a (x ∷ xs) → Before e a
  after_head e a x xs h s (inl p) = rw p h
  after_head e a x xs h s (inr i) = Before-trans e x a h (s.0 a i)

  pub In-put :
      (e a : A) (xs : List A)
      → Pairwise Before xs
      → In a (put e xs) ↔ ((a ≡ e) ⊎ (In a xs × (key a ≢ key e)))
  unfolding put
  In-put e a [] s = (
    λ i. elim i [ inl p ↦ inl p | inr none_left ↦ absurd none_left ],
    λ i. elim i [ inl p ↦ inl p | inr n ↦ absurd n.0 ],
  )
  In-put e a (x ∷ xs) s = elim (Bool-cases (order.lt (key e) (key x))) [
    | inl t ↦ rw t (
      λ i. elim i [
        | inl p ↦ inl p
        | inr j ↦ inr (j, λ q. Before-ne e a (after_head e a x xs t s j) (sym q))
      ],
      λ i. elim i [ inl p ↦ inl p | inr n ↦ inr n.0 ],
    )
    | inr t ↦ elim (Bool-cases (order.lt (key x) (key e))) [
      | inl u ↦
          rw (t, u)
            (
              λ i. elim i [
                | inl p ↦ inr (inl p, λ q. Before-ne x e u (sym (ap key p) ∙ q))
                | inr j ↦ elim ((In-put e a xs s.1).0 j) [
                  | inl p ↦ inl p
                  | inr (m, n) ↦ inr (inr m, n)
                ]
              ],
              λ i. elim i [
                | inl p ↦ inr ((In-put e a xs s.1).1 (inl p))
                | inr (inl p, n) ↦ inl p
                | inr (inr m, n) ↦ inr ((In-put e a xs s.1).1 (inr (m, n)))
              ],
            )
      | inr u ↦
          let same = order.total (key e) (key x) t u in
          rw (t, u)
            (
              λ i. elim i [
                | inl p ↦ inl p
                | inr j ↦ inr (inr j, λ q. Before-ne x a (s.0 a j) (sym (q ∙ same)))
              ],
              λ i. elim i [
                | inl p ↦ inl p
                | inr (inl p, n) ↦ absurd (n (ap key p ∙ sym same))
                | inr (inr m, n) ↦ inr m
              ],
            )
    ]
  ]

  pub put-Pairwise : (e : A) (xs : List A) → Pairwise Before xs → Pairwise Before (put e xs)
  unfolding put
  put-Pairwise e [] s = (λ y i. absurd i, tt)
  put-Pairwise e (x ∷ xs) s = elim (Bool-cases (order.lt (key e) (key x))) [
    | inl t ↦ rw t (λ y i. after_head e y x xs t s i, s)
    | inr t ↦ elim (Bool-cases (order.lt (key x) (key e))) [
      | inl u ↦
          rw (t, u)
            (
              λ y i. elim ((In-put e y xs s.1).0 i) [ inl p ↦ rw p u | inr (m, n) ↦ s.0 y m ],
              put-Pairwise e xs s.1,
            )
      | inr u ↦
          rw (t, u)
            (
              λ y i.
                  subst (λ k. order.lt k (key y) ≡ true) (sym (order.total (key e) (key x) t u))
                    (s.0 y i),
              s.1,
            )
    ]
  ]

  -- A list in order is determined by its members.
  pub Before-ext :
      (xs ys : List A)
      → Pairwise Before xs
      → Pairwise Before ys
      → ((a : A) → In a xs ↔ In a ys)
      → xs ≡ ys
  Before-ext xs ys s t f =
      sorted_ext Before Before-irrefl Before-trans xs ys s t (λ a. (f a).0) (λ a. (f a).1)
