-- ===== src/Chain/Fee.antt =====
-- The estimate that `pick_fee` (src/chain/esplora.rs) chooses.
use cheget.Base.{
  ℕ, ◌≤◌, ◌<◌, ◌≡◌, ◌⊎◌, inl, inr, refl, ap, sym, ◌∙◌, none, some, List, [], ◌∷◌, keep, In,
  In-keep_to, In-keep_of, leb, ltb, Bool-cases, arith,
}
use mathlib.Core.Path.{subst}
use cheget.Chain.Esplora.{larger, smaller, largest, smallest, max_by_key, min_by_key, pick_fee}

module _ {FeeRate : Type 0} where
  larger_lem :
      (e f : ℕ × FeeRate)
      → (e.0 ≤ (larger e f).0) × (f.0 ≤ (larger e f).0) × ((larger e f ≡ e) ⊎ (larger e f ≡ f))
  larger_lem e f = elim (Bool-cases (ltb f.0 e.0)) [
    | inl t ↦ (ground arith, ground arith, inl (rw t refl))
    | inr t ↦ (ground arith, ground arith, inr (rw t refl))
  ]

  In-largest : (e : ℕ × FeeRate) (es : List (ℕ × FeeRate)) → In (largest e es) (e ∷ es)
  unfolding largest
  In-largest e [] = inl refl
  In-largest e (f ∷ es) = elim (In-largest (larger e f) es) [
    | inr i ↦ inr (inr i)
    | inl p ↦ elim (larger_lem e f).2 [ inl q ↦ inl (p ∙ q) | inr q ↦ inr (inl (p ∙ q)) ]
  ]

  largest_first : (e : ℕ × FeeRate) (es : List (ℕ × FeeRate)) → e.0 ≤ (largest e es).0
  unfolding largest
  largest_first e [] = omega arith
  largest_first e (f ∷ es) = omega (arith, largest_first (larger e f) es, (larger_lem e f).0)

  largest_all : (e f : ℕ × FeeRate) (es : List (ℕ × FeeRate)) → In f es → f.0 ≤ (largest e es).0
  unfolding largest
  largest_all e f [] i = absurd i
  largest_all e f (g ∷ es) (inr i) = largest_all (larger e g) f es i
  largest_all e f (g ∷ es) (inl p) =
      omega (arith, largest_first (larger e g) es, (larger_lem e g).1, ap (λ x. x.0) p)

  smaller_lem :
      (e f : ℕ × FeeRate)
      → ((smaller e f).0 ≤ e.0) × ((smaller e f).0 ≤ f.0) × ((smaller e f ≡ e) ⊎ (smaller e f ≡ f))
  smaller_lem e f = elim (Bool-cases (ltb f.0 e.0)) [
    | inl t ↦ (ground arith, ground arith, inr (rw t refl))
    | inr t ↦ (ground arith, ground arith, inl (rw t refl))
  ]

  In-smallest : (e : ℕ × FeeRate) (es : List (ℕ × FeeRate)) → In (smallest e es) (e ∷ es)
  unfolding smallest
  In-smallest e [] = inl refl
  In-smallest e (f ∷ es) = elim (In-smallest (smaller e f) es) [
    | inr i ↦ inr (inr i)
    | inl p ↦ elim (smaller_lem e f).2 [ inl q ↦ inl (p ∙ q) | inr q ↦ inr (inl (p ∙ q)) ]
  ]

  smallest_first : (e : ℕ × FeeRate) (es : List (ℕ × FeeRate)) → (smallest e es).0 ≤ e.0
  unfolding smallest
  smallest_first e [] = omega arith
  smallest_first e (f ∷ es) = omega (arith, smallest_first (smaller e f) es, (smaller_lem e f).0)

  smallest_all : (e f : ℕ × FeeRate) (es : List (ℕ × FeeRate)) → In f es → (smallest e es).0 ≤ f.0
  unfolding smallest
  smallest_all e f [] i = absurd i
  smallest_all e f (g ∷ es) (inr i) = smallest_all (smaller e g) f es i
  smallest_all e f (g ∷ es) (inl p) =
      omega (arith, smallest_first (smaller e g) es, (smaller_lem e g).1, ap (λ x. x.0) p)

  -- Without estimates `pick_fee` gives none. Otherwise it gives, in whichever order the estimates
  -- come, the one of the largest target that is at most the wanted one; and if all targets are
  -- larger, the one of the smallest.
  pub pick_fee_lem :
      (es : List (ℕ × FeeRate)) (target : ℕ)
      → ((es ≡ []) × (pick_fee es target ≡ none))
        ⊎ ((e : ℕ × FeeRate) × In e es
            × (pick_fee es target ≡ some e.1)
            × (((e.0 ≤ target) × ((f : ℕ × FeeRate) → In f es → f.0 ≤ target → f.0 ≤ e.0))
                ⊎ ((f : ℕ × FeeRate) → In f es → (target < f.0) × (e.0 ≤ f.0))))
  unfolding pick_fee max_by_key min_by_key
  pick_fee_lem [] target = inl (refl, refl)
  pick_fee_lem (g ∷ gs) target = go (keep (λ e. leb e.0 target) (g ∷ gs)) refl
    where
      go :
          (near : List (ℕ × FeeRate))
          → keep (λ e. leb e.0 target) (g ∷ gs) ≡ near
          → ((g ∷ gs ≡ []) × (pick_fee (g ∷ gs) target ≡ none))
            ⊎ ((e : ℕ × FeeRate) × In e (g ∷ gs)
                × (pick_fee (g ∷ gs) target ≡ some e.1)
                × (((e.0 ≤ target) × ((f : ℕ × FeeRate) → In f (g ∷ gs) → f.0 ≤ target → f.0 ≤ e.0))
                    ⊎ ((f : ℕ × FeeRate) → In f (g ∷ gs) → (target < f.0) × (e.0 ≤ f.0))))
      go [] p = inr (
        smallest g gs,
        In-smallest g gs,
        rw (pick_fee, max_by_key, p) refl,
        inr (λ f i. (
          elim (Bool-cases (leb f.0 target)) [
            | inl t ↦ absurd (subst (In f) p (In-keep_of (λ e. leb e.0 target) f (g ∷ gs) i t))
            | inr t ↦ ground arith
          ],
          elim i [
            | inl q ↦ omega (arith, smallest_first g gs, ap (λ x. x.0) q)
            | inr j ↦ smallest_all g f gs j
          ],
        )),
      )
      go (n ∷ near) p =
          let (there, close) =
            In-keep_to (λ e. leb e.0 target) (largest n near) (g ∷ gs)
              (subst (In (largest n near)) (sym p) (In-largest n near)) in
          inr (
            largest n near,
            there,
            rw (pick_fee, max_by_key, p) refl,
            inl (
              ground arith,
              λ f i t.
                  elim (subst (In f) p
                    (In-keep_of (λ e. leb e.0 target) f (g ∷ gs) i (ground arith))) [
                      | inl q ↦ omega (arith, largest_first n near, ap (λ x. x.0) q)
                      | inr j ↦ largest_all n f near j
                    ],
            ),
          )
