-- ===== src/Coordinator/Orders.antt =====
-- The orders in which `list_roster` and `list_churn` give their entries.
use cheget.Base.{
  ◌≡◌, inl, inr, refl, sym, ◌∙◌, Bool, true, false, Text, if◌then◌else◌, Bool-cases, arith,
}
use mathlib.Core.Path.{ap₂, subst}
use cheget.Base.Int.{ℤ, int_ltb, int_irrefl, int_trans, int_total}
use cheget.Base.TextOrder.{text_ltb, text_irrefl, text_trans, text_total}
use cheget.Base.Sorted.{StrictOrder}

abbrev pub text_order : StrictOrder Text
text_order = record { lt = text_ltb; irrefl = text_irrefl; trans = text_trans; total = text_total }

-- By epoch, then by identifier.
abbrev pub epoch_ltb : ℤ × Text → ℤ × Text → Bool
epoch_ltb (i, t) (j, u) = if int_ltb i j then true else if int_ltb j i then false else text_ltb t u

pub epoch_irrefl : (a : ℤ × Text) → epoch_ltb a a ≡ false
epoch_irrefl (i, t) = ground (arith, int_irrefl i, text_irrefl t)

pub epoch_trans :
    (a b c : ℤ × Text) → epoch_ltb a b ≡ true → epoch_ltb b c ≡ true → epoch_ltb a c ≡ true
epoch_trans (i, t) (j, u) (k, v) p q = elim (Bool-cases (int_ltb i j)) [
  | inl h ↦ elim (Bool-cases (int_ltb j k)) [
    | inl r ↦ rw (int_trans i j k h r) refl
    | inr r ↦ rw (subst (λ x. int_ltb i x ≡ true) (int_total j k r (ground arith)) h) refl
  ]
  | inr h ↦
      let same = int_total i j h (ground arith) in
      let below : text_ltb t u ≡ true = ground arith in
      elim (Bool-cases (int_ltb j k)) [
        | inl r ↦ rw (subst (λ x. int_ltb x k ≡ true) (sym same) r) refl
        | inr r ↦
            let again = int_total j k r (ground arith) in
            let last : text_ltb u v ≡ true = ground arith in
            let equal : i ≡ k = same ∙ again in
            rw (← equal, int_irrefl i) (text_trans t u v below last)
      ]
]

pub epoch_total : (a b : ℤ × Text) → epoch_ltb a b ≡ false → epoch_ltb b a ≡ false → a ≡ b
epoch_total (i, t) (j, u) p q =
    ap₂ (λ (x : ℤ) (y : Text). (x, y)) (int_total i j (ground arith) (ground arith))
      (text_total t u (ground arith) (ground arith))

abbrev pub epoch_order : StrictOrder (ℤ × Text)
epoch_order = record {
  lt = epoch_ltb;
  irrefl = epoch_irrefl;
  trans = epoch_trans;
  total = epoch_total;
}
