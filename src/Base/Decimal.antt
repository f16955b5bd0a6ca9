-- ===== src/Base/Decimal.antt =====
-- `format!("{n}")` of an unsigned number: its decimal digits. Twenty digits are enough for a `u64`.
use cheget.Base.{
  ℕ, zero, suc, ◌+◌, ◌-◌, ◌*◌, ◌/◌, ◌%◌, ◌^◌, ◌<◌, ◌≤◌, ◌≡◌, refl, sym, ◌∙◌, ap, length, ◌++◌, [],
  ◌∷◌, Text, ltb, if◌then◌else◌, arith, Bool-cases, inl, inr,
}
use native.Mathlib.Nat.{pow-suc}

unfoldable pub digits_onto : ℕ → ℕ → Text → Text
digits_onto zero n acc = acc
digits_onto (suc k) n acc =
    let more = digits_onto k (n / 10) ((b'0' + n % 10) ∷ acc) in
    if ltb n 10 then (b'0' + n) ∷ acc else more

unfoldable pub decimal : ℕ → Text
unfolding digits_onto
decimal n = digits_onto 20 n []

-- The number that digits spell, behind a number read before them.
value : ℕ → Text → ℕ
value v [] = v
value v (c ∷ cs) = value (v * 10 + (c - b'0')) cs

shrink : (k n : ℕ) → n < 10 ^ suc k → n / 10 < 10 ^ k
shrink k n h = omega (arith, pow-suc 10 k)

nonzero : (k n : ℕ) → n < 10 ^ suc k → 10 ≤ n → 0 < k
nonzero zero n h p = absurd (omega (arith, pow-suc 10 0))
nonzero (suc k) n h p = omega arith

value-digits_onto :
    (k n : ℕ) (acc : Text) → n < 10 ^ k → 0 < k → value 0 (digits_onto k n acc) ≡ value n acc
unfolding value digits_onto
value-digits_onto zero n acc h p = absurd (omega arith)
value-digits_onto (suc k) n acc h p = elim (Bool-cases (ltb n 10)) [
  | inl e ↦ rw e (ap (λ v. value v acc) (omega arith))
  | inr e ↦ rw e (
      value-digits_onto k (n / 10) ((b'0' + n % 10) ∷ acc) (shrink k n h)
        (nonzero k n h (ground arith))
      ∙ ap (λ v. value v acc) (omega arith))
]

-- Numbers below 10 ^ 20 with the same digits are equal.
pub decimal_injective : (a b : ℕ) → a < 10 ^ 20 → b < 10 ^ 20 → decimal a ≡ decimal b → a ≡ b
unfolding decimal value
decimal_injective a b p q h =
    sym (value-digits_onto 20 a [] p (omega arith))
    ∙ ap (value 0) h
    ∙ value-digits_onto 20 b [] q (omega arith)

-- `format!("{n:04}")`: leading zeros up to four digits.
unfoldable pub zeros : ℕ → Text
zeros zero = []
zeros (suc k) = b'0' ∷ zeros k

unfoldable pub padded : ℕ → Text
padded n = zeros (4 - length (decimal n)) ++ decimal n

value-zeros : (k : ℕ) (t : Text) → value 0 (zeros k ++ t) ≡ value 0 t
unfolding value zeros
value-zeros zero t = refl
value-zeros (suc k) t = value-zeros k t

pub padded_injective : (a b : ℕ) → a < 10 ^ 20 → b < 10 ^ 20 → padded a ≡ padded b → a ≡ b
unfolding padded decimal value
padded_injective a b p q h =
    sym
      (value-zeros (4 - length (decimal a)) (decimal a) ∙ value-digits_onto 20 a [] p (omega arith))
    ∙ ap (value 0) h
    ∙ value-zeros (4 - length (decimal b)) (decimal b)
    ∙ value-digits_onto 20 b [] q (omega arith)
