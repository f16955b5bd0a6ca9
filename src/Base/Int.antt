-- ===== src/Base/Int.antt =====
-- `i64`, over the native numbers, with its order.
use Prim.Native.Nat.{ℕ, suc}
use mathlib.Core.Path.{◌≡◌, refl, ap}
use mathlib.Core.Logic.{◌≢◌}
use mathlib.Core.Bool.{Bool, true, false}
use native.Mathlib.Decide.{ℕ_discrete}
use native.Mathlib.Omega.{arith}
use cheget.Base.Tests.{ltb}

pub data ℤ : Type 0 where
  pos : ℕ → ℤ
  negsuc : ℕ → ℤ

abbrev pub int_ltb : ℤ → ℤ → Bool
int_ltb (pos a) (pos b) = ltb a b
int_ltb (pos a) (negsuc b) = false
int_ltb (negsuc a) (pos b) = true
int_ltb (negsuc a) (negsuc b) = ltb b a

-- `a as u64` of a number that is not negative, 0 of the others.
abbrev pub magnitude : ℤ → ℕ
magnitude (pos a) = a
magnitude (negsuc a) = suc a

pos-injective : {a b : ℕ} → pos a ≡ pos b → a ≡ b
pos-injective p = ap magnitude p

negsuc-injective : {a b : ℕ} → negsuc a ≡ negsuc b → a ≡ b
negsuc-injective p = omega (arith, ap magnitude p)

pos-ne-negsuc : {a b : ℕ} → pos a ≢ negsuc b
pos-ne-negsuc e = cc

negsuc-ne-pos : {a b : ℕ} → negsuc a ≢ pos b
negsuc-ne-pos e = cc

unfoldable pub int_dec : Discrete ℤ
unfolding ℕ_discrete pos-injective negsuc-injective pos-ne-negsuc negsuc-ne-pos
int_dec (pos a) (pos b) = elim (ℕ_discrete a b) [
  | yes p ↦ yes (ap pos p)
  | no n ↦ no (λ e. n (pos-injective e))
]
int_dec (pos a) (negsuc b) = no pos-ne-negsuc
int_dec (negsuc a) (pos b) = no negsuc-ne-pos
int_dec (negsuc a) (negsuc b) = elim (ℕ_discrete a b) [
  | yes p ↦ yes (ap negsuc p)
  | no n ↦ no (λ e. n (negsuc-injective e))
]

-- The order is strict and total.
pub int_irrefl : (a : ℤ) → int_ltb a a ≡ false
int_irrefl (pos a) = ground arith
int_irrefl (negsuc a) = ground arith

pub int_trans : (a b c : ℤ) → int_ltb a b ≡ true → int_ltb b c ≡ true → int_ltb a c ≡ true
int_trans (pos a) (pos b) (pos c) h k = ground arith
int_trans (pos a) (pos b) (negsuc c) h k = absurd (ground arith)
int_trans (pos a) (negsuc b) c h k = absurd (ground arith)
int_trans (negsuc a) b (pos c) h k = refl
int_trans (negsuc a) (pos b) (negsuc c) h k = absurd (ground arith)
int_trans (negsuc a) (negsuc b) (negsuc c) h k = ground arith

pub int_total : (a b : ℤ) → int_ltb a b ≡ false → int_ltb b a ≡ false → a ≡ b
int_total (pos a) (pos b) h k = ap pos (ground arith)
int_total (pos a) (negsuc b) h k = absurd (ground arith)
int_total (negsuc a) (pos b) h k = absurd (ground arith)
int_total (negsuc a) (negsuc b) h k = ap negsuc (ground arith)
