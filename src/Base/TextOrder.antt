-- ===== src/Base/TextOrder.antt =====
-- The order of texts byte by byte, as `memcmp` has it.
use mathlib.Core.Path.{◌≡◌, refl, ap₂}
use mathlib.Core.Bool.{Bool, true, false}
use mathlib.Core.List.{[], ◌∷◌}
use native.Mathlib.Omega.{arith}
use cheget.Base.Tests.{Text, ltb, ◌==◌, if◌then◌else◌}

abbrev pub text_ltb : Text → Text → Bool
text_ltb xs [] = false
text_ltb [] (y ∷ ys) = true
text_ltb (x ∷ xs) (y ∷ ys) =
    let rest = text_ltb xs ys in if ltb x y then true else if x == y then rest else false

pub text_irrefl : (xs : Text) → text_ltb xs xs ≡ false
text_irrefl [] = refl
text_irrefl (x ∷ xs) = ground (arith, text_irrefl xs)

pub text_trans :
    (xs ys zs : Text) → text_ltb xs ys ≡ true → text_ltb ys zs ≡ true → text_ltb xs zs ≡ true
text_trans xs [] zs h k = absurd (ground arith)
text_trans xs (y ∷ ys) [] h k = absurd (ground arith)
text_trans [] (y ∷ ys) (z ∷ zs) h k = refl
text_trans (x ∷ xs) (y ∷ ys) (z ∷ zs) h k = ground (arith, text_trans xs ys zs)

pub text_total : (xs ys : Text) → text_ltb xs ys ≡ false → text_ltb ys xs ≡ false → xs ≡ ys
text_total [] [] h k = refl
text_total [] (y ∷ ys) h k = absurd (ground arith)
text_total (x ∷ xs) [] h k = absurd (ground arith)
text_total (x ∷ xs) (y ∷ ys) h k =
    ap₂ ◌∷◌ (ground arith) (text_total xs ys (ground arith) (ground arith))
