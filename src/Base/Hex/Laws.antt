-- ===== src/Base/Hex/Laws.antt =====
-- Decoding inverts encoding, and what else the decoders accept or do.
use cheget.Base.{
  ℕ, ◌*◌, ◌/◌, ◌%◌, ◌<◌, ◌≡◌, ◌≢◌, refl, some, List, [], ◌∷◌, ◌++◌, Text, length, length-append,
  arith, ok, err, true, false, Result-cases, Option-cases, inl, inr,
}
use cheget.Base.Hex.{
  hex_digit, to_digit, from_str_radix, hex_encode, decode_chunks, is_continuation, at_boundary,
  slice_panic, decode_slices, hex_decode,
}

abbrev pub AreBytes : List ℕ → Type 0
AreBytes [] = Unit
AreBytes (b ∷ bytes) = (b < 256) × AreBytes bytes

to_digit-hex_digit :
    (n : ℕ)
    → n < 16
    → (to_digit (hex_digit n) ≡ some n) × (hex_digit n ≢ b'+') × (hex_digit n < 128)
unfolding to_digit hex_digit
to_digit-hex_digit n h = (ground arith, ground arith, ground arith)

from_str_radix-hex_digit :
    (b : ℕ) → b < 256 → from_str_radix (hex_digit (b / 16)) (hex_digit (b % 16)) ≡ some b
unfolding from_str_radix
from_str_radix-hex_digit b h =
    let (hi, plus, low) = to_digit-hex_digit (b / 16) (omega arith) in
    let (lo, _, _) = to_digit-hex_digit (b % 16) (omega arith) in ground arith

-- The loop of `seat_from_hex` reads back the bytes that `seat_hex` wrote.
pub decode_chunks-hex_encode :
    (bytes : List ℕ) → AreBytes bytes → decode_chunks (hex_encode bytes) ≡ some bytes
unfolding decode_chunks hex_encode
decode_chunks-hex_encode [] h = refl
decode_chunks-hex_encode (b ∷ bytes) h =
    ground (arith, from_str_radix-hex_digit b h.0, decode_chunks-hex_encode bytes h.1)

at_boundary-hex_encode : (bytes : List ℕ) → AreBytes bytes → at_boundary (hex_encode bytes) ≡ true
unfolding at_boundary hex_encode is_continuation
at_boundary-hex_encode [] h = refl
at_boundary-hex_encode (b ∷ bytes) h =
    let (_, _, low) = to_digit-hex_digit (b / 16) (omega arith) in ground arith

decode_slices-hex_encode :
    (bytes : List ℕ) → AreBytes bytes → decode_slices (hex_encode bytes) ≡ ok bytes
unfolding decode_slices hex_encode
decode_slices-hex_encode [] h = refl
decode_slices-hex_encode (b ∷ bytes) h = ground (
  arith,
  from_str_radix-hex_digit b h.0,
  at_boundary-hex_encode bytes h.1,
  decode_slices-hex_encode bytes h.1,
)

pub length-hex_encode : (bytes : List ℕ) → length (hex_encode bytes) ≡ 2 * length bytes
unfolding hex_encode
length-hex_encode [] = omega arith
length-hex_encode (b ∷ bytes) = omega (arith, length-hex_encode bytes)

-- `hex_decode` reads back the bytes that `hex_encode` wrote, and does not panic on them.
pub hex_decode-hex_encode :
    (bytes : List ℕ) → AreBytes bytes → hex_decode (hex_encode bytes) ≡ ok bytes
unfolding hex_decode
hex_decode-hex_encode bytes h =
    ground (arith, length-hex_encode bytes, decode_slices-hex_encode bytes h)

-- A pair that starts with `+` is read as its one digit, by both decoders, though it is no hex.
pub decode_plus :
    (c n : ℕ) (rest : Text) (bytes : List ℕ)
    → to_digit c ≡ some n
    → decode_chunks rest ≡ some bytes
    → decode_chunks (b'+' ∷ c ∷ rest) ≡ some (n ∷ bytes)
unfolding decode_chunks from_str_radix
decode_plus c n rest bytes h k = ground arith

boundary-append :
    (pairs : Text) (a : ℕ) (rest : Text)
    → at_boundary pairs ≡ true
    → is_continuation a ≡ false
    → at_boundary (pairs ++ a ∷ rest) ≡ true
unfolding at_boundary
boundary-append [] a rest h p = ground arith
boundary-append (x ∷ pairs) a rest h p = h

panics :
    (pairs : Text) (bytes : List ℕ) (a b c : ℕ) (rest : Text)
    → decode_slices pairs ≡ ok bytes
    → is_continuation c ≡ true
    → is_continuation a ≡ false
    → decode_slices (pairs ++ a ∷ b ∷ c ∷ rest) ≡ err slice_panic
unfolding decode_slices at_boundary
panics [] bytes a b c rest h p q =
    let cut : at_boundary (c ∷ rest) ≡ false = ground arith in ground arith
panics (x ∷ []) bytes a b c rest h p q = absurd (ground arith)
panics (x ∷ y ∷ pairs) bytes a b c rest h p q = elim (Result-cases (decode_slices pairs)) [
  | inr (e, r) ↦ absurd (ground arith)
  | inl (more, r) ↦
      let behind = panics pairs more a b c rest r p q in
      let whole : at_boundary pairs ≡ true = ground arith in
      let fits = boundary-append pairs a (b ∷ c ∷ rest) whole q in
      elim (Option-cases (from_str_radix x y)) [
        | inl n ↦ absurd (ground arith)
        | inr (n, m) ↦ ground arith
      ]
]

-- An even text in which, behind pairs that `hex_decode` accepts, a character of more than one byte
-- straddles the end of a pair makes `hex_decode` panic.
pub hex_decode_panics :
    (pairs : Text) (bytes : List ℕ) (a b c : ℕ) (rest : Text)
    → hex_decode pairs ≡ ok bytes
    → is_continuation c ≡ true
    → is_continuation a ≡ false
    → length rest % 2 ≡ 1
    → hex_decode (pairs ++ a ∷ b ∷ c ∷ rest) ≡ err slice_panic
unfolding hex_decode
hex_decode_panics pairs bytes a b c rest h p q odd =
    let even : length pairs % 2 ≡ 0 = ground arith in
    let read : decode_slices pairs ≡ ok bytes = ground arith in
    ground
      (arith, length-append {0} pairs (a ∷ b ∷ c ∷ rest), panics pairs bytes a b c rest read p q)
