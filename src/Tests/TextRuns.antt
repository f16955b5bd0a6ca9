-- ===== src/Tests/TextRuns.antt =====
-- Hexadecimal and decimal texts.
use cheget.Base.{ℕ, ◌≡◌, ◌++◌, refl, some, [], ◌∷◌, ok, err, arith}
use cheget.Base.Hex.{
  hex_encode, decode_chunks, hex_decode, slice_panic, to_digit, from_str_radix, is_continuation,
  decode_slices, at_boundary,
}
use cheget.Base.Hex.Laws.{AreBytes, hex_decode-hex_encode, hex_decode_panics, decode_plus}
use cheget.Base.Decimal.{decimal_injective}

two_bytes-AreBytes : AreBytes (171 ∷ 5 ∷ [])
two_bytes-AreBytes = (omega arith, (omega arith, tt))

hex_decode-hex_encode_example : hex_decode (hex_encode (171 ∷ 5 ∷ [])) ≡ ok (171 ∷ 5 ∷ [])
hex_decode-hex_encode_example = hex_decode-hex_encode (171 ∷ 5 ∷ []) two_bytes-AreBytes

-- "AB+f", which is read as two bytes, then "a", an e with an acute accent, which takes two bytes, and
-- "b".
reads_pairs : hex_decode (b'A' ∷ b'B' ∷ b'+' ∷ b'f' ∷ []) ≡ ok (171 ∷ 15 ∷ [])
unfolding hex_decode decode_slices at_boundary is_continuation from_str_radix to_digit
reads_pairs = refl

hex_decode_panics_example :
    hex_decode ((b'A' ∷ b'B' ∷ b'+' ∷ b'f' ∷ []) ++ b'a' ∷ 0xc3 ∷ 0xa9 ∷ b'b' ∷ [])
    ≡ err slice_panic
unfolding is_continuation
hex_decode_panics_example =
    hex_decode_panics (b'A' ∷ b'B' ∷ b'+' ∷ b'f' ∷ []) (171 ∷ 15 ∷ []) b'a' 0xc3 0xa9 (b'b' ∷ [])
      reads_pairs refl refl refl

decode_plus_example : decode_chunks (b'+' ∷ b'f' ∷ b'0' ∷ b'1' ∷ []) ≡ some (15 ∷ 1 ∷ [])
unfolding to_digit decode_chunks from_str_radix
decode_plus_example = decode_plus b'f' 15 (b'0' ∷ b'1' ∷ []) (1 ∷ []) refl refl

decimal_injective_example : ◌≡◌ {A = ℕ} 42 42
decimal_injective_example = decimal_injective 42 42 (omega arith) (omega arith) refl
