-- ===== src/Base/Hex.antt =====
-- The hexadecimal spelling of byte strings: `format!("{b:02x}")`, `u8::from_str_radix(s, 16)` and
-- the two decoders of the program (src/store/manifest.rs, src/store/participant.rs,
-- src/cli/address.rs). A text is the list of its UTF-8 bytes.
pub mod Laws
use Prim.Native.Nat.{ℕ, zero, suc, ◌+◌, ◌-◌, ◌*◌, ◌/◌, ◌%◌}
use mathlib.Core.Bool.{Bool, true, false, ◌&&◌, ◌||◌}
use mathlib.Core.Option.{Option, none, some}
use mathlib.Core.List.{List, [], ◌∷◌}
use cheget.Base.Tests.{Text, ltb, leb, ◌==◌, if◌then◌else◌}
use cheget.Base.Lists.{length}
use cheget.Base.Results.{Result, ok, err, ◌>>=◌, ok_or}

-- A nibble, in lower case.
unfoldable pub hex_digit : ℕ → ℕ
hex_digit n = if ltb n 10 then b'0' + n else b'a' + (n - 10)

-- `char::to_digit(16)`
unfoldable pub to_digit : ℕ → Option ℕ
to_digit c =
    if leb b'0' c && leb c b'9'
    then some (c - b'0')
    else if leb b'a' c && leb c b'f'
    then some (c - b'a' + 10)
    else if leb b'A' c && leb c b'F'
    then some (c - b'A' + 10)
    else none

abbrev two_digits : Option ℕ → Option ℕ → Option ℕ
two_digits (some a) (some b) = some (a * 16 + b)
two_digits _ _ = none

-- `u8::from_str_radix(s, 16)` of a text of two bytes: a leading `+` is a sign, and is skipped.
unfoldable pub from_str_radix : ℕ → ℕ → Option ℕ
from_str_radix a b = if a == b'+' then to_digit b else two_digits (to_digit a) (to_digit b)

-- `seat_hex` and `hex_encode`: two digits for each byte.
unfoldable pub hex_encode : List ℕ → Text
hex_encode [] = []
hex_encode (b ∷ bytes) = hex_digit (b / 16) ∷ hex_digit (b % 16) ∷ hex_encode bytes

-- The loop of `seat_from_hex` over `as_bytes().chunks(2)`. A pair that is no UTF-8 has a byte above
-- 127, which is no digit either, so both of its refusals are the one `none` here.
unfoldable pub decode_chunks : Text → Option (List ℕ)
decode_chunks [] = some []
decode_chunks (a ∷ []) = none
decode_chunks (a ∷ b ∷ rest) = elim (from_str_radix a b) [
  | none ↦ none
  | some n ↦ elim (decode_chunks rest) [ none ↦ none | some ns ↦ some (n ∷ ns) ]
]

-- A UTF-8 continuation byte: no character starts there.
unfoldable pub is_continuation : ℕ → Bool
is_continuation c = leb 128 c && ltb c 192

-- `s[i..i + 2]` panics if a character straddles its end.
unfoldable pub at_boundary : Text → Bool
at_boundary [] = true
at_boundary (c ∷ rest) = if is_continuation c then false else true

pub data HexError : Type 0 where
  malformed slice_panic : HexError

-- The loop of `hex_decode` over the even positions, up to the first pair that fails.
unfoldable pub decode_slices : Text → Result HexError (List ℕ)
decode_slices [] = ok []
decode_slices (a ∷ []) = err malformed
decode_slices (a ∷ b ∷ rest) =
    let more = decode_slices rest in
    if at_boundary rest
    then (do n ← ok_or (from_str_radix a b) malformed; ns ← more; ok (n ∷ ns))
    else err slice_panic

unfoldable pub hex_decode : Text → Result HexError (List ℕ)
hex_decode s = if length s % 2 == 0 then decode_slices s else err malformed
