-- ===== src/Transport/Encoding.antt =====
-- The id of an envelope is the FNV-1a hash of one byte string, its canonical encoding, and that
-- encoding tells any two envelopes apart whose fields fit their widths.
use cheget.Base.{
  ℕ, ◌+◌, ◌*◌, ◌/◌, ◌^◌, ◌<◌, zero, suc, ◌≡◌, ◌≢◌, refl, sym, ◌∙◌, ap, Option, none, some, List, [],
  ◌∷◌, ◌++◌, length, arith, cons_injective, append_injective,
}
use native.Mathlib.Nat.{pow-suc}
use cheget.Transport.Envelope.{
  Envelope, MessageClass, tag, to_le_bytes, mix, mix_recipient, id, fnv_offset, Seat,
}

encode_recipient : Option Seat → List ℕ
encode_recipient (some r) = 1 ∷ to_le_bytes 2 r
encode_recipient none = 0 ∷ []

pub encode : Envelope → List ℕ
encode e =
    tag e.class ∷ to_le_bytes 8 (length e.ceremony_or_session_id)
    ++ (e.ceremony_or_session_id
        ++ (to_le_bytes 4 e.round
            ++ (to_le_bytes 2 e.seat
                ++ (encode_recipient e.recipient
                    ++ (to_le_bytes 8 (length e.payload) ++ e.payload)))))

-- What `u16`, `u32` and `usize` lengths guarantee.
pub record IsWireSized (e : Envelope) : Type 0 where
  pub id_len : length e.ceremony_or_session_id < 2 ^ 64
  pub round_u32 : e.round < 2 ^ 32
  pub seat_u16 : e.seat < 2 ^ 16
  pub recipient_u16 : (r : Seat) → e.recipient ≡ some r → r < 2 ^ 16
  pub payload_len : length e.payload < 2 ^ 64

mix-append : (xs ys : List ℕ) (h : ℕ) → mix (xs ++ ys) h ≡ mix ys (mix xs h)
unfolding mix
mix-append [] ys h = refl
mix-append (x ∷ xs) ys h = mix-append xs ys _

mix-encode_recipient : (r : Option Seat) (h : ℕ) → mix (encode_recipient r) h ≡ mix_recipient r h
unfolding encode_recipient mix_recipient mix
mix-encode_recipient (some r) h = refl
mix-encode_recipient none h = refl

-- Mixing the fields of an envelope one after another is one FNV-1a pass over its canonical
-- encoding.
id-mix-encode : (e : Envelope) → id e ≡ mix (encode e) fnv_offset
unfolding id encode mix
id-mix-encode e = simp (mix-append, mix-encode_recipient)

mix-lt : (xs : List ℕ) (h : ℕ) → h < 2 ^ 64 → mix xs h < 2 ^ 64
unfolding mix
mix-lt [] h p = p
mix-lt (x ∷ xs) h p = mix-lt xs _ (omega arith)

length-to_le_bytes : (w n : ℕ) → length (to_le_bytes w n) ≡ w
unfolding to_le_bytes
length-to_le_bytes zero n = refl
length-to_le_bytes (suc w) n = ap suc (length-to_le_bytes w (n / 256))

from_le_bytes : List ℕ → ℕ
from_le_bytes [] = 0
from_le_bytes (b ∷ bs) = b + 256 * from_le_bytes bs

below : (w n : ℕ) → n < 256 ^ suc w → n / 256 < 256 ^ w
below w n h = omega (arith, pow-suc 256 w)

from_le_bytes-to_le_bytes : (w n : ℕ) → n < 256 ^ w → from_le_bytes (to_le_bytes w n) ≡ n
unfolding from_le_bytes to_le_bytes
from_le_bytes-to_le_bytes zero n h = omega arith
from_le_bytes-to_le_bytes (suc w) n h =
    omega (arith, from_le_bytes-to_le_bytes w (n / 256) (below w n h))

to_le_bytes_injective :
    (w a b : ℕ) → a < 256 ^ w → b < 256 ^ w → to_le_bytes w a ≡ to_le_bytes w b → a ≡ b
to_le_bytes_injective w a b p q h =
    sym (from_le_bytes-to_le_bytes w a p) ∙ ap from_le_bytes h ∙ from_le_bytes-to_le_bytes w b q

-- `tag` tells the classes apart.
tag_injective : (a b : MessageClass) → tag a ≡ tag b → a ≡ b
unfolding tag
tag_injective a b h = ground arith

-- A fixed-width number in front of two equal strings is the same number.
le_split :
    (w a b : ℕ) {xs ys : List ℕ}
    → a < 256 ^ w
    → b < 256 ^ w
    → to_le_bytes w a ++ xs ≡ to_le_bytes w b ++ ys
    → (a ≡ b) × (xs ≡ ys)
le_split w a b p q h =
    let (e, rest) =
      append_injective (to_le_bytes w a) (to_le_bytes w b)
        (length-to_le_bytes w a ∙ sym (length-to_le_bytes w b)) h in
    (to_le_bytes_injective w a b p q e, rest)

encode_recipient_injective :
    (r s : Option Seat) (xs ys : List ℕ)
    → ((t : Seat) → r ≡ some t → t < 2 ^ 16)
    → ((t : Seat) → s ≡ some t → t < 2 ^ 16)
    → encode_recipient r ++ xs ≡ encode_recipient s ++ ys
    → (r ≡ s) × (xs ≡ ys)
unfolding encode_recipient
encode_recipient_injective none none xs ys p q h = (refl, (cons_injective h).1)
encode_recipient_injective none (some b) xs ys p q h = absurd (omega (arith, (cons_injective h).0))
encode_recipient_injective (some a) none xs ys p q h = absurd (omega (arith, (cons_injective h).0))
encode_recipient_injective (some a) (some b) xs ys p q h =
    let (e, rest) = le_split 2 a b (p a refl) (q b refl) (cons_injective h).1 in (ap some e, rest)

-- The canonical encoding tells apart any two envelopes whose fields fit their widths.
encode_injective : (e f : Envelope) → IsWireSized e → IsWireSized f → encode e ≡ encode f → e ≡ f
unfolding encode
encode_injective e f p q h =
    let (tags, h1) = cons_injective h in
    let (idlen, h2) = le_split 8 _ _ p.id_len q.id_len h1 in
    let (ids, h3) = append_injective e.ceremony_or_session_id f.ceremony_or_session_id idlen h2 in
    let (rounds, h4) = le_split 4 _ _ p.round_u32 q.round_u32 h3 in
    let (seats, h5) = le_split 2 _ _ p.seat_u16 q.seat_u16 h4 in
    let (recipients, h6) =
      encode_recipient_injective e.recipient f.recipient _ _ p.recipient_u16 q.recipient_u16 h5 in
    let (paylen, payloads) = le_split 8 _ _ p.payload_len q.payload_len h6 in
    λ i. record {
      class = tag_injective e.class f.class tags i;
      ceremony_or_session_id = ids i;
      round = rounds i;
      seat = seats i;
      recipient = recipients i;
      payload = payloads i;
    }

-- The ids of two different envelopes whose fields fit their widths are the hashes of two different
-- byte strings: each id is one pass of the hash over the tag of the class, the length and the bytes
-- of the session's name, the round, the seat, the recipient, and the length and the bytes of the
-- payload, and these strings differ.
pub id_lem :
    (e f : Envelope)
    → IsWireSized e
    → IsWireSized f
    → e ≢ f
    → (id e ≡ mix (encode e) fnv_offset)
      × (id f ≡ mix (encode f) fnv_offset)
      × (encode e ≢ encode f)
id_lem e f p q other =
    (id-mix-encode e, id-mix-encode f, λ same. other (encode_injective e f p q same))

-- An id is a `u64`.
pub id-lt : (e : Envelope) → id e < 2 ^ 64
id-lt e = rw id-mix-encode (mix-lt (encode e) fnv_offset (omega arith))
