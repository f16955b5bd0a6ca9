-- ===== src/Transport/Envelope.antt =====
-- src/transport/envelope.rs: the message unit, its constructors and its content-derived id. A seat
-- (`u16`) and an envelope id (`u64`) are the numbers that they wrap.
use Prim.Native.Nat.{bit_xor}
use cheget.Base.{ℕ, ◌*◌, ◌%◌, ◌/◌, ◌^◌, zero, suc, Option, none, some, List, [], ◌∷◌, Text, length}

abbrev pub Seat : Type 0
Seat = ℕ

abbrev pub EnvelopeId : Type 0
EnvelopeId = ℕ

pub data MessageClass : Type 0 where
  ceremony_open round1_package round2_bundle commitments signature_share : MessageClass
  confirmation session_control : MessageClass

unfoldable pub class_dec : Discrete MessageClass
class_dec = hlevel

unfoldable pub tag : MessageClass → ℕ
tag ceremony_open = 1
tag round1_package = 2
tag round2_bundle = 3
tag commitments = 4
tag signature_share = 5
tag confirmation = 6
tag session_control = 7

pub record Envelope : Type 0 where
  pub class : MessageClass
  pub ceremony_or_session_id : Text
  pub round : ℕ
  pub seat : Seat
  pub recipient : Option Seat
  pub payload : List ℕ

unfoldable pub broadcast : MessageClass → Text → ℕ → Seat → List ℕ → Envelope
broadcast class id round seat payload = record {
  class = class;
  ceremony_or_session_id = id;
  round = round;
  seat = seat;
  recipient = none;
  payload = payload;
}

unfoldable pub directed : MessageClass → Text → ℕ → Seat → Seat → List ℕ → Envelope
directed class id round seat recipient payload = record {
  class = class;
  ceremony_or_session_id = id;
  round = round;
  seat = seat;
  recipient = some recipient;
  payload = payload;
}

-- `to_le_bytes` of a number of `w` bytes.
unfoldable pub to_le_bytes : ℕ → ℕ → List ℕ
to_le_bytes zero n = []
to_le_bytes (suc w) n = n % 256 ∷ to_le_bytes w (n / 256)

abbrev pub fnv_offset : ℕ
fnv_offset = 0xcbf2_9ce4_8422_2325

abbrev pub fnv_prime : ℕ
fnv_prime = 0x0000_0100_0000_01b3

-- The closure `mix`, over the running hash `h`.
unfoldable pub mix : List ℕ → ℕ → ℕ
mix [] h = h
mix (b ∷ bytes) h = mix bytes (bit_xor h b * fnv_prime % 2 ^ 64)

-- The `match` on the recipient.
unfoldable pub mix_recipient : Option Seat → ℕ → ℕ
mix_recipient (some r) h = mix (to_le_bytes 2 r) (mix (1 ∷ []) h)
mix_recipient none h = mix (0 ∷ []) h

unfoldable pub id : Envelope → EnvelopeId
id e =
    let h1 = mix (tag e.class ∷ []) fnv_offset in
    let h2 = mix (to_le_bytes 8 (length e.ceremony_or_session_id)) h1 in
    let h3 = mix e.ceremony_or_session_id h2 in
    let h4 = mix (to_le_bytes 4 e.round) h3 in
    let h5 = mix (to_le_bytes 2 e.seat) h4 in
    let h6 = mix_recipient e.recipient h5 in
    let h7 = mix (to_le_bytes 8 (length e.payload)) h6 in mix e.payload h7
