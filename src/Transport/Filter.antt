-- ===== src/Transport/Filter.antt =====
-- src/transport/mod.rs, `Filter`: every field that is set must match, and a directed envelope
-- reaches only a filter that names its recipient.
use cheget.Base.{
  ℕ, ℕ_discrete, ◌≡◌, ◌↔◌, ◌⊎◌, Bool, true, false, not, Option, none, some, Text, text_dec, eqb,
  if◌then◌else◌, arith,
}
use cheget.Transport.Envelope.{Envelope, MessageClass, class_dec, Seat}

pub record Filter : Type 0 where
  pub class : Option MessageClass
  pub ceremony_or_session_id : Option Text
  pub round : Option ℕ
  pub seat : Option Seat
  pub recipient : Option Seat

unfoldable pub all : Filter
all = record {
  class = none;
  ceremony_or_session_id = none;
  round = none;
  seat = none;
  recipient = none;
}

unfoldable pub class : MessageClass → Filter → Filter
class c f = record f { class = some c }

unfoldable pub ceremony : Text → Filter → Filter
ceremony id f = record f { ceremony_or_session_id = some id }

unfoldable pub round : ℕ → Filter → Filter
round n f = record f { round = some n }

unfoldable pub seat : Seat → Filter → Filter
seat s f = record f { seat = some s }

unfoldable pub recipient : Seat → Filter → Filter
recipient s f = record f { recipient = some s }

-- `if let Some(want) = field { if want != have { return false } }`
abbrev admits {ℓ} : {A : Type ℓ} → Discrete A → Option A → A → Bool
admits dec none have = true
admits dec (some want) have = eqb dec want have

-- The last `match`: a directed envelope goes to its recipient only, a broadcast to everybody.
abbrev delivers : Option Seat → Option Seat → Bool
delivers (some to) (some mine) = eqb ℕ_discrete mine to
delivers (some to) none = false
delivers none mine = true

unfoldable pub matches : Filter → Envelope → Bool
matches f e =
    if not (admits class_dec f.class e.class)
    then false
    else if not (admits text_dec f.ceremony_or_session_id e.ceremony_or_session_id)
    then false
    else if not (admits ℕ_discrete f.round e.round)
    then false
    else if not (admits ℕ_discrete f.seat e.seat)
    then false
    else delivers e.recipient f.recipient

-- A field that is unset, or set to the envelope's.
abbrev pub Fits {ℓ} : {A : Type ℓ} → Option A → A → Type ℓ
Fits want have = (want ≡ none) ⊎ (want ≡ some have)

-- An envelope matches a filter exactly when each of the four selectors is unset or equal, and its
-- recipient is either nobody in particular or the one that the filter names.
pub matches_iff :
    (f : Filter) (e : Envelope)
    → (matches f e ≡ true) ↔ (
        Fits f.class e.class
        × Fits f.ceremony_or_session_id e.ceremony_or_session_id
        × Fits f.round e.round
        × Fits f.seat e.seat
        × ((e.recipient ≡ none) ⊎ ((s : Seat) × (e.recipient ≡ some s) × (f.recipient ≡ some s))))
unfolding matches
matches_iff f e = ground arith
