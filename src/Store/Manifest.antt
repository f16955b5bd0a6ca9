-- ===== src/Store/Manifest.antt =====
-- src/store/manifest.rs: the plaintext index of the encrypted shares. A seat is a FROST
-- `Identifier`, a type of another package, used through its canonical bytes; JSON is serde's.
pub mod Tags
pub mod Unique
pub mod Json
use cheget.Base.{
  ℕ, ℕ_discrete, Bool, not, ◌&&◌, ◌||◌, Option, none, some, List, [], ◌∷◌, ◌++◌, Text, text_dec,
  eqb, ltb, ◌==◌, if◌then◌else◌, find, keep, length, Result, ok, err, ok_or, ◌>>=◌,
}
use cheget.Base.Hex.{hex_encode}
use cheget.Store.Errors.{StoreError, json, schema}

abbrev pub current_schema_version : ℕ
current_schema_version = 1

pub data ShareState : Type 0 where
  active standby retired : ShareState

pub record ShareEntry : Type 0 where
  pub key_id : Text
  pub epoch : ℕ
  pub seat : Text
  pub state : ShareState
  pub created_at : ℕ

pub record Manifest : Type 0 where
  pub schema_version : ℕ
  pub shares : List ShareEntry

unfoldable pub new : Manifest
new = record { schema_version = current_schema_version; shares = [] }

-- The three parts of a tag agree.
unfoldable pub has_tag : Text → ℕ → Text → ShareEntry → Bool
has_tag key_id epoch seat e =
    eqb text_dec e.key_id key_id && eqb ℕ_discrete e.epoch epoch && eqb text_dec e.seat seat

-- `iter_mut().find(p)` and the write through the reference: the first hit is replaced, or `none`.
unfoldable pub replace_first :
    (ShareEntry → Bool) → ShareEntry → List ShareEntry → Option (List ShareEntry)
replace_first p e [] = none
replace_first p e (x ∷ xs) =
    let rest = replace_first p e xs in
    if p x then some (e ∷ xs) else elim rest [ none ↦ none | some ys ↦ some (x ∷ ys) ]

unfoldable pub add_entry : ShareEntry → Manifest → Manifest
add_entry e m = elim (replace_first (has_tag e.key_id e.epoch e.seat) e m.shares) [
  | some shares ↦ record m { shares = shares }
  | none ↦ record m { shares = m.shares ++ (e ∷ []) }
]

module _ {SeatId : Type 0} (bytes : SeatId → List ℕ) where
  unfoldable pub seat_hex : SeatId → Text
  seat_hex seat = hex_encode (bytes seat)

  unfoldable pub new_entry : Text → ℕ → SeatId → ShareState → ℕ → ShareEntry
  new_entry key_id epoch seat state created_at = record {
    key_id = key_id;
    epoch = epoch;
    seat = seat_hex seat;
    state = state;
    created_at = created_at;
  }

  unfoldable pub entry_matches : Text → ℕ → SeatId → ShareEntry → Bool
  entry_matches key_id epoch seat e = has_tag key_id epoch (seat_hex seat) e

  unfoldable pub lookup : Text → ℕ → SeatId → Manifest → Option ShareEntry
  lookup key_id epoch seat m = find (entry_matches key_id epoch seat) m.shares

  unfoldable pub remove : Text → ℕ → SeatId → Manifest → Manifest × Bool
  remove key_id epoch seat m =
      let before = length m.shares in
      let shares = keep (λ e. not (entry_matches key_id epoch seat e)) m.shares in
      (record m { shares = shares }, not (length shares == before))

-- `serde_json::to_vec_pretty` and `from_slice`.
module _ (to_vec : Manifest → Option (List ℕ)) (from_slice : List ℕ → Option Manifest) where
  unfoldable pub to_json_bytes : Manifest → Result StoreError (List ℕ)
  to_json_bytes m = ok_or (to_vec m) json

  unfoldable pub from_json_bytes : List ℕ → Result StoreError Manifest
  from_json_bytes bytes = do
    m ← ok_or (from_slice bytes) json
    if m.schema_version == 0 || ltb current_schema_version m.schema_version
        then err schema
        else ok m
