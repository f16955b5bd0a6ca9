-- ===== src/Coordinator/Rows.antt =====
-- The structs of src/coordinator/mod.rs, the parameters that each is bound to in an INSERT, and the
-- closures that read each from a row of a SELECT.
pub mod Laws
use cheget.Base.{
  ℕ, Option, none, some, List, [], ◌∷◌, Text, Result, ok, err, ◌>>=◌, ok_or, get_elem?, codes,
}
use cheget.Base.Int.{ℤ}
use cheget.Coordinator.Sql.{
  SqlError, invalid_column_index, invalid_column_type, Value, null, integer, text, blob,
}

pub record RosterEntry : Type 0 where
  pub key_id : Text
  pub identifier : Text
  pub seat_index : Option ℤ
  pub npub : Text
  pub status : Text
  pub join_epoch : ℤ
  pub leave_epoch : Option ℤ

pub record CeremonyTranscript : Type 0 where
  pub ceremony_id : Text
  pub key_id : Text
  pub epoch : ℤ
  pub kind : Text
  pub group_verifying_key : Option (List ℕ)
  pub status : Text
  pub started_at : ℤ
  pub completed_at : Option ℤ

pub record SessionLog : Type 0 where
  pub session_id : Text
  pub key_id : Text
  pub epoch : ℤ
  pub kind : Text
  pub psbt_txid : Option Text
  pub subset : Option Text
  pub outcome : Text
  pub created_at : ℤ

pub record ChurnEntry : Type 0 where
  pub key_id : Text
  pub identifier : Text
  pub npub : Option Text
  pub left_epoch : ℤ
  pub recorded_at : ℤ

pub record PolicyConfig : Type 0 where
  pub value_cap : Option ℤ
  pub churn_budget : ℤ
  pub max_epochs : ℤ
  pub standby_max_age : ℤ

-- rusqlite's conversions: an `Option` is NULL or its content.
abbrev pub to_nullable {ℓ} : {A : Type ℓ} → (A → Value) → Option A → Value
to_nullable to none = null
to_nullable to (some a) = to a

abbrev pub as_text : Value → Option Text
as_text null = none
as_text (integer i) = none
as_text (text t) = some t
as_text (blob b) = none

abbrev pub as_integer : Value → Option ℤ
as_integer null = none
as_integer (integer i) = some i
as_integer (text t) = none
as_integer (blob b) = none

abbrev pub as_blob : Value → Option (List ℕ)
as_blob null = none
as_blob (integer i) = none
as_blob (text t) = none
as_blob (blob b) = some b

abbrev pub from_nullable {ℓ} : {A : Type ℓ} → (Value → Option A) → Value → Option (Option A)
from_nullable from null = some none
from_nullable from (integer i) = elim (from (integer i)) [ none ↦ none | some a ↦ some (some a) ]
from_nullable from (text t) = elim (from (text t)) [ none ↦ none | some a ↦ some (some a) ]
from_nullable from (blob b) = elim (from (blob b)) [ none ↦ none | some a ↦ some (some a) ]

-- `r.get(i)?`
abbrev pub column {ℓ} : {A : Type ℓ} → (Value → Option A) → List Value → ℕ → Result SqlError A
column from row i =
    ok_or (get_elem? row i) invalid_column_index >>= λ v. ok_or (from v) invalid_column_type

abbrev pub roster_columns : List Text
roster_columns =
    codes "key_id"
    ∷ codes "identifier"
    ∷ codes "seat_index"
    ∷ codes "npub"
    ∷ codes "status"
    ∷ codes "join_epoch"
    ∷ codes "leave_epoch"
    ∷ []

unfoldable pub roster_params : RosterEntry → List Value
roster_params e =
    text e.key_id
    ∷ text e.identifier
    ∷ to_nullable integer e.seat_index
    ∷ text e.npub
    ∷ text e.status
    ∷ integer e.join_epoch
    ∷ to_nullable integer e.leave_epoch
    ∷ []

unfoldable pub roster_row : List Value → Result SqlError RosterEntry
roster_row r = do
  key_id ← column as_text r 0
  identifier ← column as_text r 1
  seat_index ← column (from_nullable as_integer) r 2
  npub ← column as_text r 3
  status ← column as_text r 4
  join_epoch ← column as_integer r 5
  leave_epoch ← column (from_nullable as_integer) r 6
  ok (record {
    key_id = key_id;
    identifier = identifier;
    seat_index = seat_index;
    npub = npub;
    status = status;
    join_epoch = join_epoch;
    leave_epoch = leave_epoch;
  })

abbrev pub ceremony_columns : List Text
ceremony_columns =
    codes "ceremony_id"
    ∷ codes "key_id"
    ∷ codes "epoch"
    ∷ codes "kind"
    ∷ codes "group_verifying_key"
    ∷ codes "status"
    ∷ codes "started_at"
    ∷ codes "completed_at"
    ∷ []

unfoldable pub ceremony_params : CeremonyTranscript → List Value
ceremony_params e =
    text e.ceremony_id
    ∷ text e.key_id
    ∷ integer e.epoch
    ∷ text e.kind
    ∷ to_nullable blob e.group_verifying_key
    ∷ text e.status
    ∷ integer e.started_at
    ∷ to_nullable integer e.completed_at
    ∷ []

unfoldable pub ceremony_row : List Value → Result SqlError CeremonyTranscript
ceremony_row r = do
  ceremony_id ← column as_text r 0
  key_id ← column as_text r 1
  epoch ← column as_integer r 2
  kind ← column as_text r 3
  group_verifying_key ← column (from_nullable as_blob) r 4
  status ← column as_text r 5
  started_at ← column as_integer r 6
  completed_at ← column (from_nullable as_integer) r 7
  ok (record {
    ceremony_id = ceremony_id;
    key_id = key_id;
    epoch = epoch;
    kind = kind;
    group_verifying_key = group_verifying_key;
    status = status;
    started_at = started_at;
    completed_at = completed_at;
  })

abbrev pub session_columns : List Text
session_columns =
    codes "session_id"
    ∷ codes "key_id"
    ∷ codes "epoch"
    ∷ codes "kind"
    ∷ codes "psbt_txid"
    ∷ codes "subset"
    ∷ codes "outcome"
    ∷ codes "created_at"
    ∷ []

unfoldable pub session_params : SessionLog → List Value
session_params e =
    text e.session_id
    ∷ text e.key_id
    ∷ integer e.epoch
    ∷ text e.kind
    ∷ to_nullable text e.psbt_txid
    ∷ to_nullable text e.subset
    ∷ text e.outcome
    ∷ integer e.created_at
    ∷ []

unfoldable pub session_row : List Value → Result SqlError SessionLog
session_row r = do
  session_id ← column as_text r 0
  key_id ← column as_text r 1
  epoch ← column as_integer r 2
  kind ← column as_text r 3
  psbt_txid ← column (from_nullable as_text) r 4
  subset ← column (from_nullable as_text) r 5
  outcome ← column as_text r 6
  created_at ← column as_integer r 7
  ok (record {
    session_id = session_id;
    key_id = key_id;
    epoch = epoch;
    kind = kind;
    psbt_txid = psbt_txid;
    subset = subset;
    outcome = outcome;
    created_at = created_at;
  })

abbrev pub churn_columns : List Text
churn_columns =
    codes "key_id"
    ∷ codes "identifier"
    ∷ codes "npub"
    ∷ codes "left_epoch"
    ∷ codes "recorded_at"
    ∷ []

unfoldable pub churn_params : ChurnEntry → List Value
churn_params e =
    text e.key_id
    ∷ text e.identifier
    ∷ to_nullable text e.npub
    ∷ integer e.left_epoch
    ∷ integer e.recorded_at
    ∷ []

unfoldable pub churn_row : List Value → Result SqlError ChurnEntry
churn_row r = do
  key_id ← column as_text r 0
  identifier ← column as_text r 1
  npub ← column (from_nullable as_text) r 2
  left_epoch ← column as_integer r 3
  recorded_at ← column as_integer r 4
  ok (record {
    key_id = key_id;
    identifier = identifier;
    npub = npub;
    left_epoch = left_epoch;
    recorded_at = recorded_at;
  })

abbrev pub policy_columns : List Text
policy_columns =
    codes "value_cap" ∷ codes "churn_budget" ∷ codes "max_epochs" ∷ codes "standby_max_age" ∷ []

unfoldable pub policy_row : List Value → Result SqlError PolicyConfig
policy_row r = do
  value_cap ← column (from_nullable as_integer) r 0
  churn_budget ← column as_integer r 1
  max_epochs ← column as_integer r 2
  standby_max_age ← column as_integer r 3
  ok (record {
    value_cap = value_cap;
    churn_budget = churn_budget;
    max_epochs = max_epochs;
    standby_max_age = standby_max_age;
  })
