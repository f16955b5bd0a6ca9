-- ===== src/Coordinator/Schema.antt =====
-- src/coordinator/schema.rs: `SCHEMA_V1`, its tables and its seed row, and the version it builds.
-- Column types, `NOT NULL` and the check of `id` are left to SQLite.
use cheget.Base.{List, [], ◌∷◌, false, codes}
use cheget.Base.Int.{ℤ, pos}
use cheget.Coordinator.Sql.{null, integer, Table, Insert, Statement, create_table, insert}

abbrev pub roster_table : Table
roster_table = record {
  name = codes "roster";
  columns =
      (codes "key_id", null)
      ∷ (codes "identifier", null)
      ∷ (codes "seat_index", null)
      ∷ (codes "npub", null)
      ∷ (codes "status", null)
      ∷ (codes "join_epoch", null)
      ∷ (codes "leave_epoch", null)
      ∷ [];
  primary = codes "key_id" ∷ codes "identifier" ∷ [];
}

abbrev pub ceremony_table : Table
ceremony_table = record {
  name = codes "ceremony_transcripts";
  columns =
      (codes "ceremony_id", null)
      ∷ (codes "key_id", null)
      ∷ (codes "epoch", null)
      ∷ (codes "kind", null)
      ∷ (codes "group_verifying_key", null)
      ∷ (codes "status", null)
      ∷ (codes "started_at", null)
      ∷ (codes "completed_at", null)
      ∷ [];
  primary = codes "ceremony_id" ∷ [];
}

abbrev pub session_table : Table
session_table = record {
  name = codes "session_logs";
  columns =
      (codes "session_id", null)
      ∷ (codes "key_id", null)
      ∷ (codes "epoch", null)
      ∷ (codes "kind", null)
      ∷ (codes "psbt_txid", null)
      ∷ (codes "subset", null)
      ∷ (codes "outcome", null)
      ∷ (codes "created_at", null)
      ∷ [];
  primary = codes "session_id" ∷ [];
}

abbrev pub policy_table : Table
policy_table = record {
  name = codes "policy_config";
  columns =
      (codes "id", null)
      ∷ (codes "value_cap", null)
      ∷ (codes "churn_budget", integer (pos 50))
      ∷ (codes "max_epochs", integer (pos 24))
      ∷ (codes "standby_max_age", integer (pos 7776000))
      ∷ [];
  primary = codes "id" ∷ [];
}

abbrev pub policy_seed : Insert
policy_seed = record {
  or_replace = false;
  table = codes "policy_config";
  columns = codes "id" ∷ [];
  values = integer (pos 1) ∷ [];
}

abbrev pub churn_table : Table
churn_table = record {
  name = codes "churn_ledger";
  columns =
      (codes "key_id", null)
      ∷ (codes "identifier", null)
      ∷ (codes "npub", null)
      ∷ (codes "left_epoch", null)
      ∷ (codes "recorded_at", null)
      ∷ [];
  primary = codes "key_id" ∷ codes "identifier" ∷ codes "left_epoch" ∷ [];
}

unfoldable pub schema_v1 : List Statement
schema_v1 =
    create_table roster_table
    ∷ create_table ceremony_table
    ∷ create_table session_table
    ∷ create_table policy_table
    ∷ insert policy_seed
    ∷ create_table churn_table
    ∷ []

abbrev pub schema_version : ℤ
schema_version = pos 1
