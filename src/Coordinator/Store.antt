-- ===== src/Coordinator/Store.antt =====
-- `CoordinatorStore` and `migrate` of src/coordinator/mod.rs.
use cheget.Base.{
  Option, none, some, List, [], ◌∷◌, ◌++◌, true, false, Text, codes, Result, ok, err, ◌>>=◌,
  map_err,
}
use cheget.Base.Effects.{M, ◌>>◌}
use cheget.Base.Int.{pos, int_ltb}
use cheget.Store.Errors.{StoreError, sqlite}
use cheget.Store.Disk.{FilePath, parent, Disk}
use cheget.Store.Atomic.{create_dir_secure}
use cheget.Coordinator.Sql.{SqlError, Value, integer, text, Insert, Select, insert, Engine}
use cheget.Coordinator.Schema.{schema_v1, schema_version}
use cheget.Coordinator.Rows.{
  RosterEntry, CeremonyTranscript, SessionLog, ChurnEntry, PolicyConfig, roster_columns,
  roster_params, roster_row, ceremony_columns, ceremony_params, ceremony_row, session_columns,
  session_params, session_row, churn_columns, churn_params, churn_row, policy_columns, policy_row,
}

unfoldable pub default_db_path : FilePath → FilePath
default_db_path root = root ++ codes "coordinator" ∷ codes "state.db" ∷ []

-- `From<rusqlite::Error>` of `StoreError`
abbrev pub folded : SqlError → StoreError
folded e = sqlite

abbrev pub sql_call {ℓ} :
    {W : Type 0} {A : Type ℓ} → (W → Result SqlError A × W) → W → Result StoreError A × W
sql_call f s = let r = f s in (map_err folded r.0, r.1)

-- The statements.
abbrev pub replace_into : Text → List Text → List Value → Insert
replace_into table columns values = record {
  or_replace = true;
  table = table;
  columns = columns;
  values = values;
}

abbrev pub select_roster : Text → Select
select_roster key_id = record {
  columns = roster_columns;
  table = codes "roster";
  column = codes "key_id";
  value = text key_id;
  order = codes "identifier" ∷ [];
}

abbrev pub select_ceremony : Text → Select
select_ceremony ceremony_id = record {
  columns = ceremony_columns;
  table = codes "ceremony_transcripts";
  column = codes "ceremony_id";
  value = text ceremony_id;
  order = [];
}

abbrev pub select_session : Text → Select
select_session session_id = record {
  columns = session_columns;
  table = codes "session_logs";
  column = codes "session_id";
  value = text session_id;
  order = [];
}

abbrev pub select_churn : Text → Select
select_churn key_id = record {
  columns = churn_columns;
  table = codes "churn_ledger";
  column = codes "key_id";
  value = text key_id;
  order = codes "left_epoch" ∷ codes "identifier" ∷ [];
}

abbrev pub select_policy : Select
select_policy = record {
  columns = policy_columns;
  table = codes "policy_config";
  column = codes "id";
  value = integer (pos 1);
  order = [];
}

-- `rows.collect()` and `rows.next()`, over the rows that the closure reads.
unfoldable pub collect_rows :
    {A : Type 0}
    → (List Value → Result SqlError A)
    → List (Result SqlError (List Value))
    → Result SqlError (List A)
collect_rows read [] = ok []
collect_rows read (row ∷ rows) =
    let rest = collect_rows read rows in do x ← row >>= read; xs ← rest; ok (x ∷ xs)

unfoldable pub next_row :
    {A : Type 0}
    → (List Value → Result SqlError A)
    → List (Result SqlError (List Value))
    → Result SqlError (Option A)
next_row read [] = ok none
next_row read (row ∷ rows) = do x ← row >>= read; ok (some x)

module _ (E : Engine) where
  unfoldable pub insert_roster : RosterEntry → M E.State StoreError (Unit {0})
  insert_roster entry =
      sql_call
        (E.execute (insert (replace_into (codes "roster") roster_columns (roster_params entry))))

  unfoldable pub list_roster : Text → E.State → Result StoreError (List RosterEntry)
  list_roster key_id s = do
    rows ← map_err folded (E.query (select_roster key_id) s)
    map_err folded (collect_rows roster_row rows)

  unfoldable pub insert_ceremony : CeremonyTranscript → M E.State StoreError (Unit {0})
  insert_ceremony t = sql_call (
      E.execute
        (insert (replace_into (codes "ceremony_transcripts") ceremony_columns (ceremony_params t))))

  unfoldable pub get_ceremony : Text → E.State → Result StoreError (Option CeremonyTranscript)
  get_ceremony ceremony_id s = do
    rows ← map_err folded (E.query (select_ceremony ceremony_id) s)
    map_err folded (next_row ceremony_row rows)

  unfoldable pub insert_session : SessionLog → M E.State StoreError (Unit {0})
  insert_session log = sql_call (
      E.execute (insert (replace_into (codes "session_logs") session_columns (session_params log))))

  unfoldable pub get_session : Text → E.State → Result StoreError (Option SessionLog)
  get_session session_id s = do
    rows ← map_err folded (E.query (select_session session_id) s)
    map_err folded (next_row session_row rows)

  unfoldable pub insert_churn : ChurnEntry → M E.State StoreError (Unit {0})
  insert_churn c =
      sql_call
        (E.execute (insert (replace_into (codes "churn_ledger") churn_columns (churn_params c))))

  unfoldable pub list_churn : Text → E.State → Result StoreError (List ChurnEntry)
  list_churn key_id s = do
    rows ← map_err folded (E.query (select_churn key_id) s)
    map_err folded (collect_rows churn_row rows)

  unfoldable pub policy_config : E.State → Result StoreError PolicyConfig
  policy_config s = do
    row ← map_err folded (E.query_row select_policy s)
    map_err folded (policy_row row)

  -- The statements of `migrate` that run in its transaction.
  unfoldable pub upgrade : M E.State SqlError (Unit {0})
  upgrade = do E.execute_batch schema_v1; E.set_user_version schema_version; E.commit

  -- The transaction is dropped however the block is left.
  unfoldable pub in_transaction : M E.State SqlError (Unit {0}) → M E.State SqlError (Unit {0})
  in_transaction block s =
      let begun = E.begin s in
      elim begun.0 [
        | err e ↦ (err e, begun.1)
        | ok _ ↦ let done = block begun.1 in (done.0, E.drop_transaction done.1)
      ]

  unfoldable pub migrate : M E.State StoreError (Unit {0})
  migrate s = elim (E.user_version s) [
    | err e ↦ (err (folded e), s)
    | ok v ↦ elim (int_ltb v (pos 1)) [
      | false ↦ (ok tt, s)
      | true ↦ sql_call (in_transaction upgrade) s
    ]
  ]

  -- What `open` does with the connection.
  unfoldable pub configure : M E.State StoreError (Unit {0})
  configure = do
    sql_call (E.pragma_update (codes "journal_mode") (codes "WAL"))
    sql_call (E.pragma_update (codes "synchronous") (codes "NORMAL"))
    sql_call (E.pragma_update (codes "foreign_keys") (codes "ON"))
    sql_call (E.busy_timeout 5)
    migrate

  -- A connection that is not configured is closed.
  unfoldable pub configured : E.State → Result StoreError E.State
  configured conn = let set = configure conn in elim set.0 [ err e ↦ err e | ok _ ↦ ok set.1 ]

  -- `Connection::open` reads and makes files.
  module _ (D : Disk) (connect : FilePath → D.State → Result SqlError E.State × D.State) where
    unfoldable pub prepare_parent : FilePath → M D.State StoreError (Unit {0})
    prepare_parent path disk = elim (parent path) [
      | none ↦ (ok tt, disk)
      | some dir ↦ create_dir_secure D dir disk
    ]

    unfoldable pub open_store : FilePath → M D.State StoreError E.State
    open_store path disk =
        let made = prepare_parent path disk in
        elim made.0 [
          | err e ↦ (err e, made.1)
          | ok _ ↦
              let opened = sql_call (connect path) made.1 in (opened.0 >>= configured, opened.1)
        ]
