-- ===== src/Tests/StoreRuns.antt =====
-- A sequence of insertions into a database that `migrate` built, over the toy engine.
use cheget.Base.{
  ◌≡◌, ◌≢◌, ◌↔◌, ◌⊎◌, refl, none, some, List, [], ◌∷◌, In, text_dec, ℕ_discrete, codes, ok, err,
}
use cheget.Base.Int.{pos, int_dec}
use cheget.Base.Sorted.{Pairwise, Before}
use cheget.Coordinator.Sql.{SqlError, query_returned_no_rows}
use cheget.Coordinator.Schema.{schema_v1}
use cheget.Coordinator.Sqlite.{one_by_one}
use cheget.Coordinator.Rows.{
  RosterEntry, CeremonyTranscript, SessionLog, ChurnEntry, ceremony_params, ceremony_row,
  roster_params, roster_row, session_params, session_row, churn_params, churn_row,
}
use cheget.Coordinator.Store.{
  collect_rows, next_row, insert_roster, list_roster, insert_ceremony, get_ceremony, insert_session,
  get_session, insert_churn, list_churn, select_policy, policy_config, upgrade, in_transaction,
  migrate,
}
use cheget.Coordinator.Orders.{text_order, epoch_order}
use cheget.Coordinator.Policy.{spec_defaults, policy_config-run_all}
use cheget.Coordinator.Replay.{
  Operation, roster, ceremony, session, churn, Done, nothing, perform, run_all, Holds, SameSeat,
  SameLeaving, SameCeremony, SameSession,
}
use cheget.Coordinator.Found.{
  Finds, list_roster-run_all, list_churn-run_all, get_ceremony-run_all, get_session-run_all,
}
use cheget.Tests.ToyEngine.{Toy, idle, toy_engine, value_dec, values_dec}
use cheget.Tests.ToyEngineLaws.{toy_engine_laws}

-- A new file.
abbrev fresh : Toy
fresh = idle (record { version = pos 0; tables = λ n. none })

fresh_built : (migrate toy_engine fresh).0 ≡ ok tt
unfolding migrate in_transaction upgrade one_by_one schema_v1 text_dec ℕ_discrete
fresh_built = refl

abbrev seat : RosterEntry
seat = record {
  key_id = codes "active";
  identifier = codes "01";
  seat_index = some (pos 1);
  npub = codes "n";
  status = codes "ACTIVE";
  join_epoch = pos 0;
  leave_epoch = none;
}

-- The same seat, after it has left.
abbrev left_seat : RosterEntry
left_seat = record seat { status = codes "LEFT"; leave_epoch = some (pos 1) }

abbrev run_log : SessionLog
run_log = record {
  session_id = codes "s1";
  key_id = codes "active";
  epoch = pos 0;
  kind = codes "sign";
  psbt_txid = none;
  subset = some (codes "[1]");
  outcome = codes "success";
  created_at = pos 9;
}

abbrev transcript : CeremonyTranscript
transcript = record {
  ceremony_id = codes "c1";
  key_id = codes "active";
  epoch = pos 0;
  kind = codes "dkg";
  group_verifying_key = some (2 ∷ 3 ∷ []);
  status = codes "open";
  started_at = pos 7;
  completed_at = none;
}

abbrev former : ChurnEntry
former = record {
  key_id = codes "active";
  identifier = codes "01";
  npub = none;
  left_epoch = pos 3;
  recorded_at = pos 9;
}

abbrev calls : List Operation
calls = ceremony transcript ∷ roster seat ∷ session run_log ∷ roster left_seat ∷ churn former ∷ []

unfoldable after : Done × Toy
after = run_all toy_engine calls (nothing, (migrate toy_engine fresh).1)

lists_seat : list_roster toy_engine (codes "active") after.1 ≡ ok (left_seat ∷ [])
unfolding after run_all perform nothing migrate in_transaction upgrade one_by_one schema_v1 text_dec
    ℕ_discrete insert_roster insert_ceremony insert_session insert_churn roster_params
    ceremony_params session_params churn_params value_dec values_dec int_dec list_roster
    collect_rows roster_row
lists_seat = refl

list_roster-run_all_example :
    ((a : RosterEntry)
      → In a (left_seat ∷ []) ↔ (Holds SameSeat after.0.rosters a × (a.key_id ≡ codes "active")))
    × Pairwise (Before text_order (λ a. a.identifier)) (left_seat ∷ [])
unfolding after toy_engine_laws
list_roster-run_all_example =
    list_roster-run_all toy_engine toy_engine_laws calls fresh refl refl fresh_built
      (codes "active") (left_seat ∷ []) lists_seat

lists_former : list_churn toy_engine (codes "active") after.1 ≡ ok (former ∷ [])
unfolding after run_all perform nothing migrate in_transaction upgrade one_by_one schema_v1 text_dec
    ℕ_discrete insert_roster insert_ceremony insert_session insert_churn roster_params
    ceremony_params session_params churn_params value_dec values_dec int_dec list_churn collect_rows
    churn_row
lists_former = refl

list_churn-run_all_example :
    ((a : ChurnEntry)
      → In a (former ∷ []) ↔ (Holds SameLeaving after.0.churns a × (a.key_id ≡ codes "active")))
    × Pairwise (Before epoch_order (λ a. (a.left_epoch, a.identifier))) (former ∷ [])
unfolding after toy_engine_laws
list_churn-run_all_example =
    list_churn-run_all toy_engine toy_engine_laws calls fresh refl refl fresh_built (codes "active")
      (former ∷ []) lists_former

finds_transcript : get_ceremony toy_engine (codes "c1") after.1 ≡ ok (some transcript)
unfolding after run_all perform nothing migrate in_transaction upgrade one_by_one schema_v1 text_dec
    ℕ_discrete insert_roster insert_ceremony insert_session insert_churn roster_params
    ceremony_params session_params churn_params value_dec values_dec int_dec get_ceremony next_row
    ceremony_row
finds_transcript = refl

get_ceremony-run_all_example :
    Finds SameCeremony after.0.ceremonies (λ t. t.ceremony_id) (codes "c1") (some transcript)
unfolding after toy_engine_laws
get_ceremony-run_all_example =
    get_ceremony-run_all toy_engine toy_engine_laws calls fresh refl refl fresh_built (codes "c1")
      (some transcript) finds_transcript

finds_log : get_session toy_engine (codes "s1") after.1 ≡ ok (some run_log)
unfolding after run_all perform nothing migrate in_transaction upgrade one_by_one schema_v1 text_dec
    ℕ_discrete insert_roster insert_ceremony insert_session insert_churn roster_params
    ceremony_params session_params churn_params value_dec values_dec int_dec get_session next_row
    session_row
finds_log = refl

get_session-run_all_example :
    Finds SameSession after.0.sessions (λ log. log.session_id) (codes "s1") (some run_log)
unfolding after toy_engine_laws
get_session-run_all_example =
    get_session-run_all toy_engine toy_engine_laws calls fresh refl refl fresh_built (codes "s1")
      (some run_log) finds_log

policy_config-run_all_example :
    (policy_config toy_engine after.1 ≡ ok spec_defaults)
    ⊎ ((e : SqlError) × (toy_engine.query_row select_policy after.1 ≡ err e)
        × (e ≢ query_returned_no_rows))
unfolding after toy_engine_laws
policy_config-run_all_example =
    policy_config-run_all toy_engine toy_engine_laws calls fresh refl refl fresh_built
