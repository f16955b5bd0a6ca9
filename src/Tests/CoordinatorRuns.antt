-- ===== src/Tests/CoordinatorRuns.antt =====
-- The coordinator's store over the toy engine.
use cheget.Base.{
  ◌≡◌, ◌⊎◌, refl, none, some, [], ◌∷◌, true, false, text_dec, ℕ_discrete, codes, ok, err, eqb,
  if◌then◌else◌,
}
use cheget.Base.Int.{pos, int_ltb, int_dec}
use cheget.Base.Sorted.{put}
use cheget.Store.Errors.{sqlite}
use cheget.Coordinator.Schema.{schema_v1, roster_table, ceremony_table, session_table, churn_table}
use cheget.Coordinator.Sqlite.{one_by_one}
use cheget.Coordinator.Rows.{
  RosterEntry, CeremonyTranscript, SessionLog, ChurnEntry, roster_params, roster_row,
  ceremony_params, ceremony_row, policy_row,
}
use cheget.Coordinator.Store.{
  collect_rows, next_row, insert_roster, list_roster, insert_ceremony, get_ceremony, insert_session,
  get_session, insert_churn, list_churn, policy_config, upgrade, in_transaction, migrate,
}
use cheget.Coordinator.Orders.{text_order, epoch_order}
use cheget.Coordinator.Migrate.Batch.{IsFresh}
use cheget.Coordinator.Migrate.{migrate_lem}
use cheget.Coordinator.Policy.{spec_defaults}
use cheget.Coordinator.Lookup.{get_ceremony-insert_ceremony, get_session-insert_session}
use cheget.Coordinator.Roster.{list_roster-insert_roster}
use cheget.Coordinator.Churn.{list_churn-insert_churn}
use cheget.Tests.ToyEngine.{Toy, idle, seen, kept, toy_engine, value_dec, values_dec}
use cheget.Tests.ToyEngineLaws.{toy_engine_laws}

-- A new file.
abbrev blank : Toy
blank = idle (record { version = pos 0; tables = λ n. none })

unfoldable built : Toy
built = (migrate toy_engine blank).1

builds : (migrate toy_engine blank).0 ≡ ok tt
unfolding migrate in_transaction upgrade one_by_one schema_v1 text_dec ℕ_discrete
builds = refl

migrate_lem_example :
    let out = migrate toy_engine blank in
    ((out.0 ≡ ok tt) × (int_ltb (seen blank).version (pos 1) ≡ false) × (out.1 ≡ blank))
    ⊎ ((out.0 ≡ ok tt)
        × (int_ltb (seen blank).version (pos 1) ≡ true)
        × IsFresh (kept out.1)
        × (seen out.1 ≡ kept out.1))
    ⊎ ((out.0 ≡ err sqlite) × (kept out.1 ≡ kept blank) × (seen out.1 ≡ seen blank))
unfolding toy_engine_laws
migrate_lem_example = migrate_lem toy_engine toy_engine_laws blank refl

reads_policy : policy_config toy_engine built ≡ ok spec_defaults
unfolding built policy_config policy_row migrate in_transaction upgrade one_by_one schema_v1
    text_dec ℕ_discrete value_dec values_dec int_dec
reads_policy = refl

abbrev first_seat : RosterEntry
first_seat = record {
  key_id = codes "active";
  identifier = codes "01";
  seat_index = some (pos 1);
  npub = codes "n";
  status = codes "ACTIVE";
  join_epoch = pos 0;
  leave_epoch = none;
}

abbrev transcript : CeremonyTranscript
transcript = record {
  ceremony_id = codes "c1";
  key_id = codes "active";
  epoch = pos 0;
  kind = codes "dkg";
  group_verifying_key = some (2 ∷ 3 ∷ []);
  status = codes "open";
  started_at = pos 7;
  completed_at = none;
}

-- A database with one empty table.
abbrev holding_ceremonies : Toy
holding_ceremonies = idle (record { version = pos 1; tables = λ n. some (ceremony_table, []) })

abbrev holding_sessions : Toy
holding_sessions = idle (record { version = pos 1; tables = λ n. some (session_table, []) })

abbrev holding_roster : Toy
holding_roster = idle (record { version = pos 1; tables = λ n. some (roster_table, []) })

abbrev holding_churn : Toy
holding_churn = idle (record { version = pos 1; tables = λ n. some (churn_table, []) })

no_ceremony : get_ceremony toy_engine (codes "c1") holding_ceremonies ≡ ok none
unfolding get_ceremony next_row
no_ceremony = refl

puts_ceremony : (insert_ceremony toy_engine transcript holding_ceremonies).0 ≡ ok tt
unfolding insert_ceremony
puts_ceremony = refl

get_ceremony-insert_ceremony_example :
    let found =
      get_ceremony toy_engine
        (codes "c1")
        (insert_ceremony toy_engine transcript holding_ceremonies).1 in
    (found ≡ ok (if eqb text_dec (codes "c1") (codes "c1") then some transcript else none))
    ⊎ (found ≡ err sqlite)
unfolding toy_engine_laws
get_ceremony-insert_ceremony_example =
    get_ceremony-insert_ceremony toy_engine toy_engine_laws transcript (codes "c1")
      holding_ceremonies [] none refl puts_ceremony no_ceremony

finds_ceremony :
    get_ceremony toy_engine
      (codes "c1")
      (insert_ceremony toy_engine transcript holding_ceremonies).1
    ≡ ok (some transcript)
unfolding get_ceremony insert_ceremony next_row ceremony_params ceremony_row text_dec ℕ_discrete
    value_dec values_dec
finds_ceremony = refl

abbrev log : SessionLog
log = record {
  session_id = codes "s1";
  key_id = codes "active";
  epoch = pos 0;
  kind = codes "sign";
  psbt_txid = none;
  subset = some (codes "[1]");
  outcome = codes "success";
  created_at = pos 9;
}

no_session : get_session toy_engine (codes "s1") holding_sessions ≡ ok none
unfolding get_session next_row
no_session = refl

puts_session : (insert_session toy_engine log holding_sessions).0 ≡ ok tt
unfolding insert_session
puts_session = refl

get_session-insert_session_example :
    let found =
      get_session toy_engine (codes "s1") (insert_session toy_engine log holding_sessions).1 in
    (found ≡ ok (if eqb text_dec (codes "s1") (codes "s1") then some log else none))
    ⊎ (found ≡ err sqlite)
unfolding toy_engine_laws
get_session-insert_session_example =
    get_session-insert_session toy_engine toy_engine_laws log (codes "s1") holding_sessions [] none
      refl puts_session no_session

no_seat : list_roster toy_engine (codes "active") holding_roster ≡ ok []
unfolding list_roster collect_rows
no_seat = refl

puts_seat : (insert_roster toy_engine first_seat holding_roster).0 ≡ ok tt
unfolding insert_roster
puts_seat = refl

list_roster-insert_roster_example :
    let found =
      list_roster toy_engine
        (codes "active")
        (insert_roster toy_engine first_seat holding_roster).1 in
    (found
      ≡ ok (
          if eqb text_dec (codes "active") (codes "active")
          then put text_order (λ a. a.identifier) first_seat []
          else []))
    ⊎ (found ≡ err sqlite)
unfolding toy_engine_laws
list_roster-insert_roster_example =
    list_roster-insert_roster toy_engine toy_engine_laws first_seat (codes "active") holding_roster
      [] [] refl puts_seat no_seat

abbrev former : ChurnEntry
former = record {
  key_id = codes "active";
  identifier = codes "01";
  npub = none;
  left_epoch = pos 3;
  recorded_at = pos 9;
}

no_churn : list_churn toy_engine (codes "active") holding_churn ≡ ok []
unfolding list_churn collect_rows
no_churn = refl

puts_churn : (insert_churn toy_engine former holding_churn).0 ≡ ok tt
unfolding insert_churn
puts_churn = refl

list_churn-insert_churn_example :
    let found =
      list_churn toy_engine (codes "active") (insert_churn toy_engine former holding_churn).1 in
    (found
      ≡ ok (
          if eqb text_dec (codes "active") (codes "active")
          then put epoch_order (λ a. (a.left_epoch, a.identifier)) former []
          else []))
    ⊎ (found ≡ err sqlite)
unfolding toy_engine_laws
list_churn-insert_churn_example =
    list_churn-insert_churn toy_engine toy_engine_laws former (codes "active") holding_churn [] []
      refl puts_churn no_churn

-- Two seats come in the order of their identifiers, whichever was inserted first.
abbrev second_seat : RosterEntry
second_seat = record first_seat { identifier = codes "02" }

lists_both :
    list_roster toy_engine
      (codes "active")
      (insert_roster toy_engine first_seat
        (insert_roster toy_engine second_seat holding_roster).1).1
    ≡ ok (first_seat ∷ second_seat ∷ [])
unfolding list_roster insert_roster collect_rows roster_params roster_row text_dec ℕ_discrete
    value_dec values_dec
lists_both = refl
