-- ===== src/Coordinator/Reachable.antt =====
-- What the tables hold behind any sequence of insertions (src/coordinator/mod.rs) on a database that
-- `migrate` has built.
pub mod Intact
use cheget.Base.{
  ◌≡◌, ◌≢◌, ◌↔◌, inl, inr, sym, ◌∙◌, List, [], ◌∷◌, In, true, false, ok, err, Result-cases, arith,
}
use mathlib.Core.Path.{subst}
use cheget.Base.Int.{int_ltb, pos}
use cheget.Coordinator.Sql.{Row, Insert, insert, Engine}
use cheget.Coordinator.Schema.{policy_table, policy_seed}
use cheget.Coordinator.Sqlite.{IsSqlite, new_row}
use cheget.Coordinator.Rows.{RosterEntry, CeremonyTranscript, SessionLog, ChurnEntry}
use cheget.Coordinator.Kept.{Kept, kept_roster, kept_ceremony, kept_session, kept_churn}
use cheget.Coordinator.Store.{insert_roster, insert_ceremony, insert_session, insert_churn, migrate}
use cheget.Coordinator.Replay.{
  Operation, roster, ceremony, session, churn, Done, nothing, perform, run_all, SameSeat,
  SameLeaving, SameCeremony, SameSession,
}
use cheget.Coordinator.Migrate.Batch.{Tables, HasTable, HasTables}
use cheget.Coordinator.Migrate.{migrate_lem, migrate_idle}
use cheget.Coordinator.Held.{
  Keeps, Keyed, roster-Keyed, churn-Keyed, ceremony-Keyed, session-Keyed, replaced-Holds, none_held,
  insertion,
}
use cheget.Coordinator.Reachable.Intact.{
  HasPolicy, Stands, inserted-Keeps, elsewhere-Keeps, elsewhere-policy, failed-Stands,
}

module _ (E : Engine) (law : IsSqlite E) where
  roster-Stands :
      (e : RosterEntry) (d : Done) (s : E.State)
      → (E.execute (insert (insertion kept_roster e)) s).0 ≡ ok tt
      → Stands E law d s
      → Stands E law
          (record d { rosters = e ∷ d.rosters })
          (E.execute (insert (insertion kept_roster e)) s).1
  roster-Stands e d s done o =
      let q = insertion kept_roster e in
      record {
        idle = law.executed_idle (insert q) s o.idle;
        rosters =
            inserted-Keeps E law kept_roster SameSeat roster-Keyed e d.rosters s done o.rosters;
        ceremonies =
            elsewhere-Keeps E law kept_ceremony SameCeremony d.ceremonies q s
              (λ h. ground (arith, h)) o.ceremonies;
        sessions =
            elsewhere-Keeps E law kept_session SameSession d.sessions q s (λ h. ground (arith, h))
              o.sessions;
        churns =
            elsewhere-Keeps E law kept_churn SameLeaving d.churns q s (λ h. ground (arith, h))
              o.churns;
        policy = elsewhere-policy E law q s (λ h. ground (arith, h)) o.policy;
      }

  ceremony-Stands :
      (e : CeremonyTranscript) (d : Done) (s : E.State)
      → (E.execute (insert (insertion kept_ceremony e)) s).0 ≡ ok tt
      → Stands E law d s
      → Stands E law
          (record d { ceremonies = e ∷ d.ceremonies })
          (E.execute (insert (insertion kept_ceremony e)) s).1
  ceremony-Stands e d s done o =
      let q = insertion kept_ceremony e in
      record {
        idle = law.executed_idle (insert q) s o.idle;
        rosters =
            elsewhere-Keeps E law kept_roster SameSeat d.rosters q s (λ h. ground (arith, h))
              o.rosters;
        ceremonies =
            inserted-Keeps E law kept_ceremony SameCeremony ceremony-Keyed e d.ceremonies s done
              o.ceremonies;
        sessions =
            elsewhere-Keeps E law kept_session SameSession d.sessions q s (λ h. ground (arith, h))
              o.sessions;
        churns =
            elsewhere-Keeps E law kept_churn SameLeaving d.churns q s (λ h. ground (arith, h))
              o.churns;
        policy = elsewhere-policy E law q s (λ h. ground (arith, h)) o.policy;
      }

  session-Stands :
      (e : SessionLog) (d : Done) (s : E.State)
      → (E.execute (insert (insertion kept_session e)) s).0 ≡ ok tt
      → Stands E law d s
      → Stands E law
          (record d { sessions = e ∷ d.sessions })
          (E.execute (insert (insertion kept_session e)) s).1
  session-Stands e d s done o =
      let q = insertion kept_session e in
      record {
        idle = law.executed_idle (insert q) s o.idle;
        rosters =
            elsewhere-Keeps E law kept_roster SameSeat d.rosters q s (λ h. ground (arith, h))
              o.rosters;
        ceremonies =
            elsewhere-Keeps E law kept_ceremony SameCeremony d.ceremonies q s
              (λ h. ground (arith, h)) o.ceremonies;
        sessions =
            inserted-Keeps E law kept_session SameSession session-Keyed e d.sessions s done
              o.sessions;
        churns =
            elsewhere-Keeps E law kept_churn SameLeaving d.churns q s (λ h. ground (arith, h))
              o.churns;
        policy = elsewhere-policy E law q s (λ h. ground (arith, h)) o.policy;
      }

  churn-Stands :
      (e : ChurnEntry) (d : Done) (s : E.State)
      → (E.execute (insert (insertion kept_churn e)) s).0 ≡ ok tt
      → Stands E law d s
      → Stands E law
          (record d { churns = e ∷ d.churns })
          (E.execute (insert (insertion kept_churn e)) s).1
  churn-Stands e d s done o =
      let q = insertion kept_churn e in
      record {
        idle = law.executed_idle (insert q) s o.idle;
        rosters =
            elsewhere-Keeps E law kept_roster SameSeat d.rosters q s (λ h. ground (arith, h))
              o.rosters;
        ceremonies =
            elsewhere-Keeps E law kept_ceremony SameCeremony d.ceremonies q s
              (λ h. ground (arith, h)) o.ceremonies;
        sessions =
            elsewhere-Keeps E law kept_session SameSession d.sessions q s (λ h. ground (arith, h))
              o.sessions;
        churns = inserted-Keeps E law kept_churn SameLeaving churn-Keyed e d.churns s done o.churns;
        policy = elsewhere-policy E law q s (λ h. ground (arith, h)) o.policy;
      }

  perform-Stands :
      (o : Operation) (d : Done) (s : E.State)
      → Stands E law d s
      → Stands E law (perform E o (d, s)).0 (perform E o (d, s)).1
  unfolding perform insert_roster insert_ceremony insert_session insert_churn
  perform-Stands (roster e) d s stands =
      elim (Result-cases (E.execute (insert (insertion kept_roster e)) s).0) [
        | inr (x, r) ↦
            let left = (E.execute (insert (insertion kept_roster e)) s).1 in
            let did : perform E (roster e) (d, s) ≡ (d, left) = ground arith in
            subst (λ w. Stands E law w.0 w.1) (sym did)
              (failed-Stands E law d s (insertion kept_roster e) x r stands)
        | inl (u, r) ↦
            let left = (E.execute (insert (insertion kept_roster e)) s).1 in
            let did : perform E (roster e) (d, s) ≡ (record d { rosters = e ∷ d.rosters }, left) =
              ground arith in
            subst (λ w. Stands E law w.0 w.1) (sym did) (roster-Stands e d s r stands)
      ]
  perform-Stands (ceremony e) d s stands =
      elim (Result-cases (E.execute (insert (insertion kept_ceremony e)) s).0) [
        | inr (x, r) ↦
            let left = (E.execute (insert (insertion kept_ceremony e)) s).1 in
            let did : perform E (ceremony e) (d, s) ≡ (d, left) = ground arith in
            subst (λ w. Stands E law w.0 w.1) (sym did)
              (failed-Stands E law d s (insertion kept_ceremony e) x r stands)
        | inl (u, r) ↦
            let left = (E.execute (insert (insertion kept_ceremony e)) s).1 in
            let did : perform E (ceremony e) (d, s)
                ≡ (record d { ceremonies = e ∷ d.ceremonies }, left) =
              ground arith in
            subst (λ w. Stands E law w.0 w.1) (sym did) (ceremony-Stands e d s r stands)
      ]
  perform-Stands (session e) d s stands =
      elim (Result-cases (E.execute (insert (insertion kept_session e)) s).0) [
        | inr (x, r) ↦
            let left = (E.execute (insert (insertion kept_session e)) s).1 in
            let did : perform E (session e) (d, s) ≡ (d, left) = ground arith in
            subst (λ w. Stands E law w.0 w.1) (sym did)
              (failed-Stands E law d s (insertion kept_session e) x r stands)
        | inl (u, r) ↦
            let left = (E.execute (insert (insertion kept_session e)) s).1 in
            let did : perform E (session e) (d, s)
                ≡ (record d { sessions = e ∷ d.sessions }, left) =
              ground arith in
            subst (λ w. Stands E law w.0 w.1) (sym did) (session-Stands e d s r stands)
      ]
  perform-Stands (churn e) d s stands =
      elim (Result-cases (E.execute (insert (insertion kept_churn e)) s).0) [
        | inr (x, r) ↦
            let left = (E.execute (insert (insertion kept_churn e)) s).1 in
            let did : perform E (churn e) (d, s) ≡ (d, left) = ground arith in
            subst (λ w. Stands E law w.0 w.1) (sym did)
              (failed-Stands E law d s (insertion kept_churn e) x r stands)
        | inl (u, r) ↦
            let left = (E.execute (insert (insertion kept_churn e)) s).1 in
            let did : perform E (churn e) (d, s) ≡ (record d { churns = e ∷ d.churns }, left) =
              ground arith in
            subst (λ w. Stands E law w.0 w.1) (sym did) (churn-Stands e d s r stands)
      ]

  run_all-Stands :
      (os : List Operation) (d : Done) (s : E.State)
      → Stands E law d s
      → Stands E law (run_all E os (d, s)).0 (run_all E os (d, s)).1
  unfolding run_all
  run_all-Stands [] d s o = o
  run_all-Stands (x ∷ os) d s o =
      let next = perform E x (d, s) in run_all-Stands os next.0 next.1 (perform-Stands x d s o)

  fresh-Stands :
      (s : E.State) → law.pending s ≡ false → HasTables (law.view s).tables → Stands E law nothing s
  unfolding nothing
  fresh-Stands s idle (r, c, l, p, w) = record {
    idle = idle;
    rosters = ([], r, none_held kept_roster SameSeat);
    ceremonies = ([], c, none_held kept_ceremony SameCeremony);
    sessions = ([], l, none_held kept_session SameSession);
    churns = ([], w, none_held kept_churn SameLeaving);
    policy = p;
  }

  -- Behind a migration that built the database, the tables hold what the insertions put there.
  pub migrated-Stands :
      (os : List Operation) (s : E.State)
      → law.pending s ≡ false
      → int_ltb (law.view s).version (pos 1) ≡ true
      → (migrate E s).0 ≡ ok tt
      → let out = run_all E os (nothing, (migrate E s).1) in Stands E law out.0 out.1
  migrated-Stands os s idle old done = elim (migrate_lem E law s idle) [
    | inl (o, new, same) ↦ absurd (ground arith)
    | inr (inl (o, v, fresh, seen)) ↦
        let (one, all) = fresh in
        run_all-Stands os nothing (migrate E s).1 (
          fresh-Stands (migrate E s).1 (migrate_idle E law s idle done)
            (subst (λ db. HasTables db.tables) (sym seen) all))
    | inr (inr (o, d, w)) ↦ absurd (ground arith)
  ]
