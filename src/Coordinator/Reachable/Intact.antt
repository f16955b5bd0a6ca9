-- ===== src/Coordinator/Reachable/Intact.antt =====
-- What every table of the coordinator's database should hold, and what one statement leaves of it.
use cheget.Base.{◌≡◌, ◌≢◌, ◌↔◌, ◌∙◌, List, ◌∷◌, In, false, ok, err}
use cheget.Coordinator.Sql.{Row, Insert, insert, Engine}
use cheget.Coordinator.Schema.{policy_table, policy_seed}
use cheget.Coordinator.Sqlite.{IsSqlite, new_row}
use cheget.Coordinator.Kept.{Kept, kept_roster, kept_ceremony, kept_session, kept_churn}
use cheget.Coordinator.Replay.{Done, SameSeat, SameLeaving, SameCeremony, SameSession}
use cheget.Coordinator.Migrate.Batch.{Tables, HasTable}
use cheget.Coordinator.Held.{Keeps, Keyed, replaced-Holds, insertion}

module _ (E : Engine) (law : IsSqlite E) where
  -- An insertion that succeeds puts the entry into its table.
  pub inserted-Keeps :
      {A : Type 0} (k : Kept A) (Same : A → A → Type 0) (keyed : Keyed k Same) (e : A) (es : List A)
      (s : E.State)
      → (E.execute (insert (insertion k e)) s).0 ≡ ok tt
      → Keeps k Same (law.view s).tables es
      → Keeps k Same (law.view (E.execute (insert (insertion k e)) s).1).tables (e ∷ es)
  inserted-Keeps k Same keyed e es s done (rows, there, are) =
      let (after, held, replaces) = law.inserted (insertion k e) s k.table rows there done in
      (after, held, replaced-Holds k Same keyed e es rows after replaces are)

  -- Any other statement leaves it as it is, and so does one that fails.
  pub elsewhere-Keeps :
      {A : Type 0} (k : Kept A) (Same : A → A → Type 0) (es : List A) (q : Insert) (s : E.State)
      → k.table.name ≢ q.table
      → Keeps k Same (law.view s).tables es
      → Keeps k Same (law.view (E.execute (insert q) s).1).tables es
  elsewhere-Keeps k Same es q s other (rows, there, are) =
      (rows, law.elsewhere (insert q) s k.table.name other ∙ there, are)

  abbrev pub HasPolicy : Tables → Type 0
  HasPolicy tables =
      (rows : List Row) × HasTable tables policy_table rows
      × ((r : Row) → In r rows ↔ (r ≡ new_row policy_table policy_seed))

  pub elsewhere-policy :
      (q : Insert) (s : E.State)
      → policy_table.name ≢ q.table
      → HasPolicy (law.view s).tables
      → HasPolicy (law.view (E.execute (insert q) s).1).tables
  elsewhere-policy q s other (rows, there, one) =
      (rows, law.elsewhere (insert q) s policy_table.name other ∙ there, one)

  -- Every table holds what it should.
  pub record Stands (d : Done) (s : E.State) : Type 0 where
    pub idle : law.pending s ≡ false
    pub rosters : Keeps kept_roster SameSeat (law.view s).tables d.rosters
    pub ceremonies : Keeps kept_ceremony SameCeremony (law.view s).tables d.ceremonies
    pub sessions : Keeps kept_session SameSession (law.view s).tables d.sessions
    pub churns : Keeps kept_churn SameLeaving (law.view s).tables d.churns
    pub policy : HasPolicy (law.view s).tables

  pub failed-Stands :
      (d : Done) (s : E.State) (q : Insert) (e : _)
      → (E.execute (insert q) s).0 ≡ err e
      → Stands d s
      → Stands d (E.execute (insert q) s).1
  failed-Stands d s q e h o =
      let same = law.failed (insert q) s e o.idle h in
      record {
        idle = law.executed_idle (insert q) s o.idle;
        rosters = rw same o.rosters;
        ceremonies = rw same o.ceremonies;
        sessions = rw same o.sessions;
        churns = rw same o.churns;
        policy = rw same o.policy;
      }
