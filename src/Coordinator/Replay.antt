-- ===== src/Coordinator/Replay.antt =====
-- A run of the coordinator's store: insertions of src/coordinator/mod.rs in any order, each of which
-- succeeds or fails, and what the tables should hold behind them.
use cheget.Base.{◌≡◌, ◌⊎◌, List, [], ◌∷◌, ok, err}
use cheget.Coordinator.Sql.{Engine}
use cheget.Coordinator.Rows.{RosterEntry, CeremonyTranscript, SessionLog, ChurnEntry}
use cheget.Coordinator.Store.{insert_roster, insert_ceremony, insert_session, insert_churn}

pub data Operation : Type 0 where
  roster : RosterEntry → Operation
  ceremony : CeremonyTranscript → Operation
  session : SessionLog → Operation
  churn : ChurnEntry → Operation

-- The insertions that succeeded, the last one first.
pub record Done : Type 0 where
  pub rosters : List RosterEntry
  pub ceremonies : List CeremonyTranscript
  pub sessions : List SessionLog
  pub churns : List ChurnEntry

unfoldable pub nothing : Done
nothing = record { rosters = []; ceremonies = []; sessions = []; churns = [] }

module _ (E : Engine) where
  unfoldable pub perform : Operation → Done × E.State → Done × E.State
  perform (roster e) (d, s) =
      let out = insert_roster E e s in
      (elim out.0 [ ok _ ↦ record d { rosters = e ∷ d.rosters } | err _ ↦ d ], out.1)
  perform (ceremony t) (d, s) =
      let out = insert_ceremony E t s in
      (elim out.0 [ ok _ ↦ record d { ceremonies = t ∷ d.ceremonies } | err _ ↦ d ], out.1)
  perform (session log) (d, s) =
      let out = insert_session E log s in
      (elim out.0 [ ok _ ↦ record d { sessions = log ∷ d.sessions } | err _ ↦ d ], out.1)
  perform (churn c) (d, s) =
      let out = insert_churn E c s in
      (elim out.0 [ ok _ ↦ record d { churns = c ∷ d.churns } | err _ ↦ d ], out.1)

  unfoldable pub run_all : List Operation → Done × E.State → Done × E.State
  run_all [] from = from
  run_all (o ∷ os) from = run_all os (perform o from)

-- What a table should hold: of the entries of one key the last that was inserted.
abbrev pub Holds : {A : Type 0} → (A → A → Type 0) → List A → A → Type 0
Holds Same [] a = ⊥
Holds Same (e ∷ es) a = (a ≡ e) ⊎ (Holds Same es a × (Same a e → ⊥))

abbrev pub SameSeat : RosterEntry → RosterEntry → Type 0
SameSeat a b = (a.key_id ≡ b.key_id) × (a.identifier ≡ b.identifier)

abbrev pub SameLeaving : ChurnEntry → ChurnEntry → Type 0
SameLeaving a b =
    (a.key_id ≡ b.key_id) × (a.identifier ≡ b.identifier) × (a.left_epoch ≡ b.left_epoch)

abbrev pub SameCeremony : CeremonyTranscript → CeremonyTranscript → Type 0
SameCeremony a b = a.ceremony_id ≡ b.ceremony_id

abbrev pub SameSession : SessionLog → SessionLog → Type 0
SameSession a b = a.session_id ≡ b.session_id
