-- ===== src/Coordinator/Kept.antt =====
-- What a struct of the coordinator and its table share: an INSERT binds the struct to the columns, and
-- a SELECT of the columns reads it back.
use cheget.Base.{
  ◌≡◌, ◌≢◌, ◌∙◌, ap, refl, List, [], Text, text_dec, ℕ_discrete, Result, ok, err, map_err, arith,
}
use cheget.Base.Int.{ℤ, pos}
use cheget.Coordinator.Sql.{SqlError, Value, null, integer, text, blob, Row, project, Table, bound}
use cheget.Coordinator.Schema.{roster_table, ceremony_table, session_table, churn_table}
use cheget.Coordinator.Store.{folded}
use cheget.Coordinator.Rows.{
  RosterEntry, CeremonyTranscript, SessionLog, ChurnEntry, roster_columns, roster_params,
  roster_row, ceremony_columns, ceremony_params, ceremony_row, session_columns, session_params,
  session_row, churn_columns, churn_params, churn_row,
}
use cheget.Coordinator.Rows.Laws.{
  roster_row-roster_params, roster_params_of_row, ceremony_row-ceremony_params,
  ceremony_params_of_row, session_row-session_params, session_params_of_row, churn_row-churn_params,
  churn_params_of_row,
}

pub record Kept (A : Type 0) : Type 0 where
  pub table : Table
  pub columns : List Text
  pub params : A → List Value
  pub read : List Value → Result SqlError A
  pub reads_back : (a : A) → read (params a) ≡ ok a
  pub bound_back : (a : A) → project columns (bound table.columns columns (params a)) ≡ params a
  pub exact : (m : Row) (a : A) → read (project columns m) ≡ ok a → project columns m ≡ params a

-- The row that is inserted, and rows that read alike.
module _ {A : Type 0} (k : Kept A) where
  abbrev pub kept_row : A → Row
  kept_row a = bound k.table.columns k.columns (k.params a)

  pub read-kept_row : (a : A) → k.read (project k.columns (kept_row a)) ≡ ok a
  read-kept_row a = ap k.read (k.bound_back a) ∙ k.reads_back a

pub project-roster :
    (e : RosterEntry)
    → project roster_columns (bound roster_table.columns roster_columns (roster_params e))
      ≡ roster_params e
unfolding roster_params text_dec ℕ_discrete
project-roster e = refl

abbrev pub kept_roster : Kept RosterEntry
kept_roster = record {
  table = roster_table;
  columns = roster_columns;
  params = roster_params;
  read = roster_row;
  reads_back = roster_row-roster_params;
  bound_back = project-roster;
  exact = λ m a h. roster_params_of_row _ _ _ _ _ _ _ a h;
}

pub project-ceremony :
    (e : CeremonyTranscript)
    → project ceremony_columns (bound ceremony_table.columns ceremony_columns (ceremony_params e))
      ≡ ceremony_params e
unfolding ceremony_params text_dec ℕ_discrete
project-ceremony e = refl

abbrev pub kept_ceremony : Kept CeremonyTranscript
kept_ceremony = record {
  table = ceremony_table;
  columns = ceremony_columns;
  params = ceremony_params;
  read = ceremony_row;
  reads_back = ceremony_row-ceremony_params;
  bound_back = project-ceremony;
  exact = λ m a h. ceremony_params_of_row _ _ _ _ _ _ _ _ a h;
}

pub project-session :
    (e : SessionLog)
    → project session_columns (bound session_table.columns session_columns (session_params e))
      ≡ session_params e
unfolding session_params text_dec ℕ_discrete
project-session e = refl

abbrev pub kept_session : Kept SessionLog
kept_session = record {
  table = session_table;
  columns = session_columns;
  params = session_params;
  read = session_row;
  reads_back = session_row-session_params;
  bound_back = project-session;
  exact = λ m a h. session_params_of_row _ _ _ _ _ _ _ _ a h;
}

pub project-churn :
    (e : ChurnEntry)
    → project churn_columns (bound churn_table.columns churn_columns (churn_params e))
      ≡ churn_params e
unfolding churn_params text_dec ℕ_discrete
project-churn e = refl

abbrev pub kept_churn : Kept ChurnEntry
kept_churn = record {
  table = churn_table;
  columns = churn_columns;
  params = churn_params;
  read = churn_row;
  reads_back = churn_row-churn_params;
  bound_back = project-churn;
  exact = λ m a h. churn_params_of_row _ _ _ _ _ a h;
}

pub executed : (r : Result SqlError (Unit {0})) → map_err folded r ≡ ok tt → r ≡ ok tt
executed (ok tt) h = refl
executed (err e) h = absurd (ground arith)

content : Value → Text
content null = []
content (integer i) = []
content (text t) = t
content (blob b) = []

pub text_injective : {a b : Text} → text a ≡ text b → a ≡ b
unfolding content
text_injective e = ap content e

number : Value → ℤ
number null = pos 0
number (integer i) = i
number (text t) = pos 0
number (blob b) = pos 0

pub integer_injective : {a b : ℤ} → integer a ≡ integer b → a ≡ b
unfolding number
integer_injective e = ap number e

pub text-ne-null : (id : Text) → text id ≢ null
text-ne-null id e = cc

pub integer-ne-null : (i : ℤ) → integer i ≢ null
integer-ne-null i e = cc
