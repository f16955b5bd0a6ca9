-- ===== src/Coordinator/Lookup.antt =====
-- Lookups by id: what `get_ceremony` and `get_session` find after an insertion.
pub mod Answers
use cheget.Base.{
  holds, ◌≡◌, ◌≢◌, ◌↔◌, ◌⊎◌, inl, inr, refl, sym, ap, ◌∙◌, Option, none, some, List, [], ◌∷◌, Text,
  text_dec, ℕ_discrete, eqb, if◌then◌else◌, codes, Result, ok, err, ◌>>=◌, map_err, Result-cases,
  In, arith, ok_injective, cons_injective,
}
use mathlib.Core.Path.{subst}
use cheget.Base.Sorted.{Pairwise}
use cheget.Store.Errors.{StoreError, sqlite}
use cheget.Coordinator.Sql.{
  SqlError, Value, null, integer, text, blob, Row, project, Table, Insert, Select, insert, Engine,
}
use cheget.Coordinator.Sqlite.{SameKey, HasKey, Replaces, Yields, Follows, Selects, IsSqlite}
use cheget.Coordinator.Schema.{ceremony_table, session_table}
use cheget.Coordinator.Rows.{CeremonyTranscript, SessionLog, ceremony_params, session_params}
use cheget.Coordinator.Kept.{Kept, kept_row, read-kept_row, kept_ceremony, kept_session, executed}
use cheget.Coordinator.Store.{
  folded, replace_into, select_ceremony, select_session, next_row, insert_ceremony, get_ceremony,
  insert_session, get_session,
}
use cheget.Coordinator.Lookup.Answers.{Answer, answer, Answer-same, Answer-other}

module _ {A : Type 0} (k : Kept A) (c : Text) (primary : k.table.primary ≡ c ∷ []) (q : Select)
    (columns : q.columns ≡ k.columns) (id : Text) where
  module _ (E : Engine) (law : IsSqlite E) where
    abbrev pub fetch : E.State → Result StoreError (Option A)
    fetch s = do rows ← map_err folded (E.query q s); map_err folded (next_row k.read rows)

    fetch_err : (s : E.State) (e : StoreError) → fetch s ≡ err e → fetch s ≡ err sqlite
    fetch_err s e h = elim (Result-cases (E.query q s)) [
      | inr (f, r) ↦ ground arith
      | inl (results, r) ↦ elim (Result-cases (next_row k.read results)) [
        | inr (f, t) ↦ ground arith
        | inl (y, t) ↦ ground arith
      ]
    ]

    pub fetched :
        (s : E.State) (rows : List Row) (x : Option A)
        → q.column ≡ c
        → q.value ≡ text id
        → (law.view s).tables q.table ≡ some (k.table, rows)
        → fetch s ≡ ok x
        → Answer k c primary q columns id rows x
    fetched s rows x at is there h = elim (Result-cases (E.query q s)) [
      | inr (e, r) ↦ absurd (ground arith)
      | inl (results, r) ↦
          let (ms, members, follows, yields) = law.selected q s k.table rows results there r in
          elim (Result-cases (next_row k.read results)) [
            | inr (e, t) ↦ absurd (ground arith)
            | inl (y, t) ↦
                let same : y ≡ x = ground arith in
                answer k c primary q columns id rows ms results x
                  (λ m.
                    subst (λ v. In m ms ↔ (In m rows × (m c ≡ v))) is
                      (subst (λ col. In m ms ↔ (In m rows × (m col ≡ q.value))) at (members m)))
                  follows (subst (λ cols. Yields cols results ms) columns yields) (t ∙ ap ok same)
          ]
    ]

    -- After an insertion a lookup gives the new struct for its id, and for another id what it gave
    -- before, or an error of SQLite.
    pub fetch-insert :
        (e : A) (id' : Text) (s : E.State) (rows : List Row) (x : Option A)
        → q.column ≡ c
        → q.value ≡ text id
        → kept_row k e c ≡ text id'
        → (law.view s).tables q.table ≡ some (k.table, rows)
        → (E.execute (insert (replace_into q.table k.columns (k.params e))) s).0 ≡ ok tt
        → fetch s ≡ ok x
        → let after = (E.execute (insert (replace_into q.table k.columns (k.params e))) s).1 in
          (fetch after ≡ ok (if eqb text_dec id' id then some e else x))
          ⊎ (fetch after ≡ err sqlite)
    fetch-insert e id' s rows x at is here there done h =
        let put = replace_into q.table k.columns (k.params e) in
        let s' = (E.execute (insert put) s).1 in
        let (after, held, replaces) = law.inserted put s k.table rows there done in
        elim (Result-cases (fetch s')) [
          | inr (e', r) ↦ inr (fetch_err s' e' r)
          | inl (y, r) ↦
              inl (elim (text_dec id' id) as (λ d. fetch s' ≡ ok (if holds d then some e else x)) [
                | yes same ↦
                    r
                    ∙ ap ok (
                        Answer-same k c primary q columns id e rows after y (here ∙ ap text same)
                          replaces (fetched s' after y at is held r))
                | no other ↦
                    r
                    ∙ ap ok (
                        Answer-other k c primary q columns id e id' rows after x y here other
                          replaces (fetched s rows x at is there h)
                          (fetched s' after y at is held r))
              ])
        ]

pub ceremony_id-kept_row :
    (t : CeremonyTranscript) → kept_row kept_ceremony t (codes "ceremony_id") ≡ text t.ceremony_id
unfolding ceremony_params text_dec ℕ_discrete
ceremony_id-kept_row t = refl

pub session_id-kept_row :
    (log : SessionLog) → kept_row kept_session log (codes "session_id") ≡ text log.session_id
unfolding session_params text_dec ℕ_discrete
session_id-kept_row log = refl

module _ (E : Engine) (law : IsSqlite E) where
  -- After `insert_ceremony` has succeeded on a database that does what it documents and holds the
  -- transcripts, `get_ceremony` gives the new transcript for its id and for another id what it gave
  -- before, or it fails with an error of SQLite.
  pub get_ceremony-insert_ceremony :
      (t : CeremonyTranscript) (id : Text) (s : E.State) (rows : List Row)
      (x : Option CeremonyTranscript)
      → (law.view s).tables (codes "ceremony_transcripts") ≡ some (ceremony_table, rows)
      → (insert_ceremony E t s).0 ≡ ok tt
      → get_ceremony E id s ≡ ok x
      → let found = get_ceremony E id (insert_ceremony E t s).1 in
        (found ≡ ok (if eqb text_dec t.ceremony_id id then some t else x)) ⊎ (found ≡ err sqlite)
  unfolding insert_ceremony get_ceremony
  get_ceremony-insert_ceremony t id s rows x there done h =
      fetch-insert kept_ceremony (codes "ceremony_id") refl (select_ceremony id) refl id E law t
        t.ceremony_id s rows x refl refl (ceremony_id-kept_row t) there (executed _ done) h

  -- After `insert_session` has succeeded on a database that does what it documents and holds the
  -- logs, `get_session` gives the new log for its id and for another id what it gave before, or it
  -- fails with an error of SQLite.
  pub get_session-insert_session :
      (log : SessionLog) (id : Text) (s : E.State) (rows : List Row) (x : Option SessionLog)
      → (law.view s).tables (codes "session_logs") ≡ some (session_table, rows)
      → (insert_session E log s).0 ≡ ok tt
      → get_session E id s ≡ ok x
      → let found = get_session E id (insert_session E log s).1 in
        (found ≡ ok (if eqb text_dec log.session_id id then some log else x)) ⊎ (found ≡ err sqlite)
  unfolding insert_session get_session
  get_session-insert_session log id s rows x there done h =
      fetch-insert kept_session (codes "session_id") refl (select_session id) refl id E law log
        log.session_id s rows x refl refl (session_id-kept_row log) there (executed _ done) h
