-- ===== src/Coordinator/Migrate/Batch.antt =====
-- What the batch `SCHEMA_V1` leaves when it succeeds, and that it stays inside its transaction.
use cheget.Base.{
  ◌≡◌, ◌↔◌, inl, inr, refl, sym, ap, ◌∙◌, some, List, [], ◌∷◌, ◌++◌, Bool, true, not, every, Text,
  text_dec, ℕ_discrete, ok, Result-cases, In, eqb, arith,
}
use cheget.Base.{Option}
use cheget.Coordinator.Sql.{Row, Table, Insert, Statement, create_table, insert, Engine}
use cheget.Coordinator.Schema.{
  roster_table, ceremony_table, session_table, policy_table, policy_seed, churn_table, schema_v1,
  schema_version,
}
use cheget.Coordinator.Sqlite.{one_by_one, Db, touches, new_row, IsSqlite}

abbrev pub Tables : Type 0
Tables = Text → Option (Table × List Row)

abbrev pub HasTable : Tables → Table → List Row → Type 0
HasTable tables t rows = tables t.name ≡ some (t, rows)

-- The tables of the schema, empty but for the seed row of the policy; in a database of version 1.
abbrev pub HasTables : Tables → Type 0
HasTables tables =
    HasTable tables roster_table []
    × HasTable tables ceremony_table []
    × HasTable tables session_table []
    × ((rows : List Row) × HasTable tables policy_table rows
        × ((r : Row) → In r rows ↔ (r ≡ new_row policy_table policy_seed)))
    × HasTable tables churn_table []

abbrev pub IsFresh : Db → Type 0
IsFresh db = (db.version ≡ schema_version) × HasTables db.tables

abbrev avoids : Text → List Statement → Bool
avoids name = every (λ q. not (eqb text_dec name (touches q)))

module _ (E : Engine) (law : IsSqlite E) where
  -- A batch leaves a table alone that none of its statements touches.
  untouched :
      (name : Text) (qs : List Statement) (s : E.State)
      → avoids name qs ≡ true
      → (law.view (one_by_one E qs s).1).tables name ≡ (law.view s).tables name
  unfolding one_by_one
  untouched name [] s h = refl
  untouched name (q ∷ qs) s h =
      let away = law.elsewhere q s name (λ e. ground arith) in
      let rest = untouched name qs (E.execute q s).1 (ground arith) in
      elim (Result-cases (E.execute q s).0) [
        | inl (u, t) ↦ ground arith
        | inr (e, t) ↦ ground arith
      ]

  -- A batch that succeeds has run its first statement and then the others.
  first_ok :
      (q : Statement) (qs : List Statement) (s : E.State)
      → (one_by_one E (q ∷ qs) s).0 ≡ ok tt
      → ((E.execute q s).0 ≡ ok tt) × (one_by_one E (q ∷ qs) s ≡ one_by_one E qs (E.execute q s).1)
  unfolding one_by_one
  first_ok q qs s h = elim (Result-cases (E.execute q s).0) [
    | inl (u, t) ↦ (ground arith, ground arith)
    | inr (e, t) ↦ absurd (ground arith)
  ]

  after_first :
      (q : Statement) (qs : List Statement) (s : E.State)
      → (one_by_one E (q ∷ qs) s).0 ≡ ok tt
      → (one_by_one E qs (E.execute q s).1).0 ≡ ok tt
  after_first q qs s k = ap (λ r. r.0) (sym (first_ok q qs s k).1) ∙ k

  -- A table that a statement of the batch makes and no later one touches is there, empty.
  made :
      (before : List Statement) (t : Table) (after : List Statement) (s : E.State)
      → avoids t.name after ≡ true
      → (one_by_one E (before ++ create_table t ∷ after) s).0 ≡ ok tt
      → HasTable (law.view (one_by_one E (before ++ create_table t ∷ after) s).1).tables t []
  made [] t after s h k =
      let (done, e) = first_ok (create_table t) after s k in
      ap (λ r. (law.view r.1).tables t.name) e
      ∙ untouched t.name after (E.execute (create_table t) s).1 h
      ∙ law.created t s done
  made (q ∷ before) t after s h k =
      let rest = before ++ create_table t ∷ after in
      ap (λ r. (law.view r.1).tables t.name) (first_ok q rest s k).1
      ∙ made before t after (E.execute q s).1 h (after_first q rest s k)

  abbrev Holds : Db → Table → Insert → Type 0
  Holds db t q =
      (rows : List Row) × (db.tables q.table ≡ some (t, rows))
      × ((r : Row) → In r rows ↔ (r ≡ new_row t q))

  -- A table that is made and then filled by one statement holds its one row.
  seeded :
      (before : List Statement) (t : Table) (q : Insert) (after : List Statement) (s : E.State)
      → q.table ≡ t.name
      → avoids q.table after ≡ true
      → (one_by_one E (before ++ create_table t ∷ insert q ∷ after) s).0 ≡ ok tt
      → Holds (law.view (one_by_one E (before ++ create_table t ∷ insert q ∷ after) s).1) t q
  seeded [] t q after s same h k =
      let (done, e) = first_ok (create_table t) (insert q ∷ after) s k in
      let s1 = (E.execute (create_table t) s).1 in
      let (filled, f) = first_ok (insert q) after s1 (after_first (create_table t) _ s k) in
      let (rows, held, replaces) =
        law.inserted q s1 t [] (ap (law.view s1).tables same ∙ law.created t s done) filled in
      (
        rows,
        ap (λ r. (law.view r.1).tables q.table) (e ∙ f)
            ∙ untouched q.table after (E.execute (insert q) s1).1 h
            ∙ held,
        λ r. (
          λ i. elim ((replaces r).0 i) [ inl p ↦ p | inr n ↦ absurd n.0 ],
          λ p. (replaces r).1 (inl p),
        ),
      )
  seeded (p ∷ before) t q after s same h k =
      let rest = before ++ create_table t ∷ insert q ∷ after in
      let (rows, held, one) =
        seeded before t q after (E.execute p s).1 same h (after_first p rest s k) in
      (rows, ap (λ r. (law.view r.1).tables q.table) (first_ok p rest s k).1 ∙ held, one)

  pub batch-HasTables :
      (s : E.State)
      → (one_by_one E schema_v1 s).0 ≡ ok tt
      → HasTables (law.view (one_by_one E schema_v1 s).1).tables
  unfolding schema_v1 text_dec ℕ_discrete
  batch-HasTables s h =
      let r = create_table roster_table in
      let c = create_table ceremony_table in
      let l = create_table session_table in
      let p = create_table policy_table in
      let i = insert policy_seed in
      let w = create_table churn_table in
      (
        made [] roster_table (c ∷ l ∷ p ∷ i ∷ w ∷ []) s refl h,
        made (r ∷ []) ceremony_table (l ∷ p ∷ i ∷ w ∷ []) s refl h,
        made (r ∷ c ∷ []) session_table (p ∷ i ∷ w ∷ []) s refl h,
        seeded (r ∷ c ∷ l ∷ []) policy_table policy_seed (w ∷ []) s refl refl h,
        made (r ∷ c ∷ l ∷ p ∷ i ∷ []) churn_table [] s refl h,
      )

  pub batch_pending :
      (qs : List Statement) (s : E.State)
      → law.pending s ≡ true
      → (law.durable (one_by_one E qs s).1 ≡ law.durable s)
        × ((one_by_one E qs s).0 ≡ ok tt → law.pending (one_by_one E qs s).1 ≡ true)
  unfolding one_by_one
  batch_pending [] s h = (refl, λ e. h)
  batch_pending (q ∷ qs) s h =
      let (same, stays) = law.executed_pending q s h in
      elim (Result-cases (E.execute q s).0) [
        | inr (e, t) ↦ (ground arith, λ u. absurd (ground arith))
        | inl (u, t) ↦
            let (same', stays') = batch_pending qs (E.execute q s).1 (stays t) in
            (ground arith, λ v. ground arith)
      ]
