-- ===== src/Coordinator/Sqlite.antt =====
-- The documented behaviour of SQLite that the coordinator relies on, of a connection: what it reads,
-- what is durable, and what each call does to both.
use cheget.Base.{
  ◌≡◌, ◌≢◌, ◌↔◌, ◌⊎◌, Option, some, List, [], ◌∷◌, Bool, true, false, Text, Result, ok, err, In,
}
use cheget.Base.Effects.{M}
use cheget.Base.Int.{ℤ}
use cheget.Base.Sorted.{Pairwise}
use cheget.Coordinator.Sql.{
  SqlError, query_returned_no_rows, Value, null, Row, project, Table, Insert, Select, Statement,
  create_table, insert, bound, comes_after, Engine,
}

pub record Db : Type 0 where
  pub version : ℤ
  pub tables : Text → Option (Table × List Row)

abbrev pub touches : Statement → Text
touches (create_table t) = t.name
touches (insert q) = q.table

abbrev pub SameKey : Table → Row → Row → Type 0
SameKey t r r' = project t.primary r ≡ project t.primary r'

-- No column of the key is NULL.
abbrev pub HasKey : Table → Row → Type 0
HasKey t r = (c : Text) → In c t.primary → r c ≢ null

-- The row is in; a row with its key is out; the others are as they were.
abbrev pub Replaces : Table → Row → List Row → List Row → Type 0
Replaces t new before after =
    (r : Row) → In r after ↔ ((r ≡ new) ⊎ (In r before × (SameKey t r new → ⊥)))

abbrev pub new_row : Table → Insert → Row
new_row t q = bound t.columns q.columns q.values

-- The cursor yields the columns of the rows, up to an error.
abbrev pub Yields : List Text → List (Result SqlError (List Value)) → List Row → Type 0
Yields columns [] [] = Unit
Yields columns [] (m ∷ ms) = ⊥
Yields columns (err e ∷ rest) ms = Unit
Yields columns (ok values ∷ rest) [] = ⊥
Yields columns (ok values ∷ rest) (m ∷ ms) = (values ≡ project columns m) × Yields columns rest ms

-- Rows that follow one another: in order, and with different keys.
abbrev pub Follows : Select → Table → Row → Row → Type 0
Follows q t r r' = (comes_after q.order r r' ≡ false) × (HasKey t r → SameKey t r r' → ⊥)

abbrev pub Selects : Select → Table → List Row → List (Result SqlError (List Value)) → Type 0
Selects q t rows results =
    (ms : List Row) × ((r : Row) → In r ms ↔ (In r rows × (r q.column ≡ q.value)))
    × Pairwise (Follows q t) ms
    × Yields q.columns results ms

-- One statement after another, up to the first error.
unfoldable pub one_by_one : (E : Engine) → List Statement → M E.State SqlError (Unit {0})
one_by_one E [] s = (ok tt, s)
one_by_one E (q ∷ qs) s =
    let done = E.execute q s in
    let rest = one_by_one E qs done.1 in elim done.0 [ ok _ ↦ rest | err e ↦ (err e, done.1) ]

pub record IsSqlite (E : Engine) : Type 0 where
  -- What the connection reads, and what a crash would leave.
  pub view : E.State → Db
  pub durable : E.State → Db
  pub pending : E.State → Bool
  pub settled : (s : E.State) → pending s ≡ false → view s ≡ durable s
  pub version_read : (s : E.State) (v : ℤ) → E.user_version s ≡ ok v → v ≡ (view s).version
  pub batched : (qs : List Statement) (s : E.State) → E.execute_batch qs s ≡ one_by_one E qs s
  -- `query_row` gives a row that matches.
  pub row_selected :
      (q : Select) (s : E.State) (t : Table) (rows : List Row) (values : List Value)
      → (view s).tables q.table ≡ some (t, rows)
      → E.query_row q s ≡ ok values
      → (m : Row) × In m rows × (m q.column ≡ q.value) × (values ≡ project q.columns m)
  -- It reports that no row was returned only if none matches.
  pub row_missing :
      (q : Select) (s : E.State) (t : Table) (rows : List Row)
      → (view s).tables q.table ≡ some (t, rows)
      → E.query_row q s ≡ err query_returned_no_rows
      → (m : Row) → In m rows
      → m q.column ≢ q.value
  pub selected :
      (q : Select) (s : E.State) (t : Table) (rows : List Row)
      (results : List (Result SqlError (List Value)))
      → (view s).tables q.table ≡ some (t, rows)
      → E.query q s ≡ ok results
      → Selects q t rows results
  pub inserted :
      (q : Insert) (s : E.State) (t : Table) (rows : List Row)
      → (view s).tables q.table ≡ some (t, rows)
      → (E.execute (insert q) s).0 ≡ ok tt
      → (after : List Row) × ((view (E.execute (insert q) s).1).tables q.table ≡ some (t, after))
        × Replaces t (new_row t q) rows after
  pub created :
      (t : Table) (s : E.State)
      → (E.execute (create_table t) s).0 ≡ ok tt
      → (view (E.execute (create_table t) s).1).tables t.name ≡ some (t, [])
  pub elsewhere :
      (q : Statement) (s : E.State) (name : Text)
      → name ≢ touches q
      → (view (E.execute q s).1).tables name ≡ (view s).tables name
  -- Outside a transaction, a statement that fails changes nothing.
  pub failed :
      (q : Statement) (s : E.State) (e : SqlError)
      → pending s ≡ false
      → (E.execute q s).0 ≡ err e
      → view (E.execute q s).1 ≡ view s
  -- There each statement is a transaction of its own.
  pub executed_idle :
      (q : Statement) (s : E.State) → pending s ≡ false → pending (E.execute q s).1 ≡ false
  -- In a transaction nothing becomes durable.
  pub executed_pending :
      (q : Statement) (s : E.State)
      → pending s ≡ true
      → (durable (E.execute q s).1 ≡ durable s)
        × ((E.execute q s).0 ≡ ok tt → pending (E.execute q s).1 ≡ true)
  pub version_pending :
      (v : ℤ) (s : E.State)
      → pending s ≡ true
      → (durable (E.set_user_version v s).1 ≡ durable s)
        × ((E.set_user_version v s).0 ≡ ok tt → pending (E.set_user_version v s).1 ≡ true)
  pub version_set :
      (v : ℤ) (s : E.State)
      → (E.set_user_version v s).0 ≡ ok tt
      → ((view (E.set_user_version v s).1).version ≡ v)
        × ((view (E.set_user_version v s).1).tables ≡ (view s).tables)
  pub begun :
      (s : E.State)
      → (durable (E.begin s).1 ≡ durable s)
        × (view (E.begin s).1 ≡ view s)
        × ((E.begin s).0 ≡ ok tt → pending (E.begin s).1 ≡ true)
  pub committed : (s : E.State) → (E.commit s).0 ≡ ok tt → durable (E.commit s).1 ≡ view s
  pub commit_failed :
      (s : E.State) (e : SqlError) → (E.commit s).0 ≡ err e → durable (E.commit s).1 ≡ durable s
  pub dropped :
      (s : E.State)
      → (durable (E.drop_transaction s) ≡ durable s)
        × (view (E.drop_transaction s) ≡ durable s)
        × (pending (E.drop_transaction s) ≡ false)
