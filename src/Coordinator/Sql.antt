-- ===== src/Coordinator/Sql.antt =====
-- What src/coordinator/ uses of rusqlite and SQLite. The statements that the program sends are data; a
-- connection is a parameter, with an operation for each call.
use cheget.Base.{
  ℕ, List, [], ◌∷◌, map, Bool, true, false, Text, text_dec, Result, eqb, if◌then◌else◌,
}
use cheget.Base.Int.{ℤ, int_ltb}
use cheget.Base.TextOrder.{text_ltb}

-- The variants of `rusqlite::Error` that the calls can give.
pub data SqlError : Type 0 where
  sqlite_failure invalid_column_index invalid_column_type query_returned_no_rows : SqlError

pub data Value : Type 0 where
  null : Value
  integer : ℤ → Value
  text : Text → Value
  blob : List ℕ → Value

-- A row answers for each column of its table.
abbrev pub Row : Type 0
Row = Text → Value

abbrev pub project : List Text → Row → List Value
project columns row = map row columns

-- `CREATE TABLE`: the columns with their defaults, and the primary key.
pub record Table : Type 0 where
  pub name : Text
  pub columns : List (Text × Value)
  pub primary : List Text

-- `INSERT INTO name (columns) VALUES (values)`, with `OR REPLACE` or without it.
pub record Insert : Type 0 where
  pub or_replace : Bool
  pub table : Text
  pub columns : List Text
  pub values : List Value

-- `SELECT columns FROM table WHERE column = value ORDER BY order`
pub record Select : Type 0 where
  pub columns : List Text
  pub table : Text
  pub column : Text
  pub value : Value
  pub order : List Text

pub data Statement : Type 0 where
  create_table : Table → Statement
  insert : Insert → Statement

-- A column that the statement does not name has its default.
abbrev pub default_of : List (Text × Value) → Text → Value
default_of [] c = null
default_of ((d, v) ∷ rest) c =
    let other = default_of rest c in if eqb text_dec c d then v else other

abbrev pub bound : List (Text × Value) → List Text → List Value → Row
bound defaults (d ∷ ds) (v ∷ vs) c =
    let other = bound defaults ds vs c in if eqb text_dec c d then v else other
bound defaults [] vs c = default_of defaults c
bound defaults (d ∷ ds) [] c = default_of defaults c

-- SQLite's order of values: NULL, numbers, texts, blobs.
abbrev pub value_ltb : Value → Value → Bool
value_ltb v null = false
value_ltb null (integer b) = true
value_ltb (integer a) (integer b) = int_ltb a b
value_ltb (text a) (integer b) = false
value_ltb (blob a) (integer b) = false
value_ltb null (text b) = true
value_ltb (integer a) (text b) = true
value_ltb (text a) (text b) = text_ltb a b
value_ltb (blob a) (text b) = false
value_ltb null (blob b) = true
value_ltb (integer a) (blob b) = true
value_ltb (text a) (blob b) = true
value_ltb (blob a) (blob b) = text_ltb a b

-- The test that a row comes after another one under `ORDER BY`.
abbrev pub comes_after : List Text → Row → Row → Bool
comes_after [] r s = false
comes_after (c ∷ cs) r s =
    let rest = comes_after cs r s in
    if value_ltb (s c) (r c) then true else if value_ltb (r c) (s c) then false else rest

pub record Engine : Type 1 where
  -- A connection and its database.
  pub State : Type 0
  pub pragma_update : Text → Text → State → Result SqlError (Unit {0}) × State
  pub busy_timeout : ℕ → State → Result SqlError (Unit {0}) × State
  -- `PRAGMA user_version`
  pub user_version : State → Result SqlError ℤ
  pub set_user_version : ℤ → State → Result SqlError (Unit {0}) × State
  pub execute : Statement → State → Result SqlError (Unit {0}) × State
  pub execute_batch : List Statement → State → Result SqlError (Unit {0}) × State
  -- `query_row`, before its closure reads the row
  pub query_row : Select → State → Result SqlError (List Value)
  -- `prepare` and `query_map`: the rows, each of which can fail when the cursor reaches it
  pub query : Select → State → Result SqlError (List (Result SqlError (List Value)))
  -- `unchecked_transaction`, `commit`, and the drop of a `Transaction`
  pub begin : State → Result SqlError (Unit {0}) × State
  pub commit : State → Result SqlError (Unit {0}) × State
  pub drop_transaction : State → State
