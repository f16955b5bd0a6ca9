-- ===== src/Tests/ToyEngine.antt =====
-- A database engine that keeps its tables as functions, and answers a query only if the rows that
-- match are in the order that it asks for.
use cheget.Base.{
  ℕ, ◌≡◌, ◌≢◌, refl, ap, Option, none, some, List, [], ◌∷◌, map, Bool, true, false, not, ◌&&◌, keep,
  every, Text, text_dec, Result, ok, err, eqb, if◌then◌else◌, cons_injective, arith,
}
use mathlib.Core.Path.{ap₂}
use cheget.Base.Int.{ℤ, int_dec}
use cheget.Coordinator.Sql.{
  SqlError, sqlite_failure, query_returned_no_rows, Value, null, integer, text, blob, Row, project,
  Table, Select, Statement, create_table, insert, comes_after, Engine,
}
use cheget.Coordinator.Sqlite.{Db, new_row}
use cheget.Coordinator.Kept.{text_injective, integer_injective}

tag : Value → ℕ
tag null = 0
tag (integer i) = 1
tag (text t) = 2
tag (blob b) = 3

apart : {u v : Value} → tag u ≢ tag v → u ≢ v
apart n e = n (ap tag e)

bytes_of : Value → List ℕ
bytes_of null = []
bytes_of (integer i) = []
bytes_of (text t) = []
bytes_of (blob b) = b

blob_injective : {a b : List ℕ} → blob a ≡ blob b → a ≡ b
unfolding bytes_of
blob_injective e = ap bytes_of e

unfoldable pub value_dec : Discrete Value
unfolding tag int_dec text_dec apart blob_injective
value_dec null null = yes refl
value_dec null (integer j) = no (apart (λ e. omega (arith, e)))
value_dec null (text u) = no (apart (λ e. omega (arith, e)))
value_dec null (blob b) = no (apart (λ e. omega (arith, e)))
value_dec (integer i) null = no (apart (λ e. omega (arith, e)))
value_dec (integer i) (integer j) = elim (int_dec i j) [
  | yes p ↦ yes (ap integer p)
  | no n ↦ no (λ e. n (integer_injective e))
]
value_dec (integer i) (text u) = no (apart (λ e. omega (arith, e)))
value_dec (integer i) (blob b) = no (apart (λ e. omega (arith, e)))
value_dec (text t) null = no (apart (λ e. omega (arith, e)))
value_dec (text t) (integer j) = no (apart (λ e. omega (arith, e)))
value_dec (text t) (text u) = elim (text_dec t u) [
  | yes p ↦ yes (ap text p)
  | no n ↦ no (λ e. n (text_injective e))
]
value_dec (text t) (blob b) = no (apart (λ e. omega (arith, e)))
value_dec (blob a) null = no (apart (λ e. omega (arith, e)))
value_dec (blob a) (integer j) = no (apart (λ e. omega (arith, e)))
value_dec (blob a) (text u) = no (apart (λ e. omega (arith, e)))
value_dec (blob a) (blob b) = elim (text_dec a b) [
  | yes p ↦ yes (ap blob p)
  | no n ↦ no (λ e. n (blob_injective e))
]

nil_ne_values : (v : Value) (vs : List Value) → ◌≢◌ {A = List Value} [] (v ∷ vs)
nil_ne_values v vs e = cc

values_ne_nil : (v : Value) (vs : List Value) → ◌≢◌ {A = List Value} (v ∷ vs) []
values_ne_nil v vs e = cc

unfoldable pub values_dec : Discrete (List Value)
unfolding nil_ne_values values_ne_nil
values_dec [] [] = yes refl
values_dec [] (v ∷ vs) = no (nil_ne_values v vs)
values_dec (u ∷ us) [] = no (values_ne_nil u us)
values_dec (u ∷ us) (v ∷ vs) = elim (value_dec u v) [
  | no p ↦ no (λ e. p (cons_injective e).0)
  | yes p ↦ elim (values_dec us vs) [
    | no q ↦ no (λ e. q (cons_injective e).1)
    | yes q ↦ yes (ap₂ ◌∷◌ p q)
  ]
]

-- Without a transaction, or with what was durable when it began.
pub data Toy : Type 0 where
  idle : Db → Toy
  busy : Db → Db → Toy

abbrev pub seen : Toy → Db
seen (idle d) = d
seen (busy saved live) = live

abbrev pub kept : Toy → Db
kept (idle d) = d
kept (busy saved live) = saved

abbrev pub waits : Toy → Bool
waits (idle d) = false
waits (busy saved live) = true

abbrev pub moved : Db → Toy → Toy
moved d (idle e) = idle d
moved d (busy saved live) = busy saved d

abbrev pub with_table : Text → Table × List Row → Db → Db
with_table name held d = record {
  version = d.version;
  tables = λ n. if eqb text_dec n name then some held else d.tables n;
}

abbrev pub same_key : Table → Row → Row → Bool
same_key t r r' = eqb values_dec (project t.primary r) (project t.primary r')

abbrev pub run : Statement → Db → Option Db
run (create_table t) d = some (with_table t.name (t, []) d)
run (insert q) d = elim (d.tables q.table) [
  | none ↦ none
  | some (t, rows) ↦
      some
        (with_table q.table (t, new_row t q ∷ keep (λ r. not (same_key t r (new_row t q))) rows) d)
]

abbrev pub toy_execute : Statement → Toy → Result SqlError (Unit {0}) × Toy
toy_execute q s = elim (run q (seen s)) [
  | none ↦ (err sqlite_failure, s)
  | some d ↦ (ok tt, moved d s)
]

abbrev pub in_order : Select → Table → List Row → Bool
in_order q t [] = true
in_order q t (r ∷ rs) =
    every (λ r'. not (comes_after q.order r r') && not (same_key t r r')) rs && in_order q t rs

abbrev pub matching : Select → List Row → List Row
matching q rows = keep (λ r. eqb value_dec (r q.column) q.value) rows

abbrev pub toy_query : Select → Toy → Result SqlError (List (Result SqlError (List Value)))
toy_query q s = elim ((seen s).tables q.table) [
  | none ↦ err sqlite_failure
  | some (t, rows) ↦
      if in_order q t (matching q rows)
      then ok (map (λ m. ok (project q.columns m)) (matching q rows))
      else err sqlite_failure
]

abbrev pub first_of : List (Result SqlError (List Value)) → Result SqlError (List Value)
first_of [] = err query_returned_no_rows
first_of (r ∷ rs) = r

abbrev pub toy_query_row : Select → Toy → Result SqlError (List Value)
toy_query_row q s = elim (toy_query q s) [ err e ↦ err e | ok rows ↦ first_of rows ]

abbrev pub toy_batch : List Statement → Toy → Result SqlError (Unit {0}) × Toy
toy_batch [] s = (ok tt, s)
toy_batch (q ∷ qs) s =
    let done = toy_execute q s in
    let rest = toy_batch qs done.1 in elim done.0 [ ok _ ↦ rest | err e ↦ (err e, done.1) ]

abbrev pub toy_version : ℤ → Toy → Result SqlError (Unit {0}) × Toy
toy_version v s = (ok tt, moved (record { version = v; tables = (seen s).tables }) s)

abbrev pub toy_begin : Toy → Result SqlError (Unit {0}) × Toy
toy_begin (idle d) = (ok tt, busy d d)
toy_begin (busy saved live) = (err sqlite_failure, busy saved live)

abbrev pub toy_commit : Toy → Result SqlError (Unit {0}) × Toy
toy_commit (idle d) = (err sqlite_failure, idle d)
toy_commit (busy saved live) = (ok tt, idle live)

abbrev pub toy_drop : Toy → Toy
toy_drop (idle d) = idle d
toy_drop (busy saved live) = idle saved

abbrev pub toy_engine : Engine
toy_engine = record {
  State = Toy;
  pragma_update = λ name value s. (ok tt, s);
  busy_timeout = λ n s. (ok tt, s);
  user_version = λ s. ok (seen s).version;
  set_user_version = toy_version;
  execute = toy_execute;
  execute_batch = toy_batch;
  query_row = toy_query_row;
  query = toy_query;
  begin = toy_begin;
  commit = toy_commit;
  drop_transaction = toy_drop;
}
