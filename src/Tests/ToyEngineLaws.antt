-- ===== src/Tests/ToyEngineLaws.antt =====
-- The toy engine does what SQLite documents.
use cheget.Base.{
  ◌≡◌, ◌≢◌, ◌↔◌, ◌⊎◌, inl, inr, refl, sym, ap, ◌∙◌, some, List, [], ◌∷◌, map, Bool, true, false,
  not, ◌&&◌, keep, every, In, In-keep_to, In-keep_of, Text, text_dec, Result, ok, err, eqb,
  eqb_refl, Option-cases, Result-cases, ok_injective, Bool-cases, arith,
}
use mathlib.Core.Path.{subst}
use cheget.Base.Int.{ℤ}
use cheget.Base.Sorted.{Pairwise}
use cheget.Coordinator.Sql.{
  SqlError, query_returned_no_rows, Value, Row, project, Table, Insert, Select, Statement,
  create_table, insert, comes_after,
}
use cheget.Coordinator.Sqlite.{
  one_by_one, Db, Replaces, new_row, Yields, Follows, Selects, IsSqlite, touches,
}
use cheget.Tests.ToyEngine.{
  value_dec, Toy, idle, busy, seen, kept, waits, moved, with_table, same_key, run, toy_execute,
  in_order, matching, toy_query, toy_query_row, toy_batch, first_of, toy_version, toy_begin,
  toy_commit, toy_drop, toy_engine,
}

every_In : (p : Row → Bool) (rs : List Row) → every p rs ≡ true → (r : Row) → In r rs → p r ≡ true
every_In p [] h r i = absurd i
every_In p (x ∷ rs) h r (inl e) = rw e (ground arith)
every_In p (x ∷ rs) h r (inr i) = every_In p rs (ground arith) r i

in_order-Pairwise :
    (q : Select) (t : Table) (ms : List Row) → in_order q t ms ≡ true → Pairwise (Follows q t) ms
in_order-Pairwise q t [] h = tt
in_order-Pairwise q t (m ∷ ms) h = (
  λ m' i.
      let both : (not (comes_after q.order m m') && not (same_key t m m')) ≡ true =
        every_In (λ r'. not (comes_after q.order m r') && not (same_key t m r')) ms (ground arith)
          m' i in
      (ground arith, λ k e. ground arith),
  in_order-Pairwise q t ms (ground arith),
)

yields_all :
    (columns : List Text) (ms : List Row) → Yields columns (map (λ m. ok (project columns m)) ms) ms
yields_all columns [] = tt
yields_all columns (m ∷ ms) = (refl, yields_all columns ms)

matching-In :
    (q : Select) (rows : List Row) (r : Row)
    → In r (matching q rows) ↔ (In r rows × (r q.column ≡ q.value))
matching-In q rows r = (
  λ i.
      let (j, e) = In-keep_to (λ m. eqb value_dec (m q.column) q.value) r rows i in
      (j, ground arith),
  λ i. In-keep_of (λ m. eqb value_dec (m q.column) q.value) r rows i.0 (ground arith),
)

toy_selects :
    (q : Select) (s : Toy) (t : Table) (rows : List Row)
    (results : List (Result SqlError (List Value)))
    → (seen s).tables q.table ≡ some (t, rows)
    → toy_query q s ≡ ok results
    → Selects q t rows results
toy_selects q s t rows results there h = elim (Bool-cases (in_order q t (matching q rows))) [
  | inr n ↦ absurd (ground arith)
  | inl y ↦
      let is : map (λ m. ok (project q.columns m)) (matching q rows) ≡ results = ground arith in
      (
        matching q rows,
        matching-In q rows,
        in_order-Pairwise q t (matching q rows) y,
        subst (λ w. Yields q.columns w (matching q rows)) is
            (yields_all q.columns (matching q rows)),
      )
]

replaced :
    (t : Table) (new : Row) (rows : List Row)
    → Replaces t new rows (new ∷ keep (λ r. not (same_key t r new)) rows)
replaced t new rows r = (
  λ i. elim i [
    | inl e ↦ inl e
    | inr j ↦
        let (there, other) = In-keep_to (λ r. not (same_key t r new)) r rows j in
        inr (there, λ e. ground arith)
  ],
  λ i. elim i [
    | inl e ↦ inl e
    | inr (there, other) ↦
        inr (In-keep_of (λ r. not (same_key t r new)) r rows there (ground arith))
  ],
)

seen-moved : (d : Db) (s : Toy) → seen (moved d s) ≡ d
seen-moved d (idle e) = refl
seen-moved d (busy saved live) = refl

with_table-here :
    (name : Text) (held : Table × List Row) (d : Db)
    → (with_table name held d).tables name ≡ some held
with_table-here name held d = ground (arith, eqb_refl text_dec name)

with_table-away :
    (name other : Text) (held : Table × List Row) (d : Db)
    → other ≢ name
    → (with_table name held d).tables other ≡ d.tables other
with_table-away name other held d n = ground arith

toy_inserted :
    (q : Insert) (s : Toy) (t : Table) (rows : List Row)
    → (seen s).tables q.table ≡ some (t, rows)
    → (toy_execute (insert q) s).0 ≡ ok tt
    → (after : List Row) × ((seen (toy_execute (insert q) s).1).tables q.table ≡ some (t, after))
      × Replaces t (new_row t q) rows after
toy_inserted q s t rows there done =
    let after = new_row t q ∷ keep (λ r. not (same_key t r (new_row t q))) rows in
    let d = with_table q.table (t, after) (seen s) in
    let ran : toy_execute (insert q) s ≡ (ok tt, moved d s) = ground arith in
    (
      after,
      ap (λ w. (seen w.1).tables q.table) ran
          ∙ ap (λ w. w.tables q.table) (seen-moved d s)
          ∙ with_table-here q.table (t, after) (seen s),
      replaced t (new_row t q) rows,
    )

toy_created :
    (t : Table) (s : Toy) → (seen (toy_execute (create_table t) s).1).tables t.name ≡ some (t, [])
toy_created t s =
    let d = with_table t.name (t, []) (seen s) in
    ap (λ w. w.tables t.name) (seen-moved d s) ∙ with_table-here t.name (t, []) (seen s)

toy_elsewhere :
    (q : Statement) (s : Toy) (name : Text)
    → name ≢ touches q
    → (seen (toy_execute q s).1).tables name ≡ (seen s).tables name
toy_elsewhere (create_table t) s name n =
    let d = with_table t.name (t, []) (seen s) in
    ap (λ w. w.tables name) (seen-moved d s) ∙ with_table-away t.name name (t, []) (seen s) n
toy_elsewhere (insert q) s name n = elim (Option-cases ((seen s).tables q.table)) [
  | inl e ↦ ground arith
  | inr ((t, rows), e) ↦
      let after = new_row t q ∷ keep (λ r. not (same_key t r (new_row t q))) rows in
      let d = with_table q.table (t, after) (seen s) in
      let ran : toy_execute (insert q) s ≡ (ok tt, moved d s) = ground arith in
      ap (λ w. (seen w.1).tables name) ran
      ∙ ap (λ w. w.tables name) (seen-moved d s)
      ∙ with_table-away q.table name (t, after) (seen s) n
]

toy_failed :
    (q : Statement) (s : Toy) (e : SqlError)
    → (toy_execute q s).0 ≡ err e
    → seen (toy_execute q s).1 ≡ seen s
toy_failed q s e h = elim (Option-cases (run q (seen s))) [
  | inl n ↦ ground arith
  | inr (d, n) ↦ absurd (ground arith)
]

-- A statement stays in its transaction, and out of one.
toy_stays :
    (q : Statement) (s : Toy)
    → (kept (toy_execute q s).1 ≡ kept s) × (waits (toy_execute q s).1 ≡ waits s)
      ⊎ (waits s ≡ false) × (waits (toy_execute q s).1 ≡ false)
toy_stays q (idle d) = elim (Option-cases (run q d)) [
  | inl n ↦ inr (refl, ground arith)
  | inr (e, n) ↦ inr (refl, ground arith)
]
toy_stays q (busy saved live) = elim (Option-cases (run q live)) [
  | inl n ↦ inl (ground arith, ground arith)
  | inr (e, n) ↦ inl (ground arith, ground arith)
]

toy_settled : (s : Toy) → waits s ≡ false → seen s ≡ kept s
toy_settled (idle d) h = refl
toy_settled (busy saved live) h = absurd (ground arith)

toy_begins :
    (s : Toy)
    → (kept (toy_begin s).1 ≡ kept s)
      × (seen (toy_begin s).1 ≡ seen s)
      × ((toy_begin s).0 ≡ ok tt → waits (toy_begin s).1 ≡ true)
toy_begins (idle d) = (refl, refl, λ h. refl)
toy_begins (busy saved live) = (refl, refl, λ h. refl)

toy_commits : (s : Toy) → (toy_commit s).0 ≡ ok tt → kept (toy_commit s).1 ≡ seen s
toy_commits (idle d) h = refl
toy_commits (busy saved live) h = refl

toy_commit_fails :
    (s : Toy) (e : SqlError) → (toy_commit s).0 ≡ err e → kept (toy_commit s).1 ≡ kept s
toy_commit_fails (idle d) e h = refl
toy_commit_fails (busy saved live) e h = absurd (ground arith)

toy_drops :
    (s : Toy)
    → (kept (toy_drop s) ≡ kept s) × (seen (toy_drop s) ≡ kept s) × (waits (toy_drop s) ≡ false)
toy_drops (idle d) = (refl, refl, refl)
toy_drops (busy saved live) = (refl, refl, refl)

toy_set :
    (v : ℤ) (s : Toy)
    → ((seen (toy_version v s).1).version ≡ v)
      × ((seen (toy_version v s).1).tables ≡ (seen s).tables)
toy_set v (idle d) = (refl, refl)
toy_set v (busy saved live) = (refl, refl)

toy_set_pending :
    (v : ℤ) (s : Toy)
    → waits s ≡ true
    → (kept (toy_version v s).1 ≡ kept s)
      × ((toy_version v s).0 ≡ ok tt → waits (toy_version v s).1 ≡ true)
toy_set_pending v (idle d) h = absurd (ground arith)
toy_set_pending v (busy saved live) h = (refl, λ k. refl)

none_first :
    (columns : List Text) (ms : List Row)
    → first_of (map (λ m. ok (project columns m)) ms) ≡ err query_returned_no_rows
    → ms ≡ []
none_first columns [] h = refl
none_first columns (m ∷ ms) h = absurd (ground arith)

pub toy_missing :
    (q : Select) (s : Toy) (t : Table) (rows : List Row)
    → (seen s).tables q.table ≡ some (t, rows)
    → toy_query_row q s ≡ err query_returned_no_rows
    → (m : Row) → In m rows
    → m q.column ≢ q.value
toy_missing q s t rows there h m i e = elim (Bool-cases (in_order q t (matching q rows))) [
  | inr n ↦ ground arith
  | inl y ↦
      let none_left : matching q rows ≡ [] =
        none_first q.columns (matching q rows) (ground arith) in
      absurd (rw none_left at ((matching-In q rows m).1 (i, e)))
]

toy_row :
    (q : Select) (s : Toy) (t : Table) (rows : List Row) (values : List Value)
    → (seen s).tables q.table ≡ some (t, rows)
    → toy_query_row q s ≡ ok values
    → (m : Row) × In m rows × (m q.column ≡ q.value) × (values ≡ project q.columns m)
toy_row q s t rows values there h = elim (Result-cases (toy_query q s)) [
  | inr (e, r) ↦ absurd (ground arith)
  | inl (results, r) ↦
      let (ms, members, follows, yields) = toy_selects q s t rows results there r in
      let first : first_of results ≡ ok values = ground arith in
      row_of results ms values members yields first
]
  where
    row_of :
        (results : List (Result SqlError (List Value))) (ms : List Row) (values : List Value)
        → ((r : Row) → In r ms ↔ (In r rows × (r q.column ≡ q.value)))
        → Yields q.columns results ms
        → first_of results ≡ ok values
        → (m : Row) × In m rows × (m q.column ≡ q.value) × (values ≡ project q.columns m)
    row_of [] ms values is y h = absurd (ground arith)
    row_of (err e ∷ rest) ms values is y h = absurd (ground arith)
    row_of (ok v ∷ rest) [] values is y h = absurd y
    row_of (ok v ∷ rest) (m ∷ ms) values is y h =
        let (i, at) = (is m).0 (inl refl) in (m, i, at, sym (ok_injective h) ∙ y.0)

toy_batched : (qs : List Statement) (s : Toy) → toy_batch qs s ≡ one_by_one toy_engine qs s
unfolding one_by_one
toy_batched [] s = refl
toy_batched (q ∷ qs) s = ground (arith, toy_batched qs (toy_execute q s).1)

toy_reads : (s : Toy) (v : ℤ) → toy_engine.user_version s ≡ ok v → v ≡ (seen s).version
toy_reads s v h = ground arith

toy_idle : (q : Statement) (s : Toy) → waits s ≡ false → waits (toy_execute q s).1 ≡ false
toy_idle q s h = ground (arith, toy_stays q s)

toy_pending :
    (q : Statement) (s : Toy)
    → waits s ≡ true
    → (kept (toy_execute q s).1 ≡ kept s)
      × ((toy_execute q s).0 ≡ ok tt → waits (toy_execute q s).1 ≡ true)
toy_pending q s h = ground (arith, toy_stays q s)

unfoldable pub toy_engine_laws : IsSqlite toy_engine
unfolding toy_row toy_batched toy_reads toy_idle toy_pending toy_settled every_In matching-In
    in_order-Pairwise yields_all seen-moved with_table-here replaced with_table-away toy_selects
    toy_inserted toy_created toy_elsewhere toy_failed toy_stays toy_set_pending toy_set toy_begins
    toy_commits toy_commit_fails toy_drops
toy_engine_laws = record {
  view = seen;
  durable = kept;
  pending = waits;
  settled = toy_settled;
  version_read = toy_reads;
  batched = toy_batched;
  row_selected = toy_row;
  row_missing = toy_missing;
  selected = toy_selects;
  inserted = toy_inserted;
  created = λ t s h. toy_created t s;
  elsewhere = toy_elsewhere;
  failed = λ q s e h k. toy_failed q s e k;
  executed_idle = toy_idle;
  executed_pending = toy_pending;
  version_pending = toy_set_pending;
  version_set = λ v s h. toy_set v s;
  begun = toy_begins;
  committed = toy_commits;
  commit_failed = toy_commit_fails;
  dropped = toy_drops;
}
