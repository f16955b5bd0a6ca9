-- ===== src/Coordinator/Found.antt =====
-- What the readers of src/coordinator/mod.rs find behind any sequence of insertions.
use cheget.Base.{
  ◌≡◌, ◌≢◌, ◌↔◌, ◌⊎◌, inl, inr, refl, sym, ap, ◌∙◌, Option, none, some, List, [], ◌∷◌, true, false,
  In, Text, codes, ok, ok_injective,
}
use cheget.Base.Int.{int_ltb, pos}
use cheget.Base.Sorted.{Pairwise, Before}
use cheget.Coordinator.Sql.{text, Row, project, Select, Engine}
use cheget.Coordinator.Sqlite.{IsSqlite}
use cheget.Coordinator.Rows.{RosterEntry, CeremonyTranscript, SessionLog, ChurnEntry}
use cheget.Coordinator.Kept.{
  Kept, kept_row, read-kept_row, kept_roster, kept_ceremony, kept_session, kept_churn,
  text_injective,
}
use cheget.Coordinator.Store.{
  select_roster, select_ceremony, select_session, select_churn, list_roster, get_ceremony,
  get_session, list_churn, migrate,
}
use cheget.Coordinator.Orders.{text_order, epoch_order}
use cheget.Coordinator.Listing.{Grouped, Listed, gives}
use cheget.Coordinator.Lookup.{fetched, ceremony_id-kept_row, session_id-kept_row}
use cheget.Coordinator.Lookup.Answers.{Answer}
use cheget.Coordinator.Roster.{grouped_roster}
use cheget.Coordinator.Churn.{grouped_churn}
use cheget.Coordinator.Replay.{
  Operation, Done, nothing, run_all, Holds, SameSeat, SameLeaving, SameCeremony, SameSession,
}
use cheget.Coordinator.Reachable.{migrated-Stands}

-- The one entry of an id, or none.
abbrev pub Finds : {A : Type 0} → (A → A → Type 0) → List A → (A → Text) → Text → Option A → Type 0
Finds Same es id_of id x =
    ((x ≡ none) × ((a : _) → Holds Same es a → id_of a ≢ id))
    ⊎ ((a : _) × (x ≡ some a) × Holds Same es a × (id_of a ≡ id))

module _ {A : Type 0} (k : Kept A) (Same : A → A → Type 0) (es : List A) (rows : List Row)
    (are : (r : Row) → In r rows ↔ ((a : A) × Holds Same es a × (r ≡ kept_row k a))) where
  -- A row that reads as an entry is the row of that entry.
  read_Holds :
      (m : Row) (a : A)
      → In m rows
      → k.read (project k.columns m) ≡ ok a
      → Holds Same es a × (m ≡ kept_row k a)
  read_Holds m a i read =
      let (b, held, is) = (are m).0 i in
      let same : b ≡ a =
        ok_injective
          (sym (read-kept_row k b) ∙ ap (λ w. k.read (project k.columns w)) (sym is) ∙ read) in
      rw (← same) (held, is)

  Listed-Holds :
      (order_by : List Text) (c : Text) (G : Grouped k order_by c) (g : Text) (xs : List A)
      → Listed k order_by c G g rows xs
      → (a : A) → In a xs ↔ (Holds Same es a × (G.group a ≡ g))
  Listed-Holds order_by c G g xs (all, up) a = (
    λ i.
        let (m, j, at, read) = (all a).0 i in
        let (held, is) = read_Holds m a j read in
        (held, text_injective (sym (G.grouped a) ∙ ap (λ w. w c) (sym is) ∙ at)),
    λ (held, e). (all a).1 (
      kept_row k a,
      (are (kept_row k a)).1 (a, held, refl),
      G.grouped a ∙ ap text e,
      read-kept_row k a,
    ),
  )

  Answer-Finds :
      (c : Text) (primary : k.table.primary ≡ c ∷ []) (q : Select) (columns : q.columns ≡ k.columns)
      (id : Text) (x : Option A) (id_of : A → Text)
      → ((a : A) → kept_row k a c ≡ text (id_of a))
      → Answer k c primary q columns id rows x
      → Finds Same es id_of id x
  Answer-Finds c primary q columns id x id_of names (inl (n, lacks)) = inl (
    n,
    λ a held e. lacks (kept_row k a) ((are (kept_row k a)).1 (a, held, refl)) (names a ∙ ap text e),
  )
  Answer-Finds c primary q columns id x id_of names (inr (m, a, i, at, unique, e, read)) =
      let (held, is) = read_Holds m a i read in
      inr (a, e, held, text_injective (sym (names a) ∙ ap (λ w. w c) (sym is) ∙ at))

module _ (E : Engine) (law : IsSqlite E) (os : List Operation) (s : E.State)
    (idle : law.pending s ≡ false) (old : int_ltb (law.view s).version (pos 1) ≡ true)
    (done : (migrate E s).0 ≡ ok tt) where
  abbrev pub ran : Done × E.State
  ran = run_all E os (nothing, (migrate E s).1)

  -- On a database that `migrate` has built, and behind any sequence of insertions into its tables,
  -- each of which succeeds or fails, a listing that `list_roster` gives has exactly those entries
  -- of the key that were inserted with success and not replaced by a later one of the same key and
  -- identifier, in the strict order of their identifiers; where the database does what it
  -- documents.
  pub list_roster-run_all :
      (key_id : Text) (xs : List RosterEntry)
      → list_roster E key_id ran.1 ≡ ok xs
      → ((a : RosterEntry) → In a xs ↔ (Holds SameSeat ran.0.rosters a × (a.key_id ≡ key_id)))
        × Pairwise (Before text_order (λ a. a.identifier)) xs
  unfolding list_roster grouped_roster
  list_roster-run_all key_id xs h =
      let (rows, there, are) = (migrated-Stands E law os s idle old done).rosters in
      let all =
        gives kept_roster (codes "identifier" ∷ []) (codes "key_id") grouped_roster key_id
          (select_roster key_id) E law refl refl refl refl ran.1 rows xs there h in
      (
        Listed-Holds kept_roster SameSeat ran.0.rosters rows are (codes "identifier" ∷ [])
            (codes "key_id") grouped_roster key_id xs all,
        all.1,
      )

  -- On a database that `migrate` has built, and behind any sequence of insertions into its tables,
  -- each of which succeeds or fails, a listing that `list_churn` gives has exactly those entries of
  -- the key that were inserted with success and not replaced by a later one of the same key,
  -- identifier and epoch, in the strict order of their epochs and identifiers; where the database
  -- does what it documents.
  pub list_churn-run_all :
      (key_id : Text) (xs : List ChurnEntry)
      → list_churn E key_id ran.1 ≡ ok xs
      → ((a : ChurnEntry) → In a xs ↔ (Holds SameLeaving ran.0.churns a × (a.key_id ≡ key_id)))
        × Pairwise (Before epoch_order (λ a. (a.left_epoch, a.identifier))) xs
  unfolding list_churn grouped_churn
  list_churn-run_all key_id xs h =
      let order = codes "left_epoch" ∷ codes "identifier" ∷ [] in
      let (rows, there, are) = (migrated-Stands E law os s idle old done).churns in
      let all =
        gives kept_churn order (codes "key_id") grouped_churn key_id (select_churn key_id) E law
          refl refl refl refl ran.1 rows xs there h in
      (
        Listed-Holds kept_churn SameLeaving ran.0.churns rows are order (codes "key_id")
            grouped_churn key_id xs all,
        all.1,
      )

  -- On a database that `migrate` has built, and behind any sequence of insertions into its tables,
  -- each of which succeeds or fails, what `get_ceremony` gives is the last transcript of the id
  -- that was inserted with success, or none if there is none; where the database does what it
  -- documents.
  pub get_ceremony-run_all :
      (id : Text) (x : Option CeremonyTranscript)
      → get_ceremony E id ran.1 ≡ ok x
      → Finds SameCeremony ran.0.ceremonies (λ t. t.ceremony_id) id x
  unfolding get_ceremony
  get_ceremony-run_all id x h =
      let (rows, there, are) = (migrated-Stands E law os s idle old done).ceremonies in
      Answer-Finds kept_ceremony SameCeremony ran.0.ceremonies rows are (codes "ceremony_id") refl
        (select_ceremony id) refl id x (λ t. t.ceremony_id) ceremony_id-kept_row
        (fetched kept_ceremony (codes "ceremony_id") refl (select_ceremony id) refl id E law ran.1
          rows x refl refl there h)

  -- On a database that `migrate` has built, and behind any sequence of insertions into its tables,
  -- each of which succeeds or fails, what `get_session` gives is the last log of the id that was
  -- inserted with success, or none if there is none; where the database does what it documents.
  pub get_session-run_all :
      (id : Text) (x : Option SessionLog)
      → get_session E id ran.1 ≡ ok x
      → Finds SameSession ran.0.sessions (λ log. log.session_id) id x
  unfolding get_session
  get_session-run_all id x h =
      let (rows, there, are) = (migrated-Stands E law os s idle old done).sessions in
      Answer-Finds kept_session SameSession ran.0.sessions rows are (codes "session_id") refl
        (select_session id) refl id x (λ log. log.session_id) session_id-kept_row
        (fetched kept_session (codes "session_id") refl (select_session id) refl id E law ran.1 rows
          x refl refl there h)
