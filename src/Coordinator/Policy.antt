-- ===== src/Coordinator/Policy.antt =====
-- `policy_config` on a database that `migrate` has built (src/coordinator/mod.rs).
use cheget.Base.{
  ◌≡◌, ◌≢◌, ◌⊎◌, List, codes, inl, inr, refl, ap, ◌∙◌, none, true, false, text_dec, ℕ_discrete, ok,
  err, Result-cases, arith,
}
use cheget.Base.Int.{int_ltb, pos}
use cheget.Coordinator.Sql.{SqlError, query_returned_no_rows, integer, Row, project, Engine}
use cheget.Coordinator.Schema.{policy_table, policy_seed}
use cheget.Coordinator.Sqlite.{new_row, IsSqlite}
use cheget.Coordinator.Rows.{PolicyConfig, policy_columns, policy_row}
use cheget.Coordinator.Store.{select_policy, migrate, policy_config}
use cheget.Coordinator.Replay.{Operation, nothing, run_all}
use cheget.Coordinator.Reachable.{migrated-Stands}
use cheget.Coordinator.Reachable.Intact.{HasPolicy}

-- The knobs of SPEC section 10: no cap, 50 former holders, 24 epochs, 90 days.
abbrev pub spec_defaults : PolicyConfig
spec_defaults = record {
  value_cap = none;
  churn_budget = pos 50;
  max_epochs = pos 24;
  standby_max_age = pos 7776000;
}

seed : Row
seed = new_row policy_table policy_seed

seed_id : seed (codes "id") ≡ integer (pos 1)
unfolding seed text_dec ℕ_discrete
seed_id = refl

reads_seed : policy_row (project policy_columns seed) ≡ ok spec_defaults
unfolding seed policy_row text_dec ℕ_discrete
reads_seed = refl

module _ (E : Engine) (law : IsSqlite E) where
  policy_read :
      (s : E.State)
      → HasPolicy E law (law.view s).tables
      → (policy_config E s ≡ ok spec_defaults)
        ⊎ ((e : SqlError) × (E.query_row select_policy s ≡ err e) × (e ≢ query_returned_no_rows))
  unfolding policy_config seed
  policy_read s (rows, there, one) = elim (Result-cases (E.query_row select_policy s)) [
    | inr (e, t) ↦ inr (
      e,
      t,
      λ missing.
          law.row_missing select_policy s policy_table rows there (t ∙ ap err missing) seed
            ((one seed).1 refl) seed_id,
    )
    | inl (values, t) ↦
        let (m, i, at, is) = law.row_selected select_policy s policy_table rows values there t in
        let read : policy_row values ≡ ok spec_defaults =
          ap policy_row (is ∙ ap (project policy_columns) ((one m).0 i)) ∙ reads_seed in
        inl (ground arith)
  ]

  -- On a database that `migrate` has built, and behind any sequence of insertions, each of which
  -- succeeds or fails, `policy_config` gives no cap, 50 former holders, 24 epochs and 7776000
  -- seconds, unless the query itself fails, with an error that is not the one of a missing row;
  -- where the database does what it documents.
  pub policy_config-run_all :
      (os : List Operation) (s : E.State)
      → law.pending s ≡ false
      → int_ltb (law.view s).version (pos 1) ≡ true
      → (migrate E s).0 ≡ ok tt
      → let u = (run_all E os (nothing, (migrate E s).1)).1 in
        (policy_config E u ≡ ok spec_defaults)
        ⊎ ((e : SqlError) × (E.query_row select_policy u ≡ err e) × (e ≢ query_returned_no_rows))
  policy_config-run_all os s idle old done =
      policy_read _ (migrated-Stands E law os s idle old done).policy
