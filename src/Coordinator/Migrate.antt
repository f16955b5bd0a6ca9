-- ===== src/Coordinator/Migrate.antt =====
-- What `migrate` leaves: nothing has changed, or the whole schema of version 1 is there.
pub mod Batch
use cheget.Base.{
  ◌≡◌, ◌≢◌, ◌↔◌, ◌⊎◌, inl, inr, refl, sym, ap, ◌∙◌, some, List, [], ◌∷◌, ◌++◌, Bool, true, false,
  not, every, Text, text_dec, ℕ_discrete, codes, Result, ok, err, Result-cases, Bool-cases, In, eqb,
  arith,
}
use mathlib.Core.Path.{subst}
use cheget.Base.Effects.{◌>>◌, run_ok}
use cheget.Base.{Option}
use cheget.Base.Int.{ℤ, pos, int_ltb}
use cheget.Coordinator.Sql.{SqlError, Row, Table, Insert, Statement, create_table, insert, Engine}
use cheget.Coordinator.Schema.{
  roster_table, ceremony_table, session_table, policy_table, policy_seed, churn_table, schema_v1,
  schema_version,
}
use cheget.Coordinator.Sqlite.{one_by_one, Db, touches, new_row, IsSqlite}
use cheget.Store.Errors.{sqlite}
use cheget.Coordinator.Store.{upgrade, in_transaction, migrate}
use cheget.Coordinator.Migrate.Batch.{IsFresh, HasTables, batch-HasTables, batch_pending}

module _ (E : Engine) (law : IsSqlite E) where
  abbrev Upgraded : E.State → Result SqlError (Unit {0}) × E.State → Type 0
  Upgraded s out =
      ((out.0 ≡ ok tt) × IsFresh (law.durable out.1))
      ⊎ ((e : SqlError) × (out.0 ≡ err e) × (law.durable out.1 ≡ law.durable s))

  commits :
      (s s0 : E.State)
      → law.durable s ≡ law.durable s0
      → IsFresh (law.view s)
      → Upgraded s0 (E.commit s)
  commits s s0 d fresh = elim (Result-cases (E.commit s).0) [
    | inl (u, t) ↦ inl (t, rw (law.committed s t) fresh)
    | inr (e, t) ↦ inr (e, t, law.commit_failed s e t ∙ d)
  ]

  upgrades : (s : E.State) → law.pending s ≡ true → Upgraded s (upgrade E s)
  unfolding upgrade
  upgrades s h =
      let batched = E.execute_batch schema_v1 s in
      let set = E.set_user_version schema_version batched.1 in
      let is : one_by_one E schema_v1 s ≡ batched = sym (law.batched schema_v1 s) in
      let (same, stays) =
        subst (λ b. (law.durable b.1 ≡ law.durable s) × (b.0 ≡ ok tt → law.pending b.1 ≡ true)) is
          (batch_pending E law schema_v1 s h) in
      elim (Result-cases batched.0) [
        | inr (e, t) ↦ inr (e, ground arith, ground arith)
        | inl (u, t) ↦
            let (same', stays') = law.version_pending schema_version batched.1 (stays t) in
            elim (Result-cases set.0) [
              | inr (e, r) ↦ inr (e, ground arith, ground arith)
              | inl (v, r) ↦
                  let (v1, tables) = law.version_set schema_version batched.1 r in
                  let all = subst HasTables (sym tables) (
                    subst (λ b. HasTables (law.view b.1).tables) is
                      (batch-HasTables E law s (ap (λ b. b.0) is ∙ t))) in
                  subst (Upgraded s)
                    (sym (
                      ground (
                        arith,
                        run_ok (E.execute_batch schema_v1)
                            (λ u. ◌>>◌ (E.set_user_version schema_version) E.commit) s tt t,
                        run_ok (E.set_user_version schema_version) (λ u. E.commit) batched.1 tt r,
                      )))
                    (commits set.1 s (same' ∙ same) (v1, all))
            ]
      ]

  -- What a transaction of the upgrade leaves behind, its drop included.
  transacted :
      (s : E.State)
      → law.pending s ≡ false
      → let out = in_transaction E (upgrade E) s in
        ((out.0 ≡ ok tt) × IsFresh (law.durable out.1) × (law.view out.1 ≡ law.durable out.1))
        ⊎ ((e : SqlError) × (out.0 ≡ err e)
            × (law.durable out.1 ≡ law.durable s)
            × (law.view out.1 ≡ law.view s))
  unfolding in_transaction
  transacted s h =
      let begun = E.begin s in
      let (same, seen, opened) = law.begun s in
      let done = upgrade E begun.1 in
      let (kept, back, closed) = law.dropped done.1 in
      elim (Result-cases begun.0) [
        | inr (e, t) ↦ inr (e, ground arith, ground arith, ground arith)
        | inl (u, t) ↦ elim (upgrades begun.1 (opened t)) [
          | inl (o, fresh) ↦
              let left : law.durable done.1 ≡ law.durable (in_transaction E (upgrade E) s).1 =
                ground arith in
              inl (ground arith, subst IsFresh left fresh, ground arith)
          | inr (e, o, d) ↦ inr (e, ground arith, ground arith, ground (arith, law.settled s h))
        ]
      ]

  -- A success leaves no transaction open.
  pub migrate_idle :
      (s : E.State)
      → law.pending s ≡ false
      → (migrate E s).0 ≡ ok tt
      → law.pending (migrate E s).1 ≡ false
  unfolding migrate in_transaction
  migrate_idle s h done =
      let (kept, back, closed) = law.dropped (upgrade E (E.begin s).1).1 in
      elim (Result-cases (E.user_version s)) [
        | inr (e, t) ↦ absurd (ground arith)
        | inl (v, t) ↦ elim (Bool-cases (int_ltb v (pos 1))) [
          | inr new ↦ ground arith
          | inl old ↦ elim (Result-cases (E.begin s).0) [
            | inr (e, r) ↦ absurd (ground arith)
            | inl (u, r) ↦ ground arith
          ]
        ]
      ]

  -- `migrate`, on a connection without a transaction to a database that does what it documents: it
  -- fails and neither what is durable nor what the connection reads has changed; or it succeeds,
  -- and a version from 1 on is left as it was, while an older one has become, durably, the database
  -- of version 1 whose tables are empty but for the seed row of the policy.
  pub migrate_lem :
      (s : E.State)
      → law.pending s ≡ false
      → let out = migrate E s in
        ((out.0 ≡ ok tt) × (int_ltb (law.view s).version (pos 1) ≡ false) × (out.1 ≡ s))
        ⊎ ((out.0 ≡ ok tt)
            × (int_ltb (law.view s).version (pos 1) ≡ true)
            × IsFresh (law.durable out.1)
            × (law.view out.1 ≡ law.durable out.1))
        ⊎ ((out.0 ≡ err sqlite)
            × (law.durable out.1 ≡ law.durable s)
            × (law.view out.1 ≡ law.view s))
  unfolding migrate
  migrate_lem s h = elim (Result-cases (E.user_version s)) [
    | inr (e, t) ↦ inr (inr (ground arith))
    | inl (v, t) ↦
        let is = law.version_read s v t in
        elim (Bool-cases (int_ltb v (pos 1))) [
          | inr new ↦ inl (ground arith)
          | inl old ↦ elim (transacted s h) [
            | inl (o, fresh, seen) ↦
                let left : law.durable (in_transaction E (upgrade E) s).1
                    ≡ law.durable (migrate E s).1 =
                  ground arith in
                inr (inl (ground arith, ground arith, subst IsFresh left fresh, ground arith))
            | inr (e, o, d, w) ↦ inr (inr (ground arith))
          ]
        ]
  ]
