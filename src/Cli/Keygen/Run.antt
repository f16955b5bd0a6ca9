-- ===== src/Cli/Keygen/Run.antt =====
-- src/cli/keygen.rs: the handler `run` of the command `keygen`, and the public artifact that it writes.
use cheget.Base.{ℕ, none, some, true, Text, ok, err, map_err, ok_or, if◌then◌else◌}
use cheget.Base.Effects.{M, pure, lift, ◌>>=◌}
use cheget.Crypto.Frost.{Frost}
use cheget.Crypto.Signing.{Signing}
use cheget.Chain.{Bitcoin}
use cheget.Store.Disk.{FilePath, Disk}
use cheget.Store.Vault.{Vault}
use cheget.Store.Participant.{Formats}
use cheget.Cli.{resolve_root, acquire_store_passphrase}
use cheget.Cli.Address.{from_package}
use cheget.Cli.System.{Machine, System, draws_for}
use cheget.Cli.Keygen.{
  KeygenArgs, CliError, panicked, bad_json, store, envelope, unwritable, check_args, resolved,
  run_inprocess_dkg, persist_dkg_shares,
}

module _ (F : Frost) (D : Disk) (formats : Formats F.KeyPackage F.PublicKeyPackage) where
  unfoldable pub write_public_envelope :
      Text → F.PublicKeyPackage → FilePath → M D.State (CliError F) (Unit {0})
  write_public_envelope key_id group out = do
    made ← lift (
        map_err envelope
          (from_package formats.group_format.to formats.group_format.from key_id 0 group))
    json ← lift (ok_or (formats.envelope_format.to made) bad_json)
    λ s. let wrote = D.write_file out json s in (map_err unwritable wrote.0, wrote.1)

module _ (F : Frost) (S : Signing F) (B : Bitcoin) (D : Disk) (V : Vault) (Terminal : Type 0)
    (sys : System F S B D V Terminal) where
  abbrev pub Act : Type 0 → Type 0
  Act A = M (Machine F D Terminal) (CliError F) A

  -- `run_inprocess_dkg`, with the generator of the machine.
  unfoldable pub generate_group : ℕ → ℕ → Act F.PublicKeyPackage
  generate_group t n w =
      let made =
        run_inprocess_dkg F sys.bytes D V sys.formats sys.draws sys.split2 sys.split3 t n w.rng in
      (elim made.0 [ err e ↦ err e | ok x ↦ ok x.1 ], record w { rng = made.1 })

  -- The passphrase is asked for twice, and every seat is stored.
  unfoldable pub persist_group : KeygenArgs → ℕ → ℕ → Act F.PublicKeyPackage
  persist_group args t n = do
    root ← lift (map_err store (resolve_root sys.to_path sys.home_var sys.home_dir args.base))
    secret ← λ w.
        let asked = acquire_store_passphrase sys.prompt_password true w.terminal in
        (map_err store asked.0, record w { terminal = asked.1 })
    λ w.
        let W = resolved V (sys.to_secret secret) in
        let put =
          persist_dkg_shares F sys.bytes D W sys.formats
            (λ i. draws_for V (sys.to_secret secret) (sys.draws i)) sys.split2 sys.split3 root t n
            w.rng w.disk in
        let rng =
          (run_inprocess_dkg F sys.bytes D V sys.formats sys.draws sys.split2 sys.split3 t n
            w.rng).1 in
        (elim put.0 [ err e ↦ err e | ok x ↦ ok x.1 ], record w { disk = put.1; rng = rng })

  unfoldable pub make_group : KeygenArgs → ℕ → ℕ → Act F.PublicKeyPackage
  make_group args t n = if args.is_persist then persist_group args t n else generate_group t n

  unfoldable pub publish_group : KeygenArgs → F.PublicKeyPackage → FilePath → Act (Unit {0})
  publish_group args group out w =
      let wrote = write_public_envelope F D sys.formats args.key_id group out w.disk in
      (wrote.0, record w { disk = wrote.1 })

  -- Without `persist` there is an `out`: its absence would be a panic.
  unfoldable pub publish_if : KeygenArgs → F.PublicKeyPackage → Act (Unit {0})
  publish_if args group = elim args.out [
    | some out ↦ publish_group args group out
    | none ↦ if args.is_persist then pure tt else lift (err panicked)
  ]

  unfoldable pub run_keygen : KeygenArgs → Act (Unit {0})
  run_keygen args = do
    pair ← lift (check_args args)
    group ← make_group args pair.0 pair.1
    publish_if args group
