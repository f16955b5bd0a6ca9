-- ===== src/Cli/Dispatch.antt =====
-- src/cli/mod.rs: the personas and their commands, and the dispatch of a parsed command.
use cheget.Base.{◌≡◌, inl, inr, refl, Option, List, Text, Result, ok, err, Result-cases, arith}
use cheget.Base.Effects.{M}
use cheget.Crypto.Frost.{Frost}
use cheget.Crypto.Signing.{Signing}
use cheget.Chain.{Transaction, Bitcoin}
use cheget.Store.Errors.{StoreError}
use cheget.Store.Disk.{FilePath, Disk}
use cheget.Store.Vault.{Vault}
use cheget.Store.Participant.{load_manifest}
use cheget.Store.Participant.Laws.{load_manifest-state}
use cheget.Coordinator.Sql.{SqlError, Engine}
use cheget.Cli.{resolve_root}
use cheget.Cli.Address.{Network, EnvelopeError}
use cheget.Cli.Address.File.{address_from_pubkey_file}
use cheget.Cli.System.{Machine, System}
use cheget.Cli.Keygen.{KeygenArgs, CliError}
use cheget.Cli.Keygen.Run.{run_keygen}
use cheget.Cli.Sign.Run.{SignArgs, RunError, run_sign}
use cheget.Cli.Sign.Delivered.{run_sign-disk}
use cheget.Cli.Status.{store_at, run_share_status, run_roster}

pub data ParticipantCmd : Type 0 where
  keygen : KeygenArgs → ParticipantCmd
  sign : SignArgs → ParticipantCmd
  share_status : (home : Option FilePath) → ParticipantCmd

pub data CoordinatorCmd : Type 0 where
  keygen : KeygenArgs → CoordinatorCmd
  sign : SignArgs → CoordinatorCmd
  roster : (home : Option FilePath) → (key_id : Text) → CoordinatorCmd

pub data WatcherCmd : Type 0 where
  address : (pubkey : FilePath) → Network → WatcherCmd

pub data Persona : Type 0 where
  participant : ParticipantCmd → Persona
  coordinator : CoordinatorCmd → Persona
  watcher : WatcherCmd → Persona

-- What a command prints, and how it fails.
pub data Output (Address : Type 0) : Type 0 where
  finished : Output Address
  signed : Transaction → Output Address
  lines : List Text → Output Address
  group_address : Address → Output Address

pub data Failure (F : Frost) : Type 0 where
  of_keygen : CliError F → Failure F
  of_sign : RunError F → Failure F
  of_store : StoreError → Failure F
  of_envelope : EnvelopeError → Failure F

-- A handler's result as that of the program.
abbrev pub routed : {W E E' A A' : Type 0} → (E → E') → (A → A') → M W E A → M W E' A'
routed bad good m w = let r = m w in (elim r.0 [ ok a ↦ ok (good a) | err e ↦ err (bad e) ], r.1)

module _ (F : Frost) (S : Signing F) (B : Bitcoin) (D : Disk) (V : Vault) (Terminal : Type 0)
    (sys : System F S B D V Terminal) (E : Engine)
    (connect : FilePath → D.State → Result SqlError E.State × D.State) where
  abbrev pub Act : Type 0
  Act = M (Machine F D Terminal) (Failure F) (Output sys.Address)

  unfoldable pub keygen_command : KeygenArgs → Act
  keygen_command args = routed of_keygen (λ u. finished) (run_keygen F S B D V Terminal sys args)

  unfoldable pub sign_command : SignArgs → Act
  sign_command args = routed of_sign signed (run_sign F S B D V Terminal sys args)

  unfoldable pub run_participant : ParticipantCmd → Act
  run_participant (keygen args) = keygen_command args
  run_participant (sign args) = sign_command args
  run_participant (share_status home) =
      routed of_store lines (run_share_status F S B D V Terminal sys home)

  unfoldable pub run_coordinator : CoordinatorCmd → Act
  run_coordinator (keygen args) = keygen_command args
  run_coordinator (sign args) = sign_command args
  run_coordinator (roster home key_id) =
      routed of_store lines (run_roster F S B D V Terminal sys E connect home key_id)

  unfoldable pub run_watcher : WatcherCmd → Act
  run_watcher (address pubkey network) w = (
    elim (address_from_pubkey_file F S D sys.formats sys.p2tr pubkey network w.disk) [
      | ok a ↦ ok (group_address a)
      | err e ↦ err (of_envelope e)
    ],
    w,
  )

  -- `Cli::run`
  unfoldable pub dispatch : Persona → Act
  dispatch (participant cmd) = run_participant cmd
  dispatch (coordinator cmd) = run_coordinator cmd
  dispatch (watcher cmd) = run_watcher cmd

  -- The commands that may write: the key generation, and the roster, which opens its database.
  abbrev pub Reads : Persona → Type 0
  Reads (participant (keygen args)) = ⊥
  Reads (participant (sign args)) = Unit
  Reads (participant (share_status home)) = Unit
  Reads (coordinator (keygen args)) = ⊥
  Reads (coordinator (sign args)) = Unit
  Reads (coordinator (roster home key_id)) = ⊥
  Reads (watcher cmd) = Unit

  share_status-disk :
      (home : Option FilePath) (w : Machine F D Terminal)
      → (run_share_status F S B D V Terminal sys home w).1.disk ≡ w.disk
  unfolding run_share_status
  share_status-disk home w =
      elim (Result-cases (resolve_root sys.to_path sys.home_var sys.home_dir home)) [
        | inr (e, p) ↦ ground arith
        | inl (root, p) ↦
            let store = store_at F S B D V Terminal sys root in
            let same = load_manifest-state sys.bytes D V sys.formats store w.disk in
            elim (Result-cases (load_manifest sys.bytes D V sys.formats store w.disk).0) [
              | inr (e, q) ↦ ground arith
              | inl (index, q) ↦ ground arith
            ]
      ]

  -- Of all commands, only the key generation and the roster, which opens its database, can change
  -- the disk: every other one leaves it as it is, whether it succeeds or fails.
  pub dispatch-disk :
      (persona : Persona) (w : Machine F D Terminal)
      → Reads persona
      → (dispatch persona w).1.disk ≡ w.disk
  unfolding dispatch run_participant run_coordinator run_watcher sign_command
  dispatch-disk (participant (keygen args)) w r = absurd r
  dispatch-disk (participant (sign args)) w r = run_sign-disk F S B D V Terminal sys args w
  dispatch-disk (participant (share_status home)) w r = share_status-disk home w
  dispatch-disk (coordinator (keygen args)) w r = absurd r
  dispatch-disk (coordinator (sign args)) w r = run_sign-disk F S B D V Terminal sys args w
  dispatch-disk (coordinator (roster home key_id)) w r = absurd r
  dispatch-disk (watcher (address pubkey network)) w r = refl
