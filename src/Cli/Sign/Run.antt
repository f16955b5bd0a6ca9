-- ===== src/Cli/Sign/Run.antt =====
-- src/cli/sign.rs: the handler `run` of the command `sign`. What it prints of a success is the
-- transaction; the file system, the terminal and the generator of random numbers are its state.
-- rust-bitcoin's reader of a PSBT and its networks are parameters, and so is std's `trim`.
use cheget.Base.{
  ℕ, ◌==◌, ◌||◌, ltb, eqb, text_dec, Option, none, some, List, [], Bool, true, false, not, Text,
  codes, Result, ok, err, map_err, ok_or, unwrap_or, if◌then◌else◌,
}
use cheget.Base
use cheget.Base.OrdMap.{Map}
use cheget.Base.Effects.{M, lift, ◌>>=◌}
use cheget.Crypto.Frost.{Frost}
use cheget.Crypto.Signing.{Signing, BridgeError, address_from_group_key}
use cheget.Chain.{Transaction, Psbt, Bitcoin}
use cheget.Transport.Trait.{in_memory}
use cheget.Transport.InMemory
use cheget.Session.Core.{SessionError, Session, new, preview}
use cheget.Session.Rounds
use cheget.Store.Errors.{IoKind, StoreError}
use cheget.Store.Disk.{FilePath, Disk}
use cheget.Store.Vault.{Vault}
use cheget.Cli.System.{Machine, System, draws_for}
use cheget.Cli.{resolve_root, acquire_store_passphrase}
use cheget.Cli.Address.{Network, bitcoin, testnet, signet, regtest, known_hrp}
use cheget.Cli.Keygen.{CliError, resolved, run_inprocess_dkg}
use cheget.Cli.Sign.{SignError, load_persisted_shares}

-- The arguments that the handler reads.
pub record SignArgs : Type 0 where
  pub session : Option Text
  pub psbt : Option FilePath
  pub seats : Option ℕ
  pub threshold : Option ℕ
  pub full : Bool
  pub network : Network
  pub is_persist : Bool
  pub base : Option FilePath
  pub yes_flag : Bool

unfoldable pub sign_tn : SignArgs → ℕ × ℕ
sign_tn args = (
  unwrap_or args.threshold (if args.full then 51 else 3),
  unwrap_or args.seats (if args.full then 100 else 5),
)

pub data RunError (F : Frost) : Type 0 where
  psbt_required bad_psbt invalid_pair not_authorized : RunError F
  unreadable_psbt : IoKind → RunError F
  passphrase : StoreError → RunError F
  shares : SignError → RunError F
  simulated : CliError F → RunError F
  bridge : BridgeError → RunError F
  session : SessionError F → RunError F

-- The words that authorize a spend.
unfoldable pub is_ack : Text → Bool
is_ack line =
    eqb text_dec line (codes "yes")
    || eqb text_dec line (codes "y")
    || eqb text_dec line (codes "YES")
    || eqb text_dec line (codes "Y")

module _ (F : Frost) (S : Signing F) (B : Bitcoin) (D : Disk) (V : Vault) (Terminal : Type 0)
    (sys : System F S B D V Terminal) where
  abbrev pub Act : Type 0 → Type 0
  Act A = M (Machine F D Terminal) (RunError F) A

  abbrev pub Keys : Type 0
  Keys = Map F.Identifier F.KeyPackage × F.PublicKeyPackage

  unfoldable pub bitcoin_network : Network → B.Network
  bitcoin_network bitcoin = sys.bitcoin_net
  bitcoin_network testnet = sys.testnet_net
  bitcoin_network signet = sys.signet_net
  bitcoin_network regtest = sys.regtest_net

  unfoldable pub read_psbt : FilePath → Act Psbt
  read_psbt path = do
    raw ← λ w. (map_err unreadable_psbt (D.read path w.disk), w)
    lift (ok_or (sys.psbt_from raw) bad_psbt)

  unfoldable pub check_pair : SignArgs → Result (RunError F) (ℕ × ℕ)
  check_pair args =
      let (t, n) = sign_tn args in
      if t == 0 || n == 0 || ltb n t then err invalid_pair else ok (t, n)

  -- Shares from the store: the passphrase is asked for once.
  unfoldable pub stored_keys : SignArgs → ℕ → Act Keys
  stored_keys args t = do
    base ← lift (map_err passphrase (resolve_root sys.to_path sys.home_var sys.home_dir args.base))
    secret ← λ w.
        let asked = acquire_store_passphrase sys.prompt_password false w.terminal in
        (map_err passphrase asked.0, record w { terminal = asked.1 })
    λ w.
        let loaded =
          load_persisted_shares F sys.bytes sys.from_bytes D (resolved V (sys.to_secret secret))
            sys.formats (draws_for V (sys.to_secret secret) (sys.draws 0)) sys.read_dir base t
            w.disk in
        (map_err shares loaded.0, record w { disk = loaded.1 })

  unfoldable pub simulated_keys : ℕ → ℕ → Act Keys
  simulated_keys t n w =
      let made =
        run_inprocess_dkg F sys.bytes D V sys.formats sys.draws sys.split2 sys.split3 t n w.rng in
      (map_err simulated made.0, record w { rng = made.1 })

  unfoldable pub keys_of : SignArgs → ℕ → ℕ → Act Keys
  keys_of args t n = if args.is_persist then stored_keys args t else simulated_keys t n

  unfoldable pub group_address : SignArgs → F.PublicKeyPackage → Result (RunError F) sys.Address
  group_address args group =
      map_err bridge
        (address_from_group_key F S sys.p2tr (F.group_vk group) (known_hrp args.network))

  unfoldable pub session_of : SignArgs → Keys → Psbt → ℕ → Session F B
  session_of args keys psbt t =
      new F B (unwrap_or args.session (codes "cli-session")) keys.0 keys.1 psbt t
        (bitcoin_network args.network)

  -- The address must exist, and so must the preview.
  unfoldable pub checked_session : SignArgs → Keys → Psbt → ℕ → Result (RunError F) (Session F B)
  checked_session args keys psbt t =
      let s = session_of args keys psbt t in
      Base.◌>>=◌ (group_address args keys.1)
        λ _. Base.◌>>=◌ (map_err session (preview F B s)) λ _. ok s

  unfoldable pub prompt_ack : Terminal → Bool × Terminal
  prompt_ack terminal =
      let line = sys.read_line terminal in
      (elim line.0 [ ok text ↦ is_ack (sys.trim text) | err _ ↦ false ], line.1)

  unfoldable pub authorize : SignArgs → Act (Unit {0})
  authorize args w = elim args.yes_flag [
    | true ↦ (ok tt, w)
    | false ↦
        let asked = prompt_ack w.terminal in
        (if asked.0 then ok tt else err not_authorized, record w { terminal = asked.1 })
  ]

  -- The session over a board of its own.
  unfoldable pub sign_session : Session F B → Act Transaction
  unfolding in_memory InMemory.new
  sign_session s w =
      let (s', result, left) =
        Rounds.run F S in_memory B s true (record { board = InMemory.new; rng = w.rng }) in
      (map_err session result, record w { rng = left.rng })

  -- `run` up to the preview: the session that it sets up.
  unfoldable pub begin_session : SignArgs → Act (Session F B)
  begin_session args = do
    path ← lift (ok_or args.psbt psbt_required)
    psbt ← read_psbt path
    pair ← lift (check_pair args)
    keys ← keys_of args pair.0 pair.1
    lift (checked_session args keys psbt pair.0)

  unfoldable pub run_sign : SignArgs → Act Transaction
  run_sign args = begin_session args >>= λ s. authorize args >>= λ _. sign_session s
