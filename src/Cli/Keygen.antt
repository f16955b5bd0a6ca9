-- ===== src/Cli/Keygen.antt =====
-- src/cli/keygen.rs: the threshold and membership, and the key generation whose shares are stored,
-- each below the root of its seat. The Boxed errors are a sum; printing is left out.
pub mod Stored
pub mod Run
pub mod Published
use cheget.Base.{
  ℕ, ◌+◌, ◌==◌, ◌||◌, ltb, Option, none, some, List, [], ◌∷◌, ◌++◌, Bool, true, false, Text, codes,
  Result, ok, err, map_err, unwrap_or, if◌then◌else◌,
}
use cheget.Base.OrdMap.{Map}
use cheget.Base.Decimal.{padded}
use cheget.Base.Effects.{M, pure, lift, ◌>>=◌, ◌>>◌}
use cheget.Crypto.Frost.{Frost}
use cheget.Crypto.Types.{genesis}
use cheget.Crypto.Types
use cheget.Crypto.Keygen.{KeygenError, run_inprocess_dkg_with_rng}
use cheget.Cli.Address.{EnvelopeError}
use cheget.Store.Errors.{IoKind, StoreError}
use cheget.Store.Disk.{FilePath, Disk}
use cheget.Store.Vault.{Vault}
use cheget.Store.Manifest.{active}
use cheget.Store.Participant.{ShareTag, ParticipantStore, Formats, put_share}

-- The arguments that the handler reads.
pub record KeygenArgs : Type 0 where
  pub seats : Option ℕ
  pub threshold : Option ℕ
  pub full : Bool
  pub key_id : Text
  pub out : Option FilePath
  pub is_persist : Bool
  pub base : Option FilePath

unfoldable pub resolve_tn : KeygenArgs → ℕ × ℕ
resolve_tn args = (
  unwrap_or args.threshold (if args.full then 51 else 3),
  unwrap_or args.seats (if args.full then 100 else 5),
)

pub data CliError (F : Frost) : Type 0 where
  invalid_tn nothing_to_do panicked bad_json : CliError F
  keygen : KeygenError F → CliError F
  store : StoreError → CliError F
  envelope : EnvelopeError → CliError F
  unwritable : IoKind → CliError F

-- The first checks of `run`: the pair, if the arguments can be followed.
unfoldable pub check_args : {F : Frost} → KeygenArgs → Result (CliError F) (ℕ × ℕ)
check_args args =
    let (t, n) = resolve_tn args in
    if t == 0 || n == 0 || ltb n t
    then err invalid_tn
    else (if args.is_persist
        then ok (t, n)
        else elim args.out [ none ↦ err nothing_to_do | some _ ↦ ok (t, n) ])

-- `ResolvedPassphrase`: every store of a seat has the secret that was asked for once.
abbrev pub resolved : (V : Vault) → V.Secret → Vault
resolved V secret = record {
  Secret = V.Secret;
  Salt = V.Salt;
  passphrase = ok secret;
  seal = V.seal;
  unseal = V.unseal;
}

-- What the clock and the sources of randomness deliver to the call for one seat.
pub record Draws (V : Vault) : Type 0 where
  pub salt : V.Salt
  pub public_suffix : Text
  pub share_suffix : Text
  pub manifest_suffix : Text
  pub now : ℕ

unfoldable pub seat_root : FilePath → ℕ → FilePath
seat_root base i = base ++ ((codes "seat-" ++ padded i) ∷ [])

abbrev pub active_tag : {SeatId : Type 0} → SeatId → ShareTag SeatId
active_tag seat = record { key_id = Types.active; epoch = genesis; seat = seat }

module _ (F : Frost) (bytes : F.Identifier → List ℕ) (D : Disk) (V : Vault)
    (formats : Formats F.KeyPackage F.PublicKeyPackage) (draws : ℕ → Draws V) where
  open F use {Identifier, Rng, Round1Secret, Round2Secret, KeyPackage, PublicKeyPackage}

  unfoldable pub seat_store :
      (secret : V.Secret) → FilePath → ℕ → ParticipantStore (resolved V secret)
  seat_store secret base i = record {
    root = seat_root base i;
    vault_salt = (draws i).salt;
    public_suffix = (draws i).public_suffix;
    share_suffix = (draws i).share_suffix;
    manifest_suffix = (draws i).manifest_suffix;
    now_unix = (draws i).now;
  }

  -- The loop over the shares, from the `i`-th seat on.
  unfoldable pub put_seats :
      V.Secret
      → FilePath
      → PublicKeyPackage
      → ℕ
      → Map Identifier KeyPackage
      → M D.State StoreError (Unit {0})
  put_seats secret base group i [] = pure tt
  put_seats secret base group i ((seat, key_package) ∷ rest) =
      put_share bytes D (resolved V secret) formats (seat_store secret base i) (active_tag seat)
        key_package group active
      >> put_seats secret base group (i + 1) rest

  -- The key generation in one process, as a step of the program; `none` of it is a panic.
  module _ (split2 : List (Identifier × Round1Secret) → List (List (Identifier × Round1Secret)))
      (split3 : List (Identifier × Round2Secret) → List (List (Identifier × Round2Secret))) where
    abbrev pub Shares : Type 0
    Shares = Map Identifier KeyPackage × PublicKeyPackage

    unfoldable pub run_inprocess_dkg : ℕ → ℕ → Rng → Result (CliError F) Shares × Rng
    run_inprocess_dkg t n rng =
        let out = run_inprocess_dkg_with_rng F split2 split3 t n rng in
        (elim out.0 [ none ↦ err panicked | some r ↦ map_err keygen r ], out.1)

    -- The state is the disk; the generator is the system's, so what becomes of it is dropped.
    unfoldable pub persist_dkg_shares : FilePath → ℕ → ℕ → Rng → M D.State (CliError F) Shares
    persist_dkg_shares base t n rng = do
      (shares, group) ← lift (run_inprocess_dkg t n rng).0
      secret ← lift (map_err store V.passphrase)
      λ s. let put = put_seats secret base group 1 shares s in (map_err store put.0, put.1)
      pure (shares, group)
