-- ===== src/Cli/System.antt =====
-- What the handlers of src/cli/ work on, and what they call of the system and of other packages.
use cheget.Base.{ℕ, Option, List, Text, Result}
use cheget.Crypto.Frost.{Frost}
use cheget.Crypto.Signing.{Signing}
use cheget.Chain.{Psbt, Bitcoin}
use cheget.Store.Errors.{IoKind}
use cheget.Store.Disk.{FilePath, Disk}
use cheget.Store.Vault.{Vault}
use cheget.Store.Participant.{Formats}
use cheget.Cli.Address.{KnownHrp}
use cheget.Cli.Keygen.{Draws, resolved}

-- What the handlers work on.
pub record Machine (F : Frost) (D : Disk) (Terminal : Type 0) : Type 0 where
  pub disk : D.State
  pub terminal : Terminal
  pub rng : F.Rng

-- What they call of the system and of other packages.
pub record System (F : Frost) (S : Signing F) (B : Bitcoin) (D : Disk) (V : Vault)
    (Terminal : Type 0) : Type 1 where
  pub psbt_from : List ℕ → Option Psbt
  -- The variants of its `Network`.
  pub bitcoin_net : B.Network
  pub testnet_net : B.Network
  pub signet_net : B.Network
  pub regtest_net : B.Network
  pub Address : Type 0
  pub p2tr : S.XOnly → KnownHrp → Address
  pub to_secret : Text → V.Secret
  pub prompt_password : Text → Terminal → Result IoKind Text × Terminal
  -- `read_line` and `trim`
  pub read_line : Terminal → Result IoKind Text × Terminal
  pub trim : Text → Text
  pub read_dir : FilePath → D.State → Result IoKind (List Text)
  pub to_path : Text → FilePath
  pub home_var : Option Text
  pub home_dir : Option FilePath
  -- One for each store that is opened.
  pub draws : ℕ → Draws V
  pub bytes : F.Identifier → List ℕ
  pub from_bytes : List ℕ → Option F.Identifier
  pub formats : Formats F.KeyPackage F.PublicKeyPackage
  pub split2 : List (F.Identifier × F.Round1Secret) → List (List (F.Identifier × F.Round1Secret))
  pub split3 : List (F.Identifier × F.Round2Secret) → List (List (F.Identifier × F.Round2Secret))

-- The draws of a store that has its passphrase.
abbrev pub draws_for : (V : Vault) (secret : V.Secret) → Draws V → Draws (resolved V secret)
draws_for V secret d = record {
  salt = d.salt;
  public_suffix = d.public_suffix;
  share_suffix = d.share_suffix;
  manifest_suffix = d.manifest_suffix;
  now = d.now;
}
