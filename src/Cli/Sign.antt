-- ===== src/Cli/Sign.antt =====
-- src/cli/sign.rs: the shares that a signing run loads from the roots of their seats. Reading the
-- directory is a parameter, which gives the names of the entries that can be read.
pub mod Run
pub mod Delivered
use cheget.Base.{
  ℕ, Option, List, [], ◌∷◌, ◌++◌, Bool, true, false, Text, codes, keep, take, length, ltb, Result,
  ok, err, map_err, if◌then◌else◌, ◌==◌,
}
use cheget.Base.OrdMap.{Map, insert}
use cheget.Base.TextOrder.{text_ltb}
use cheget.Base.Effects.{M, pure, lift, ◌>>=◌}
use cheget.Crypto.Frost.{Frost}
use cheget.Crypto.Types.{genesis}
use cheget.Crypto.Types
use cheget.Store.Errors.{IoKind, StoreError}
use cheget.Store.Disk.{FilePath, Disk}
use cheget.Store.Vault.{Vault}
use cheget.Store.Participant.{ParticipantStore, Formats, load_only_active, load_public_envelope}
use cheget.Cli.Address.{EnvelopeError, decode_package}
use cheget.Cli.Keygen.{Draws, resolved}

pub data SignError : Type 0 where
  unreadable_base insufficient_roots panicked : SignError
  store : StoreError → SignError
  envelope : EnvelopeError → SignError

unfoldable pub starts_with : Text → Text → Bool
starts_with [] name = true
starts_with (c ∷ cs) [] = false
starts_with (c ∷ cs) (d ∷ ds) = let rest = starts_with cs ds in if c == d then rest else false

-- `sort` of the names.
unfoldable pub insert_root : Text → List Text → List Text
insert_root x [] = x ∷ []
insert_root x (y ∷ ys) =
    let rest = insert_root x ys in if text_ltb y x then y ∷ rest else x ∷ y ∷ ys

unfoldable pub sort_roots : List Text → List Text
sort_roots [] = []
sort_roots (x ∷ xs) = insert_root x (sort_roots xs)

unfoldable pub seat_roots : List Text → List Text
seat_roots names = sort_roots (keep (starts_with (codes "seat-")) names)

-- The first `t` roots, if there are as many.
unfoldable pub select_roots : ℕ → List Text → Result SignError (List Text)
select_roots t roots = if ltb (length roots) t then err insufficient_roots else ok (take t roots)

module _ (F : Frost) (bytes : F.Identifier → List ℕ) (from_bytes : List ℕ → Option F.Identifier)
    (D : Disk) (V : Vault) (formats : Formats F.KeyPackage F.PublicKeyPackage) (draws : Draws V)
    (read_dir : FilePath → D.State → Result IoKind (List Text)) where
  open F use {Identifier, KeyPackage, PublicKeyPackage}

  -- A store that is only read: what the clock and the randomness deliver does not matter.
  unfoldable pub root_store : (secret : V.Secret) → FilePath → ParticipantStore (resolved V secret)
  root_store secret root = record {
    root = root;
    vault_salt = draws.salt;
    public_suffix = draws.public_suffix;
    share_suffix = draws.share_suffix;
    manifest_suffix = draws.manifest_suffix;
    now_unix = draws.now;
  }

  abbrev pub load_root : V.Secret → FilePath → Text → M D.State StoreError (Identifier × KeyPackage)
  load_root secret base name =
      load_only_active bytes D (resolved V secret) formats from_bytes
        (root_store secret (base ++ (name ∷ [])))

  unfoldable pub load_roots :
      V.Secret
      → FilePath
      → List Text
      → Map Identifier KeyPackage
      → M D.State StoreError (Map Identifier KeyPackage)
  load_roots secret base [] packages = pure packages
  load_roots secret base (name ∷ rest) packages = load_root secret base name >>= λ x.
      load_roots secret base rest (insert ⦃r = F.ranked⦄ x.0 x.1 packages)

  unfoldable pub load_group : V.Secret → FilePath → List Text → M D.State SignError PublicKeyPackage
  load_group secret base [] s = (err panicked, s)
  load_group secret base (name ∷ rest) s =
      let read =
        load_public_envelope bytes D (resolved V secret) formats
          (root_store secret (base ++ (name ∷ []))) Types.active genesis s in
      elim read.0 [
        | err e ↦ (err (store e), read.1)
        | ok e ↦ (
          map_err envelope (decode_package formats.group_format.to formats.group_format.from e),
          read.1,
        )
      ]

  unfoldable pub load_selected :
      FilePath → List Text → M D.State SignError (Map Identifier KeyPackage × PublicKeyPackage)
  load_selected base selected = do
    secret ← lift (map_err store V.passphrase)
    packages ←
        λ s. let read = load_roots secret base selected [] s in (map_err store read.0, read.1)
    group ← load_group secret base selected
    pure (packages, group)

  unfoldable pub load_persisted_shares :
      FilePath → ℕ → M D.State SignError (Map Identifier KeyPackage × PublicKeyPackage)
  load_persisted_shares base t = do
    names ← λ s. (map_err (λ k. unreadable_base) (read_dir base s), s)
    selected ← lift (select_roots t (seat_roots names))
    load_selected base selected
