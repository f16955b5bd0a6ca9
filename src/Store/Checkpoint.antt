-- ===== src/Store/Checkpoint.antt =====
-- src/store/checkpoint.rs: the encrypted checkpoints between the rounds of a key generation. The two
-- secret packages of frost are types with a codec.
pub mod RoundTrip
pub mod Apart
use cheget.Base.{
  ℕ, ◌≡◌, Option, none, some, List, [], ◌∷◌, ◌++◌, Text, codes, Result, ok, err, ok_or, map_err,
  if◌then◌else◌,
}
use cheget.Base.Effects.{M, pure, lift, ◌>>=◌, ◌>>◌}
use cheget.Base.Names.{is_safe_name}
use cheget.Base.Decimal.{decimal}
use cheget.Store.Errors.{IoKind, not_found, invalid_input, StoreError, io, serialize, frost}
use cheget.Store.Disk.{FilePath, parent, Disk, io_call}
use cheget.Store.Atomic.{create_dir_secure, write_atomic}
use cheget.Store.Vault.{Vault, encrypt_secret, decrypt_secret}
use cheget.Store.Manifest.{seat_hex}

abbrev pub CeremonyId : Type 0
CeremonyId = Text

unfoldable pub new_ceremony : Text → Result StoreError CeremonyId
new_ceremony id = if is_safe_name id then ok id else err (io invalid_input)

abbrev pub ceremonies_dir : Text
ceremonies_dir = codes "ceremonies"

-- `serialize` and `deserialize` of a secret package.
pub record Codec (A : Type 0) : Type 0 where
  pub to : A → Option (List ℕ)
  pub from : List ℕ → Option A

-- What was serialized is read back.
abbrev pub ReadsBack : {A : Type 0} → Codec A → Type 0
ReadsBack {A} c = (a : A) (bytes : List ℕ) → c.to a ≡ some bytes → c.from bytes ≡ some a

unfoldable pub parent_of : FilePath → Result StoreError FilePath
parent_of path = ok_or (parent path) (io invalid_input)

pub record CheckpointStore (V : Vault) : Type 0 where
  pub root : FilePath
  pub vault_salt : V.Salt
  pub suffix : Text

module _ {SeatId : Type 0} (bytes : SeatId → List ℕ) (D : Disk) (V : Vault) where
  -- `<root>/ceremonies/<cid>`
  unfoldable pub ceremony_dir : CheckpointStore V → CeremonyId → FilePath
  ceremony_dir c cid = c.root ++ ceremonies_dir ∷ cid ∷ []

  -- `round-{round}.age`
  unfoldable pub round_name : ℕ → Text
  round_name round = codes "round-" ++ decimal round ++ codes ".age"

  unfoldable pub round_path : CheckpointStore V → CeremonyId → SeatId → ℕ → FilePath
  unfolding ceremony_dir round_name
  round_path c cid seat round = ceremony_dir c cid ++ seat_hex bytes seat ∷ round_name round ∷ []

  unfoldable pub put_round :
      CheckpointStore V → CeremonyId → SeatId → ℕ → List ℕ → M D.State StoreError (Unit {0})
  put_round c cid seat round plaintext = do
    passphrase ← lift V.passphrase
    ciphertext ← lift (encrypt_secret V passphrase c.vault_salt plaintext)
    let path = round_path c cid seat round
    dir ← lift (parent_of path)
    create_dir_secure D dir
    write_atomic D c.suffix path ciphertext

  unfoldable pub load_round :
      CheckpointStore V → CeremonyId → SeatId → ℕ → M D.State StoreError (List ℕ)
  load_round c cid seat round = do
    passphrase ← lift V.passphrase
    ciphertext ← λ s. (map_err io (D.read (round_path c cid seat round) s), s)
    lift (decrypt_secret V passphrase ciphertext)

  -- `put_round1` and `put_round2`, `load_round1` and `load_round2`, by the round's codec.
  module _ {Package1 Package2 : Type 0} (codec1 : Codec Package1) (codec2 : Codec Package2) where
    unfoldable pub put_round1 :
        CheckpointStore V → CeremonyId → SeatId → Package1 → M D.State StoreError (Unit {0})
    put_round1 c cid seat pkg = do
      plaintext ← lift (ok_or (codec1.to pkg) serialize)
      put_round c cid seat 1 plaintext

    unfoldable pub load_round1 :
        CheckpointStore V → CeremonyId → SeatId → M D.State StoreError Package1
    load_round1 c cid seat = do
      plaintext ← load_round c cid seat 1
      lift (ok_or (codec1.from plaintext) frost)

    unfoldable pub put_round2 :
        CheckpointStore V → CeremonyId → SeatId → Package2 → M D.State StoreError (Unit {0})
    put_round2 c cid seat pkg = do
      plaintext ← lift (ok_or (codec2.to pkg) serialize)
      put_round c cid seat 2 plaintext

    unfoldable pub load_round2 :
        CheckpointStore V → CeremonyId → SeatId → M D.State StoreError Package2
    load_round2 c cid seat = do
      plaintext ← load_round c cid seat 2
      lift (ok_or (codec2.from plaintext) frost)

  -- An absent directory is no error.
  unfoldable pub wipe : CheckpointStore V → CeremonyId → M D.State StoreError (Unit {0})
  wipe c cid s =
      let gone = D.remove_dirs (ceremony_dir c cid) s in
      elim gone.0 [
        | ok _ ↦ (ok tt, gone.1)
        | err not_found ↦ (ok tt, gone.1)
        | err e ↦ (err (io e), gone.1)
      ]
