-- ===== src/Store/Participant.antt =====
-- src/store/participant.rs: the shares of a participant, encrypted, with a plaintext index that is
-- written last, and the public artifact of the group.
pub mod Laws
pub mod IndexLast
pub mod Frame
pub mod Active
pub mod Public
use cheget.Base.{
  ℕ, ◌+◌, ◌%◌, Option, none, some, List, [], ◌∷◌, ◌++◌, Text, codes, length, find, Bool, true,
  false, not, ◌==◌, if◌then◌else◌, Result, ok, err, ok_or, map_err,
}
use cheget.Base
use cheget.Base.Hex.{decode_chunks}
use cheget.Base.Decimal.{decimal}
use cheget.Base.Effects.{M, pure, lift, ◌>>=◌, ◌>>◌}
use cheget.Crypto.Types
use cheget.Cli.Address.{
  PubkeyEnvelope, EnvelopeError, hex, package_error, serialize_error, bridge, json_error, crash,
  io_error, from_package,
}
use cheget.Store.Errors.{
  IoKind, not_found, invalid_input, already_exists, other, StoreError, io, serialize, frost, json,
  manifest,
}
use cheget.Store.Disk.{FilePath, Disk}
use cheget.Store.Atomic.{create_dir_secure, write_atomic}
use cheget.Store.Vault.{Vault, encrypt_secret, decrypt_secret}
use cheget.Store.Checkpoint.{Codec, parent_of}
use cheget.Store.Manifest.{
  Manifest, ShareState, ShareEntry, active, standby, retired, new, seat_hex, new_entry, add_entry,
  to_json_bytes, from_json_bytes,
}

pub record ShareTag (SeatId : Type 0) : Type 0 where
  pub key_id : Text
  pub epoch : ℕ
  pub seat : SeatId

-- The store, and what the clock and the sources of randomness deliver to a call: the salt of the
-- encryption, the suffix of each temporary file, the time.
pub record ParticipantStore (V : Vault) : Type 0 where
  pub root : FilePath
  pub vault_salt : V.Salt
  pub public_suffix : Text
  pub share_suffix : Text
  pub manifest_suffix : Text
  pub now_unix : ℕ

-- The formats of the stored values.
pub record Formats (KeyPackage Group : Type 0) : Type 0 where
  pub share_format : Codec KeyPackage
  pub group_format : Codec Group
  pub envelope_format : Codec PubkeyEnvelope
  pub manifest_format : Codec Manifest

unfoldable pub map_envelope_err : EnvelopeError → StoreError
map_envelope_err serialize_error = serialize
map_envelope_err package_error = frost
map_envelope_err json_error = json
map_envelope_err (io_error k) = io k
map_envelope_err hex = manifest
map_envelope_err bridge = manifest
map_envelope_err crash = manifest

-- `Identifier::deserialize` is the argument `from_bytes`.
unfoldable pub seat_from_hex :
    {SeatId : Type 0} → (List ℕ → Option SeatId) → Text → Result StoreError SeatId
seat_from_hex from_bytes text =
    if not (length text % 2 == 0)
    then err manifest
    else Base.◌>>=◌ (ok_or (decode_chunks text) manifest) λ bytes. ok_or (from_bytes bytes) frost

unfoldable pub is_active : ShareState → Bool
is_active active = true
is_active standby = false
is_active retired = false

module _ {SeatId KeyPackage Group : Type 0} (bytes : SeatId → List ℕ) (D : Disk) (V : Vault)
    (formats : Formats KeyPackage Group) where
  unfoldable pub manifest_path : ParticipantStore V → FilePath
  manifest_path p = p.root ++ codes "manifest.json" ∷ []

  unfoldable pub share_path : ParticipantStore V → ShareTag SeatId → FilePath
  share_path p tag =
      p.root
      ++ codes "shares"
        ∷ tag.key_id
        ∷ (codes "epoch-" ++ decimal tag.epoch)
        ∷ (codes "seat-" ++ seat_hex bytes tag.seat ++ codes ".age")
        ∷ []

  unfoldable pub public_path : ParticipantStore V → Text → ℕ → FilePath
  public_path p key_id epoch =
      p.root ++ codes "pubkey" ∷ key_id ∷ (codes "epoch-" ++ decimal epoch ++ codes ".json") ∷ []

  -- `load_manifest`, and `read_manifest` of the same root.
  unfoldable pub load_manifest : ParticipantStore V → M D.State StoreError Manifest
  load_manifest p s = elim (D.read (manifest_path p) s) [
    | ok content ↦
        (from_json_bytes formats.manifest_format.to formats.manifest_format.from content, s)
    | err not_found ↦ (ok new, s)
    | err e ↦ (err (io e), s)
  ]

  unfoldable pub put_public_envelope :
      ParticipantStore V → Text → ℕ → Group → M D.State StoreError (Unit {0})
  put_public_envelope p key_id epoch group = do
    envelope ← lift (
        map_err map_envelope_err
          (from_package formats.group_format.to formats.group_format.from key_id epoch group))
    content ← lift (ok_or (formats.envelope_format.to envelope) json)
    dir ← lift (parent_of (public_path p key_id epoch))
    create_dir_secure D dir
    write_atomic D p.public_suffix (public_path p key_id epoch) content

  unfoldable pub load_public_envelope :
      ParticipantStore V → Text → ℕ → M D.State StoreError PubkeyEnvelope
  load_public_envelope p key_id epoch = do
    content ← λ s. (map_err io (D.read (public_path p key_id epoch) s), s)
    lift (ok_or (formats.envelope_format.from content) json)

  -- The share itself: serialize, encrypt, write.
  unfoldable pub put_ciphertext :
      ParticipantStore V → ShareTag SeatId → V.Secret → KeyPackage → M D.State StoreError (Unit {0})
  put_ciphertext p tag passphrase key_package = do
    dir ← lift (parent_of (share_path p tag))
    create_dir_secure D dir
    plaintext ← lift (ok_or (formats.share_format.to key_package) serialize)
    ciphertext ← lift (encrypt_secret V passphrase p.vault_salt plaintext)
    write_atomic D p.share_suffix (share_path p tag) ciphertext

  -- The index, last.
  unfoldable pub put_index :
      ParticipantStore V → ShareTag SeatId → ShareState → M D.State StoreError (Unit {0})
  put_index p tag state = do
    index ← load_manifest p
    let added = add_entry (new_entry bytes tag.key_id tag.epoch tag.seat state p.now_unix) index
    create_dir_secure D p.root
    content ← lift (to_json_bytes formats.manifest_format.to formats.manifest_format.from added)
    write_atomic D p.manifest_suffix (manifest_path p) content

  unfoldable pub put_share :
      ParticipantStore V
      → ShareTag SeatId
      → KeyPackage
      → Group
      → ShareState
      → M D.State StoreError (Unit {0})
  put_share p tag key_package group state = do
    passphrase ← lift V.passphrase
    put_public_envelope p tag.key_id tag.epoch group
    put_ciphertext p tag passphrase key_package
    put_index p tag state

  unfoldable pub load_share : ParticipantStore V → ShareTag SeatId → M D.State StoreError KeyPackage
  load_share p tag = do
    passphrase ← lift V.passphrase
    ciphertext ← λ s. (map_err io (D.read (share_path p tag) s), s)
    plaintext ← lift (decrypt_secret V passphrase ciphertext)
    lift (ok_or (formats.share_format.from plaintext) frost)

  module _ (from_bytes : List ℕ → Option SeatId) where
    unfoldable pub load_only_active :
        ParticipantStore V → M D.State StoreError (SeatId × KeyPackage)
    load_only_active p = do
      index ← load_manifest p
      entry ← lift (ok_or (find (λ e. is_active e.state) index.shares) manifest)
      key_id ← lift (map_err (λ _. manifest) (Types.new entry.key_id))
      seat ← lift (seat_from_hex from_bytes entry.seat)
      key_package ← load_share p (record { key_id = key_id; epoch = entry.epoch; seat = seat })
      pure (seat, key_package)
