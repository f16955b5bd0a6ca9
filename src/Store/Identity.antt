-- ===== src/Store/Identity.antt =====
-- src/store/identity.rs: the transport identity, a secp256k1 key that never meets the FROST shares.
-- secp256k1 and bech32 are the parameter `Curve`.
pub mod Laws
use cheget.Base.{
  ℕ, ◌≡◌, ◌==◌, not, Option, none, some, List, [], ◌∷◌, ◌++◌, length, Text, codes, Bool, true,
  Result, ok, err, map_err, if◌then◌else◌,
}
use cheget.Base.Effects.{M, pure, lift, ◌>>=◌, ◌>>◌}
use cheget.Store.Errors.{StoreError, io, identity}
use cheget.Store.Disk.{FilePath, Disk}
use cheget.Store.Atomic.{create_dir_secure, write_atomic}
use cheget.Store.Vault.{Vault, encrypt_secret, decrypt_secret}

pub record Curve : Type 1 where
  pub Rng : Type 0
  -- `generate_keypair` and `secret_bytes`
  pub generate_secret : Rng → List ℕ × Rng
  -- `SecretKey::from_slice` succeeds
  pub is_secret : List ℕ → Bool
  -- the serialized x-only public key of a secret
  pub public_xonly : List ℕ → List ℕ
  -- `bech32::encode::<Bech32>`
  pub bech32 : Text → List ℕ → Option Text

-- A generated secret is valid; a public key has 32 bytes; 32 bytes can be encoded.
pub record IsCurve (C : Curve) : Type 0 where
  pub generates : (rng : C.Rng) → C.is_secret (C.generate_secret rng).0 ≡ true
  pub secret_length : (secret : List ℕ) → C.is_secret secret ≡ true → length secret ≡ 32
  pub public_length :
      (secret : List ℕ) → C.is_secret secret ≡ true → length (C.public_xonly secret) ≡ 32
  pub encodes :
      (payload : List ℕ)
      → length payload ≡ 32
      → (t : Text) × (C.bech32 (codes "npub") payload ≡ some t)

pub record IdentityKeypair : Type 0 where
  pub secret : List ℕ

unfoldable pub identity_path : FilePath → FilePath
identity_path root = root ++ codes "identity.age" ∷ []

module _ (C : Curve) where
  unfoldable pub generate : C.Rng → IdentityKeypair × C.Rng
  generate rng = let drawn = C.generate_secret rng in (record { secret = drawn.0 }, drawn.1)

  -- `none` is a panic.
  unfoldable pub npub : IdentityKeypair → Option Text
  npub id =
      if C.is_secret id.secret then C.bech32 (codes "npub") (C.public_xonly id.secret) else none

  unfoldable pub checked : List ℕ → Result StoreError IdentityKeypair
  checked plaintext =
      if not (length plaintext == 32)
      then err identity
      else (if C.is_secret plaintext then ok (record { secret = plaintext }) else err identity)

  module _ (D : Disk) (V : Vault) where
    unfoldable pub persist :
        IdentityKeypair → V.Salt → Text → FilePath → M D.State StoreError (Unit {0})
    persist id salt suffix root = do
      create_dir_secure D root
      pass ← lift V.passphrase
      ciphertext ← lift (encrypt_secret V pass salt id.secret)
      write_atomic D suffix (identity_path root) ciphertext

    unfoldable pub load : FilePath → M D.State StoreError IdentityKeypair
    load root = do
      pass ← lift V.passphrase
      ciphertext ← λ s. (map_err io (D.read (identity_path root) s), s)
      plaintext ← lift (decrypt_secret V pass ciphertext)
      lift (checked plaintext)
