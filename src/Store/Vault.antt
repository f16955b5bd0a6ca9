-- ===== src/Store/Vault.antt =====
-- src/store/crypto.rs and the source of the passphrase (src/store/passphrase.rs): encryption under the
-- store's one passphrase. age's scrypt recipient and identity are parameters; the salt and nonce that
-- age draws are an argument.
use cheget.Base.{ℕ, ◌≡◌, Option, some, List, Result, ok_or}
use cheget.Store.Errors.{StoreError, age}

abbrev pub scrypt_log_n : ℕ
scrypt_log_n = 18

pub record Vault : Type 1 where
  pub Secret : Type 0
  pub Salt : Type 0
  -- `PassphraseSource::passphrase`
  pub passphrase : Result StoreError Secret
  -- `age::encrypt` to a recipient with a work factor, and `age::decrypt`
  pub seal : Secret → ℕ → Salt → List ℕ → Option (List ℕ)
  pub unseal : Secret → List ℕ → Option (List ℕ)

-- age decrypts what it encrypted under the same passphrase.
abbrev pub Unseals : Vault → Type 0
Unseals V =
    (secret : V.Secret) (n : ℕ) (salt : V.Salt) (plaintext ciphertext : List ℕ)
    → V.seal secret n salt plaintext ≡ some ciphertext
    → V.unseal secret ciphertext ≡ some plaintext

module _ (V : Vault) where
  unfoldable pub encrypt_secret : V.Secret → V.Salt → List ℕ → Result StoreError (List ℕ)
  encrypt_secret passphrase salt plaintext =
      ok_or (V.seal passphrase scrypt_log_n salt plaintext) age

  unfoldable pub decrypt_secret : V.Secret → List ℕ → Result StoreError (List ℕ)
  decrypt_secret passphrase ciphertext = ok_or (V.unseal passphrase ciphertext) age
