-- ===== src/Tests/IdentityRuns.antt =====
-- Identities, passphrases and the directory of the store.
use cheget.Base.{
  ℕ, ◌≡◌, refl, some, List, [], ◌∷◌, ◌++◌, length, Text, text_dec, ℕ_discrete, codes, ◌==◌, Result,
  ok, err, arith,
}
use cheget.Store.Errors.{IoKind, StoreError, age}
use cheget.Store.Disk.{parent}
use cheget.Store.Atomic.{temp_name, create_dir_secure, fill, place_file, write_into, write_atomic}
use cheget.Store.Vault.{encrypt_secret, decrypt_secret}
use cheget.Store.Identity.{Curve, IsCurve, identity_path, generate, checked, persist, load}
use cheget.Store.Identity.Laws.{load-persist}
use cheget.Store.Passphrase.{for_new_store, confirmed, interactive_passphrase}
use cheget.Store.Root.{under_home, resolve}
use cheget.Tests.ToyDisk.{
  path_dec, Files, toy_disk, toy_disk-IsDisk, empty_disk, toy_vault, toy_vault-Unseals,
}

abbrev eight : List ℕ
eight = 1 ∷ 2 ∷ 3 ∷ 4 ∷ 5 ∷ 6 ∷ 7 ∷ 8 ∷ []

-- A curve whose secrets are all the lists of 32 bytes, and whose public keys are the secrets.
abbrev toy_curve : Curve
toy_curve = record {
  Rng = Unit {0};
  generate_secret = λ rng. (eight ++ eight ++ eight ++ eight, rng);
  is_secret = λ secret. length secret == 32;
  public_xonly = λ secret. secret;
  bech32 = λ hrp payload. some (hrp ++ payload);
}

toy_curve-IsCurve : IsCurve toy_curve
toy_curve-IsCurve = record {
  generates = λ rng. refl;
  secret_length = λ secret h. ground arith;
  public_length = λ secret h. ground arith;
  encodes = λ payload h. (codes "npub" ++ payload, refl);
}

unfoldable kept_identity : Result StoreError (Unit {0}) × Files
kept_identity =
    persist toy_curve toy_disk toy_vault (generate toy_curve tt).0 tt (codes "9")
      (codes "home" ∷ []) empty_disk

keeps :
    persist toy_curve toy_disk toy_vault
      (generate toy_curve tt).0
      tt
      (codes "9")
      (codes "home" ∷ [])
      empty_disk
    ≡ (ok tt, kept_identity.1)
unfolding kept_identity persist generate encrypt_secret identity_path parent create_dir_secure
    write_atomic write_into place_file fill temp_name path_dec text_dec ℕ_discrete
keeps = refl

load-persist_example :
    load toy_curve toy_disk toy_vault (codes "home" ∷ []) kept_identity.1
    ≡ (ok (generate toy_curve tt).0, kept_identity.1)
load-persist_example =
    load-persist toy_curve toy_curve-IsCurve toy_disk toy_vault tt tt (codes "9")
      (codes "home" ∷ []) empty_disk kept_identity.1 toy_disk-IsDisk toy_vault-Unseals keeps

loads_identity :
    (load toy_curve toy_disk toy_vault (codes "home" ∷ []) kept_identity.1).0
    ≡ ok (record { secret = eight ++ eight ++ eight ++ eight })
unfolding kept_identity persist load generate checked encrypt_secret decrypt_secret identity_path
    parent create_dir_secure write_atomic write_into place_file fill temp_name path_dec text_dec
    ℕ_discrete
loads_identity = refl

-- A terminal at which the same lines are typed.
abbrev types_same : Text → ℕ → Result IoKind Text × ℕ
types_same message n = (ok (codes "pw"), n)

abbrev types_other : Text → List Text → Result IoKind Text × List Text
types_other message [] = (ok [], [])
types_other message (line ∷ lines) = (ok line, lines)

agrees : interactive_passphrase types_same for_new_store 0 ≡ (ok (codes "pw"), 0)
unfolding interactive_passphrase for_new_store confirmed text_dec ℕ_discrete
agrees = refl

differs :
    interactive_passphrase types_other for_new_store (codes "a" ∷ codes "b" ∷ []) ≡ (err age, [])
unfolding interactive_passphrase for_new_store confirmed text_dec ℕ_discrete
differs = refl

-- An empty override does not count.
resolves :
    resolve (λ t. t ∷ []) (some []) (some (codes "me" ∷ []))
    ≡ ok (record { path = codes "me" ∷ codes ".cheget" ∷ [] })
unfolding resolve under_home
resolves = refl
