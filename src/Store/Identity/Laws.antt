-- ===== src/Store/Identity/Laws.antt =====
-- An identity survives its file, and its npub is always there.
use cheget.Base.{
  ◌≡◌, ◌≢◌, inl, inr, refl, some, List, [], ◌∷◌, ◌++◌, ℕ, Text, codes, true, ok, Result-cases,
  Option-cases, arith, append_injective, cons_injective, Bool-cases,
}
use cheget.Store.Disk.{FilePath, parent, Disk, IsDisk}
use cheget.Store.Atomic.{temp_name, create_dir_secure, write_atomic}
use cheget.Store.Atomic.Laws.{write_atomic_lem}
use cheget.Store.Vault.{Vault, Unseals, encrypt_secret, decrypt_secret, scrypt_log_n}
use cheget.Store.Checkpoint.RoundTrip.{parent-append}
use cheget.Store.Identity.{
  Curve, IsCurve, IdentityKeypair, identity_path, generate, npub, checked, persist, load,
}

temp_ne-identity_path :
    (suffix : Text) (root : FilePath) → root ++ (temp_name suffix ∷ []) ≢ identity_path root
unfolding temp_name identity_path
temp_ne-identity_path suffix root e =
    let (_, names) = append_injective root root refl e in
    omega (arith, (cons_injective (cons_injective names).0).0)

parent-identity_path : (root : FilePath) → parent (identity_path root) ≡ some root
unfolding identity_path
parent-identity_path root = parent-append root (codes "identity.age")

module _ (C : Curve) (curve : IsCurve C) where
  -- What was checked has an npub.
  npub-valid :
      (id : IdentityKeypair) → C.is_secret id.secret ≡ true → (t : Text) × (npub C id ≡ some t)
  unfolding npub
  npub-valid id h =
      let (t, p) = curve.encodes (C.public_xonly id.secret) (curve.public_length id.secret h) in
      (t, rw h p)

  checked_valid :
      (plaintext : List ℕ) (id : IdentityKeypair)
      → checked C plaintext ≡ ok id
      → C.is_secret id.secret ≡ true
  unfolding checked
  checked_valid plaintext id h = elim (Bool-cases (C.is_secret plaintext)) [
    | inl t ↦ ground arith
    | inr t ↦ absurd (ground arith)
  ]

  checked_of :
      (secret : List ℕ)
      → C.is_secret secret ≡ true
      → checked C secret ≡ ok (record { secret = secret })
  unfolding checked
  checked_of secret h = let l = curve.secret_length secret h in ground arith

  module _ (D : Disk) (V : Vault) where
    -- An identity that was loaded has an npub: the computation does not panic, where the curve does
    -- what it documents.
    pub npub-load :
        (root : FilePath) (s : D.State) (id : IdentityKeypair)
        → (load C D V root s).0 ≡ ok id
        → (t : Text) × (npub C id ≡ some t)
    unfolding load
    npub-load root s id h = elim (Result-cases V.passphrase) [
      | inr (e, p) ↦ absurd (ground arith)
      | inl (pass, p) ↦ elim (Result-cases (D.read (identity_path root) s)) [
        | inr (e, q) ↦ absurd (ground arith)
        | inl (ciphertext, q) ↦ elim (Result-cases (decrypt_secret V pass ciphertext)) [
          | inr (e, r) ↦ absurd (ground arith)
          | inl (plaintext, r) ↦ npub-valid id (checked_valid plaintext id (ground arith))
        ]
      ]
    ]

    -- A generated identity that was persisted with success is loaded again, where the disk, the
    -- encryption and the curve do what they document.
    pub load-persist :
        (rng : C.Rng) (salt : V.Salt) (suffix : Text) (root : FilePath) (s s' : D.State)
        → IsDisk D
        → Unseals V
        → persist C D V (generate C rng).0 salt suffix root s ≡ (ok tt, s')
        → load C D V root s' ≡ (ok (generate C rng).0, s')
    unfolding persist load generate encrypt_secret decrypt_secret
    load-persist rng salt suffix root s s' law unseals h =
        let secret = (C.generate_secret rng).0 in
        let made = create_dir_secure D root s in
        elim (Result-cases made.0) [
          | inr (e, r) ↦ absurd (ground arith)
          | inl (u, r) ↦ elim (Result-cases V.passphrase) [
            | inr (e, p) ↦ absurd (ground arith)
            | inl (pass, p) ↦ elim (Option-cases (V.seal pass scrypt_log_n salt secret)) [
              | inl q ↦ absurd (ground arith)
              | inr (ciphertext, q) ↦
                  let path = identity_path root in
                  let out = write_atomic D suffix path ciphertext made.1 in
                  let e1 : out ≡ (ok tt, s') = ground arith in
                  let whole = checked_of secret (curve.generates rng) in
                  elim (write_atomic_lem D law suffix root path ciphertext made.1
                    (parent-identity_path root) (temp_ne-identity_path suffix root)) [
                      | inr (e, t, _) ↦ absurd (ground arith)
                      | inl t ↦ ground (arith, unseals pass scrypt_log_n salt secret ciphertext q)
                    ]
            ]
          ]
        ]
