-- ===== src/Store/Participant/IndexLast.antt =====
-- The index is written last: whatever becomes of `put_share`, the index is as it was, or the share can
-- be loaded.
use cheget.Base.{
  ℕ, ◌≡◌, ◌≢◌, ◌⊎◌, inl, inr, sym, ap, ◌∙◌, some, List, [], ◌∷◌, ◌++◌, Text, codes, ok,
  Result-cases, Option-cases, arith, cons_injective,
}
use mathlib.Core.List.{append_assoc}
use cheget.Base.Decimal.{decimal}
use cheget.Cli.Address.{from_package}
use cheget.Store.Disk.{FilePath, parent, Disk, IsDisk}
use cheget.Store.Atomic.{temp_name, create_dir_secure}
use cheget.Store.Atomic.Laws.{write_atomic-elsewhere}
use cheget.Store.Vault.{Vault, Unseals, encrypt_secret, scrypt_log_n}
use cheget.Store.Manifest.{ShareState}
use cheget.Store.Checkpoint.{ReadsBack, parent_of}
use cheget.Store.Checkpoint.RoundTrip.{parent-append}
use cheget.Store.Checkpoint.Apart.{last, last-append, create_dir-keeps}
use cheget.Store.Participant.{
  ShareTag, ParticipantStore, Formats, manifest_path, share_path, public_path, put_public_envelope,
  put_ciphertext, put_index, put_share, load_share,
}
use cheget.Store.Participant.Laws.{
  share_dir, parent-share_path, manifest_ne-share_path, load_share-put_ciphertext, put_index-keeps,
}

temp_name_ne_manifest : (suffix : Text) → temp_name suffix ≢ codes "manifest.json"
unfolding temp_name
temp_name_ne_manifest suffix e = omega (arith, (cons_injective e).0)

epoch_ne_manifest : (rest : Text) → (b'e' ∷ rest) ≢ codes "manifest.json"
epoch_ne_manifest rest e = omega (arith, (cons_injective e).0)

module _ {SeatId KeyPackage Group : Type 0} (bytes : SeatId → List ℕ) (D : Disk) (V : Vault)
    (formats : Formats KeyPackage Group) where
  public_dir : ParticipantStore V → Text → FilePath
  public_dir p key_id = p.root ++ codes "pubkey" ∷ key_id ∷ []

  public_file : ℕ → Text
  public_file epoch = codes "epoch-" ++ decimal epoch ++ codes ".json"

  public_path-public_dir :
      (p : ParticipantStore V) (key_id : Text) (epoch : ℕ)
      → public_path bytes D V formats p key_id epoch
        ≡ public_dir p key_id ++ (public_file epoch ∷ [])
  unfolding public_path public_dir public_file
  public_path-public_dir p key_id epoch =
      sym (append_assoc p.root (codes "pubkey" ∷ key_id ∷ []) (public_file epoch ∷ []))

  pub temp_ne-manifest_path :
      (suffix : Text) (dir : FilePath) (p : ParticipantStore V)
      → dir ++ (temp_name suffix ∷ []) ≢ manifest_path bytes D V formats p
  unfolding manifest_path
  temp_ne-manifest_path suffix dir p e = temp_name_ne_manifest suffix (
      sym (last-append dir (temp_name suffix))
      ∙ ap last e
      ∙ last-append p.root (codes "manifest.json"))

  public_ne-manifest_path :
      (p : ParticipantStore V) (key_id : Text) (epoch : ℕ)
      → public_path bytes D V formats p key_id epoch ≢ manifest_path bytes D V formats p
  unfolding manifest_path public_file
  public_ne-manifest_path p key_id epoch e = epoch_ne_manifest _ (
      sym (last-append (public_dir p key_id) (public_file epoch))
      ∙ ap last (sym (public_path-public_dir p key_id epoch) ∙ e)
      ∙ last-append p.root (codes "manifest.json"))

  module _ (law : IsDisk D) where
    put_public_envelope-keeps :
        (p : ParticipantStore V) (key_id : Text) (epoch : ℕ) (group : Group) (s : D.State)
        (old : List ℕ)
        → D.read (manifest_path bytes D V formats p) s ≡ ok old
        → D.read
            (manifest_path bytes D V formats p)
            (put_public_envelope bytes D V formats p key_id epoch group s).1
          ≡ ok old
    unfolding put_public_envelope parent_of
    put_public_envelope-keeps p key_id epoch group s old h =
        let there = manifest_path bytes D V formats p in
        let path = public_path bytes D V formats p key_id epoch in
        let up : parent path ≡ some (public_dir p key_id) =
          ap parent (public_path-public_dir p key_id epoch)
          ∙ parent-append (public_dir p key_id) (public_file epoch) in
        let made = create_dir_secure D (public_dir p key_id) s in
        let kept = create_dir-keeps bytes D V law (public_dir p key_id) there s old h in
        elim (Result-cases
          (from_package formats.group_format.to formats.group_format.from key_id epoch group)) [
            | inr (e, q) ↦ ground arith
            | inl (envelope, q) ↦ elim (Option-cases (formats.envelope_format.to envelope)) [
              | inl r ↦ ground arith
              | inr (content, r) ↦ elim (Result-cases made.0) [
                | inr (e, t) ↦ ground arith
                | inl (u, t) ↦ ground (
                  arith,
                  write_atomic-elsewhere D law p.public_suffix (public_dir p key_id) path there
                      content made.1 up
                      (temp_ne-manifest_path p.public_suffix (public_dir p key_id) p)
                      (public_ne-manifest_path p key_id epoch),
                )
              ]
            ]
          ]

    put_ciphertext-keeps :
        (p : ParticipantStore V) (tag : ShareTag SeatId) (secret : V.Secret) (kp : KeyPackage)
        (s : D.State) (old : List ℕ)
        → D.read (manifest_path bytes D V formats p) s ≡ ok old
        → D.read
            (manifest_path bytes D V formats p)
            (put_ciphertext bytes D V formats p tag secret kp s).1
          ≡ ok old
    unfolding put_ciphertext parent_of encrypt_secret
    put_ciphertext-keeps p tag secret kp s old h =
        let there = manifest_path bytes D V formats p in
        let path = share_path bytes D V formats p tag in
        let dir = share_dir bytes D V formats p tag in
        let up = parent-share_path bytes D V formats p tag in
        let made = create_dir_secure D dir s in
        let kept = create_dir-keeps bytes D V law dir there s old h in
        elim (Result-cases made.0) [
          | inr (e, t) ↦ ground arith
          | inl (u, t) ↦ elim (Option-cases (formats.share_format.to kp)) [
            | inl q ↦ ground arith
            | inr (plaintext, q) ↦
                elim (Option-cases (V.seal secret scrypt_log_n p.vault_salt plaintext)) [
                  | inl r ↦ ground arith
                  | inr (ciphertext, r) ↦ ground (
                    arith,
                    write_atomic-elsewhere D law p.share_suffix dir path there ciphertext made.1 up
                        (temp_ne-manifest_path p.share_suffix dir p)
                        (λ e. manifest_ne-share_path bytes D V formats p tag (sym e)),
                  )
                ]
          ]
        ]

    load_share-put_index :
        (p : ParticipantStore V) (tag : ShareTag SeatId) (kp : KeyPackage) (state : ShareState)
        (s : D.State)
        → load_share bytes D V formats p tag s ≡ (ok kp, s)
        → (load_share bytes D V formats p tag (put_index bytes D V formats p tag state s).1).0
          ≡ ok kp
    unfolding load_share
    load_share-put_index p tag kp state s l =
        let there = share_path bytes D V formats p tag in
        elim (Result-cases V.passphrase) [
          | inr (e, q) ↦ absurd (ground arith)
          | inl (secret, q) ↦ elim (Result-cases (D.read there s)) [
            | inr (e, r) ↦ absurd (ground arith)
            | inl (ciphertext, r) ↦
                let kept = put_index-keeps bytes D V formats law p tag tag state s ciphertext r in
                ground arith
          ]
        ]

    -- Whether `put_share` succeeds or fails, an index that was there before is as it was, or the
    -- share that was to be stored can be loaded, where the disk, the encryption and the format of a
    -- share do what they document.
    pub put_share_lem :
        (p : ParticipantStore V) (tag : ShareTag SeatId) (kp : KeyPackage) (group : Group)
        (state : ShareState) (s : D.State) (old : List ℕ)
        → Unseals V
        → ReadsBack formats.share_format
        → D.read (manifest_path bytes D V formats p) s ≡ ok old
        → let out = put_share bytes D V formats p tag kp group state s in
          (D.read (manifest_path bytes D V formats p) out.1 ≡ ok old)
          ⊎ ((load_share bytes D V formats p tag out.1).0 ≡ ok kp)
    unfolding put_share
    put_share_lem p tag kp group state s old unseals back h = elim (Result-cases V.passphrase) [
      | inr (e, q) ↦ inl (ground arith)
      | inl (secret, q) ↦
          let first = put_public_envelope bytes D V formats p tag.key_id tag.epoch group s in
          let kept = put_public_envelope-keeps p tag.key_id tag.epoch group s old h in
          elim (Result-cases first.0) [
            | inr (e, r) ↦ inl (ground arith)
            | inl (u, r) ↦
                let second = put_ciphertext bytes D V formats p tag secret kp first.1 in
                elim (Result-cases second.0) [
                  | inr (e, t) ↦
                      inl (ground (arith, put_ciphertext-keeps p tag secret kp first.1 old kept))
                  | inl (v, t) ↦
                      let loads =
                        load_share-put_ciphertext bytes D V formats law p tag secret kp first.1
                          second.1 unseals back q (ground arith) in
                      inr (ground (arith, load_share-put_index p tag kp state second.1 loads))
                ]
          ]
    ]
