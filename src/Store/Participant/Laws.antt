-- ===== src/Store/Participant/Laws.antt =====
-- A share that was stored is loaded again: neither the index, which is written after it, nor its
-- temporary file touches it.
use cheget.Base.{
  ℕ, ◌≡◌, ◌≢◌, inl, inr, sym, ap, ◌∙◌, some, List, [], ◌∷◌, ◌++◌, Text, codes, ok, Result-cases,
  Option-cases, arith, cons_injective,
}
use mathlib.Core.List.{append_assoc}
use cheget.Base.Decimal.{decimal}
use cheget.Store.Disk.{FilePath, parent, Disk, IsDisk}
use cheget.Store.Atomic.{temp_name, create_dir_secure, write_atomic}
use cheget.Store.Atomic.Laws.{write_atomic_lem, write_atomic-elsewhere}
use cheget.Store.Vault.{Vault, Unseals, encrypt_secret, decrypt_secret, scrypt_log_n}
use cheget.Store.Manifest.{ShareState, seat_hex, to_json_bytes, add_entry, new_entry}
use cheget.Store.Checkpoint.{ReadsBack, parent_of}
use cheget.Store.Checkpoint.RoundTrip.{parent-append}
use cheget.Store.Checkpoint.Apart.{last, last-append, create_dir-keeps}
use cheget.Store.Participant.{
  ShareTag, ParticipantStore, Formats, manifest_path, share_path, load_manifest,
  put_public_envelope, put_ciphertext, put_index, put_share, load_share,
}

temp_name_ne_seat : (suffix rest : Text) → temp_name suffix ≢ (b's' ∷ rest)
unfolding temp_name
temp_name_ne_seat suffix rest e = omega (arith, (cons_injective e).0)

manifest_ne_seat : (rest : Text) → codes "manifest.json" ≢ (b's' ∷ rest)
manifest_ne_seat rest e = omega (arith, (cons_injective e).0)

module _ {SeatId KeyPackage Group : Type 0} (bytes : SeatId → List ℕ) (D : Disk) (V : Vault)
    (formats : Formats KeyPackage Group) where
  seat_file : ShareTag SeatId → Text
  seat_file tag = codes "seat-" ++ seat_hex bytes tag.seat ++ codes ".age"

  unfoldable pub share_dir : ParticipantStore V → ShareTag SeatId → FilePath
  share_dir p tag =
      p.root ++ codes "shares" ∷ tag.key_id ∷ (codes "epoch-" ++ decimal tag.epoch) ∷ []

  share_path-share_dir :
      (p : ParticipantStore V) (tag : ShareTag SeatId)
      → share_path bytes D V formats p tag ≡ share_dir p tag ++ (seat_file tag ∷ [])
  unfolding share_path share_dir seat_file
  share_path-share_dir p tag = sym (
      append_assoc p.root (codes "shares" ∷ tag.key_id ∷ (codes "epoch-" ++ decimal tag.epoch) ∷ [])
        (seat_file tag ∷ []))

  pub parent-share_path :
      (p : ParticipantStore V) (tag : ShareTag SeatId)
      → parent (share_path bytes D V formats p tag) ≡ some (share_dir p tag)
  parent-share_path p tag =
      ap parent (share_path-share_dir p tag) ∙ parent-append (share_dir p tag) (seat_file tag)

  temp_ne-share_path :
      (suffix : Text) (dir : FilePath) (p : ParticipantStore V) (tag : ShareTag SeatId)
      → dir ++ (temp_name suffix ∷ []) ≢ share_path bytes D V formats p tag
  unfolding seat_file
  temp_ne-share_path suffix dir p tag e = temp_name_ne_seat suffix _ (
      sym (last-append dir (temp_name suffix))
      ∙ ap last (e ∙ share_path-share_dir p tag)
      ∙ last-append (share_dir p tag) (seat_file tag))

  pub manifest_ne-share_path :
      (p : ParticipantStore V) (tag : ShareTag SeatId)
      → manifest_path bytes D V formats p ≢ share_path bytes D V formats p tag
  unfolding seat_file manifest_path
  manifest_ne-share_path p tag e = manifest_ne_seat _ (
      sym (last-append p.root (codes "manifest.json"))
      ∙ ap last (e ∙ share_path-share_dir p tag)
      ∙ last-append (share_dir p tag) (seat_file tag))

  -- Reading the index changes nothing.
  pub load_manifest-state :
      (p : ParticipantStore V) (s : D.State) → (load_manifest bytes D V formats p s).1 ≡ s
  unfolding load_manifest
  load_manifest-state p s = ground arith

  module _ (law : IsDisk D) where
    -- Writing the index, with success or not, leaves a stored share as it is.
    pub put_index-keeps :
        (p : ParticipantStore V) (tag tag' : ShareTag SeatId) (state : ShareState) (s : D.State)
        (content : List ℕ)
        → D.read (share_path bytes D V formats p tag) s ≡ ok content
        → D.read (share_path bytes D V formats p tag) (put_index bytes D V formats p tag' state s).1
          ≡ ok content
    unfolding put_index manifest_path
    put_index-keeps p tag tag' state s content h =
        let there = share_path bytes D V formats p tag in
        let loaded = load_manifest bytes D V formats p s in
        let still = load_manifest-state p s in
        elim (Result-cases loaded.0) [
          | inr (e, q) ↦ ground arith
          | inl (index, q) ↦
              let made = create_dir_secure D p.root loaded.1 in
              let kept =
                create_dir-keeps bytes D V law p.root there loaded.1 content
                  (ap (D.read there) still ∙ h) in
              elim (Result-cases made.0) [
                | inr (e, r) ↦ ground arith
                | inl (u, r) ↦
                    let added =
                      add_entry (new_entry bytes tag'.key_id tag'.epoch tag'.seat state p.now_unix)
                        index in
                    elim (Result-cases (
                      to_json_bytes formats.manifest_format.to formats.manifest_format.from
                        added)) [
                          | inr (e, t) ↦ ground arith
                          | inl (written, t) ↦ ground (
                            arith,
                            write_atomic-elsewhere D law p.manifest_suffix p.root
                                (manifest_path bytes D V formats p) there written made.1
                                (parent-append p.root (codes "manifest.json"))
                                (temp_ne-share_path p.manifest_suffix p.root p tag)
                                (manifest_ne-share_path p tag),
                          )
                        ]
              ]
        ]

    pub load_share-put_ciphertext :
        (p : ParticipantStore V) (tag : ShareTag SeatId) (secret : V.Secret) (kp : KeyPackage)
        (s s' : D.State)
        → Unseals V
        → ReadsBack formats.share_format
        → V.passphrase ≡ ok secret
        → put_ciphertext bytes D V formats p tag secret kp s ≡ (ok tt, s')
        → load_share bytes D V formats p tag s' ≡ (ok kp, s')
    unfolding put_ciphertext load_share parent_of encrypt_secret decrypt_secret
    load_share-put_ciphertext p tag secret kp s s' unseals back k h =
        let up = parent-share_path p tag in
        let made = create_dir_secure D (share_dir p tag) s in
        elim (Result-cases made.0) [
          | inr (e, r) ↦ absurd (ground arith)
          | inl (u, r) ↦ elim (Option-cases (formats.share_format.to kp)) [
            | inl q ↦ absurd (ground arith)
            | inr (plaintext, q) ↦
                elim (Option-cases (V.seal secret scrypt_log_n p.vault_salt plaintext)) [
                  | inl t ↦ absurd (ground arith)
                  | inr (ciphertext, t) ↦
                      let path = share_path bytes D V formats p tag in
                      let out = write_atomic D p.share_suffix path ciphertext made.1 in
                      let e1 : out ≡ (ok tt, s') = ground arith in
                      elim (write_atomic_lem D law p.share_suffix (share_dir p tag) path ciphertext
                        made.1 up (temp_ne-share_path p.share_suffix (share_dir p tag) p tag)) [
                          | inr (e, f, _) ↦ absurd (ground arith)
                          | inl f ↦ ground (
                            arith,
                            unseals secret scrypt_log_n p.vault_salt plaintext ciphertext t,
                            back kp plaintext q,
                          )
                        ]
                ]
          ]
        ]

    reload :
        (p : ParticipantStore V) (tag : ShareTag SeatId) (kp : KeyPackage) (state : ShareState)
        (s s' : D.State)
        → load_share bytes D V formats p tag s ≡ (ok kp, s)
        → put_index bytes D V formats p tag state s ≡ (ok tt, s')
        → load_share bytes D V formats p tag s' ≡ (ok kp, s')
    unfolding load_share
    reload p tag kp state s s' l h =
        let there = share_path bytes D V formats p tag in
        elim (Result-cases V.passphrase) [
          | inr (e, q) ↦ absurd (ground arith)
          | inl (secret, q) ↦ elim (Result-cases (D.read there s)) [
            | inr (e, r) ↦ absurd (ground arith)
            | inl (ciphertext, r) ↦
                let kept = put_index-keeps p tag tag state s ciphertext r in
                let now : D.read there s' ≡ ok ciphertext =
                  sym (ap (λ o. D.read there o.1) h) ∙ kept in
                ground arith
          ]
        ]

    -- A share that was stored with success is loaded again, where the disk, the encryption and the
    -- format of a share do what they document.
    pub load_share-put_share :
        (p : ParticipantStore V) (tag : ShareTag SeatId) (kp : KeyPackage) (group : Group)
        (state : ShareState) (s s' : D.State)
        → Unseals V
        → ReadsBack formats.share_format
        → put_share bytes D V formats p tag kp group state s ≡ (ok tt, s')
        → load_share bytes D V formats p tag s' ≡ (ok kp, s')
    unfolding put_share
    load_share-put_share p tag kp group state s s' unseals back h =
        elim (Result-cases V.passphrase) [
          | inr (e, q) ↦ absurd (ground arith)
          | inl (secret, q) ↦
              let first = put_public_envelope bytes D V formats p tag.key_id tag.epoch group s in
              elim (Result-cases first.0) [
                | inr (e, r) ↦ absurd (ground arith)
                | inl (u, r) ↦
                    let second = put_ciphertext bytes D V formats p tag secret kp first.1 in
                    elim (Result-cases second.0) [
                      | inr (e, t) ↦ absurd (ground arith)
                      | inl (v, t) ↦
                          let third = put_index bytes D V formats p tag state second.1 in
                          let e3 : third ≡ (ok tt, s') = ground arith in
                          reload p tag kp state second.1 s'
                            (load_share-put_ciphertext p tag secret kp first.1 second.1 unseals back
                              q (ground arith))
                            e3
                    ]
              ]
        ]
