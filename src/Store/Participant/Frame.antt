-- ===== src/Store/Participant/Frame.antt =====
-- A store writes below its root only: a file elsewhere reads after `put_share` as before it.
use cheget.Base.{
  ◌≡◌, ◌≢◌, inl, inr, sym, ap, ◌∙◌, some, List, [], ◌∷◌, ◌++◌, ℕ, Text, codes, Result, ok, err,
  Result-cases, Option-cases, Bool-cases, arith,
}
use mathlib.Core.Path.{subst}
use mathlib.Core.List.{append_assoc, append-nil}
use cheget.Base.Decimal.{decimal}
use cheget.Cli.Address.{from_package}
use cheget.Store.Disk.{FilePath, parent, Disk, IsDisk}
use cheget.Store.Atomic.{temp_name, create_dir_secure, write_atomic}
use cheget.Store.Atomic.Laws.{write_atomic-elsewhere}
use cheget.Store.Vault.{Vault, encrypt_secret, scrypt_log_n}
use cheget.Store.Manifest.{seat_hex, ShareState, new_entry, add_entry, to_json_bytes}
use cheget.Store.Checkpoint.{parent_of}
use cheget.Store.Checkpoint.RoundTrip.{parent-append}
use cheget.Store.Checkpoint.Apart.{create_dir-keeps}
use cheget.Store.Errors.{IoKind, not_found}
use cheget.Store.Participant.{
  ShareTag, ParticipantStore, Formats, manifest_path, share_path, public_path, load_manifest,
  put_public_envelope, put_ciphertext, put_index, put_share,
}
use cheget.Store.Participant.Laws.{load_manifest-state}

abbrev pub Outside : FilePath → FilePath → Type 0
Outside root q = (rest : FilePath) → root ++ rest ≢ q

-- The same for one part of the root.
abbrev pub OutsideIn : Text → FilePath → FilePath → Type 0
OutsideIn part root q = (rest : FilePath) → root ++ part ∷ rest ≢ q

module _ {SeatId KeyPackage Group : Type 0} (bytes : SeatId → List ℕ) (D : Disk) (V : Vault)
    (formats : Formats KeyPackage Group) (law : IsDisk D) where
  -- Making a directory at or below the root leaves what is read of the path.
  abbrev pub Steady : FilePath → FilePath → Result IoKind (List ℕ) → Type 0
  Steady root q x =
      (below : FilePath) (s : D.State)
      → D.read q s ≡ x
      → D.read q (create_dir_secure D (root ++ below) s).1 ≡ x

  abbrev pub SteadyIn : Text → FilePath → FilePath → Result IoKind (List ℕ) → Type 0
  SteadyIn part root q x =
      (below : FilePath) (s : D.State)
      → D.read q s ≡ x
      → D.read q (create_dir_secure D (root ++ part ∷ below) s).1 ≡ x

  -- A directory that is made below the root, and a file that is written in it.
  written-keeps :
      (root below : FilePath) (name suffix : Text) (q : FilePath) (content : List ℕ)
      (x : Result IoKind (List ℕ)) (s : D.State)
      → root ++ (below ++ (temp_name suffix ∷ [])) ≢ q
      → root ++ (below ++ (name ∷ [])) ≢ q
      → D.read q s ≡ x
      → D.read q (write_atomic D suffix (root ++ (below ++ (name ∷ []))) content s).1 ≡ x
  written-keeps root below name suffix q content x s n m h =
      let path = append_assoc root below (name ∷ []) in
      write_atomic-elsewhere D law suffix (root ++ below) (root ++ (below ++ (name ∷ []))) q content
        s (ap parent (sym path) ∙ parent-append (root ++ below) name)
        (λ e. n (sym (append_assoc root below (temp_name suffix ∷ [])) ∙ e)) m
      ∙ h

  pub public-keeps :
      (p : ParticipantStore V) (key_id : Text) (epoch : ℕ) (group : Group) (q : FilePath)
      (s : D.State) (x : Result IoKind (List ℕ))
      → OutsideIn (codes "pubkey") p.root q
      → SteadyIn (codes "pubkey") p.root q x
      → D.read q s ≡ x
      → D.read q (put_public_envelope bytes D V formats p key_id epoch group s).1 ≡ x
  unfolding put_public_envelope parent_of public_path
  public-keeps p key_id epoch group q s x out steady h =
      let name = codes "epoch-" ++ decimal epoch ++ codes ".json" in
      let below = codes "pubkey" ∷ key_id ∷ [] in
      let up : parent (public_path bytes D V formats p key_id epoch) ≡ some (p.root ++ below) =
        ap parent (sym (append_assoc p.root below (name ∷ [])))
        ∙ parent-append (p.root ++ below) name in
      let made = create_dir_secure D (p.root ++ below) s in
      let kept = steady (key_id ∷ []) s h in
      elim (Result-cases
        (from_package formats.group_format.to formats.group_format.from key_id epoch group)) [
          | inr (e, r) ↦ ground arith
          | inl (envelope, r) ↦ elim (Option-cases (formats.envelope_format.to envelope)) [
            | inl t ↦ ground arith
            | inr (content, t) ↦ elim (Result-cases made.0) [
              | inr (e, u) ↦ ground arith
              | inl (v, u) ↦ ground (
                arith,
                written-keeps p.root below name p.public_suffix q content x made.1
                    (out (key_id ∷ temp_name p.public_suffix ∷ [])) (out (key_id ∷ name ∷ [])) kept,
              )
            ]
          ]
        ]

  pub share-keeps :
      (p : ParticipantStore V) (tag : ShareTag SeatId) (secret : V.Secret) (kp : KeyPackage)
      (q : FilePath) (s : D.State) (x : Result IoKind (List ℕ))
      → OutsideIn (codes "shares") p.root q
      → SteadyIn (codes "shares") p.root q x
      → D.read q s ≡ x
      → D.read q (put_ciphertext bytes D V formats p tag secret kp s).1 ≡ x
  unfolding put_ciphertext parent_of encrypt_secret share_path
  share-keeps p tag secret kp q s x out steady h =
      let name = codes "seat-" ++ seat_hex bytes tag.seat ++ codes ".age" in
      let below = codes "shares" ∷ tag.key_id ∷ (codes "epoch-" ++ decimal tag.epoch) ∷ [] in
      let up : parent (share_path bytes D V formats p tag) ≡ some (p.root ++ below) =
        ap parent (sym (append_assoc p.root below (name ∷ [])))
        ∙ parent-append (p.root ++ below) name in
      let made = create_dir_secure D (p.root ++ below) s in
      let kept = steady (tag.key_id ∷ (codes "epoch-" ++ decimal tag.epoch) ∷ []) s h in
      elim (Result-cases made.0) [
        | inr (e, t) ↦ ground arith
        | inl (u, t) ↦ elim (Option-cases (formats.share_format.to kp)) [
          | inl r ↦ ground arith
          | inr (plaintext, r) ↦
              elim (Option-cases (V.seal secret scrypt_log_n p.vault_salt plaintext)) [
                | inl v ↦ ground arith
                | inr (ciphertext, v) ↦ ground (
                  arith,
                  written-keeps p.root below name p.share_suffix q ciphertext x made.1
                      (out (
                        tag.key_id
                        ∷ (codes "epoch-" ++ decimal tag.epoch)
                        ∷ temp_name p.share_suffix
                        ∷ []))
                      (out (tag.key_id ∷ (codes "epoch-" ++ decimal tag.epoch) ∷ name ∷ [])) kept,
                )
              ]
        ]
      ]

  pub index-keeps :
      (p : ParticipantStore V) (tag : ShareTag SeatId) (state : ShareState) (q : FilePath)
      (s : D.State) (x : Result IoKind (List ℕ))
      → p.root ++ temp_name p.manifest_suffix ∷ [] ≢ q
      → p.root ++ codes "manifest.json" ∷ [] ≢ q
      → ((s : D.State) → D.read q s ≡ x → D.read q (create_dir_secure D p.root s).1 ≡ x)
      → D.read q s ≡ x
      → D.read q (put_index bytes D V formats p tag state s).1 ≡ x
  unfolding put_index manifest_path
  index-keeps p tag state q s x n m steady h =
      let loaded = load_manifest bytes D V formats p s in
      let still = load_manifest-state bytes D V formats p s in
      elim (Result-cases loaded.0) [
        | inr (e, r) ↦ ground arith
        | inl (index, r) ↦
            let made = create_dir_secure D p.root loaded.1 in
            let kept = steady loaded.1 (ap (D.read q) still ∙ h) in
            elim (Result-cases made.0) [
              | inr (e, t) ↦ ground arith
              | inl (u, t) ↦
                  let added =
                    add_entry (new_entry bytes tag.key_id tag.epoch tag.seat state p.now_unix)
                      index in
                  elim (Result-cases
                    (to_json_bytes formats.manifest_format.to formats.manifest_format.from added)) [
                      | inr (e, v) ↦ ground arith
                      | inl (content, v) ↦ ground (
                        arith,
                        written-keeps p.root [] (codes "manifest.json") p.manifest_suffix q content
                            x made.1 n m kept,
                      )
                    ]
            ]
      ]

  -- Whether it succeeds or fails, `put_share` leaves a file outside the root as it is.
  pub put_share-keeps :
      (p : ParticipantStore V) (tag : ShareTag SeatId) (kp : KeyPackage) (group : Group)
      (state : ShareState) (q : FilePath) (s : D.State) (x : Result IoKind (List ℕ))
      → Outside p.root q
      → Steady p.root q x
      → D.read q s ≡ x
      → D.read q (put_share bytes D V formats p tag kp group state s).1 ≡ x
  unfolding put_share
  put_share-keeps p tag kp group state q s x out steady h = elim (Result-cases V.passphrase) [
    | inr (e, r) ↦ ground arith
    | inl (secret, r) ↦
        let first = put_public_envelope bytes D V formats p tag.key_id tag.epoch group s in
        let kept =
          public-keeps p tag.key_id tag.epoch group q s x (λ r. out (codes "pubkey" ∷ r))
            (λ r. steady (codes "pubkey" ∷ r)) h in
        elim (Result-cases first.0) [
          | inr (e, t) ↦ ground arith
          | inl (u, t) ↦
              let second = put_ciphertext bytes D V formats p tag secret kp first.1 in
              let still =
                share-keeps p tag secret kp q first.1 x (λ r. out (codes "shares" ∷ r))
                  (λ r. steady (codes "shares" ∷ r)) kept in
              elim (Result-cases second.0) [
                | inr (e, v) ↦ ground arith
                | inl (y, v) ↦ ground (
                  arith,
                  index-keeps p tag state q second.1 x (out (temp_name p.manifest_suffix ∷ []))
                      (out (codes "manifest.json" ∷ []))
                      (λ s.
                        subst (λ d. D.read q s ≡ x → D.read q (create_dir_secure D d s).1 ≡ x)
                          (append-nil p.root) (steady [] s))
                      still,
                )
              ]
        ]
  ]

  -- What is read of a file stays, and so does its absence, unless it is above the new directory.
  pub Steady-ok : (root q : FilePath) (content : List ℕ) → Steady root q (ok content)
  Steady-ok root q content below s h = create_dir-keeps bytes D V law (root ++ below) q s content h

  pub create_dir-missing :
      (dir q : FilePath) (s : D.State)
      → ((rest : FilePath) → q ++ rest ≢ dir)
      → D.read q s ≡ err not_found
      → D.read q (create_dir_secure D dir s).1 ≡ err not_found
  unfolding create_dir_secure
  create_dir-missing dir q s apart h = elim (Bool-cases (D.is_dir dir s)) [
    | inl p ↦ ground arith
    | inr p ↦ ground (arith, law.create_missing dir q s apart h)
  ]

  pub Steady-missing :
      (root q : FilePath)
      → ((below rest : FilePath) → q ++ rest ≢ root ++ below)
      → Steady root q (err not_found)
  Steady-missing root q apart below s h = create_dir-missing (root ++ below) q s (apart below) h
