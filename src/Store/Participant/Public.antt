-- ===== src/Store/Participant/Public.antt =====
-- The group package that `put_share` leaves in the public artifact.
use cheget.Base.{
  ℕ, ◌≡◌, ◌≢◌, inl, inr, refl, sym, ap, ◌∙◌, some, List, [], ◌∷◌, ◌++◌, Text, codes, ok,
  Result-cases, Option-cases, arith, append_injective, cons_injective,
}
use mathlib.Core.List.{append_assoc}
use cheget.Base.Decimal.{decimal}
use cheget.Base.Hex.Laws.{AreBytes, hex_decode-hex_encode}
use cheget.Cli.Address.{PubkeyEnvelope, from_package, decode_package}
use cheget.Store.Disk.{FilePath, parent, Disk, IsDisk}
use cheget.Store.Atomic.{temp_name, create_dir_secure, write_atomic}
use cheget.Store.Atomic.Laws.{write_atomic_lem}
use cheget.Store.Vault.{Vault}
use cheget.Store.Manifest.{ShareState}
use cheget.Store.Checkpoint.{Codec, ReadsBack, parent_of}
use cheget.Store.Checkpoint.RoundTrip.{parent-append}
use cheget.Store.Checkpoint.Apart.{create_dir-keeps}
use cheget.Store.Participant.{
  ShareTag, ParticipantStore, Formats, public_path, put_public_envelope, put_ciphertext, put_share,
}
use cheget.Store.Participant.Frame.{share-keeps, index-keeps}

head_ne : (c d : ℕ) (rest tail : Text) → c ≢ d → (c ∷ rest) ≢ (d ∷ tail)
head_ne c d rest tail n e = n (cons_injective e).0

parts_apart :
    (root : FilePath) (a b : Text) (rest rest' : FilePath)
    → a ≢ b
    → root ++ a ∷ rest ≢ root ++ b ∷ rest'
parts_apart root a b rest rest' n e = n (cons_injective (append_injective root root refl e).1).0

-- The bytes of a group package are bytes.
abbrev pub WritesBytes : {A : Type 0} → Codec A → Type 0
WritesBytes {A} c = (a : A) (bytes : List ℕ) → c.to a ≡ some bytes → AreBytes bytes

module _ {Group : Type 0} (group_format : Codec Group) where
  pub decode_package-from_package :
      (key_id : Text) (epoch : ℕ) (group : Group) (e : PubkeyEnvelope)
      → ReadsBack group_format
      → WritesBytes group_format
      → from_package group_format.to group_format.from key_id epoch group ≡ ok e
      → decode_package group_format.to group_format.from e ≡ ok group
  unfolding from_package decode_package
  decode_package-from_package key_id epoch group e back writes h =
      elim (Option-cases (group_format.to group)) [
        | inl q ↦ absurd (ground arith)
        | inr (b, q) ↦ ground (arith, hex_decode-hex_encode b (writes group b q), back group b q)
      ]

module _ {SeatId KeyPackage Group : Type 0} (bytes : SeatId → List ℕ) (D : Disk) (V : Vault)
    (formats : Formats KeyPackage Group) (law : IsDisk D) where
  part_path : ParticipantStore V → Text → FilePath
  part_path p key_id = p.root ++ codes "pubkey" ∷ key_id ∷ []

  public_file : ℕ → Text
  public_file epoch = codes "epoch-" ++ decimal epoch ++ codes ".json"

  split_path :
      (p : ParticipantStore V) (key_id : Text) (epoch : ℕ)
      → public_path bytes D V formats p key_id epoch
        ≡ part_path p key_id ++ (public_file epoch ∷ [])
  unfolding public_path part_path public_file
  split_path p key_id epoch =
      sym (append_assoc p.root (codes "pubkey" ∷ key_id ∷ []) (public_file epoch ∷ []))

  temp_ne :
      (p : ParticipantStore V) (key_id : Text) (epoch : ℕ)
      → part_path p key_id ++ (temp_name p.public_suffix ∷ [])
        ≢ public_path bytes D V formats p key_id epoch
  unfolding public_file temp_name
  temp_ne p key_id epoch e =
      let (_, names) =
        append_injective (part_path p key_id) (part_path p key_id) refl
          (e ∙ split_path p key_id epoch) in
      head_ne _ _ _ _ (λ q. omega arith) (cons_injective names).0

  -- What is stored of the group, as it is read in a later state.
  abbrev pub Holds : ParticipantStore V → Text → ℕ → Group → List ℕ → Type 0
  Holds p key_id epoch group content =
      (e : PubkeyEnvelope) × (formats.envelope_format.from content ≡ some e)
      × (decode_package formats.group_format.to formats.group_format.from e ≡ ok group)

  module _ (groups : ReadsBack formats.group_format) (writes : WritesBytes formats.group_format)
      (envelopes : ReadsBack formats.envelope_format) where
    put_public_envelope-Holds :
        (p : ParticipantStore V) (key_id : Text) (epoch : ℕ) (group : Group) (s s' : D.State)
        → put_public_envelope bytes D V formats p key_id epoch group s ≡ (ok tt, s')
        → (content : List ℕ) × (D.read (public_path bytes D V formats p key_id epoch) s'
            ≡ ok content)
          × Holds p key_id epoch group content
    unfolding put_public_envelope parent_of part_path
    put_public_envelope-Holds p key_id epoch group s s' h =
        let path = public_path bytes D V formats p key_id epoch in
        let up : parent path ≡ some (part_path p key_id) =
          ap parent (split_path p key_id epoch)
          ∙ parent-append (part_path p key_id) (public_file epoch) in
        let made = create_dir_secure D (part_path p key_id) s in
        elim (Result-cases
          (from_package formats.group_format.to formats.group_format.from key_id epoch group)) [
            | inr (e, q) ↦ absurd (ground arith)
            | inl (envelope, q) ↦ elim (Option-cases (formats.envelope_format.to envelope)) [
              | inl r ↦ absurd (ground arith)
              | inr (content, r) ↦ elim (Result-cases made.0) [
                | inr (e, t) ↦ absurd (ground arith)
                | inl (u, t) ↦
                    let out = write_atomic D p.public_suffix path content made.1 in
                    let wrote : out ≡ (ok tt, s') = ground arith in
                    elim (write_atomic_lem D law p.public_suffix (part_path p key_id) path content
                      made.1 up (temp_ne p key_id epoch)) [
                        | inr (e, f, _) ↦ absurd (ground arith)
                        | inl f ↦ (
                          content,
                          ap (λ w. D.read path w.1) (sym wrote) ∙ f,
                          (
                            envelope,
                            envelopes envelope content r,
                            decode_package-from_package formats.group_format key_id epoch group
                                envelope groups writes q,
                          ),
                        )
                      ]
              ]
            ]
          ]

    -- The public artifact of a stored share holds its group.
    pub put_share-Holds :
        (p : ParticipantStore V) (tag : ShareTag SeatId) (kp : KeyPackage) (group : Group)
        (state : ShareState) (s s' : D.State)
        → put_share bytes D V formats p tag kp group state s ≡ (ok tt, s')
        → (content : List ℕ) × (D.read (public_path bytes D V formats p tag.key_id tag.epoch) s'
            ≡ ok content)
          × Holds p tag.key_id tag.epoch group content
    unfolding put_share public_path temp_name
    put_share-Holds p tag kp group state s s' h = elim (Result-cases V.passphrase) [
      | inr (e, q) ↦ absurd (ground arith)
      | inl (secret, q) ↦
          let path = public_path bytes D V formats p tag.key_id tag.epoch in
          let first = put_public_envelope bytes D V formats p tag.key_id tag.epoch group s in
          elim (Result-cases first.0) [
            | inr (e, r) ↦ absurd (ground arith)
            | inl (u, r) ↦
                let (content, there, holds) =
                  put_public_envelope-Holds p tag.key_id tag.epoch group s first.1 (ground arith) in
                let second = put_ciphertext bytes D V formats p tag secret kp first.1 in
                let kept =
                  share-keeps bytes D V formats law p tag secret kp path first.1 (ok content)
                    (λ rest. parts_apart p.root _ _ rest _ (head_ne _ _ _ _ (λ q. omega arith)))
                    (λ below s.
                      create_dir-keeps bytes D V law (p.root ++ codes "shares" ∷ below) path s
                        content)
                    there in
                elim (Result-cases second.0) [
                  | inr (e, t) ↦ absurd (ground arith)
                  | inl (v, t) ↦
                      let still =
                        index-keeps bytes D V formats law p tag state path second.1 (ok content)
                          (parts_apart p.root _ _ [] _ (head_ne _ _ _ _ (λ q. omega arith)))
                          (parts_apart p.root _ _ [] _ (head_ne _ _ _ _ (λ q. omega arith)))
                          (λ s. create_dir-keeps bytes D V law p.root path s content) kept in
                      (content, ground arith, holds)
                ]
          ]
    ]
