-- ===== src/Store/Participant/Active.antt =====
-- The sole share of a new store is the one that `load_only_active` finds.
use cheget.Base.{
  ℕ, ◌≡◌, ◌≢◌, inl, inr, refl, sym, ap, ◌∙◌, Option, some, List, [], ◌∷◌, ◌++◌, Text, codes, ok,
  err, Result-cases, arith, append_injective, cons_injective,
}
use mathlib.Core.List.{append_assoc}
use cheget.Base.Hex.Laws.{AreBytes, decode_chunks-hex_encode, length-hex_encode}
use cheget.Crypto.Types
use cheget.Store.Errors.{not_found}
use cheget.Store.Disk.{parent, Disk, IsDisk}
use cheget.Store.Atomic.{create_dir_secure, write_atomic}
use cheget.Store.Atomic.Laws.{write_atomic_lem}
use cheget.Store.Vault.{Vault}
use cheget.Store.Manifest.{
  Manifest, active, new, seat_hex, new_entry, add_entry, replace_first, to_json_bytes,
  from_json_bytes,
}
use cheget.Store.Manifest.Json
use cheget.Store.Manifest.Json.{from_json_bytes-to_json_bytes}
use cheget.Store.Checkpoint.RoundTrip.{parent-append}
use cheget.Store.Participant.{
  ShareTag, ParticipantStore, Formats, is_active, seat_from_hex, manifest_path, load_manifest,
  put_public_envelope, put_ciphertext, put_index, put_share, load_share, load_only_active,
}
use cheget.Store.Participant.IndexLast.{temp_ne-manifest_path}
use cheget.Store.Participant.Frame.{
  OutsideIn, SteadyIn, create_dir-missing, public-keeps, share-keeps,
}

part_ne : (c : ℕ) (rest : Text) → c ≢ b'm' → (c ∷ rest) ≢ codes "manifest.json"
part_ne c rest n e = n (cons_injective e).0

-- An identifier is read back from its canonical bytes.
abbrev pub ReadsSeats : {SeatId : Type 0} → (SeatId → List ℕ) → (List ℕ → Option SeatId) → Type 0
ReadsSeats {SeatId} bytes from_bytes =
    (seat : SeatId) → AreBytes (bytes seat) × (from_bytes (bytes seat) ≡ some seat)

module _ {SeatId KeyPackage Group : Type 0} (bytes : SeatId → List ℕ)
    (from_bytes : List ℕ → Option SeatId) (D : Disk) (V : Vault)
    (formats : Formats KeyPackage Group) (law : IsDisk D)
    (manifests : Json.ReadsBack formats.manifest_format.to formats.manifest_format.from)
    (seats : ReadsSeats bytes from_bytes) where
  seat_from_hex-seat_hex :
      (seat : SeatId) → seat_from_hex from_bytes (seat_hex bytes seat) ≡ ok seat
  unfolding seat_from_hex seat_hex
  seat_from_hex-seat_hex seat = ground (
    arith,
    length-hex_encode (bytes seat),
    decode_chunks-hex_encode (bytes seat) (seats seat).0,
    (seats seat).1,
  )

  -- The index with the one entry.
  abbrev sole : ParticipantStore V → ShareTag SeatId → Manifest
  sole p tag = record new {
    shares = new_entry bytes tag.key_id tag.epoch tag.seat active p.now_unix ∷ [];
  }

  -- The index of a new store, once it was written.
  parent-manifest_path :
      (p : ParticipantStore V) → parent (manifest_path bytes D V formats p) ≡ some p.root
  unfolding manifest_path
  parent-manifest_path p = parent-append p.root (codes "manifest.json")

  put_index-new :
      (p : ParticipantStore V) (tag : ShareTag SeatId) (s s' : D.State)
      → D.read (manifest_path bytes D V formats p) s ≡ err not_found
      → put_index bytes D V formats p tag active s ≡ (ok tt, s')
      → (index : List ℕ) × (D.read (manifest_path bytes D V formats p) s' ≡ ok index)
        × (from_json_bytes formats.manifest_format.to formats.manifest_format.from index
            ≡ ok (sole p tag))
  unfolding put_index load_manifest new add_entry replace_first
  put_index-new p tag s s' missing h =
      let path = manifest_path bytes D V formats p in
      let made = create_dir_secure D p.root s in
      let to = formats.manifest_format.to in
      let from = formats.manifest_format.from in
      elim (Result-cases made.0) [
        | inr (e, q) ↦ absurd (ground arith)
        | inl (u, q) ↦ elim (Result-cases (to_json_bytes to from (sole p tag))) [
          | inr (e, r) ↦ absurd (ground arith)
          | inl (content, r) ↦
              let out = write_atomic D p.manifest_suffix path content made.1 in
              let wrote : out ≡ (ok tt, s') = ground arith in
              elim (write_atomic_lem D law p.manifest_suffix p.root path content made.1
                (parent-manifest_path p)
                (temp_ne-manifest_path bytes D V formats p.manifest_suffix p.root p)) [
                  | inr (e, f, _) ↦ absurd (ground arith)
                  | inl f ↦ (
                    content,
                    ap (λ w. D.read path w.1) (sym wrote) ∙ f,
                    from_json_bytes-to_json_bytes to from (sole p tag) content manifests r,
                  )
                ]
        ]
      ]

  -- The index is in none of the other parts of the root.
  apart_manifest :
      (part : Text) (p : ParticipantStore V)
      → part ≢ codes "manifest.json"
      → OutsideIn part p.root (manifest_path bytes D V formats p)
  unfolding manifest_path
  apart_manifest part p n rest e =
      let (_, tails) = append_injective p.root p.root refl e in n (cons_injective tails).0

  steady_manifest :
      (part : Text) (p : ParticipantStore V)
      → part ≢ codes "manifest.json"
      → SteadyIn bytes D V formats law part p.root
          (manifest_path bytes D V formats p)
          (err not_found)
  unfolding manifest_path
  steady_manifest part p n below s h =
      create_dir-missing bytes D V formats law (p.root ++ part ∷ below)
        (manifest_path bytes D V formats p) s
        (λ rest e.
          let (_, tails) =
            append_injective p.root p.root refl
              (sym (append_assoc p.root (codes "manifest.json" ∷ []) rest) ∙ e) in
          n (sym (cons_injective tails).0))
        h

  sole_found :
      (p : ParticipantStore V) (tag : ShareTag SeatId) (kp : KeyPackage) (index : List ℕ)
      (s : D.State)
      → Types.new tag.key_id ≡ ok tag.key_id
      → from_json_bytes formats.manifest_format.to formats.manifest_format.from index
        ≡ ok (sole p tag)
      → D.read (manifest_path bytes D V formats p) s ≡ ok index
      → load_share bytes D V formats p tag s ≡ (ok kp, s)
      → load_only_active bytes D V formats from_bytes p s ≡ (ok (tag.seat, kp), s)
  unfolding load_only_active load_manifest new new_entry is_active
  sole_found p tag kp index s safe reads k l = ground (arith, seat_from_hex-seat_hex tag.seat)

  -- What a later state must hold for the share to be found: the index and the share.
  pub put_share-new :
      (p : ParticipantStore V) (tag : ShareTag SeatId) (kp : KeyPackage) (group : Group)
      (s s' : D.State)
      → Types.new tag.key_id ≡ ok tag.key_id
      → D.read (manifest_path bytes D V formats p) s ≡ err not_found
      → put_share bytes D V formats p tag kp group active s ≡ (ok tt, s')
      → (index : List ℕ) × (D.read (manifest_path bytes D V formats p) s' ≡ ok index)
        × ((s'' : D.State)
            → D.read (manifest_path bytes D V formats p) s'' ≡ ok index
            → load_share bytes D V formats p tag s'' ≡ (ok kp, s'')
            → load_only_active bytes D V formats from_bytes p s'' ≡ (ok (tag.seat, kp), s''))
  unfolding put_share
  put_share-new p tag kp group s s' safe missing h = elim (Result-cases V.passphrase) [
    | inr (e, q) ↦ absurd (ground arith)
    | inl (secret, q) ↦
        let path = manifest_path bytes D V formats p in
        let first = put_public_envelope bytes D V formats p tag.key_id tag.epoch group s in
        let left =
          public-keeps bytes D V formats law p tag.key_id tag.epoch group path s (err not_found)
            (apart_manifest (codes "pubkey") p (part_ne _ _ (λ e. omega arith)))
            (steady_manifest (codes "pubkey") p (part_ne _ _ (λ e. omega arith))) missing in
        elim (Result-cases first.0) [
          | inr (e, r) ↦ absurd (ground arith)
          | inl (u, r) ↦
              let second = put_ciphertext bytes D V formats p tag secret kp first.1 in
              let still =
                share-keeps bytes D V formats law p tag secret kp path first.1 (err not_found)
                  (apart_manifest (codes "shares") p (part_ne _ _ (λ e. omega arith)))
                  (steady_manifest (codes "shares") p (part_ne _ _ (λ e. omega arith))) left in
              elim (Result-cases second.0) [
                | inr (e, t) ↦ absurd (ground arith)
                | inl (v, t) ↦
                    let third = put_index bytes D V formats p tag active second.1 in
                    let wrote : third ≡ (ok tt, s') = ground arith in
                    let (index, there, reads) = put_index-new p tag second.1 s' still wrote in
                    (index, there, λ s'' k l. sole_found p tag kp index s'' safe reads k l)
              ]
        ]
  ]
