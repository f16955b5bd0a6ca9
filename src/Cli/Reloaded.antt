-- ===== src/Cli/Reloaded.antt =====
-- From a stored key generation to a signing run: the shares that `persist_dkg_shares` stores are those
-- that `load_persisted_shares` loads.
mod Seats
mod Roots
use cheget.Base.{
  ℕ, ◌+◌, ◌<◌, ◌≤◌, ◌^◌, ◌≡◌, ◌≢◌, ◌⊎◌, inl, inr, refl, sym, ap, ◌∙◌, Option, none, some, List, [],
  ◌∷◌, ◌++◌, Text, codes, In, keep, length, length-take, take, get_elem?, zero, suc, Result, ok,
  err, map_err, Result-cases, Option-cases, Bool-cases, arith, ltb, ◌==◌,
}
use mathlib.Core.List.{append_assoc}
use mathlib.Core.Path.{ap₂, subst}
use cheget.Base.Names.{is_safe_name}
use cheget.Base.Decimal.{padded}
use cheget.Base.OrdMap.{Map, Ascends, get, insert, get-insert, length-insert_new, place-injective}
use cheget.Base.Sorted.{Pairwise, Pairwise-take, In-take}
use cheget.Crypto.Frost.{Frost}
use cheget.Crypto.Keygen.{run_inprocess_dkg_with_rng}
use cheget.Crypto.Keygen.Ascending.{run_inprocess_dkg_with_rng-Ascends}
use cheget.Crypto.Types
use cheget.Crypto.Types.{genesis}
use cheget.Store.Errors.{IoKind, not_found}
use cheget.Store.Disk.{FilePath, Disk, IsDisk}
use cheget.Store.Vault.{Vault, Unseals}
use cheget.Store.Manifest.{active}
use cheget.Store.Manifest.Json
use cheget.Store.Checkpoint.{ReadsBack}
use cheget.Store.Participant.{
  ShareTag, ParticipantStore, Formats, manifest_path, share_path, public_path, load_manifest,
  put_share, load_share, load_only_active, load_public_envelope,
}
use cheget.Store.Participant.Laws.{load_share-put_share}
use cheget.Store.Participant.Frame.{Outside, Steady, Steady-ok, Steady-missing, put_share-keeps}
use cheget.Store.Participant.Active.{ReadsSeats, put_share-new}
use cheget.Store.Participant.Public.{WritesBytes, Holds, put_share-Holds}
use cheget.Cli.Keygen.{
  Draws, resolved, seat_root, seat_store, active_tag, put_seats, run_inprocess_dkg,
  persist_dkg_shares,
}
use cheget.Cli.Keygen.Stored.{roots_apart, load_share-frame, put_seats-keeps, first_stored}
use cheget.Cli.Sign.{
  root_store, load_root, load_roots, load_group, load_selected, load_persisted_shares, seat_roots,
  select_roots,
}
use cheget.Cli.Reloaded.Seats.{seat_name, IsNew, Seated, seats-Seated}
use cheget.Cli.Reloaded.Roots.{Names, Past, roots_loaded, selected_loaded, get-nil}

module _ (F : Frost) (bytes : F.Identifier → List ℕ) (from_bytes : List ℕ → Option F.Identifier)
    (D : Disk) (V : Vault) (formats : Formats F.KeyPackage F.PublicKeyPackage) (draws : ℕ → Draws V)
    (unlock : Draws V) (read_dir : FilePath → D.State → Result IoKind (List Text))
    (law : IsDisk D) where
  open F use {Identifier, KeyPackage, PublicKeyPackage}

  module _ (unseals : Unseals V) (back : ReadsBack formats.share_format)
      (manifests : Json.ReadsBack formats.manifest_format.to formats.manifest_format.from)
      (seats : ReadsSeats bytes from_bytes) (groups : ReadsBack formats.group_format)
      (writes : WritesBytes formats.group_format)
      (envelopes : ReadsBack formats.envelope_format) where
    run_inprocess_dkg-Ascends :
        (split2 : List (Identifier × F.Round1Secret) → List (List (Identifier × F.Round1Secret)))
        (split3 : List (Identifier × F.Round2Secret) → List (List (Identifier × F.Round2Secret)))
        (t n : ℕ) (rng : F.Rng) (shares : Map Identifier KeyPackage) (group : PublicKeyPackage)
        → (run_inprocess_dkg F bytes D V formats draws split2 split3 t n rng).0 ≡ ok (shares, group)
        → Ascends ⦃r = F.ranked⦄ shares
    unfolding run_inprocess_dkg
    run_inprocess_dkg-Ascends split2 split3 t n rng shares group h =
        let out = run_inprocess_dkg_with_rng F split2 split3 t n rng in
        elim (Option-cases out.0) [
          | inl p ↦ absurd (ground arith)
          | inr (r, p) ↦ elim (Result-cases r) [
            | inr (e, q) ↦ absurd (ground arith)
            | inl (made, q) ↦
                run_inprocess_dkg_with_rng-Ascends F split2 split3 t n rng shares group
                  (ground arith)
          ]
        ]

    -- What a successful stored key generation did.
    persist-put_seats :
        (split2 : List (Identifier × F.Round1Secret) → List (List (Identifier × F.Round1Secret)))
        (split3 : List (Identifier × F.Round2Secret) → List (List (Identifier × F.Round2Secret)))
        (base : FilePath) (t n : ℕ) (rng : F.Rng) (secret : V.Secret)
        (shares : Map Identifier KeyPackage) (group : PublicKeyPackage) (s s' : D.State)
        → V.passphrase ≡ ok secret
        → persist_dkg_shares F bytes D V formats draws split2 split3 base t n rng s
          ≡ (ok (shares, group), s')
        → (put_seats F bytes D V formats draws secret base group 1 shares s ≡ (ok tt, s'))
          × Ascends ⦃r = F.ranked⦄ shares
    unfolding persist_dkg_shares
    persist-put_seats split2 split3 base t n rng secret shares group s s' p h =
        let dkg = run_inprocess_dkg F bytes D V formats draws split2 split3 t n rng in
        elim (Result-cases dkg.0) [
          | inr (e, r) ↦ absurd (ground arith)
          | inl ((made, key), r) ↦
              let put = put_seats F bytes D V formats draws secret base key 1 made s in
              elim (Result-cases put.0) [
                | inr (e, q) ↦ absurd (ground arith)
                | inl (u, q) ↦
                    let same : made ≡ shares = ground arith in
                    (
                      ground arith,
                      subst (λ m. Ascends ⦃r = F.ranked⦄ m) same
                          (run_inprocess_dkg-Ascends split2 split3 t n rng made key r),
                    )
              ]
        ]

    -- After a successful `persist_dkg_shares` on a disk on which no seat below the base had an
    -- index, `load_persisted_shares` succeeds for every positive threshold up to the number of the
    -- seat roots that a directory listing shows, where these are distinct and all of the key
    -- generation: it changes nothing, and gives the group and as many shares as the threshold, each
    -- one that the key generation returned; where there are fewer than 2 ^ 16 shares, and the disk,
    -- the encryption and the formats do what they document.
    pub load_persisted_shares-persist_dkg_shares :
        (split2 : List (Identifier × F.Round1Secret) → List (List (Identifier × F.Round1Secret)))
        (split3 : List (Identifier × F.Round2Secret) → List (List (Identifier × F.Round2Secret)))
        (base : FilePath) (t n t' : ℕ) (rng : F.Rng) (secret : V.Secret)
        (shares : Map Identifier KeyPackage) (group : PublicKeyPackage) (s s' : D.State)
        (names : List Text)
        → V.passphrase ≡ ok secret
        → length shares < 2 ^ 16
        → ((k : ℕ)
            → 1 ≤ k
            → k < 1 + length shares
            → IsNew F bytes from_bytes D V formats draws unlock read_dir law secret base k s)
        → persist_dkg_shares F bytes D V formats draws split2 split3 base t n rng s
          ≡ (ok (shares, group), s')
        → read_dir base s' ≡ ok names
        → ((name : Text)
            → In name (seat_roots names)
            → (j : ℕ) × (j < length shares) × (name ≡ seat_name (1 + j)))
        → Pairwise ◌≢◌ (seat_roots names)
        → 0 < t'
        → t' ≤ length (seat_roots names)
        → (found : Map Identifier KeyPackage) × (load_persisted_shares F bytes from_bytes D V
              formats unlock read_dir base t' s'
            ≡ (ok (found, group), s'))
          × (length found ≡ t')
          × ((seat : Identifier) (kp : KeyPackage)
              → get ⦃r = F.ranked⦄ seat found ≡ some kp
              → (j : ℕ) × (get_elem? shares j ≡ some (seat, kp)))
    unfolding load_persisted_shares select_roots
    load_persisted_shares-persist_dkg_shares split2 split3 base t n t' rng secret shares group s s'
          names p l new h listed all apart pos few =
        let (stored, up) =
          persist-put_seats split2 split3 base t n rng secret shares group s s' p h in
        let known : (name : Text)
            → In name (seat_roots names)
            → Names F bytes from_bytes D V formats draws unlock read_dir law secret base group
                shares s' name =
          λ name i.
            let (j, below, e) = all name i in
            let (seat, kp, g, seated) =
              seats-Seated F bytes from_bytes D V formats draws unlock read_dir law unseals back
                manifests seats groups writes envelopes secret base group 1 shares s s'
                (omega arith) new stored j (1 + j) refl below in
            (j, seat, kp, e, g, seated) in
        let first = take t' (seat_roots names) in
        let (found, loads, size, from) =
          roots_loaded F bytes from_bytes D V formats draws unlock read_dir law secret base group
            shares s' first [] up (Pairwise-take ◌≢◌ t' (seat_roots names) apart)
            (λ name i. known name (In-take t' name (seat_roots names) i))
            (λ seat kp g.
              absurd
                (get-nil F bytes from_bytes D V formats draws unlock read_dir law seat kp g)) in
        let many : length first ≡ t' = omega (arith, length-take t' (seat_roots names)) in
        let whole =
          selected_loaded F bytes from_bytes D V formats draws unlock read_dir law secret base group
            shares s' first found p (omega arith)
            (λ name i. known name (In-take t' name (seat_roots names) i)) loads in
        (found, ground arith, omega arith, λ seat kp g. let (j, g', _) = from seat kp g in (j, g'))
