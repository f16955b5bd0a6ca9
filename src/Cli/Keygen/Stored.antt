-- ===== src/Cli/Keygen/Stored.antt =====
-- Every share that a stored key generation returns can be loaded below the root of its seat.
use cheget.Base.{
  ℕ, ◌+◌, ◌<◌, ◌≤◌, ◌^◌, ◌≡◌, ◌≢◌, inl, inr, refl, sym, ap, ◌∙◌, some, List, [], ◌∷◌, ◌++◌, codes,
  length, get_elem?, zero, suc, Result, ok, Result-cases, arith, append_injective, cons_injective,
}
use mathlib.Core.List.{append_assoc}
use mathlib.Core.Path.{subst}
use cheget.Base.Decimal.{padded, padded_injective}
use cheget.Base.OrdMap.{Map}
use cheget.Crypto.Frost.{Frost}
use cheget.Store.Disk.{FilePath, Disk, IsDisk}
use cheget.Store.Errors.{IoKind}
use cheget.Store.Vault.{Vault, Unseals}
use cheget.Store.Manifest.{active}
use cheget.Store.Checkpoint.{ReadsBack}
use cheget.Store.Participant.{
  ShareTag, ParticipantStore, Formats, share_path, put_share, load_share,
}
use cheget.Store.Participant.Laws.{load_share-put_share}
use cheget.Store.Participant.Frame.{Outside, Steady, Steady-ok, put_share-keeps}
use cheget.Cli.Keygen.{
  Draws, resolved, seat_root, seat_store, active_tag, put_seats, run_inprocess_dkg,
  persist_dkg_shares,
}

-- The roots of two seats have no file in common.
pub roots_apart :
    (base rest : FilePath) (i j : ℕ)
    → i < 10 ^ 20
    → j < 10 ^ 20
    → i ≢ j
    → Outside (seat_root base i) (seat_root base j ++ rest)
unfolding seat_root
roots_apart base rest i j p q n more e =
    let (_, tails) = append_injective base base refl (
      sym (append_assoc base ((codes "seat-" ++ padded i) ∷ []) more)
      ∙ e
      ∙ append_assoc base ((codes "seat-" ++ padded j) ∷ []) rest) in
    let (_, digits) =
      append_injective (codes "seat-") (codes "seat-") refl (cons_injective tails).0 in
    n (padded_injective i j p q digits)

module _ {SeatId KeyPackage Group : Type 0} (bytes : SeatId → List ℕ) (D : Disk) (V : Vault)
    (formats : Formats KeyPackage Group) where
  -- A share that can be loaded stays so while its file does.
  pub load_share-frame :
      (p : ParticipantStore V) (tag : ShareTag SeatId) (kp : KeyPackage) (s : D.State)
      → load_share bytes D V formats p tag s ≡ (ok kp, s)
      → (content : List ℕ) × (D.read (share_path bytes D V formats p tag) s ≡ ok content)
        × ((s' : D.State)
            → D.read (share_path bytes D V formats p tag) s' ≡ ok content
            → load_share bytes D V formats p tag s' ≡ (ok kp, s'))
  unfolding load_share
  load_share-frame p tag kp s h =
      let path = share_path bytes D V formats p tag in
      elim (Result-cases V.passphrase) [
        | inr (e, q) ↦ absurd (ground arith)
        | inl (secret, q) ↦ elim (Result-cases (D.read path s)) [
          | inr (e, r) ↦ absurd (ground arith)
          | inl (content, r) ↦ (content, r, λ s' k. ground arith)
        ]
      ]

module _ (F : Frost) (bytes : F.Identifier → List ℕ) (D : Disk) (V : Vault)
    (formats : Formats F.KeyPackage F.PublicKeyPackage) (draws : ℕ → Draws V) (law : IsDisk D) where
  open F use {Identifier, KeyPackage, PublicKeyPackage}

  abbrev pub Steadily : ℕ → V.Secret → FilePath → FilePath → Result IoKind (List ℕ) → Type 0
  Steadily k secret base q x = Steady bytes D (resolved V secret) formats law (seat_root base k) q x

  pub put_seats-keeps :
      (secret : V.Secret) (base : FilePath) (group : PublicKeyPackage) (i : ℕ)
      (shares : Map Identifier KeyPackage) (q : FilePath) (s : D.State) (x : Result IoKind (List ℕ))
      → ((k : ℕ) → i ≤ k → k < i + length shares → Outside (seat_root base k) q)
      → ((k : ℕ) → i ≤ k → k < i + length shares → Steadily k secret base q x)
      → D.read q s ≡ x
      → D.read q (put_seats F bytes D V formats draws secret base group i shares s).1 ≡ x
  unfolding put_seats seat_store
  put_seats-keeps secret base group i [] q s x out steady h = h
  put_seats-keeps secret base group i ((seat, kp) ∷ rest) q s x out steady h =
      let store = seat_store F bytes D V formats draws secret base i in
      let one =
        put_share bytes D (resolved V secret) formats store (active_tag seat) kp group active s in
      let kept =
        put_share-keeps bytes D (resolved V secret) formats law store (active_tag seat) kp group
          active q s x (out i (omega arith) (omega arith)) (steady i (omega arith) (omega arith))
          h in
      let more =
        put_seats-keeps secret base group (i + 1) rest q one.1 x
          (λ k a b. out k (omega arith) (omega arith))
          (λ k a b. steady k (omega arith) (omega arith)) kept in
      elim (Result-cases one.0) [ inr (e, r) ↦ ground arith | inl (u, r) ↦ ground arith ]

  pub apart_share :
      (secret : V.Secret) (base : FilePath) (i k : ℕ) (seat : Identifier)
      → i < 10 ^ 20
      → k < 10 ^ 20
      → k ≢ i
      → Outside (seat_root base k) (
          share_path bytes D
            (resolved V secret)
            formats
            (seat_store F bytes D V formats draws secret base i)
            (active_tag seat))
  unfolding share_path seat_store
  apart_share secret base i k seat p q n = roots_apart base _ k i q p n

  module _ (unseals : Unseals V) (back : ReadsBack formats.share_format) where
    -- The loop has stored its first share and then the others.
    pub first_stored :
        (secret : V.Secret) (base : FilePath) (group : PublicKeyPackage) (i : ℕ) (seat : Identifier)
        (kp : KeyPackage) (rest : Map Identifier KeyPackage) (s s' : D.State)
        → put_seats F bytes D V formats draws secret base group i ((seat, kp) ∷ rest) s
          ≡ (ok tt, s')
        → (s1 : D.State) × (put_share bytes D
              (resolved V secret)
              formats
              (seat_store F bytes D V formats draws secret base i)
              (active_tag seat)
              kp
              group
              active
              s
            ≡ (ok tt, s1))
          × (put_seats F bytes D V formats draws secret base group (i + 1) rest s1 ≡ (ok tt, s'))
    unfolding put_seats
    first_stored secret base group i seat kp rest s s' h =
        let store = seat_store F bytes D V formats draws secret base i in
        let one =
          put_share bytes D (resolved V secret) formats store (active_tag seat) kp group active s in
        elim (Result-cases one.0) [
          | inr (e, r) ↦ absurd (ground arith)
          | inl (u, r) ↦ (one.1, ground arith, ground arith)
        ]

    abbrev Loads : V.Secret → FilePath → ℕ → Identifier → KeyPackage → D.State → Type 0
    Loads secret base m seat kp s =
        load_share bytes D (resolved V secret) formats
          (seat_store F bytes D V formats draws secret base m) (active_tag seat) s
        ≡ (ok kp, s)

    seats_stored :
        (secret : V.Secret) (base : FilePath) (group : PublicKeyPackage) (i : ℕ)
        (shares : Map Identifier KeyPackage) (s s' : D.State)
        → i + length shares < 10 ^ 20
        → put_seats F bytes D V formats draws secret base group i shares s ≡ (ok tt, s')
        → (j m : ℕ) (seat : Identifier) (kp : KeyPackage) → m ≡ i + j
        → get_elem? shares j ≡ some (seat, kp)
        → Loads secret base m seat kp s'
    seats_stored secret base group i [] s s' l h j m seat kp e g = absurd (ground arith)
    seats_stored secret base group i ((seat', kp') ∷ rest) s s' l h (suc j) m seat kp e g =
        let (s1, put, goes) = first_stored secret base group i seat' kp' rest s s' h in
        seats_stored secret base group (i + 1) rest s1 s' (omega arith) goes j m seat kp
          (omega arith) g
    seats_stored secret base group i ((seat', kp') ∷ rest) s s' l h zero m seat kp e g =
        let (s1, put, goes) = first_stored secret base group i seat' kp' rest s s' h in
        let store = seat_store F bytes D V formats draws secret base i in
        let path = share_path bytes D (resolved V secret) formats store (active_tag seat') in
        let loaded =
          load_share-put_share bytes D (resolved V secret) formats law store (active_tag seat') kp'
            group active s s1 unseals back put in
        let (content, there, later) =
          load_share-frame bytes D (resolved V secret) formats store (active_tag seat') kp' s1
            loaded in
        let kept =
          put_seats-keeps secret base group (i + 1) rest path s1 (ok content)
            (λ k a b.
              apart_share secret base i k seat' (omega arith) (omega arith) (λ q. omega arith))
            (λ k a b.
              Steady-ok bytes D (resolved V secret) formats law (seat_root base k) path content)
            there in
        let last = later s' (ap (λ w. D.read path w.1) (sym goes) ∙ kept) in
        let e1 : i ≡ m = omega arith in
        let e2 : seat' ≡ seat = ground arith in
        let e3 : kp' ≡ kp = ground arith in
        subst (λ x. Loads secret base x seat kp s') e1
          (subst (λ x. Loads secret base i x kp s') e2
            (subst (λ x. Loads secret base i seat' x s') e3 last))

    module _
        (split2 : List (Identifier × F.Round1Secret) → List (List (Identifier × F.Round1Secret)))
        (split3 : List (Identifier × F.Round2Secret)
          → List (List (Identifier × F.Round2Secret))) where
      -- Every share that a successful `persist_dkg_shares` returns can be loaded, with the
      -- passphrase that was asked for once, from the store below the root of its seat, numbered by
      -- its place among the shares, where the shares are fewer than 2 ^ 16 and the disk, the
      -- encryption and the format of a share do what they document.
      pub persist_dkg_shares-stored :
          (base : FilePath) (t n : ℕ) (rng : F.Rng) (secret : V.Secret)
          (shares : Map Identifier KeyPackage) (group : PublicKeyPackage) (s s' : D.State)
          → persist_dkg_shares F bytes D V formats draws split2 split3 base t n rng s
            ≡ (ok (shares, group), s')
          → V.passphrase ≡ ok secret
          → length shares < 2 ^ 16
          → (j : ℕ) (seat : Identifier) (kp : KeyPackage) → get_elem? shares j ≡ some (seat, kp)
          → load_share bytes D
              (resolved V secret)
              formats
              (seat_store F bytes D V formats draws secret base (1 + j))
              (active_tag seat)
              s'
            ≡ (ok kp, s')
      unfolding persist_dkg_shares
      persist_dkg_shares-stored base t n rng secret shares group s s' h p l j seat kp g =
          let dkg = run_inprocess_dkg F bytes D V formats draws split2 split3 t n rng in
          elim (Result-cases dkg.0) [
            | inr (e, r) ↦ absurd (ground arith)
            | inl ((found, key), r) ↦
                let put = put_seats F bytes D V formats draws secret base key 1 found s in
                elim (Result-cases put.0) [
                  | inr (e, q) ↦ absurd (ground arith)
                  | inl (u, q) ↦
                      let same : found ≡ shares = ground arith in
                      let stored : put ≡ (ok tt, s') = ground arith in
                      let all =
                        subst
                          (λ w.
                            put_seats F bytes D V formats draws secret base key 1 w s ≡ (ok tt, s'))
                          same stored in
                      seats_stored secret base key 1 shares s s' (omega arith) all j (1 + j) seat kp
                        refl g
                ]
          ]
