-- ===== src/Cli/Loaded.antt =====
-- Where the shares of `load_persisted_shares` come from.
use cheget.Base.{
  ℕ, ◌≡◌, ◌≤◌, ◌⊎◌, inl, inr, refl, sym, ap, ◌∙◌, Option, some, List, [], ◌∷◌, ◌++◌, Text, In, take,
  length, ltb, Result, ok, Result-cases, Bool-cases, Option-cases, find, ◌==◌, arith,
}
use mathlib.Core.Path.{ap₂, subst}
use cheget.Base.OrdMap.{Map, get, insert, get-insert}
use cheget.Store.Vault.{decrypt_secret}
use cheget.Crypto.Frost.{Frost}
use cheget.Base.Effects.{Keeps, Keeps->>=}
use cheget.Crypto.Types
use cheget.Crypto.Types.{genesis}
use cheget.Store.Errors.{IoKind}
use cheget.Store.Disk.{FilePath, Disk}
use cheget.Store.Vault.{Vault}
use cheget.Store.Participant.{
  ShareTag, ParticipantStore, Formats, is_active, seat_from_hex, load_only_active, load_manifest,
  load_share, share_path, load_public_envelope, public_path,
}
use cheget.Store.Participant.Laws.{load_manifest-state}
use cheget.Cli.Keygen.{Draws, resolved}
use cheget.Cli.Sign.{
  root_store, load_root, load_roots, load_group, load_selected, load_persisted_shares, seat_roots,
  select_roots,
}

module _ (F : Frost) (bytes : F.Identifier → List ℕ) (from_bytes : List ℕ → Option F.Identifier)
    (D : Disk) (V : Vault) (formats : Formats F.KeyPackage F.PublicKeyPackage) (draws : Draws V)
    (read_dir : FilePath → D.State → Result IoKind (List Text)) where
  open F use {Identifier, KeyPackage}

  -- A root among those named holds the share.
  abbrev From : V.Secret → FilePath → List Text → D.State → Identifier → KeyPackage → Type 0
  From secret base names s seat kp =
      (name : Text) × In name names
      × ((load_root F bytes from_bytes D V formats draws read_dir secret base name s).0
          ≡ ok (seat, kp))

  load_share-state :
      {W : Vault} (p : ParticipantStore W) (tag : ShareTag Identifier) (s : D.State)
      → (load_share bytes D W formats p tag s).1 ≡ s
  unfolding load_share
  load_share-state {W} p tag s = elim (Result-cases W.passphrase) [
    | inr (e, q) ↦ ground arith
    | inl (secret, q) ↦ elim (Result-cases (D.read (share_path bytes D W formats p tag) s)) [
      | inr (e, r) ↦ ground arith
      | inl (content, r) ↦ elim (Result-cases (decrypt_secret W secret content)) [
        | inr (e, t) ↦ ground arith
        | inl (plaintext, t) ↦ ground arith
      ]
    ]
  ]

  -- Loading changes nothing.
  load_root-state :
      (secret : V.Secret) (base : FilePath) (name : Text) (s : D.State)
      → (load_root F bytes from_bytes D V formats draws read_dir secret base name s).1 ≡ s
  unfolding load_only_active
  load_root-state secret base name s =
      let V' = resolved V secret in
      let p =
        root_store F bytes from_bytes D V formats draws read_dir secret (base ++ (name ∷ [])) in
      let loaded = load_manifest bytes D V' formats p s in
      let still = load_manifest-state bytes D V' formats p s in
      elim (Result-cases loaded.0) [
        | inr (e, q) ↦ ground arith
        | inl (index, q) ↦ elim (Option-cases (find (λ e. is_active e.state) index.shares)) [
          | inl r ↦ ground arith
          | inr (entry, r) ↦ elim (Result-cases (Types.new entry.key_id)) [
            | inr (e, t) ↦ ground arith
            | inl (key_id, t) ↦ elim (Result-cases (seat_from_hex from_bytes entry.seat)) [
              | inr (e, u) ↦ ground arith
              | inl (seat, u) ↦
                  let tag : ShareTag Identifier = record {
                    key_id = key_id;
                    epoch = entry.epoch;
                    seat = seat;
                  } in
                  let quiet = load_share-state {W = V'} p tag loaded.1 in
                  elim (Result-cases (load_share bytes D V' formats p tag loaded.1).0) [
                    | inr (e, v) ↦ ground arith
                    | inl (kp, v) ↦ ground arith
                  ]
            ]
          ]
        ]
      ]

  load_roots-state :
      (secret : V.Secret) (base : FilePath) (names : List Text) (acc : Map Identifier KeyPackage)
      → Keeps
          (λ s. s)
          (load_roots F bytes from_bytes D V formats draws read_dir secret base names acc)
  unfolding load_roots
  load_roots-state secret base [] acc s = refl
  load_roots-state secret base (name ∷ rest) acc s =
      Keeps->>= (λ s. s) (load_root F bytes from_bytes D V formats draws read_dir secret base name)
        (λ x.
          load_roots F bytes from_bytes D V formats draws read_dir secret base rest
            (insert ⦃r = F.ranked⦄ x.0 x.1 acc))
        (load_root-state secret base name)
        (λ x. load_roots-state secret base rest (insert ⦃r = F.ranked⦄ x.0 x.1 acc)) s

  load_group-state :
      (secret : V.Secret) (base : FilePath) (names : List Text)
      → Keeps (λ s. s) (load_group F bytes from_bytes D V formats draws read_dir secret base names)
  unfolding load_group load_public_envelope public_path
  load_group-state secret base [] s = refl
  load_group-state secret base (name ∷ rest) s =
      let p =
        root_store F bytes from_bytes D V formats draws read_dir secret (base ++ (name ∷ [])) in
      let path = public_path bytes D (resolved V secret) formats p Types.active genesis in
      elim (Result-cases (D.read path s)) [
        | inr (e, q) ↦ ground arith
        | inl (content, q) ↦ elim (Option-cases (formats.envelope_format.from content)) [
          | inl r ↦ ground arith
          | inr (e, r) ↦ ground arith
        ]
      ]

  load_selected-state :
      (base : FilePath) (selected : List Text)
      → Keeps (λ s. s) (load_selected F bytes from_bytes D V formats draws read_dir base selected)
  unfolding load_selected
  load_selected-state base selected s = elim (Result-cases V.passphrase) [
    | inr (e, q) ↦ ground arith
    | inl (secret, q) ↦
        let read =
          load_roots F bytes from_bytes D V formats draws read_dir secret base selected [] s in
        let same = load_roots-state secret base selected [] s in
        elim (Result-cases read.0) [
          | inr (e, r) ↦ ground arith
          | inl (found, r) ↦
              let last =
                load_group F bytes from_bytes D V formats draws read_dir secret base selected
                  read.1 in
              let still = load_group-state secret base selected read.1 in
              elim (Result-cases last.0) [ inr (e, t) ↦ ground arith | inl (g, t) ↦ ground arith ]
        ]
  ]

  -- Loading the stored shares changes nothing on the disk, with success or not.
  pub load_persisted_shares-state :
      (base : FilePath) (t : ℕ)
      → Keeps (λ s. s) (load_persisted_shares F bytes from_bytes D V formats draws read_dir base t)
  unfolding load_persisted_shares
  load_persisted_shares-state base t s = elim (Result-cases (read_dir base s)) [
    | inr (e, q) ↦ ground arith
    | inl (names, q) ↦ elim (Result-cases (select_roots t (seat_roots names))) [
      | inr (e, r) ↦ ground arith
      | inl (selected, r) ↦ ground (arith, load_selected-state base selected s)
    ]
  ]

  load_roots-From :
      (secret : V.Secret) (base : FilePath) (names : List Text)
      (acc found : Map Identifier KeyPackage) (s : D.State)
      → (load_roots F bytes from_bytes D V formats draws read_dir secret base names acc s).0
        ≡ ok found
      → (seat : Identifier) (kp : KeyPackage) → get ⦃r = F.ranked⦄ seat found ≡ some kp
      → (get ⦃r = F.ranked⦄ seat acc ≡ some kp) ⊎ From secret base names s seat kp
  unfolding load_roots
  load_roots-From secret base [] acc found s h seat kp g = inl (ground arith)
  load_roots-From secret base (name ∷ rest) acc found s h seat kp g =
      let one = load_root F bytes from_bytes D V formats draws read_dir secret base name s in
      elim (Result-cases one.0) [
        | inr (e, r) ↦ absurd (ground arith)
        | inl ((i, x), r) ↦
            elim (load_roots-From secret base rest (insert ⦃r = F.ranked⦄ i x acc) found one.1
              (ground arith) seat kp g) [
                | inr (n, j, l) ↦
                    let same = load_root-state secret base name s in
                    inr (
                      n,
                      inr j,
                      ap
                            (λ w.
                              (load_root F bytes from_bytes D V formats draws read_dir secret base n
                                w).0)
                            (sym same)
                          ∙ l,
                    )
                | inl old ↦ elim (Bool-cases (F.ranked.rank seat == F.ranked.rank i)) [
                  | inr no_match ↦ inl (ground (arith, get-insert ⦃r = F.ranked⦄ i seat x acc))
                  | inl match ↦
                      let e1 = F.ranked.rank_injective seat i (ground arith) in
                      let e2 : x ≡ kp = ground (arith, get-insert ⦃r = F.ranked⦄ i seat x acc) in
                      inr (
                        name,
                        inl refl,
                        r ∙ ap ok (ap₂ (λ (a : Identifier) (b : KeyPackage). (a, b)) (sym e1) e2),
                      )
                ]
              ]
      ]

  -- Every share that `load_persisted_shares` returns was loaded from one of the first `t` roots, of
  -- which there are enough.
  pub load_persisted_shares-From :
      (base : FilePath) (t : ℕ) (s : D.State) (names : List Text) (secret : V.Secret)
      (shares : Map Identifier KeyPackage) (group : F.PublicKeyPackage)
      → read_dir base s ≡ ok names
      → V.passphrase ≡ ok secret
      → (load_persisted_shares F bytes from_bytes D V formats draws read_dir base t s).0
        ≡ ok (shares, group)
      → (seat : Identifier) (kp : KeyPackage) → get ⦃r = F.ranked⦄ seat shares ≡ some kp
      → (t ≤ length (seat_roots names))
        × ((name : Text) × In name (take t (seat_roots names))
            × ((load_root F bytes from_bytes D V formats draws read_dir secret base name s).0
                ≡ ok (seat, kp)))
  unfolding load_persisted_shares select_roots load_selected get
  load_persisted_shares-From base t s names secret shares group r p h seat kp g =
      let roots = seat_roots names in
      elim (Bool-cases (ltb (length roots) t)) [
        | inl few ↦ absurd (ground arith)
        | inr enough ↦
            let read =
              load_roots F bytes from_bytes D V formats draws read_dir secret base (take t roots) []
                s in
            elim (Result-cases read.0) [
              | inr (e, q) ↦ absurd (ground arith)
              | inl (found, q) ↦
                  let last =
                    load_group F bytes from_bytes D V formats draws read_dir secret base
                      (take t roots) read.1 in
                  elim (Result-cases last.0) [
                    | inr (e, u) ↦ absurd (ground arith)
                    | inl (key, u) ↦
                        let same : found ≡ shares = ground arith in
                        elim (load_roots-From secret base (take t roots) [] found s q seat kp
                          (subst (λ m. get ⦃r = F.ranked⦄ seat m ≡ some kp) (sym same) g)) [
                            | inl none_there ↦ absurd (ground arith)
                            | inr there ↦ (ground arith, there)
                          ]
                  ]
            ]
      ]
