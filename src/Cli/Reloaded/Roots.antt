-- ===== src/Cli/Reloaded/Roots.antt =====
-- The roots of a stored key generation, loaded one after the other.
use cheget.Base.{
  ℕ, ◌+◌, ◌<◌, ◌≡◌, ◌≢◌, inl, inr, refl, sym, ap, ◌∙◌, Option, none, some, List, [], ◌∷◌, Text, In,
  length, get_elem?, Result, ok, Option-cases, Bool-cases, arith, ◌==◌,
}
use mathlib.Core.Path.{ap₂, subst}
use cheget.Base.OrdMap.{Map, Ascends, get, insert, get-insert, length-insert_new, place-injective}
use cheget.Base.Sorted.{Pairwise}
use cheget.Crypto.Frost.{Frost}
use cheget.Store.Errors.{IoKind}
use cheget.Store.Disk.{FilePath, Disk, IsDisk}
use cheget.Store.Vault.{Vault}
use cheget.Store.Participant.{Formats, public_path, load_public_envelope}
use cheget.Cli.Keygen.{Draws, seat_root, seat_store}
use cheget.Cli.Sign.{root_store, load_root, load_roots, load_group, load_selected}
use cheget.Cli.Reloaded.Seats.{seat_name, Seated}

module _ (F : Frost) (bytes : F.Identifier → List ℕ) (from_bytes : List ℕ → Option F.Identifier)
    (D : Disk) (V : Vault) (formats : Formats F.KeyPackage F.PublicKeyPackage) (draws : ℕ → Draws V)
    (unlock : Draws V) (read_dir : FilePath → D.State → Result IoKind (List Text))
    (law : IsDisk D) where
  open F use {Identifier, KeyPackage, PublicKeyPackage}

  -- The roots that are named are those of seats of the key generation.
  abbrev pub Names :
      V.Secret → FilePath → PublicKeyPackage → Map Identifier KeyPackage → D.State → Text → Type 0
  Names secret base group shares s name =
      (j : ℕ) × (seat : Identifier) × (kp : KeyPackage) × (name ≡ seat_name (1 + j))
      × (get_elem? shares j ≡ some (seat, kp))
      × Seated F bytes from_bytes D V formats draws unlock read_dir law secret base group (1 + j)
          seat kp s

  -- What was loaded comes from the key generation, and not from the roots that are left.
  abbrev pub Past : Map Identifier KeyPackage → Map Identifier KeyPackage → List Text → Type 0
  Past shares acc names =
      (seat : Identifier) (kp : KeyPackage)
      → get ⦃r = F.ranked⦄ seat acc ≡ some kp
      → (j : ℕ) × (get_elem? shares j ≡ some (seat, kp)) × (In (seat_name (1 + j)) names → ⊥)

  -- One more root was loaded: its seat is new, and all is as before.
  Past-insert :
      (shares acc : Map Identifier KeyPackage) (j : ℕ) (seat : Identifier) (kp : KeyPackage)
      (name : Text) (rest : List Text)
      → Ascends ⦃r = F.ranked⦄ shares
      → name ≡ seat_name (1 + j)
      → get_elem? shares j ≡ some (seat, kp)
      → (In name rest → ⊥)
      → Past shares acc (name ∷ rest)
      → (get ⦃r = F.ranked⦄ seat acc ≡ none) × Past shares (insert ⦃r = F.ranked⦄ seat kp acc) rest
  Past-insert shares acc j seat kp name rest up e g out past = (
    elim (Option-cases (get ⦃r = F.ranked⦄ seat acc)) [
      | inl n ↦ n
      | inr (old, h) ↦
          let (j', g', gone) = past seat old h in
          let same = place-injective ⦃r = F.ranked⦄ shares j' j seat old kp up g' g in
          absurd (gone (inl (ap (λ x. seat_name (1 + x)) same ∙ sym e)))
    ],
    λ seat' kp' h. elim (Bool-cases (F.ranked.rank seat' == F.ranked.rank seat)) [
      | inr other ↦
          let before : get ⦃r = F.ranked⦄ seat' acc ≡ some kp' =
            ground (arith, get-insert ⦃r = F.ranked⦄ seat seat' kp acc) in
          let (j', g', gone) = past seat' kp' before in (j', g', λ i. gone (inr i))
      | inl match ↦
          let e1 = F.ranked.rank_injective seat' seat (ground arith) in
          let e2 : kp ≡ kp' = ground (arith, get-insert ⦃r = F.ranked⦄ seat seat' kp acc) in
          (
            j,
            g ∙ ap some (ap₂ (λ (a : Identifier) (b : KeyPackage). (a, b)) (sym e1) e2),
            λ i. out (subst (λ x. In x rest) (sym e) i),
          )
    ],
  )

  -- All of them are loaded, each a new seat.
  pub roots_loaded :
      (secret : V.Secret) (base : FilePath) (group : PublicKeyPackage)
      (shares : Map Identifier KeyPackage) (s : D.State) (names : List Text)
      (acc : Map Identifier KeyPackage)
      → Ascends ⦃r = F.ranked⦄ shares
      → Pairwise ◌≢◌ names
      → ((name : Text) → In name names → Names secret base group shares s name)
      → Past shares acc names
      → (found : Map Identifier KeyPackage) × (load_roots F bytes from_bytes D V formats unlock
            read_dir secret base names acc s
          ≡ (ok found, s))
        × (length found ≡ length acc + length names)
        × Past shares found []
  unfolding load_roots
  roots_loaded secret base group shares s [] acc up apart all past = (acc, refl, omega arith, past)
  roots_loaded secret base group shares s (name ∷ rest) acc up apart all past =
      let (j, seat, kp, e, g, seated) = all name (inl refl) in
      let more = insert ⦃r = F.ranked⦄ seat kp acc in
      let (fresh, still) =
        Past-insert shares acc j seat kp name rest up e g (λ i. apart.0 name i refl) past in
      let (found, p, q, from) =
        roots_loaded secret base group shares s rest more up apart.1 (λ n i. all n (inr i)) still in
      let first =
        subst
          (λ n.
            load_root F bytes from_bytes D V formats unlock read_dir secret base n s
            ≡ (ok (seat, kp), s))
          (sym e) seated.0 in
      (found, ground arith, omega (arith, length-insert_new ⦃r = F.ranked⦄ seat kp acc fresh), from)

  group_loaded :
      (secret : V.Secret) (base : FilePath) (group : PublicKeyPackage)
      (shares : Map Identifier KeyPackage) (s : D.State) (name : Text) (rest : List Text)
      → Names secret base group shares s name
      → load_group F bytes from_bytes D V formats unlock read_dir secret base (name ∷ rest) s
        ≡ (ok group, s)
  unfolding load_group load_public_envelope public_path root_store seat_store seat_root
  group_loaded secret base group shares s name rest (j, seat, kp, e, g, seated) =
      let (content, there, (envelope, read, decoded)) = seated.1 in
      subst
        (λ n.
          load_group F bytes from_bytes D V formats unlock read_dir secret base (n ∷ rest) s
          ≡ (ok group, s))
        (sym e) (ground arith)

  pub get-nil : (seat : Identifier) (kp : KeyPackage) → get ⦃r = F.ranked⦄ seat [] ≡ some kp → ⊥
  unfolding get
  get-nil seat kp g = absurd (ground arith)

  pub selected_loaded :
      (secret : V.Secret) (base : FilePath) (group : PublicKeyPackage)
      (shares : Map Identifier KeyPackage) (s : D.State) (names : List Text)
      (found : Map Identifier KeyPackage)
      → V.passphrase ≡ ok secret
      → 0 < length names
      → ((name : Text) → In name names → Names secret base group shares s name)
      → load_roots F bytes from_bytes D V formats unlock read_dir secret base names [] s
        ≡ (ok found, s)
      → load_selected F bytes from_bytes D V formats unlock read_dir base names s
        ≡ (ok (found, group), s)
  unfolding load_selected
  selected_loaded secret base group shares s [] found p pos all h = absurd (omega arith)
  selected_loaded secret base group shares s (name ∷ rest) found p pos all h =
      ground (arith, group_loaded secret base group shares s name rest (all name (inl refl)))
