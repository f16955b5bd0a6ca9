-- ===== src/Cli/Reloaded/Seats.antt =====
-- What a stored key generation leaves below the root of each seat.
use cheget.Base.{
  ℕ, ◌+◌, ◌<◌, ◌≤◌, ◌^◌, ◌≡◌, ◌≢◌, refl, sym, ap, ◌∙◌, Option, some, List, [], ◌∷◌, ◌++◌, Text,
  codes, length, get_elem?, zero, suc, Result, ok, err, arith,
}
use mathlib.Core.List.{append_assoc}
use mathlib.Core.Path.{subst}
use cheget.Base.Names.{is_safe_name}
use cheget.Base.Decimal.{padded}
use cheget.Base.OrdMap.{Map}
use cheget.Crypto.Frost.{Frost}
use cheget.Crypto.Types
use cheget.Crypto.Types.{genesis}
use cheget.Store.Errors.{IoKind, not_found}
use cheget.Store.Disk.{FilePath, Disk, IsDisk}
use cheget.Store.Vault.{Vault, Unseals}
use cheget.Store.Manifest.{active}
use cheget.Store.Manifest.Json
use cheget.Store.Checkpoint.{ReadsBack}
use cheget.Store.Participant.{
  Formats, manifest_path, share_path, public_path, load_manifest, put_share, load_share,
  load_only_active,
}
use cheget.Store.Participant.Laws.{load_share-put_share}
use cheget.Store.Participant.Frame.{Outside, Steady-ok, Steady-missing, put_share-keeps}
use cheget.Store.Participant.Active.{ReadsSeats, put_share-new}
use cheget.Store.Participant.Public.{WritesBytes, Holds, put_share-Holds}
use cheget.Cli.Keygen.{Draws, resolved, seat_root, seat_store, active_tag, put_seats}
use cheget.Cli.Keygen.Stored.{roots_apart, load_share-frame, put_seats-keeps, first_stored}
use cheget.Cli.Sign.{root_store, load_root}

abbrev pub seat_name : ℕ → Text
seat_name i = codes "seat-" ++ padded i

active_name : Types.new Types.active ≡ ok Types.active
unfolding Types.new Types.active is_safe_name
active_name = refl

module _ (F : Frost) (bytes : F.Identifier → List ℕ) (from_bytes : List ℕ → Option F.Identifier)
    (D : Disk) (V : Vault) (formats : Formats F.KeyPackage F.PublicKeyPackage) (draws : ℕ → Draws V)
    (unlock : Draws V) (read_dir : FilePath → D.State → Result IoKind (List Text))
    (law : IsDisk D) where
  open F use {Identifier, KeyPackage, PublicKeyPackage}

  -- The root of the `k`-th seat is not touched below the root of another one.
  apart_root :
      (base rest : FilePath) (i k : ℕ)
      → i < 10 ^ 20
      → k < 10 ^ 20
      → i ≢ k
      → Outside (seat_root base i) (seat_root base k ++ rest)
        × ((below more : FilePath) → (seat_root base k ++ rest) ++ more ≢ seat_root base i ++ below)
  apart_root base rest i k p q n = (
    roots_apart base rest i k p q n,
    λ below more e.
        roots_apart base (rest ++ more) i k p q n below
          (sym e ∙ append_assoc (seat_root base k) rest more),
  )

  -- No index was written below the root of the `k`-th seat.
  abbrev pub IsNew : V.Secret → FilePath → ℕ → D.State → Type 0
  IsNew secret base k s =
      D.read
        (manifest_path bytes D (resolved V secret) formats
          (seat_store F bytes D V formats draws secret base k))
        s
      ≡ err not_found

  -- The seat's root yields its share and the group.
  abbrev pub Seated :
      V.Secret → FilePath → PublicKeyPackage → ℕ → Identifier → KeyPackage → D.State → Type 0
  Seated secret base group k seat kp s =
      (load_root F bytes from_bytes D V formats unlock read_dir secret base (seat_name k) s
        ≡ (ok (seat, kp), s))
      × ((content : List ℕ) × (D.read
              (public_path bytes D (resolved V secret) formats
                (seat_store F bytes D V formats draws secret base k) Types.active genesis)
              s
            ≡ ok content)
          × Holds bytes D (resolved V secret) formats law
              (seat_store F bytes D V formats draws secret base k) Types.active genesis group
              content)

  same_root :
      (secret : V.Secret) (base : FilePath) (k : ℕ) (s : D.State)
      → load_root F bytes from_bytes D V formats unlock read_dir secret base (seat_name k) s
        ≡ load_only_active bytes D
            (resolved V secret)
            formats
            from_bytes
            (seat_store F bytes D V formats draws secret base k)
            s
  unfolding load_only_active load_manifest manifest_path share_path load_share seat_store seat_root
      root_store
  same_root secret base k s = refl

  IsNew-put_share :
      (secret : V.Secret) (base : FilePath) (i k : ℕ) (seat : Identifier) (kp : KeyPackage)
      (group : PublicKeyPackage) (s : D.State)
      → i < 10 ^ 20
      → k < 10 ^ 20
      → i ≢ k
      → IsNew secret base k s
      → IsNew secret base k
          (put_share bytes D
            (resolved V secret)
            formats
            (seat_store F bytes D V formats draws secret base i)
            (active_tag seat)
            kp
            group
            active
            s).1
  unfolding manifest_path seat_store
  IsNew-put_share secret base i k seat kp group s p q n h =
      let (out, steady) = apart_root base (codes "manifest.json" ∷ []) i k p q n in
      let there = seat_root base k ++ codes "manifest.json" ∷ [] in
      put_share-keeps bytes D (resolved V secret) formats law
        (seat_store F bytes D V formats draws secret base i) (active_tag seat) kp group active there
        s (err not_found) out
        (Steady-missing bytes D (resolved V secret) formats law (seat_root base i) there steady) h

  module _ (unseals : Unseals V) (back : ReadsBack formats.share_format)
      (manifests : Json.ReadsBack formats.manifest_format.to formats.manifest_format.from)
      (seats : ReadsSeats bytes from_bytes) (groups : ReadsBack formats.group_format)
      (writes : WritesBytes formats.group_format)
      (envelopes : ReadsBack formats.envelope_format) where
    -- The first share of the loop is found, also after the others were stored.
    first-Seated :
        (secret : V.Secret) (base : FilePath) (group : PublicKeyPackage) (i : ℕ) (seat : Identifier)
        (kp : KeyPackage) (rest : Map Identifier KeyPackage) (s s1 s' : D.State)
        → i + 1 + length rest < 10 ^ 20
        → IsNew secret base i s
        → put_share bytes D
            (resolved V secret)
            formats
            (seat_store F bytes D V formats draws secret base i)
            (active_tag seat)
            kp
            group
            active
            s
          ≡ (ok tt, s1)
        → put_seats F bytes D V formats draws secret base group (i + 1) rest s1 ≡ (ok tt, s')
        → Seated secret base group i seat kp s'
    unfolding seat_store manifest_path share_path public_path
    first-Seated secret base group i seat kp rest s s1 s' l new put goes =
        let store = seat_store F bytes D V formats draws secret base i in
        let W = resolved V secret in
        let tag = active_tag seat in
        let keeps : (below : FilePath) (content : List ℕ)
            → D.read (seat_root base i ++ below) s1 ≡ ok content
            → D.read (seat_root base i ++ below) s' ≡ ok content =
          λ below content there.
            let path = seat_root base i ++ below in
            ap (λ w. D.read path w.1) (sym goes)
            ∙ put_seats-keeps F bytes D V formats draws law secret base group (i + 1) rest path s1
                (ok content)
                (λ k a b.
                  (apart_root base below k i (omega arith) (omega arith) (λ q. omega arith)).0)
                (λ k a b. Steady-ok bytes D W formats law (seat_root base k) path content) there in
        let loaded =
          load_share-put_share bytes D W formats law store tag kp group active s s1 unseals back
            put in
        let (cipher, there, later) = load_share-frame bytes D W formats store tag kp s1 loaded in
        let (index, listed, finds) =
          put_share-new bytes from_bytes D W formats law manifests seats store tag kp group s s1
            active_name new put in
        let (content, public, holds) =
          put_share-Holds bytes D W formats law groups writes envelopes store tag kp group active s
            s1 put in
        (
          same_root secret base i s'
              ∙ finds s' (keeps _ index listed) (later s' (keeps _ cipher there)),
          (content, keeps _ content public, holds),
        )

    pub seats-Seated :
        (secret : V.Secret) (base : FilePath) (group : PublicKeyPackage) (i : ℕ)
        (shares : Map Identifier KeyPackage) (s s' : D.State)
        → i + length shares < 10 ^ 20
        → ((k : ℕ) → i ≤ k → k < i + length shares → IsNew secret base k s)
        → put_seats F bytes D V formats draws secret base group i shares s ≡ (ok tt, s')
        → (j m : ℕ) → m ≡ i + j
        → j < length shares
        → (seat : Identifier) × (kp : KeyPackage) × (get_elem? shares j ≡ some (seat, kp))
          × Seated secret base group m seat kp s'
    seats-Seated secret base group i [] s s' l new h j m e g = absurd (omega arith)
    seats-Seated secret base group i ((seat, kp) ∷ rest) s s' l new h (suc j) m e g =
        let (s1, put, goes) =
          first_stored F bytes D V formats draws law unseals back secret base group i seat kp rest s
            s' h in
        seats-Seated secret base group (i + 1) rest s1 s' (omega arith)
          (λ k a b. subst (IsNew secret base k) (ap (λ w. w.1) put) (
            IsNew-put_share secret base i k seat kp group s (omega arith) (omega arith)
              (λ q. omega arith) (new k (omega arith) (omega arith))))
          goes j m (omega arith) (omega arith)
    seats-Seated secret base group i ((seat, kp) ∷ rest) s s' l new h zero m e g =
        let (s1, put, goes) =
          first_stored F bytes D V formats draws law unseals back secret base group i seat kp rest s
            s' h in
        let here =
          first-Seated secret base group i seat kp rest s s1 s' (omega arith)
            (new i (omega arith) (omega arith)) put goes in
        let e' : i ≡ m = omega arith in
        (seat, kp, refl, subst (λ x. Seated secret base group x seat kp s') e' here)
