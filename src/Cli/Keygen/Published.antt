-- ===== src/Cli/Keygen/Published.antt =====
-- The address that is derived from the public artifact of a key generation.
use cheget.Base.{
  ℕ, ◌≡◌, inl, inr, refl, ap, ◌∙◌, some, List, true, Text, ok, map_err, Result-cases, Option-cases,
  Bool-cases, arith,
}
use mathlib.Core.Path.{subst}
use cheget.Base.OrdMap.{Map}
use cheget.Crypto.Frost.{Frost}
use cheget.Crypto.Signing.{Signing, address_from_group_key}
use cheget.Chain.{Bitcoin}
use cheget.Store.Disk.{FilePath, Disk, IsDisk}
use cheget.Store.Vault.{Vault}
use cheget.Store.Checkpoint.{ReadsBack}
use cheget.Store.Participant.{Formats}
use cheget.Store.Participant.Public.{WritesBytes, decode_package-from_package}
use cheget.Cli.Address.{Network, known_hrp, bridge, from_package}
use cheget.Cli.Address.File.{address_from_pubkey_file}
use cheget.Cli.System.{Machine, System, draws_for}
use cheget.Cli.Keygen.{
  KeygenArgs, check_args, resolve_tn, resolved, Draws, put_seats, run_inprocess_dkg,
  persist_dkg_shares,
}
use cheget.Cli.{resolve_root, acquire_store_passphrase}
use cheget.Cli.Keygen.Run.{
  write_public_envelope, generate_group, persist_group, make_group, publish_group, publish_if,
  run_keygen,
}

-- The shares that are stored are those of the key generation.
persist_dkg_shares-made :
    (F : Frost) (bytes : F.Identifier → List ℕ) (D : Disk) (V : Vault)
    (formats : Formats F.KeyPackage F.PublicKeyPackage) (draws : ℕ → Draws V)
    (split2 : List (F.Identifier × F.Round1Secret) → List (List (F.Identifier × F.Round1Secret)))
    (split3 : List (F.Identifier × F.Round2Secret) → List (List (F.Identifier × F.Round2Secret)))
    (base : FilePath) (t n : ℕ) (rng : F.Rng) (s : D.State) (shares : Map F.Identifier F.KeyPackage)
    (group : F.PublicKeyPackage)
    → (persist_dkg_shares F bytes D V formats draws split2 split3 base t n rng s).0
      ≡ ok (shares, group)
    → (run_inprocess_dkg F bytes D V formats draws split2 split3 t n rng).0 ≡ ok (shares, group)
unfolding persist_dkg_shares
persist_dkg_shares-made F bytes D V formats draws split2 split3 base t n rng s shares group h =
    elim (Result-cases (run_inprocess_dkg F bytes D V formats draws split2 split3 t n rng).0) [
      | inr (e, p) ↦ absurd (ground arith)
      | inl ((made, key), p) ↦ elim (Result-cases V.passphrase) [
        | inr (e, q) ↦ absurd (ground arith)
        | inl (secret, q) ↦
            let put = put_seats F bytes D V formats draws secret base key 1 made s in
            elim (Result-cases put.0) [
              | inr (e, r) ↦ absurd (ground arith)
              | inl (u, r) ↦ ground arith
            ]
      ]
    ]

module _ (F : Frost) (S : Signing F) (B : Bitcoin) (D : Disk) (V : Vault) (Terminal : Type 0)
    (sys : System F S B D V Terminal) (law : IsDisk D) (groups : ReadsBack sys.formats.group_format)
    (writes : WritesBytes sys.formats.group_format)
    (envelopes : ReadsBack sys.formats.envelope_format) where
  written_address :
      (key_id : Text) (group : F.PublicKeyPackage) (path : FilePath) (network : Network)
      (s s' : D.State)
      → write_public_envelope F D sys.formats key_id group path s ≡ (ok tt, s')
      → address_from_pubkey_file F S D sys.formats sys.p2tr path network s'
        ≡ map_err
            (λ e. bridge)
            (address_from_group_key F S sys.p2tr (F.group_vk group) (known_hrp network))
  unfolding write_public_envelope address_from_pubkey_file
  written_address key_id group path network s s' h =
      elim (Result-cases
        (from_package sys.formats.group_format.to sys.formats.group_format.from key_id 0 group)) [
          | inr (e, p) ↦ absurd (ground arith)
          | inl (made, p) ↦ elim (Option-cases (sys.formats.envelope_format.to made)) [
            | inl q ↦ absurd (ground arith)
            | inr (json, q) ↦
                let wrote = D.write_file path json s in
                elim (Result-cases wrote.0) [
                  | inr (e, r) ↦ absurd (ground arith)
                  | inl (u, r) ↦ ground (
                    arith,
                    law.file_written path json s,
                    envelopes made json q,
                    decode_package-from_package sys.formats.group_format key_id 0 group made groups
                        writes p,
                  )
                ]
          ]
        ]

  -- The group of the key generation that the machine's generator makes.
  abbrev pub Generates : ℕ → ℕ → F.Rng → F.PublicKeyPackage → Type 0
  Generates t n rng group =
      (shares : Map F.Identifier F.KeyPackage) × ((run_inprocess_dkg F sys.bytes D V sys.formats
          sys.draws sys.split2 sys.split3 t n rng).0
        ≡ ok (shares, group))

  generate_group-Generates :
      (t n : ℕ) (group : F.PublicKeyPackage) (w w' : Machine F D Terminal)
      → generate_group F S B D V Terminal sys t n w ≡ (ok group, w')
      → Generates t n w.rng group
  unfolding generate_group
  generate_group-Generates t n group w w' h =
      let made =
        run_inprocess_dkg F sys.bytes D V sys.formats sys.draws sys.split2 sys.split3 t n w.rng in
      elim (Result-cases made.0) [
        | inr (e, p) ↦ absurd (ground arith)
        | inl ((shares, found), p) ↦ (shares, ground arith)
      ]

  -- The key generation does not depend on the store.
  same_generation :
      (secret : V.Secret) (t n : ℕ) (rng : F.Rng)
      → (run_inprocess_dkg F sys.bytes D V sys.formats sys.draws sys.split2 sys.split3 t n rng).0
        ≡ (run_inprocess_dkg F sys.bytes D
            (resolved V secret)
            sys.formats
            (λ i. draws_for V secret (sys.draws i))
            sys.split2
            sys.split3
            t
            n
            rng).0
  unfolding run_inprocess_dkg
  same_generation secret t n rng = refl

  persist_group-Generates :
      (args : KeygenArgs) (t n : ℕ) (group : F.PublicKeyPackage) (w w' : Machine F D Terminal)
      → persist_group F S B D V Terminal sys args t n w ≡ (ok group, w')
      → Generates t n w.rng group
  unfolding persist_group
  persist_group-Generates args t n group w w' h =
      elim (Result-cases (resolve_root sys.to_path sys.home_var sys.home_dir args.base)) [
        | inr (e, p) ↦ absurd (ground arith)
        | inl (root, p) ↦
            let asked = acquire_store_passphrase sys.prompt_password true w.terminal in
            elim (Result-cases asked.0) [
              | inr (e, q) ↦ absurd (ground arith)
              | inl (typed, q) ↦
                  let secret = sys.to_secret typed in
                  let W = resolved V secret in
                  let redrawn = λ (i : ℕ). draws_for V secret (sys.draws i) in
                  let put =
                    persist_dkg_shares F sys.bytes D W sys.formats redrawn sys.split2 sys.split3
                      root t n w.rng w.disk in
                  elim (Result-cases put.0) [
                    | inr (e, r) ↦ absurd (ground arith)
                    | inl ((shares, found), r) ↦ (
                      shares,
                      same_generation secret t n w.rng
                          ∙ persist_dkg_shares-made F sys.bytes D W sys.formats redrawn sys.split2
                              sys.split3 root t n w.rng w.disk shares found r
                          ∙ ground arith,
                    )
                  ]
            ]
      ]

  make_group-Generates :
      (args : KeygenArgs) (t n : ℕ) (group : F.PublicKeyPackage) (w w' : Machine F D Terminal)
      → make_group F S B D V Terminal sys args t n w ≡ (ok group, w')
      → Generates t n w.rng group
  unfolding make_group
  make_group-Generates args t n group w w' h = elim (Bool-cases args.is_persist) [
    | inl e ↦ persist_group-Generates args t n group w w' (ground arith)
    | inr e ↦ generate_group-Generates t n group w w' (ground arith)
  ]

  check_args-pair :
      (args : KeygenArgs) (pair : ℕ × ℕ)
      → check_args {F = F} args ≡ ok pair
      → pair ≡ resolve_tn args
  unfolding check_args
  check_args-pair args pair h = ground arith

  -- If the command `keygen` succeeds with an output file, then the address that is derived from
  -- this file, for any network, is the one that is derived from the key of the group that the key
  -- generation made for the resolved threshold and membership, or fails as that does; where the
  -- disk and the formats do what they document.
  pub run_keygen-address :
      (args : KeygenArgs) (path : FilePath) (w w' : Machine F D Terminal)
      → args.out ≡ some path
      → run_keygen F S B D V Terminal sys args w ≡ (ok tt, w')
      → (group : F.PublicKeyPackage) × Generates (resolve_tn args).0 (resolve_tn args).1 w.rng group
        × ((network : Network)
            → address_from_pubkey_file F S D sys.formats sys.p2tr path network w'.disk
              ≡ map_err
                  (λ e. bridge)
                  (address_from_group_key F S sys.p2tr (F.group_vk group) (known_hrp network)))
  unfolding run_keygen publish_if publish_group
  run_keygen-address args path w w' out h = elim (Result-cases (check_args {F = F} args)) [
    | inr (e, p) ↦ absurd (ground arith)
    | inl (pair, p) ↦
        let made = make_group F S B D V Terminal sys args pair.0 pair.1 w in
        elim (Result-cases made.0) [
          | inr (e, q) ↦ absurd (ground arith)
          | inl (group, q) ↦
              let same = check_args-pair args pair p in
              let s = made.1.disk in
              let wrote = write_public_envelope F D sys.formats args.key_id group path s in
              elim (Result-cases wrote.0) [
                | inr (e, r) ↦ absurd (ground arith)
                | inl (u, r) ↦ (
                  group,
                  subst (λ x. Generates x.0 x.1 w.rng group) same
                      (make_group-Generates args pair.0 pair.1 group w made.1 (ground arith)),
                  λ network.
                      let left : w'.disk ≡ wrote.1 = ground arith in
                      ap (address_from_pubkey_file F S D sys.formats sys.p2tr path network) left
                      ∙ written_address args.key_id group path network s wrote.1 (ground arith),
                )
              ]
        ]
  ]
