-- ===== src/Tests/ReloadRuns.antt =====
-- A key generation of two seats that is stored on the toy disk and loaded again.
use cheget.Base.{
  ℕ, zero, suc, ◌+◌, ◌<◌, ◌≤◌, ◌≡◌, ◌≢◌, inl, inr, refl, sym, ap, ◌∙◌, Option, none, some, List, [],
  ◌∷◌, ◌++◌, Text, text_dec, ℕ_discrete, codes, In, length, unwrap_or, get_elem?, Result, ok, arith,
  ltb, ◌==◌, if◌then◌else◌, Bool-cases,
}
use mathlib.Core.Path.{subst}
use cheget.Base.Sorted.{Pairwise}
use cheget.Base.OrdMap.{Map, get, insert, remove, ranked_ℕ}
use cheget.Base.Decimal.{digits_onto, decimal, zeros, padded}
use cheget.Base.Hex.{hex_encode, hex_digit}
use cheget.Base.Hex.Laws.{AreBytes}
use cheget.Crypto.Keygen.{
  run_inprocess_dkg_with_rng, rounds2_3, round1, part2_of, part3_of, fan_out, resolve2, resolve3,
  finish,
}
use cheget.Crypto.Pool.{map_with, worker, turn}
use cheget.Crypto.Types
use cheget.Store.Disk.{FilePath, parent}
use cheget.Store.Errors.{IoKind}
use cheget.Store.Atomic.{temp_name, create_dir_secure, fill, place_file, write_into, write_atomic}
use cheget.Store.Vault.{encrypt_secret}
use cheget.Store.Manifest.{
  Manifest, ShareEntry, active, standby, retired, seat_hex, new, add_entry, replace_first,
  new_entry, has_tag, to_json_bytes,
}
use cheget.Store.Manifest.Json
use cheget.Store.Checkpoint.{Codec, ReadsBack, parent_of}
use cheget.Store.Participant.{
  Formats, manifest_path, share_path, public_path, load_manifest, put_public_envelope,
  put_ciphertext, put_index, put_share,
}
use cheget.Store.Participant.Active.{ReadsSeats}
use cheget.Store.Participant.Public.{WritesBytes}
use cheget.Cli.Address.{PubkeyEnvelope, from_package}
use cheget.Cli.Keygen.{
  CliError, seat_root, seat_store, put_seats, run_inprocess_dkg, persist_dkg_shares,
}
use cheget.Cli.Sign.{load_persisted_shares, starts_with, insert_root, sort_roots, seat_roots}
use cheget.Cli.Reloaded.{load_persisted_shares-persist_dkg_shares}
use cheget.Tests.Toy.{toy, repeat}
use cheget.Tests.ToyDisk.{
  path_dec, Files, toy_disk, toy_disk-IsDisk, empty_disk, toy_vault, toy_vault-Unseals,
}
use cheget.Tests.StoredRuns.{pair_bytes, pair_bytes-ReadsBack, draws, alone}

-- A seat is as many zero bytes.
abbrev pub tally : ℕ → List ℕ
tally n = repeat n 0

abbrev pub count : List ℕ → Option ℕ
count bytes = some (length bytes)

tally-AreBytes : (n : ℕ) → AreBytes (tally n)
tally-AreBytes zero = tt
tally-AreBytes (suc n) = (omega arith, tally-AreBytes n)

length-tally : (n : ℕ) → length (tally n) ≡ n
length-tally zero = refl
length-tally (suc n) = ap suc (length-tally n)

tally-ReadsSeats : ReadsSeats tally count
tally-ReadsSeats n = (tally-AreBytes n, ap some (length-tally n))

-- A group is a byte.
abbrev pub small : Codec ℕ
small = record {
  to = λ n. if ltb n 256 then some (n ∷ []) else none;
  from = λ bytes. elim bytes [ [] ↦ none | b ∷ rest ↦ some b ];
}

pub small-ReadsBack : ReadsBack small
small-ReadsBack n bytes h = ground arith

pub small-WritesBytes : WritesBytes small
small-WritesBytes n bytes h = ground arith

-- The artifact of the active key.
abbrev pub artifact : Codec PubkeyEnvelope
artifact = record {
  to = λ e. elim (text_dec e.key_id (codes "active")) [
    | yes _ ↦ some (e.epoch ∷ e.pubkey_package_hex)
    | no _ ↦ none
  ];
  from = λ bytes. elim bytes [
    | [] ↦ none
    | epoch ∷ text ↦
        some (record { key_id = codes "active"; epoch = epoch; pubkey_package_hex = text })
  ];
}

pub artifact-ReadsBack : ReadsBack artifact
artifact-ReadsBack e bytes h = elim (text_dec e.key_id (codes "active")) [
  | yes p ↦ ground arith
  | no n ↦ absurd (ground arith)
]

-- The index of one active share of the active key.
abbrev pub entry_of : ℕ → Text → ShareEntry
entry_of at text = record {
  key_id = codes "active";
  epoch = 0;
  seat = text;
  state = active;
  created_at = at;
}

abbrev pub sole_to : List ShareEntry → Option (List ℕ)
sole_to [] = none
sole_to (e ∷ d ∷ rest) = none
sole_to (e ∷ []) = elim e.state [
  | standby ↦ none
  | retired ↦ none
  | active ↦ elim (text_dec e.key_id (codes "active")) [
    | no _ ↦ none
    | yes _ ↦ if e.epoch == 0 then some (e.created_at ∷ e.seat) else none
  ]
]

abbrev pub sole_index : Codec Manifest
sole_index = record {
  to = λ m. if m.schema_version == 1 then sole_to m.shares else none;
  from = λ bytes. elim bytes [
    | [] ↦ none
    | at ∷ text ↦ some (record { schema_version = 1; shares = entry_of at text ∷ [] })
  ];
}

sole_shares :
    (shares : List ShareEntry) (bytes : List ℕ)
    → sole_to shares ≡ some bytes
    → (at : ℕ) × (text : Text) × (bytes ≡ at ∷ text) × (shares ≡ entry_of at text ∷ [])
sole_shares [] bytes h = absurd (ground arith)
sole_shares (e ∷ d ∷ rest) bytes h = absurd (ground arith)
sole_shares (e ∷ []) bytes h = elim (text_dec e.key_id (codes "active")) [
  | no n ↦ absurd (ground arith)
  | yes p ↦ (e.created_at, e.seat, ground arith, ground arith)
]

sole_index-ReadsBack : Json.ReadsBack sole_index.to sole_index.from
sole_index-ReadsBack m bytes h = elim (Bool-cases (m.schema_version == 1)) [
  | inr e ↦ absurd (ground arith)
  | inl e ↦ let (at, text, p, q) = sole_shares m.shares bytes (ground arith) in ground arith
]

abbrev pub stored_formats : Formats (ℕ × ℕ) ℕ
stored_formats = record {
  share_format = pair_bytes;
  group_format = small;
  envelope_format = artifact;
  manifest_format = sole_index;
}

abbrev home : FilePath
home = codes "b" ∷ []

abbrev listing : FilePath → Files → Result IoKind (List Text)
listing path s = ok (codes "seat-0002" ∷ codes "notes" ∷ codes "seat-0001" ∷ [])

abbrev two_packages : Map ℕ (ℕ × ℕ)
two_packages = (1, (1, 7)) ∷ (2, (2, 7)) ∷ []

unfoldable kept : Result (CliError toy) (Map ℕ (ℕ × ℕ) × ℕ) × Files
kept =
    persist_dkg_shares toy tally toy_disk toy_vault stored_formats draws alone alone home 2 2 0
      empty_disk

keeps_two :
    persist_dkg_shares toy tally toy_disk toy_vault stored_formats draws alone alone home 2 2 0
      empty_disk
    ≡ (ok (two_packages, 7), kept.1)
unfolding kept persist_dkg_shares run_inprocess_dkg put_seats seat_store seat_root
    run_inprocess_dkg_with_rng rounds2_3 round1 part2_of part3_of fan_out resolve2 resolve3 finish
    map_with worker turn get insert remove put_share put_public_envelope put_ciphertext put_index
    load_manifest manifest_path share_path public_path parent_of encrypt_secret from_package
    seat_hex hex_encode hex_digit decimal digits_onto zeros padded parent create_dir_secure
    write_atomic write_into place_file fill temp_name path_dec text_dec ℕ_discrete new add_entry
    replace_first new_entry has_tag to_json_bytes Types.active
keeps_two = refl

sorted_roots :
    seat_roots (codes "seat-0002" ∷ codes "notes" ∷ codes "seat-0001" ∷ [])
    ≡ codes "seat-0001" ∷ codes "seat-0002" ∷ []
unfolding seat_roots sort_roots insert_root starts_with
sorted_roots = refl

first_name : codes "seat-0001" ≡ codes "seat-" ++ padded (1 + 0)
unfolding padded zeros decimal digits_onto
first_name = refl

second_name : codes "seat-0002" ≡ codes "seat-" ++ padded (1 + 1)
unfolding padded zeros decimal digits_onto
second_name = refl

numbered :
    (name : Text)
    → In name (codes "seat-0001" ∷ codes "seat-0002" ∷ [])
    → (j : ℕ) × (j < 2) × (name ≡ codes "seat-" ++ padded (1 + j))
numbered name (inl e) = (0, omega arith, e ∙ first_name)
numbered name (inr (inl e)) = (1, omega arith, e ∙ second_name)
numbered name (inr (inr h)) = absurd h

names_apart : codes "seat-0001" ≢ codes "seat-0002"
names_apart e = absurd (omega (arith, ap (λ (t : Text). unwrap_or (get_elem? t 8) 0) e))

apart_names : Pairwise ◌≢◌ (codes "seat-0001" ∷ codes "seat-0002" ∷ [])
apart_names =
    (λ y i. elim i [ inl e ↦ λ q. names_apart (q ∙ e) | inr h ↦ absurd h ], ((λ y h. absurd h), tt))

two_roots : 2 ≤ length (seat_roots (codes "seat-0002" ∷ codes "notes" ∷ codes "seat-0001" ∷ []))
two_roots = rw sorted_roots (omega arith)

load_persisted_shares-persist_dkg_shares_example :
    (found : Map ℕ (ℕ × ℕ)) × (load_persisted_shares toy tally count toy_disk toy_vault
        stored_formats
        (draws 0)
        listing
        home
        2
        kept.1
      ≡ (ok (found, 7), kept.1))
    × (length found ≡ 2)
    × ((seat : ℕ) (kp : ℕ × ℕ)
        → get ⦃r = ranked_ℕ⦄ seat found ≡ some kp
        → (j : ℕ) × (get_elem? two_packages j ≡ some (seat, kp)))
load_persisted_shares-persist_dkg_shares_example =
    load_persisted_shares-persist_dkg_shares toy tally count toy_disk toy_vault stored_formats draws
      (draws 0) listing toy_disk-IsDisk toy_vault-Unseals pair_bytes-ReadsBack sole_index-ReadsBack
      tally-ReadsSeats small-ReadsBack small-WritesBytes artifact-ReadsBack alone alone home 2 2 2 0
      4 two_packages 7 empty_disk kept.1
      (codes "seat-0002" ∷ codes "notes" ∷ codes "seat-0001" ∷ []) refl (omega arith)
      (λ k a b. refl) keeps_two refl (λ name i. numbered name (subst (In name) sorted_roots i))
      (subst (Pairwise ◌≢◌) (sym sorted_roots) apart_names) (omega arith) two_roots
