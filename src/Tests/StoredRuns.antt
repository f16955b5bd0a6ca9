-- ===== src/Tests/StoredRuns.antt =====
-- A key generation of two seats that is stored on the toy disk.
use cheget.Base.{
  ℕ, ◌≡◌, refl, none, some, List, [], ◌∷◌, text_dec, ℕ_discrete, codes, true, false, Result, ok,
  err, arith,
}
use cheget.Base.OrdMap.{Map, get, insert, remove}
use cheget.Base.Decimal.{digits_onto, decimal, zeros, padded}
use cheget.Base.Hex.{hex_encode, hex_digit}
use cheget.Crypto.Keygen.{
  run_inprocess_dkg_with_rng, rounds2_3, round1, part2_of, part3_of, fan_out, resolve2, resolve3,
  finish,
}
use cheget.Crypto.Pool.{map_with, worker, turn}
use cheget.Crypto.Types
use cheget.Store.Disk.{parent}
use cheget.Store.Atomic.{temp_name, create_dir_secure, fill, place_file, write_into, write_atomic}
use cheget.Store.Vault.{encrypt_secret}
use cheget.Store.Manifest.{
  seat_hex, new, add_entry, replace_first, new_entry, has_tag, to_json_bytes,
}
use cheget.Store.Checkpoint.{Codec, ReadsBack, parent_of}
use cheget.Store.Participant.{
  Formats, manifest_path, share_path, public_path, load_manifest, put_public_envelope,
  put_ciphertext, put_index, put_share, load_share,
}
use cheget.Cli.Address.{from_package}
use cheget.Cli.Keygen.{
  resolve_tn, check_args, CliError, invalid_tn, nothing_to_do, Draws, resolved, seat_root,
  seat_store, active_tag, put_seats, run_inprocess_dkg, persist_dkg_shares,
}
use cheget.Cli.Keygen.Stored.{persist_dkg_shares-stored}
use cheget.Tests.Toy.{toy}
use cheget.Tests.ToyDisk.{
  path_dec, Files, toy_disk, toy_disk-IsDisk, empty_disk, toy_vault, toy_vault-Unseals, one_byte,
  byte,
}

abbrev pub pair_from : List ℕ → Result ℕ (ℕ × ℕ)
pair_from [] = err 0
pair_from (a ∷ []) = err 0
pair_from (a ∷ b ∷ rest) = ok (a, b)

abbrev pub pair_bytes : Codec (ℕ × ℕ)
pair_bytes = record {
  to = λ p. some (p.0 ∷ p.1 ∷ []);
  from = λ bytes. elim (pair_from bytes) [ ok p ↦ some p | err _ ↦ none ];
}

pub pair_bytes-ReadsBack : ReadsBack pair_bytes
pair_bytes-ReadsBack p bytes h = ground arith

abbrev pub formats : Formats (ℕ × ℕ) ℕ
formats = record {
  share_format = pair_bytes;
  group_format = one_byte;
  envelope_format = record { to = λ e. some (e.epoch ∷ []); from = λ bytes. none };
  manifest_format = record { to = λ m. some (m.schema_version ∷ []); from = λ bytes. none };
}

abbrev pub draws : ℕ → Draws toy_vault
draws i = record {
  salt = tt;
  public_suffix = codes "1";
  share_suffix = codes "2";
  manifest_suffix = codes "3";
  now = 100;
}

abbrev pub alone : List (ℕ × ℕ) → List (List (ℕ × ℕ))
alone xs = xs ∷ []

unfoldable persisted : Result (CliError toy) (Map ℕ (ℕ × ℕ) × ℕ) × Files
persisted =
    persist_dkg_shares toy byte toy_disk toy_vault formats draws alone alone (codes "b" ∷ []) 2 2 0
      empty_disk

abbrev packages : Map ℕ (ℕ × ℕ)
packages = (1, (1, 7)) ∷ (2, (2, 7)) ∷ []

persists :
    persist_dkg_shares toy byte toy_disk toy_vault formats draws alone alone
      (codes "b" ∷ [])
      2
      2
      0
      empty_disk
    ≡ (ok (packages, 7), persisted.1)
unfolding persisted persist_dkg_shares run_inprocess_dkg put_seats seat_store seat_root
    run_inprocess_dkg_with_rng rounds2_3 round1 part2_of part3_of fan_out resolve2 resolve3 finish
    map_with worker turn get insert remove put_share put_public_envelope put_ciphertext put_index
    load_manifest manifest_path share_path public_path parent_of encrypt_secret from_package
    seat_hex hex_encode hex_digit decimal digits_onto zeros padded parent create_dir_secure
    write_atomic write_into place_file fill temp_name path_dec text_dec ℕ_discrete new add_entry
    replace_first new_entry has_tag to_json_bytes Types.active
persists = refl

persist_dkg_shares-stored_example :
    load_share byte toy_disk
      (resolved toy_vault 4)
      formats
      (seat_store toy byte toy_disk toy_vault formats draws 4 (codes "b" ∷ []) 2)
      (active_tag 2)
      persisted.1
    ≡ (ok (2, 7), persisted.1)
persist_dkg_shares-stored_example =
    persist_dkg_shares-stored toy byte toy_disk toy_vault formats draws toy_disk-IsDisk
      toy_vault-Unseals pair_bytes-ReadsBack alone alone (codes "b" ∷ []) 2 2 0 4 packages 7
      empty_disk persisted.1 persists refl (omega arith) 1 2 (2, 7) refl

refuses_none :
    check_args {F = toy} (record {
      seats = none;
      threshold = some 6;
      full = false;
      key_id = [];
      out = none;
      is_persist = true;
      base = none;
    })
    ≡ err invalid_tn
unfolding check_args resolve_tn
refuses_none = refl

refuses_idle :
    check_args {F = toy} (record {
      seats = none;
      threshold = none;
      full = true;
      key_id = [];
      out = none;
      is_persist = false;
      base = none;
    })
    ≡ err nothing_to_do
unfolding check_args resolve_tn
refuses_idle = refl
