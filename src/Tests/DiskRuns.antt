-- ===== src/Tests/DiskRuns.antt =====
-- Checkpoints, files and ids.
use cheget.Base.{
  ◌≡◌, ◌≢◌, refl, [], ◌∷◌, ◌++◌, text_dec, ℕ_discrete, codes, Result, ok, arith, cons_injective,
}
use cheget.Base.Decimal.{decimal}
use cheget.Base.Hex.{hex_encode, hex_digit}
use cheget.Store.Errors.{StoreError}
use cheget.Store.Disk.{FilePath, parent}
use cheget.Store.Atomic.{temp_name, create_dir_secure, fill, place_file, write_into, write_atomic}
use cheget.Store.Vault.{encrypt_secret, decrypt_secret}
use cheget.Store.Manifest.{seat_hex}
use cheget.Store.Checkpoint.{
  CheckpointStore, parent_of, ceremony_dir, round_name, round_path, put_round, load_round,
  put_round1, load_round1, put_round2,
}
use cheget.Store.Checkpoint.RoundTrip.{load_round1-put_round1}
use cheget.Store.Checkpoint.Apart.{load_round-put_round_other}
use cheget.Tests.ToyDisk.{
  path_dec, Files, toy_disk, toy_disk-IsDisk, empty_disk, toy_vault, toy_vault-Unseals, one_byte,
  one_byte-ReadsBack, byte,
}

abbrev checkpoints : CheckpointStore toy_vault
checkpoints = record { root = codes "home" ∷ []; vault_salt = tt; suffix = codes "1-2-3" }

unfoldable saved : Files → Result StoreError (Unit {0}) × Files
saved s = put_round1 byte toy_disk toy_vault one_byte one_byte checkpoints (codes "first") 1 42 s

saves1 :
    put_round1 byte toy_disk toy_vault one_byte one_byte checkpoints (codes "first") 1 42 empty_disk
    ≡ (ok tt, (saved empty_disk).1)
unfolding saved put_round1 put_round parent_of encrypt_secret round_path ceremony_dir round_name
    seat_hex hex_encode hex_digit decimal parent create_dir_secure write_atomic write_into
    place_file fill temp_name path_dec text_dec ℕ_discrete
saves1 = refl

load_round1-put_round1_example :
    load_round1 byte toy_disk toy_vault one_byte one_byte checkpoints
      (codes "first")
      1
      (saved empty_disk).1
    ≡ (ok 42, (saved empty_disk).1)
load_round1-put_round1_example =
    load_round1-put_round1 byte toy_disk toy_vault toy_disk-IsDisk toy_vault-Unseals one_byte
      one_byte checkpoints (codes "first") 1 42 empty_disk (saved empty_disk).1 one_byte-ReadsBack
      saves1

unfoldable saved2 : Result StoreError (Unit {0}) × Files
saved2 =
    put_round2 byte toy_disk toy_vault one_byte one_byte checkpoints (codes "first") 1 43 empty_disk

saves2 :
    put_round2 byte toy_disk toy_vault one_byte one_byte checkpoints (codes "first") 1 43 empty_disk
    ≡ (ok tt, saved2.1)
unfolding saved2 put_round2 put_round parent_of encrypt_secret round_path ceremony_dir round_name
    seat_hex hex_encode hex_digit decimal parent create_dir_secure write_atomic write_into
    place_file fill temp_name path_dec text_dec ℕ_discrete
saves2 = refl

loads1 :
    (load_round byte toy_disk toy_vault checkpoints (codes "first") 1 1 (saved empty_disk).1).0
    ≡ ok (42 ∷ [])
unfolding saved put_round1 put_round load_round parent_of encrypt_secret decrypt_secret round_path
    ceremony_dir round_name seat_hex hex_encode hex_digit decimal parent create_dir_secure
    write_atomic write_into place_file fill temp_name path_dec text_dec ℕ_discrete
loads1 = refl

another_ceremony :
    (codes "second" ≡ codes "first")
      × (seat_hex byte 1 ≡ seat_hex byte 1)
      × (round_name byte toy_disk toy_vault 1 ≡ round_name byte toy_disk toy_vault 1)
    → ⊥
another_ceremony (p, q, r) = omega (arith, (cons_injective p).0)

load_round-put_round_other_example :
    (load_round byte toy_disk toy_vault checkpoints
      (codes "first")
      1
      1
      (put_round byte toy_disk toy_vault checkpoints
        (codes "second")
        1
        1
        (7 ∷ [])
        (saved empty_disk).1).1).0
    ≡ ok (42 ∷ [])
load_round-put_round_other_example =
    load_round-put_round_other byte toy_disk toy_vault checkpoints (codes "second") (codes "first")
      1 1 1 1 (7 ∷ []) (42 ∷ []) (saved empty_disk).1 toy_disk-IsDisk another_ceremony loads1

abbrev target : FilePath
target = codes "home" ∷ codes "share.age" ∷ []

other_than_target : (codes "home" ∷ []) ++ (temp_name (codes "9") ∷ []) ≢ target
unfolding temp_name
other_than_target e = omega (arith, (cons_injective (cons_injective (cons_injective e).1).0).0)

abbrev elsewhere : FilePath
elsewhere = codes "other" ∷ []

temp_ne_elsewhere : (codes "home" ∷ []) ++ (temp_name (codes "9") ∷ []) ≢ elsewhere
temp_ne_elsewhere e = omega (arith, (cons_injective (cons_injective e).0).0)

target_ne_elsewhere : target ≢ elsewhere
target_ne_elsewhere e = omega (arith, (cons_injective (cons_injective e).0).0)
