-- ===== src/Tests/ShareRuns.antt =====
-- Shares of a participant.
use cheget.Base.{ℕ, ◌≡◌, ◌⊎◌, refl, none, some, [], ◌∷◌, text_dec, ℕ_discrete, codes, Result, ok}
use cheget.Base.Decimal.{decimal}
use cheget.Base.Hex.{hex_encode, hex_digit}
use cheget.Store.Errors.{StoreError}
use cheget.Store.Disk.{parent}
use cheget.Store.Atomic.{temp_name, create_dir_secure, fill, place_file, write_into, write_atomic}
use cheget.Store.Vault.{encrypt_secret}
use cheget.Store.Manifest.{
  active, seat_hex, new, add_entry, replace_first, new_entry, has_tag, to_json_bytes,
}
use cheget.Store.Checkpoint.{parent_of}
use cheget.Store.Participant.{
  ShareTag, ParticipantStore, Formats, manifest_path, share_path, public_path, load_manifest,
  put_public_envelope, put_ciphertext, put_index, put_share, load_share,
}
use cheget.Store.Participant.Laws.{load_share-put_share}
use cheget.Store.Participant.IndexLast.{put_share_lem}
use cheget.Cli.Address.{from_package}
use cheget.Tests.ToyDisk.{
  path_dec, Files, update, toy_disk, toy_disk-IsDisk, empty_disk, toy_vault, toy_vault-Unseals,
  one_byte, one_byte-ReadsBack, byte,
}

-- Formats that keep a share, and the version of the index.
abbrev formats : Formats ℕ ℕ
formats = record {
  share_format = one_byte;
  group_format = one_byte;
  envelope_format = record { to = λ e. some (e.epoch ∷ []); from = λ bytes. none };
  manifest_format = record { to = λ m. some (m.schema_version ∷ []); from = λ bytes. none };
}

abbrev shares : ParticipantStore toy_vault
shares = record {
  root = codes "home" ∷ [];
  vault_salt = tt;
  public_suffix = codes "1";
  share_suffix = codes "2";
  manifest_suffix = codes "3";
  now_unix = 100;
}

abbrev seat_one : ShareTag ℕ
seat_one = record { key_id = codes "active"; epoch = 0; seat = 1 }

unfoldable stored : Result StoreError (Unit {0}) × Files
stored = put_share byte toy_disk toy_vault formats shares seat_one 42 7 active empty_disk

stores :
    put_share byte toy_disk toy_vault formats shares seat_one 42 7 active empty_disk
    ≡ (ok tt, stored.1)
unfolding stored put_share put_public_envelope put_ciphertext put_index load_manifest manifest_path
    share_path public_path parent_of encrypt_secret from_package to_json_bytes add_entry
    replace_first new_entry new has_tag seat_hex hex_encode hex_digit decimal parent
    create_dir_secure write_atomic write_into place_file fill temp_name path_dec text_dec ℕ_discrete
stores = refl

load_share-put_share_example :
    load_share byte toy_disk toy_vault formats shares seat_one stored.1 ≡ (ok 42, stored.1)
load_share-put_share_example =
    load_share-put_share byte toy_disk toy_vault formats toy_disk-IsDisk shares seat_one 42 7 active
      empty_disk stored.1 toy_vault-Unseals one_byte-ReadsBack stores

-- A disk with an index.
abbrev indexed : Files
indexed = update (codes "home" ∷ codes "manifest.json" ∷ []) (ok (1 ∷ [])) empty_disk

indexed_home :
    toy_disk.read (manifest_path byte toy_disk toy_vault formats shares) indexed ≡ ok (1 ∷ [])
unfolding manifest_path path_dec text_dec ℕ_discrete
indexed_home = refl

put_share_lem_example :
    (toy_disk.read
        (manifest_path byte toy_disk toy_vault formats shares)
        (put_share byte toy_disk toy_vault formats shares seat_one 42 7 active indexed).1
      ≡ ok (1 ∷ []))
    ⊎ ((load_share byte toy_disk toy_vault formats shares seat_one
          (put_share byte toy_disk toy_vault formats shares seat_one 42 7 active indexed).1).0
        ≡ ok 42)
put_share_lem_example =
    put_share_lem byte toy_disk toy_vault formats toy_disk-IsDisk shares seat_one 42 7 active
      indexed (1 ∷ []) toy_vault-Unseals one_byte-ReadsBack indexed_home
