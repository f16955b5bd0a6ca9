-- ===== src/Tests/CommandRuns.antt =====
-- Commands on the toy machine.
use cheget.Base.{
  ℕ, ◌≡◌, refl, none, some, [], ◌∷◌, false, text_dec, ℕ_discrete, codes, Result, ok, err, map_err,
}
use cheget.Base.OrdMap.{get, insert, remove}
use cheget.Base.Hex.{hex_encode, hex_digit}
use cheget.Crypto.Keygen.{
  run_inprocess_dkg_with_rng, rounds2_3, round1, part2_of, part3_of, fan_out, resolve2, resolve3,
  finish,
}
use cheget.Crypto.Pool.{map_with, worker, turn}
use cheget.Crypto.Signing.{address_from_group_key}
use cheget.Store.Disk.{FilePath}
use cheget.Coordinator.Sql.{sqlite_failure}
use cheget.Cli.Address.{Network, known_hrp, bridge, from_package}
use cheget.Cli.Address.File.{address_from_pubkey_file}
use cheget.Cli.System.{Machine, System}
use cheget.Cli.Keygen.{KeygenArgs, CliError, check_args, resolve_tn, run_inprocess_dkg}
use cheget.Cli.Keygen.Run.{
  write_public_envelope, generate_group, make_group, publish_group, publish_if, run_keygen,
}
use cheget.Cli.Keygen.Published.{Generates, run_keygen-address}
use cheget.Cli.Dispatch.{participant, sign, dispatch, dispatch-disk}
use cheget.Tests.Toy.{toy, toy_signing, toy_bitcoin}
use cheget.Tests.ToyDisk.{toy_disk, toy_disk-IsDisk, toy_vault, path_dec}
use cheget.Tests.ToyEngine.{toy_engine}
use cheget.Tests.SignRuns.{desk, asked, start}
use cheget.Tests.ReloadRuns.{
  tally, count, stored_formats, small-ReadsBack, small-WritesBytes, artifact-ReadsBack,
}

abbrev store_desk : System toy toy_signing toy_bitcoin toy_disk toy_vault ℕ
store_desk = record desk { bytes = tally; from_bytes = count; formats = stored_formats }

abbrev artifact_path : FilePath
artifact_path = codes "pk.json" ∷ []

abbrev two_of_two : KeygenArgs
two_of_two = record {
  seats = some 2;
  threshold = some 2;
  full = false;
  key_id = codes "active";
  out = some artifact_path;
  is_persist = false;
  base = none;
}

unfoldable made : Result (CliError toy) (Unit {0}) × Machine toy toy_disk ℕ
made = run_keygen toy toy_signing toy_bitcoin toy_disk toy_vault ℕ store_desk two_of_two start

makes :
    run_keygen toy toy_signing toy_bitcoin toy_disk toy_vault ℕ store_desk two_of_two start
    ≡ (ok tt, made.1)
unfolding made run_keygen check_args resolve_tn make_group generate_group publish_if publish_group
    write_public_envelope from_package run_inprocess_dkg run_inprocess_dkg_with_rng rounds2_3 round1
    part2_of part3_of fan_out resolve2 resolve3 finish map_with worker turn get insert remove
    hex_encode hex_digit text_dec ℕ_discrete path_dec
makes = refl

run_keygen-address_example :
    (group : ℕ) × Generates toy toy_signing toy_bitcoin toy_disk toy_vault ℕ store_desk
      toy_disk-IsDisk small-ReadsBack small-WritesBytes artifact-ReadsBack
      (resolve_tn two_of_two).0
      (resolve_tn two_of_two).1
      0
      group
    × ((network : Network)
        → address_from_pubkey_file toy toy_signing toy_disk stored_formats store_desk.p2tr
            artifact_path network made.1.disk
          ≡ map_err
              (λ e. bridge)
              (address_from_group_key toy toy_signing store_desk.p2tr group (known_hrp network)))
run_keygen-address_example =
    run_keygen-address toy toy_signing toy_bitcoin toy_disk toy_vault ℕ store_desk toy_disk-IsDisk
      small-ReadsBack small-WritesBytes artifact-ReadsBack two_of_two artifact_path start made.1
      refl makes

dispatch-disk_example :
    (dispatch toy toy_signing toy_bitcoin toy_disk toy_vault ℕ desk toy_engine
      (λ path s. (err sqlite_failure, s))
      (participant (sign asked))
      start).1.disk
    ≡ start.disk
dispatch-disk_example =
    dispatch-disk toy toy_signing toy_bitcoin toy_disk toy_vault ℕ desk toy_engine
      (λ path s. (err sqlite_failure, s)) (participant (sign asked)) start tt
