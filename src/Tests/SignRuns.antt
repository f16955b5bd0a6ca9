-- ===== src/Tests/SignRuns.antt =====
-- The command `sign` on a toy machine: two simulated seats, and an operator who types `y`.
use cheget.Base.{
  ℕ, ◌+◌, ◌≡◌, refl, none, some, [], ◌∷◌, false, text_dec, ℕ_discrete, codes, Result, ok, err,
}
use cheget.Base.Decimal.{decimal}
use cheget.Base.OrdMap.{get, insert, remove, or_insert}
use cheget.Chain.{Transaction, key_spend_sighash}
use cheget.Crypto.Keygen.{
  run_inprocess_dkg_with_rng, rounds2_3, round1, part2_of, part3_of, fan_out, resolve2, resolve3,
  finish,
}
use cheget.Crypto.Pool.{map_with, worker, turn}
use cheget.Crypto.Signing.{
  aggregate, check_against_q, output_key_q, signature_bytes, commit_nonces, sign_nonces,
  internal_key_xonly, address_from_group_key,
}
use cheget.Transport.Trait.{in_memory}
use cheget.Transport.InMemory
use cheget.Transport.Filter
use cheget.Transport.Envelope.{
  broadcast, directed, id, mix, mix_recipient, tag, to_le_bytes, class_dec,
}
use cheget.Session.Liveness.{poll_and_select}
use cheget.Session.Display.{display_and_ack, summarize, saturating_fee}
use cheget.Session.Core.{new, assign_seats, prevouts, sighash, topic, preview}
use cheget.Session.Rounds
use cheget.Session.Rounds.{
  sort, dedup, contains, announce, senders, liveness_select, commit_all, collect_commitments,
  sign_all, collect_shares, round2, attach, sign_inputs, run_inputs, run,
}
use cheget.Store.Errors.{not_found}
use cheget.Cli.Address.{regtest, known_hrp}
use cheget.Cli.Keygen.{run_inprocess_dkg}
use cheget.Cli.System.{Machine, System}
use cheget.Cli.Sign.Run.{
  SignArgs, RunError, is_ack, sign_tn, read_psbt, check_pair, simulated_keys, keys_of,
  bitcoin_network, group_address, session_of, checked_session, begin_session, prompt_ack, authorize,
  sign_session, run_sign,
}
use cheget.Cli.Sign.Delivered.{Delivers, run_sign-Delivers}
use cheget.Tests.Toy.{
  toy, toy_signing, toy-KeepsMessage, toy_bitcoin, payment, signed_input, two_inputs,
}
use cheget.Tests.ToyDisk.{toy_disk, empty_disk, update, path_dec, toy_vault, byte}
use cheget.Tests.StoredRuns.{formats, draws, alone}

abbrev pub desk : System toy toy_signing toy_bitcoin toy_disk toy_vault ℕ
desk = record {
  psbt_from = λ raw. some two_inputs;
  bitcoin_net = tt;
  testnet_net = tt;
  signet_net = tt;
  regtest_net = tt;
  Address = ℕ;
  p2tr = λ x hrp. x;
  to_secret = λ text. 4;
  prompt_password = λ message n. (ok (codes "pw"), n + 1);
  read_line = λ n. (ok (codes "y"), n + 1);
  trim = λ text. text;
  read_dir = λ path s. err not_found;
  to_path = λ text. text ∷ [];
  home_var = none;
  home_dir = none;
  draws = draws;
  bytes = byte;
  from_bytes = λ bytes. none;
  formats = formats;
  split2 = alone;
  split3 = alone;
}

abbrev pub asked : SignArgs
asked = record {
  session = none;
  psbt = some (codes "tx" ∷ []);
  seats = some 2;
  threshold = some 2;
  full = false;
  network = regtest;
  is_persist = false;
  base = none;
  yes_flag = false;
}

abbrev pub start : Machine toy toy_disk ℕ
start = record { disk = update (codes "tx" ∷ []) (ok (1 ∷ [])) empty_disk; terminal = 0; rng = 0 }

unfoldable ended : Result (RunError toy) Transaction × Machine toy toy_disk ℕ
ended = run_sign toy toy_signing toy_bitcoin toy_disk toy_vault ℕ desk asked start

signs_tx :
    run_sign toy toy_signing toy_bitcoin toy_disk toy_vault ℕ desk asked start
    ≡ (ok (payment signed_input), ended.1)
unfolding ended run_sign begin_session read_psbt check_pair sign_tn keys_of simulated_keys
    run_inprocess_dkg run_inprocess_dkg_with_rng rounds2_3 round1 part2_of part3_of fan_out resolve2
    resolve3 finish map_with worker turn get insert remove or_insert checked_session group_address
    address_from_group_key internal_key_xonly known_hrp session_of bitcoin_network new assign_seats
    preview prompt_ack authorize is_ack sign_session run run_inputs liveness_select announce senders
    sort dedup contains poll_and_select commit_all collect_commitments Rounds.round1 sign_all
    collect_shares round2 attach sign_inputs aggregate check_against_q output_key_q signature_bytes
    commit_nonces sign_nonces display_and_ack summarize key_spend_sighash saturating_fee prevouts
    sighash topic in_memory InMemory.new InMemory.publish InMemory.subscribe Filter.matches
    Filter.all Filter.class Filter.ceremony Filter.round Filter.seat Filter.recipient broadcast
    directed id mix mix_recipient tag to_le_bytes class_dec text_dec decimal path_dec ℕ_discrete
signs_tx = refl

run_sign-Delivers_example :
    Delivers toy toy_signing toy_bitcoin toy_disk toy_vault ℕ desk asked start
      (payment signed_input)
run_sign-Delivers_example =
    run_sign-Delivers toy toy_signing toy_bitcoin toy_disk toy_vault ℕ desk asked start ended.1
      (payment signed_input) toy-KeepsMessage signs_tx
