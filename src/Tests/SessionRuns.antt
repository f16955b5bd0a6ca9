-- ===== src/Tests/SessionRuns.antt =====
-- Signing sessions of two seats over the in-memory board.
use cheget.Base.Decimal.{decimal}
use cheget.Base.{
  ℕ, ◌≡◌, ◌≢◌, length, refl, Bool, true, false, List, [], ◌∷◌, codes, text_dec, Result, ok, err,
  arith,
}
use cheget.Base.OrdMap.{get, insert, or_insert}
use cheget.Tests.Toy.{
  toy, toy_signing, toy-KeepsMessage, toy_bitcoin, toy_sighash, payment, unsigned_input,
  signed_input, two_inputs, coin,
}
use cheget.Chain.{Transaction, key_spend_sighash}
use cheget.Crypto.Signing.{
  aggregate, check_against_q, output_key_q, signature_bytes, commit_nonces, sign_nonces,
}
use cheget.Transport.Trait.{in_memory}
use cheget.Transport.InMemory
use cheget.Transport.Filter
use cheget.Transport.Envelope.{
  broadcast, directed, id, mix, mix_recipient, tag, to_le_bytes, class_dec,
}
use cheget.Session.Liveness.{poll_and_select}
use cheget.Session.Display.{
  display_and_ack, summarize, saturating_fee, display_and_ack_blind, ack_required,
  blind_sign_mismatch,
}
use cheget.Session.Core.{
  SessionError, display, spent_session, World, Session, Round1, new, assign_seats, prevouts,
  sighash, topic,
}
use cheget.Session.Rounds.{
  sort, dedup, contains, announce, senders, poll_filter, liveness_select, commit_all,
  collect_commitments, round1, sign_all, collect_shares, round2, attach, sign_inputs, run_inputs,
  run,
}
use cheget.Session.Selected.{Rising, Answered, liveness_select_lem}
use cheget.Session.Once.{run_once, run_failed}
use cheget.Session.Gate.{round2_blind}
use cheget.Session.Signed.{run-strip, run-Signed, Signed}
use cheget.Session.Attach.{strip}

unfoldable pub session : Session toy toy_bitcoin
unfolding new assign_seats insert
session = new toy toy_bitcoin (codes "s") ((1, (1, 7)) ∷ (2, (2, 7)) ∷ []) 7 two_inputs 2 tt

unfoldable pub quiet : World toy in_memory
unfolding in_memory InMemory.new
quiet = record { board = InMemory.new; rng = 5 }

unfoldable outcome :
    Bool → Session toy toy_bitcoin × Result (SessionError toy) Transaction × World toy in_memory
outcome ack = run toy toy_signing in_memory toy_bitcoin session ack quiet

-- The whole session, evaluated.
signs :
    run toy toy_signing in_memory toy_bitcoin session true quiet
    ≡ ((outcome true).0, ok (payment signed_input), (outcome true).2)
unfolding outcome run run_inputs liveness_select announce senders sort dedup contains
    poll_and_select commit_all collect_commitments round1 sign_all collect_shares round2 attach
    sign_inputs aggregate check_against_q output_key_q signature_bytes commit_nonces sign_nonces
    display_and_ack summarize key_spend_sighash saturating_fee prevouts sighash topic in_memory
    InMemory.publish InMemory.subscribe Filter.matches Filter.all Filter.class Filter.ceremony
    Filter.round Filter.seat Filter.recipient broadcast directed id mix mix_recipient tag
    to_le_bytes get insert or_insert session quiet class_dec text_dec decimal
signs = refl

run-strip_example : strip (payment signed_input) ≡ strip (payment unsigned_input)
unfolding session
run-strip_example =
    run-strip toy toy_signing in_memory toy_bitcoin session (outcome true).0 true
      (payment signed_input) quiet (outcome true).2 signs

run-Signed_example : Signed toy toy_signing in_memory toy_bitcoin session 1 signed_input
run-Signed_example =
    run-Signed toy toy_signing in_memory toy_bitcoin session (outcome true).0 true
      (payment signed_input) quiet (outcome true).2 1 signed_input toy-KeepsMessage signs refl

run_once_example :
    run toy toy_signing in_memory toy_bitcoin (outcome true).0 true quiet
    ≡ ((outcome true).0, err spent_session, quiet)
run_once_example =
    run_once toy toy_signing in_memory toy_bitcoin session (outcome true).0 true true quiet
      (outcome true).2 quiet (payment signed_input) signs

-- Without the acknowledgement the first seat refuses.
refuses :
    run toy toy_signing in_memory toy_bitcoin session false quiet
    ≡ ((outcome false).0, err (display ack_required), (outcome false).2)
unfolding outcome run run_inputs liveness_select announce senders sort dedup contains
    poll_and_select commit_all collect_commitments round1 sign_all collect_shares round2 attach
    sign_inputs aggregate check_against_q output_key_q signature_bytes commit_nonces sign_nonces
    display_and_ack summarize key_spend_sighash saturating_fee prevouts sighash topic in_memory
    InMemory.publish InMemory.subscribe Filter.matches Filter.all Filter.class Filter.ceremony
    Filter.round Filter.seat Filter.recipient broadcast directed id mix mix_recipient tag
    to_le_bytes get insert or_insert session quiet class_dec text_dec decimal
refuses = refl

run_failed_example : (outcome false).0 ≡ session
run_failed_example =
    run_failed toy toy_signing in_memory toy_bitcoin session (outcome false).0 false quiet
      (outcome false).2 (display ack_required) refuses

abbrev pub two_seats : List ℕ
two_seats = 1 ∷ 2 ∷ []

unfoldable first_round : Result (SessionError toy) (Round1 toy toy_signing) × World toy in_memory
first_round = round1 toy toy_signing in_memory toy_bitcoin session 0 two_seats quiet

-- The package of input 0: the nonces of the two seats, and the session's sighash.
abbrev honest : Round1 toy toy_signing
honest = record {
  signing_package = ((1, 5) ∷ (2, 6) ∷ [], 0 ∷ 2 ∷ []);
  nonces = (1, 5) ∷ (2, 6) ∷ [];
}

-- The same nonces with another message.
abbrev forged : Round1 toy toy_signing
forged = record { signing_package = ((1, 5) ∷ (2, 6) ∷ [], 9 ∷ []); nonces = (1, 5) ∷ (2, 6) ∷ [] }

commits :
    round1 toy toy_signing in_memory toy_bitcoin session 0 two_seats quiet
    ≡ (ok honest, first_round.1)
unfolding first_round run run_inputs liveness_select announce senders sort dedup contains
    poll_and_select commit_all collect_commitments round1 sign_all collect_shares round2 attach
    sign_inputs aggregate check_against_q output_key_q signature_bytes commit_nonces sign_nonces
    display_and_ack summarize key_spend_sighash saturating_fee prevouts sighash topic in_memory
    InMemory.publish InMemory.subscribe Filter.matches Filter.all Filter.class Filter.ceremony
    Filter.round Filter.seat Filter.recipient broadcast directed id mix mix_recipient tag
    to_le_bytes get insert or_insert session quiet class_dec text_dec decimal
commits = refl

unfoldable second_round : Result (SessionError toy) ℕ × World toy in_memory
second_round = round2 toy toy_signing in_memory toy_bitcoin session 0 honest true quiet

shares :
    round2 toy toy_signing in_memory toy_bitcoin session 0 honest true quiet
    ≡ (ok 2, second_round.1)
unfolding second_round run run_inputs liveness_select announce senders sort dedup contains
    poll_and_select commit_all collect_commitments round1 sign_all collect_shares round2 attach
    sign_inputs aggregate check_against_q output_key_q signature_bytes commit_nonces sign_nonces
    display_and_ack summarize key_spend_sighash saturating_fee prevouts sighash topic in_memory
    InMemory.publish InMemory.subscribe Filter.matches Filter.all Filter.class Filter.ceremony
    Filter.round Filter.seat Filter.recipient broadcast directed id mix mix_recipient tag
    to_le_bytes get insert or_insert session quiet class_dec text_dec decimal
shares = refl

forged_message : ◌≢◌ {A = List ℕ} (0 ∷ 2 ∷ []) (9 ∷ [])
forged_message e = ground arith

round2_blind_example :
    round2 toy toy_signing in_memory toy_bitcoin session 0 forged true quiet
    ≡ (err (display (blind_sign_mismatch 0)), quiet)
unfolding session get prevouts key_spend_sighash new assign_seats insert
round2_blind_example =
    round2_blind toy toy_signing in_memory toy_bitcoin session 0 forged true quiet 1 5 ((2, 6) ∷ [])
      (1, 7) 1 (coin ∷ coin ∷ []) (0 ∷ 2 ∷ []) refl refl refl refl refl forged_message

display_and_ack_blind_example :
    display_and_ack {Network = Unit {0}} toy_bitcoin.sum_amounts toy_bitcoin.address_from_script
      toy_sighash
      (payment unsigned_input)
      (coin ∷ [])
      0
      (9 ∷ [])
      true
      tt
    ≡ err (blind_sign_mismatch 0)
unfolding key_spend_sighash
display_and_ack_blind_example =
    display_and_ack_blind toy_bitcoin.sum_amounts toy_bitcoin.address_from_script toy_sighash
      (payment unsigned_input) (coin ∷ []) 0 (9 ∷ []) (0 ∷ 1 ∷ []) true tt refl other_message
  where
    other_message : ◌≢◌ {A = List ℕ} (0 ∷ 1 ∷ []) (9 ∷ [])
    other_message e = ground arith

abbrev polled : World toy in_memory
polled = (liveness_select toy toy_signing in_memory toy_bitcoin session quiet).1

polls : liveness_select toy toy_signing in_memory toy_bitcoin session quiet ≡ (ok two_seats, polled)
unfolding liveness_select announce senders sort dedup poll_and_select in_memory InMemory.publish
    InMemory.subscribe Filter.matches Filter.all Filter.class Filter.ceremony broadcast id mix
    mix_recipient tag to_le_bytes get insert or_insert session quiet class_dec text_dec
polls = refl

liveness_select_lem_example :
    (length two_seats ≡ session.t)
    × Rising toy two_seats
    × Answered toy toy_signing in_memory toy_bitcoin session
        (in_memory.subscribe
          (poll_filter toy toy_signing in_memory toy_bitcoin session)
          polled.board)
        two_seats
liveness_select_lem_example =
    liveness_select_lem toy toy_signing in_memory toy_bitcoin session quiet polled two_seats polls
