-- ===== src/Session/Rounds.antt =====
-- src/session/mod.rs: the liveness poll, the two rounds, and the run over all inputs.
use cheget.Base.{
  ℕ, zero, suc, ◌+◌, Option, none, some, List, [], ◌∷◌, ◌++◌, Bool, true, false, Text, codes,
  length, if◌then◌else◌, ◌==◌, map_err, ok_or, ok, err, Result, get_elem?, set,
}
use cheget.Base
use cheget.Base.OrdMap.{Map, get, insert, keys, ranked_ℕ}
use cheget.Crypto.Frost.{Frost}
use cheget.Crypto.Signing.{
  Signing, aggregate, check_against_q, signature_bytes, commit_nonces, sign_nonces,
}
use cheget.Chain.{TxOut, Transaction, Bitcoin}
use cheget.Transport.Envelope.{
  Envelope, Seat, commitments, signature_share, session_control, broadcast, directed,
}
use cheget.Transport.Filter
use cheget.Transport.Trait.{Transport}
use cheget.Session.Liveness.{poll_and_select}
use cheget.Session.Display.{display_and_ack}
use cheget.Base.Effects.{M, pure, lift, ◌>>=◌, ◌>>◌}
use cheget.Session.Core.{
  SessionError, liveness, display, aggregation, frost, unknown_seat, spent_session, World, Round1,
  Session, coordinator_seat, prevouts, sighash, topic,
}

-- `sort()` and `dedup()` of identifiers.
module _ (F : Frost) where
  unfoldable pub place : F.Identifier → List F.Identifier → List F.Identifier
  place a [] = a ∷ []
  place a (b ∷ bs) =
      let more = place a bs in
      if Base.leb (F.ranked.rank a) (F.ranked.rank b) then a ∷ b ∷ bs else b ∷ more

  unfoldable pub sort : List F.Identifier → List F.Identifier
  unfolding place
  sort [] = []
  sort (a ∷ as') = place a (sort as')

  unfoldable pub skip_repeats : F.Identifier → List F.Identifier → List F.Identifier
  skip_repeats a [] = []
  skip_repeats a (b ∷ bs) =
      let more = skip_repeats b bs in if F.ranked.rank a == F.ranked.rank b then more else b ∷ more

  unfoldable pub dedup : List F.Identifier → List F.Identifier
  unfolding skip_repeats
  dedup [] = []
  dedup (a ∷ as') = a ∷ skip_repeats a as'

  -- `selected.contains(id)`
  unfoldable pub contains : List F.Identifier → F.Identifier → Bool
  contains [] a = false
  contains (b ∷ bs) a = if F.ranked.rank a == F.ranked.rank b then true else contains bs a

-- `tx.input[i].witness = Witness::from_slice(&[bytes])`
unfoldable pub attach : Transaction → ℕ → List ℕ → Transaction
attach tx i bytes = elim (get_elem? tx.input i) [
  | none ↦ tx
  | some txin ↦ record tx { input = set tx.input i (record txin { witness = bytes ∷ [] }) }
]

module _ (F : Frost) (S : Signing F) (T : Transport) (B : Bitcoin) where
  abbrev pub Act : Type 0 → Type 0
  Act A = M (World F T) (SessionError F) A

  abbrev pub publish : Envelope → Act (Unit {0})
  publish e w = (ok tt, record w { board = (T.publish e w.board).1 })

  abbrev pub subscribe : Filter.Filter → Act (List Envelope)
  subscribe f w = (ok (T.subscribe f w.board), w)

  unfoldable pub announce : Session F B → List Seat → Act (Unit {0})
  announce s [] = pure tt
  announce s (seat ∷ seats) = do
    publish (broadcast session_control s.id 0 seat (codes "live"))
    announce s seats

  -- `filter_map(|e| self.id_of_seat.get(&e.seat).copied())`
  unfoldable pub senders : Session F B → List Envelope → List F.Identifier
  senders s [] = []
  senders s (e ∷ es) = elim (get e.seat s.id_of_seat) [
    | none ↦ senders s es
    | some id ↦ id ∷ senders s es
  ]

  -- What the poll subscribes to.
  abbrev pub poll_filter : Session F B → Filter.Filter
  poll_filter s = Filter.ceremony s.id (Filter.class session_control Filter.all)

  unfoldable pub liveness_select : Session F B → Act (List F.Identifier)
  liveness_select s = do
    announce s (keys s.id_of_seat)
    answers ← subscribe (poll_filter s)
    lift (map_err liveness (poll_and_select (dedup F (sort F (senders s answers))) s.t))

  -- The first loop of `round1`: each selected seat commits and publishes.
  unfoldable pub commit_all :
      Session F B
      → Text
      → List F.Identifier
      → Map F.Identifier S.Nonces
      → Act (Map F.Identifier S.Nonces)
  commit_all s topic [] nonces = pure nonces
  commit_all s topic (id ∷ ids) nonces = do
    kp ← lift (ok_or (get ⦃r = F.ranked⦄ id s.key_packages) (unknown_seat id))
    seat ← lift (ok_or (get ⦃r = F.ranked⦄ id s.seat_of_id) (unknown_seat id))
    (nonce, c) ←
        λ w. let (made, rng) = commit_nonces F S kp w.rng in (ok made, record w { rng = rng })
    payload ← lift (map_err frost (S.commitments_to c))
    publish (broadcast commitments topic 1 seat payload)
    commit_all s topic ids (insert ⦃r = F.ranked⦄ id nonce nonces)

  -- The second loop: what the transport delivers of the selected seats.
  unfoldable pub collect_commitments :
      Session F B
      → List F.Identifier
      → List Envelope
      → Map F.Identifier S.Commitments
      → Result (SessionError F) (Map F.Identifier S.Commitments)
  collect_commitments s selected [] found = ok found
  collect_commitments s selected (e ∷ es) found = elim (get e.seat s.id_of_seat) [
    | none ↦ collect_commitments s selected es found
    | some id ↦ elim (contains F selected id) [
      | false ↦ collect_commitments s selected es found
      | true ↦
          Base.◌>>=◌ (map_err frost (S.commitments_from e.payload))
            λ c. collect_commitments s selected es (insert ⦃r = F.ranked⦄ id c found)
    ]
  ]

  unfoldable pub round1 : Session F B → ℕ → List F.Identifier → Act (Round1 F S)
  round1 s input_index selected = do
    digest ← lift (sighash F B s input_index)
    let topic_id = topic F B s input_index
    nonces ← commit_all s topic_id selected []
    collected ←
        subscribe (Filter.round 1 (Filter.ceremony topic_id (Filter.class commitments Filter.all)))
    found ← lift (collect_commitments s selected collected [])
    pure (record { signing_package = S.new_package found digest; nonces = nonces })

  -- The first loop of `round2`: each seat passes the display gate, signs and publishes.
  unfoldable pub sign_all :
      Session F B → ℕ → List TxOut → S.Package → Bool → Map F.Identifier S.Nonces → Act (Unit {0})
  sign_all s input_index outs pkg ack [] = pure tt
  sign_all s input_index outs pkg ack ((id, nonce) ∷ nonces) = do
    kp ← lift (ok_or (get ⦃r = F.ranked⦄ id s.key_packages) (unknown_seat id))
    seat ← lift (ok_or (get ⦃r = F.ranked⦄ id s.seat_of_id) (unknown_seat id))
    _ ← lift (
        map_err display (
          display_and_ack B.sum_amounts B.address_from_script B.taproot_sighash s.psbt.unsigned_tx
            outs input_index (S.message pkg) ack s.network))
    share ← lift (map_err frost (sign_nonces F S nonce pkg kp))
    publish (
        directed signature_share (topic F B s input_index) 2 seat coordinator_seat
          (S.share_to share))
    sign_all s input_index outs pkg ack nonces

  unfoldable pub collect_shares :
      Session F B
      → List Envelope
      → Map F.Identifier S.Share
      → Result (SessionError F) (Map F.Identifier S.Share)
  collect_shares s [] found = ok found
  collect_shares s (e ∷ es) found = elim (get e.seat s.id_of_seat) [
    | none ↦ collect_shares s es found
    | some id ↦
        Base.◌>>=◌ (map_err frost (S.share_from e.payload))
          λ share. collect_shares s es (insert ⦃r = F.ranked⦄ id share found)
  ]

  unfoldable pub round2 : Session F B → ℕ → Round1 F S → Bool → Act S.Signature
  round2 s input_index r1 ack = do
    let topic_id = topic F B s input_index
    outs ← lift (prevouts F B s)
    sign_all s input_index outs r1.signing_package ack r1.nonces
    collected ← subscribe (
        Filter.recipient coordinator_seat
          (Filter.round 2 (Filter.ceremony topic_id (Filter.class signature_share Filter.all))))
    shares ← lift (collect_shares s collected [])
    sig ← lift (map_err aggregation (aggregate F S r1.signing_package shares s.group))
    lift (map_err aggregation (check_against_q F S sig (S.message r1.signing_package) s.group))
    pure sig

  -- The loop of `run`: `k` inputs are left, from input `i` on.
  unfoldable pub sign_inputs :
      Session F B → List F.Identifier → Bool → ℕ → ℕ → Transaction → Act Transaction
  sign_inputs s selected ack zero i tx = pure tx
  sign_inputs s selected ack (suc k) i tx = do
    r1 ← round1 s i selected
    sig ← round2 s i r1 ack
    bytes ← lift (map_err aggregation (signature_bytes F S sig))
    sign_inputs s selected ack k (i + 1) (attach tx i bytes)

  -- `run` before its last assignment.
  unfoldable pub run_inputs : Session F B → Bool → Act Transaction
  run_inputs s ack = do
    selected ← liveness_select s
    sign_inputs s selected ack (length s.psbt.unsigned_tx.input) 0 s.psbt.unsigned_tx

  -- The session that `run` leaves behind, its result, and the state.
  unfoldable pub run :
      Session F B → Bool → World F T → Session F B × Result (SessionError F) Transaction × World F T
  run s ack w =
      if s.spent
      then (s, err spent_session, w)
      else (let out = run_inputs s ack w in
          elim out.0 [
            | ok tx ↦ (record s { spent = true }, ok tx, out.1)
            | err e ↦ (s, err e, out.1)
          ])
