-- ===== src/Session/Gate.antt =====
-- The two coordinator-untrusted gates of a session (src/session/mod.rs, `round2`).
use cheget.Base.{
  ℕ, ◌≡◌, ◌≢◌, Bool, true, List, [], ◌∷◌, some, ok, err, Result-cases, Bool-cases, inl, inr, arith,
}
use cheget.Base.OrdMap.{Map, get}
use cheget.Crypto.Frost.{Frost}
use cheget.Crypto.Signing.{Signing, KeepsMessage, output_key_q, aggregate, check_against_q}
use cheget.Chain.{TxOut, Bitcoin, key_spend_sighash}
use cheget.Transport.Envelope.{Seat, commitments, signature_share}
use cheget.Transport.Filter
use cheget.Transport.Trait.{Transport}
use cheget.Session.Display.{blind_sign_mismatch, display_and_ack_blind}
use cheget.Session.Core.{
  display, World, Round1, Session, coordinator_seat, prevouts, sighash, topic,
}
use cheget.Session.Rounds.{
  commit_all, collect_commitments, round1, sign_all, collect_shares, round2,
}

module _ (F : Frost) (S : Signing F) (T : Transport) (B : Bitcoin) where
  -- A seat whose own sighash differs from the message of the signing package refuses, before
  -- anything is published: if this is the first seat of round 2, round 2 returns the blind-sign
  -- error and leaves the transport as it was, whether or not the spend was acknowledged.
  pub round2_blind :
      (s : Session F B) (i : ℕ) (r1 : Round1 F S) (ack : Bool) (w : World F T) (id : F.Identifier)
      (nonce : S.Nonces) (rest : Map F.Identifier S.Nonces) (kp : F.KeyPackage) (seat : Seat)
      (outs : List TxOut) (own : List ℕ)
      → r1.nonces ≡ (id, nonce) ∷ rest
      → get ⦃r = F.ranked⦄ id s.key_packages ≡ some kp
      → get ⦃r = F.ranked⦄ id s.seat_of_id ≡ some seat
      → prevouts F B s ≡ ok outs
      → key_spend_sighash B.taproot_sighash s.psbt.unsigned_tx i outs ≡ ok own
      → own ≢ S.message r1.signing_package
      → round2 F S T B s i r1 ack w ≡ (err (display (blind_sign_mismatch i)), w)
  unfolding round2 sign_all
  round2_blind s i r1 ack w id nonce rest kp seat outs own n p q o h d =
      let g =
        display_and_ack_blind B.sum_amounts B.address_from_script B.taproot_sighash
          s.psbt.unsigned_tx outs i (S.message r1.signing_package) own ack s.network h d in
      ground arith

  -- The message of the package that a successful round 1 hands out is the session's own sighash of
  -- the input, where a signing package keeps the message it is made of.
  pub round1-message :
      (s : Session F B) (i : ℕ) (selected : List F.Identifier) (w w' : World F T) (r1 : Round1 F S)
      → KeepsMessage S
      → round1 F S T B s i selected w ≡ (ok r1, w')
      → sighash F B s i ≡ ok (S.message r1.signing_package)
  unfolding round1
  round1-message s i selected w w' r1 law h = elim (Result-cases (sighash F B s i)) [
    | inr (e, p) ↦ absurd (ground arith)
    | inl (digest, p) ↦
        let made = commit_all F S T B s (topic F B s i) selected [] w in
        elim (Result-cases made.0) [
          | inr (e, q) ↦ absurd (ground arith)
          | inl (nonces, q) ↦
              let mail =
                T.subscribe
                  (Filter.round 1
                    (Filter.ceremony (topic F B s i) (Filter.class commitments Filter.all)))
                  made.1.board in
              elim (Result-cases (collect_commitments F S T B s selected mail [])) [
                | inr (e, r) ↦ absurd (ground arith)
                | inl (found, r) ↦ ground (arith, law found digest)
              ]
        ]
  ]

  -- A signature that round 2 returns verifies under the group's output key, over the message of the
  -- package.
  pub round2-verified :
      (s : Session F B) (i : ℕ) (r1 : Round1 F S) (ack : Bool) (w w' : World F T)
      (sig : S.Signature)
      → round2 F S T B s i r1 ack w ≡ (ok sig, w')
      → S.verify (output_key_q F S s.group) (S.message r1.signing_package) sig ≡ true
  unfolding round2 check_against_q
  round2-verified s i r1 ack w w' sig h = elim (Result-cases (prevouts F B s)) [
    | inr (e, p) ↦ absurd (ground arith)
    | inl (outs, p) ↦
        let signed = sign_all F S T B s i outs r1.signing_package ack r1.nonces w in
        elim (Result-cases signed.0) [
          | inr (e, q) ↦ absurd (ground arith)
          | inl (u, q) ↦
              let mail =
                T.subscribe
                  (Filter.recipient coordinator_seat (
                    Filter.round 2
                      (Filter.ceremony (topic F B s i) (Filter.class signature_share Filter.all))))
                  signed.1.board in
              elim (Result-cases (collect_shares F S T B s mail [])) [
                | inr (e, r) ↦ absurd (ground arith)
                | inl (shares, r) ↦
                    elim (Result-cases (aggregate F S r1.signing_package shares s.group)) [
                      | inr (e, t) ↦ absurd (ground arith)
                      | inl (a, t) ↦
                          elim (Bool-cases (
                            S.verify (output_key_q F S s.group) (S.message r1.signing_package) a)) [
                              | inr n ↦ absurd (ground arith)
                              | inl y ↦ ground arith
                            ]
                    ]
              ]
        ]
  ]
