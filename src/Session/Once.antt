-- ===== src/Session/Once.antt =====
-- How often a session runs (`run` of src/session/mod.rs and its flag `spent`).
use cheget.Base.{
  ◌≡◌, sym, ap, ◌∙◌, Bool, true, false, ok, err, Result, Result-cases, Bool-cases, inl, inr, arith,
}
use cheget.Crypto.Frost.{Frost}
use cheget.Crypto.Signing.{Signing}
use cheget.Chain.{Bitcoin, Transaction}
use cheget.Transport.Trait.{Transport}
use cheget.Session.Core.{SessionError, spent_session, World, Session}
use cheget.Session.Rounds.{run, run_inputs}

module _ (F : Frost) (S : Signing F) (T : Transport) (B : Bitcoin) where
  abbrev Outcome : Type 0
  Outcome = Session F B × Result (SessionError F) Transaction × World F T

  run_ok-spent :
      (s s' : Session F B) (ack : Bool) (w w' : World F T) (tx : Transaction)
      → run F S T B s ack w ≡ (s', ok tx, w')
      → s'.spent ≡ true
  unfolding run
  run_ok-spent s s' ack w w' tx h = elim (Bool-cases s.spent) [
    | inl p ↦ absurd (ground arith)
    | inr p ↦ elim (Result-cases (run_inputs F S T B s ack w).0) [
      | inr (e, q) ↦ absurd (ground arith)
      | inl (a, q) ↦ ap (λ x. x.spent) (sym (ap (λ x. x.0) h) ∙ first a p q)
    ]
  ]
    where
      first :
          (a : Transaction)
          → s.spent ≡ false
          → (run_inputs F S T B s ack w).0 ≡ ok a
          → (run F S T B s ack w).0 ≡ record s { spent = true }
      first a p q = ground arith

  -- A session that produced a transaction never runs again: every later run is refused, and touches
  -- neither the session nor the transport.
  pub run_once :
      (s s' : Session F B) (ack ack' : Bool) (w w' later : World F T) (tx : Transaction)
      → run F S T B s ack w ≡ (s', ok tx, w')
      → run F S T B s' ack' later ≡ (s', err spent_session, later)
  unfolding run
  run_once s s' ack ack' w w' later tx h = rw (run_ok-spent s s' ack w w' tx h)

  -- A run that fails hands the session back as it was, so that a session which was not spent is not
  -- spent by the failure.
  pub run_failed :
      (s s' : Session F B) (ack : Bool) (w w' : World F T) (e : SessionError F)
      → run F S T B s ack w ≡ (s', err e, w')
      → s' ≡ s
  unfolding run
  run_failed s s' ack w w' e h = elim (Bool-cases s.spent) [
    | inl p ↦ ground arith
    | inr p ↦ elim (Result-cases (run_inputs F S T B s ack w).0) [
      | inl (a, q) ↦ absurd (ground arith)
      | inr (a, q) ↦ ground arith
    ]
  ]
