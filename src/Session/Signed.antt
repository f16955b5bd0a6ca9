-- ===== src/Session/Signed.antt =====
-- What a run delivers (`run` of src/session/mod.rs): the unsigned transaction, with one verified
-- signature as the whole witness of every input.
use cheget.Base.{
  ℕ, zero, suc, ◌+◌, ◌<◌, ◌≤◌, ◌≡◌, sym, ap, ◌∙◌, Bool, true, some, List, [], ◌∷◌, length,
  get_elem?, ok, Result-cases, ok_injective, Bool-cases, inl, inr, arith, ◌==◌,
}
use mathlib.Core.Path.{subst}
use cheget.Crypto.Frost.{Frost}
use cheget.Crypto.Signing.{Signing, KeepsMessage, output_key_q, signature_bytes}
use cheget.Chain.{TxIn, Transaction, Bitcoin}
use cheget.Transport.Trait.{Transport}
use cheget.Session.Core.{World, Round1, Session, sighash}
use cheget.Session.Rounds.{round1, round2, attach, sign_inputs, liveness_select, run_inputs, run}
use cheget.Session.Gate.{round1-message, round2-verified}
use cheget.Session.Attach.{strip, strip-attach, attach-other, attach-witness, get_elem?-bound}

module _ (F : Frost) (S : Signing F) (T : Transport) (B : Bitcoin) where
  -- The witness of an input is one signature of 64 bytes that verifies, under the group's output
  -- key, over the session's sighash of that input.
  abbrev pub Signed : Session F B → ℕ → TxIn → Type 0
  Signed s i txin =
      (sig : S.Signature) × (bytes : List ℕ) × (digest : List ℕ) × (sighash F B s i ≡ ok digest)
      × (S.verify (output_key_q F S s.group) digest sig ≡ true)
      × (S.signature_to sig ≡ ok bytes)
      × (length bytes ≡ 64)
      × (txin.witness ≡ bytes ∷ [])

  signature_bytes-eq-ok :
      (sig : S.Signature) (bytes : List ℕ)
      → signature_bytes F S sig ≡ ok bytes
      → (S.signature_to sig ≡ ok bytes) × (length bytes ≡ 64)
  unfolding signature_bytes
  signature_bytes-eq-ok sig bytes h = ground arith

  -- The three steps that sign one input, in a run of the loop that succeeds.
  abbrev Steps :
      Session F B
      → List F.Identifier
      → Bool
      → ℕ
      → ℕ
      → Transaction
      → World F T
      → Transaction
      → World F T
      → Type 0
  Steps s selected ack k i tx w out w' =
      (r1 : Round1 F S) × (sig : S.Signature) × (bytes : List ℕ) × (w1 : World F T) × (w2 : World F
        T)
      × (round1 F S T B s i selected w ≡ (ok r1, w1))
      × (round2 F S T B s i r1 ack w1 ≡ (ok sig, w2))
      × (signature_bytes F S sig ≡ ok bytes)
      × (sign_inputs F S T B s selected ack k (i + 1) (attach tx i bytes) w2 ≡ (ok out, w'))

  sign_inputs-Steps :
      (s : Session F B) (selected : List F.Identifier) (ack : Bool) (k i : ℕ) (tx out : Transaction)
      (w w' : World F T)
      → sign_inputs F S T B s selected ack (suc k) i tx w ≡ (ok out, w')
      → Steps s selected ack k i tx w out w'
  unfolding sign_inputs
  sign_inputs-Steps s selected ack k i tx out w w' h =
      let first = round1 F S T B s i selected w in
      elim (Result-cases first.0) [
        | inr (e, p) ↦ absurd (ground arith)
        | inl (r1, p) ↦
            let second = round2 F S T B s i r1 ack first.1 in
            elim (Result-cases second.0) [
              | inr (e, q) ↦ absurd (ground arith)
              | inl (sig, q) ↦ elim (Result-cases (signature_bytes F S sig)) [
                | inr (e, r) ↦ absurd (ground arith)
                | inl (bytes, r) ↦
                    (r1, sig, bytes, first.1, second.1, ground arith, ground arith, r, ground arith)
              ]
            ]
      ]

  sign_inputs-done :
      (s : Session F B) (selected : List F.Identifier) (ack : Bool) (i : ℕ) (tx out : Transaction)
      (w w' : World F T)
      → sign_inputs F S T B s selected ack zero i tx w ≡ (ok out, w')
      → out ≡ tx
  unfolding sign_inputs
  sign_inputs-done s selected ack i tx out w w' h = sym (ok_injective (ap (λ p. p.0) h))

  sign_inputs-strip :
      (s : Session F B) (selected : List F.Identifier) (ack : Bool) (k i : ℕ) (tx out : Transaction)
      (w w' : World F T)
      → sign_inputs F S T B s selected ack k i tx w ≡ (ok out, w')
      → strip out ≡ strip tx
  sign_inputs-strip s selected ack zero i tx out w w' h =
      ap strip (sign_inputs-done s selected ack i tx out w w' h)
  sign_inputs-strip s selected ack (suc k) i tx out w w' h =
      let (r1, sig, bytes, w1, w2, p, q, r, t) =
        sign_inputs-Steps s selected ack k i tx out w w' h in
      sign_inputs-strip s selected ack k (i + 1) (attach tx i bytes) out w2 w' t
      ∙ strip-attach tx i bytes

  -- The loop leaves the inputs before it alone.
  sign_inputs-before :
      (s : Session F B) (selected : List F.Identifier) (ack : Bool) (k i j : ℕ)
      (tx out : Transaction) (w w' : World F T)
      → j < i
      → sign_inputs F S T B s selected ack k i tx w ≡ (ok out, w')
      → get_elem? out.input j ≡ get_elem? tx.input j
  sign_inputs-before s selected ack zero i j tx out w w' l h =
      ap (λ t. get_elem? t.input j) (sign_inputs-done s selected ack i tx out w w' h)
  sign_inputs-before s selected ack (suc k) i j tx out w w' l h =
      let (r1, sig, bytes, w1, w2, p, q, r, t) =
        sign_inputs-Steps s selected ack k i tx out w w' h in
      sign_inputs-before s selected ack k (i + 1) j (attach tx i bytes) out w2 w' (omega arith) t
      ∙ attach-other tx i j bytes (λ e. omega arith)

  sign_inputs-Signed :
      (s : Session F B) (selected : List F.Identifier) (ack : Bool) (k i j : ℕ)
      (tx out : Transaction) (w w' : World F T) (txin : TxIn)
      → KeepsMessage S
      → i ≤ j
      → j < i + k
      → sign_inputs F S T B s selected ack k i tx w ≡ (ok out, w')
      → get_elem? out.input j ≡ some txin
      → Signed s j txin
  sign_inputs-Signed s selected ack zero i j tx out w w' txin law lo hi h g = absurd (omega arith)
  sign_inputs-Signed s selected ack (suc k) i j tx out w w' txin law lo hi h g =
      let (r1, sig, bytes, w1, w2, p, q, r, t) =
        sign_inputs-Steps s selected ack k i tx out w w' h in
      elim (Bool-cases (i == j)) [
        | inr n ↦
            sign_inputs-Signed s selected ack k (i + 1) j (attach tx i bytes) out w2 w' txin law
              (ground arith) (omega arith) t g
        | inl e ↦
            let e' : i ≡ j = ground arith in
            let keeps =
              sign_inputs-before s selected ack k (i + 1) i (attach tx i bytes) out w2 w'
                (omega arith) t in
            let (to, len) = signature_bytes-eq-ok sig bytes r in
            subst (λ x. Signed s x txin) e'
              (
                sig,
                bytes,
                S.message r1.signing_package,
                round1-message F S T B s i selected w w1 r1 law p,
                round2-verified F S T B s i r1 ack w1 w2 sig q,
                to,
                len,
                attach-witness tx i bytes txin (sym keeps ∙ rw e' g),
              )
      ]

  -- A run that succeeds ran the loop over all inputs, on the session as it was given.
  run-inputs :
      (s s' : Session F B) (ack : Bool) (tx : Transaction) (w w' : World F T)
      → run F S T B s ack w ≡ (s', ok tx, w')
      → (selected : List F.Identifier) × (w1 : World F T) × (sign_inputs F S T B s selected ack
            (length s.psbt.unsigned_tx.input)
            0
            s.psbt.unsigned_tx
            w1
          ≡ (ok tx, w'))
  unfolding run run_inputs
  run-inputs s s' ack tx w w' h = elim (Bool-cases s.spent) [
    | inl e ↦ absurd (ground arith)
    | inr e ↦
        let first = liveness_select F S T B s w in
        elim (Result-cases first.0) [
          | inr (x, p) ↦ absurd (ground arith)
          | inl (selected, p) ↦
              let out = run_inputs F S T B s ack w in
              elim (Result-cases out.0) [
                | inr (x, q) ↦ absurd (ground arith)
                | inl (made, q) ↦ (selected, first.1, ground arith)
              ]
        ]
  ]

  -- The transaction that a successful `run` returns is the transaction of the session's PSBT in
  -- everything but the witnesses of its inputs.
  pub run-strip :
      (s s' : Session F B) (ack : Bool) (tx : Transaction) (w w' : World F T)
      → run F S T B s ack w ≡ (s', ok tx, w')
      → strip tx ≡ strip s.psbt.unsigned_tx
  run-strip s s' ack tx w w' h =
      let (selected, w1, e) = run-inputs s s' ack tx w w' h in
      sign_inputs-strip s selected ack (length s.psbt.unsigned_tx.input) 0 s.psbt.unsigned_tx tx w1
        w' e

  -- After a successful `run`, every input of the returned transaction carries as its whole witness
  -- one signature of 64 bytes, which verifies under the group's output key over the key-spend
  -- sighash that the session computes for that input, where a signing package keeps the message it
  -- is made of.
  pub run-Signed :
      (s s' : Session F B) (ack : Bool) (tx : Transaction) (w w' : World F T) (j : ℕ) (txin : TxIn)
      → KeepsMessage S
      → run F S T B s ack w ≡ (s', ok tx, w')
      → get_elem? tx.input j ≡ some txin
      → Signed s j txin
  run-Signed s s' ack tx w w' j txin law h g =
      let (selected, w1, e) = run-inputs s s' ack tx w w' h in
      let below =
        get_elem?-bound tx.input s.psbt.unsigned_tx.input j txin
          (ap (λ t. t.input) (run-strip s s' ack tx w w' h)) g in
      sign_inputs-Signed s selected ack (length s.psbt.unsigned_tx.input) 0 j s.psbt.unsigned_tx tx
        w1 w' txin law (omega arith) (omega (arith, below)) e g
