-- ===== src/Session/Display.antt =====
-- src/session/display.rs: what a signer is shown, and the gate before each signature share. The
-- printing is left out; the address of a script and the sum of amounts are rust-bitcoin's.
use cheget.Base.{
  ℕ, ◌-◌, ◌≡◌, ◌≢◌, ◌↔◌, Option, List, map, Bool, true, not, Text, text_dec, eqb, ltb,
  if◌then◌else◌, arith, Result, ok, err, ◌>>=◌, map_err,
}
use cheget.Chain.{TxOut, Transaction, ChainError, SighashFn, key_spend_sighash}

pub data DisplayError : Type 0 where
  blind_sign_mismatch : ℕ → DisplayError
  ack_required : DisplayError
  sighash : ChainError → DisplayError

pub record OutputLine : Type 0 where
  pub address : Option Text
  pub value : ℕ

pub record SpendSummary : Type 0 where
  pub input_total : ℕ
  pub outputs : List OutputLine
  pub fee : ℕ

-- `checked_sub(..).unwrap_or(ZERO)` is the subtraction that stops at 0.
unfoldable pub saturating_fee : ℕ → ℕ → ℕ
saturating_fee input_total output_total =
    if ltb input_total output_total then 0 else input_total - output_total

module _ {Network : Type 0} (sum_amounts : List ℕ → ℕ)
    (address_from_script : List ℕ → Network → Option Text) where
  unfoldable pub summarize : Transaction → List TxOut → Network → SpendSummary
  summarize tx prevouts network =
      let input_total = sum_amounts (map (λ p. p.value) prevouts) in
      let output_total = sum_amounts (map (λ o. o.value) tx.output) in
      record {
        input_total = input_total;
        outputs =
            map
              (λ o. record {
                address = address_from_script o.script_pubkey network;
                value = o.value;
              })
              tx.output;
        fee = saturating_fee input_total output_total;
      }

  module _ (taproot_sighash : SighashFn) where
    unfoldable pub display_and_ack :
        Transaction → List TxOut → ℕ → List ℕ → Bool → Network → Result DisplayError SpendSummary
    display_and_ack tx prevouts input_index coordinator_message ack network = do
      recomputed ← map_err sighash (key_spend_sighash taproot_sighash tx input_index prevouts)
      if not (eqb text_dec recomputed coordinator_message)
          then err (blind_sign_mismatch input_index)
          else (let summary = summarize tx prevouts network in
              if not ack then err ack_required else ok summary)

    -- The gate opens exactly if the sighash that the signer computes is the coordinator's message
    -- and the spend is acknowledged; what it shows is the summary of the same transaction.
    pub display_and_ack-eq-ok :
        (tx : Transaction) (prevouts : List TxOut) (i : ℕ) (message : List ℕ) (ack : Bool)
        (network : Network) (shown : SpendSummary)
        → (display_and_ack tx prevouts i message ack network ≡ ok shown) ↔ (
            (key_spend_sighash taproot_sighash tx i prevouts ≡ ok message)
            × (ack ≡ true)
            × (summarize tx prevouts network ≡ shown))
    unfolding display_and_ack
    display_and_ack-eq-ok tx prevouts i message ack network shown = ground arith

    -- A message that differs from the recomputed sighash is refused as a blind-sign attempt,
    -- whether or not the spend was acknowledged.
    pub display_and_ack_blind :
        (tx : Transaction) (prevouts : List TxOut) (i : ℕ) (message own : List ℕ) (ack : Bool)
        (network : Network)
        → key_spend_sighash taproot_sighash tx i prevouts ≡ ok own
        → own ≢ message
        → display_and_ack tx prevouts i message ack network ≡ err (blind_sign_mismatch i)
    unfolding display_and_ack
    display_and_ack_blind tx prevouts i message own ack network h n = ground arith
