-- ===== src/Chain/Backend.antt =====
-- src/chain/mod.rs: unspent outputs, and the trait of the chain backends. The backends' servers, and
-- what else changes them, are the state `World`.
use cheget.Base.{ℕ, Option, List, Result, ok, err}
use cheget.Base.Effects.{M}
use cheget.Chain.{Transaction, ChainError}

abbrev pub Txid : Type 0
Txid = List ℕ

pub record OutPoint : Type 0 where
  pub txid : Txid
  pub vout : ℕ

pub record Utxo : Type 0 where
  pub outpoint : OutPoint
  pub value : ℕ
  pub script_pubkey : List ℕ
  pub confirmations : ℕ

-- Of a fee rate the program knows nothing, of a key what it prints as, of an address its script.
pub record ChainBackend (World Key Address FeeRate : Type 0) : Type 0 where
  pub import_tr_descriptor : Key → M World ChainError (Unit {0})
  pub list_utxos : Address → M World ChainError (List Utxo)
  pub estimate_fee : ℕ → M World ChainError (Option FeeRate)
  pub broadcast : Transaction → M World ChainError Txid
  pub confirmation_depth : Txid → M World ChainError ℕ

-- `map_err` on a call whose own error the program only prints.
abbrev pub call {ℓ} :
    {W : Type 0} {A : Type ℓ}
    → ChainError
    → (W → Result (Unit {0}) A × W)
    → W
    → Result ChainError A × W
call e f w = let r = f w in (elim r.0 [ ok a ↦ ok a | err _ ↦ err e ], r.1)
