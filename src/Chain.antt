-- ===== src/Chain.antt =====
-- src/chain/: what the program reads of a transaction, and the key-spend sighash
-- (src/chain/sighash.rs). The transaction types are those of rust-bitcoin, cut down to the fields
-- that the program reads or writes; the sighash algorithm is a parameter.
pub mod Backend
pub mod Esplora
pub mod CoreRpc
pub mod Depth
pub mod Fee
use cheget.Base.{ℕ, Option, List, Text, Result, ok_or}

pub record TxOut : Type 0 where
  pub value : ℕ
  pub script_pubkey : List ℕ

pub record TxIn : Type 0 where
  pub previous_output : List ℕ
  pub sequence : ℕ
  pub witness : List (List ℕ)

pub record Transaction : Type 0 where
  pub version : ℕ
  pub lock_time : ℕ
  pub input : List TxIn
  pub output : List TxOut

-- A PSBT: the unsigned transaction, and the `witness_utxo` of each input.
pub record Psbt : Type 0 where
  pub unsigned_tx : Transaction
  pub inputs : List (Option TxOut)

pub data ChainError : Type 0 where
  rpc esplora sighash descriptor unsupported : ChainError

-- `SighashCache::taproot_key_spend_signature_hash` for all prevouts and the default sighash type.
abbrev pub SighashFn : Type 0
SighashFn = Transaction → ℕ → List TxOut → Option (List ℕ)

module _ (taproot_sighash : SighashFn) where
  unfoldable pub key_spend_sighash : Transaction → ℕ → List TxOut → Result ChainError (List ℕ)
  key_spend_sighash tx input_index prevouts =
      ok_or (taproot_sighash tx input_index prevouts) sighash

-- What the signing session uses of rust-bitcoin: networks, the sum of amounts, the address of a
-- script, and the sighash.
pub record Bitcoin : Type 1 where
  pub Network : Type 0
  pub sum_amounts : List ℕ → ℕ
  pub address_from_script : List ℕ → Network → Option Text
  pub taproot_sighash : SighashFn
