-- ===== src/Chain/CoreRpc.antt =====
-- src/chain/core_rpc.rs: the backend over the RPC of Bitcoin Core, whose client is a parameter.
use cheget.Base.{
  ℕ, ◌/◌, Option, none, some, List, [], ◌∷◌, ◌++◌, map, every, Bool, true, false, Text, codes,
  Result, ok, err,
}
use cheget.Base.Effects.{M, pure, lift, ◌>>=◌}
use cheget.Base.Int.{ℤ, pos, negsuc}
use cheget.Chain.{Transaction, ChainError, rpc, descriptor}
use cheget.Chain.Backend.{Txid, Utxo, ChainBackend, call}

-- The fields of `ImportDescriptors` that the program sets; the others are `None`.
pub record ImportDescriptors : Type 0 where
  pub descriptor : Text
  pub active : Option Bool

-- An entry of `listunspent`.
pub record Unspent : Type 0 where
  pub txid : Txid
  pub vout : ℕ
  pub amount : ℕ
  pub script_pub_key : List ℕ
  pub confirmations : ℕ

-- `bitcoincore_rpc::Client`; a fee rate comes as satoshis per 1000 virtual bytes.
pub record Client (World Address : Type 0) : Type 0 where
  pub get_descriptor_info : Text → World → Result (Unit {0}) (Option Text) × World
  pub import_descriptors : ImportDescriptors → World → Result (Unit {0}) (List Bool) × World
  -- `minconf`, the addresses, and `include_unsafe`
  pub list_unspent : ℕ → List Address → Bool → World → Result (Unit {0}) (List Unspent) × World
  pub estimate_smart_fee : ℕ → World → Result (Unit {0}) (Option ℕ) × World
  pub send_raw_transaction : Transaction → World → Result (Unit {0}) Txid × World
  pub get_transaction : Txid → World → Result (Unit {0}) ℤ × World

-- `confirmations.max(0) as u32`
unfoldable pub at_least_0 : ℤ → ℕ
at_least_0 (pos n) = n
at_least_0 (negsuc n) = 0

module _ {World Key Address FeeRate : Type 0} (shown : Key → Text)
    (from_sat_per_vb : ℕ → Option FeeRate) (client : Client World Address) where
  unfoldable pub tr_descriptor : Key → Text
  tr_descriptor key = codes "tr(" ++ shown key ++ codes ")"

  unfoldable pub checksummed : Text → Option Text → Text
  checksummed d none = d
  checksummed d (some c) = d ++ codes "#" ++ c

  unfoldable pub all_imported : List Bool → Result ChainError (Unit {0})
  all_imported results = elim (every (λ r. r) results) [ true ↦ ok tt | false ↦ err descriptor ]

  unfoldable pub import_tr_descriptor : Key → M World ChainError (Unit {0})
  import_tr_descriptor key =
      call rpc (client.get_descriptor_info (tr_descriptor key)) >>= λ checksum.
      call rpc (
        client.import_descriptors
          (record { descriptor = checksummed (tr_descriptor key) checksum; active = some false }))
      >>= λ results. lift (all_imported results)

  unfoldable pub utxo_of : Unspent → Utxo
  utxo_of e = record {
    outpoint = record { txid = e.txid; vout = e.vout };
    value = e.amount;
    script_pubkey = e.script_pub_key;
    confirmations = e.confirmations;
  }

  unfoldable pub list_utxos : Address → M World ChainError (List Utxo)
  list_utxos address =
      call rpc (client.list_unspent 0 (address ∷ []) true) >>= λ entries. pure (map utxo_of entries)

  unfoldable pub rate_of : Option ℕ → Option FeeRate
  rate_of none = none
  rate_of (some sat_per_kvb) = from_sat_per_vb (sat_per_kvb / 1000)

  unfoldable pub estimate_fee : ℕ → M World ChainError (Option FeeRate)
  estimate_fee target =
      call rpc (client.estimate_smart_fee target) >>= λ fee_rate. pure (rate_of fee_rate)

  unfoldable pub broadcast : Transaction → M World ChainError Txid
  broadcast tx = call rpc (client.send_raw_transaction tx)

  unfoldable pub confirmation_depth : Txid → M World ChainError ℕ
  confirmation_depth txid =
      call rpc (client.get_transaction txid) >>= λ confirmations. pure (at_least_0 confirmations)

  unfoldable pub core_rpc_backend : ChainBackend World Key Address FeeRate
  core_rpc_backend = record {
    import_tr_descriptor = import_tr_descriptor;
    list_utxos = list_utxos;
    estimate_fee = estimate_fee;
    broadcast = broadcast;
    confirmation_depth = confirmation_depth;
  }
