-- ===== src/Chain/Esplora.antt =====
-- src/chain/esplora.rs: the backend over an Esplora server, whose client is a parameter.
use cheget.Base.{
  ℕ, ◌-◌, ◌+◌, ◌%◌, ◌^◌, Option, none, some, List, [], ◌∷◌, map, keep, Bool, true, false, Result,
  ltb, leb, if◌then◌else◌,
}
use cheget.Base.Effects.{M, pure, ◌>>=◌}
use cheget.Chain.{Transaction, ChainError, esplora}
use cheget.Chain.Backend.{Txid, Utxo, ChainBackend, call}

pub record TxStatus : Type 0 where
  pub confirmed : Bool
  pub block_height : Option ℕ

pub record AddressUtxo : Type 0 where
  pub txid : Txid
  pub vout : ℕ
  pub value : ℕ
  pub status : TxStatus

-- `esplora_client::BlockingClient`
pub record Client (World Address FeeRate : Type 0) : Type 0 where
  pub get_height : World → Result (Unit {0}) ℕ × World
  pub get_address_utxos : Address → World → Result (Unit {0}) (List AddressUtxo) × World
  pub get_fee_estimates : World → Result (Unit {0}) (List (ℕ × FeeRate)) × World
  pub broadcast : Transaction → World → Result (Unit {0}) Txid × World
  pub get_tx_status : Txid → World → Result (Unit {0}) TxStatus × World

module _ {FeeRate : Type 0} where
  -- `max_by_key` and `min_by_key` on the number of blocks: of equal keys the last, and the first.
  abbrev pub larger : ℕ × FeeRate → ℕ × FeeRate → ℕ × FeeRate
  larger e f = if ltb f.0 e.0 then e else f

  abbrev pub smaller : ℕ × FeeRate → ℕ × FeeRate → ℕ × FeeRate
  smaller e f = if ltb f.0 e.0 then f else e

  unfoldable pub largest : ℕ × FeeRate → List (ℕ × FeeRate) → ℕ × FeeRate
  largest e [] = e
  largest e (f ∷ rest) = largest (larger e f) rest

  unfoldable pub smallest : ℕ × FeeRate → List (ℕ × FeeRate) → ℕ × FeeRate
  smallest e [] = e
  smallest e (f ∷ rest) = smallest (smaller e f) rest

  unfoldable pub max_by_key : List (ℕ × FeeRate) → Option (ℕ × FeeRate)
  max_by_key [] = none
  max_by_key (e ∷ rest) = some (largest e rest)

  unfoldable pub min_by_key : List (ℕ × FeeRate) → Option (ℕ × FeeRate)
  min_by_key [] = none
  min_by_key (e ∷ rest) = some (smallest e rest)

  -- The estimates in the order in which the hash map happens to iterate.
  unfoldable pub pick_fee : List (ℕ × FeeRate) → ℕ → Option FeeRate
  pick_fee estimates target = elim (max_by_key (keep (λ e. leb e.0 target) estimates)) [
    | some e ↦ some e.1
    | none ↦ elim (min_by_key estimates) [ some e ↦ some e.1 | none ↦ none ]
  ]

-- `tip.saturating_sub(h) + 1`, in 32 bits
unfoldable pub depth_of : ℕ → ℕ → ℕ
depth_of tip height = (tip - height + 1) % 2 ^ 32

unfoldable pub confirmations_of : ℕ → TxStatus → ℕ
confirmations_of tip status = elim status.confirmed [
  | false ↦ 0
  | true ↦ elim status.block_height [ none ↦ 0 | some h ↦ depth_of tip h ]
]

module _ {World Address FeeRate : Type 0} (script_pubkey : Address → List ℕ)
    (client : Client World Address FeeRate) where
  unfoldable pub utxo_of : ℕ → Address → AddressUtxo → Utxo
  utxo_of tip address u = record {
    outpoint = record { txid = u.txid; vout = u.vout };
    value = u.value;
    script_pubkey = script_pubkey address;
    confirmations = confirmations_of tip u.status;
  }

  unfoldable pub import_tr_descriptor : {Key : Type 0} → Key → M World ChainError (Unit {0})
  import_tr_descriptor key = pure tt

  unfoldable pub list_utxos : Address → M World ChainError (List Utxo)
  list_utxos address = call esplora client.get_height >>= λ tip.
      call esplora (client.get_address_utxos address) >>= λ utxos.
      pure (map (utxo_of tip address) utxos)

  unfoldable pub estimate_fee : ℕ → M World ChainError (Option FeeRate)
  estimate_fee target =
      call esplora client.get_fee_estimates >>= λ estimates. pure (pick_fee estimates target)

  unfoldable pub broadcast : Transaction → M World ChainError Txid
  broadcast tx = call esplora (client.broadcast tx)

  -- The height is asked for only if the transaction is in a block.
  unfoldable pub height_depth : TxStatus → M World ChainError ℕ
  height_depth status = elim status.confirmed [
    | false ↦ pure 0
    | true ↦ elim status.block_height [
      | none ↦ pure 0
      | some h ↦ call esplora client.get_height >>= λ tip. pure (depth_of tip h)
    ]
  ]

  unfoldable pub confirmation_depth : Txid → M World ChainError ℕ
  confirmation_depth txid = call esplora (client.get_tx_status txid) >>= height_depth

  unfoldable pub esplora_backend : {Key : Type 0} → ChainBackend World Key Address FeeRate
  esplora_backend = record {
    import_tr_descriptor = import_tr_descriptor;
    list_utxos = list_utxos;
    estimate_fee = estimate_fee;
    broadcast = broadcast;
    confirmation_depth = confirmation_depth;
  }
