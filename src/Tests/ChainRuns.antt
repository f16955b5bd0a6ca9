-- ===== src/Tests/ChainRuns.antt =====
-- Fee estimates and confirmation depths.
use cheget.Base.{
  ℕ, ◌≡◌, ◌⊎◌, ◌≤◌, ◌<◌, inl, inr, refl, none, some, List, [], ◌∷◌, true, false, codes, ok, err, In,
}
use cheget.Base.Int.{negsuc}
use cheget.Chain.{descriptor}
use cheget.Chain.Backend.{Utxo}
use cheget.Chain.Esplora
use cheget.Chain.CoreRpc
use cheget.Chain.Fee.{pick_fee_lem}
use cheget.Chain.Depth.{confirmation_depth-list_utxos}

abbrev estimates : List (ℕ × ℕ)
estimates = (144, 1) ∷ (3, 20) ∷ (6, 10) ∷ []

picks_near : Esplora.pick_fee estimates 10 ≡ some 10
unfolding Esplora.pick_fee Esplora.max_by_key Esplora.largest
picks_near = refl

picks_smallest : Esplora.pick_fee estimates 1 ≡ some 20
unfolding Esplora.pick_fee Esplora.max_by_key Esplora.min_by_key Esplora.smallest
picks_smallest = refl

pick_fee_lem_example :
    ((estimates ≡ []) × (Esplora.pick_fee estimates 10 ≡ none))
    ⊎ ((e : ℕ × ℕ) × In e estimates
        × (Esplora.pick_fee estimates 10 ≡ some e.1)
        × (((e.0 ≤ 10) × ((f : ℕ × ℕ) → In f estimates → f.0 ≤ 10 → f.0 ≤ e.0))
            ⊎ ((f : ℕ × ℕ) → In f estimates → (10 < f.0) × (e.0 ≤ f.0))))
pick_fee_lem_example = pick_fee_lem estimates 10

abbrev in_block : Esplora.TxStatus
in_block = record { confirmed = true; block_height = some 90 }

abbrev coin : Esplora.AddressUtxo
coin = record { txid = 7 ∷ []; vout = 0; value = 5; status = in_block }

-- A server at height 100 that knows one transaction.
abbrev server : Esplora.Client (Unit {0}) (Unit {0}) ℕ
server = record {
  get_height = λ w. (ok 100, w);
  get_address_utxos = λ a w. (ok (coin ∷ []), w);
  get_fee_estimates = λ w. (ok estimates, w);
  broadcast = λ tx w. (ok (7 ∷ []), w);
  get_tx_status = λ txid w. (ok in_block, w);
}

depth_11 : Esplora.confirmation_depth (λ a. []) server (7 ∷ []) tt ≡ (ok 11, tt)
unfolding Esplora.confirmation_depth Esplora.height_depth Esplora.depth_of
depth_11 = refl

same_status :
    (u : Esplora.AddressUtxo)
    → In u (coin ∷ [])
    → server.get_tx_status u.txid tt ≡ (ok u.status, tt)
same_status u (inl p) = rw p refl
same_status u (inr n) = absurd n

confirmation_depth-list_utxos_example :
    (xs : List Utxo) × (Esplora.list_utxos (λ a. []) server tt tt ≡ (ok xs, tt))
    × ((x : Utxo)
        → In x xs
        → Esplora.confirmation_depth (λ a. []) server x.outpoint.txid tt ≡ (ok x.confirmations, tt))
confirmation_depth-list_utxos_example =
    confirmation_depth-list_utxos (λ a. []) server 100 tt (coin ∷ []) tt refl refl same_status

-- A node that refuses the descriptor.
abbrev node : CoreRpc.Client (Unit {0}) (Unit {0})
node = record {
  get_descriptor_info = λ d w. (ok (some (codes "abc")), w);
  import_descriptors = λ r w. (ok (false ∷ []), w);
  list_unspent = λ n addresses all w. (ok [], w);
  estimate_smart_fee = λ n w. (ok (some 2999), w);
  send_raw_transaction = λ tx w. (ok [], w);
  get_transaction = λ txid w. (ok (negsuc 0), w);
}

refuses :
    CoreRpc.import_tr_descriptor {Key = ℕ} {FeeRate = ℕ} (λ k. []) (λ n. some n) node 1 tt
    ≡ (err descriptor, tt)
unfolding CoreRpc.import_tr_descriptor CoreRpc.all_imported
refuses = refl

rounds_down : CoreRpc.estimate_fee {Key = ℕ} (λ k. []) (λ n. some n) node 6 tt ≡ (ok (some 2), tt)
unfolding CoreRpc.estimate_fee CoreRpc.rate_of
rounds_down = refl

conflicted :
    CoreRpc.confirmation_depth {Key = ℕ} {FeeRate = ℕ} (λ k. []) (λ n. some n) node [] tt
    ≡ (ok 0, tt)
unfolding CoreRpc.confirmation_depth CoreRpc.at_least_0
conflicted = refl
