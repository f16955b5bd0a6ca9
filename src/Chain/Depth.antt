-- ===== src/Chain/Depth.antt =====
-- The two ways to ask the Esplora backend for a confirmation depth.
use cheget.Base.{
  ℕ, ◌≡◌, inl, inr, refl, sym, List, [], ◌∷◌, map, ok, In, Option-cases, Bool-cases, arith,
}
use mathlib.Core.Path.{subst}
use cheget.Chain.Esplora.{
  AddressUtxo, Client, confirmations_of, utxo_of, list_utxos, height_depth, confirmation_depth,
}
use cheget.Chain.Backend.{Utxo}

module _ {World Address FeeRate : Type 0} (script_pubkey : Address → List ℕ)
    (client : Client World Address FeeRate) where
  depth_agrees :
      (tip : ℕ) (u : AddressUtxo) (w : World)
      → client.get_height w ≡ (ok tip, w)
      → client.get_tx_status u.txid w ≡ (ok u.status, w)
      → confirmation_depth script_pubkey client u.txid w ≡ (ok (confirmations_of tip u.status), w)
  unfolding confirmation_depth height_depth confirmations_of
  depth_agrees tip u w h k = elim (Bool-cases u.status.confirmed) [
    | inr t ↦ ground arith
    | inl t ↦ elim (Option-cases u.status.block_height) [
      | inl r ↦ ground arith
      | inr (b, r) ↦ ground arith
    ]
  ]

  depths :
      (tip : ℕ) (address : Address) (us : List AddressUtxo) (w : World) (x : Utxo)
      → client.get_height w ≡ (ok tip, w)
      → ((u : AddressUtxo) → In u us → client.get_tx_status u.txid w ≡ (ok u.status, w))
      → In x (map (utxo_of script_pubkey client tip address) us)
      → confirmation_depth script_pubkey client x.outpoint.txid w ≡ (ok x.confirmations, w)
  unfolding utxo_of
  depths tip address [] w x h k i = absurd i
  depths tip address (u ∷ us) w x h k (inl p) =
      subst
        (λ y. confirmation_depth script_pubkey client y.outpoint.txid w ≡ (ok y.confirmations, w))
        (sym p) (depth_agrees tip u w h (k u (inl refl)))
  depths tip address (u ∷ us) w x h k (inr i) = depths tip address us w x h (λ v j. k v (inr j)) i

  -- On an Esplora server that answers, and gives for the transaction of each listed output the
  -- status that the listing has, `list_utxos` succeeds and `confirmation_depth` gives for each
  -- output the confirmations that are listed.
  pub confirmation_depth-list_utxos :
      (tip : ℕ) (address : Address) (us : List AddressUtxo) (w : World)
      → client.get_height w ≡ (ok tip, w)
      → client.get_address_utxos address w ≡ (ok us, w)
      → ((u : AddressUtxo) → In u us → client.get_tx_status u.txid w ≡ (ok u.status, w))
      → (xs : List Utxo) × (list_utxos script_pubkey client address w ≡ (ok xs, w))
        × ((x : Utxo)
            → In x xs
            → confirmation_depth script_pubkey client x.outpoint.txid w ≡ (ok x.confirmations, w))
  unfolding list_utxos
  confirmation_depth-list_utxos tip address us w h l k = (
    map (utxo_of script_pubkey client tip address) us,
    ground arith,
    λ x i. depths tip address us w x h k i,
  )
