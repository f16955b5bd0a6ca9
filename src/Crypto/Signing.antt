-- ===== src/Crypto/Signing.antt =====
-- src/crypto/nonce.rs, src/crypto/sign.rs and src/bridge/taproot.rs: signing with ephemeral nonces,
-- the tweaked aggregation, the check against the output key, and the bridge to the x-only key. What
-- they call of frost and secp256k1 is a parameter.
use cheget.Base.{
  ℕ, ◌≡◌, Option, List, [], ◌∷◌, Bool, true, false, not, drop, Result, ok, err, ◌>>=◌, map_err,
  ok_or, length, ◌==◌, if◌then◌else◌,
}
use cheget.Base.OrdMap.{Map}
use cheget.Crypto.Frost.{Frost}

-- The signing half of `frost-secp256k1-tr`. Of `Option` operations `none` is an error whose value
-- the program drops.
pub record Signing (F : Frost) : Type 1 where
  pub Nonces : Type 0
  pub Commitments : Type 0
  pub Share : Type 0
  pub Package : Type 0
  pub Signature : Type 0
  pub commit : F.KeyPackage → F.Rng → (Nonces × Commitments) × F.Rng
  pub commitments_to : Commitments → Result F.Error (List ℕ)
  pub commitments_from : List ℕ → Result F.Error Commitments
  pub share_to : Share → List ℕ
  pub share_from : List ℕ → Result F.Error Share
  -- `SigningPackage::new` and `message`
  pub new_package : Map F.Identifier Commitments → List ℕ → Package
  pub message : Package → List ℕ
  pub sign_with_tweak : Package → Nonces → F.KeyPackage → Result F.Error Share
  pub aggregate_with_tweak :
      Package → Map F.Identifier Share → F.PublicKeyPackage → Result F.Error Signature
  pub culprits : F.Error → List F.Identifier
  pub tweak : F.PublicKeyPackage → F.PublicKeyPackage
  pub verify : F.VerifyingKey → List ℕ → Signature → Bool
  pub signature_to : Signature → Result F.Error (List ℕ)
  pub has_even_y : F.VerifyingKey → Bool
  pub vk_to : F.VerifyingKey → Option (List ℕ)
  -- `XOnlyPublicKey::from_slice`
  pub XOnly : Type 0
  pub xonly_from : List ℕ → Option XOnly

-- A signing package carries the message that it was made with.
abbrev pub KeepsMessage : {F : Frost} → Signing F → Type 0
KeepsMessage {F} S =
    (c : Map F.Identifier S.Commitments) (m : List ℕ) → S.message (S.new_package c m) ≡ m

pub data AggregateError (F : Frost) : Type 0 where
  culprits : List F.Identifier → AggregateError F
  frost : F.Error → AggregateError F
  verify_against_q : AggregateError F
  length_error : ℕ → AggregateError F

pub data BridgeError : Type 0 where
  odd_y secp serialize : BridgeError
  len : ℕ → BridgeError

module _ (F : Frost) (S : Signing F) where
  open S use {Nonces, Commitments, Share, Package, Signature}

  -- `EphemeralNonces::commit` and `EphemeralNonces::sign`
  unfoldable pub commit_nonces : F.KeyPackage → F.Rng → (Nonces × Commitments) × F.Rng
  commit_nonces kp rng = S.commit kp rng

  unfoldable pub sign_nonces : Nonces → Package → F.KeyPackage → Result F.Error Share
  sign_nonces nonces pkg kp = S.sign_with_tweak pkg nonces kp

  unfoldable pub no_culprits : List F.Identifier → Bool
  no_culprits [] = true
  no_culprits (c ∷ cs) = false

  unfoldable pub blame : F.Error → AggregateError F
  unfolding no_culprits
  blame e = if no_culprits (S.culprits e) then frost e else culprits (S.culprits e)

  unfoldable pub aggregate :
      Package → Map F.Identifier Share → F.PublicKeyPackage → Result (AggregateError F) Signature
  aggregate pkg shares group = map_err blame (S.aggregate_with_tweak pkg shares group)

  unfoldable pub output_key_q : F.PublicKeyPackage → F.VerifyingKey
  output_key_q group = F.group_vk (S.tweak (F.group_even_y group))

  unfoldable pub check_against_q :
      Signature → List ℕ → F.PublicKeyPackage → Result (AggregateError F) (Unit {0})
  check_against_q sig message group =
      if S.verify (output_key_q group) message sig then ok tt else err verify_against_q

  unfoldable pub signature_bytes : Signature → Result (AggregateError F) (List ℕ)
  signature_bytes sig = do
    bytes ← map_err frost (S.signature_to sig)
    if length bytes == 64 then ok bytes else err (length_error (length bytes))

  unfoldable pub internal_key_xonly : F.VerifyingKey → Result BridgeError S.XOnly
  internal_key_xonly vk = if not (S.has_even_y vk) then err odd_y else (do
    sec1 ← ok_or (S.vk_to vk) serialize
    if not (length sec1 == 33)
        then err (len (length sec1))
        else ok_or (S.xonly_from (drop 1 sec1)) secp)

  -- `address_from_group_key`, for the `Address::p2tr` of rust-bitcoin.
  module _ {Address Hrp : Type 0} (p2tr : S.XOnly → Hrp → Address) where
    unfoldable pub address_from_group_key : F.VerifyingKey → Hrp → Result BridgeError Address
    address_from_group_key vk hrp = do xonly ← internal_key_xonly vk; ok (p2tr xonly hrp)
