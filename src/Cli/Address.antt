-- ===== src/Cli/Address.antt =====
-- src/cli/address.rs: the public artifact, which carries a group key as hexadecimal text.
pub mod File
use cheget.Base.{ℕ, Option, List, Text, Result, ok, ◌>>=◌, ok_or, map_err}
use cheget.Base.Hex.{hex_encode, hex_decode, HexError, malformed, slice_panic}
use cheget.Store.Errors.{IoKind}

pub data Network : Type 0 where
  bitcoin testnet signet regtest : Network

pub data KnownHrp : Type 0 where
  mainnet testnets regtest_hrp : KnownHrp

unfoldable pub known_hrp : Network → KnownHrp
known_hrp bitcoin = mainnet
known_hrp testnet = testnets
known_hrp signet = testnets
known_hrp regtest = regtest_hrp

pub record PubkeyEnvelope : Type 0 where
  pub key_id : Text
  pub epoch : ℕ
  pub pubkey_package_hex : Text

-- `crash` stands for the panic of a slice inside a character.
pub data EnvelopeError : Type 0 where
  hex package_error serialize_error bridge json_error crash : EnvelopeError
  io_error : IoKind → EnvelopeError

unfoldable pub hex_error : HexError → EnvelopeError
hex_error malformed = hex
hex_error slice_panic = crash

-- `PublicKeyPackage::serialize` and `deserialize`.
module _ {Group : Type 0} (group_to : Group → Option (List ℕ))
    (group_from : List ℕ → Option Group) where
  unfoldable pub from_package : Text → ℕ → Group → Result EnvelopeError PubkeyEnvelope
  from_package key_id epoch group = do
    bytes ← ok_or (group_to group) serialize_error
    ok (record { key_id = key_id; epoch = epoch; pubkey_package_hex = hex_encode bytes })

  unfoldable pub decode_package : PubkeyEnvelope → Result EnvelopeError Group
  unfolding hex_error
  decode_package e = do
    bytes ← map_err hex_error (hex_decode e.pubkey_package_hex)
    ok_or (group_from bytes) package_error
