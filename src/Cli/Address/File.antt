-- ===== src/Cli/Address/File.antt =====
-- src/cli/address.rs: the address of the group whose public artifact a file holds.
use cheget.Base.{Result, map_err, ok_or, ◌>>=◌}
use cheget.Crypto.Frost.{Frost}
use cheget.Crypto.Signing.{Signing, address_from_group_key}
use cheget.Store.Disk.{FilePath, Disk}
use cheget.Store.Participant.{Formats}
use cheget.Cli.Address.{
  Network, KnownHrp, known_hrp, EnvelopeError, io_error, json_error, bridge, decode_package,
}

module _ (F : Frost) (S : Signing F) (D : Disk) (formats : Formats F.KeyPackage F.PublicKeyPackage)
    {Address : Type 0} (p2tr : S.XOnly → KnownHrp → Address) where
  unfoldable pub address_from_pubkey_file :
      FilePath → Network → D.State → Result EnvelopeError Address
  address_from_pubkey_file path network s = do
    raw ← map_err io_error (D.read path s)
    envelope ← ok_or (formats.envelope_format.from raw) json_error
    pkg ← decode_package formats.group_format.to formats.group_format.from envelope
    map_err (λ e. bridge) (address_from_group_key F S p2tr (F.group_vk pkg) (known_hrp network))
