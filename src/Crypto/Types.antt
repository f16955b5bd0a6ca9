-- ===== src/Crypto/Types.antt =====
-- src/crypto/types.rs: the labels of a stored share. A `KeyId` is the text that it wraps.
use cheget.Base.{ℕ, ◌+◌, ◌%◌, ◌^◌, Text, codes, Result, ok, err, if◌then◌else◌}
use cheget.Base.Names.{is_safe_name}

abbrev pub KeyId : Type 0
KeyId = Text

pub data KeyIdError : Type 0 where
  key_id_error : Text → KeyIdError

unfoldable pub active : KeyId
active = codes "active"

unfoldable pub new : Text → Result KeyIdError KeyId
new id = if is_safe_name id then ok id else err (key_id_error id)

abbrev pub Epoch : Type 0
Epoch = ℕ

abbrev pub genesis : Epoch
genesis = 0

-- `u64` addition of the release profile, which wraps.
unfoldable pub next : Epoch → Epoch
next epoch = (epoch + 1) % 2 ^ 64
