-- ===== src/Base/Names.antt =====
-- The check that `KeyId::new` (src/crypto/types.rs) and `CeremonyId::new`
-- (src/store/checkpoint.rs) make of a name before it becomes part of a path.
use Prim.Native.Nat.{ℕ}
use mathlib.Core.Bool.{Bool, ◌&&◌, ◌||◌, not}
use cheget.Base.Tests.{Text, leb, ◌==◌}
use cheget.Base.Lists.{every, length}

-- `c.is_ascii_alphanumeric() || c == '-' || c == '_'`
unfoldable pub is_safe_char : ℕ → Bool
is_safe_char c =
    leb b'0' c && leb c b'9'
    || leb b'a' c && leb c b'z'
    || leb b'A' c && leb c b'Z'
    || c == b'-'
    || c == b'_'

unfoldable pub is_safe_name : Text → Bool
unfolding is_safe_char
is_safe_name id = not (length id == 0) && every is_safe_char id
