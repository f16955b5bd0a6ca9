-- ===== src/Cli.antt =====
-- The parts of src/cli/: the public artifact, and the key generation that is stored seat by seat.
pub mod Address
pub mod Keygen
pub mod System
pub mod Sign
pub mod Status
pub mod Dispatch
pub mod Loaded
pub mod Reloaded
use cheget.Base.{Option, none, some, Bool, Text, Result, ok, err, if◌then◌else◌}
use cheget.Base.Effects.{M}
use cheget.Store.Errors.{IoKind, StoreError}
use cheget.Store.Disk.{FilePath}
use cheget.Store.Root.{resolve}
use cheget.Store.Passphrase.{interactive_passphrase, for_unlock, for_new_store}

-- `to_path` is `PathBuf::from`; the variable and the home directory are the environment's.
unfoldable pub resolve_root :
    (Text → FilePath) → Option Text → Option FilePath → Option FilePath → Result StoreError FilePath
resolve_root to_path home_var home_dir (some path) = ok path
resolve_root to_path home_var home_dir none = elim (resolve to_path home_var home_dir) [
  | err e ↦ err e
  | ok root ↦ ok root.path
]

unfoldable pub acquire_store_passphrase :
    {Terminal : Type 0}
    → (Text → Terminal → Result IoKind Text × Terminal)
    → Bool
    → M Terminal StoreError Text
acquire_store_passphrase prompt_password confirm =
    interactive_passphrase prompt_password (if confirm then for_new_store else for_unlock)
