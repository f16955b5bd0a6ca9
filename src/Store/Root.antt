-- ===== src/Store/Root.antt =====
-- src/store/mod.rs: the directory of the store. The environment and the home directory are arguments.
use cheget.Base.{Option, none, some, [], ◌∷◌, ◌++◌, Text, codes, Result, ok, err}
use cheget.Base.Effects.{M, pure, ◌>>=◌}
use cheget.Store.Errors.{StoreError, no_home_dir}
use cheget.Store.Disk.{FilePath, Disk}
use cheget.Store.Atomic.{create_dir_secure}

pub record StoreRoot : Type 0 where
  pub path : FilePath

abbrev pub store_dir_name : Text
store_dir_name = codes ".cheget"

-- `home::home_dir`, and the directory below it.
unfoldable pub under_home : Option FilePath → Result StoreError StoreRoot
under_home none = err no_home_dir
under_home (some home) = ok (record { path = home ++ store_dir_name ∷ [] })

-- The variable `CHEGET_HOME` counts unless it is empty; `to_path` is `PathBuf::from`.
unfoldable pub resolve :
    (Text → FilePath) → Option Text → Option FilePath → Result StoreError StoreRoot
resolve to_path none home = under_home home
resolve to_path (some []) home = under_home home
resolve to_path (some (c ∷ rest)) home = ok (record { path = to_path (c ∷ rest) })

unfoldable pub create : (D : Disk) → StoreRoot → M D.State StoreError FilePath
create D root = create_dir_secure D root.path >>= λ made. pure root.path
