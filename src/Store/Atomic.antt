-- ===== src/Store/Atomic.antt =====
-- src/store/atomic.rs: directories for the owner only, and the write by temporary file, sync, rename
-- and sync of the directory. The suffix that makes the temporary name unique is an argument.
pub mod Laws
pub mod Calls
pub mod Crash
use cheget.Base.{
  ℕ, Option, none, some, List, [], ◌∷◌, ◌++◌, Bool, true, false, Text, codes, Result, ok, err,
}
use cheget.Base.Effects.{M, pure, lift, ◌>>=◌, ◌>>◌}
use cheget.Store.Errors.{IoKind, invalid_input, StoreError, io}
use cheget.Store.Disk.{FilePath, parent, Disk, io_call}

-- `format!(".{}.tmp", unique_suffix())`
unfoldable pub temp_name : Text → Text
temp_name suffix = b'.' ∷ suffix ++ codes ".tmp"

module _ (D : Disk) where
  unfoldable pub create_dir_secure : FilePath → M D.State StoreError (Unit {0})
  create_dir_secure path s = elim (D.is_dir path s) [
    | true ↦ (ok tt, s)
    | false ↦ io_call (D.create_dirs path) s
  ]

  -- The closure `write_result`.
  unfoldable pub fill : FilePath → List ℕ → M D.State IoKind (Unit {0})
  fill tmp bytes = do D.open_new tmp; D.write_all tmp bytes; D.sync_file tmp

  -- The steps behind the closure.
  unfoldable pub place_file : FilePath → FilePath → FilePath → M D.State StoreError (Unit {0})
  place_file dir tmp final_path s =
      let moved = D.rename tmp final_path s in
      elim moved.0 [
        | err e ↦ (err (io e), (D.remove_file tmp moved.1).1)
        | ok _ ↦ io_call (D.sync_dir dir) moved.1
      ]

  unfoldable pub write_into :
      FilePath → FilePath → FilePath → List ℕ → M D.State StoreError (Unit {0})
  write_into dir tmp final_path bytes s =
      let filled = fill tmp bytes s in
      elim filled.0 [
        | err e ↦ (err (io e), (D.remove_file tmp filled.1).1)
        | ok _ ↦ place_file dir tmp final_path filled.1
      ]

  unfoldable pub write_atomic : Text → FilePath → List ℕ → M D.State StoreError (Unit {0})
  unfolding temp_name
  write_atomic suffix final_path bytes s = elim (parent final_path) [
    | none ↦ (err (io invalid_input), s)
    | some dir ↦ write_into dir (dir ++ (temp_name suffix ∷ [])) final_path bytes s
  ]
