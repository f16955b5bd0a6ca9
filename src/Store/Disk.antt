-- ===== src/Store/Disk.antt =====
-- What src/store/ uses of `std::fs` and `std::path`: a file system is a parameter, with an operation
-- for each call. A path is the list of its components; an I/O error is its kind.
use cheget.Base.{
  ℕ, ◌≡◌, ◌≢◌, Option, none, some, List, [], ◌∷◌, ◌++◌, Bool, Text, Result, ok, err, map_err,
}
use cheget.Store.Errors.{IoKind, not_found, StoreError, io}

abbrev pub FilePath : Type 0
FilePath = List Text

-- `Path::parent`
unfoldable pub parent : FilePath → Option FilePath
parent [] = none
parent (c ∷ []) = some []
parent (c ∷ d ∷ rest) = elim (parent (d ∷ rest)) [ none ↦ none | some up ↦ some (c ∷ up) ]

pub record Disk : Type 1 where
  pub State : Type 0
  pub read : FilePath → State → Result IoKind (List ℕ)
  pub is_dir : FilePath → State → Bool
  -- `DirBuilder` with `recursive(true)`, and `remove_dir_all`
  pub create_dirs : FilePath → State → Result IoKind (Unit {0}) × State
  pub remove_dirs : FilePath → State → Result IoKind (Unit {0}) × State
  -- `OpenOptions` with `create_new(true)`; `write_all` and `sync_all` on the open file
  pub open_new : FilePath → State → Result IoKind (Unit {0}) × State
  pub write_all : FilePath → List ℕ → State → Result IoKind (Unit {0}) × State
  pub sync_file : FilePath → State → Result IoKind (Unit {0}) × State
  pub rename : FilePath → FilePath → State → Result IoKind (Unit {0}) × State
  pub remove_file : FilePath → State → Result IoKind (Unit {0}) × State
  -- `std::fs::write`
  pub write_file : FilePath → List ℕ → State → Result IoKind (Unit {0}) × State
  -- `File::open(dir)?.sync_all()?`
  pub sync_dir : FilePath → State → Result IoKind (Unit {0}) × State

-- The documented effects of the calls on what is read afterwards.
pub record IsDisk (D : Disk) : Type 0 where
  pub create_keeps :
      (p q : FilePath) (s : D.State) (bytes : List ℕ)
      → D.read q s ≡ ok bytes
      → D.read q (D.create_dirs p s).1 ≡ ok bytes
  -- A file that is missing stays so, unless it is to be a directory.
  pub create_missing :
      (p q : FilePath) (s : D.State)
      → ((rest : FilePath) → q ++ rest ≢ p)
      → D.read q s ≡ err not_found
      → D.read q (D.create_dirs p s).1 ≡ err not_found
  pub open_elsewhere :
      (p q : FilePath) (s : D.State) → p ≢ q → D.read q (D.open_new p s).1 ≡ D.read q s
  pub write_elsewhere :
      (p q : FilePath) (bytes : List ℕ) (s : D.State)
      → p ≢ q
      → D.read q (D.write_all p bytes s).1 ≡ D.read q s
  -- All the bytes go into a file that was just created.
  pub written :
      (p : FilePath) (bytes : List ℕ) (s : D.State)
      → (D.open_new p s).0 ≡ ok tt
      → (D.write_all p bytes (D.open_new p s).1).0 ≡ ok tt
      → D.read p (D.write_all p bytes (D.open_new p s).1).1 ≡ ok bytes
  pub file_written :
      (p : FilePath) (bytes : List ℕ) (s : D.State)
      → (D.write_file p bytes s).0 ≡ ok tt
      → D.read p (D.write_file p bytes s).1 ≡ ok bytes
  pub sync_keeps : (p q : FilePath) (s : D.State) → D.read q (D.sync_file p s).1 ≡ D.read q s
  -- A rename replaces its target as a whole, or does nothing.
  pub renamed :
      (p q : FilePath) (s : D.State)
      → (D.rename p q s).0 ≡ ok tt
      → D.read q (D.rename p q s).1 ≡ D.read p s
  pub rename_elsewhere :
      (p q r : FilePath) (s : D.State) → p ≢ r → q ≢ r → D.read r (D.rename p q s).1 ≡ D.read r s
  pub rename_failed :
      (p q r : FilePath) (s : D.State) (e : IoKind)
      → (D.rename p q s).0 ≡ err e
      → D.read r (D.rename p q s).1 ≡ D.read r s
  pub remove_elsewhere :
      (p q : FilePath) (s : D.State) → p ≢ q → D.read q (D.remove_file p s).1 ≡ D.read q s
  pub sync_dir_keeps : (p q : FilePath) (s : D.State) → D.read q (D.sync_dir p s).1 ≡ D.read q s

-- An I/O call whose error is wrapped by `StoreError::Io`.
abbrev pub io_call {ℓ} :
    {W : Type 0} {A : Type ℓ} → (W → Result IoKind A × W) → W → Result StoreError A × W
io_call f s = let r = f s in (map_err io r.0, r.1)
