-- ===== src/Store/Atomic/Laws.antt =====
-- A file is only ever replaced as a whole, and no other file changes.
use cheget.Base.{
  ℕ, ◌≡◌, ◌≢◌, ◌⊎◌, inl, inr, some, List, [], ◌∷◌, ◌++◌, Text, ok, err, Result-cases, arith,
}
use cheget.Store.Errors.{IoKind, io}
use cheget.Store.Disk.{FilePath, parent, Disk, IsDisk}
use cheget.Store.Atomic.{temp_name, fill, place_file, write_into, write_atomic}

module _ (D : Disk) (law : IsDisk D) where
  fill-elsewhere :
      (tmp q : FilePath) (bytes : List ℕ) (s : D.State)
      → tmp ≢ q
      → D.read q (fill D tmp bytes s).1 ≡ D.read q s
  unfolding fill
  fill-elsewhere tmp q bytes s n =
      let opened = D.open_new tmp s in
      let wrote = D.write_all tmp bytes opened.1 in
      elim (Result-cases opened.0) [
        | inr (e, p) ↦ ground (arith, law.open_elsewhere tmp q s n)
        | inl (u, p) ↦ elim (Result-cases wrote.0) [
          | inr (e, r) ↦
              ground
                (arith, law.open_elsewhere tmp q s n, law.write_elsewhere tmp q bytes opened.1 n)
          | inl (v, r) ↦ ground (
            arith,
            law.open_elsewhere tmp q s n,
            law.write_elsewhere tmp q bytes opened.1 n,
            law.sync_keeps tmp q wrote.1,
          )
        ]
      ]

  fill-written :
      (tmp : FilePath) (bytes : List ℕ) (s : D.State)
      → (fill D tmp bytes s).0 ≡ ok tt
      → D.read tmp (fill D tmp bytes s).1 ≡ ok bytes
  unfolding fill
  fill-written tmp bytes s h =
      let opened = D.open_new tmp s in
      let wrote = D.write_all tmp bytes opened.1 in
      elim (Result-cases opened.0) [
        | inr (e, p) ↦ absurd (ground arith)
        | inl (u, p) ↦ elim (Result-cases wrote.0) [
          | inr (e, r) ↦ absurd (ground arith)
          | inl (v, r) ↦ ground (arith, law.written tmp bytes s, law.sync_keeps tmp tmp wrote.1)
        ]
      ]

  write_into-elsewhere :
      (dir tmp final_path q : FilePath) (bytes : List ℕ) (s : D.State)
      → tmp ≢ q
      → final_path ≢ q
      → D.read q (write_into D dir tmp final_path bytes s).1 ≡ D.read q s
  unfolding write_into place_file
  write_into-elsewhere dir tmp final_path q bytes s n m =
      let filled = fill D tmp bytes s in
      let moved = D.rename tmp final_path filled.1 in
      let a = fill-elsewhere tmp q bytes s n in
      elim (Result-cases filled.0) [
        | inr (e, p) ↦ ground (arith, law.remove_elsewhere tmp q filled.1 n)
        | inl (u, p) ↦
            let b = law.rename_elsewhere tmp final_path q filled.1 n m in
            elim (Result-cases moved.0) [
              | inr (e, r) ↦ ground (arith, law.remove_elsewhere tmp q moved.1 n)
              | inl (v, r) ↦ ground (arith, law.sync_dir_keeps dir q moved.1)
            ]
      ]

  -- The target holds the new bytes, or what it held: the old content only if the write failed.
  write_into-target :
      (dir tmp final_path : FilePath) (bytes : List ℕ) (s : D.State)
      → tmp ≢ final_path
      → let out = write_into D dir tmp final_path bytes s in
        (D.read final_path out.1 ≡ ok bytes)
        ⊎ ((e : IoKind) × (out.0 ≡ err (io e)) × (D.read final_path out.1 ≡ D.read final_path s))
  unfolding write_into place_file
  write_into-target dir tmp final_path bytes s n =
      let filled = fill D tmp bytes s in
      let moved = D.rename tmp final_path filled.1 in
      let a = fill-elsewhere tmp final_path bytes s n in
      elim (Result-cases filled.0) [
        | inr (e, p) ↦
            inr (e, ground arith, ground (arith, law.remove_elsewhere tmp final_path filled.1 n))
        | inl (u, p) ↦ elim (Result-cases moved.0) [
          | inr (e, r) ↦ inr (
            e,
            ground arith,
            ground (
              arith,
              law.rename_failed tmp final_path final_path filled.1 e r,
              law.remove_elsewhere tmp final_path moved.1 n,
            ),
          )
          | inl (v, r) ↦ inl (
              ground (
                arith,
                fill-written tmp bytes s,
                law.renamed tmp final_path filled.1,
                law.sync_dir_keeps dir final_path moved.1,
              ))
        ]
      ]

  -- A write under a temporary name that is not the target leaves in the target either all the new
  -- bytes, or, only if it failed, what the target held before, on a disk that does what it
  -- documents.
  pub write_atomic_lem :
      (suffix : Text) (dir final_path : FilePath) (bytes : List ℕ) (s : D.State)
      → parent final_path ≡ some dir
      → dir ++ (temp_name suffix ∷ []) ≢ final_path
      → let out = write_atomic D suffix final_path bytes s in
        (D.read final_path out.1 ≡ ok bytes)
        ⊎ ((e : IoKind) × (out.0 ≡ err (io e)) × (D.read final_path out.1 ≡ D.read final_path s))
  unfolding write_atomic
  write_atomic_lem suffix dir final_path bytes s p n =
      rw (p, write_atomic)
        (write_into-target dir (dir ++ (temp_name suffix ∷ [])) final_path bytes s n)

  -- Every path but the target and the temporary file reads after a write as before it, whether or
  -- not the write succeeds, on a disk that does what it documents.
  pub write_atomic-elsewhere :
      (suffix : Text) (dir final_path q : FilePath) (bytes : List ℕ) (s : D.State)
      → parent final_path ≡ some dir
      → dir ++ (temp_name suffix ∷ []) ≢ q
      → final_path ≢ q
      → D.read q (write_atomic D suffix final_path bytes s).1 ≡ D.read q s
  unfolding write_atomic
  write_atomic-elsewhere suffix dir final_path q bytes s p n m =
      rw (p, write_atomic)
        (write_into-elsewhere dir (dir ++ (temp_name suffix ∷ [])) final_path q bytes s n m)
