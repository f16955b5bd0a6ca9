-- ===== src/Store/Atomic/Crash.antt =====
-- What a restart finds after a crash in the midst of a write.
use cheget.Base.{
  ℕ, Text, [], ◌∷◌, ◌++◌, ◌≡◌, ◌≢◌, ◌⊎◌, inl, inr, refl, sym, ap, ◌∙◌, some, List, Result, ok, err,
  Result-cases, ok_injective, arith,
}
use cheget.Store.Errors.{IoKind}
use cheget.Store.Disk.{FilePath, parent, Disk, IsDisk}
use mathlib.Core.Path.{subst}
use cheget.Store.Atomic.{temp_name, fill, place_file, write_into, write_atomic}
use cheget.Store.Atomic.Calls.{
  Call, open_new, sync_file, remove_file, sync_dir, write_all, rename, Calls, done, call, or_clean,
  last_call, rename_call, write_calls, perform,
}

abbrev pub Content : Type 0
Content = Result IoKind (List ℕ)

-- What is durable: `May q x s` if a restart in the state `s` may read `x` at `q`; `Torn c q x s` if a
-- restart in the midst of the call `c` may; `Held p b s` if the file that stands at `p` may keep the
-- bytes `b` over a restart, under whichever name.
pub record Restart (D : Disk) : Type 1 where
  pub May : FilePath → Content → D.State → Type 0
  pub Torn : Call → FilePath → Content → D.State → Type 0
  pub Held : FilePath → List ℕ → D.State → Type 0

-- A call works on these paths only.
abbrev pub Spares : Call → FilePath → Type 0
Spares (open_new p) q = p ≢ q
Spares (sync_file p) q = p ≢ q
Spares (remove_file p) q = p ≢ q
Spares (sync_dir p) q = Unit {0}
Spares (write_all p bytes) q = p ≢ q
Spares (rename p r) q = (p ≢ q) × (r ≢ q)

-- What POSIX documents: a call touches its own paths; a rename is atomic, and what it puts in place
-- is the file with the bytes that it keeps; these are the written ones once the file was synced, and
-- the name is durable once the directory was.
pub record IsRestart (D : Disk) (R : Restart D) : Type 0 where
  pub finished :
      (c : Call) (q : FilePath) (x : Content) (s : D.State)
      → R.May q x (perform D c s).1
      → R.Torn c q x s
  pub torn_spares :
      (c : Call) (q : FilePath) (x : Content) (s : D.State)
      → Spares c q
      → R.Torn c q x s
      → R.May q x s
  pub torn_rename :
      (p q : FilePath) (x : Content) (s : D.State)
      → R.Torn (rename p q) q x s
      → R.May q x s ⊎ ((b : List ℕ) × (x ≡ ok b) × R.Held p b s)
  pub synced :
      (p : FilePath) (b : List ℕ) (s : D.State)
      → (D.sync_file p s).0 ≡ ok tt
      → R.Held p b (D.sync_file p s).1
      → D.read p s ≡ ok b
  pub held_renamed :
      (p q : FilePath) (b : List ℕ) (s : D.State)
      → (D.rename p q s).0 ≡ ok tt
      → R.Held q b (D.rename p q s).1
      → R.Held p b s
  pub dir_synced :
      (dir q : FilePath) (b : List ℕ) (x : Content) (s : D.State)
      → parent q ≡ some dir
      → D.read q s ≡ ok b
      → (D.sync_dir dir s).0 ≡ ok tt
      → R.May q x (D.sync_dir dir s).1
      → (b' : List ℕ) × (x ≡ ok b') × R.Held q b' s

module _ (D : Disk) (R : Restart D) where
  -- A crash before, between, behind or in the midst of the calls may leave `x` at `q`.
  abbrev pub CanLeave : FilePath → Content → Calls → D.State → Type 0
  CanLeave q x (done r) s = R.May q x s
  CanLeave q x (call c k) s =
      R.May q x s ⊎ (R.Torn c q x s ⊎ CanLeave q x (k (perform D c s).0) (perform D c s).1)

  module _ (law : IsRestart D R) where
    back :
        (c : Call) (q : FilePath) (x : Content) (s : D.State)
        → Spares c q
        → R.May q x (perform D c s).1
        → R.May q x s
    back c q x s n m = law.torn_spares c q x s n (law.finished c q x s m)

    -- The removal of the temporary file leaves other paths alone.
    cleaned :
        (tmp q : FilePath) (x : Content) (next : Calls) (e : IoKind) (s : D.State)
        → tmp ≢ q
        → CanLeave q x (or_clean tmp next (err e)) s
        → R.May q x s
    unfolding or_clean
    cleaned tmp q x next e s n (inl m) = m
    cleaned tmp q x next e s n (inr (inl m)) = law.torn_spares (remove_file tmp) q x s n m
    cleaned tmp q x next e s n (inr (inr m)) = back (remove_file tmp) q x s n m

    answered :
        (tmp q : FilePath) (x : Content) (next : Calls) (r : Result IoKind (Unit {0})) (s : D.State)
        → tmp ≢ q
        → CanLeave q x (or_clean tmp next r) s
        → R.May q x s ⊎ ((r ≡ ok tt) × CanLeave q x next s)
    unfolding or_clean
    answered tmp q x next (ok tt) s n h = inr (refl, h)
    answered tmp q x next (err e) s n h = inl (cleaned tmp q x next e s n h)

    -- A call that spares the path: what was there is left, or it succeeded and the rest leaves `x`.
    go_on :
        (tmp q : FilePath) (x : Content) (next : Calls) (c : Call) (s : D.State)
        → tmp ≢ q
        → Spares c q
        → CanLeave q x (call c (or_clean tmp next)) s
        → R.May q x s ⊎ (((perform D c s).0 ≡ ok tt) × CanLeave q x next (perform D c s).1)
    go_on tmp q x next c s n m (inl h) = inl h
    go_on tmp q x next c s n m (inr (inl h)) = inl (law.torn_spares c q x s m h)
    go_on tmp q x next c s n m (inr (inr h)) =
        elim (answered tmp q x next (perform D c s).0 (perform D c s).1 n h) [
          | inl k ↦ inl (back c q x s m k)
          | inr k ↦ inr k
        ]

    synced_last :
        (dir q : FilePath) (x : Content) (s : D.State)
        → CanLeave q x (last_call dir) s
        → R.May q x s
    synced_last dir q x s (inl h) = h
    synced_last dir q x s (inr (inl h)) = law.torn_spares (sync_dir dir) q x s tt h
    synced_last dir q x s (inr (inr h)) = back (sync_dir dir) q x s tt h

    -- From the rename on, the target is what it was, or the file that was written.
    renames :
        (dir tmp q : FilePath) (x : Content) (s : D.State)
        → tmp ≢ q
        → CanLeave q x (rename_call dir tmp q) s
        → R.May q x s ⊎ ((b : List ℕ) × (x ≡ ok b) × R.Held tmp b s)
    renames dir tmp q x s n (inl h) = inl h
    renames dir tmp q x s n (inr (inl h)) = law.torn_rename tmp q x s h
    renames dir tmp q x s n (inr (inr h)) =
        let s1 = (perform D (rename tmp q) s).1 in
        let left : R.May q x s1 =
          elim (answered tmp q x (last_call dir) (perform D (rename tmp q) s).0 s1 n h) [
            | inl k ↦ k
            | inr (e, k) ↦ synced_last dir q x s1 k
          ] in
        law.torn_rename tmp q x s (law.finished (rename tmp q) q x s left)

    module _ (disk : IsDisk D) where
      -- What a synced file keeps is what was written.
      held_written :
          (tmp : FilePath) (bytes b : List ℕ) (s : D.State)
          → let s1 = (D.open_new tmp s).1 in
            let s2 = (D.write_all tmp bytes s1).1 in
            (D.open_new tmp s).0 ≡ ok tt
            → (D.write_all tmp bytes s1).0 ≡ ok tt
            → (D.sync_file tmp s2).0 ≡ ok tt
            → R.Held tmp b (D.sync_file tmp s2).1
            → b ≡ bytes
      held_written tmp bytes b s h k l m = ok_injective (
          sym (law.synced tmp b (D.write_all tmp bytes (D.open_new tmp s).1).1 l m)
          ∙ disk.written tmp bytes s h k)

      -- A crash at any point of a write, before, between or behind its file operations or in the
      -- midst of one, leaves in the target what a restart might have found there before the write,
      -- or all the new bytes, where the temporary file is not the target, the disk does what it
      -- documents, and a restart finds what POSIX documents.
      pub write_calls_crash :
          (dir tmp final_path : FilePath) (bytes : List ℕ) (s : D.State) (x : Content)
          → tmp ≢ final_path
          → CanLeave final_path x (write_calls dir tmp final_path bytes) s
          → R.May final_path x s ⊎ (x ≡ ok bytes)
      unfolding write_calls perform
      write_calls_crash dir tmp q bytes s x n h =
          let s1 = (D.open_new tmp s).1 in
          let s2 = (D.write_all tmp bytes s1).1 in
          let s3 = (D.sync_file tmp s2).1 in
          elim (go_on tmp q x _ (open_new tmp) s n n h) [
            | inl m ↦ inl m
            | inr (e1, h1) ↦ elim (go_on tmp q x _ (write_all tmp bytes) s1 n n h1) [
              | inl m ↦ inl (back (open_new tmp) q x s n m)
              | inr (e2, h2) ↦ elim (go_on tmp q x _ (sync_file tmp) s2 n n h2) [
                | inl m ↦ inl (back (open_new tmp) q x s n (back (write_all tmp bytes) q x s1 n m))
                | inr (e3, h3) ↦ elim (renames dir tmp q x s3 n h3) [
                  | inl m ↦ inl (
                      back (open_new tmp) q x s n
                        (back (write_all tmp bytes) q x s1 n (back (sync_file tmp) q x s2 n m)))
                  | inr (b, e, held) ↦ inr (e ∙ ap ok (held_written tmp bytes b s e1 e2 e3 held))
                ]
              ]
            ]
          ]

      -- After `write_atomic` has succeeded, a restart finds all the new bytes in the target and
      -- nothing else, where the disk does what it documents and a restart finds what POSIX
      -- documents.
      pub write_atomic-durable :
          (suffix : Text) (dir final_path : FilePath) (bytes : List ℕ) (s s' : D.State)
          (x : Content)
          → parent final_path ≡ some dir
          → write_atomic D suffix final_path bytes s ≡ (ok tt, s')
          → R.May final_path x s'
          → x ≡ ok bytes
      unfolding write_atomic write_into place_file fill
      write_atomic-durable suffix dir q bytes s s' x up h m =
          let tmp = dir ++ (temp_name suffix ∷ []) in
          let opened = D.open_new tmp s in
          let wrote = D.write_all tmp bytes opened.1 in
          let kept = D.sync_file tmp wrote.1 in
          let moved = D.rename tmp q kept.1 in
          let ended = D.sync_dir dir moved.1 in
          elim (Result-cases opened.0) [
            | inr (e, p) ↦ absurd (ground arith)
            | inl (tt, p1) ↦ elim (Result-cases wrote.0) [
              | inr (e, p) ↦ absurd (ground arith)
              | inl (tt, p2) ↦ elim (Result-cases kept.0) [
                | inr (e, p) ↦ absurd (ground arith)
                | inl (tt, p3) ↦ elim (Result-cases moved.0) [
                  | inr (e, p) ↦ absurd (ground arith)
                  | inl (tt, p4) ↦ elim (Result-cases ended.0) [
                    | inr (e, p) ↦ absurd (ground arith)
                    | inl (tt, p5) ↦
                        let there : D.read q moved.1 ≡ ok bytes =
                          disk.renamed tmp q kept.1 p4
                          ∙ disk.sync_keeps tmp tmp wrote.1
                          ∙ disk.written tmp bytes s p1 p2 in
                        let last : s' ≡ ended.1 = ground arith in
                        let (b, e, held) =
                          law.dir_synced dir q bytes x moved.1 up there p5
                            (subst (λ w. R.May q x w) last m) in
                        e
                        ∙ ap ok (
                            held_written tmp bytes b s p1 p2 p3
                              (law.held_renamed tmp q b kept.1 p4 held))
                  ]
                ]
              ]
            ]
          ]
