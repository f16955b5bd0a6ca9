-- ===== src/Store/Atomic/Calls.antt =====
-- src/store/atomic.rs: `write_atomic` as the file operations that it calls one after the other, each
-- chosen by the answers to the earlier ones, which shows the points at which a crash can stop it.
use cheget.Base.{ℕ, suc, ◌≤◌, ◌≡◌, List, Result, ok, err, map_err, arith}
use cheget.Store.Errors.{IoKind, StoreError, io}
use cheget.Store.Disk.{FilePath, Disk}
use cheget.Store.Atomic.{fill, place_file, write_into}

pub data Call : Type 0 where
  open_new sync_file remove_file sync_dir : FilePath → Call
  write_all : FilePath → List ℕ → Call
  rename : FilePath → FilePath → Call

pub data Calls : Type 0 where
  done : Result StoreError (Unit {0}) → Calls
  call : Call → (Result IoKind (Unit {0}) → Calls) → Calls

-- `if let Err(e) = … { remove_file(tmp); return Err(e) }`
unfoldable pub or_clean : FilePath → Calls → Result IoKind (Unit {0}) → Calls
or_clean tmp next (ok _) = next
or_clean tmp next (err e) = call (remove_file tmp) (λ _. done (err (io e)))

abbrev pub last_call : FilePath → Calls
last_call dir = call (sync_dir dir) (λ r. done (map_err io r))

abbrev pub rename_call : FilePath → FilePath → FilePath → Calls
rename_call dir tmp final_path = call (rename tmp final_path) (or_clean tmp (last_call dir))

unfoldable pub write_calls : FilePath → FilePath → FilePath → List ℕ → Calls
write_calls dir tmp final_path bytes = call (open_new tmp) (
    or_clean tmp (
      call (write_all tmp bytes)
        (or_clean tmp (call (sync_file tmp) (or_clean tmp (rename_call dir tmp final_path))))))

module _ (D : Disk) where
  unfoldable pub perform : Call → D.State → Result IoKind (Unit {0}) × D.State
  perform (open_new p) s = D.open_new p s
  perform (write_all p bytes) s = D.write_all p bytes s
  perform (sync_file p) s = D.sync_file p s
  perform (rename p q) s = D.rename p q s
  perform (remove_file p) s = D.remove_file p s
  perform (sync_dir p) s = D.sync_dir p s

  -- All the calls, uninterrupted: their number, the result, and the state.
  unfoldable pub exec : Calls → D.State → ℕ × Result StoreError (Unit {0}) × D.State
  exec (done r) s = (0, r, s)
  exec (call c k) s =
      let out = perform c s in let (n, r, s') = exec (k out.0) out.1 in (suc n, r, s')

  -- Uninterrupted, the file operations of a write come to an end after at most five, whatever each
  -- of them answers, and they have the result and the effect of `write_atomic` behind the temporary
  -- name.
  pub exec-write_calls :
      (dir tmp final_path : FilePath) (bytes : List ℕ) (s : D.State)
      → let out = exec (write_calls dir tmp final_path bytes) s in
        (out.0 ≤ 5) × ((out.1, out.2) ≡ write_into D dir tmp final_path bytes s)
  unfolding exec write_calls or_clean perform write_into fill place_file
  exec-write_calls dir tmp final_path bytes s = ground arith
