-- ===== src/Tests/CrashRuns.antt =====
-- Restarts of the toy disk, which keeps what each call did, and crashes of a write on it.
use cheget.Base.{
  ℕ, ◌≡◌, ◌≢◌, ◌⊎◌, inl, inr, refl, sym, ◌∙◌, some, List, [], ◌∷◌, text_dec, ℕ_discrete, codes, ok,
  arith, Result-cases, cons_injective,
}
use cheget.Store.Disk.{FilePath, parent}
use cheget.Store.Atomic.{temp_name, write_atomic, write_into, fill, place_file}
use cheget.Store.Atomic.Calls.{
  Call, open_new, sync_file, remove_file, sync_dir, write_all, rename, or_clean, write_calls,
  perform,
}
use cheget.Store.Atomic.Crash.{
  Content, Restart, Spares, IsRestart, CanLeave, write_calls_crash, write_atomic-durable,
}
use cheget.Tests.ToyDisk.{Files, toy_disk, toy_disk-IsDisk, empty_disk, path_dec, update}

abbrev toy_restart : Restart toy_disk
toy_restart = record {
  May = λ q x s. s q ≡ x;
  Torn = λ c q x s. (s q ≡ x) ⊎ ((perform toy_disk c s).1 q ≡ x);
  Held = λ p b s. s p ≡ ok b;
}

spared : (c : Call) (q : FilePath) (s : Files) → Spares c q → (perform toy_disk c s).1 q ≡ s q
unfolding perform
spared (open_new p) q s n = ground arith
spared (sync_file p) q s n = refl
spared (remove_file p) q s n = ground arith
spared (sync_dir p) q s n = refl
spared (write_all p bytes) q s n = ground arith
spared (rename p r) q s n = ground arith

torn_renamed :
    (p q : FilePath) (x : Content) (s : Files)
    → (perform toy_disk (rename p q) s).1 q ≡ x
    → (s q ≡ x) ⊎ ((b : List ℕ) × (x ≡ ok b) × (s p ≡ ok b))
unfolding perform
torn_renamed p q x s h = elim (Result-cases (s p)) [
  | inl (b, e) ↦ inr (b, ground arith, e)
  | inr (e, k) ↦ inl (ground arith)
]

toy_restart-IsRestart : IsRestart toy_disk toy_restart
toy_restart-IsRestart = record {
  finished = λ c q x s m. inr m;
  torn_spares = λ c q x s n m. elim m [ inl h ↦ h | inr h ↦ sym (spared c q s n) ∙ h ];
  torn_rename = λ p q x s m. elim m [ inl h ↦ inl h | inr h ↦ torn_renamed p q x s h ];
  synced = λ p b s h m. m;
  held_renamed = λ p q b s h m. ground arith;
  dir_synced = λ dir q b x s up r h m. (b, sym m ∙ r, r);
}

abbrev target : FilePath
target = codes "home" ∷ codes "f" ∷ []

abbrev temp : FilePath
temp = codes "home" ∷ codes ".x.tmp" ∷ []

abbrev full_disk : Files
full_disk = update target (ok (1 ∷ [])) empty_disk

abbrev new_content : Content
new_content = ok (2 ∷ [])

temp_ne : temp ≢ target
temp_ne e = absurd (omega (arith, (cons_injective (cons_injective (cons_injective e).1).0).0))

-- The crash comes in the midst of the rename.
torn_rename_run :
    CanLeave toy_disk toy_restart target new_content
      (write_calls (codes "home" ∷ []) temp target (2 ∷ []))
      full_disk
unfolding write_calls or_clean perform path_dec text_dec ℕ_discrete
torn_rename_run = inr (inr (inr (inr (inr (inr (inr (inl (inr refl))))))))

write_calls_crash_example : (full_disk target ≡ new_content) ⊎ (new_content ≡ ok (2 ∷ []))
write_calls_crash_example =
    write_calls_crash toy_disk toy_restart toy_restart-IsRestart toy_disk-IsDisk (codes "home" ∷ [])
      temp target (2 ∷ []) full_disk new_content temp_ne torn_rename_run

abbrev left : Files
left = (write_atomic toy_disk (codes "x") target (2 ∷ []) full_disk).1

written_run : write_atomic toy_disk (codes "x") target (2 ∷ []) full_disk ≡ (ok tt, left)
unfolding write_atomic write_into fill place_file parent temp_name path_dec text_dec ℕ_discrete
written_run = refl

read_run : left target ≡ new_content
unfolding write_atomic write_into fill place_file parent temp_name path_dec text_dec ℕ_discrete
read_run = refl

parent-target : parent target ≡ some (codes "home" ∷ [])
unfolding parent
parent-target = refl

write_atomic-durable_example : new_content ≡ ok (2 ∷ [])
write_atomic-durable_example =
    write_atomic-durable toy_disk toy_restart toy_restart-IsRestart toy_disk-IsDisk (codes "x")
      (codes "home" ∷ []) target (2 ∷ []) full_disk left new_content parent-target written_run
      read_run
