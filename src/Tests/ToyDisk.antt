-- ===== src/Tests/ToyDisk.antt =====
-- A disk that is a function from paths to contents, and a vault whose box is the passphrase before
-- the content.
use cheget.Base.{
  ℕ, ◌≢◌, refl, Option, none, some, List, [], ◌∷◌, true, Text, text_dec, Result, ok, err,
  if◌then◌else◌, ◌==◌, arith, cons_injective,
}
use mathlib.Core.Path.{ap₂}
use cheget.Store.Errors.{IoKind, not_found, already_exists}
use cheget.Store.Disk.{FilePath, Disk, IsDisk}
use cheget.Store.Vault.{Vault, Unseals}
use cheget.Store.Checkpoint.{Codec, ReadsBack}

nil_ne_path : (x : Text) (xs : FilePath) → ◌≢◌ {A = FilePath} [] (x ∷ xs)
nil_ne_path x xs e = cc

path_ne_nil : (x : Text) (xs : FilePath) → ◌≢◌ {A = FilePath} (x ∷ xs) []
path_ne_nil x xs e = cc

unfoldable pub path_dec : Discrete FilePath
unfolding nil_ne_path path_ne_nil
path_dec [] [] = yes refl
path_dec [] (y ∷ ys) = no (nil_ne_path y ys)
path_dec (x ∷ xs) [] = no (path_ne_nil x xs)
path_dec (x ∷ xs) (y ∷ ys) = elim (text_dec x y) [
  | no p ↦ no (λ e. p (cons_injective e).0)
  | yes p ↦ elim (path_dec xs ys) [
    | no q ↦ no (λ e. q (cons_injective e).1)
    | yes q ↦ yes (ap₂ ◌∷◌ p q)
  ]
]

abbrev pub Files : Type 0
Files = FilePath → Result IoKind (List ℕ)

abbrev pub update : FilePath → Result IoKind (List ℕ) → Files → Files
update p content files q = elim (path_dec p q) [ yes _ ↦ content | no _ ↦ files q ]

abbrev pub toy_disk : Disk
toy_disk = record {
  State = Files;
  read = λ p s. s p;
  is_dir = λ p s. true;
  create_dirs = λ p s. (ok tt, s);
  remove_dirs = λ p s. (err not_found, s);
  open_new =
      λ p s. elim (s p) [ ok _ ↦ (err already_exists, s) | err _ ↦ (ok tt, update p (ok []) s) ];
  write_all = λ p bytes s. (ok tt, update p (ok bytes) s);
  write_file = λ p bytes s. (ok tt, update p (ok bytes) s);
  sync_file = λ p s. (ok tt, s);
  rename = λ p q s. elim (s p) [
    | ok b ↦ (ok tt, update q (ok b) (update p (err not_found) s))
    | err e ↦ (err e, s)
  ];
  remove_file = λ p s. (ok tt, update p (err not_found) s);
  sync_dir = λ p s. (ok tt, s);
}

pub toy_disk-IsDisk : IsDisk toy_disk
toy_disk-IsDisk = record {
  create_keeps = λ p q s bytes h. h;
  create_missing = λ p q s n h. h;
  open_elsewhere = λ p q s n. ground arith;
  write_elsewhere = λ p q bytes s n. ground arith;
  written = λ p bytes s h k. ground arith;
  file_written = λ p bytes s h. ground arith;
  sync_keeps = λ p q s. refl;
  renamed = λ p q s h. ground arith;
  rename_elsewhere = λ p q r s n m. ground arith;
  rename_failed = λ p q r s e h. ground arith;
  remove_elsewhere = λ p q s n. ground arith;
  sync_dir_keeps = λ p q s. refl;
}

abbrev pub empty_disk : Files
empty_disk p = err not_found

abbrev open_box : ℕ → List ℕ → Option (List ℕ)
open_box secret [] = none
open_box secret (x ∷ rest) = if x == secret then some rest else none

-- A box is its passphrase and the content.
abbrev pub toy_vault : Vault
toy_vault = record {
  Secret = ℕ;
  Salt = Unit {0};
  passphrase = ok 4;
  seal = λ secret n salt plaintext. some (secret ∷ plaintext);
  unseal = open_box;
}

pub toy_vault-Unseals : Unseals toy_vault
toy_vault-Unseals secret n salt plaintext ciphertext h = ground arith

abbrev first_byte : List ℕ → Option ℕ
first_byte [] = none
first_byte (b ∷ rest) = some b

abbrev pub one_byte : Codec ℕ
one_byte = record { to = λ n. some (n ∷ []); from = first_byte }

pub one_byte-ReadsBack : ReadsBack one_byte
one_byte-ReadsBack a bytes h = ground arith

abbrev pub byte : ℕ → List ℕ
byte n = n ∷ []
