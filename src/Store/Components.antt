-- ===== src/Store/Components.antt =====
-- The ids that become part of a path (`KeyId::new` of src/crypto/types.rs, `CeremonyId::new` of
-- src/store/checkpoint.rs) are single path components.
use mathlib.Core.Path.{subst}
use cheget.Base.{
  ℕ, sym, ◌≡◌, ◌≢◌, ◌<◌, [], ◌∷◌, Bool, true, Text, In, every, length, ok, Bool-cases, inl, inr,
  arith,
}
use cheget.Base.Names.{is_safe_char, is_safe_name}
use cheget.Crypto.Types
use cheget.Store.Checkpoint.{new_ceremony}

-- A byte that neither separates nor ends the components of a path.
abbrev pub PathByte : ℕ → Type 0
PathByte c = (c ≢ b'/') × (c ≢ b'\\') × (c ≢ b'.') × (c < 128)

safe_char : (c : ℕ) → is_safe_char c ≡ true → PathByte c
unfolding is_safe_char
safe_char c h = (ground arith, ground arith, ground arith, ground arith)

every-In : (p : ℕ → Bool) (xs : Text) (c : ℕ) → every p xs ≡ true → In c xs → p c ≡ true
every-In p [] c h i = absurd i
every-In p (x ∷ xs) c h (inl e) = ground arith
every-In p (x ∷ xs) c h (inr i) = every-In p xs c (ground arith) i

safe_name : (id : Text) (c : ℕ) → is_safe_name id ≡ true → In c id → PathByte c
unfolding is_safe_name
safe_name id c h i = safe_char c (every-In is_safe_char id c (ground arith) i)

safe_name_nonempty : (id : Text) → is_safe_name id ≡ true → length id ≢ 0
unfolding is_safe_name
safe_name_nonempty id h e = ground arith

-- A key id that is accepted is the text it was given, is not empty, and no byte of it is a
-- separator of paths, a dot or above ASCII.
pub new_key_id-component :
    (id k : Text) (c : ℕ) → Types.new id ≡ ok k → In c k → (k ≡ id) × (length k ≢ 0) × PathByte c
unfolding Types.new
new_key_id-component id k c h i = elim (Bool-cases (is_safe_name id)) [
  | inr n ↦ absurd (ground arith)
  | inl y ↦
      let e : id ≡ k = ground arith in
      let y' = subst (λ x. is_safe_name x ≡ true) e y in
      (sym e, safe_name_nonempty k y', safe_name k c y' i)
]

-- A ceremony id that is accepted is the text it was given, is not empty, and no byte of it is a
-- separator of paths, a dot or above ASCII.
pub new_ceremony-component :
    (id k : Text) (c : ℕ) → new_ceremony id ≡ ok k → In c k → (k ≡ id) × (length k ≢ 0) × PathByte c
unfolding new_ceremony
new_ceremony-component id k c h i = elim (Bool-cases (is_safe_name id)) [
  | inr n ↦ absurd (ground arith)
  | inl y ↦
      let e : id ≡ k = ground arith in
      let y' = subst (λ x. is_safe_name x ≡ true) e y in
      (sym e, safe_name_nonempty k y', safe_name k c y' i)
]
