-- ===== src/Store/Passphrase.antt =====
-- src/store/passphrase.rs: where the passphrase of a store comes from. The terminal is a parameter:
-- `prompt_password` reads a line, or fails with an I/O error.
use cheget.Base.{
  Result-cases, inl, inr, arith, ◌≡◌, not, Text, text_dec, codes, Result, ok, err, map_err, Bool,
  true, false, eqb, if◌then◌else◌,
}
use cheget.Base.Effects.{M, pure, lift, ◌>>=◌}
use cheget.Store.Errors.{IoKind, StoreError, io, age}

-- `InCodePassphrase` and `ResolvedPassphrase` hand out the secret that they hold.
pub record InCodePassphrase : Type 0 where
  pub in_code_secret : Text

pub record ResolvedPassphrase : Type 0 where
  pub resolved_secret : Text

unfoldable pub in_code_passphrase : InCodePassphrase → Result StoreError Text
in_code_passphrase source = ok source.in_code_secret

unfoldable pub resolved_passphrase : ResolvedPassphrase → Result StoreError Text
resolved_passphrase source = ok source.resolved_secret

pub record InteractivePassphrase : Type 0 where
  pub confirm : Bool

unfoldable pub for_unlock : InteractivePassphrase
for_unlock = record { confirm = false }

unfoldable pub for_new_store : InteractivePassphrase
for_new_store = record { confirm = true }

-- The two entries of a new passphrase.
unfoldable pub confirmed : Text → Text → Result StoreError Text
confirmed first second = if not (eqb text_dec first second) then err age else ok first

module _ {Terminal : Type 0}
    (prompt_password : Text → Terminal → Result IoKind Text × Terminal) where
  abbrev prompt : Text → M Terminal StoreError Text
  prompt message w = let r = prompt_password message w in (map_err io r.0, r.1)

  unfoldable pub interactive_passphrase : InteractivePassphrase → M Terminal StoreError Text
  interactive_passphrase source = elim source.confirm [
    | false ↦ prompt (codes "Store passphrase: ") >>= λ entered. pure entered
    | true ↦ prompt (codes "New store passphrase: ") >>= λ first.
        prompt (codes "Confirm store passphrase: ") >>= λ second. lift (confirmed first second)
  ]

  -- A passphrase for a new store is one that was entered at both prompts.
  pub interactive_passphrase_lem :
      (w w' : Terminal) (secret : Text)
      → interactive_passphrase for_new_store w ≡ (ok secret, w')
      → let first = prompt_password (codes "New store passphrase: ") w in
        let second = prompt_password (codes "Confirm store passphrase: ") first.1 in
        (first.0 ≡ ok secret) × (second.0 ≡ ok secret) × (w' ≡ second.1)
  unfolding interactive_passphrase for_new_store confirmed
  interactive_passphrase_lem w w' secret h =
      let one = prompt_password (codes "New store passphrase: ") w in
      let two = prompt_password (codes "Confirm store passphrase: ") one.1 in
      elim (Result-cases one.0) [
        | inr (e, p) ↦ absurd (ground arith)
        | inl (first, p) ↦ elim (Result-cases two.0) [
          | inr (e, q) ↦ absurd (ground arith)
          | inl (second, q) ↦ elim (text_dec first second) [
            | no n ↦ absurd (ground arith)
            | yes same ↦ (ground arith, ground arith, ground arith)
          ]
        ]
      ]
