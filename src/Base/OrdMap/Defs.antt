-- ===== src/Base/OrdMap/Defs.antt =====
-- The operations of `BTreeMap` that the program calls.
use Prim.Native.Nat.{ℕ, ◌<◌, compare, Ordering}
use mathlib.Core.Path.{◌≡◌}
use mathlib.Core.List.{List, [], ◌∷◌, map}
use mathlib.Core.Option.{Option, none, some}
use cheget.Base.Tests.{◌==◌, if◌then◌else◌}

pub record Ranked {ℓ} (K : Type ℓ) : Type ℓ where
  pub rank : K → ℕ
  pub rank_injective : (a b : K) → rank a ≡ rank b → a ≡ b

abbrev pub Map {ℓ κ} : Type ℓ → Type κ → Type (ℓ ⊔ κ)
Map K V = List (K × V)

module _ {ℓ κ} {K : Type ℓ} {V : Type κ} ⦃r : Ranked K⦄ where
  unfoldable pub get : K → Map K V → Option V
  get k [] = none
  get k ((j, w) ∷ m) = if r.rank k == r.rank j then some w else get k m

  unfoldable pub insert : K → V → Map K V → Map K V
  insert k v [] = (k, v) ∷ []
  insert k v ((j, w) ∷ m) =
      let rest = insert k v m in
      elim (compare (r.rank k) (r.rank j)) [
        | Ordering.lt ↦ (k, v) ∷ (j, w) ∷ m
        | Ordering.eq ↦ (j, v) ∷ m
        | Ordering.gt ↦ (j, w) ∷ rest
      ]

  unfoldable pub remove : K → Map K V → Map K V
  remove k [] = []
  remove k ((j, w) ∷ m) = let rest = remove k m in if r.rank k == r.rank j then m else (j, w) ∷ rest

  -- `entry(k).or_insert(v)`: an entry that is there stays.
  unfoldable pub or_insert : K → V → Map K V → Map K V
  unfolding get insert
  or_insert k v m = elim (get k m) [ none ↦ insert k v m | some _ ↦ m ]

  -- Every key is above `n`; the keys ascend.
  abbrev pub Above : ℕ → Map K V → Type 0
  Above n [] = Unit
  Above n ((j, w) ∷ m) = (n < r.rank j) × Above n m

  abbrev pub Ascends : Map K V → Type 0
  Ascends [] = Unit
  Ascends ((j, w) ∷ m) = Above (r.rank j) m × Ascends m

-- `keys()` and `values()`, in ascending order of the keys.
abbrev pub keys {ℓ κ} : {K : Type ℓ} {V : Type κ} → Map K V → List K
keys m = map (λ e. e.0) m

abbrev pub values {ℓ κ} : {K : Type ℓ} {V : Type κ} → Map K V → List V
values m = map (λ e. e.1) m

-- Numbers (`u16`, `u64`) rank themselves.
instance abbrev pub ranked_ℕ : Ranked ℕ
ranked_ℕ = record { rank = λ n. n; rank_injective = λ a b p. p }
