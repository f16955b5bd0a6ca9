-- ===== src/Base/OrdMap/Laws.antt =====
-- What a read finds after each operation, and that the keys stay in order.
use Prim.Native.Nat.{ℕ, ◌<◌, ◌+◌}
use mathlib.Core.Path.{◌≡◌, refl}
use mathlib.Core.Logic.{inl, inr}
use cheget.Base.Lists.{In}
use mathlib.Core.List.{[], ◌∷◌}
use mathlib.Core.Option.{none, some}
use native.Mathlib.Omega.{arith}
use cheget.Base.Tests.{◌==◌, if◌then◌else◌, Bool-cases}
use cheget.Base.OrdMap.Defs.{Ranked, Map, get, insert, remove, or_insert, Above, Ascends, values}

module _ {ℓ κ} {K : Type ℓ} {V : Type κ} ⦃r : Ranked K⦄ where
  pub get-insert :
      (k q : K) (v : V) (m : Map K V)
      → get q (insert k v m) ≡ (if r.rank q == r.rank k then some v else get q m)
  unfolding get insert
  get-insert k q v [] = refl
  get-insert k q v ((j, w) ∷ m) = ground (arith, get-insert k q v m)

  pub Above-weaken : {a b : ℕ} (m : Map K V) → b < a → Above a m → Above b m
  Above-weaken [] h t = tt
  Above-weaken ((j, w) ∷ m) h t = (omega arith, Above-weaken m h t.1)

  pub get_of_Above : (a : ℕ) (k : K) (m : Map K V) → Above a m → r.rank k < a + 1 → get k m ≡ none
  unfolding get
  get_of_Above a k [] t h = refl
  get_of_Above a k ((j, w) ∷ m) t h = ground (arith, get_of_Above a k m)

  pub insert-Above :
      (a : ℕ) (k : K) (v : V) (m : Map K V) → a < r.rank k → Above a m → Above a (insert k v m)
  unfolding insert
  insert-Above a k v [] h t = (h, tt)
  insert-Above a k v ((j, w) ∷ m) h t = ground (arith, insert-Above a k v m h t.1)

  pub insert-Ascends : (k : K) (v : V) (m : Map K V) → Ascends m → Ascends (insert k v m)
  unfolding insert
  insert-Ascends k v [] t = (tt, tt)
  insert-Ascends k v ((j, w) ∷ m) t = ground (
    arith,
    insert-Ascends k v m t.1,
    insert-Above (r.rank j) k v m,
    Above-weaken {a = r.rank j} {b = r.rank k} m,
  )

  pub remove-Above : (a : ℕ) (k : K) (m : Map K V) → Above a m → Above a (remove k m)
  unfolding remove
  remove-Above a k [] t = tt
  remove-Above a k ((j, w) ∷ m) t = ground (arith, remove-Above a k m t.1)

  pub remove-Ascends : (k : K) (m : Map K V) → Ascends m → Ascends (remove k m)
  unfolding remove
  remove-Ascends k [] t = tt
  remove-Ascends k ((j, w) ∷ m) t =
      ground (arith, remove-Ascends k m t.1, remove-Above (r.rank j) k m t.0)

  pub get-remove :
      (k q : K) (m : Map K V)
      → Ascends m
      → get q (remove k m) ≡ (if r.rank q == r.rank k then none else get q m)
  unfolding get remove
  get-remove k q [] t = ground arith
  get-remove k q ((j, w) ∷ m) t =
      ground (arith, get-remove k q m t.1, get_of_Above (r.rank j) q m t.0)

  pub get-or_insert :
      (k q : K) (v : V) (m : Map K V)
      → get q (or_insert k v m) ≡ (
          if r.rank q == r.rank k then some (elim (get k m) [ none ↦ v | some w ↦ w ]) else get q m)
  unfolding or_insert
  get-or_insert k q v m = ground (arith, get-insert k q v m, r.rank_injective q k)

  pub or_insert-Ascends : (k : K) (v : V) (m : Map K V) → Ascends m → Ascends (or_insert k v m)
  unfolding or_insert
  or_insert-Ascends k v m t = ground (arith, insert-Ascends k v m t)

module _ {K V : Type 0} ⦃r : Ranked K⦄ where
  pub In-values_of : (k : K) (v : V) (m : Map K V) → get k m ≡ some v → In v (values m)
  unfolding get
  In-values_of k v [] h = absurd (ground arith)
  In-values_of k v ((j, w) ∷ m) h = elim (Bool-cases (r.rank k == r.rank j)) [
    | inl e ↦ inl (ground arith)
    | inr e ↦ inr (In-values_of k v m (ground arith))
  ]

  pub In-values_to :
      (v : V) (m : Map K V) → Ascends m → In v (values m) → (k : K) × (get k m ≡ some v)
  unfolding get
  In-values_to v [] t h = absurd h
  In-values_to v ((j, w) ∷ m) t (inl e) = (j, ground arith)
  In-values_to v ((j, w) ∷ m) t (inr i) =
      let (k, p) = In-values_to v m t.1 i in (k, ground (arith, get_of_Above (r.rank j) k m t.0))
