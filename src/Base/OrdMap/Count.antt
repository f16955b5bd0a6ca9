-- ===== src/Base/OrdMap/Count.antt =====
-- The size of a map, and the places of its keys.
use Prim.Native.Nat.{ℕ, ◌<◌, ◌+◌, zero, suc}
use mathlib.Core.Path.{◌≡◌, refl, ap}
use mathlib.Core.List.{[], ◌∷◌}
use mathlib.Core.Option.{none, some}
use native.Mathlib.Omega.{arith}
use cheget.Base.Lists.{length, get_elem?}
use cheget.Base.OrdMap.Defs.{Ranked, Map, get, insert, Above, Ascends}

module _ {K V : Type 0} ⦃r : Ranked K⦄ where
  pub length-insert_new :
      (k : K) (v : V) (m : Map K V) → get k m ≡ none → length (insert k v m) ≡ length m + 1
  unfolding get insert
  length-insert_new k v [] h = refl
  length-insert_new k v ((j, w) ∷ m) h = ground (arith, length-insert_new k v m)

  Above-at :
      (a j : ℕ) (k : K) (v : V) (m : Map K V)
      → Above a m
      → get_elem? m j ≡ some (k, v)
      → a < r.rank k
  Above-at a j k v [] t h = absurd (ground arith)
  Above-at a zero k v ((i, w) ∷ m) t h = ground arith
  Above-at a (suc j) k v ((i, w) ∷ m) t h = Above-at a j k v m t.1 h

  -- A key has one place.
  pub place-injective :
      (m : Map K V) (i j : ℕ) (k : K) (v w : V)
      → Ascends m
      → get_elem? m i ≡ some (k, v)
      → get_elem? m j ≡ some (k, w)
      → i ≡ j
  place-injective [] i j k v w t g h = absurd (ground arith)
  place-injective ((l, x) ∷ m) zero zero k v w t g h = refl
  place-injective ((l, x) ∷ m) zero (suc j) k v w t g h =
      absurd (ground (arith, Above-at (r.rank l) j k w m t.0 h))
  place-injective ((l, x) ∷ m) (suc i) zero k v w t g h =
      absurd (ground (arith, Above-at (r.rank l) i k v m t.0 g))
  place-injective ((l, x) ∷ m) (suc i) (suc j) k v w t g h =
      ap suc (place-injective m i j k v w t.1 g h)
