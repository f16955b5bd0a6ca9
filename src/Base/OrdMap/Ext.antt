-- ===== src/Base/OrdMap/Ext.antt =====
-- Two maps that answer every read alike are equal: the order makes the representation canonical.
use mathlib.Core.Path.{◌≡◌, refl, ap₂}
use mathlib.Core.List.{[], ◌∷◌}
use mathlib.Core.Option.{some}
use native.Mathlib.Omega.{arith}
use cheget.Base.OrdMap.Defs.{Ranked, Map, get, insert, remove, Above, Ascends}
use cheget.Base.OrdMap.Laws.{get-insert, get-remove, get_of_Above, insert-Ascends, remove-Ascends}

module _ {ℓ κ} {K : Type ℓ} {V : Type κ} ⦃r : Ranked K⦄ where
  heads :
      (i j : K) (v w : V) (m n : Map K V)
      → Above (r.rank i) m
      → Above (r.rank j) n
      → get i ((i, v) ∷ m) ≡ get i ((j, w) ∷ n)
      → get j ((i, v) ∷ m) ≡ get j ((j, w) ∷ n)
      → r.rank i ≡ r.rank j
  unfolding get
  heads i j v w m n s t hi hj =
      ground (arith, get_of_Above (r.rank i) j m s, get_of_Above (r.rank j) i n t)

  head_values :
      (i j : K) (v w : V) (m n : Map K V)
      → r.rank i ≡ r.rank j
      → get i ((i, v) ∷ m) ≡ get i ((j, w) ∷ n)
      → v ≡ w
  unfolding get
  head_values i j v w m n p h = ground arith

  tails :
      (k i j : K) (v w : V) (m n : Map K V)
      → Above (r.rank i) m
      → Above (r.rank j) n
      → r.rank i ≡ r.rank j
      → get k ((i, v) ∷ m) ≡ get k ((j, w) ∷ n)
      → get k m ≡ get k n
  unfolding get
  tails k i j v w m n s t p h =
      ground (arith, get_of_Above (r.rank i) k m s, get_of_Above (r.rank j) k n t)

  abbrev pair : K → V → K × V
  pair k v = (k, v)

  -- Sorted maps with the same reads are equal.
  pub ext : (m n : Map K V) → Ascends m → Ascends n → ((k : K) → get k m ≡ get k n) → m ≡ n
  unfolding get
  ext [] [] s t h = refl
  ext [] ((j, w) ∷ n) s t h = absurd (ground (arith, h j))
  ext ((j, w) ∷ m) [] s t h = absurd (ground (arith, h j))
  ext ((i, v) ∷ m) ((j, w) ∷ n) s t h =
      let p = heads i j v w m n s.0 t.0 (h i) (h j) in
      ap₂ ◌∷◌ (ap₂ pair (r.rank_injective i j p) (head_values i j v w m n p (h i)))
        (ext m n s.1 t.1 (λ k. tails k i j v w m n s.0 t.0 p (h k)))

  -- Taking an entry out and putting it back changes nothing.
  pub insert-remove :
      (k : K) (v : V) (m : Map K V) → Ascends m → get k m ≡ some v → insert k v (remove k m) ≡ m
  insert-remove k v m s e =
      ext (insert k v (remove k m)) m (insert-Ascends k v _ (remove-Ascends k m s)) s (λ q.
        ground (arith, get-insert k q v (remove k m), get-remove k q m s, r.rank_injective q k))
