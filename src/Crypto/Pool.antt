-- ===== src/Crypto/Pool.antt =====
-- The parallel rounds of src/crypto/keygen.rs. `map_with` hands each worker a clone of the round-1
-- pool and a run of consecutive seats; for each seat the worker takes the seat's own entry out,
-- computes, and puts the entry back. A computation that fails returns before the entry is put
-- back. `none` is the panic of `expect`.
pub mod Agree
use cheget.Base.{Option, none, some, List, [], ◌∷◌, ◌++◌, Result, ok, err}
use cheget.Base.OrdMap.{Map, Ranked, get, insert, remove}

module _ {K P X Y E : Type 0} ⦃r : Ranked K⦄ (key : X → K) (f : X → Map K P → Result E Y) where
  unfoldable pub turn : X → Map K P → Option (Result E Y × Map K P)
  turn x pool = elim (get (key x) pool) [
    | none ↦ none
    | some own ↦
        let others = remove (key x) pool in
        elim (f x others) [
          | ok y ↦ some (ok y, insert (key x) own others)
          | err e ↦ some (err e, others)
        ]
  ]

  unfoldable pub worker : List X → Map K P → Option (List (Result E Y))
  worker [] pool = some []
  worker (x ∷ xs) pool = elim (turn x pool) [
    | none ↦ none
    | some (y, pool') ↦ elim (worker xs pool') [ none ↦ none | some ys ↦ some (y ∷ ys) ]
  ]

  -- The runs of seats, in order, each with a fresh clone of the pool.
  unfoldable pub map_with : List (List X) → Map K P → Option (List (Result E Y))
  map_with [] pool = some []
  map_with (xs ∷ runs) pool = elim (worker xs pool) [
    | none ↦ none
    | some ys ↦ elim (map_with runs pool) [ none ↦ none | some zs ↦ some (ys ++ zs) ]
  ]
