-- ===== src/Crypto/Pool/Agree.antt =====
-- However the seats are dealt out to workers, the results agree with those of the plain
-- computation, in which every seat sees the pool without its own entry, up to the first error.
use cheget.Base.{
  ◌≡◌, ◌≢◌, inl, inr, refl, some, List, [], ◌∷◌, ◌++◌, map, map-append, flatten, Result, ok, err,
  arith, In, In-append_left, In-append_split, Result-cases,
}
use cheget.Base.OrdMap.{
  Map, Ranked, get, insert, remove, Ascends, get-insert, get-remove, remove-Ascends, insert-remove,
}
use cheget.Crypto.Pool.{turn, worker, map_with}

module _ {Y E : Type 0} where
  -- The same results up to the first error.
  pub data Agree : List (Result E Y) → List (Result E Y) → Type 0 where
    done : Agree [] []
    same : {ys zs : List (Result E Y)} (y : Y) → Agree ys zs → Agree (ok y ∷ ys) (ok y ∷ zs)
    stop : {ys zs : List (Result E Y)} (e : E) → Agree (err e ∷ ys) (err e ∷ zs)

  Agree-append :
      {ys zs us vs : List (Result E Y)} → Agree ys zs → Agree us vs → Agree (ys ++ us) (zs ++ vs)
  Agree-append done b = b
  Agree-append (same y a) b = same y (Agree-append a b)
  Agree-append (stop e) b = stop e

module _ {K P : Type 0} ⦃r : Ranked K⦄ where
  -- Each seat has an entry in the pool, and no two seats share one.
  abbrev pub Seated : List K → Map K P → Type 0
  Seated [] pool = Unit
  Seated (k ∷ ks) pool =
      ((p : P) × (get k pool ≡ some p)) × ((j : K) → In j ks → r.rank k ≢ r.rank j) × Seated ks pool

  Seated-remove :
      (k : K) (ks : List K) (pool : Map K P)
      → Ascends pool
      → ((j : K) → In j ks → r.rank k ≢ r.rank j)
      → Seated ks pool
      → Seated ks (remove k pool)
  Seated-remove k [] pool a d s = tt
  Seated-remove k (j ∷ ks) pool a d s =
      let (p, e) = s.0 in
      (
        (p, ground (arith, get-remove k j pool a, d j (inl refl))),
        s.1,
        Seated-remove k ks pool a (λ x' i. d x' (inr i)) s.2,
      )

  Seated-append_left : (ks js : List K) (pool : Map K P) → Seated (ks ++ js) pool → Seated ks pool
  Seated-append_left [] js pool s = tt
  Seated-append_left (k ∷ ks) js pool s =
      (s.0, (λ j i. s.1 j (In-append_left j ks js i)), Seated-append_left ks js pool s.2)

  Seated-append_right : (ks js : List K) (pool : Map K P) → Seated (ks ++ js) pool → Seated js pool
  Seated-append_right [] js pool s = s
  Seated-append_right (k ∷ ks) js pool s = Seated-append_right ks js pool s.2

module _ {K P X Y E : Type 0} ⦃r : Ranked K⦄ (key : X → K) (f : X → Map K P → Result E Y) where
  -- What every seat computes from the entries of all the others.
  abbrev pub plain : Map K P → List X → List (Result E Y)
  plain pool xs = map (λ x. f x (remove (key x) pool)) xs

  -- A worker never meets the panic.
  worker_total :
      (xs : List X) (pool : Map K P)
      → Ascends pool
      → Seated (map key xs) pool
      → (ys : List (Result E Y)) × (worker key f xs pool ≡ some ys)
  unfolding worker turn
  worker_total [] pool a s = ([], refl)
  worker_total (x ∷ xs) pool a s =
      let (p, e) = s.0 in
      elim (Result-cases (f x (remove (key x) pool))) [
        | inl (y, q) ↦
            let (ys, t) = worker_total xs pool a s.2 in
            (ok y ∷ ys, ground (arith, insert-remove (key x) p pool a e))
        | inr (g, q) ↦
            let (ys, t) =
              worker_total xs (remove (key x) pool) (remove-Ascends (key x) pool a)
                (Seated-remove (key x) (map key xs) pool a s.1 s.2) in
            (err g ∷ ys, ground arith)
      ]

  worker-Agree :
      (xs : List X) (pool : Map K P)
      → Ascends pool
      → Seated (map key xs) pool
      → (ys : List (Result E Y)) × (worker key f xs pool ≡ some ys) × Agree ys (plain pool xs)
  unfolding worker turn
  worker-Agree [] pool a s = ([], refl, done)
  worker-Agree (x ∷ xs) pool a s =
      let (p, e) = s.0 in
      elim (Result-cases (f x (remove (key x) pool))) [
        | inl (y, q) ↦
            let (ys, t, g) = worker-Agree xs pool a s.2 in
            (ok y ∷ ys, ground (arith, insert-remove (key x) p pool a e), rw q (same y g))
        | inr (g, q) ↦
            let (ys, t) =
              worker_total xs (remove (key x) pool) (remove-Ascends (key x) pool a)
                (Seated-remove (key x) (map key xs) pool a s.1 s.2) in
            (err g ∷ ys, ground arith, rw q (stop g))
      ]

  -- The runs of seats together compute what the computation does in which every seat sees the pool
  -- without its own entry, up to its first error, and no worker panics, where the keys of the pool
  -- ascend and each seat has an entry of its own.
  pub map_with-Agree :
      (runs : List (List X)) (pool : Map K P)
      → Ascends pool
      → Seated (map key (flatten runs)) pool
      → (ys : List (Result E Y)) × (map_with key f runs pool ≡ some ys)
        × Agree ys (plain pool (flatten runs))
  unfolding map_with
  map_with-Agree [] pool a s = ([], refl, done)
  map_with-Agree (xs ∷ runs) pool a s =
      let s' : Seated (map key xs ++ map key (flatten runs)) pool = rw map-append at s in
      let (ys, p, g) =
        worker-Agree xs pool a (Seated-append_left (map key xs) (map key (flatten runs)) pool s') in
      let (zs, q, h) =
        map_with-Agree runs pool a
          (Seated-append_right (map key xs) (map key (flatten runs)) pool s') in
      (ys ++ zs, ground arith, rw map-append (Agree-append g h))

module _ {K P : Type 0} ⦃r : Ranked K⦄ where
  -- A new seat takes its place behind the others.
  pub Seated-push :
      (ks : List K) (k : K) (p : P) (pool : Map K P)
      → ((j : K) → In j ks → r.rank j ≢ r.rank k)
      → Seated ks pool
      → Seated (ks ++ (k ∷ [])) (insert k p pool)
  Seated-push [] k p pool d s = ((p, ground (arith, get-insert k k p pool)), (λ j i. absurd i), tt)
  Seated-push (j ∷ ks) k p pool d s =
      let (q, e) = s.0 in
      (
        (q, ground (arith, get-insert k j p pool, d j (inl refl))),
        (λ x i. elim (In-append_split x ks (k ∷ []) i) [
          | inl h ↦ s.1 x h
          | inr h ↦ elim h [ inl t ↦ rw t (d j (inl refl)) | inr z ↦ absurd z ]
        ]),
        Seated-push ks k p pool (λ x i. d x (inr i)) s.2,
      )
