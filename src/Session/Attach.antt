-- ===== src/Session/Attach.antt =====
-- What attaching a witness does to a transaction (the loop of `run` in src/session/mod.rs).
use cheget.Base.{
  ℕ, zero, suc, ◌<◌, ◌≡◌, ◌≢◌, refl, ap, some, List, [], ◌∷◌, map, length, get_elem?, set,
  cons_injective, Option-cases, inl, inr, arith,
}
use cheget.Chain.{TxIn, Transaction}
use cheget.Session.Rounds.{attach}

-- A transaction without its witnesses.
abbrev bare : TxIn → TxIn
bare txin = record txin { witness = [] }

abbrev pub strip : Transaction → Transaction
strip tx = record tx { input = map bare tx.input }

map-set :
    (xs : List TxIn) (i : ℕ) (x : TxIn) (bytes : List ℕ)
    → get_elem? xs i ≡ some x
    → map bare (set xs i (record x { witness = bytes ∷ [] })) ≡ map bare xs
map-set [] i x bytes h = refl
map-set (y ∷ xs) zero x bytes h = ground arith
map-set (y ∷ xs) (suc i) x bytes h = ap (◌∷◌ (bare y)) (map-set xs i x bytes h)

pub strip-attach :
    (tx : Transaction) (i : ℕ) (bytes : List ℕ) → strip (attach tx i bytes) ≡ strip tx
unfolding attach
strip-attach tx i bytes = elim (Option-cases (get_elem? tx.input i)) [
  | inl e ↦ rw (e, attach)
  | inr (x, e) ↦ rw (e, attach) (ap (λ l. record tx { input = l }) (map-set tx.input i x bytes e))
]

get_elem?-set_self :
    (xs : List TxIn) (i : ℕ) (x v : TxIn)
    → get_elem? xs i ≡ some x
    → get_elem? (set xs i v) i ≡ some v
get_elem?-set_self [] i x v h = absurd (ground arith)
get_elem?-set_self (y ∷ xs) zero x v h = refl
get_elem?-set_self (y ∷ xs) (suc i) x v h = get_elem?-set_self xs i x v h

get_elem?-set_ne :
    (xs : List TxIn) (i j : ℕ) (v : TxIn) → i ≢ j → get_elem? (set xs i v) j ≡ get_elem? xs j
get_elem?-set_ne [] i j v n = refl
get_elem?-set_ne (y ∷ xs) zero zero v n = absurd (n refl)
get_elem?-set_ne (y ∷ xs) zero (suc j) v n = refl
get_elem?-set_ne (y ∷ xs) (suc i) zero v n = refl
get_elem?-set_ne (y ∷ xs) (suc i) (suc j) v n = get_elem?-set_ne xs i j v (λ e. n (ap suc e))

pub attach-other :
    (tx : Transaction) (i j : ℕ) (bytes : List ℕ)
    → i ≢ j
    → get_elem? (attach tx i bytes).input j ≡ get_elem? tx.input j
unfolding attach
attach-other tx i j bytes n = elim (Option-cases (get_elem? tx.input i)) [
  | inl e ↦ rw (e, attach)
  | inr (x, e) ↦ rw (e, attach) (get_elem?-set_ne tx.input i j _ n)
]

pub attach-witness :
    (tx : Transaction) (i : ℕ) (bytes : List ℕ) (txin : TxIn)
    → get_elem? (attach tx i bytes).input i ≡ some txin
    → txin.witness ≡ bytes ∷ []
unfolding attach
attach-witness tx i bytes txin h = elim (Option-cases (get_elem? tx.input i)) [
  | inl e ↦ absurd (ground arith)
  | inr (x, e) ↦
      let w = get_elem?-set_self tx.input i x (record x { witness = bytes ∷ [] }) e in ground arith
]

pub get_elem?-bound :
    (xs ys : List TxIn) (j : ℕ) (x : TxIn)
    → map bare xs ≡ map bare ys
    → get_elem? xs j ≡ some x
    → j < length ys
get_elem?-bound [] ys j x e h = absurd (ground arith)
get_elem?-bound (a ∷ xs) [] j x e h = absurd (ground arith)
get_elem?-bound (a ∷ xs) (b ∷ ys) zero x e h = omega arith
get_elem?-bound (a ∷ xs) (b ∷ ys) (suc j) x e h =
    let below = get_elem?-bound xs ys j x (cons_injective e).1 h in omega arith
