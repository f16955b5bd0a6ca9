-- ===== src/Base/Effects.antt =====
-- Code that fails with an error `E` and works on a state `W`, which an error leaves as it then is.
use mathlib.Core.Path.{◌≡◌}
use cheget.Base.{Result, ok, err, arith, Result-cases, inl, inr, refl}

abbrev pub M : Type 0 → Type 0 → Type 0 → Type 0
M W E A = W → Result E A × W

abbrev pub pure : {W E A : Type 0} → A → M W E A
pure a w = (ok a, w)

abbrev pub lift : {W E A : Type 0} → Result E A → M W E A
lift r w = (r, w)

infixl 5 ◌>>=◌ ◌>>◌
abbrev pub ◌>>=◌ : {W E A B : Type 0} → M W E A → (A → M W E B) → M W E B
◌>>=◌ m f w = let r = m w in elim r.0 [ ok a ↦ f a r.1 | err e ↦ (err e, r.1) ]

abbrev pub ◌>>◌ : {W E B : Type 0} → M W E (Unit {0}) → M W E B → M W E B
m >> k = m >>= λ _. k

-- How a chain goes on after its first step.
module _ {W E A B : Type 0} (m : M W E A) (f : A → M W E B) (w : W) where
  pub run_ok : (a : A) → (m w).0 ≡ ok a → (m >>= f) w ≡ f a (m w).1
  run_ok a h = ground arith

  pub run_err : (e : E) → (m w).0 ≡ err e → (m >>= f) w ≡ (err e, (m w).1)
  run_err e h = ground arith

-- A chain that succeeds has a first step that succeeds, and a rest that does.
pub >>=-eq-ok :
    {W E A B : Type 0} (m : M W E A) (f : A → M W E B) (w w' : W) (b : B)
    → (m >>= f) w ≡ (ok b, w')
    → (a : A) × (w1 : W) × (m w ≡ (ok a, w1)) × (f a w1 ≡ (ok b, w'))
>>=-eq-ok m f w w' b h = elim (Result-cases (m w).0) [
  | inr (e, p) ↦ absurd (ground arith)
  | inl (a, p) ↦ (a, (m w).1, ground arith, ground arith)
]

-- Code that leaves a part of the state as it is, with success or not.
abbrev pub Keeps : {W E A P : Type 0} → (W → P) → M W E A → Type 0
Keeps {W} part m = (w : W) → part (m w).1 ≡ part w

pub Keeps->>= :
    {W E A B P : Type 0} (part : W → P) (m : M W E A) (f : A → M W E B)
    → Keeps part m
    → ((a : A) → Keeps part (f a))
    → Keeps part (m >>= f)
Keeps->>= part m f first rest w = elim (Result-cases (m w).0) [
  | inr (e, p) ↦ ground (arith, first w)
  | inl (a, p) ↦ ground (arith, first w, rest a (m w).1)
]

pub Keeps-lift : {W E A P : Type 0} (part : W → P) (r : Result E A) → Keeps part (lift {W = W} r)
Keeps-lift part r w = refl
