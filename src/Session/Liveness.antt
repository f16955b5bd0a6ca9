-- ===== src/Session/Liveness.antt =====
-- src/session/liveness.rs: how many seats to poll, and which of the responders sign.
use cheget.Base.{
  ℕ, zero, suc, ◌+◌, ◌/◌, ◌%◌, ◌^◌, ◌<◌, min, max, ◌≡◌, ◌++◌, List, length, take, drop, length-take,
  ltb, if◌then◌else◌, arith, Result, ok, err, refl, ap, [], ◌∷◌, ◌⊎◌, inl, inr, Bool-cases,
}

pub data LivenessError : Type 0 where
  insufficient_live_seats : ℕ → ℕ → LivenessError

-- `div_ceil(10)`; the sum is one of `usize`, of 64 bits, which a release build wraps, as here, and a
-- debug build refuses by a panic where it does not fit.
unfoldable pub over_provisioned_poll_size : ℕ → ℕ → ℕ
over_provisioned_poll_size t n = let margin = max ((t + 9) / 10) 1 in min ((t + margin) % 2 ^ 64) n

unfoldable pub poll_and_select : {A : Type 0} → List A → ℕ → Result LivenessError (List A)
poll_and_select responders t =
    if ltb (length responders) t
    then err (insufficient_live_seats t (length responders))
    else ok (take t responders)

take-prefix : {A : Type 0} (t : ℕ) (xs : List A) → take t xs ++ drop t xs ≡ xs
take-prefix zero xs = refl
take-prefix (suc t) [] = refl
take-prefix (suc t) (x ∷ xs) = ap (◌∷◌ x) (take-prefix t xs)

-- With enough responders the first `t` are selected, exactly `t` of them; with too few the refusal
-- says how many were needed and how many answered.
pub poll_and_select_lem :
    {A : Type 0} (responders : List A) (t : ℕ)
    → ((chosen : List A) × (spare : List A) × (poll_and_select responders t ≡ ok chosen)
        × (length chosen ≡ t)
        × (chosen ++ spare ≡ responders))
      ⊎ ((length responders < t)
          × (poll_and_select responders t ≡ err (insufficient_live_seats t (length responders))))
unfolding poll_and_select
poll_and_select_lem responders t = elim (Bool-cases (ltb (length responders) t)) [
  | inl few ↦ inr (ground arith, ground arith)
  | inr enough ↦ inl (
    take t responders,
    drop t responders,
    ground arith,
    ground (arith, length-take t responders),
    take-prefix t responders,
  )
]
