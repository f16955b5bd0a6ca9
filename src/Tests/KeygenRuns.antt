-- ===== src/Tests/KeygenRuns.antt =====
-- Key generations of three seats, scheduled on two workers.
use cheget.Base.{
  ℕ, ℕ_discrete, ◌+◌, ◌==◌, if◌then◌else◌, ap, ◌≡◌, refl, List, [], ◌∷◌, flatten, some, Result, ok,
  err, ◌>>=◌, arith,
}
use cheget.Base.OrdMap.{Map, get, remove, insert, ranked_ℕ, Ascends}
use mathlib.Core.List.{append-nil}
use cheget.Tests.Toy.{toy, toy-RanksIndices, toy-AgreesOnKey}
use cheget.Crypto.Pool.{map_with, worker, turn}
use cheget.Crypto.Pool.Agree.{Seated}
use cheget.Crypto.Keygen.{
  round1, part2_of, part3_of, fan_out, resolve2, resolve3, finish, rounds2_3,
  run_inprocess_dkg_with_rng, confirm_group_key,
}
use cheget.Crypto.Keygen.Reference.{reference, run_inprocess_dkg_with_rng-reference}
use cheget.Crypto.Keygen.Success.{run_inprocess_dkg_with_rng-confirmed}

-- The first worker takes one seat, the second the others.
abbrev split : List (ℕ × ℕ) → List (List (ℕ × ℕ))
split [] = []
split (x ∷ xs) = (x ∷ []) ∷ xs ∷ []

flatten-split : (xs : List (ℕ × ℕ)) → flatten (split xs) ≡ xs
flatten-split [] = refl
flatten-split (x ∷ []) = refl
flatten-split (x ∷ y ∷ xs) = ap (λ l. x ∷ y ∷ l) (append-nil xs)

abbrev key_packages : Map ℕ (ℕ × ℕ)
key_packages = (1, (1, 7)) ∷ (2, (2, 7)) ∷ (3, (3, 7)) ∷ []

generated : (run_inprocess_dkg_with_rng toy split split 2 3 0).0 ≡ some (ok (key_packages, 7))
unfolding run_inprocess_dkg_with_rng rounds2_3 round1 part2_of part3_of fan_out resolve2 resolve3
    finish map_with worker turn get remove insert ℕ_discrete
generated = refl

run_inprocess_dkg_with_rng-reference_example : run_inprocess_dkg_with_rng toy split split 2 3 0 ≡ (
  some ((round1 toy 3 2 3 1 [] [] 0).0 >>= λ s. reference toy s.0 s.1),
  (round1 toy 3 2 3 1 [] [] 0).1,
)
run_inprocess_dkg_with_rng-reference_example =
    run_inprocess_dkg_with_rng-reference toy split split flatten-split flatten-split
      toy-RanksIndices 2 3 0

run_inprocess_dkg_with_rng-confirmed_example : confirm_group_key toy key_packages 7 ≡ ok tt
run_inprocess_dkg_with_rng-confirmed_example =
    run_inprocess_dkg_with_rng-confirmed toy split split flatten-split flatten-split
      toy-RanksIndices toy-AgreesOnKey 2 3 0 key_packages 7 generated

-- A computation that fails at the second of three seats, on two workers.
abbrev even_fails : ℕ × ℕ → Map ℕ ℕ → Result ℕ ℕ
even_fails (k, v) others = if k == 2 then err k else ok (k + v)

abbrev pool : Map ℕ ℕ
pool = (1, 1) ∷ (2, 2) ∷ (3, 3) ∷ []

pool-Ascends : Ascends pool
pool-Ascends = ((omega arith, (omega arith, tt)), ((omega arith, tt), (tt, tt)))

pool-Seated : Seated (1 ∷ 2 ∷ 3 ∷ []) pool
unfolding get
pool-Seated = (
  (1, refl),
  (λ j i. ground arith),
  ((2, refl), (λ j i. ground arith), ((3, refl), (λ j i. absurd i), tt)),
)
