-- ===== src/Crypto/Keygen/Ascending.antt =====
-- The key packages of a key generation are a map: their identifiers ascend.
use cheget.Base.{
  ℕ, ◌≡◌, Option, none, some, List, [], ◌∷◌, Result, ok, err, Result-cases, Option-cases, inl, inr,
  eqb, Bool-cases, arith,
}
use mathlib.Core.Path.{subst}
use cheget.Base.OrdMap.{Map, insert, Ascends, insert-Ascends}
use cheget.Crypto.Frost.{Frost}
use cheget.Crypto.Pool.{map_with}
use cheget.Crypto.Keygen.{
  KeygenError, part2_of, part3_of, round1, resolve2, resolve3, finish, rounds2_3,
  run_inprocess_dkg_with_rng,
}

module _ (F : Frost) where
  open F use {
    Identifier, ranked, Rng, Round1Secret, Round1Package, Round2Secret, KeyPackage,
    PublicKeyPackage,
  }

  resolve3-Ascends :
      (results : List (Result (KeygenError F) (Identifier × KeyPackage × PublicKeyPackage)))
      (packages m : Map Identifier KeyPackage) (group g : Option PublicKeyPackage)
      → Ascends ⦃r = ranked⦄ packages
      → resolve3 F results packages group ≡ ok (m, g)
      → Ascends ⦃r = ranked⦄ m
  unfolding resolve3
  resolve3-Ascends [] packages m group g up h = ground arith
  resolve3-Ascends (err e ∷ rest) packages m group g up h = absurd (ground arith)
  resolve3-Ascends (ok (id, kp, key) ∷ rest) packages m none g up h =
      resolve3-Ascends rest (insert ⦃r = ranked⦄ id kp packages) m (some key) g
        (insert-Ascends ⦃r = ranked⦄ id kp packages up) h
  resolve3-Ascends (ok (id, kp, key) ∷ rest) packages m (some one) g up h =
      elim (Bool-cases (eqb F.vk_dec (F.group_vk one) (F.group_vk key))) [
        | inr e ↦ absurd (ground arith)
        | inl e ↦
            resolve3-Ascends rest (insert ⦃r = ranked⦄ id kp packages) m (some one) g
              (insert-Ascends ⦃r = ranked⦄ id kp packages up) (ground arith)
      ]

  module _ (split2 : List (Identifier × Round1Secret) → List (List (Identifier × Round1Secret)))
      (split3 : List (Identifier × Round2Secret) → List (List (Identifier × Round2Secret))) where
    rounds2_3-Ascends :
        (secrets : List (Identifier × Round1Secret)) (pkgs : Map Identifier Round1Package)
        (m : Map Identifier KeyPackage) (g : PublicKeyPackage)
        → rounds2_3 F split2 split3 secrets pkgs ≡ some (ok (m, g))
        → Ascends ⦃r = ranked⦄ m
    unfolding rounds2_3 finish
    rounds2_3-Ascends secrets pkgs m g h =
        elim (Option-cases (map_with ⦃r = ranked⦄ (λ x. x.0) (part2_of F) (split2 secrets) pkgs)) [
          | inl e ↦ absurd (ground arith)
          | inr (second, e) ↦ elim (Result-cases (resolve2 F second [] [])) [
            | inr (x, p) ↦ absurd (ground arith)
            | inl ((secrets2, by), p) ↦
                elim (Option-cases
                  (map_with ⦃r = ranked⦄ (λ x. x.0) (part3_of F by) (split3 secrets2) pkgs)) [
                    | inl q ↦ absurd (ground arith)
                    | inr (third, q) ↦ elim (Result-cases (resolve3 F third [] none)) [
                      | inr (x, t) ↦ absurd (ground arith)
                      | inl ((made, key), t) ↦
                          let up = resolve3-Ascends third [] made none key tt t in
                          elim (Option-cases key) [
                            | inl u ↦ absurd (ground arith)
                            | inr (one, u) ↦
                                let same : made ≡ m = ground arith in
                                subst (λ x. Ascends ⦃r = ranked⦄ x) same up
                          ]
                    ]
                  ]
          ]
        ]

    pub run_inprocess_dkg_with_rng-Ascends :
        (t n : ℕ) (rng : Rng) (m : Map Identifier KeyPackage) (g : PublicKeyPackage)
        → (run_inprocess_dkg_with_rng F split2 split3 t n rng).0 ≡ some (ok (m, g))
        → Ascends ⦃r = ranked⦄ m
    unfolding run_inprocess_dkg_with_rng
    run_inprocess_dkg_with_rng-Ascends t n rng m g h =
        elim (Result-cases (round1 F n t n 1 [] [] rng).0) [
          | inr (e, p) ↦ absurd (ground arith)
          | inl ((secrets, pkgs), p) ↦ rounds2_3-Ascends secrets pkgs m g (ground arith)
        ]
