-- ===== src/Crypto/Keygen.antt =====
-- src/crypto/keygen.rs: the distributed key generation in one process, and the confirmation of its
-- result.
pub mod Ascending
pub mod Reference
pub mod Success
use cheget.Base.{
  ℕ, zero, suc, ◌+◌, Option, none, some, List, [], ◌∷◌, ◌++◌, Bool, true, false, eqb, unwrap_or,
  Result, ok, err, ◌>>=◌, ok_or, map_err, if◌then◌else◌,
}
use cheget.Base.OrdMap.{Map, Ranked, get, insert}
use cheget.Crypto.Frost.{Frost}
use cheget.Crypto.Pool.{map_with}

pub data KeygenError (F : Frost) : Type 0 where
  frost : F.Error → KeygenError F
  identifier : ℕ → KeygenError F
  group_key_mismatch : F.Identifier → KeygenError F
  empty : KeygenError F

module _ (F : Frost) where
  open F use {
    Identifier, ranked, Rng, Round1Secret, Round1Package, Round2Secret, Round2Package, KeyPackage,
    PublicKeyPackage,
  }

  -- Round 1: seats `i`, `i + 1`, … for as many rounds as are left, threading the generator.
  unfoldable pub round1 :
      ℕ
      → ℕ
      → ℕ
      → ℕ
      → List (Identifier × Round1Secret)
      → Map Identifier Round1Package
      → Rng
      → Result (KeygenError F) (List (Identifier × Round1Secret) × Map Identifier Round1Package)
        × Rng
  round1 max min zero i secrets pkgs rng = (ok (secrets, pkgs), rng)
  round1 max min (suc k) i secrets pkgs rng = elim (F.to_identifier i) [
    | none ↦ (err (identifier i), rng)
    | some id ↦
        let (made, rng') = F.part1 id max min rng in
        elim made [
          | err e ↦ (err (frost e), rng')
          | ok (secret, pkg) ↦
              round1 max min k (i + 1) (secrets ++ ((id, secret) ∷ []))
                (insert ⦃r = ranked⦄ id pkg pkgs) rng'
        ]
  ]

  -- The closures of the parallel rounds, without the handling of the pool.
  unfoldable pub part2_of :
      Identifier × Round1Secret
      → Map Identifier Round1Package
      → Result (KeygenError F) (Identifier × Round2Secret × Map Identifier Round2Package)
  part2_of (id, secret) others = elim (F.part2 secret others) [
    | err e ↦ err (frost e)
    | ok (secret2, sent) ↦ ok (id, secret2, sent)
  ]

  unfoldable pub part3_of :
      Map Identifier (Map Identifier Round2Package)
      → Identifier × Round2Secret
      → Map Identifier Round1Package
      → Result (KeygenError F) (Identifier × KeyPackage × PublicKeyPackage)
  part3_of by_recipient (id, secret2) others =
      let mine = unwrap_or (get ⦃r = ranked⦄ id by_recipient) [] in
      elim (F.part3 secret2 others mine) [
        | err e ↦ err (frost e)
        | ok (kp, pubkeys) ↦ ok (id, F.key_even_y kp, F.group_even_y pubkeys)
      ]

  -- `for (recipient, pkg) in sent { by.entry(recipient).or_default().insert(id, pkg) }`
  unfoldable pub fan_out :
      Identifier
      → Map Identifier Round2Package
      → Map Identifier (Map Identifier Round2Package)
      → Map Identifier (Map Identifier Round2Package)
  fan_out id [] by = by
  fan_out id ((recipient, pkg) ∷ sent) by =
      let had = unwrap_or (get ⦃r = ranked⦄ recipient by) [] in
      fan_out id sent (insert ⦃r = ranked⦄ recipient (insert ⦃r = ranked⦄ id pkg had) by)

  -- The sequential loops over the results, which stop at the first error.
  unfoldable pub resolve2 :
      List (Result (KeygenError F) (Identifier × Round2Secret × Map Identifier Round2Package))
      → List (Identifier × Round2Secret)
      → Map Identifier (Map Identifier Round2Package)
      → Result
          (KeygenError F)
          (List (Identifier × Round2Secret) × Map Identifier (Map Identifier Round2Package))
  resolve2 [] secrets by = ok (secrets, by)
  resolve2 (err e ∷ rest) secrets by = err e
  resolve2 (ok (id, secret2, sent) ∷ rest) secrets by =
      resolve2 rest (secrets ++ ((id, secret2) ∷ [])) (fan_out id sent by)

  unfoldable pub resolve3 :
      List (Result (KeygenError F) (Identifier × KeyPackage × PublicKeyPackage))
      → Map Identifier KeyPackage
      → Option PublicKeyPackage
      → Result (KeygenError F) (Map Identifier KeyPackage × Option PublicKeyPackage)
  resolve3 [] packages group = ok (packages, group)
  resolve3 (err e ∷ rest) packages group = err e
  resolve3 (ok (id, kp, pubkeys) ∷ rest) packages none =
      resolve3 rest (insert ⦃r = ranked⦄ id kp packages) (some pubkeys)
  resolve3 (ok (id, kp, pubkeys) ∷ rest) packages (some g) =
      let more = resolve3 rest (insert ⦃r = ranked⦄ id kp packages) (some g) in
      if eqb F.vk_dec (F.group_vk g) (F.group_vk pubkeys) then more else err (group_key_mismatch id)

  -- The last statements: `group.ok_or(Empty)`.
  unfoldable pub finish :
      Result (KeygenError F) (Map Identifier KeyPackage × Option PublicKeyPackage)
      → Result (KeygenError F) (Map Identifier KeyPackage × PublicKeyPackage)
  finish r = do (packages, group) ← r; g ← ok_or group empty; ok (packages, g)

  -- How rayon deals the seats of each parallel round out to its workers.
  module _ (split2 : List (Identifier × Round1Secret) → List (List (Identifier × Round1Secret)))
      (split3 : List (Identifier × Round2Secret) → List (List (Identifier × Round2Secret))) where
    unfoldable pub rounds2_3 :
        List (Identifier × Round1Secret)
        → Map Identifier Round1Package
        → Option (Result (KeygenError F) (Map Identifier KeyPackage × PublicKeyPackage))
    rounds2_3 secrets pkgs =
        elim (map_with ⦃r = ranked⦄ (λ x. x.0) part2_of (split2 secrets) pkgs) [
          | none ↦ none
          | some computed2 ↦ elim (resolve2 computed2 [] []) [
            | err e ↦ some (err e)
            | ok (secrets2, by) ↦
                elim (map_with ⦃r = ranked⦄ (λ x. x.0) (part3_of by) (split3 secrets2) pkgs) [
                  | none ↦ none
                  | some computed3 ↦ some (finish (resolve3 computed3 [] none))
                ]
          ]
        ]

    unfoldable pub run_inprocess_dkg_with_rng :
        ℕ
        → ℕ
        → Rng
        → Option (Result (KeygenError F) (Map Identifier KeyPackage × PublicKeyPackage)) × Rng
    run_inprocess_dkg_with_rng min max rng =
        let (first, rng') = round1 max min max 1 [] [] rng in
        (elim first [ err e ↦ some (err e) | ok (secrets, pkgs) ↦ rounds2_3 secrets pkgs ], rng')

  unfoldable pub confirm_group_key :
      Map Identifier KeyPackage → PublicKeyPackage → Result (KeygenError F) (Unit {0})
  confirm_group_key [] group = ok tt
  confirm_group_key ((id, kp) ∷ packages) group =
      let rest = confirm_group_key packages group in
      if eqb F.vk_dec (F.key_vk kp) (F.group_vk group) then rest else err (group_key_mismatch id)
