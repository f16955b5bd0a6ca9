-- ===== src/Crypto/Keygen/Reference.antt =====
-- The key generation does not depend on how its parallel rounds are scheduled: for every way of
-- dealing the seats out it equals a sequential reference, errors included, and never panics.
use cheget.Base.{
  ℕ, zero, suc, ◌+◌, ◌<◌, ◌≡◌, inl, inr, refl, sym, ap, ◌∙◌, Option, none, some, List, [], ◌∷◌,
  ◌++◌, map, map-append, flatten, In, In-append_split, arith, Result, ok, ◌>>=◌, ok_injective,
  Result-cases, Option-cases,
}
use mathlib.Core.List.{append-nil, append_assoc}
use cheget.Base.OrdMap.{Map, remove, insert, Ascends, insert-Ascends}
use cheget.Crypto.Frost.{Frost, RanksIndices}
use cheget.Crypto.Pool.Agree.{Agree, done, same, stop, Seated, Seated-push, plain, map_with-Agree}
use cheget.Crypto.Keygen.{
  KeygenError, round1, part2_of, part3_of, fan_out, resolve2, resolve3, finish, rounds2_3,
  run_inprocess_dkg_with_rng,
}

module _ (F : Frost) where
  open F use {
    Identifier, ranked, Rng, Round1Secret, Round1Package, Round2Secret, Round2Package, KeyPackage,
    PublicKeyPackage,
  }

  -- Rounds 2 and 3 in which every seat in turn sees the round-1 packages of all the others.
  unfoldable pub reference :
      List (Identifier × Round1Secret)
      → Map Identifier Round1Package
      → Result (KeygenError F) (Map Identifier KeyPackage × PublicKeyPackage)
  reference secrets pkgs = do
    (secrets2, by) ← resolve2 F (plain ⦃r = ranked⦄ (λ x. x.0) (part2_of F) pkgs secrets) [] []
    finish F (resolve3 F (plain ⦃r = ranked⦄ (λ x. x.0) (part3_of F by) pkgs secrets2) [] none)

  resolve2-Agree :
      {rs ss : List
        (Result (KeygenError F) (Identifier × Round2Secret × Map Identifier Round2Package))}
      (secrets : List (Identifier × Round2Secret))
      (by : Map Identifier (Map Identifier Round2Package))
      → Agree rs ss
      → resolve2 F rs secrets by ≡ resolve2 F ss secrets by
  unfolding resolve2
  resolve2-Agree secrets by done = refl
  resolve2-Agree secrets by (same (id, secret2, sent) a) = resolve2-Agree _ _ a
  resolve2-Agree secrets by (stop e) = refl

  resolve3-Agree :
      {rs ss : List (Result (KeygenError F) (Identifier × KeyPackage × PublicKeyPackage))}
      (packages : Map Identifier KeyPackage) (group : Option PublicKeyPackage)
      → Agree rs ss
      → resolve3 F rs packages group ≡ resolve3 F ss packages group
  unfolding resolve3
  resolve3-Agree packages group done = refl
  resolve3-Agree packages none (same (id, kp, g) a) = resolve3-Agree _ _ a
  resolve3-Agree packages (some h) (same (id, kp, g) a) =
      ground (arith, resolve3-Agree (insert ⦃r = ranked⦄ id kp packages) (some h) a)
  resolve3-Agree packages group (stop e) = refl

  -- Round 1 seats every participant in the pool, each under an identifier of its own.
  round1-Seated :
      RanksIndices F
      → (max min k i : ℕ) (secrets out : List (Identifier × Round1Secret))
        (pkgs pool : Map Identifier Round1Package) (rng rng' : Rng)
      → Ascends ⦃r = ranked⦄ pkgs
      → Seated ⦃r = ranked⦄ (map (λ x. x.0) secrets) pkgs
      → ((j : Identifier) → In j (map (λ x. x.0) secrets) → ranked.rank j < i)
      → round1 F max min k i secrets pkgs rng ≡ (ok (out, pool), rng')
      → Ascends ⦃r = ranked⦄ pool × Seated ⦃r = ranked⦄ (map (λ x. x.0) out) pool
  unfolding round1
  round1-Seated law max min zero i secrets out pkgs pool rng rng' a s b h =
      let e : ◌≡◌ {A = List (Identifier × Round1Secret) × Map Identifier Round1Package}
          (secrets, pkgs) (out, pool) =
        ok_injective (ap (λ p. p.0) h) in
      let p : secrets ≡ out = ap (λ x. x.0) e in
      let q : pkgs ≡ pool = ap (λ x. x.1) e in (rw (← q) a, rw (← p, ← q) s)
  round1-Seated law max min (suc k) i secrets out pkgs pool rng rng' a s b h =
      elim (Option-cases (F.to_identifier i)) [
        | inl none_made ↦ absurd (ground arith)
        | inr (id, made) ↦ elim (Result-cases (F.part1 id max min rng).0) [
          | inr (e, q) ↦ absurd (ground arith)
          | inl ((secret, pkg), q) ↦
              let at : ranked.rank id ≡ i = law i id made in
              let ids : map (λ x. x.0) (secrets ++ ((id, secret) ∷ []))
                  ≡ map (λ x. x.0) secrets ++ (id ∷ []) =
                map-append (λ x. x.0) secrets ((id, secret) ∷ []) in
              round1-Seated law max min k (i + 1) (secrets ++ ((id, secret) ∷ [])) out
                (insert ⦃r = ranked⦄ id pkg pkgs) pool (F.part1 id max min rng).1 rng'
                (insert-Ascends ⦃r = ranked⦄ id pkg pkgs a)
                (rw ids (
                  Seated-push ⦃r = ranked⦄ (map (λ x. x.0) secrets) id pkg pkgs
                    (λ j m. omega (arith, b j m)) s))
                (λ j m. elim (In-append_split j (map (λ x. x.0) secrets) (id ∷ []) (rw ids at m)) [
                  | inl m' ↦ omega (arith, b j m')
                  | inr m' ↦ elim m' [ inl t ↦ rw t (omega arith) | inr z ↦ absurd z ]
                ])
                (ground arith)
        ]
      ]

  -- Round 2 keeps the seats and their order.
  resolve2-ids :
      (pkgs : Map Identifier Round1Package) (xs : List (Identifier × Round1Secret))
      (secrets out : List (Identifier × Round2Secret))
      (by by' : Map Identifier (Map Identifier Round2Package))
      → resolve2 F (plain ⦃r = ranked⦄ (λ x. x.0) (part2_of F) pkgs xs) secrets by ≡ ok (out, by')
      → map (λ x. x.0) out ≡ map (λ x. x.0) secrets ++ map (λ x. x.0) xs
  unfolding resolve2 part2_of
  resolve2-ids pkgs [] secrets out by by' h =
      ap (λ p. map (λ x. x.0) p.0) (sym (ok_injective h)) ∙ sym (append-nil _)
  resolve2-ids pkgs ((id, s) ∷ xs) secrets out by by' h =
      elim (Result-cases (F.part2 s (remove ⦃r = ranked⦄ id pkgs))) [
        | inr (e, q) ↦ absurd (ground arith)
        | inl ((s2, sent), q) ↦
            let h' : resolve2 F (plain ⦃r = ranked⦄ (λ x. x.0) (part2_of F) pkgs xs)
                  (secrets ++ ((id, s2) ∷ [])) (fan_out F id sent by)
                ≡ ok (out, by') =
              ground arith in
            resolve2-ids pkgs xs (secrets ++ ((id, s2) ∷ [])) out (fan_out F id sent by) by' h'
            ∙ simp (map-append, append_assoc)
      ]

  module _ (split2 : List (Identifier × Round1Secret) → List (List (Identifier × Round1Secret)))
      (split3 : List (Identifier × Round2Secret) → List (List (Identifier × Round2Secret)))
      (flat2 : (xs : List (Identifier × Round1Secret)) → flatten (split2 xs) ≡ xs)
      (flat3 : (xs : List (Identifier × Round2Secret)) → flatten (split3 xs) ≡ xs) where
    rounds2_3-reference :
        (secrets : List (Identifier × Round1Secret)) (pkgs : Map Identifier Round1Package)
        → Ascends ⦃r = ranked⦄ pkgs
        → Seated ⦃r = ranked⦄ (map (λ x. x.0) secrets) pkgs
        → rounds2_3 F split2 split3 secrets pkgs ≡ some (reference secrets pkgs)
    unfolding rounds2_3 reference
    rounds2_3-reference secrets pkgs a s =
        let (ys, p, g) =
          map_with-Agree ⦃r = ranked⦄ (λ x. x.0) (part2_of F) (split2 secrets) pkgs a
            (rw flat2 s) in
        let g' : Agree ys (plain ⦃r = ranked⦄ (λ x. x.0) (part2_of F) pkgs secrets) =
          rw flat2 at g in
        elim (Result-cases
          (resolve2 F (plain ⦃r = ranked⦄ (λ x. x.0) (part2_of F) pkgs secrets) [] [])) [
            | inr (e, q) ↦ ground (arith, resolve2-Agree [] [] g')
            | inl ((secrets2, by), q) ↦
                let ids : map (λ x. x.0) secrets2 ≡ map (λ x. x.0) secrets =
                  resolve2-ids pkgs secrets [] secrets2 [] by q in
                let (zs, t, h) =
                  map_with-Agree ⦃r = ranked⦄ (λ x. x.0) (part3_of F by) (split3 secrets2) pkgs a
                    (rw (flat3, ids) s) in
                let h' : Agree zs (plain ⦃r = ranked⦄ (λ x. x.0) (part3_of F by) pkgs secrets2) =
                  rw flat3 at h in
                ground (arith, resolve2-Agree [] [] g', resolve3-Agree [] none h')
          ]

    -- However the seats are dealt out to the workers of the two parallel rounds, in runs that keep
    -- their order, the key generation equals the sequential reference in which every seat sees the
    -- packages of all the others, errors and the generator included, and never panics, where
    -- identifiers are ranked as their indices.
    pub run_inprocess_dkg_with_rng-reference :
        RanksIndices F
        → (min max : ℕ) (rng : Rng)
        → let (first, rng') = round1 F max min max 1 [] [] rng in
          run_inprocess_dkg_with_rng F split2 split3 min max rng
          ≡ (some (first >>= λ s. reference s.0 s.1), rng')
    unfolding run_inprocess_dkg_with_rng
    run_inprocess_dkg_with_rng-reference law min max rng =
        elim (Result-cases (round1 F max min max 1 [] [] rng).0) [
          | inr (e, q) ↦ ground arith
          | inl ((secrets, pkgs), q) ↦
              let (a, s) =
                round1-Seated law max min max 1 [] secrets [] pkgs rng
                  (round1 F max min max 1 [] [] rng).1 tt tt (λ j m. absurd m) (ground arith) in
              ground (arith, rounds2_3-reference secrets pkgs a s)
        ]
