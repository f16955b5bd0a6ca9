-- ===== src/Crypto/Keygen/Success.antt =====
-- What the confirmation checks, that a key generation which succeeds passes it, and which seat a
-- refusal names.
use cheget.Base.{
  ℕ, ◌≡◌, ◌≢◌, ◌↔◌, refl, sym, ap, ◌∙◌, Option, none, some, List, [], ◌∷◌, ◌++◌, unwrap_or, flatten,
  arith, Result, ok, err, ok_injective, ◌>>=◌, map, Result-cases, inl, inr,
}
use cheget.Base.OrdMap.{Map, get, insert, remove, Ascends, Above, get_of_Above}
use cheget.Crypto.Frost.{Frost, RanksIndices, AgreesOnKey}
use cheget.Crypto.Pool.Agree.{plain}
use cheget.Crypto.Keygen.{
  KeygenError, group_key_mismatch, empty, round1, part2_of, part3_of, resolve2, resolve3, finish,
  run_inprocess_dkg_with_rng, confirm_group_key,
}
use cheget.Crypto.Keygen.Reference.{reference, run_inprocess_dkg_with_rng-reference}

module _ (F : Frost) where
  open F use {
    Identifier, ranked, Rng, Round1Secret, Round1Package, Round2Secret, Round2Package, KeyPackage,
    PublicKeyPackage,
  }

  confirmed_keys :
      (m : Map Identifier KeyPackage) (g : PublicKeyPackage) (id : Identifier) (kp : KeyPackage)
      → confirm_group_key F m g ≡ ok tt
      → get ⦃r = ranked⦄ id m ≡ some kp
      → F.key_vk kp ≡ F.group_vk g
  unfolding confirm_group_key get
  confirmed_keys [] g id kp h e = absurd (ground arith)
  confirmed_keys ((j, w) ∷ m) g id kp h e = ground (arith, confirmed_keys m g id kp)

  further :
      (j id : Identifier) (w kp : KeyPackage) (m : Map Identifier KeyPackage)
      → Above ⦃r = ranked⦄ (ranked.rank j) m
      → get ⦃r = ranked⦄ id m ≡ some kp
      → get ⦃r = ranked⦄ id ((j, w) ∷ m) ≡ some kp
  unfolding get
  further j id w kp m a e = ground (arith, get_of_Above ⦃r = ranked⦄ (ranked.rank j) id m a)

  first :
      (j : Identifier) (w : KeyPackage) (m : Map Identifier KeyPackage)
      → get ⦃r = ranked⦄ j ((j, w) ∷ m) ≡ some w
  unfolding get
  first j w m = ground arith

  keys_confirmed :
      (m : Map Identifier KeyPackage) (g : PublicKeyPackage)
      → Ascends ⦃r = ranked⦄ m
      → ((id : Identifier) (kp : KeyPackage)
          → get ⦃r = ranked⦄ id m ≡ some kp
          → F.key_vk kp ≡ F.group_vk g)
      → confirm_group_key F m g ≡ ok tt
  unfolding confirm_group_key
  keys_confirmed [] g a h = refl
  keys_confirmed ((j, w) ∷ m) g a h =
      let here : F.key_vk w ≡ F.group_vk g = h j w (first j w m) in
      let rest : confirm_group_key F m g ≡ ok tt =
        keys_confirmed m g a.1 (λ id kp e. h id kp (further j id w kp m a.0 e)) in
      ground arith

  -- The confirmation succeeds exactly if every listed seat's key package carries the group's
  -- verifying key, on a map with ascending keys.
  pub confirm_group_key_iff :
      (m : Map Identifier KeyPackage) (g : PublicKeyPackage)
      → Ascends ⦃r = ranked⦄ m
      → (confirm_group_key F m g ≡ ok tt) ↔ (
          (id : Identifier) (kp : KeyPackage)
          → get ⦃r = ranked⦄ id m ≡ some kp
          → F.key_vk kp ≡ F.group_vk g)
  confirm_group_key_iff m g a = ((λ h id kp e. confirmed_keys m g id kp h e), keys_confirmed m g a)

  confirm-insert :
      (id : Identifier) (kp : KeyPackage) (m : Map Identifier KeyPackage) (g : PublicKeyPackage)
      → F.key_vk kp ≡ F.group_vk g
      → confirm_group_key F m g ≡ ok tt
      → confirm_group_key F (insert ⦃r = ranked⦄ id kp m) g ≡ ok tt
  unfolding confirm_group_key insert
  confirm-insert id kp [] g e h = ground arith
  confirm-insert id kp ((j, w) ∷ m) g e h = ground (arith, confirm-insert id kp m g e)

  -- Every result that a seat delivered carries one key twice.
  abbrev Consistent :
      List (Result (KeygenError F) (Identifier × KeyPackage × PublicKeyPackage)) → Type 0
  Consistent [] = Unit
  Consistent (err e ∷ rest) = Consistent rest
  Consistent (ok (id, kp, g) ∷ rest) = (F.key_vk kp ≡ F.group_vk g) × Consistent rest

  plain-Consistent :
      AgreesOnKey F
      → (by : Map Identifier (Map Identifier Round2Package)) (pkgs : Map Identifier Round1Package)
        (xs : List (Identifier × Round2Secret))
      → Consistent (plain ⦃r = ranked⦄ (λ x. x.0) (part3_of F by) pkgs xs)
  unfolding part3_of
  plain-Consistent law by pkgs [] = tt
  plain-Consistent law by pkgs ((id, s) ∷ xs) =
      let others = remove ⦃r = ranked⦄ id pkgs in
      let mine = unwrap_or (get ⦃r = ranked⦄ id by) [] in
      elim (Result-cases (F.part3 s others mine)) [
        | inr (e, q) ↦ rw (q, part3_of) (plain-Consistent law by pkgs xs)
        | inl ((kp, g), q) ↦
            rw (q, part3_of) (law s others mine kp g q, plain-Consistent law by pkgs xs)
      ]

  -- Once a group key is set, what is collected agrees with it.
  resolve3-confirmed :
      (rs : List (Result (KeygenError F) (Identifier × KeyPackage × PublicKeyPackage)))
      (m out : Map Identifier KeyPackage) (g h : PublicKeyPackage)
      → Consistent rs
      → confirm_group_key F m g ≡ ok tt
      → resolve3 F rs m (some g) ≡ ok (out, some h)
      → confirm_group_key F out h ≡ ok tt
  unfolding resolve3
  resolve3-confirmed [] m out g h c k e =
      let e' : ◌≡◌ {A = Map Identifier KeyPackage × Option PublicKeyPackage} (m, some g)
          (out, some h) =
        ok_injective e in
      let p : m ≡ out = ap (λ x. x.0) e' in let q : g ≡ h = ground arith in rw (← p, ← q) k
  resolve3-confirmed (err x ∷ rs) m out g h c k e = absurd (ground arith)
  resolve3-confirmed (ok (id, kp, pk) ∷ rs) m out g h c k e =
      elim (F.vk_dec (F.group_vk g) (F.group_vk pk)) [
        | no n ↦ absurd (ground arith)
        | yes y ↦
            resolve3-confirmed rs (insert ⦃r = ranked⦄ id kp m) out g h c.1
              (confirm-insert id kp m g (c.0 ∙ sym y) k) (ground arith)
      ]

  finished :
      (out : Map Identifier KeyPackage) (h : PublicKeyPackage)
      (r : Result (KeygenError F) (Map Identifier KeyPackage × Option PublicKeyPackage))
      → finish F r ≡ ok (out, h)
      → r ≡ ok (out, some h)
  unfolding finish
  finished out h (err e) p = absurd (ground arith)
  finished out h (ok (m, none)) p = absurd (ground arith)
  finished out h (ok (m, some g)) p =
      let q : ◌≡◌ {A = Map Identifier KeyPackage × PublicKeyPackage} (m, g) (out, h) =
        ok_injective p in
      λ i. ok ((q i).0, some (q i).1)

  resolve3-start :
      (rs : List (Result (KeygenError F) (Identifier × KeyPackage × PublicKeyPackage)))
      (out : Map Identifier KeyPackage) (h : PublicKeyPackage)
      → Consistent rs
      → finish F (resolve3 F rs [] none) ≡ ok (out, h)
      → confirm_group_key F out h ≡ ok tt
  unfolding resolve3 finish confirm_group_key
  resolve3-start [] out h c e = absurd (ground arith)
  resolve3-start (err x ∷ rs) out h c e = absurd (ground arith)
  resolve3-start (ok (id, kp, pk) ∷ rs) out h c e =
      resolve3-confirmed rs (insert ⦃r = ranked⦄ id kp []) out pk h c.1
        (confirm-insert id kp [] pk c.0 refl) (finished out h _ e)

  reference-confirmed :
      AgreesOnKey F
      → (secrets : List (Identifier × Round1Secret)) (pkgs : Map Identifier Round1Package)
        (out : Map Identifier KeyPackage) (h : PublicKeyPackage)
      → reference F secrets pkgs ≡ ok (out, h)
      → confirm_group_key F out h ≡ ok tt
  unfolding reference
  reference-confirmed law secrets pkgs out h e =
      let second = resolve2 F (plain ⦃r = ranked⦄ (λ x. x.0) (part2_of F) pkgs secrets) [] [] in
      elim (Result-cases second) [
        | inr (x, q) ↦ absurd (ground arith)
        | inl ((secrets2, by), q) ↦
            resolve3-start (plain ⦃r = ranked⦄ (λ x. x.0) (part3_of F by) pkgs secrets2) out h
              (plain-Consistent law by pkgs secrets2) (ground arith)
      ]

  module _ (split2 : List (Identifier × Round1Secret) → List (List (Identifier × Round1Secret)))
      (split3 : List (Identifier × Round2Secret) → List (List (Identifier × Round2Secret)))
      (flat2 : (xs : List (Identifier × Round1Secret)) → flatten (split2 xs) ≡ xs)
      (flat3 : (xs : List (Identifier × Round2Secret)) → flatten (split3 xs) ≡ xs) where
    -- A key generation that succeeds passes the client-side confirmation of the group key, however
    -- it was scheduled, where one seat's two packages agree on the key and identifiers are ranked
    -- as their indices.
    pub run_inprocess_dkg_with_rng-confirmed :
        RanksIndices F
        → AgreesOnKey F
        → (min max : ℕ) (rng : Rng) (out : Map Identifier KeyPackage) (h : PublicKeyPackage)
        → (run_inprocess_dkg_with_rng F split2 split3 min max rng).0 ≡ some (ok (out, h))
        → confirm_group_key F out h ≡ ok tt
    run_inprocess_dkg_with_rng-confirmed law agree min max rng out h e =
        let r = run_inprocess_dkg_with_rng-reference F split2 split3 flat2 flat3 law min max rng in
        let e' : ((round1 F max min max 1 [] [] rng).0 >>= λ s. reference F s.0 s.1) ≡ ok (out, h) =
          ap (λ o. unwrap_or o (err empty)) (sym (ap (λ p. p.0) r) ∙ e) in
        elim (Result-cases (round1 F max min max 1 [] [] rng).0) [
          | inr (x, q) ↦ absurd (ground arith)
          | inl ((secrets, pkgs), q) ↦ reference-confirmed agree secrets pkgs out h (ground arith)
        ]

  -- Results that a loop over them takes for agreeing with the group key `g`.
  abbrev pub AllAgree :
      PublicKeyPackage → List (Identifier × KeyPackage × PublicKeyPackage) → Type 0
  AllAgree g [] = Unit
  AllAgree g ((id, kp, pk) ∷ rest) = (F.group_vk g ≡ F.group_vk pk) × AllAgree g rest

  later-mismatch :
      (pre : List (Identifier × KeyPackage × PublicKeyPackage)) (id : Identifier) (kp : KeyPackage)
      (pk g : PublicKeyPackage)
      (rest : List (Result (KeygenError F) (Identifier × KeyPackage × PublicKeyPackage)))
      (m : Map Identifier KeyPackage)
      → AllAgree g pre
      → F.group_vk g ≢ F.group_vk pk
      → resolve3 F (map ok pre ++ ok (id, kp, pk) ∷ rest) m (some g) ≡ err (group_key_mismatch id)
  unfolding resolve3
  later-mismatch [] id kp pk g rest m a n = ground arith
  later-mismatch ((j, x, y) ∷ pre) id kp pk g rest m a n =
      ground (arith, later-mismatch pre id kp pk g rest (insert ⦃r = ranked⦄ j x m) a.1 n)

  -- The refusal of the round-3 results names the first seat, in their order, whose group key is not
  -- that of the first seat, whatever the seats behind it delivered.
  pub resolve3-mismatch :
      (first : Identifier × KeyPackage × PublicKeyPackage)
      (pre : List (Identifier × KeyPackage × PublicKeyPackage))
      (bad : Identifier × KeyPackage × PublicKeyPackage)
      (rest : List (Result (KeygenError F) (Identifier × KeyPackage × PublicKeyPackage)))
      → AllAgree first.2 pre
      → F.group_vk first.2 ≢ F.group_vk bad.2
      → finish F (resolve3 F (map ok (first ∷ pre) ++ ok bad ∷ rest) [] none)
        ≡ err (group_key_mismatch bad.0)
  unfolding resolve3 finish
  resolve3-mismatch (j, x, g) pre (id, kp, pk) rest a n =
      rw (later-mismatch pre id kp pk g rest (insert ⦃r = ranked⦄ j x []) a n)
