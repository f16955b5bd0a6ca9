-- ===== src/Session/Selected.antt =====
-- src/session/mod.rs, `liveness_select`: the seats that the poll selects to sign.
use cheget.Base.{
  ℕ, zero, suc, ◌+◌, ◌≡◌, ◌≤◌, ◌<◌, ◌⊎◌, inl, inr, refl, List, [], ◌∷◌, In, In-append_left, length,
  ◌++◌, Option, none, some, Option-cases, Bool-cases, ok, err, Result-cases, map_err, codes, ◌==◌,
  arith,
}
use cheget.Base
use cheget.Base.OrdMap.{get, keys, ranked_ℕ}
use cheget.Crypto.Frost.{Frost}
use cheget.Crypto.Signing.{Signing}
use cheget.Chain.{Bitcoin}
use cheget.Transport.Envelope.{Envelope, Seat}
use cheget.Transport.Trait.{Transport}
use cheget.Session.Liveness.{poll_and_select, poll_and_select_lem}
use cheget.Session.Core.{World, Session}
use cheget.Session.Rounds.{
  place, sort, skip_repeats, dedup, senders, announce, poll_filter, liveness_select,
}

module _ (F : Frost) where
  open F use {Identifier, ranked}

  unfoldable Weakly : ℕ → List Identifier → Type 0
  Weakly l [] = Unit {0}
  Weakly l (a ∷ as') = (l ≤ ranked.rank a) × Weakly (ranked.rank a) as'

  -- The ranks ascend strictly, from above the bound.
  unfoldable pub Rises : ℕ → List Identifier → Type 0
  Rises l [] = Unit {0}
  Rises l (a ∷ as') = (l < ranked.rank a) × Rises (ranked.rank a) as'

  -- No identifier occurs twice, and they stand in their order.
  unfoldable pub Rising : List Identifier → Type 0
  unfolding Rises
  Rising [] = Unit {0}
  Rising (a ∷ as') = Rises (ranked.rank a) as'

  place-Weakly :
      (l : ℕ) (a : Identifier) (xs : List Identifier)
      → l ≤ ranked.rank a
      → Weakly l xs
      → Weakly l (place F a xs)
  unfolding place Weakly
  place-Weakly l a [] h w = (h, tt)
  place-Weakly l a (b ∷ bs) h w = elim (Bool-cases (Base.leb (ranked.rank a) (ranked.rank b))) [
    | inl e ↦ ground arith
    | inr e ↦ ground (arith, place-Weakly (ranked.rank b) a bs (ground arith) w.1)
  ]

  sort-Weakly : (xs : List Identifier) → Weakly 0 (sort F xs)
  unfolding sort Weakly
  sort-Weakly [] = tt
  sort-Weakly (a ∷ as') = place-Weakly 0 a (sort F as') (omega arith) (sort-Weakly as')

  skip_repeats-Rises :
      (a : Identifier) (xs : List Identifier)
      → Weakly (ranked.rank a) xs
      → Rises (ranked.rank a) (skip_repeats F a xs)
  unfolding skip_repeats Weakly Rises
  skip_repeats-Rises a [] w = tt
  skip_repeats-Rises a (b ∷ bs) w =
      let more = skip_repeats-Rises b bs w.1 in
      elim (Bool-cases (ranked.rank a == ranked.rank b)) [
        | inl e ↦ ground arith
        | inr e ↦ ground arith
      ]

  dedup-Rising : (xs : List Identifier) → Weakly 0 xs → Rising (dedup F xs)
  unfolding dedup Rising Weakly
  dedup-Rising [] w = tt
  dedup-Rising (a ∷ as') w = skip_repeats-Rises a as' w.1

  prefix-Rises : (l : ℕ) (xs ys : List Identifier) → Rises l (xs ++ ys) → Rises l xs
  unfolding Rises
  prefix-Rises l [] ys w = tt
  prefix-Rises l (x ∷ xs) ys w = (w.0, prefix-Rises (ranked.rank x) xs ys w.1)

  prefix-Rising : (xs ys : List Identifier) → Rising (xs ++ ys) → Rising xs
  unfolding Rising
  prefix-Rising [] ys w = tt
  prefix-Rising (x ∷ xs) ys w = prefix-Rises (ranked.rank x) xs ys w

  pub dedup-sort-Rising : (xs : List Identifier) → Rising (dedup F (sort F xs))
  dedup-sort-Rising xs = dedup-Rising (sort F xs) (sort-Weakly xs)

  In-place : (b a : Identifier) (xs : List Identifier) → In b (place F a xs) → In b (a ∷ xs)
  unfolding place
  In-place b a [] h = h
  In-place b a (c ∷ cs) h = elim (Bool-cases (Base.leb (ranked.rank a) (ranked.rank c))) [
    | inl e ↦ ground arith
    | inr e ↦ ground (arith, In-place b a cs)
  ]

  In-sort : (b : Identifier) (xs : List Identifier) → In b (sort F xs) → In b xs
  unfolding sort
  In-sort b [] h = h
  In-sort b (a ∷ as') h = ground (arith, In-place b a (sort F as') h, In-sort b as')

  In-skip_repeats : (b a : Identifier) (xs : List Identifier) → In b (skip_repeats F a xs) → In b xs
  unfolding skip_repeats
  In-skip_repeats b a [] h = h
  In-skip_repeats b a (c ∷ cs) h = elim (Bool-cases (ranked.rank a == ranked.rank c)) [
    | inl e ↦ ground (arith, In-skip_repeats b c cs)
    | inr e ↦ ground (arith, In-skip_repeats b c cs)
  ]

  In-dedup : (b : Identifier) (xs : List Identifier) → In b (dedup F xs) → In b xs
  unfolding dedup
  In-dedup b [] h = h
  In-dedup b (a ∷ as') h = ground (arith, In-skip_repeats b a as')

module _ (F : Frost) (S : Signing F) (T : Transport) (B : Bitcoin) where
  In-senders :
      (s : Session F B) (b : F.Identifier) (es : List Envelope)
      → In b (senders F S T B s es)
      → (e : Envelope) × In e es × (get e.seat s.id_of_seat ≡ some b)
  unfolding senders
  In-senders s b [] h = absurd h
  In-senders s b (e ∷ es) h = elim (Option-cases (get e.seat s.id_of_seat)) [
    | inl p ↦ let (d, i, q) = In-senders s b es (ground arith) in (d, inr i, q)
    | inr (a, p) ↦
        let found : (b ≡ a) ⊎ In b (senders F S T B s es) = ground arith in
        elim found [
          | inl q ↦ (e, inl refl, ground arith)
          | inr k ↦ let (d, i, q) = In-senders s b es k in (d, inr i, q)
        ]
  ]

  -- An announcement cannot fail.
  announce-ok :
      (s : Session F B) (seats : List Seat) (w : World F T) → (announce F S T B s seats w).0 ≡ ok tt
  unfolding announce
  announce-ok s [] w = refl
  announce-ok s (seat ∷ seats) w = announce-ok s seats _

  -- Each identifier is the one of a seat that sent one of the envelopes.
  unfoldable pub Answered : Session F B → List Envelope → List F.Identifier → Type 0
  Answered s es [] = Unit {0}
  Answered s es (b ∷ bs) =
      ((e : Envelope) × In e es × (get e.seat s.id_of_seat ≡ some b)) × Answered s es bs

  Answered-intro :
      (s : Session F B) (es : List Envelope) (bs : List F.Identifier)
      → ((b : F.Identifier)
          → In b bs
          → (e : Envelope) × In e es × (get e.seat s.id_of_seat ≡ some b))
      → Answered s es bs
  unfolding Answered
  Answered-intro s es [] all = tt
  Answered-intro s es (b ∷ bs) all =
      (all b (inl refl), Answered-intro s es bs (λ c i. all c (inr i)))

  -- If enough seats answered, then the poll gives what `poll_and_select` does.
  pub liveness_select-chosen :
      (s : Session F B) (w : World F T) (chosen : List F.Identifier)
      → poll_and_select
          (dedup F (
            sort F (
              senders F S T B s (
                T.subscribe
                  (poll_filter F S T B s)
                  (announce F S T B s (keys s.id_of_seat) w).1.board))))
          s.t
        ≡ ok chosen
      → (liveness_select F S T B s w).0 ≡ ok chosen
  unfolding liveness_select
  liveness_select-chosen s w chosen h = ground (arith, announce-ok s (keys s.id_of_seat) w)

  -- If the liveness poll succeeds, it has selected exactly as many identifiers as the session's
  -- threshold, none of them twice and in their order, and each is the one of a seat that sent an
  -- answer which the transport delivers after the poll.
  pub liveness_select_lem :
      (s : Session F B) (w w' : World F T) (chosen : List F.Identifier)
      → liveness_select F S T B s w ≡ (ok chosen, w')
      → (length chosen ≡ s.t)
        × Rising F chosen
        × Answered s (T.subscribe (poll_filter F S T B s) w'.board) chosen
  unfolding liveness_select
  liveness_select_lem s w w' chosen h =
      let after = (announce F S T B s (keys s.id_of_seat) w).1 in
      let answers = T.subscribe (poll_filter F S T B s) after.board in
      let found = senders F S T B s answers in
      let all = dedup F (sort F found) in
      let fine = announce-ok s (keys s.id_of_seat) w in
      elim (poll_and_select_lem all s.t) [
        | inr (few, p) ↦ absurd (ground arith)
        | inl (made, spare, p, n, q) ↦
            let same : chosen ≡ made = ground arith in
            let there : w' ≡ after = ground arith in
            rw same (
              rw there (
                n,
                prefix-Rising F made spare (rw q (dedup-sort-Rising F found)),
                Answered-intro s answers made (λ b i. In-senders s b answers (
                    In-sort F b found
                      (In-dedup F b (sort F found) (rw (← q) (In-append_left b made spare i))))),
              ))
      ]
