-- ===== src/Session/Live.antt =====
-- src/session/mod.rs, `liveness_select`, over the board of src/transport/inmemory.rs.
use cheget.Base.{
  ℕ, zero, suc, ◌+◌, ◌≡◌, ap, sym, ◌≤◌, ◌<◌, ◌⊎◌, inl, inr, refl, List, [], ◌∷◌, In, length, ltb,
  none, some, Option-cases, Bool-cases, ok, err, true, codes, ◌==◌, arith, map_err, text_dec,
}
use cheget.Base
use cheget.Base.OrdMap.{get, keys, ranked_ℕ}
use cheget.Crypto.Frost.{Frost}
use cheget.Crypto.Signing.{Signing}
use cheget.Chain.{Bitcoin}
use cheget.Transport.Envelope.{Envelope, Seat, session_control, broadcast, id}
use cheget.Transport.Filter
use cheget.Transport.Filter.{matches}
use cheget.Transport.InMemory
use cheget.Transport.Trait.{in_memory}
use cheget.Transport.Board.{IsBoard, publish-IsBoard, get-publish, subscribe_iff}
use cheget.Session.Liveness.{poll_and_select_lem}
use cheget.Session.Core.{World, Session}
use cheget.Session.Rounds.{
  place, sort, skip_repeats, dedup, senders, announce, poll_filter, liveness_select,
}
use cheget.Session.Selected.{Rises, Rising, dedup-sort-Rising, liveness_select-chosen}

module _ (F : Frost) where
  open F use {Identifier, ranked}

  -- An identifier of this rank is in the list.
  unfoldable Ranks : ℕ → List Identifier → Type 0
  Ranks r [] = ⊥
  Ranks r (a ∷ as') = (ranked.rank a ≡ r) ⊎ Ranks r as'

  Ranks-of : (a : Identifier) (xs : List Identifier) → In a xs → Ranks (ranked.rank a) xs
  unfolding Ranks
  Ranks-of a [] h = h
  Ranks-of a (x ∷ xs) (inl h) = inl (ap ranked.rank (sym h))
  Ranks-of a (x ∷ xs) (inr h) = inr (Ranks-of a xs h)

  Ranks-to :
      (r : ℕ) (xs : List Identifier) → Ranks r xs → (a : Identifier) × In a xs × (ranked.rank a ≡ r)
  unfolding Ranks
  Ranks-to r [] h = absurd h
  Ranks-to r (x ∷ xs) (inl h) = (x, inl refl, h)
  Ranks-to r (x ∷ xs) (inr h) = let (a, i, e) = Ranks-to r xs h in (a, inr i, e)

  Ranks-place :
      (r : ℕ) (a : Identifier) (xs : List Identifier) → Ranks r (a ∷ xs) → Ranks r (place F a xs)
  unfolding place Ranks
  Ranks-place r a [] h = h
  Ranks-place r a (b ∷ bs) h = elim (Bool-cases (Base.leb (ranked.rank a) (ranked.rank b))) [
    | inl e ↦ ground arith
    | inr e ↦ ground (arith, Ranks-place r a bs)
  ]

  Ranks-sort : (r : ℕ) (xs : List Identifier) → Ranks r xs → Ranks r (sort F xs)
  unfolding sort Ranks
  Ranks-sort r [] h = h
  Ranks-sort r (a ∷ as') (inl p) = Ranks-place r a (sort F as') (inl p)
  Ranks-sort r (a ∷ as') (inr i) = Ranks-place r a (sort F as') (inr (Ranks-sort r as' i))

  Ranks-skip :
      (r : ℕ) (a : Identifier) (xs : List Identifier)
      → Ranks r (a ∷ xs)
      → Ranks r (a ∷ skip_repeats F a xs)
  unfolding skip_repeats Ranks
  Ranks-skip r a [] h = h
  Ranks-skip r a (b ∷ bs) h = elim (Bool-cases (ranked.rank a == ranked.rank b)) [
    | inl e ↦ ground (arith, Ranks-skip r b bs)
    | inr e ↦ ground (arith, Ranks-skip r b bs)
  ]

  Ranks-dedup : (r : ℕ) (xs : List Identifier) → Ranks r xs → Ranks r (dedup F xs)
  unfolding dedup
  Ranks-dedup r [] h = h
  Ranks-dedup r (a ∷ as') h = Ranks-skip r a as' h

  Ranks-above : (l r : ℕ) (xs : List Identifier) → Rises F l xs → Ranks r xs → l < r
  unfolding Ranks Rises
  Ranks-above l r [] up h = absurd h
  Ranks-above l r (x ∷ xs) up (inl h) = omega (arith, h, up.0)
  Ranks-above l r (x ∷ xs) up (inr h) = omega (arith, up.0, Ranks-above (ranked.rank x) r xs up.1 h)

  tail-Rising : (l : ℕ) (xs : List Identifier) → Rises F l xs → Rising F xs
  unfolding Rises Rising
  tail-Rising l [] up = tt
  tail-Rising l (x ∷ xs) up = up.1

  -- Ascending identifiers whose ranks all occur among others are at most as many.
  length-Ranks :
      (xs ys : List Identifier)
      → Rising F xs
      → Rising F ys
      → ((r : ℕ) → Ranks r xs → Ranks r ys)
      → length xs ≤ length ys
  unfolding Ranks Rising
  length-Ranks [] ys up down all = omega arith
  length-Ranks (x ∷ xs) [] up down all = absurd (all (ranked.rank x) (inl refl))
  length-Ranks (x ∷ xs) (y ∷ ys) up down all = elim (Bool-cases (ranked.rank y == ranked.rank x)) [
    | inl e ↦
        let rest =
          length-Ranks xs ys (tail-Rising (ranked.rank x) xs up)
            (tail-Rising (ranked.rank y) ys down)
            (λ r h. ground (arith, Ranks-above (ranked.rank x) r xs up h, all r (inr h))) in
        omega (arith, rest)
    | inr e ↦
        let below : ranked.rank y < ranked.rank x = ground (
          arith,
          all (ranked.rank x) (inl refl),
          Ranks-above (ranked.rank y) (ranked.rank x) ys down,
        ) in
        let rest =
          length-Ranks (x ∷ xs) ys up (tail-Rising (ranked.rank y) ys down)
            (λ r h. ground (arith, Ranks-above (ranked.rank x) r xs up, all r h)) in
        omega (arith, rest)
  ]

-- An envelope under whose id nothing else is held is held after its publication, and nothing else is
-- held there after the publication of one with another id.
publish-held :
    (d : Envelope) (s : InMemory.Store)
    → ((e : Envelope) → get (id d) s ≡ some e → e ≡ d)
    → get (id d) (InMemory.publish d s).1 ≡ some d
publish-held d s vacant = elim (Option-cases (get (id d) s)) [
  | inl p ↦ ground (arith, get-publish d s (id d))
  | inr (e, p) ↦ ground (arith, get-publish d s (id d), vacant e p)
]

publish-vacant :
    (d c : Envelope) (s : InMemory.Store)
    → (id d ≡ id c → d ≡ c)
    → ((e : Envelope) → get (id d) s ≡ some e → e ≡ d)
    → (e : Envelope) → get (id d) (InMemory.publish c s).1 ≡ some e
    → e ≡ d
publish-vacant d c s apart vacant e h = elim (Bool-cases (id d == id c)) [
  | inr ne ↦ vacant e (ground (arith, get-publish c s (id d)))
  | inl eq ↦
      let same = apart (ground arith) in
      elim (Option-cases (get (id d) s)) [
        | inl p ↦ ground (arith, get-publish c s (id d))
        | inr (old, p) ↦ ground (arith, get-publish c s (id d), vacant old p)
      ]
]

module _ (F : Frost) (S : Signing F) (B : Bitcoin) where
  abbrev pub live : Session F B → Seat → Envelope
  live s seat = broadcast session_control s.id 0 seat (codes "live")

  -- The board holds nothing else under the id of the seat's answer.
  abbrev pub Vacant : Session F B → InMemory.Store → Seat → Type 0
  Vacant s board seat = (e : Envelope) → get (id (live s seat)) board ≡ some e → e ≡ live s seat

  -- The board of a session's world, as the store that it is.
  unfoldable pub board_of : World F in_memory → InMemory.Store
  unfolding in_memory
  board_of w = w.board

  announce-IsBoard :
      (s : Session F B) (seats : List Seat) (w : World F in_memory)
      → IsBoard (board_of w)
      → IsBoard (board_of (announce F S in_memory B s seats w).1)
  unfolding announce in_memory board_of
  announce-IsBoard s [] w b = b
  announce-IsBoard s (seat ∷ seats) w b =
      announce-IsBoard s seats _ (publish-IsBoard (live s seat) w.board b)

  announce-keeps :
      (s : Session F B) (seats : List Seat) (w : World F in_memory) (k : ℕ) (e : Envelope)
      → get k (board_of w) ≡ some e
      → get k (board_of (announce F S in_memory B s seats w).1) ≡ some e
  unfolding announce in_memory board_of
  announce-keeps s [] w k e h = h
  announce-keeps s (seat ∷ seats) w k e h =
      announce-keeps s seats _ k e (ground (arith, get-publish (live s seat) w.board k))

  -- After the announcements the board holds the answer of every seat.
  announce-holds :
      (s : Session F B) (seats : List Seat) (w : World F in_memory) (seat : Seat)
      → In seat seats
      → ((other : Seat) → In other seats → Vacant s (board_of w) other)
      → ((x y : Seat) → In x seats → In y seats → id (live s x) ≡ id (live s y) → x ≡ y)
      → get (id (live s seat)) (board_of (announce F S in_memory B s seats w).1)
        ≡ some (live s seat)
  unfolding announce in_memory board_of
  announce-holds s [] w seat i vacant apart = absurd i
  announce-holds s (x ∷ xs) w seat (inl p) vacant apart = rw p (
      announce-keeps s xs _ (id (live s x)) (live s x)
        (publish-held (live s x) (board_of w) (vacant x (inl refl))))
  announce-holds s (x ∷ xs) w seat (inr i) vacant apart =
      announce-holds s xs _ seat i
        (λ y j.
          publish-vacant (live s y) (live s x) (board_of w)
            (λ q. ap (live s) (apart y x (inr j) (inl refl) q)) (vacant y (inr j)))
        (λ a b j k. apart a b (inr j) (inr k))

  In-senders_of :
      (s : Session F B) (b : F.Identifier) (e : Envelope) (es : List Envelope)
      → In e es
      → get e.seat s.id_of_seat ≡ some b
      → In b (senders F S in_memory B s es)
  unfolding senders
  In-senders_of s b e [] i h = absurd i
  In-senders_of s b e (d ∷ es) (inl p) h = ground arith
  In-senders_of s b e (d ∷ es) (inr i) h =
      let rest = In-senders_of s b e es i h in
      elim (Option-cases (get d.seat s.id_of_seat)) [
        | inl q ↦ ground arith
        | inr (a, q) ↦ ground arith
      ]

  In-senders_live :
      (s : Session F B) (b : F.Identifier) (seat : Seat) (es : List Envelope)
      → In (live s seat) es
      → get seat s.id_of_seat ≡ some b
      → In b (senders F S in_memory B s es)
  unfolding broadcast
  In-senders_live s b seat es i h = In-senders_of s b (live s seat) es i h

  matches-live :
      (s : Session F B) (seat : Seat) → matches (poll_filter F S in_memory B s) (live s seat) ≡ true
  unfolding matches broadcast Filter.ceremony Filter.class Filter.all
  matches-live s seat = ground arith

  -- On a board, the liveness poll of a session succeeds if as many identifiers as the threshold,
  -- given in ascending order, each have a seat, the ids of the answers of any two seats differ, and
  -- the board holds nothing else under these ids.
  pub liveness_select-live :
      (s : Session F B) (w : World F in_memory) (them : List F.Identifier)
      → IsBoard (board_of w)
      → ((seat : Seat) → In seat (keys s.id_of_seat) → Vacant s (board_of w) seat)
      → ((x y : Seat)
          → In x (keys s.id_of_seat)
          → In y (keys s.id_of_seat)
          → id (live s x) ≡ id (live s y)
          → x ≡ y)
      → Rising F them
      → ((b : F.Identifier)
          → In b them
          → (seat : Seat) × In seat (keys s.id_of_seat) × (get seat s.id_of_seat ≡ some b))
      → s.t ≤ length them
      → (chosen : List F.Identifier) × ((liveness_select F S in_memory B s w).0 ≡ ok chosen)
  unfolding in_memory board_of
  liveness_select-live s w them board vacant apart rising seated enough =
      let after = (announce F S in_memory B s (keys s.id_of_seat) w).1 in
      let answers = InMemory.subscribe (poll_filter F S in_memory B s) (board_of after) in
      let found = senders F S in_memory B s answers in
      let all = dedup F (sort F found) in
      let among : (r : ℕ) → Ranks F r them → Ranks F r found = λ r h.
        let (b, i, e) = Ranks-to F r them h in
        let (seat, j, p) = seated b i in
        let there =
          (subscribe_iff (poll_filter F S in_memory B s) (live s seat) (board_of after)
              (announce-IsBoard s (keys s.id_of_seat) w board)).1
            (announce-holds s (keys s.id_of_seat) w seat j vacant apart, matches-live s seat) in
        rw (← e) (Ranks-of F b found (In-senders_live s b seat answers there p)) in
      let many =
        length-Ranks F them all rising (dedup-sort-Rising F found)
          (λ r h. Ranks-dedup F r (sort F found) (Ranks-sort F r found (among r h))) in
      elim (poll_and_select_lem all s.t) [
        | inr (few, p) ↦ absurd (omega (arith, few, many, enough))
        | inl (chosen, spare, p, n, q) ↦
            (chosen, liveness_select-chosen F S in_memory B s w chosen p)
      ]
