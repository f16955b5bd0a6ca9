-- ===== src/Store/Manifest/Tags.antt =====
-- The manifest as a map from tags to entries: `add_entry`, `lookup` and `remove`.
use cheget.Base.{
  ℕ, ◌≡◌, ◌≤◌, ◌<◌, refl, Bool, true, false, not, Option, none, some, List, [], ◌∷◌, ◌++◌, Text,
  if◌then◌else◌, find, keep, length, arith, Bool-cases, inl, inr, Option-cases,
}
use cheget.Store.Manifest.{
  ShareEntry, Manifest, has_tag, replace_first, add_entry, seat_hex, entry_matches, lookup, remove,
}

-- The first entry with a tag.
abbrev pub find_tag : Text → ℕ → Text → List ShareEntry → Option ShareEntry
find_tag k n s xs = find (has_tag k n s) xs

has_tag_self : (e : ShareEntry) → has_tag e.key_id e.epoch e.seat e ≡ true
unfolding has_tag
has_tag_self e = ground arith

pub has_tag_parts :
    (k : Text) (n : ℕ) (s : Text) (e : ShareEntry)
    → has_tag k n s e ≡ true
    → (e.key_id ≡ k) × (e.epoch ≡ n) × (e.seat ≡ s)
unfolding has_tag
has_tag_parts k n s e h = ground arith

-- Two entries with one tag answer every question about tags alike.
has_tag_swap :
    (k : Text) (n : ℕ) (s : Text) (e x : ShareEntry)
    → has_tag e.key_id e.epoch e.seat x ≡ true
    → has_tag k n s x ≡ has_tag k n s e
unfolding has_tag
has_tag_swap k n s e x h = ground arith

-- An entry with another tag than `e` is not found where `e` is.
has_tag_other :
    (k : Text) (n : ℕ) (s : Text) (e x : ShareEntry)
    → has_tag e.key_id e.epoch e.seat x ≡ false
    → has_tag k n s e ≡ true
    → has_tag k n s x ≡ false
unfolding has_tag
has_tag_other k n s e x h q = ground arith

pub has_tag_sym :
    (x e : ShareEntry) → has_tag x.key_id x.epoch x.seat e ≡ has_tag e.key_id e.epoch e.seat x
unfolding has_tag
has_tag_sym x e = ground arith

pub find-append :
    (p : ShareEntry → Bool) (xs : List ShareEntry) (e : ShareEntry)
    → find p (xs ++ (e ∷ []))
      ≡ elim (find p xs) [ some y ↦ some y | none ↦ if p e then some e else none ]
find-append p [] e = refl
find-append p (x ∷ xs) e = ground (arith, find-append p xs e)

pub find-replace_first :
    (k : Text) (n : ℕ) (s : Text) (e : ShareEntry) (xs ys : List ShareEntry)
    → replace_first (has_tag e.key_id e.epoch e.seat) e xs ≡ some ys
    → find_tag k n s ys ≡ (if has_tag k n s e then some e else find_tag k n s xs)
unfolding replace_first
find-replace_first k n s e [] ys h = absurd (ground arith)
find-replace_first k n s e (x ∷ xs) ys h = elim (Bool-cases (has_tag e.key_id e.epoch e.seat x)) [
  | inl p ↦ ground (arith, has_tag_swap k n s e x p)
  | inr p ↦ elim (Option-cases (replace_first (has_tag e.key_id e.epoch e.seat) e xs)) [
    | inl q ↦ absurd (ground arith)
    | inr (zs, q) ↦ ground (arith, find-replace_first k n s e xs zs q, has_tag_other k n s e x p)
  ]
]

pub replace_first-none :
    (p : ShareEntry → Bool) (e : ShareEntry) (xs : List ShareEntry)
    → replace_first p e xs ≡ none
    → find p xs ≡ none
unfolding replace_first
replace_first-none p e [] h = refl
replace_first-none p e (x ∷ xs) h = ground (arith, replace_first-none p e xs)

-- An entry whose tag is not listed is found nowhere under the tag.
absent :
    (e : ShareEntry) (k : Text) (n : ℕ) (s : Text) (xs : List ShareEntry)
    → replace_first (has_tag e.key_id e.epoch e.seat) e xs ≡ none
    → has_tag k n s e ≡ true
    → find_tag k n s xs ≡ none
absent e k n s xs h t =
    let (p, q, r) = has_tag_parts k n s e t in
    rw (← p, ← q, ← r) (replace_first-none (has_tag e.key_id e.epoch e.seat) e xs h)

find-keep-not :
    (p q : ShareEntry → Bool) (xs : List ShareEntry)
    → ((e : ShareEntry) → q e ≡ true → p e ≡ false)
    → find q (keep (λ e. not (p e)) xs) ≡ find q xs
find-keep-not p q [] h = refl
find-keep-not p q (x ∷ xs) h = ground (arith, find-keep-not p q xs h, h x)

find-keep-not_self :
    (p : ShareEntry → Bool) (xs : List ShareEntry) → find p (keep (λ e. not (p e)) xs) ≡ none
find-keep-not_self p [] = refl
find-keep-not_self p (x ∷ xs) = ground (arith, find-keep-not_self p xs)

length-keep-le : (p : ShareEntry → Bool) (xs : List ShareEntry) → length (keep p xs) ≤ length xs
length-keep-le p [] = omega arith
length-keep-le p (x ∷ xs) = ground (arith, length-keep-le p xs)

keep_all :
    (p : ShareEntry → Bool) (xs : List ShareEntry)
    → find p xs ≡ none
    → keep (λ e. not (p e)) xs ≡ xs
keep_all p [] h = refl
keep_all p (x ∷ xs) h = ground (arith, keep_all p xs)

length-keep-not-lt :
    (p : ShareEntry → Bool) (xs : List ShareEntry) (e : ShareEntry)
    → find p xs ≡ some e
    → length (keep (λ x. not (p x)) xs) < length xs
length-keep-not-lt p [] e h = absurd (ground arith)
length-keep-not-lt p (x ∷ xs) e h =
    ground (arith, length-keep-not-lt p xs e, length-keep-le (λ y. not (p y)) xs)

-- An insertion of `e` hides nothing from a tag that `e` does not have.
find_tag-add :
    (k : Text) (n : ℕ) (s : Text) (e : ShareEntry) (m : Manifest)
    → find_tag k n s (add_entry e m).shares
      ≡ (if has_tag k n s e then some e else find_tag k n s m.shares)
unfolding add_entry
find_tag-add k n s e m =
    elim (Option-cases (replace_first (has_tag e.key_id e.epoch e.seat) e m.shares)) [
      | inl q ↦ ground (arith, find-append (has_tag k n s) m.shares e, absent e k n s m.shares q)
      | inr (ys, q) ↦ ground (arith, find-replace_first k n s e m.shares ys q)
    ]

module _ {SeatId : Type 0} (bytes : SeatId → List ℕ) where
  -- After an insertion, a look-up of the entry's tag finds the entry, and a look-up of any other
  -- tag finds what it found before.
  pub lookup-add_entry :
      (k : Text) (n : ℕ) (seat : SeatId) (e : ShareEntry) (m : Manifest)
      → lookup bytes k n seat (add_entry e m)
        ≡ (if entry_matches bytes k n seat e then some e else lookup bytes k n seat m)
  unfolding lookup entry_matches
  lookup-add_entry k n seat e m = find_tag-add k n (seat_hex bytes seat) e m

  -- After a removal no look-up finds the tag, and the removal reports whether the tag was listed
  -- before.
  pub lookup-remove :
      (k : Text) (n : ℕ) (seat : SeatId) (m : Manifest)
      → let after = remove bytes k n seat m in
        (lookup bytes k n seat after.0 ≡ none)
        × (after.1 ≡ (elim (lookup bytes k n seat m) [ none ↦ false | some _ ↦ true ]))
  unfolding lookup remove
  lookup-remove k n seat m = (
    find-keep-not_self (entry_matches bytes k n seat) m.shares,
    elim (Option-cases (find (entry_matches bytes k n seat) m.shares)) [
      | inl q ↦ rw q (rw (keep_all (entry_matches bytes k n seat) m.shares q) (ground arith))
      | inr (e, q) ↦
          rw q (ground (arith, length-keep-not-lt (entry_matches bytes k n seat) m.shares e q))
    ],
  )

differ :
    (k j : Text) (n i : ℕ) (s t : Text) (e : ShareEntry)
    → ((k ≡ j) × (n ≡ i) × (s ≡ t) → ⊥)
    → has_tag j i t e ≡ true
    → has_tag k n s e ≡ false
unfolding has_tag
differ k j n i s t e h p = ground arith

module _ {SeatId : Type 0} (bytes : SeatId → List ℕ) where
  -- A removal leaves the look-up of every other tag as it was.
  pub lookup-remove_ne :
      (k j : Text) (n i : ℕ) (seat other : SeatId) (m : Manifest)
      → ((k ≡ j) × (n ≡ i) × (seat_hex bytes seat ≡ seat_hex bytes other) → ⊥)
      → lookup bytes j i other (remove bytes k n seat m).0 ≡ lookup bytes j i other m
  unfolding lookup remove entry_matches
  lookup-remove_ne k j n i seat other m h =
      find-keep-not (entry_matches bytes k n seat) (entry_matches bytes j i other) m.shares
        (λ e t. differ k j n i (seat_hex bytes seat) (seat_hex bytes other) e h t)
