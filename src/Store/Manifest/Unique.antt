-- ===== src/Store/Manifest/Unique.antt =====
-- No tag is ever listed twice in the manifest: what `add_entry` and `remove` keep.
use cheget.Base.{
  ℕ, ◌≡◌, refl, Bool, none, some, List, [], ◌∷◌, ◌++◌, Text, keep, arith, Bool-cases, inl, inr,
  Option-cases,
}
use cheget.Store.Manifest.{ShareEntry, Manifest, has_tag, replace_first, add_entry, remove}
use cheget.Store.Manifest.Tags.{
  find_tag, has_tag_parts, has_tag_sym, find-append, find-replace_first, replace_first-none,
}

-- Each entry is the only one with its tag.
abbrev pub UniqueTags : List ShareEntry → Type 0
UniqueTags [] = Unit
UniqueTags (x ∷ xs) = (find_tag x.key_id x.epoch x.seat xs ≡ none) × UniqueTags xs

UniqueTags-append :
    (e : ShareEntry) (xs : List ShareEntry)
    → find_tag e.key_id e.epoch e.seat xs ≡ none
    → UniqueTags xs
    → UniqueTags (xs ++ (e ∷ []))
UniqueTags-append e [] h u = (refl, tt)
UniqueTags-append e (x ∷ xs) h u = (
  ground (arith, find-append (has_tag x.key_id x.epoch x.seat) xs e, has_tag_sym x e),
  UniqueTags-append e xs (ground arith) u.1,
)

UniqueTags-replace_first :
    (e : ShareEntry) (xs ys : List ShareEntry)
    → replace_first (has_tag e.key_id e.epoch e.seat) e xs ≡ some ys
    → UniqueTags xs
    → UniqueTags ys
unfolding replace_first
UniqueTags-replace_first e [] ys h u = absurd (ground arith)
UniqueTags-replace_first e (x ∷ xs) ys h u = elim (Bool-cases (has_tag e.key_id e.epoch e.seat x)) [
  | inl p ↦
      let t : ys ≡ e ∷ xs = ground arith in
      rw t (ground (arith, has_tag_parts e.key_id e.epoch e.seat x p), u.1)
  | inr p ↦ elim (Option-cases (replace_first (has_tag e.key_id e.epoch e.seat) e xs)) [
    | inl q ↦ absurd (ground arith)
    | inr (zs, q) ↦
        let t : ys ≡ x ∷ zs = ground arith in
        rw t (
          ground (arith, find-replace_first x.key_id x.epoch x.seat e xs zs q, has_tag_sym x e),
          UniqueTags-replace_first e xs zs q u.1,
        )
  ]
]

-- An insertion keeps every tag listed at most once.
pub add_entry-UniqueTags :
    (e : ShareEntry) (m : Manifest) → UniqueTags m.shares → UniqueTags (add_entry e m).shares
unfolding add_entry
add_entry-UniqueTags e m u =
    elim (Option-cases (replace_first (has_tag e.key_id e.epoch e.seat) e m.shares)) [
      | inl q ↦
          rw (q, add_entry)
            (UniqueTags-append e m.shares
              (replace_first-none (has_tag e.key_id e.epoch e.seat) e m.shares q) u)
      | inr (ys, q) ↦ rw (q, add_entry) (UniqueTags-replace_first e m.shares ys q u)
    ]

find_tag-keep :
    (k : Text) (n : ℕ) (s : Text) (p : ShareEntry → Bool) (xs : List ShareEntry)
    → find_tag k n s xs ≡ none
    → find_tag k n s (keep p xs) ≡ none
find_tag-keep k n s p [] h = refl
find_tag-keep k n s p (x ∷ xs) h = ground (arith, find_tag-keep k n s p xs)

keep-UniqueTags :
    (p : ShareEntry → Bool) (xs : List ShareEntry) → UniqueTags xs → UniqueTags (keep p xs)
keep-UniqueTags p [] u = tt
keep-UniqueTags p (x ∷ xs) u = elim (Bool-cases (p x)) [
  | inl q ↦ rw q (find_tag-keep x.key_id x.epoch x.seat p xs u.0, keep-UniqueTags p xs u.1)
  | inr q ↦ rw q (keep-UniqueTags p xs u.1)
]

module _ {SeatId : Type 0} (bytes : SeatId → List ℕ) where
  -- A removal keeps every tag listed at most once.
  pub remove-UniqueTags :
      (k : Text) (n : ℕ) (seat : SeatId) (m : Manifest)
      → UniqueTags m.shares
      → UniqueTags (remove bytes k n seat m).0.shares
  unfolding remove
  remove-UniqueTags k n seat m u = keep-UniqueTags _ m.shares u
