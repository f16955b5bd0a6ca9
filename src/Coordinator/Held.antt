-- ===== src/Coordinator/Held.antt =====
-- The rows of a table as the entries that it should hold, and what an insertion does to them.
use cheget.Base.{
  ◌≡◌, ◌↔◌, inl, inr, refl, sym, ap, ◌∙◌, List, [], ◌∷◌, In, text_dec, ℕ_discrete, cons_injective,
}
use mathlib.Core.Path.{ap₂}
use cheget.Coordinator.Sql.{text, integer, Row, Insert, project}
use cheget.Coordinator.Sqlite.{SameKey, Replaces}
use cheget.Coordinator.Rows.{roster_params, ceremony_params, session_params, churn_params}
use cheget.Coordinator.Kept.{
  Kept, kept_row, kept_roster, kept_ceremony, kept_session, kept_churn, text_injective,
  integer_injective,
}
use cheget.Coordinator.Store.{replace_into}
use cheget.Coordinator.Replay.{Holds, SameSeat, SameLeaving, SameCeremony, SameSession}
use cheget.Coordinator.Migrate.Batch.{Tables, HasTable}

-- The table holds the rows of the entries, and no other.
abbrev pub Keeps : {A : Type 0} → Kept A → (A → A → Type 0) → Tables → List A → Type 0
Keeps k Same tables es =
    (rows : List Row) × HasTable tables k.table rows
    × ((r : Row) → In r rows ↔ ((a : _) × Holds Same es a × (r ≡ kept_row k a)))

-- Entries have one key in the table exactly when they should.
abbrev pub Keyed : {A : Type 0} → Kept A → (A → A → Type 0) → Type 0
Keyed k Same = (a b : _) → SameKey k.table (kept_row k a) (kept_row k b) ↔ Same a b

pub roster-Keyed : Keyed kept_roster SameSeat
unfolding roster_params text_dec ℕ_discrete
roster-Keyed a b = (
  λ h.
      (text_injective (cons_injective h).0, text_injective (cons_injective (cons_injective h).1).0),
  λ (p, q). ap₂ ◌∷◌ (ap text p) (ap₂ ◌∷◌ (ap text q) refl),
)

pub churn-Keyed : Keyed kept_churn SameLeaving
unfolding churn_params text_dec ℕ_discrete
churn-Keyed a b = (
  λ h.
      let h1 = (cons_injective h).1 in
      (
        text_injective (cons_injective h).0,
        text_injective (cons_injective h1).0,
        integer_injective (cons_injective (cons_injective h1).1).0,
      ),
  λ (p, q, e). ap₂ ◌∷◌ (ap text p) (ap₂ ◌∷◌ (ap text q) (ap₂ ◌∷◌ (ap integer e) refl)),
)

pub ceremony-Keyed : Keyed kept_ceremony SameCeremony
unfolding ceremony_params text_dec ℕ_discrete
ceremony-Keyed a b = (λ h. text_injective (cons_injective h).0, λ p. ap₂ ◌∷◌ (ap text p) refl)

pub session-Keyed : Keyed kept_session SameSession
unfolding session_params text_dec ℕ_discrete
session-Keyed a b = (λ h. text_injective (cons_injective h).0, λ p. ap₂ ◌∷◌ (ap text p) refl)

module _ {A : Type 0} (k : Kept A) (Same : A → A → Type 0) (keyed : Keyed k Same) where
  -- The insertion of an entry, as the rows show it.
  pub replaced-Holds :
      (e : A) (es : List A) (rows after : List Row)
      → Replaces k.table (kept_row k e) rows after
      → ((r : Row) → In r rows ↔ ((a : A) × Holds Same es a × (r ≡ kept_row k a)))
      → (r : Row) → In r after ↔ ((a : A) × Holds Same (e ∷ es) a × (r ≡ kept_row k a))
  replaced-Holds e es rows after replaces are r = (
    λ i. elim ((replaces r).0 i) [
      | inl new ↦ (e, inl refl, new)
      | inr (old, apart) ↦
          let (a, h, is) = (are r).0 old in
          (a, inr (h, λ same. apart (ap (project k.table.primary) is ∙ (keyed a e).1 same)), is)
    ],
    λ (a, h, is). elim h [
      | inl new ↦ (replaces r).1 (inl (is ∙ ap (kept_row k) new))
      | inr (old, apart) ↦ (replaces r).1 (
          inr (
            (are r).1 (a, old, is),
            λ same. apart ((keyed a e).0 (sym (ap (project k.table.primary) is) ∙ same)),
          ))
    ],
  )

pub none_held :
    {A : Type 0} (k : Kept A) (Same : A → A → Type 0) (r : Row)
    → In r [] ↔ ((a : A) × Holds Same [] a × (r ≡ kept_row k a))
none_held k Same r = (λ i. absurd i, λ (a, h, e). absurd h)

-- The statement of an insertion.
abbrev pub insertion : {A : Type 0} → Kept A → A → Insert
insertion k e = replace_into k.table.name k.columns (k.params e)
