-- ===== src/Coordinator/Rows/Laws.antt =====
-- Each closure reads back exactly what was bound.
use cheget.Base.{
  ◌≡◌, refl, Option, none, some, List, [], ◌∷◌, Text, ok, ℕ, Result, ◌>>=◌, ok_injective, ap, arith,
  ◌∙◌, Option-cases, inl, inr, get_elem?,
}
use mathlib.Core.Path.{ap₂}
use cheget.Base.Int.{ℤ}
use cheget.Coordinator.Sql.{Value, null, integer, text, blob, SqlError}
use cheget.Coordinator.Rows.{
  RosterEntry, CeremonyTranscript, SessionLog, ChurnEntry, roster_params, roster_row,
  ceremony_params, ceremony_row, session_params, session_row, churn_params, churn_row, as_text,
  as_integer, as_blob, to_nullable, from_nullable, column,
}

of_integer : (v : Value) (a : ℤ) → as_integer v ≡ some a → v ≡ integer a
of_integer null a p = absurd (ground arith)
of_integer (integer b) a p = ground arith
of_integer (text b) a p = absurd (ground arith)
of_integer (blob b) a p = absurd (ground arith)

nullable_integer : (o : Option ℤ) → from_nullable as_integer (to_nullable integer o) ≡ some o
nullable_integer none = refl
nullable_integer (some a) = refl

of_nullable_integer :
    (v : Value) (o : Option ℤ) → from_nullable as_integer v ≡ some o → v ≡ to_nullable integer o
of_nullable_integer null o p = ground arith
of_nullable_integer (integer b) o p = ground arith
of_nullable_integer (text b) o p = absurd (ground arith)
of_nullable_integer (blob b) o p = absurd (ground arith)

of_text : (v : Value) (a : Text) → as_text v ≡ some a → v ≡ text a
of_text null a p = absurd (ground arith)
of_text (integer b) a p = absurd (ground arith)
of_text (text b) a p = ground arith
of_text (blob b) a p = absurd (ground arith)

nullable_text : (o : Option Text) → from_nullable as_text (to_nullable text o) ≡ some o
nullable_text none = refl
nullable_text (some a) = refl

of_nullable_text :
    (v : Value) (o : Option Text) → from_nullable as_text v ≡ some o → v ≡ to_nullable text o
of_nullable_text null o p = ground arith
of_nullable_text (integer b) o p = absurd (ground arith)
of_nullable_text (text b) o p = ground arith
of_nullable_text (blob b) o p = absurd (ground arith)

of_blob : (v : Value) (a : List ℕ) → as_blob v ≡ some a → v ≡ blob a
of_blob null a p = absurd (ground arith)
of_blob (integer b) a p = absurd (ground arith)
of_blob (text b) a p = absurd (ground arith)
of_blob (blob b) a p = ground arith

nullable_blob : (o : Option (List ℕ)) → from_nullable as_blob (to_nullable blob o) ≡ some o
nullable_blob none = refl
nullable_blob (some a) = refl

of_nullable_blob :
    (v : Value) (o : Option (List ℕ)) → from_nullable as_blob v ≡ some o → v ≡ to_nullable blob o
of_nullable_blob null o p = ground arith
of_nullable_blob (integer b) o p = absurd (ground arith)
of_nullable_blob (text b) o p = absurd (ground arith)
of_nullable_blob (blob b) o p = ground arith

module _ {A B : Type 0} (from : Value → Option A) (to : A → Value) where
  -- A column that was read had the value that is bound for what was read.
  pub read_column :
      ((v : Value) (a : A) → from v ≡ some a → v ≡ to a)
      → (r : List Value) (i : ℕ) (v : Value) (f : A → Result SqlError B) (b : B)
      → get_elem? r i ≡ some v
      → (column from r i >>= f) ≡ ok b
      → (a : A) × (v ≡ to a) × (f a ≡ ok b)
  read_column h r i v f b g p = elim (Option-cases (from v)) [
    | inl q ↦ absurd (ground arith)
    | inr (a, q) ↦ (a, h v a q, ground arith)
  ]

pub roster_row-roster_params : (e : RosterEntry) → roster_row (roster_params e) ≡ ok e
unfolding roster_row roster_params
roster_row-roster_params e = rw (nullable_integer e.seat_index, nullable_integer e.leave_epoch) refl

pub roster_params_of_row :
    (v0 v1 v2 v3 v4 v5 v6 : Value) (x : RosterEntry)
    → roster_row (v0 ∷ v1 ∷ v2 ∷ v3 ∷ v4 ∷ v5 ∷ v6 ∷ []) ≡ ok x
    → v0 ∷ v1 ∷ v2 ∷ v3 ∷ v4 ∷ v5 ∷ v6 ∷ [] ≡ roster_params x
unfolding roster_row roster_params
roster_params_of_row v0 v1 v2 v3 v4 v5 v6 x h0 =
    let r = v0 ∷ v1 ∷ v2 ∷ v3 ∷ v4 ∷ v5 ∷ v6 ∷ [] in
    let (a0, q0, h1) = read_column as_text text of_text r 0 v0 _ x refl h0 in
    let (a1, q1, h2) = read_column as_text text of_text r 1 v1 _ x refl h1 in
    let (a2, q2, h3) =
      read_column (from_nullable as_integer) (to_nullable integer) of_nullable_integer r 2 v2 _ x
        refl h2 in
    let (a3, q3, h4) = read_column as_text text of_text r 3 v3 _ x refl h3 in
    let (a4, q4, h5) = read_column as_text text of_text r 4 v4 _ x refl h4 in
    let (a5, q5, h6) = read_column as_integer integer of_integer r 5 v5 _ x refl h5 in
    let (a6, q6, h7) =
      read_column (from_nullable as_integer) (to_nullable integer) of_nullable_integer r 6 v6 _ x
        refl h6 in
    ap₂ ◌∷◌ q0 (ap₂ ◌∷◌ q1 (ap₂ ◌∷◌ q2 (ap₂ ◌∷◌ q3 (ap₂ ◌∷◌ q4 (ap₂ ◌∷◌ q5 (ap₂ ◌∷◌ q6 (refl)))))))
    ∙ ap roster_params (ok_injective h7)

pub ceremony_row-ceremony_params :
    (e : CeremonyTranscript) → ceremony_row (ceremony_params e) ≡ ok e
unfolding ceremony_row ceremony_params
ceremony_row-ceremony_params e =
    rw (nullable_blob e.group_verifying_key, nullable_integer e.completed_at) refl

pub ceremony_params_of_row :
    (v0 v1 v2 v3 v4 v5 v6 v7 : Value) (x : CeremonyTranscript)
    → ceremony_row (v0 ∷ v1 ∷ v2 ∷ v3 ∷ v4 ∷ v5 ∷ v6 ∷ v7 ∷ []) ≡ ok x
    → v0 ∷ v1 ∷ v2 ∷ v3 ∷ v4 ∷ v5 ∷ v6 ∷ v7 ∷ [] ≡ ceremony_params x
unfolding ceremony_row ceremony_params
ceremony_params_of_row v0 v1 v2 v3 v4 v5 v6 v7 x h0 =
    let r = v0 ∷ v1 ∷ v2 ∷ v3 ∷ v4 ∷ v5 ∷ v6 ∷ v7 ∷ [] in
    let (a0, q0, h1) = read_column as_text text of_text r 0 v0 _ x refl h0 in
    let (a1, q1, h2) = read_column as_text text of_text r 1 v1 _ x refl h1 in
    let (a2, q2, h3) = read_column as_integer integer of_integer r 2 v2 _ x refl h2 in
    let (a3, q3, h4) = read_column as_text text of_text r 3 v3 _ x refl h3 in
    let (a4, q4, h5) =
      read_column (from_nullable as_blob) (to_nullable blob) of_nullable_blob r 4 v4 _ x refl h4 in
    let (a5, q5, h6) = read_column as_text text of_text r 5 v5 _ x refl h5 in
    let (a6, q6, h7) = read_column as_integer integer of_integer r 6 v6 _ x refl h6 in
    let (a7, q7, h8) =
      read_column (from_nullable as_integer) (to_nullable integer) of_nullable_integer r 7 v7 _ x
        refl h7 in
    ap₂ ◌∷◌ q0 (
      ap₂ ◌∷◌ q1
        (ap₂ ◌∷◌ q2 (ap₂ ◌∷◌ q3 (ap₂ ◌∷◌ q4 (ap₂ ◌∷◌ q5 (ap₂ ◌∷◌ q6 (ap₂ ◌∷◌ q7 (refl))))))))
    ∙ ap ceremony_params (ok_injective h8)

pub session_row-session_params : (e : SessionLog) → session_row (session_params e) ≡ ok e
unfolding session_row session_params
session_row-session_params e = rw (nullable_text e.psbt_txid, nullable_text e.subset) refl

pub session_params_of_row :
    (v0 v1 v2 v3 v4 v5 v6 v7 : Value) (x : SessionLog)
    → session_row (v0 ∷ v1 ∷ v2 ∷ v3 ∷ v4 ∷ v5 ∷ v6 ∷ v7 ∷ []) ≡ ok x
    → v0 ∷ v1 ∷ v2 ∷ v3 ∷ v4 ∷ v5 ∷ v6 ∷ v7 ∷ [] ≡ session_params x
unfolding session_row session_params
session_params_of_row v0 v1 v2 v3 v4 v5 v6 v7 x h0 =
    let r = v0 ∷ v1 ∷ v2 ∷ v3 ∷ v4 ∷ v5 ∷ v6 ∷ v7 ∷ [] in
    let (a0, q0, h1) = read_column as_text text of_text r 0 v0 _ x refl h0 in
    let (a1, q1, h2) = read_column as_text text of_text r 1 v1 _ x refl h1 in
    let (a2, q2, h3) = read_column as_integer integer of_integer r 2 v2 _ x refl h2 in
    let (a3, q3, h4) = read_column as_text text of_text r 3 v3 _ x refl h3 in
    let (a4, q4, h5) =
      read_column (from_nullable as_text) (to_nullable text) of_nullable_text r 4 v4 _ x refl h4 in
    let (a5, q5, h6) =
      read_column (from_nullable as_text) (to_nullable text) of_nullable_text r 5 v5 _ x refl h5 in
    let (a6, q6, h7) = read_column as_text text of_text r 6 v6 _ x refl h6 in
    let (a7, q7, h8) = read_column as_integer integer of_integer r 7 v7 _ x refl h7 in
    ap₂ ◌∷◌ q0 (
      ap₂ ◌∷◌ q1
        (ap₂ ◌∷◌ q2 (ap₂ ◌∷◌ q3 (ap₂ ◌∷◌ q4 (ap₂ ◌∷◌ q5 (ap₂ ◌∷◌ q6 (ap₂ ◌∷◌ q7 (refl))))))))
    ∙ ap session_params (ok_injective h8)

pub churn_row-churn_params : (e : ChurnEntry) → churn_row (churn_params e) ≡ ok e
unfolding churn_row churn_params
churn_row-churn_params e = rw (nullable_text e.npub) refl

pub churn_params_of_row :
    (v0 v1 v2 v3 v4 : Value) (x : ChurnEntry)
    → churn_row (v0 ∷ v1 ∷ v2 ∷ v3 ∷ v4 ∷ []) ≡ ok x
    → v0 ∷ v1 ∷ v2 ∷ v3 ∷ v4 ∷ [] ≡ churn_params x
unfolding churn_row churn_params
churn_params_of_row v0 v1 v2 v3 v4 x h0 =
    let r = v0 ∷ v1 ∷ v2 ∷ v3 ∷ v4 ∷ [] in
    let (a0, q0, h1) = read_column as_text text of_text r 0 v0 _ x refl h0 in
    let (a1, q1, h2) = read_column as_text text of_text r 1 v1 _ x refl h1 in
    let (a2, q2, h3) =
      read_column (from_nullable as_text) (to_nullable text) of_nullable_text r 2 v2 _ x refl h2 in
    let (a3, q3, h4) = read_column as_integer integer of_integer r 3 v3 _ x refl h3 in
    let (a4, q4, h5) = read_column as_integer integer of_integer r 4 v4 _ x refl h4 in
    ap₂ ◌∷◌ q0 (ap₂ ◌∷◌ q1 (ap₂ ◌∷◌ q2 (ap₂ ◌∷◌ q3 (ap₂ ◌∷◌ q4 (refl)))))
    ∙ ap churn_params (ok_injective h5)
