-- ===== src/Transport/Board.antt =====
-- What the in-memory board of src/transport/inmemory.rs holds and delivers.
use cheget.Base.{
  ◌≡◌, ◌↔◌, ◌⊎◌, ◌∙◌, ap, true, none, some, In, In-keep_to, In-keep_of, ◌==◌, if◌then◌else◌, arith,
  inl, inr,
}
use cheget.Base.OrdMap.{
  get, values, ranked_ℕ, Ascends, ext, get-or_insert, or_insert-Ascends, In-values_to, In-values_of,
}
use cheget.Transport.Envelope.{Envelope, EnvelopeId, id}
use cheget.Transport.Filter.{Filter, matches}
use cheget.Transport.InMemory.{Store, new, publish, subscribe}

-- The ids ascend, and each envelope is kept under its own id.
pub record IsBoard (s : Store) : Type 0 where
  pub ascends : Ascends s
  pub keyed : (k : EnvelopeId) (e : Envelope) → get k s ≡ some e → id e ≡ k

pub new-IsBoard : IsBoard new
unfolding new get
new-IsBoard = record { ascends = tt; keyed = λ k e h. absurd (ground arith) }

pub get-publish :
    (e : Envelope) (s : Store) (k : EnvelopeId)
    → get k (publish e s).1
      ≡ (if k == id e then some (elim (get k s) [ none ↦ e | some old ↦ old ]) else get k s)
unfolding publish
get-publish e s k = ground (arith, get-or_insert (id e) k e s)

pub publish-IsBoard : (e : Envelope) (s : Store) → IsBoard s → IsBoard (publish e s).1
unfolding publish
publish-IsBoard e s b = record {
  ascends = or_insert-Ascends (id e) e s b.ascends;
  keyed = λ k e' h. ground (arith, get-or_insert (id e) k e s, b.keyed k e');
}

-- Publishing an envelope a second time changes nothing on a board.
pub publish_idem :
    (e : Envelope) (s : Store) → IsBoard s → (publish e (publish e s).1).1 ≡ (publish e s).1
publish_idem e s b =
    ext _ _ (publish-IsBoard e _ (publish-IsBoard e s b)).ascends (publish-IsBoard e s b).ascends
      (λ k. ground (arith, get-publish e (publish e s).1 k, get-publish e s k))

-- On a board a subscription yields an envelope exactly when it is held under its id and the filter
-- matches.
pub subscribe_iff :
    (f : Filter) (e : Envelope) (s : Store)
    → IsBoard s
    → In e (subscribe f s) ↔ ((get (id e) s ≡ some e) × (matches f e ≡ true))
unfolding subscribe
subscribe_iff f e s b = (to, of)
  where
    to : In e (subscribe f s) → (get (id e) s ≡ some e) × (matches f e ≡ true)
    to h =
        let (i, m) = In-keep_to (matches f) e (values s) h in
        let (k, p) = In-values_to e s b.ascends i in (ap (λ j. get j s) (b.keyed k e p) ∙ p, m)

    of : (get (id e) s ≡ some e) × (matches f e ≡ true) → In e (subscribe f s)
    of h = In-keep_of (matches f) e (values s) (In-values_of (id e) e s h.0) h.1

held :
    (d e : Envelope) (s : Store)
    → get (id d) (publish e s).1 ≡ some d
    → (get (id d) s ≡ some d) ⊎ ((d ≡ e) × (get (id e) s ≡ none))
held d e s p = ground (arith, get-publish e s (id d))

-- After a publication a subscription yields what it yielded before, and the new envelope if it
-- matches and no envelope is held under its id.
pub subscribe-publish :
    (f : Filter) (d e : Envelope) (s : Store)
    → IsBoard s
    → In d (subscribe f (publish e s).1)
      ↔ (In d (subscribe f s) ⊎ ((d ≡ e) × (get (id e) s ≡ none) × (matches f e ≡ true)))
subscribe-publish f d e s b = (to, of)
  where
    now :
        In d (subscribe f (publish e s).1)
        ↔ ((get (id d) (publish e s).1 ≡ some d) × (matches f d ≡ true))
    now = subscribe_iff f d (publish e s).1 (publish-IsBoard e s b)

    before : In d (subscribe f s) ↔ ((get (id d) s ≡ some d) × (matches f d ≡ true))
    before = subscribe_iff f d s b

    to :
        In d (subscribe f (publish e s).1)
        → In d (subscribe f s) ⊎ ((d ≡ e) × (get (id e) s ≡ none) × (matches f e ≡ true))
    to h =
        let (p, m) = now.0 h in
        elim (held d e s p) [ inl q ↦ inl (before.1 (q, m)) | inr q ↦ inr (q.0, q.1, rw (← q.0) m) ]

    of :
        In d (subscribe f s) ⊎ ((d ≡ e) × (get (id e) s ≡ none) × (matches f e ≡ true))
        → In d (subscribe f (publish e s).1)
    of (inl h) = let (p, m) = before.0 h in now.1 (ground (arith, get-publish e s (id d)), m)
    of (inr (p, q, m)) = now.1 (rw p (ground (arith, get-publish e s (id e))), rw p m)
