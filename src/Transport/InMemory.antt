-- ===== src/Transport/InMemory.antt =====
-- src/transport/inmemory.rs: the message board, a `BTreeMap` from ids to envelopes. The lock that
-- guards it makes each call one step; the state is passed explicitly.
use cheget.Base.{ℕ, List, [], keep, length, Bool, ◌==◌}
use cheget.Base.OrdMap.{Map, or_insert, values, ranked_ℕ}
use cheget.Transport.Envelope.{Envelope, EnvelopeId, id}
use cheget.Transport.Filter.{Filter, matches}

abbrev pub Store : Type 0
Store = Map EnvelopeId Envelope

unfoldable pub new : Store
new = []

unfoldable pub len : Store → ℕ
len s = length s

unfoldable pub is_empty : Store → Bool
unfolding len
is_empty s = len s == 0

unfoldable pub publish : Envelope → Store → EnvelopeId × Store
publish e s = let k = id e in (k, or_insert k e s)

unfoldable pub subscribe : Filter → Store → List Envelope
subscribe f s = keep (matches f) (values s)
