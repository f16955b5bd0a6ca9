-- ===== src/Transport/Trait.antt =====
-- src/transport/mod.rs, `Transport`: the seam that the session is generic over, and what a session
-- relies on.
use cheget.Base.{List}
use cheget.Transport.Envelope.{Envelope, EnvelopeId}
use cheget.Transport.Filter.{Filter}
use cheget.Transport.InMemory

pub record Transport : Type 1 where
  pub State : Type 0
  pub publish : Envelope → State → EnvelopeId × State
  pub subscribe : Filter → State → List Envelope

-- `impl Transport for InMemoryTransport`
unfoldable pub in_memory : Transport
in_memory = record {
  State = InMemory.Store;
  publish = InMemory.publish;
  subscribe = InMemory.subscribe;
}
