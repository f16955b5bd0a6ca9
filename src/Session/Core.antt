-- ===== src/Session/Core.antt =====
-- src/session/mod.rs: the two-round signing session over a transport. The state that a session works
-- on is the transport's board and the generator of random numbers; the session itself is a record.
use cheget.Base.{
  ℕ, zero, suc, ◌+◌, ◌%◌, ◌^◌, Option, none, some, List, [], ◌∷◌, ◌++◌, Bool, true, false, Text,
  codes, keep, find, set, get_elem?, length, eqb, if◌then◌else◌, ◌==◌, map_err, ok_or,
}
use cheget.Base
use cheget.Base.{Result, ok, err}
use cheget.Base.Decimal.{decimal}
use cheget.Base.OrdMap.{Map, insert, keys, ranked_ℕ}
use cheget.Crypto.Frost.{Frost}
use cheget.Crypto.Signing.{Signing, AggregateError}
use cheget.Chain.{TxOut, Psbt, ChainError, Bitcoin, key_spend_sighash}
use cheget.Transport.Envelope.{Seat}
use cheget.Transport.Trait.{Transport}
use cheget.Session.Liveness.{LivenessError}
use cheget.Session.Display.{DisplayError, SpendSummary, summarize}

pub data SessionError (F : Frost) : Type 0 where
  liveness : LivenessError → SessionError F
  display : DisplayError → SessionError F
  aggregation : AggregateError F → SessionError F
  chain : ChainError → SessionError F
  frost : F.Error → SessionError F
  no_witness_utxo : ℕ → SessionError F
  unknown_seat : F.Identifier → SessionError F
  spent_session : SessionError F

abbrev pub coordinator_seat : Seat
coordinator_seat = 0

pub record World (F : Frost) (T : Transport) : Type 0 where
  pub board : T.State
  pub rng : F.Rng

pub record Round1 (F : Frost) (S : Signing F) : Type 0 where
  pub signing_package : S.Package
  pub nonces : Map F.Identifier S.Nonces

pub record Session (F : Frost) (B : Bitcoin) : Type 0 where
  pub id : Text
  pub key_packages : Map F.Identifier F.KeyPackage
  pub group : F.PublicKeyPackage
  pub psbt : Psbt
  pub t : ℕ
  pub network : B.Network
  pub id_of_seat : Map Seat F.Identifier
  pub seat_of_id : Map F.Identifier Seat
  pub spent : Bool

-- `for (i, id) in keys().enumerate()`: the seat of the `i`-th identifier is `i + 1`, as a `u16`.
module _ (F : Frost) where
  unfoldable pub assign_seats :
      List F.Identifier
      → ℕ
      → Map Seat F.Identifier
      → Map F.Identifier Seat
      → Map Seat F.Identifier × Map F.Identifier Seat
  assign_seats [] i id_of seat_of = (id_of, seat_of)
  assign_seats (id ∷ ids) i id_of seat_of =
      let seat = (i + 1) % 2 ^ 16 in
      assign_seats ids (i + 1) (insert seat id id_of) (insert ⦃r = F.ranked⦄ id seat seat_of)

module _ (F : Frost) (B : Bitcoin) where
  unfoldable pub new :
      Text → Map F.Identifier F.KeyPackage → F.PublicKeyPackage → Psbt → ℕ → B.Network → Session F B
  new id key_packages group psbt t network =
      let (id_of, seat_of) = assign_seats F (keys key_packages) 0 [] [] in
      record {
        id = id;
        key_packages = key_packages;
        group = group;
        psbt = psbt;
        t = t;
        network = network;
        id_of_seat = id_of;
        seat_of_id = seat_of;
        spent = false;
      }

  unfoldable pub new_session_on_abort : Session F B → Text → Session F B
  unfolding new
  new_session_on_abort s new_id = new new_id s.key_packages s.group s.psbt s.t s.network

  unfoldable pub prevouts_from : List (Option TxOut) → ℕ → Result (SessionError F) (List TxOut)
  prevouts_from [] i = ok []
  prevouts_from (none ∷ inputs) i = err (no_witness_utxo i)
  prevouts_from (some utxo ∷ inputs) i =
      Base.◌>>=◌ (prevouts_from inputs (i + 1)) (λ rest. ok (utxo ∷ rest))

  unfoldable pub prevouts : Session F B → Result (SessionError F) (List TxOut)
  unfolding prevouts_from
  prevouts s = prevouts_from s.psbt.inputs 0

  unfoldable pub sighash : Session F B → ℕ → Result (SessionError F) (List ℕ)
  sighash s input_index = Base.◌>>=◌ (prevouts s) λ outs.
      map_err chain (key_spend_sighash B.taproot_sighash s.psbt.unsigned_tx input_index outs)

  -- `format!("{}#{}", self.id, input_index)`
  unfoldable pub topic : Session F B → ℕ → Text
  topic s input_index = s.id ++ b'#' ∷ decimal input_index

  unfoldable pub preview : Session F B → Result (SessionError F) SpendSummary
  preview s =
      Base.◌>>=◌ (prevouts s)
        λ outs. ok (summarize B.sum_amounts B.address_from_script s.psbt.unsigned_tx outs s.network)
