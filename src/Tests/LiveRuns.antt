-- ===== src/Tests/LiveRuns.antt =====
-- The liveness poll of a session of two seats over an empty board.
use cheget.Base.{ℕ, ◌≡◌, ◌≢◌, ap, sym, refl, ◌∙◌, List, In, ok, some, inl, inr, arith}
use cheget.Base.OrdMap.{get, keys, insert, ranked_ℕ}
use cheget.Transport.Trait.{in_memory}
use cheget.Transport.InMemory
use cheget.Transport.Envelope.{Seat, broadcast, id, mix, mix_recipient, tag, to_le_bytes}
use cheget.Transport.Board.{IsBoard, new-IsBoard}
use cheget.Session.Core.{new, assign_seats}
use cheget.Session.Rounds.{liveness_select}
use cheget.Session.Selected.{Rises, Rising}
use cheget.Session.Live.{live, Vacant, board_of, liveness_select-live}
use cheget.Tests.Toy.{toy, toy_signing, toy_bitcoin}
use cheget.Tests.SessionRuns.{session, quiet, two_seats}

quiet-IsBoard : IsBoard (board_of toy toy_signing toy_bitcoin quiet)
unfolding board_of quiet InMemory.new
quiet-IsBoard = new-IsBoard

quiet-Vacant :
    (seat : Seat)
    → In seat (keys session.id_of_seat)
    → Vacant toy toy_signing toy_bitcoin session (board_of toy toy_signing toy_bitcoin quiet) seat
unfolding board_of quiet InMemory.new get
quiet-Vacant seat i e h = absurd (ground arith)

seated :
    (b : ℕ)
    → In b two_seats
    → (seat : Seat) × In seat (keys session.id_of_seat) × (get seat session.id_of_seat ≡ some b)
unfolding session get new assign_seats insert
seated b (inl p) = (1, inl refl, ap some (sym p))
seated b (inr (inl p)) = (2, inr (inl refl), ap some (sym p))
seated b (inr (inr p)) = absurd p

abbrev answer_id : Seat → ℕ
answer_id seat = id (live toy toy_signing toy_bitcoin session seat)

one_two : answer_id 1 ≢ answer_id 2
unfolding session new id mix mix_recipient tag to_le_bytes broadcast
one_two h = ground (arith, h)

ids_differ : (x y : Seat) → In x two_seats → In y two_seats → answer_id x ≡ answer_id y → x ≡ y
ids_differ x y (inl p) (inl q) h = p ∙ sym q
ids_differ x y (inl p) (inr (inl q)) h =
    absurd (one_two (sym (ap answer_id p) ∙ h ∙ ap answer_id q))
ids_differ x y (inr (inl p)) (inl q) h =
    absurd (one_two (sym (ap answer_id q) ∙ sym h ∙ ap answer_id p))
ids_differ x y (inr (inl p)) (inr (inl q)) h = p ∙ sym q
ids_differ x y (inr (inr p)) j h = absurd p
ids_differ x y (inl p) (inr (inr q)) h = absurd q
ids_differ x y (inr (inl p)) (inr (inr q)) h = absurd q

seats-Rising : Rising toy two_seats
unfolding Rising Rises
seats-Rising = (omega arith, tt)

liveness_select-live_example :
    (chosen : List ℕ) × ((liveness_select toy toy_signing in_memory toy_bitcoin session quiet).0
      ≡ ok chosen)
unfolding session new assign_seats insert
liveness_select-live_example =
    liveness_select-live toy toy_signing toy_bitcoin session quiet two_seats quiet-IsBoard
      quiet-Vacant ids_differ seats-Rising seated (omega arith)
