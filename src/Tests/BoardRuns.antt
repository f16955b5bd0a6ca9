-- ===== src/Tests/BoardRuns.antt =====
-- Envelopes on the in-memory board.
use cheget.Base.{
  ap, ◌≡◌, ◌≢◌, ◌↔◌, ◌⊎◌, refl, true, none, some, [], ◌∷◌, In, codes, text_dec, arith, ◌==◌,
  if◌then◌else◌,
}
use cheget.Base.OrdMap.{get, ranked_ℕ}
use cheget.Transport.Envelope.{
  fnv_offset, Envelope, commitments, session_control, class_dec, broadcast, directed, id, mix,
  mix_recipient, tag, to_le_bytes,
}
use cheget.Transport.Encoding.{IsWireSized, encode, id_lem}
use cheget.Transport.Filter as Select
use cheget.Transport.Filter.{Filter, matches, Fits, matches_iff}
use cheget.Transport.InMemory.{Store, new, publish, subscribe}
use cheget.Transport.Board.{IsBoard, new-IsBoard, publish-IsBoard, get-publish, subscribe-publish}

abbrev hello : Envelope
unfolding broadcast
hello = broadcast commitments (codes "s#0") 1 1 (5 ∷ [])

abbrev reply : Envelope
unfolding directed
reply = directed session_control (codes "s#0") 1 2 0 (6 ∷ [])

abbrev to_coordinator : Filter
unfolding Select.recipient Select.ceremony Select.all
to_coordinator = Select.recipient 0 (Select.ceremony (codes "s#0") Select.all)

-- The board that holds the first envelope.
unfoldable one : Store
one = (publish hello new).1

one-IsBoard : IsBoard one
unfolding one
one-IsBoard = publish-IsBoard hello new new-IsBoard

-- The filter lets both through: one is a broadcast, the other names the coordinator.
both_match : (matches to_coordinator hello ≡ true) × (matches to_coordinator reply ≡ true)
unfolding matches hello reply to_coordinator class_dec text_dec
both_match = (refl, refl)

different_ids : id hello ≢ id reply
unfolding id hello reply mix mix_recipient tag to_le_bytes
different_ids e = omega arith

publish-IsBoard_example : IsBoard (publish reply one).1
publish-IsBoard_example = publish-IsBoard reply one one-IsBoard

get-publish_example : get (id hello) (publish reply one).1 ≡ (
    if id hello == id reply
    then some (elim (get (id hello) one) [ none ↦ reply | some old ↦ old ])
    else get (id hello) one)
get-publish_example = get-publish reply one (id hello)

subscribe-publish_example : In reply (subscribe to_coordinator (publish reply one).1) ↔ (
    In reply (subscribe to_coordinator one)
    ⊎ ((reply ≡ reply) × (get (id reply) one ≡ none) × (matches to_coordinator reply ≡ true)))
subscribe-publish_example = subscribe-publish to_coordinator reply reply one one-IsBoard

reply-IsWireSized : IsWireSized reply
unfolding reply
reply-IsWireSized = record {
  id_len = omega arith;
  round_u32 = omega arith;
  seat_u16 = omega arith;
  recipient_u16 = λ r h. ground arith;
  payload_len = omega arith;
}

hello-IsWireSized : IsWireSized hello
unfolding hello
hello-IsWireSized = record {
  id_len = omega arith;
  round_u32 = omega arith;
  seat_u16 = omega arith;
  recipient_u16 = λ r h. ground arith;
  payload_len = omega arith;
}

id_lem_example :
    (id hello ≡ mix (encode hello) fnv_offset)
    × (id reply ≡ mix (encode reply) fnv_offset)
    × (encode hello ≢ encode reply)
id_lem_example =
    id_lem hello reply hello-IsWireSized reply-IsWireSized (λ h. different_ids (ap id h))
