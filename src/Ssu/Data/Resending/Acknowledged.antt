-- ===== src/Ssu/Data/Resending/Acknowledged.antt =====
-- src/core/router/transports/ssu/data.cc: what an acknowledgement does to the sent messages.
use xi2p_old.Base.{
  lookup, put, lookup-erase, lookup-erase_other, ℕ, zero, suc, ◌/◌, ◌%◌, ◌^◌, ◌<◌, ◌≡◌, ◌≢◌, refl,
  ap, ◌∙◌, Option, none, some, List, [], ◌∷◌, ◌++◌, replicate, set, Result, ok, err, pure, arith,
}
use mathlib.Core.List.{append_assoc}
use native.Mathlib.Nat.{mod-eq_of_lt}
use xi2p_old.ByteStream.{to_big}
use xi2p_old.Ssu.Data.{Fragment, SentMessage, SsuData, emit}
use xi2p_old.Ssu.Data.Outgoing.{fragment_ack_payload}
use xi2p_old.Ssu.Data.Acks.{
  Received, raw, process_sent_message_ack, clear_fragments, counts, clear_bits, ack_bitfields,
  store, message_bitfields, all_bitfields, when, process_acks,
}
use xi2p_old.Ssu.Data.Process.{process_each, process_fragments, process_message}
use xi2p_old.Ssu.Data.Reading.{bind_ok, then_ok, raw-to_big}

-- An explicit acknowledgement takes its message off the sent ones, so that it is not sent again,
-- and leaves the others as they are.
pub process_sent_message_ack-lookup :
    (msg_id other : ℕ) (d : SsuData)
    → other ≢ msg_id
    → (lookup msg_id (process_sent_message_ack msg_id d).sent_messages ≡ none)
      × (lookup other (process_sent_message_ack msg_id d).sent_messages
          ≡ lookup other d.sent_messages)
unfolding process_sent_message_ack emit
process_sent_message_ack-lookup msg_id other d h =
    let a = lookup-erase msg_id d.sent_messages in
    let b = lookup-erase_other msg_id other d.sent_messages h in ground (arith, a, b)

-- The seven bits of a byte with one bit.
clear_one :
    (r : ℕ) (fs : List (Option Fragment)) → r < 7 → clear_fragments 7 0 (2 ^ r) 0 fs ≡ set fs r none
unfolding clear_fragments
clear_one zero fs h = refl
clear_one (suc zero) fs h = refl
clear_one (suc (suc zero)) fs h = refl
clear_one (suc (suc (suc zero))) fs h = refl
clear_one (suc (suc (suc (suc zero)))) fs h = refl
clear_one (suc (suc (suc (suc (suc zero))))) fs h = refl
clear_one (suc (suc (suc (suc (suc (suc zero)))))) fs h = refl
clear_one (suc (suc (suc (suc (suc (suc (suc r))))))) fs h = absurd (omega arith)

one_bit : (r : ℕ) → r < 7 → (0 < 2 ^ r) × (2 ^ r < 128)
one_bit zero h = (omega arith, omega arith)
one_bit (suc zero) h = (omega arith, omega arith)
one_bit (suc (suc zero)) h = (omega arith, omega arith)
one_bit (suc (suc (suc zero))) h = (omega arith, omega arith)
one_bit (suc (suc (suc (suc zero)))) h = (omega arith, omega arith)
one_bit (suc (suc (suc (suc (suc zero))))) h = (omega arith, omega arith)
one_bit (suc (suc (suc (suc (suc (suc zero)))))) h = (omega arith, omega arith)
one_bit (suc (suc (suc (suc (suc (suc (suc r))))))) h = absurd (omega arith)

ack_bitfields-replicate :
    (q r : ℕ) (rest : List ℕ) (m : SentMessage)
    → r < 7
    → ack_bitfields (replicate q 128 ++ 2 ^ r ∷ rest) 0 (some m)
      ≡ ok (some (record m { fragments = set m.fragments r none }), rest)
unfolding ack_bitfields counts clear_bits
ack_bitfields-replicate zero r rest m h =
    let (a, b) = one_bit r h in
    let e : 2 ^ r % 128 ≡ 2 ^ r = mod-eq_of_lt b in ground (arith, e, clear_one r m.fragments h)
ack_bitfields-replicate (suc q) r rest m h = ack_bitfields-replicate q r rest m h

-- The tables after fragment r of message msg_id is cleared.
abbrev cleared : ℕ → SentMessage → ℕ → SsuData → SsuData
cleared msg_id m r d = record d {
  sent_messages = put msg_id (record m { fragments = set m.fragments r none }) d.sent_messages;
}

message_bitfields-ack :
    (msg_id n : ℕ) (padding : List ℕ) (d : SsuData) (m : SentMessage)
    → lookup msg_id d.sent_messages ≡ some m
    → message_bitfields msg_id ((replicate (n / 7) 128 ++ 2 ^ (n % 7) ∷ 0 ∷ []) ++ padding, d)
      ≡ ok (tt, (0 ∷ padding, cleared msg_id m (n % 7) d))
unfolding message_bitfields store
message_bitfields-ack msg_id n padding d m h =
    let bits = (replicate (n / 7) 128 ++ 2 ^ (n % 7) ∷ 0 ∷ []) ++ padding in
    ap
      (λ (r : Result (Option SentMessage × List ℕ)). elim r as (λ _. Result (Unit {0} × Received)) [
        | ok (it, buf) ↦ ok (tt, (buf, store msg_id it d))
        | err e ↦ err e
      ])
      (ap (ack_bitfields bits 0) h
        ∙ ap (λ xs. ack_bitfields xs 0 (some m))
            (append_assoc (replicate (n / 7) 128) (2 ^ (n % 7) ∷ 0 ∷ []) padding)
        ∙ ack_bitfields-replicate (n / 7) (n % 7) (0 ∷ padding) m (omega arith))

-- An acknowledgement of fragment n, as SendFragmentACK writes it, read by ProcessMessage at a router
-- that has sent the message: of the fragments of the message it clears the one numbered n % 7, and
-- so the acknowledged one exactly when n is below 7.
pub process_message-fragment_ack_payload :
    (now msg_id n : ℕ) (padding : List ℕ) (d : SsuData) (m : SentMessage)
    → msg_id < 2 ^ 32
    → lookup msg_id d.sent_messages ≡ some m
    → process_message now (fragment_ack_payload msg_id n ++ padding, d)
      ≡ ok (
        tt,
        (
          padding,
          record d {
            sent_messages =
                put msg_id (record m { fragments = set m.fragments (n % 7) none }) d.sent_messages;
          },
        ),
      )
unfolding fragment_ack_payload process_message process_acks all_bitfields message_bitfields
    process_fragments process_each when store pure
process_message-fragment_ack_payload now msg_id n padding d m p h =
    let bits = (replicate (n / 7) 128 ++ 2 ^ (n % 7) ∷ 0 ∷ []) ++ padding in
    let acks : process_acks 64 (1 ∷ (to_big 4 msg_id ++ bits), d)
        ≡ ok (tt, (0 ∷ padding, cleared msg_id m (n % 7) d)) =
      then_ok _ _ refl
      ∙ bind_ok (raw 1) _ (raw-to_big 1 1 (to_big 4 msg_id ++ bits) d (omega arith))
      ∙ bind_ok (raw 4) _ (raw-to_big 4 msg_id bits d (omega arith))
      ∙ then_ok (message_bitfields msg_id) _ (message_bitfields-ack msg_id n padding d m h) in
    bind_ok (raw 1) _ (raw-to_big 1 64 (1 ∷ (to_big 4 msg_id ++ bits)) d (omega arith))
    ∙ then_ok _ _ acks
    ∙ then_ok _ _ refl
    ∙ bind_ok (raw 1) _ (raw-to_big 1 0 padding _ (omega arith))
