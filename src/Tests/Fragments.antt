-- ===== src/Tests/Fragments.antt =====
-- src/core/router/transports/ssu/data.cc: fragments cut, written and acknowledged.
use xi2p_old.Base.{
  lookup, put, ℕ, ◌%◌, ◌<◌, ◌≡◌, refl, true, none, some, List, [], ◌∷◌, ◌++◌, length, replicate,
  length-replicate, set, ok, err, fault, arith,
}
use xi2p_old.Ssu.Data.{SsuData, SentMessage}
use xi2p_old.Ssu.Data.Outgoing.{
  fragment_payload, fragment_ack_payload, fragments_of, payload_size_of,
}
use xi2p_old.Ssu.Data.Process.{process_message, process_fragment_at}
use xi2p_old.Ssu.Data.Reassembly.{join}
use xi2p_old.Ssu.Data.Fragmentation.{packets}
use xi2p_old.Ssu.Data.Fragmentation.Cut.{AreCut, fragments_of-packets}
use xi2p_old.Ssu.Data.Fragmentation.Wire.{process_message-fragment_payload}
use xi2p_old.Ssu.Data.Resending.Acknowledged.{process_message-fragment_ack_payload}
use xi2p_old.Ssu.Data.Limits.{fragments_of-fault}

abbrev message : SentMessage
message = record { fragments = none ∷ none ∷ []; next_resend_time = 10; num_resends = 1 }

abbrev sending : SsuData
sending = record {
  incomplete_messages = [];
  sent_messages = (5, message) ∷ [];
  received_messages = [];
  max_packet_size = 1456;
  packet_size = 1456;
  established = true;
  events = [];
}

message_sent : lookup 5 sending.sent_messages ≡ some message
unfolding lookup
message_sent = refl

process_message-fragment_payload_example :
    process_message 3 (fragment_payload 77 2 true (8 ∷ 9 ∷ []) ++ 0 ∷ [], sending)
    ≡ process_fragment_at 3 77
        (record { fragment_num = 2; len = 2; is_last = true; buffer = 8 ∷ 9 ∷ [] })
        (0 ∷ [], sending)
process_message-fragment_payload_example =
    process_message-fragment_payload 3 77 2 true (8 ∷ 9 ∷ []) (0 ∷ []) sending (omega arith)
      (omega arith) (omega arith)

fragments_of-packets_example :
    (cs : List (List ℕ)) × (fragments_of 3 2 77 0 (4 ∷ 5 ∷ 6 ∷ []) ≡ ok (packets 77 0 cs))
    × (join cs ≡ 4 ∷ 5 ∷ 6 ∷ [])
    × AreCut 2 cs
    × (0 < length cs)
fragments_of-packets_example =
    fragments_of-packets 3 2 77 0 (4 ∷ 5 ∷ 6 ∷ []) (omega arith) (omega arith) (omega arith)
      (omega arith)

fragments_of-fault_example :
    fragments_of 2000 (payload_size_of 32) 77 0 (replicate 2000 1) ≡ err fault
fragments_of-fault_example =
    fragments_of-fault 32 77 1999 (replicate 2000 1) (omega arith)
      (omega (arith, length-replicate {A = ℕ} 2000 1))
      (omega (arith, length-replicate {A = ℕ} 2000 1))

process_message-fragment_ack_payload_example :
    process_message 3 (fragment_ack_payload 5 1 ++ 0 ∷ [], sending)
    ≡ ok (
      tt,
      (
        0 ∷ [],
        record sending {
          sent_messages =
              put 5
                (record message { fragments = set message.fragments (1 % 7) none })
                sending.sent_messages;
        },
      ),
    )
process_message-fragment_ack_payload_example =
    process_message-fragment_ack_payload 3 5 1 (0 ∷ []) sending message (omega arith) message_sent
