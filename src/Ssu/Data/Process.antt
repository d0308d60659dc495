-- ===== src/Ssu/Data/Process.antt =====
-- src/core/router/transports/ssu/data.cc: ProcessFragments and ProcessMessage.
use xi2p_old.Base.{
  lookup, put, erase, ℕ, zero, suc, ◌/◌, ◌%◌, ◌^◌, ◌==◌, ◌||◌, true, false, not, none, some, [],
  ◌∷◌, length, ltb, leb, bit, if◌then◌else◌, Result, ok, err, Method, ◌>>=◌, ◌>>◌, pure,
}
use xi2p_old.I2np.{Message, get_type_id, from_ssu}
use xi2p_old.Ssu.Data.{
  Fragment, IncompleteMessage, put_next_message, session_established, schedule_decay, SsuData, emit,
  contains, packet_max_ipv4, max_received_messages,
}
use xi2p_old.Ssu.Data.Incoming.{new_incomplete, receive_fragment}
use xi2p_old.Ssu.Data.Outgoing.{send_msg_ack, send_fragment_ack}
use xi2p_old.Ssu.Data.Acks.{Received, raw_bytes, raw, when, process_acks}

-- m_Session.Established().
unfoldable pub establish : SsuData → SsuData
establish d = emit session_established (record d { established = true })

-- The numbers that are kept to tell messages received before.
unfoldable pub remember : ℕ → SsuData → SsuData
remember msg_id d =
    if ltb max_received_messages (length d.received_messages)
    then record d { received_messages = msg_id ∷ [] }
    else emit schedule_decay (record d { received_messages = msg_id ∷ d.received_messages })

-- What becomes of a complete message, in a full format.
unfoldable pub deliver : ℕ → Message → SsuData → SsuData
deliver msg_id msg d =
    if d.established
    then if contains msg_id d.received_messages
      then d
      else emit (put_next_message msg) (remember msg_id d)
    else if get_type_id msg == 10
    then establish d
    else if get_type_id msg == 1
    then emit (put_next_message msg) (record d {
      received_messages =
          if contains msg_id d.received_messages
          then d.received_messages
          else msg_id ∷ d.received_messages;
    })
    else d

unfoldable pub incomplete_of : ℕ → SsuData → IncompleteMessage
incomplete_of msg_id d = elim (lookup msg_id d.incomplete_messages) [
  | some m ↦ m
  | none ↦ new_incomplete
]

-- One fragment of message msg_id.
unfoldable pub process_fragment : ℕ → ℕ → Fragment → SsuData → Result SsuData
process_fragment now msg_id f d = elim (receive_fragment now f (incomplete_of msg_id d)) [
  | err e ↦ err e
  | ok (true, m) ↦ ok (
      deliver msg_id (from_ssu msg_id m.msg) (
        send_msg_ack msg_id
          (record d { incomplete_messages = erase msg_id d.incomplete_messages })))
  | ok (false, m) ↦ ok (
      send_fragment_ack msg_id f.fragment_num
        (record d { incomplete_messages = put msg_id m d.incomplete_messages }))
]

unfoldable pub process_fragment_at : ℕ → ℕ → Fragment → Method Received (Unit {0})
process_fragment_at now msg_id f (buf, d) = elim (process_fragment now msg_id f d) [
  | ok d' ↦ ok (tt, (buf, d'))
  | err e ↦ err e
]

-- The fragment of a size and an info; the last mark is bit 16 and the number stands behind it.
unfoldable pub process_sized : ℕ → ℕ → ℕ → Method Received (Unit {0})
process_sized now msg_id fragment_info = do
  bytes ← raw_bytes (fragment_info % 2 ^ 14)
  process_fragment_at now msg_id (record {
    fragment_num = fragment_info / 2 ^ 17;
    len = fragment_info % 2 ^ 14;
    is_last = bit 16 fragment_info;
    buffer = bytes;
  })

-- The loop of ProcessFragments; a fragment of too large a size ends it.
unfoldable pub process_each : ℕ → ℕ → Method Received (Unit {0})
process_each now zero = pure tt
process_each now (suc n) = raw 4 >>= λ msg_id. raw 3 >>= λ fragment_info.
    elim (leb packet_max_ipv4 (fragment_info % 2 ^ 14)) [
      | true ↦ pure tt
      | false ↦ process_sized now msg_id fragment_info >> process_each now n
    ]

unfoldable pub process_fragments : ℕ → Method Received (Unit {0})
process_fragments now = do n ← raw 1; process_each now n

-- ProcessMessage; FlushReceivedMessage is a call of the handler.
unfoldable pub process_message : ℕ → Method Received (Unit {0})
process_message now = do
  flag ← raw 1
  when (bit 7 flag || bit 6 flag) (process_acks flag)
  when (bit 1 flag) (do n ← raw 1; when (not (n == 0)) (do _ ← raw_bytes n; pure tt))
  process_fragments now
