-- ===== src/Ssu/Data/Delivery.antt =====
-- src/core/router/transports/ssu/data.cc: the data packets of one message, received by ProcessMessage.
pub mod Whole
use xi2p_old.Base.{
  lookup, put, erase, lookup-put, ℕ, zero, suc, ◌+◌, ◌^◌, ◌==◌, ◌≤◌, ◌<◌, ◌≡◌, ◌≢◌, ◌⊎◌, inl, inr,
  refl, sym, ap, ◌∙◌, Bool, true, false, Option, none, some, List, [], ◌∷◌, ◌++◌, length, replicate,
  ltb, if◌then◌else◌, Result, ok, err, arith, Bool-cases,
}
use xi2p_old.I2np.{Message, from_ssu}
use xi2p_old.Ssu.Data.{Fragment, IncompleteMessage, SsuData, emit}
use xi2p_old.Ssu.Data.Incoming.{receive_fragment, new_incomplete}
use xi2p_old.Ssu.Data.Outgoing.{fragment_payload, send_msg_ack, send_fragment_ack}
use xi2p_old.Ssu.Data.Acks.{Received}
use xi2p_old.Ssu.Data.Process.{
  incomplete_of, deliver, process_fragment, process_fragment_at, process_message,
}
use xi2p_old.Ssu.Data.Reassembly.{piece, join, fragment_of, receive_all, arrived, ArePieces}
use xi2p_old.Ssu.Data.Reassembly.Run.{receive_all-new_incomplete, receive_all_sound}
use xi2p_old.Ssu.Data.Fragmentation.Wire.{process_message-fragment_payload}

-- The bytes behind the header of the packet with piece i, and what its padding was filled with.
unfoldable pub packet_of : (ℕ → List ℕ) → ℕ → List (List ℕ) → ℕ → List ℕ
packet_of padding msg_id cs i =
    fragment_payload msg_id i (suc i == length cs) (piece cs i) ++ padding i

-- Data packets received one after the other, each with its time.
unfoldable pub receive_packets :
    (ℕ → List ℕ) → ℕ → List (List ℕ) → List (ℕ × ℕ) → SsuData → Result SsuData
receive_packets padding msg_id cs [] d = ok d
receive_packets padding msg_id cs ((now, i) ∷ arrivals) d =
    elim (process_message now (packet_of padding msg_id cs i, d)) [
      | ok (tt, (buf, d')) ↦ receive_packets padding msg_id cs arrivals d'
      | err e ↦ err e
    ]

-- What the packets of a message leave alone.
abbrev pub SameSession : SsuData → SsuData → Type 0
SameSession d e = (e.established ≡ d.established) × (e.received_messages ≡ d.received_messages)

pub process_fragment-saved :
    (now msg_id : ℕ) (f : Fragment) (d : SsuData) (m : IncompleteMessage)
    → receive_fragment now f (incomplete_of msg_id d) ≡ ok (false, m)
    → process_fragment now msg_id f d
      ≡ ok (
          send_fragment_ack msg_id f.fragment_num
            (record d { incomplete_messages = put msg_id m d.incomplete_messages }))
unfolding process_fragment
process_fragment-saved now msg_id f d m h = rw (h, process_fragment) refl

pub process_fragment_complete :
    (now msg_id : ℕ) (f : Fragment) (d : SsuData) (m : IncompleteMessage)
    → receive_fragment now f (incomplete_of msg_id d) ≡ ok (true, m)
    → process_fragment now msg_id f d
      ≡ ok (
          deliver msg_id (from_ssu msg_id m.msg) (
            send_msg_ack msg_id
              (record d { incomplete_messages = erase msg_id d.incomplete_messages })))
unfolding process_fragment
process_fragment_complete now msg_id f d m h = rw (h, process_fragment) refl

process_fragment_at_ok :
    (now msg_id : ℕ) (f : Fragment) (buf : List ℕ) (d : SsuData) {e : SsuData}
    → process_fragment now msg_id f d ≡ ok e
    → process_fragment_at now msg_id f (buf, d) ≡ ok (tt, (buf, e))
unfolding process_fragment_at
process_fragment_at_ok now msg_id f buf d h = rw (h, process_fragment_at) refl

incomplete_of-put :
    (msg_id : ℕ) (m : IncompleteMessage) (d : SsuData)
    → incomplete_of msg_id (record d { incomplete_messages = put msg_id m d.incomplete_messages })
      ≡ m
unfolding incomplete_of
incomplete_of-put msg_id m d = rw (lookup-put msg_id m d.incomplete_messages, incomplete_of) refl

send_fragment_ack-kept :
    (msg_id i : ℕ) (d : SsuData)
    → (incomplete_of msg_id (send_fragment_ack msg_id i d) ≡ incomplete_of msg_id d)
      × SameSession d (send_fragment_ack msg_id i d)
unfolding send_fragment_ack emit incomplete_of
send_fragment_ack-kept msg_id i d = (ground arith, (ground arith, ground arith))

module _ (padding : ℕ → List ℕ) (msg_id : ℕ) (cs : List (List ℕ)) (p : msg_id < 2 ^ 32)
    (q : length cs ≤ 128) (r : (j : ℕ) → length (piece cs j) < 1456) where
  process_packet :
      (now i : ℕ) (d : SsuData)
      → i < length cs
      → process_message now (packet_of padding msg_id cs i, d)
        ≡ process_fragment_at now msg_id (fragment_of cs i) (padding i, d)
  unfolding packet_of fragment_of
  process_packet now i d l =
      process_message-fragment_payload now msg_id i (suc i == length cs) (piece cs i) (padding i) d
        p (omega arith) (r i)

  pub saved_packet :
      (now i : ℕ) (d : SsuData) (m : IncompleteMessage)
      → i < length cs
      → receive_fragment now (fragment_of cs i) (incomplete_of msg_id d) ≡ ok (false, m)
      → (e : SsuData) × (process_message now (packet_of padding msg_id cs i, d)
          ≡ ok (tt, (padding i, e)))
        × (incomplete_of msg_id e ≡ m)
        × SameSession d e
  unfolding fragment_of
  saved_packet now i d m l h =
      let kept = record d { incomplete_messages = put msg_id m d.incomplete_messages } in
      let (a, s) = send_fragment_ack-kept msg_id i kept in
      (
        send_fragment_ack msg_id i kept,
        process_packet now i d l
            ∙ process_fragment_at_ok now msg_id (fragment_of cs i) (padding i) d
                (process_fragment-saved now msg_id (fragment_of cs i) d m h),
        a ∙ incomplete_of-put msg_id m d,
        s,
      )

  pub last_packet :
      (now i : ℕ) (d : SsuData) (m : IncompleteMessage)
      → i < length cs
      → receive_fragment now (fragment_of cs i) (incomplete_of msg_id d) ≡ ok (true, m)
      → (e : SsuData) × (process_message now (packet_of padding msg_id cs i, d)
          ≡ ok (tt, (padding i, deliver msg_id (from_ssu msg_id m.msg) e)))
        × SameSession d e
  unfolding send_msg_ack emit
  last_packet now i d m l h = (
    send_msg_ack msg_id (record d { incomplete_messages = erase msg_id d.incomplete_messages }),
    process_packet now i d l
        ∙ process_fragment_at_ok now msg_id (fragment_of cs i) (padding i) d
            (process_fragment_complete now msg_id (fragment_of cs i) d m h),
    (refl, refl),
  )
