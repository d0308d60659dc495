-- ===== src/Ssu/Data/Acks.antt =====
-- src/core/router/transports/ssu/data.cc: ProcessSentMessageACK and ProcessACKs.
use xi2p_old.Base.{
  lookup, put, erase, ℕ, zero, suc, ◌+◌, ◌%◌, ◌==◌, Bool, true, false, not, Option, none, some,
  List, [], ◌∷◌, length, set, take, drop, ltb, leb, bit, if◌then◌else◌, Result, ok, err, fault,
  Method, ◌>>=◌, ◌>>◌, pure,
}
use xi2p_old.ByteStream.{read_at}
use xi2p_old.Ssu.Data.{Fragment, SentMessage, cancel_resend, SsuData, emit}

-- The bytes at `buf`, to the end of the packet, and the tables.
abbrev pub Received : Type 0
Received = List ℕ × SsuData

-- The next n bytes; those behind the end of the packet are a fault.
unfoldable pub raw_bytes : ℕ → Method Received (List ℕ)
raw_bytes n (buf, d) = if ltb (length buf) n then err fault else ok (take n buf, (drop n buf, d))

unfoldable pub raw : ℕ → Method Received ℕ
raw n = do bytes ← raw_bytes n; pure (read_at n bytes)

unfoldable pub update : (SsuData → SsuData) → Method Received (Unit {0})
update f (buf, d) = ok (tt, (buf, f d))

unfoldable pub process_sent_message_ack : ℕ → SsuData → SsuData
process_sent_message_ack msg_id d = elim (lookup msg_id d.sent_messages) [
  | none ↦ d
  | some _ ↦
      let left = erase msg_id d.sent_messages in
      let d' = record d { sent_messages = left } in
      elim left [ [] ↦ emit cancel_resend d' | _ ∷ _ ↦ d' ]
]

unfoldable pub explicit_acks : ℕ → Method Received (Unit {0})
explicit_acks zero = pure tt
explicit_acks (suc n) = do msg_id ← raw 4; update (process_sent_message_ack msg_id); explicit_acks n

-- The seven bits of a bitfield from bit j on, `left` of them, for the fragments from `fragment` on.
unfoldable pub clear_fragments : ℕ → ℕ → ℕ → ℕ → List (Option Fragment) → List (Option Fragment)
clear_fragments zero j bitfield fragment fragments = fragments
clear_fragments (suc left) j bitfield fragment fragments =
    clear_fragments left (suc j) bitfield (suc fragment)
      (if bit j bitfield then set fragments fragment none else fragments)

-- A bitfield with bits, of a message that was sent.
unfoldable pub counts : ℕ → Option SentMessage → Bool
counts bitfield none = false
counts bitfield (some _) = not (bitfield == 0)

unfoldable pub clear_bits : ℕ → ℕ → Option SentMessage → Option SentMessage
clear_bits bitfield fragment none = none
clear_bits bitfield fragment (some m) =
    some (record m { fragments = clear_fragments 7 0 bitfield fragment m.fragments })

-- The do-while loop over the bitfields of one message; `none` is a message that was not sent.
unfoldable pub ack_bitfields :
    List ℕ → ℕ → Option SentMessage → Result (Option SentMessage × List ℕ)
ack_bitfields [] fragment it = err fault
ack_bitfields (byte ∷ buf) fragment it =
    let bitfield = byte % 128 in
    let has_bits = counts bitfield it in
    let it' = if has_bits then clear_bits bitfield fragment it else it in
    elim (leb 128 byte) [
      | true ↦ ack_bitfields buf (if has_bits then fragment + 7 else fragment) it'
      | false ↦ ok (it', buf)
    ]

unfoldable pub store : ℕ → Option SentMessage → SsuData → SsuData
store msg_id none d = d
store msg_id (some m) d = record d { sent_messages = put msg_id m d.sent_messages }

unfoldable pub message_bitfields : ℕ → Method Received (Unit {0})
message_bitfields msg_id (buf, d) = elim (ack_bitfields buf 0 (lookup msg_id d.sent_messages)) [
  | ok (it, buf') ↦ ok (tt, (buf', store msg_id it d))
  | err e ↦ err e
]

unfoldable pub all_bitfields : ℕ → Method Received (Unit {0})
all_bitfields zero = pure tt
all_bitfields (suc n) = do msg_id ← raw 4; message_bitfields msg_id; all_bitfields n

unfoldable pub when : Bool → Method Received (Unit {0}) → Method Received (Unit {0})
when b m = if b then m else pure tt

unfoldable pub process_acks : ℕ → Method Received (Unit {0})
process_acks flag = do
  when (bit 7 flag) (do n ← raw 1; explicit_acks n)
  when (bit 6 flag) (do n ← raw 1; all_bitfields n)
