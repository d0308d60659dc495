-- ===== src/Streaming/Sending.antt =====
-- src/client/api/streaming.cc: what a stream sends, and how it ends.
use xi2p_old.Base.{
  ℕ, zero, suc, ◌+◌, ◌-◌, ◌/◌, ◌%◌, ◌^◌, Bool, true, false, not, ◌&&◌, Option, none, some, List, [],
  ◌∷◌, ◌++◌, map, length, take, drop, replicate, ltb, leb, if◌then◌else◌,
}
use xi2p_old.ByteStream.{to_big}
use xi2p_old.Streaming.{
  streaming_mtu, Packet, get_length, get_bytes, get_seqn, insert_packet, signed_le, is_negative,
  next_number, StreamStatus, new, opened, reset, closing, closed, transmit, post, cancel_ack,
  schedule_resend, cancel_resend, cancel_receive, call_handler, delete_stream, Stream, emit,
  is_established, Owner,
}

-- SendPackets, where the tunnels and leases are as `is_reachable` says.
unfoldable pub total_length : List Packet → ℕ
unfolding get_length
total_length [] = 0
total_length (p ∷ ps) = get_length p + total_length ps

unfoldable pub send_packets : List Packet → Stream → Stream
unfolding total_length get_bytes emit
send_packets ps s =
    if s.is_reachable
    then emit (transmit (map get_bytes ps))
        (record s { num_sent_bytes = s.num_sent_bytes + total_length ps })
    else s

-- Terminate; the handler that waits is told that the operation was aborted.
unfoldable pub terminate : Stream → Stream
unfolding emit
terminate s =
    let s' = emit cancel_resend (emit cancel_receive (emit cancel_ack s)) in
    if s.has_handler then emit (call_handler false) (record s' { has_handler = false }) else s'

-- The first 16 bytes of a packet.
unfoldable pub packet_head : Stream → ℕ → ℕ → List ℕ
packet_head s seqn ack_through =
    to_big 4 s.send_stream_id ++ to_big 4 s.recv_stream_id ++ to_big 4 seqn ++ to_big 4 ack_through

unfoldable pub new_packet : List ℕ → Packet
new_packet bytes = record { buf = bytes; len = length bytes; offset = 0; send_time = 0 }

-- A packet whose signature stands between `front` and `back`: it is made over zeros in its place.
unfoldable pub signed_packet : Owner → List ℕ → List ℕ → Packet
unfolding new_packet
signed_packet o front back =
    new_packet (front ++ (o.sign (front ++ (replicate o.signature_len 0 ++ back)) ++ back))

-- SendClose. The byte of the resend delay is not written; it is 0 here.
unfoldable pub close_packet : Owner → Stream → Packet
unfolding packet_head signed_packet
close_packet o s =
    signed_packet o
      (packet_head s s.sequence_number s.last_received
        ++ (0 ∷ 0 ∷ (to_big 2 (2 + 8) ++ to_big 2 o.signature_len)))
      []

unfoldable pub send_close : Owner → Stream → Stream
unfolding close_packet next_number emit
send_close o s =
    emit (post (close_packet o s)) (record s { sequence_number = next_number s.sequence_number })

-- Close, which calls itself once at most.
unfoldable pub leave : Stream → Stream
unfolding terminate emit
leave s = emit delete_stream (terminate s)

unfoldable pub is_empty : {A : Type 0} → List A → Bool
is_empty [] = true
is_empty (x ∷ xs) = false

unfoldable pub close_closing : Owner → Stream → Stream
unfolding send_close leave is_empty
close_closing o s =
    if is_empty s.sent_packets && s.send_eof
    then leave (send_close o (record s { status = closed }))
    else s

unfoldable pub close_at : StreamStatus → Owner → Stream → Stream
unfolding close_closing
close_at opened o s = close_closing o (record s { status = closing })
close_at reset o s = leave (send_close o s)
close_at closing o s = close_closing o s
close_at closed o s = leave s
close_at new o s = s

unfoldable pub close : Owner → Stream → Stream
unfolding close_at
close o s = close_at s.status o s

unfoldable pub is_open : StreamStatus → Bool
is_open opened = true
is_open _ = false

-- SendPacket of a packet that is not null.
unfoldable pub send_packet : Packet → Stream → Stream
unfolding send_packets insert_packet emit is_empty is_open
send_packet p s =
    let s1 =
      if s.is_ack_send_scheduled
      then emit cancel_ack (record s { is_ack_send_scheduled = false })
      else s in
    let s2 = send_packets (p ∷ []) s1 in
    let s3 = record s2 { sent_packets = insert_packet p s2.sent_packets } in
    if is_open s.status
    then if is_empty s.sent_packets then emit (schedule_resend s3.rto) s3 else s3
    else s2

-- SendQuickAck: the numbers that are missing before the saved packets, and the acknowledged number
-- that replaces the highest one where there are too many to list.
unfoldable pub range : ℕ → ℕ → List ℕ
range a zero = []
range a (suc n) = a ∷ range (a + 1) n

unfoldable pub fill_nacks : ℕ → ℕ → List Packet → List ℕ × Option ℕ
unfolding range next_number
fill_nacks num_nacks next_seqn [] = ([], none)
fill_nacks num_nacks next_seqn (p ∷ ps) =
    let seqn = get_seqn p in
    let gap = (seqn + 2 ^ 32 - next_seqn) % 2 ^ 32 in
    let (nacks, through) = fill_nacks (num_nacks + (seqn - next_seqn)) (next_number seqn) ps in
    if leb 256 ((num_nacks + gap) % 2 ^ 32)
    then ([], some next_seqn)
    else (range next_seqn (seqn - next_seqn) ++ nacks, through)

unfoldable pub highest_seqn : ℕ → List Packet → ℕ
highest_seqn last [] = last
highest_seqn last (p ∷ ps) = highest_seqn (get_seqn p) ps

unfoldable pub word_bytes : List ℕ → List ℕ
word_bytes [] = []
word_bytes (n ∷ ns) = to_big 4 n ++ word_bytes ns

unfoldable pub or_else : ℕ → Option ℕ → ℕ
or_else d none = d
or_else d (some n) = n

-- The byte of the resend delay is not written; it is 0 here.
unfoldable pub ack_packet : Stream → List ℕ → ℕ → Packet
unfolding packet_head word_bytes new_packet
ack_packet s nacks ack_through = new_packet (
    packet_head s 0 ack_through
    ++ (to_big 1 (length nacks) ++ (word_bytes nacks ++ (0 ∷ (to_big 2 0 ++ to_big 2 0)))))

unfoldable pub quick_ack : Stream → ℕ → Packet
unfolding or_else
quick_ack s last =
    let (nacks, through) = fill_nacks 0 (next_number s.last_received) s.saved_packets in
    if signed_le last s.last_received
    then ack_packet s [] last
    else ack_packet s nacks (or_else last through)

unfoldable pub last_seqn : Stream → ℕ
unfolding signed_le
last_seqn s =
    let seqn = highest_seqn s.last_received s.saved_packets in
    if signed_le seqn s.last_received then s.last_received else seqn

unfoldable pub send_quick_ack : Stream → Stream
unfolding last_seqn quick_ack send_packets
send_quick_ack s =
    let last = last_seqn s in if is_negative last then s else send_packets (quick_ack s last ∷ []) s

-- m_SendBuffer.read and gcount.
unfoldable pub read_buffer : ℕ → Stream → List ℕ × Stream
read_buffer n s = if s.send_eof then ([], s) else (
  take n s.send_buffer,
  record s { send_buffer = drop n s.send_buffer; send_eof = ltb (length s.send_buffer) n },
)

-- SendBuffer: the loop that fills packets. The flags of the first one are SYNCHRONIZE,
-- FROM_INCLUDED, SIGNATURE_INCLUDED and MAX_PACKET_SIZE_INCLUDED, and NO_ACK before an answer.
unfoldable pub buffer_head : Stream → List ℕ
unfolding packet_head
buffer_head s =
    packet_head s s.sequence_number (if is_negative s.last_received then s.last_received else 0)
    ++ (0 ∷ to_big 1 (s.rto / 1000))

unfoldable pub first_front : Owner → Stream → List ℕ
unfolding buffer_head
first_front o s =
    buffer_head s
    ++ (to_big 2 (1 + 8 + 32 + 128 + (if is_negative s.last_received then 1024 else 0))
        ++ (to_big 2 (length o.identity + o.signature_len + 2)
            ++ (o.identity ++ to_big 2 streaming_mtu)))

unfoldable pub first_packet : Owner → Stream → Packet × Stream
unfolding first_front read_buffer signed_packet next_number
first_packet o s =
    let front = first_front o s in
    let (payload, s') = read_buffer (streaming_mtu - (length front + o.signature_len)) s in
    (
      signed_packet o front payload,
      record s' { status = opened; sequence_number = next_number s.sequence_number },
    )

unfoldable pub follow_packet : Stream → Packet × Stream
unfolding buffer_head read_buffer new_packet next_number
follow_packet s =
    let front = buffer_head s ++ (to_big 2 0 ++ to_big 2 0) in
    let (payload, s') = read_buffer (streaming_mtu - length front) s in
    (new_packet (front ++ payload), record s' { sequence_number = next_number s.sequence_number })

unfoldable pub follow_packets : ℕ → Stream → List Packet × Stream
unfolding follow_packet is_established
follow_packets zero s = ([], s)
follow_packets (suc num_msgs) s =
    let (p, s1) = follow_packet s in
    let (ps, s2) = follow_packets num_msgs s1 in
    if is_established s && not s.send_eof then (p ∷ ps, s2) else ([], s)

unfoldable pub fill_at : StreamStatus → Owner → ℕ → Stream → List Packet × Stream
unfolding first_packet follow_packets
fill_at new o num_msgs s =
    let (p, s1) = first_packet o s in
    let (ps, s2) = follow_packets (num_msgs - 1) s1 in (p ∷ ps, s2)
fill_at _ o num_msgs s = follow_packets num_msgs s

unfoldable pub fill_packets : Owner → ℕ → Stream → List Packet × Stream
unfolding fill_at
fill_packets o num_msgs s = fill_at s.status o num_msgs s

-- The rest of SendBuffer at time ts.
unfoldable pub insert_all : ℕ → List Packet → List Packet → List Packet
unfolding insert_packet
insert_all ts [] sent = sent
insert_all ts (p ∷ ps) sent = insert_all ts ps (insert_packet (record p { send_time = ts }) sent)

unfoldable pub is_closing : StreamStatus → Bool
is_closing closing = true
is_closing _ = false

unfoldable pub send_filled : Owner → ℕ → List Packet → Stream → Stream
unfolding insert_all send_packets send_close is_closing is_empty emit
send_filled o ts [] s = s
send_filled o ts (p ∷ ps) s =
    let s1 = emit cancel_ack (record s {
      is_ack_send_scheduled = false;
      sent_packets = insert_all ts (p ∷ ps) s.sent_packets;
    }) in
    let s2 = send_packets (p ∷ ps) s1 in
    let s3 = if is_closing s2.status && s2.send_eof then send_close o s2 else s2 in
    if is_empty s.sent_packets then emit (schedule_resend s3.rto) s3 else s3

unfoldable pub call_send_handler : Stream → Stream
unfolding emit
call_send_handler s =
    if s.send_eof && s.has_handler
    then record (emit (call_handler true) s) { has_handler = false }
    else s

unfoldable pub send_buffer_at : Owner → ℕ → Stream → Stream
unfolding fill_packets call_send_handler send_filled
send_buffer_at o ts s =
    let (packets, s') = fill_packets o (s.window_size - length s.sent_packets) s in
    if leb s.window_size (length s.sent_packets)
    then s
    else send_filled o ts packets (call_send_handler s')

-- Send, without the call of SendBuffer that it posts, and AsyncSend.
unfoldable pub send : List ℕ → Stream → Stream
send [] s = s
send (b ∷ bs) s = record s { send_buffer = s.send_buffer ++ b ∷ bs; send_eof = false }

unfoldable pub async_send : List ℕ → Stream → Stream
unfolding send emit
async_send bytes s =
    send bytes
      (if s.has_handler then emit (call_handler false) s else record s { has_handler = true })
