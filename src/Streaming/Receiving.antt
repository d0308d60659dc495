-- ===== src/Streaming/Receiving.antt =====
-- src/client/api/streaming.cc: what a stream does with a packet that comes in, and how the application
-- reads what has come.
use xi2p_old.Base.{
  ℕ, ◌+◌, ◌-◌, ◌*◌, ◌/◌, ◌%◌, ◌^◌, Bool, true, false, not, ◌&&◌, ◌||◌, List, [], ◌∷◌, ◌++◌, length,
  take, drop, replicate, ltb, leb, bit, ◌==◌, if◌then◌else◌, min, Result, ok, err, fault, Method,
  ◌>>◌,
}
use xi2p_old.Identity.{IdentityEx, from_buffer, signature_len}
use xi2p_old.Streaming.{
  window_size_limit, max_window_size, Packet, get_length, get_receive_stream_id, get_seqn,
  get_ack_through, get_nacks, get_flags, get_option_size, get_option_data, get_payload, is_syn,
  is_no_ack, insert_packet, signed_le, is_negative, next_number, reset, cancel_ack, schedule_ack,
  cancel_resend, cancel_receive, Stream, emit, Owner,
}
use xi2p_old.Streaming.Sending.{
  close, send_quick_ack, send_buffer_at, is_closing, is_empty, is_open,
}

-- The identity at option data: how many bytes it takes, and the identity that is known after it.
-- FromBuffer reads 387 bytes where the options are as long, and else none.
unfoldable pub read_identity : Packet → ℕ → IdentityEx → Result (ℕ × IdentityEx)
read_identity p at identity =
    let size = get_option_size p in
    let found = from_buffer (take size (drop at p.buf ++ replicate size 0)) identity in
    let extent = if ltb size 387 then 0 else if ltb found.0 387 then 387 else found.0 in
    if ltb (length p.buf) (at + extent) then err fault else ok found

-- The signature at option data, over the packet with zeros in its place: whether it is right.
unfoldable pub check_signature : Owner → Packet → ℕ → IdentityEx → Result Bool
check_signature o p at identity = elim (signature_len identity) [
  | err e ↦ err e
  | ok n ↦
      let zeroed = take at p.buf ++ (replicate n 0 ++ drop (at + n) p.buf) in
      if ltb (length p.buf) (at + n)
      then err fault
      else ok
          (o.verify identity (take (get_length p) (drop p.offset zeroed)) (take n (drop at p.buf)))
]

-- The options of ProcessPacket: the remote identity, and whether there is no wrong signature.
unfoldable pub read_options : Owner → Packet → IdentityEx → Result (IdentityEx × Bool)
unfolding read_identity check_signature
read_options o p identity =
    let flags = get_flags p in
    let at = get_option_data p + (if bit 6 flags then 2 else 0) in
    elim (if bit 5 flags then read_identity p at identity else ok (0, identity)) [
      | err e ↦ err e
      | ok (n, remote) ↦
          let after = at + n + (if bit 7 flags then 2 else 0) in
          if bit 7 flags && ltb (length p.buf) after
          then err fault
          else if bit 3 flags
          then elim (check_signature o p after remote) [
            | err e ↦ err e
            | ok right ↦ ok (remote, right)
          ]
          else ok (remote, true)
    ]

-- The rest of it.
unfoldable pub enqueue : Packet → Stream → Stream
unfolding emit
enqueue p s =
    if get_length p == 0
    then s
    else emit cancel_receive (record s { receive_queue = s.receive_queue ++ p ∷ [] })

unfoldable pub accept : Owner → Packet → Bool → Stream → Stream
unfolding enqueue close
accept o p right s =
    let flags = get_flags p in
    let s1 = if right then s else close o s in
    let s2 = record (enqueue (record p { offset = get_payload p }) s1) {
      last_received = get_seqn p;
    } in
    if not right || (bit 1 flags || bit 2 flags) then close o (record s2 { status = reset }) else s2

unfoldable pub process_packet : Owner → Packet → Method Stream (Unit {0})
unfolding read_options accept
process_packet o p s = elim (read_options o p s.remote_identity) [
  | err e ↦ err e
  | ok (remote, right) ↦ ok (tt, accept o p right (record s { remote_identity = remote }))
]

-- ProcessAck at time ts: what an acknowledged packet changes. A wrapped round trip time stays a
-- number here, since m_RTT is below 2^31 wherever the products are.
unfoldable pub grow_window : ℕ → Stream → Stream
grow_window ts s =
    if ltb s.window_size window_size_limit
    then record s { window_size = s.window_size + 1 }
    else if ltb ((s.last_window_size_increase_time + s.rtt) % 2 ^ 64) ts
    then record s {
      window_size =
          if ltb max_window_size (s.window_size + 1) then max_window_size else s.window_size + 1;
      last_window_size_increase_time = ts;
    }
    else s

unfoldable pub average_rtt : ℕ → Packet → Stream → Stream
average_rtt ts p s =
    let seqn = get_seqn p in
    let rtt = (ts + 2 ^ 64 - p.send_time) % 2 ^ 64 in
    let average = (s.rtt * seqn % 2 ^ 32 + rtt) % 2 ^ 64 / next_number seqn % 2 ^ 32 in
    record s { rtt = average; rto = average * 3 / 2 }

unfoldable pub acknowledge : ℕ → Packet → Stream → Stream
unfolding grow_window average_rtt
acknowledge ts p s = grow_window ts (average_rtt ts p s)

unfoldable pub contains : ℕ → List ℕ → Bool
contains n [] = false
contains n (m ∷ ms) = n == m || contains n ms

-- The loop over the sent packets: those that stay, and whether one was acknowledged.
unfoldable pub ack_loop : ℕ → ℕ → List ℕ → List Packet → Stream → List Packet × Bool × Stream
unfolding acknowledge contains
ack_loop ts ack_through nacks [] s = ([], false, s)
ack_loop ts ack_through nacks (p ∷ ps) s =
    let nacked = contains (get_seqn p) nacks in
    let (kept, any, s') =
      ack_loop ts ack_through nacks ps (if nacked then s else acknowledge ts p s) in
    if leb (get_seqn p) ack_through
    then if nacked then (p ∷ kept, any, s') else (kept, true, s')
    else (p ∷ ps, false, s)

unfoldable pub after_ack : Owner → ℕ → Bool → Stream → Stream
unfolding send_buffer_at is_empty emit close is_closing
after_ack o ts acknowledged s =
    let s1 = if is_empty s.sent_packets then emit cancel_resend s else s in
    let s2 =
      if acknowledged then send_buffer_at o ts (record s1 { num_resend_attempts = 0 }) else s1 in
    if is_closing s2.status then close o s2 else s2

unfoldable pub process_ack : Owner → ℕ → Packet → Stream → Stream
unfolding ack_loop after_ack
process_ack o ts p s =
    let (kept, acknowledged, s') = ack_loop ts (get_ack_through p) (get_nacks p) s.sent_packets s in
    after_ack o ts acknowledged (record s' { sent_packets = kept })

-- HandleNextPacket: the saved packets that follow.
unfoldable pub process_saved : Owner → List Packet → Method Stream (Unit {0})
unfolding next_number ◌>>◌
process_saved o [] s = ok (tt, s)
process_saved o (p ∷ ps) s =
    if get_seqn p == next_number s.last_received
    then (process_packet o p >> process_saved o ps) (record s { saved_packets = ps })
    else ok (tt, s)

unfoldable pub schedule : Stream → Stream
unfolding emit
schedule s = emit schedule_ack (record s { is_ack_send_scheduled = true })

unfoldable pub answer : Owner → ℕ → Bool → Stream → Stream
unfolding schedule send_buffer_at is_open
answer o ts syn s =
    if is_open s.status
    then if s.is_ack_send_scheduled then s else schedule s
    else if syn
    then send_buffer_at o ts s
    else s

-- The packet in sequence; the loop reads the saved packets after the first one is processed.
unfoldable pub handle_in_sequence : Owner → ℕ → Packet → Method Stream (Unit {0})
unfolding ◌>>◌
handle_in_sequence o ts p =
    process_packet o p
    >> (λ s. process_saved o s.saved_packets s)
    >> (λ s. ok (tt, answer o ts (is_syn p) s))

-- A duplicate, and a packet after missing ones.
unfoldable pub save_packet : Packet → Stream → Stream
unfolding schedule emit is_negative
save_packet p s =
    let s1 = record s { saved_packets = insert_packet p s.saved_packets } in
    if is_negative s.last_received
    then schedule s1
    else send_quick_ack (
        if s.is_ack_send_scheduled
        then emit cancel_ack (record s1 { is_ack_send_scheduled = false })
        else s1)

unfoldable pub handle_sequenced : Owner → ℕ → Packet → Method Stream (Unit {0})
unfolding signed_le next_number
handle_sequenced o ts p s =
    let seqn = get_seqn p in
    if seqn == 0 && not (is_syn p)
    then ok (tt, s)
    else if is_syn p || seqn == next_number s.last_received
    then handle_in_sequence o ts p s
    else if signed_le seqn s.last_received
    then ok (tt, send_quick_ack s)
    else ok (tt, save_packet p s)

unfoldable pub count_packet : Packet → Stream → Stream
count_packet p s = record s {
  num_received_bytes = s.num_received_bytes + get_length p;
  send_stream_id = if s.send_stream_id == 0 then get_receive_stream_id p else s.send_stream_id;
}

unfoldable pub handle_next_packet : Owner → ℕ → Packet → Method Stream (Unit {0})
unfolding count_packet
handle_next_packet o ts p s =
    let s1 = count_packet p s in
    handle_sequenced o ts p (if is_no_ack p then s1 else process_ack o ts p s1)

-- ConcatenatePackets with room for n bytes: the bytes copied, and the packets that stay.
unfoldable pub concatenate : ℕ → List Packet → Result (List ℕ × List Packet)
unfolding get_length
concatenate n [] = ok ([], [])
concatenate n (p ∷ ps) =
    let l = min (get_length p) n in
    let p' : Packet = record p { offset = p.offset + l } in
    let copied = take l (drop p.offset p.buf) in
    if n == 0
    then ok ([], p ∷ ps)
    else if ltb (length p.buf) (p.offset + l)
    then err fault
    else if get_length p' == 0
    then elim (concatenate (n - l) ps) [
      | err e ↦ err e
      | ok (bytes, rest) ↦ ok (copied ++ bytes, rest)
    ]
    else ok (copied, p' ∷ ps)

unfoldable pub read_some : ℕ → Method Stream (List ℕ)
unfolding concatenate
read_some n s = elim (concatenate n s.receive_queue) [
  | err e ↦ err e
  | ok (bytes, rest) ↦ ok (bytes, record s { receive_queue = rest })
]
