-- ===== src/Tests/Streaming.antt =====
-- Streams at concrete inputs.
use xi2p_old.Base.{
  ℕ, zero, suc, ◌+◌, ◌≡◌, ◌<◌, refl, true, false, not, ◌&&◌, ◌||◌, ltb, Option, none, some, List,
  [], ◌∷◌, ◌++◌, map, length, take, replicate, length-replicate, get_elem?, ok, err, fault, arith,
}
use xi2p_old.Identity.{IdentityEx}
use xi2p_old.Streaming.{
  Packet, Stream, opened, Owner, new_stream, get_seqn, next_number, get_ack_through, get_nacks,
  get_payload, get_flags, is_syn, is_established,
}
use xi2p_old.Streaming.Sending.{
  new_packet, buffer_head, async_send, send_buffer_at, close, fill_packets, follow_packets,
  quick_ack, last_seqn,
}
use xi2p_old.Streaming.Receiving.{contains, handle_next_packet, read_some, read_options, ack_loop}
use xi2p_old.Streaming.Parts.{join, queue_bytes, IsPart}
use xi2p_old.Streaming.Delivery.{receive_all, numbers, AreParts, SynOnce, receive_all-read_some}
use xi2p_old.Streaming.Pieces.{MaySend}
use xi2p_old.Streaming.Transfer.{AreFrom, fill_packets-receive_all}
use xi2p_old.Streaming.Faults.{IsShort, handle_next_packet-syn, read_some-fault}
use xi2p_old.Streaming.Acks.{Ascending, gaps}
use xi2p_old.Streaming.Acks.Quick.{HasReceived, ack_loop-quick_ack}
use xi2p_old.Streaming.Acks.Overrun.{MissesMany, ack_loop-overrun}
use xi2p_old.Streaming.Timers.{handle_resend_timer}
use xi2p_old.Streaming.Window.{IsBounded}
use xi2p_old.Streaming.Window.Runs.{
  packet_step, async_send_step, buffer_step, resend_step, close_step, done, more, Steps-IsBounded,
}
use xi2p_old.Streaming.Resending.{fire, Ended, fire-Ended}

abbrev no_identity : IdentityEx
no_identity = record {
  standard = record {
    public_key = [];
    signing_key = [];
    certificate_type = 0;
    certificate_length = 0;
  };
  extended_len = 0;
  extended_buffer = none;
}

-- Signatures of 40 bytes, which are all right.
abbrev owner : Owner
owner = record {
  identity = replicate 387 0;
  signature_len = 40;
  sign = λ bytes. replicate 40 1;
  length_sign = λ bytes. length-replicate {A = ℕ} 40 1;
  small = omega arith;
  verify = λ i bytes signature. true;
}

-- A packet of 24 bytes with number n and two bytes of data; a SYN without options for number 0.
abbrev packet : ℕ → ℕ → ℕ → ℕ → Packet
packet n flags a b = record {
  buf =
      0 ∷ 0 ∷ 0 ∷ 5 ∷ 0 ∷ 0 ∷ 0 ∷ 6 ∷ 0 ∷ 0 ∷ 0 ∷ n ∷ 0 ∷ 0 ∷ 0 ∷ 0 ∷ 0 ∷ 0 ∷ 4 ∷ flags ∷ 0 ∷ 0 ∷ a
      ∷ b ∷ [];
  len = 24;
  offset = 0;
  send_time = 0;
}

abbrev fresh : Stream
fresh = new_stream 9 no_identity

abbrev parts : List (List ℕ)
parts = (10 ∷ 11 ∷ []) ∷ (20 ∷ 21 ∷ []) ∷ (30 ∷ 31 ∷ []) ∷ []

abbrev syn : Packet
syn = packet 0 1 10 11

abbrev second : Packet
second = packet 1 0 20 21

abbrev third : Packet
third = packet 2 0 30 31

syn-IsPart : IsPart owner syn (10 ∷ 11 ∷ [])
unfolding is_syn get_seqn get_flags read_options get_payload
syn-IsPart = record {
  syn = refl;
  plain = refl;
  options = λ i. (i, refl);
  start = omega arith;
  within = omega arith;
  small = omega arith;
  bytes = refl;
}

second-IsPart : IsPart owner second (20 ∷ 21 ∷ [])
unfolding is_syn get_seqn get_flags read_options get_payload
second-IsPart = record {
  syn = refl;
  plain = refl;
  options = λ i. (i, refl);
  start = omega arith;
  within = omega arith;
  small = omega arith;
  bytes = refl;
}

third-IsPart : IsPart owner third (30 ∷ 31 ∷ [])
unfolding is_syn get_seqn get_flags read_options get_payload
third-IsPart = record {
  syn = refl;
  plain = refl;
  options = λ i. (i, refl);
  start = omega arith;
  within = omega arith;
  small = omega arith;
  bytes = refl;
}

-- The third part twice, the SYN between, and the second part last.
abbrev arrivals : List (ℕ × Packet)
arrivals = (1, third) ∷ (2, syn) ∷ (3, third) ∷ (4, second) ∷ []

arrivals-AreParts : AreParts owner parts arrivals
unfolding get_seqn
arrivals-AreParts = (
  (30 ∷ 31 ∷ [], refl, third-IsPart),
  (
    (10 ∷ 11 ∷ [], refl, syn-IsPart),
    ((30 ∷ 31 ∷ [], refl, third-IsPart), ((20 ∷ 21 ∷ [], refl, second-IsPart), tt)),
  ),
)

arrivals-SynOnce : SynOnce false arrivals
unfolding get_seqn
arrivals-SynOnce =
    (λ z. refl, (λ z. refl, (λ z. absurd (omega (arith, z)), (λ z. absurd (omega (arith, z)), tt))))

receive_all-read_some_example :
    (k : ℕ) × (t : Stream) × (u : Stream) × (receive_all owner arrivals fresh ≡ ok (tt, t))
    × (read_some 100 t ≡ ok (take 100 (join (take k parts)), u))
    × ((j : ℕ) → j < k → contains j (numbers arrivals) ≡ true)
    × (contains k (numbers arrivals) ≡ false)
unfolding new_stream
receive_all-read_some_example =
    receive_all-read_some owner parts (omega arith) arrivals 100 fresh
      (record { last = refl; saved = refl; queue = refl }) arrivals-AreParts arrivals-SynOnce

-- Two packets, of which the second comes first and again at the end.
abbrev sender : Stream
sender = record fresh {
  send_stream_id = 5;
  sequence_number = 1;
  last_received = 0;
  status = opened;
  send_buffer = replicate 2000 7;
}

abbrev reader : Stream
reader = record fresh { last_received = 0; status = opened }

abbrev packet_or : Packet → Option Packet → Packet
packet_or p none = p
packet_or p (some q) = q

abbrev sent : List Packet
sent = (fill_packets owner 3 sender).0

abbrev sent_packet : ℕ → Packet
sent_packet i = packet_or syn (get_elem? sent i)

abbrev sent_arrivals : List (ℕ × Packet)
sent_arrivals = (1, sent_packet 1) ∷ (2, sent_packet 0) ∷ (3, sent_packet 1) ∷ []

sender-MaySend : MaySend 3 sender
unfolding new_stream is_established
sender-MaySend = record {
  established = refl;
  started = omega arith;
  bound = omega arith;
  drained = λ e. cc e;
}

sent-come : (i : ℕ) → i < length sent → contains (1 + i) (numbers sent_arrivals) ≡ true
unfolding fill_packets follow_packets new_stream contains get_seqn new_packet buffer_head
sent-come zero h = refl
sent-come (suc zero) h = refl
sent-come (suc (suc i)) h = absurd (omega arith)

sent-AreFrom : AreFrom sent sent_arrivals
unfolding fill_packets follow_packets new_stream new_packet buffer_head
sent-AreFrom = ((1, refl), ((0, refl), ((1, refl), tt)))

fill_packets-receive_all_example :
    (t : Stream) × (u : Stream) × (receive_all owner sent_arrivals reader ≡ ok (tt, t))
    × (read_some 4000 t
        ≡ ok (take 4000 (queue_bytes reader.receive_queue ++ sender.send_buffer), u))
unfolding new_stream
fill_packets-receive_all_example =
    fill_packets-receive_all owner owner 3 4000 sender reader sent_arrivals refl sender-MaySend
      (omega (arith, length-replicate {A = ℕ} 2000 7))
      (record { last = refl; saved = refl; queued = tt }) sent-AreFrom sent-come

-- The SYN comes again after two parts.
abbrev two_parts : Stream
two_parts = record fresh {
  last_received = 1;
  status = opened;
  receive_queue = record syn { offset = 22 } ∷ record second { offset = 22 } ∷ [];
}

handle_next_packet-syn_example :
    (t : Stream) × (handle_next_packet owner 9 syn two_parts ≡ ok (tt, t))
    × (queue_bytes t.receive_queue ≡ queue_bytes two_parts.receive_queue ++ 10 ∷ 11 ∷ [])
    × (t.last_received ≡ 0)
unfolding get_seqn new_stream
handle_next_packet-syn_example =
    handle_next_packet-syn owner 9 syn (10 ∷ 11 ∷ []) two_parts syn-IsPart refl
      (
        record { start = omega arith; within = omega arith; small = omega arith },
        (record { start = omega arith; within = omega arith; small = omega arith }, tt),
      )
      refl

-- Options of 200 bytes in a packet of 24, on a stream that waits for number 1.
abbrev short : Packet
short = record {
  buf =
      (0 ∷ 0 ∷ 0 ∷ 5 ∷ 0 ∷ 0 ∷ 0 ∷ 6 ∷ 0 ∷ 0 ∷ 0 ∷ 1 ∷ 0 ∷ 0 ∷ 0 ∷ 0 ∷ 0 ∷ 0 ∷ 4 ∷ 0 ∷ 0 ∷ 200 ∷ 1
        ∷ 2 ∷ [])
      ++ replicate 4072 0;
  len = 24;
  offset = 0;
  send_time = 0;
}

short-IsShort : IsShort owner short
unfolding is_syn get_seqn get_flags read_options get_payload
short-IsShort = record {
  plain = refl;
  options = λ i. (i, refl);
  not_syn = refl;
  short = omega arith;
  bound = omega arith;
}

read_some-fault_example :
    (t : Stream) × (handle_next_packet owner 9 short reader ≡ ok (tt, t))
    × (read_some 4097 t ≡ err fault)
unfolding get_seqn new_stream next_number
read_some-fault_example =
    read_some-fault owner 9 short 4097 reader short-IsShort refl refl refl refl
      (omega (arith, length-replicate {A = ℕ} 4072 0)) (omega arith)

abbrev resend_stream : Stream
resend_stream = record fresh { status = opened; sent_packets = second ∷ third ∷ [] }

fire-Ended_example : Ended (fire 7 owner 9000 resend_stream)
unfolding new_stream
fire-Ended_example = fire-Ended owner 9000 resend_stream refl (λ e. cc e) (omega arith)

-- Packets 0 and 1 have come, and 3 and 5.
abbrev receiver : Stream
receiver = record fresh {
  last_received = 1;
  saved_packets = packet 3 0 1 1 ∷ packet 5 0 1 1 ∷ [];
  status = opened;
}

abbrev waits : Stream
waits = record fresh {
  status = opened;
  sent_packets = second ∷ third ∷ packet 3 0 1 1 ∷ packet 4 0 1 1 ∷ packet 5 0 1 1 ∷ [];
}

receiver-HasReceived : HasReceived 2 receiver
unfolding get_seqn gaps
receiver-HasReceived = record {
  some_packet = omega arith;
  bound = omega arith;
  last = refl;
  saved = omega arith;
  few = omega arith;
}

waits-Ascending : Ascending 0 waits.sent_packets
unfolding get_seqn
waits-Ascending = omega arith

ack_loop-quick_ack_example :
    contains 4 (
      map get_seqn
        (ack_loop 7
          (get_ack_through (quick_ack receiver (last_seqn receiver)))
          (get_nacks (quick_ack receiver (last_seqn receiver)))
          waits.sent_packets
          waits).0)
    ≡ (contains 4 (map get_seqn waits.sent_packets)
        && not (ltb 4 2 || contains 4 (map get_seqn receiver.saved_packets)))
ack_loop-quick_ack_example =
    ack_loop-quick_ack 4 7 2 0 receiver waits receiver-HasReceived waits-Ascending

-- Packets 0 and 1 have come, and 300.
abbrev late : Packet
late = record {
  buf =
      0 ∷ 0 ∷ 0 ∷ 5 ∷ 0 ∷ 0 ∷ 0 ∷ 6 ∷ 0 ∷ 0 ∷ 1 ∷ 44 ∷ 0 ∷ 0 ∷ 0 ∷ 0 ∷ 0 ∷ 0 ∷ 4 ∷ 0 ∷ 0 ∷ 0 ∷ 1 ∷ 1
      ∷ [];
  len = 24;
  offset = 0;
  send_time = 0;
}

abbrev lacking : Stream
lacking = record fresh { last_received = 1; saved_packets = late ∷ []; status = opened }

lacking-MissesMany : MissesMany 2 lacking
unfolding get_seqn
lacking-MissesMany = record {
  some_packet = omega arith;
  bound = omega arith;
  last = refl;
  first = late;
  others = [];
  saved = refl;
  later = omega arith;
}

ack_loop-overrun_example :
    contains 2 (
      map get_seqn
        (ack_loop 7
          (get_ack_through (quick_ack lacking (last_seqn lacking)))
          (get_nacks (quick_ack lacking (last_seqn lacking)))
          waits.sent_packets
          waits).0)
    ≡ false
ack_loop-overrun_example = ack_loop-overrun 7 2 0 lacking waits lacking-MissesMany waits-Ascending

-- A SYN comes in, and the application sends two bytes; they are sent again once before it closes
-- the stream.
syn_comes :
    (t : Stream) × (handle_next_packet owner 5 syn fresh ≡ ok (tt, t))
    × (queue_bytes t.receive_queue ≡ 10 ∷ 11 ∷ [])
    × (t.last_received ≡ 0)
unfolding get_seqn new_stream queue_bytes
syn_comes = handle_next_packet-syn owner 5 syn (10 ∷ 11 ∷ []) fresh syn-IsPart refl tt refl

abbrev filled : Stream
filled = send_buffer_at owner 6 (async_send (1 ∷ 2 ∷ []) syn_comes.0)

abbrev ended : Stream
ended = close owner (handle_resend_timer false owner 20000 filled)

Steps-IsBounded_example : IsBounded ended
Steps-IsBounded_example = Steps-IsBounded owner 9 no_identity ended (
    more _ _ _ (packet_step 5 syn fresh syn_comes.0 syn_comes.1) (
      more _ _ _ (async_send_step (1 ∷ 2 ∷ []) syn_comes.0) (
        more _ _ _ (buffer_step 6 _)
          (more _ _ _ (resend_step false 20000 filled) (more _ _ _ (close_step _) (done ended))))))
