-- ===== src/Streaming/Window.antt =====
-- src/client/api/streaming.cc: the window of a stream, and what SendBuffer sends into it.
pub mod Handlers
pub mod Runs
use mathlib.Core.Path.{subst}
use xi2p_old.Base.{
  ℕ, zero, suc, ◌+◌, ◌-◌, ◌/◌, ◌≤◌, ◌<◌, ◌≡◌, refl, sym, true, false, Bool, Bool-cases, inl, inr,
  List, [], ◌∷◌, ◌++◌, length, ltb, leb, ◌&&◌, ◌||◌, not, bit, ◌==◌, if◌then◌else◌, Result, ok, err,
  Method, ◌>>◌, arith,
}
use xi2p_old.Identity.{IdentityEx}
use xi2p_old.Streaming.{
  Packet, Event, Stream, StreamStatus, new, opened, reset, closing, closed, Owner, emit, cancel_ack,
  cancel_resend, get_seqn, insert_packet, get_flags, get_ack_through, get_nacks, get_payload,
  is_syn, is_no_ack, is_established, min_window_size, max_window_size, max_num_resend_attempts,
  new_stream, schedule_resend, pick_lease, pick_tunnel, is_negative,
}
use xi2p_old.Streaming.Keeping.{
  Kept, ◌then_kept◌, emit-Kept, send_packets-Kept, send_close-Kept, close-Kept, send_quick_ack-Kept,
  fill_packets-Kept, call_send_handler-Kept,
}
use xi2p_old.Streaming.Sending.{
  send_packets, send_close, close, send_quick_ack, follow_packets, follow_packet, first_packet,
  fill_at, fill_packets, insert_all, send_filled, call_send_handler, send_buffer_at, send_packet,
  is_open, is_closing, is_empty, send, async_send,
}
use xi2p_old.Streaming.Receiving.{
  grow_window, average_rtt, acknowledge, contains, ack_loop, after_ack, process_ack, enqueue,
  accept, process_packet, process_saved, schedule, answer, handle_in_sequence, save_packet,
  handle_sequenced, count_packet, handle_next_packet, read_some, read_options,
}
use xi2p_old.Streaming.Timers.{
  is_due, renewed, due_packets, try_other, resend, handle_resend_timer, handle_ack_send_timer,
}

-- The window has 1 to 128 packets, at most 128 are sent and not acknowledged, and no more than six
-- attempts to resend are counted.
pub record IsBounded (s : Stream) : Type 0 where
  pub low : 1 ≤ s.window_size
  pub high : s.window_size ≤ 128
  pub sent : length s.sent_packets ≤ 128
  pub attempts : s.num_resend_attempts ≤ 6

pub either-IsBounded :
    (b : Bool) {s t : Stream} → IsBounded s → IsBounded t → IsBounded (if b then s else t)
either-IsBounded true p q = p
either-IsBounded false p q = q

pub Kept-IsBounded : {s t : Stream} → Kept s t → IsBounded s → IsBounded t
Kept-IsBounded k b = record {
  low = rw (k.window) b.low;
  high = rw (k.window) b.high;
  sent = rw (k.sent) b.sent;
  attempts = rw (k.attempts) b.attempts;
}

-- The members are those of a state that is bounded.
pub same_bounds :
    {s t : Stream}
    → IsBounded s
    → s.window_size ≡ t.window_size
    → s.sent_packets ≡ t.sent_packets
    → s.num_resend_attempts ≡ t.num_resend_attempts
    → IsBounded t
same_bounds b w p n = record {
  low = rw (sym w) b.low;
  high = rw (sym w) b.high;
  sent = rw (sym p) b.sent;
  attempts = rw (sym n) b.attempts;
}

-- What the loop of SendBuffer fills fits the window.
length-follow_packets : (n : ℕ) (s : Stream) → length (follow_packets n s).0 ≤ n
unfolding follow_packets
length-follow_packets zero s = omega arith
length-follow_packets (suc n) s = elim (Bool-cases (is_established s && not s.send_eof)) [
  | inl t ↦ rw (t) (omega (arith, length-follow_packets n (follow_packet s).1))
  | inr f ↦ rw (f) (omega arith)
]

length-fill_at :
    (k : StreamStatus) (o : Owner) (n : ℕ) (s : Stream) → 1 ≤ n → length (fill_at k o n s).0 ≤ n
unfolding fill_at
length-fill_at new o n s h = omega (arith, length-follow_packets (n - 1) (first_packet o s).1)
length-fill_at opened o n s h = length-follow_packets n s
length-fill_at reset o n s h = length-follow_packets n s
length-fill_at closing o n s h = length-follow_packets n s
length-fill_at closed o n s h = length-follow_packets n s

length-fill_packets : (o : Owner) (n : ℕ) (s : Stream) → 1 ≤ n → length (fill_packets o n s).0 ≤ n
unfolding fill_packets
length-fill_packets o n s h = length-fill_at s.status o n s h

pub length-insert_packet :
    (p : Packet) (ps : List Packet) → length (insert_packet p ps) ≤ suc (length ps)
unfolding insert_packet
length-insert_packet p [] = omega arith
length-insert_packet p (q ∷ qs) = elim (Bool-cases (ltb (get_seqn p) (get_seqn q))) [
  | inl t ↦ rw (t) (omega arith)
  | inr f ↦ elim (Bool-cases (get_seqn p == get_seqn q)) [
    | inl t ↦ rw (f, t) (omega arith)
    | inr g ↦ rw (f, g) (omega (arith, length-insert_packet p qs))
  ]
]

length-insert_all :
    (ts : ℕ) (ps sent : List Packet) → length (insert_all ts ps sent) ≤ length ps + length sent
unfolding insert_all
length-insert_all ts [] sent = omega arith
length-insert_all ts (p ∷ ps) sent =
    let q = record p { send_time = ts } in
    omega (arith, length-insert_all ts ps (insert_packet q sent), length-insert_packet q sent)

send_filled-IsBounded :
    (o : Owner) (ts : ℕ) (ps : List Packet) (s : Stream)
    → IsBounded s
    → length ps + length s.sent_packets ≤ 128
    → IsBounded (send_filled o ts ps s)
unfolding send_filled
send_filled-IsBounded o ts [] s b h = b
send_filled-IsBounded o ts (p ∷ ps) s b h =
    let s0 = record s {
      is_ack_send_scheduled = false;
      sent_packets = insert_all ts (p ∷ ps) s.sent_packets;
    } in
    let s1 = emit cancel_ack s0 in
    let s2 = send_packets (p ∷ ps) s1 in
    let s3 = if is_closing s2.status && s2.send_eof then send_close o s2 else s2 in
    let b0 : IsBounded s0 = record {
      low = b.low;
      high = b.high;
      sent = omega (arith, length-insert_all ts (p ∷ ps) s.sent_packets);
      attempts = b.attempts;
    } in
    let b2 : IsBounded s2 =
      Kept-IsBounded (emit-Kept cancel_ack s0 then_kept send_packets-Kept (p ∷ ps) s1) b0 in
    let b3 : IsBounded s3 =
      either-IsBounded (is_closing s2.status && s2.send_eof)
        (Kept-IsBounded (send_close-Kept o s2) b2) b2 in
    either-IsBounded (is_empty s.sent_packets)
      (Kept-IsBounded (emit-Kept (schedule_resend s3.rto) s3) b3) b3

pub send_buffer_at-IsBounded :
    (o : Owner) (ts : ℕ) (s : Stream) → IsBounded s → IsBounded (send_buffer_at o ts s)
unfolding send_buffer_at
send_buffer_at-IsBounded o ts s b = elim (Bool-cases (leb s.window_size (length s.sent_packets))) [
  | inl full ↦ rw (full) b
  | inr room ↦
      let n = s.window_size - length s.sent_packets in
      let f = fill_packets o n s in
      let k = fill_packets-Kept o n s then_kept call_send_handler-Kept f.1 in
      let h = length-fill_packets o n s (ground arith) in
      rw (room) (
        send_filled-IsBounded o ts f.0 (call_send_handler f.1) (Kept-IsBounded k b)
          (rw (k.sent) (omega (arith, b.high, b.sent, h))))
]
