-- ===== src/Streaming/Frames.antt =====
-- src/client/api/streaming.cc: what sending and acknowledging leave alone.
use xi2p_old.Base.{
  ℕ, ◌≡◌, refl, sym, ◌∙◌, List, [], ◌∷◌, true, false, arith, Bool, if◌then◌else◌, ◌&&◌, length, ◌-◌,
  leb,
}
use xi2p_old.Streaming.{
  Packet, Stream, cancel_ack, cancel_resend, get_seqn, get_ack_through, get_nacks, emit, Owner,
}
use xi2p_old.Streaming.Sending.{
  send_packets, send_quick_ack, fill_packets, send_filled, call_send_handler, send_buffer_at,
  is_closing, is_empty, is_open, insert_all,
}
use xi2p_old.Streaming.Keeping.{
  Kept, send_packets-Kept, send_close-Kept, close-Kept, fill_packets-Kept, call_send_handler-Kept,
  send_quick_ack-Kept,
}
use xi2p_old.Streaming.Receiving.{
  grow_window, acknowledge, average_rtt, contains, ack_loop, after_ack, process_ack, schedule,
  answer,
}

-- The members that decide what is received are those of another state.
pub record Same (s t : Stream) : Type 0 where
  pub last : t.last_received ≡ s.last_received
  pub saved : t.saved_packets ≡ s.saved_packets
  pub queue : t.receive_queue ≡ s.receive_queue

pub same : {s : Stream} → Same s s
same = record { last = refl; saved = refl; queue = refl }

infixr 30 ◌then_same◌
pub ◌then_same◌ : {s t u : Stream} → Same s t → Same t u → Same s u
a then_same b = record {
  last = b.last ∙ a.last;
  saved = b.saved ∙ a.saved;
  queue = b.queue ∙ a.queue;
}

pub either : (b : Bool) {s t u : Stream} → Same s t → Same s u → Same s (if b then t else u)
either true p q = p
either false p q = q

after :
    {s t u : Stream}
    → t.last_received ≡ u.last_received
    → t.saved_packets ≡ u.saved_packets
    → t.receive_queue ≡ u.receive_queue
    → Same s t
    → Same s u
after l v q p = record { last = sym l ∙ p.last; saved = sym v ∙ p.saved; queue = sym q ∙ p.queue }

Kept-Same : {s t : Stream} → Kept s t → Same s t
Kept-Same k = record { last = k.last; saved = k.saved; queue = k.queue }

send_filled-Same :
    (o : Owner) (ts : ℕ) (ps : List Packet) (s : Stream) → Same s (send_filled o ts ps s)
unfolding send_filled
send_filled-Same o ts [] s = same
send_filled-Same o ts (p ∷ ps) s =
    let s1 = emit cancel_ack (record s {
      is_ack_send_scheduled = false;
      sent_packets = insert_all ts (p ∷ ps) s.sent_packets;
    }) in
    let s2 = send_packets (p ∷ ps) s1 in
    let start : Same s s1 = record { last = refl; saved = refl; queue = refl } in
    let sent = start then_same Kept-Same (send_packets-Kept (p ∷ ps) s1) in
    let ended =
      either (is_closing s2.status && s2.send_eof) (sent then_same Kept-Same (send_close-Kept o s2))
        sent in
    either (is_empty s.sent_packets)
      (ended then_same record { last = refl; saved = refl; queue = refl }) ended

pub send_buffer_at-Same : (o : Owner) (ts : ℕ) (s : Stream) → Same s (send_buffer_at o ts s)
unfolding send_buffer_at
send_buffer_at-Same o ts s =
    let n = s.window_size - length s.sent_packets in
    either (leb s.window_size (length s.sent_packets)) same (
      Kept-Same (fill_packets-Kept o n s)
      then_same Kept-Same (call_send_handler-Kept (fill_packets o n s).1)
      then_same send_filled-Same o ts (fill_packets o n s).0
          (call_send_handler (fill_packets o n s).1))

grow_window-Same : (ts : ℕ) (s : Stream) → Same s (grow_window ts s)
unfolding grow_window
grow_window-Same ts s = record { last = ground arith; saved = ground arith; queue = ground arith }

acknowledge-Same : (ts : ℕ) (p : Packet) (s : Stream) → Same s (acknowledge ts p s)
unfolding acknowledge average_rtt
acknowledge-Same ts p s =
    let averaged : Same s (average_rtt ts p s) = record {
      last = refl;
      saved = refl;
      queue = refl;
    } in
    averaged then_same grow_window-Same ts (average_rtt ts p s)

either_loop :
    (b : Bool) {s : Stream} (x y : List Packet × Bool × Stream)
    → Same s x.2
    → Same s y.2
    → Same s (if b then x else y).2
either_loop true x y p q = p
either_loop false x y p q = q

ack_loop-Same :
    (ts through : ℕ) (nacks : List ℕ) (ps : List Packet) (s : Stream)
    → Same s (ack_loop ts through nacks ps s).2
unfolding ack_loop
ack_loop-Same ts through nacks [] s = same
ack_loop-Same ts through nacks (p ∷ ps) s =
    let nacked = contains (get_seqn p) nacks in
    let s' = if nacked then s else acknowledge ts p s in
    let step =
      either nacked same (acknowledge-Same ts p s) then_same ack_loop-Same ts through nacks ps s' in
    either_loop (leb (get_seqn p) through) _ _ (either_loop nacked _ _ step step) same

after_ack-Same : (o : Owner) (ts : ℕ) (b : Bool) (s : Stream) → Same s (after_ack o ts b s)
unfolding after_ack
after_ack-Same o ts b s =
    let s1 = if is_empty s.sent_packets then emit cancel_resend s else s in
    let first =
      either (is_empty s.sent_packets) (record { last = refl; saved = refl; queue = refl }) same in
    let s2 = if b then send_buffer_at o ts (record s1 { num_resend_attempts = 0 }) else s1 in
    let second : Same s s2 =
      either b
        (first
          then_same record { last = refl; saved = refl; queue = refl }
          then_same send_buffer_at-Same o ts (record s1 { num_resend_attempts = 0 }))
        first in
    either (is_closing s2.status) (second then_same Kept-Same (close-Kept o s2)) second

pub process_ack-Same :
    (o : Owner) (ts : ℕ) (p : Packet) (s : Stream) → Same s (process_ack o ts p s)
unfolding process_ack
process_ack-Same o ts p s =
    let r = ack_loop ts (get_ack_through p) (get_nacks p) s.sent_packets s in
    ack_loop-Same ts (get_ack_through p) (get_nacks p) s.sent_packets s
    then_same record { last = refl; saved = refl; queue = refl }
    then_same after_ack-Same o ts r.1 (record r.2 { sent_packets = r.0 })

pub send_quick_ack-Same : (s : Stream) → Same s (send_quick_ack s)
send_quick_ack-Same s = Kept-Same (send_quick_ack-Kept s)

pub schedule-Same : (s : Stream) → Same s (schedule s)
unfolding schedule
schedule-Same s = record { last = refl; saved = refl; queue = refl }

pub answer-Same : (o : Owner) (ts : ℕ) (b : Bool) (s : Stream) → Same s (answer o ts b s)
unfolding answer
answer-Same o ts b s =
    either (is_open s.status) (either s.is_ack_send_scheduled same (schedule-Same s))
      (either b (send_buffer_at-Same o ts s) same)
