-- ===== src/Streaming/Window/Runs.antt =====
-- src/client/api/streaming.cc: the operations of a stream as steps, and its window after them.
use mathlib.Core.Path.{subst}
use xi2p_old.Base.{
  ℕ, zero, suc, ◌<◌, ◌≡◌, refl, ap, ◌*◌, true, false, Bool, Bool-cases, inl, inr, List, [], ◌∷◌,
  length, leb, if◌then◌else◌, Error, ok, err, arith,
}
use xi2p_old.Identity.{IdentityEx}
use xi2p_old.Streaming.{
  Packet, Stream, reset, Owner, emit, cancel_ack, new_stream, schedule_resend, is_negative,
}
use xi2p_old.Streaming.Keeping.{emit-Kept, send_packets-Kept, close-Kept, send_quick_ack-Kept}
use xi2p_old.Streaming.Sending.{
  close, send_quick_ack, send_buffer_at, send_packet, is_open, send, async_send,
}
use xi2p_old.Streaming.Receiving.{handle_next_packet, read_some, concatenate}
use xi2p_old.Streaming.Timers.{
  renewed, due_packets, try_other, resend, handle_resend_timer, handle_ack_send_timer,
}
use xi2p_old.Streaming.Parts.{read_some_lem}
use xi2p_old.Streaming.Window.{
  IsBounded, either-IsBounded, Kept-IsBounded, same_bounds, send_buffer_at-IsBounded,
}
use xi2p_old.Streaming.Window.Handlers.{Returns, outcome, handle_next_packet-Returns}

try_other-IsBounded : (n : ℕ) (s : Stream) → IsBounded s → IsBounded (try_other n s)
unfolding try_other emit
try_other-IsBounded zero s b = b
try_other-IsBounded (suc zero) s b = record {
  low = ground arith;
  high = ground (arith, b.high);
  sent = b.sent;
  attempts = b.attempts;
}
try_other-IsBounded (suc (suc zero)) s b = same_bounds b refl refl refl
try_other-IsBounded (suc (suc (suc zero))) s b = same_bounds b refl refl refl
try_other-IsBounded (suc (suc (suc (suc zero)))) s b = same_bounds b refl refl refl
try_other-IsBounded (suc (suc (suc (suc (suc n))))) s b = b

resend-IsBounded :
    (ps : List Packet) (s : Stream)
    → IsBounded s
    → s.num_resend_attempts < 6
    → IsBounded (resend ps s)
unfolding resend
resend-IsBounded [] s b h = b
resend-IsBounded (p ∷ ps) s b h =
    let n = suc s.num_resend_attempts in
    let s1 : Stream = record s { num_resend_attempts = n; rto = s.rto * 2 } in
    Kept-IsBounded (send_packets-Kept (p ∷ ps) (try_other n s1)) (
      try_other-IsBounded n s1
        (record { low = b.low; high = b.high; sent = b.sent; attempts = omega (arith, h) }))

length-renewed : (ts rto : ℕ) (ps : List Packet) → length (renewed ts rto ps) ≡ length ps
unfolding renewed
length-renewed ts rto [] = refl
length-renewed ts rto (p ∷ ps) = ap suc (length-renewed ts rto ps)

handle_resend_timer-IsBounded :
    (aborted : Bool) (o : Owner) (ts : ℕ) (s : Stream)
    → IsBounded s
    → IsBounded (handle_resend_timer aborted o ts s)
unfolding handle_resend_timer
handle_resend_timer-IsBounded true o ts s b = b
handle_resend_timer-IsBounded false o ts s b = elim (Bool-cases (leb 6 s.num_resend_attempts)) [
  | inl t ↦
      rw (t)
        (Kept-IsBounded (close-Kept o (record s { status = reset })) (same_bounds b refl refl refl))
  | inr f ↦
      let s1 : Stream = record s { sent_packets = renewed ts s.rto s.sent_packets } in
      let b1 : IsBounded s1 = record {
        low = b.low;
        high = b.high;
        sent = rw (length-renewed ts s.rto s.sent_packets) b.sent;
        attempts = b.attempts;
      } in
      let s2 = resend (due_packets ts s.rto s.sent_packets) s1 in
      let b2 : IsBounded s2 =
        resend-IsBounded (due_packets ts s.rto s.sent_packets) s1 b1 (ground (arith, f)) in
      rw (f) (Kept-IsBounded (emit-Kept (schedule_resend s2.rto) s2) b2)
]

handle_ack_send_timer-IsBounded :
    (o : Owner) (s : Stream) → IsBounded s → IsBounded (handle_ack_send_timer o s)
unfolding handle_ack_send_timer
handle_ack_send_timer-IsBounded o s b =
    let t = if is_open s.status then send_quick_ack s else s in
    let c : IsBounded t =
      either-IsBounded (is_open s.status) (Kept-IsBounded (send_quick_ack-Kept s) b) b in
    either-IsBounded s.is_ack_send_scheduled
      (either-IsBounded (is_negative s.last_received)
        (Kept-IsBounded (close-Kept o (record s { status = reset })) (same_bounds b refl refl refl))
        (same_bounds c refl refl refl))
      b

send_packet-IsBounded :
    (p : Packet) (s : Stream) → is_open s.status ≡ false → IsBounded s → IsBounded (send_packet p s)
unfolding send_packet
send_packet-IsBounded p s f b =
    let s0 : Stream = record s { is_ack_send_scheduled = false } in
    let s1 = if s.is_ack_send_scheduled then emit cancel_ack s0 else s in
    let b0 : IsBounded s0 = same_bounds b refl refl refl in
    let b1 : IsBounded s1 =
      either-IsBounded s.is_ack_send_scheduled (Kept-IsBounded (emit-Kept cancel_ack s0) b0) b in
    rw (f) (Kept-IsBounded (send_packets-Kept (p ∷ []) s1) b1)

send-IsBounded : (bytes : List ℕ) (s : Stream) → IsBounded s → IsBounded (send bytes s)
unfolding send
send-IsBounded [] s b = b
send-IsBounded (x ∷ bytes) s b = same_bounds b refl refl refl

async_send-IsBounded : (bytes : List ℕ) (s : Stream) → IsBounded s → IsBounded (async_send bytes s)
unfolding async_send emit
async_send-IsBounded bytes s b =
    send-IsBounded bytes _
      (either-IsBounded s.has_handler (same_bounds b refl refl refl) (same_bounds b refl refl refl))

read_some_err :
    (n : ℕ) (s : Stream) (x : Error) → concatenate n s.receive_queue ≡ err x → read_some n s ≡ err x
unfolding read_some
read_some_err n s x e = rw (e, read_some) refl

read_some-Returns : (n : ℕ) (s : Stream) → IsBounded s → Returns (read_some n s)
unfolding Returns
read_some-Returns n s b = elim (outcome (concatenate n s.receive_queue)) [
  | inl ((bytes, rest), e) ↦ rw (read_some_lem n s e) (same_bounds b refl refl refl)
  | inr (x, e) ↦ rw (read_some_err n s x e) tt
]

-- One operation of a stream: a packet that comes in, a call of the application, a posted call of
-- SendBuffer, a packet that SendClose has posted, which it does on a stream that is not open, a
-- timer that fires, or a change of what SendPackets finds.
pub data Step (o : Owner) : Stream → Stream → Type 0 where
  packet_step :
      (ts : ℕ) (p : Packet) (s t : Stream) → handle_next_packet o ts p s ≡ ok (tt, t) → Step o s t
  read_step : (n : ℕ) (bytes : List ℕ) (s t : Stream) → read_some n s ≡ ok (bytes, t) → Step o s t
  send_step : (bytes : List ℕ) (s : Stream) → Step o s (send bytes s)
  async_send_step : (bytes : List ℕ) (s : Stream) → Step o s (async_send bytes s)
  buffer_step : (ts : ℕ) (s : Stream) → Step o s (send_buffer_at o ts s)
  post_step : (p : Packet) (s : Stream) → is_open s.status ≡ false → Step o s (send_packet p s)
  close_step : (s : Stream) → Step o s (close o s)
  resend_step :
      (aborted : Bool) (ts : ℕ) (s : Stream) → Step o s (handle_resend_timer aborted o ts s)
  ack_step : (s : Stream) → Step o s (handle_ack_send_timer o s)
  tunnels_step : (found : Bool) (s : Stream) → Step o s (record s { is_reachable = found })

pub data Steps (o : Owner) : Stream → Stream → Type 0 where
  done : (s : Stream) → Steps o s s
  more : (s t u : Stream) → Step o s t → Steps o t u → Steps o s u

Step-IsBounded : (o : Owner) (s t : Stream) → Step o s t → IsBounded s → IsBounded t
unfolding Returns
Step-IsBounded o s t (packet_step ts p _ _ e) b =
    subst Returns e (handle_next_packet-Returns o ts p s b)
Step-IsBounded o s t (read_step n bytes _ _ e) b = subst Returns e (read_some-Returns n s b)
Step-IsBounded o s _ (send_step bytes _) b = send-IsBounded bytes s b
Step-IsBounded o s _ (async_send_step bytes _) b = async_send-IsBounded bytes s b
Step-IsBounded o s _ (buffer_step ts _) b = send_buffer_at-IsBounded o ts s b
Step-IsBounded o s _ (post_step p _ f) b = send_packet-IsBounded p s f b
Step-IsBounded o s _ (close_step _) b = Kept-IsBounded (close-Kept o s) b
Step-IsBounded o s _ (resend_step aborted ts _) b = handle_resend_timer-IsBounded aborted o ts s b
Step-IsBounded o s _ (ack_step _) b = handle_ack_send_timer-IsBounded o s b
Step-IsBounded o s _ (tunnels_step found _) b = same_bounds b refl refl refl

Steps-IsBounded_from : (o : Owner) (s t : Stream) → Steps o s t → IsBounded s → IsBounded t
Steps-IsBounded_from o s _ (done _) b = b
Steps-IsBounded_from o s u (more _ t _ x xs) b =
    Steps-IsBounded_from o t u xs (Step-IsBounded o s t x b)

-- After any sequence of operations on a new stream its window has 1 to 128 packets, at most 128
-- packets are sent and not acknowledged, and at most six attempts to resend are counted.
pub Steps-IsBounded :
    (o : Owner) (id : ℕ) (identity : IdentityEx) (t : Stream)
    → Steps o (new_stream id identity) t
    → IsBounded t
unfolding new_stream
Steps-IsBounded o id identity t xs =
    Steps-IsBounded_from o (new_stream id identity) t xs
      (record { low = omega arith; high = omega arith; sent = omega arith; attempts = omega arith })
