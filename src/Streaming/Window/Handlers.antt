-- ===== src/Streaming/Window/Handlers.antt =====
-- src/client/api/streaming.cc: the window of a stream when a packet comes in.
use mathlib.Core.Path.{subst}
use xi2p_old.Base.{
  ℕ, ◌+◌, ◌%◌, ◌^◌, ◌⊎◌, ◌≤◌, ◌≡◌, refl, true, false, Bool, Bool-cases, inl, inr, List, [], ◌∷◌,
  length, ltb, leb, ◌&&◌, ◌||◌, not, bit, ◌==◌, if◌then◌else◌, Result, Error, ok, err, Method, ◌>>◌,
  ◌>>=◌, arith,
}
use xi2p_old.Identity.{IdentityEx}
use xi2p_old.Streaming.{
  Packet, Stream, reset, Owner, emit, cancel_ack, cancel_resend, get_length, next_number, get_seqn,
  insert_packet, get_flags, get_ack_through, get_nacks, get_payload, is_syn, is_no_ack, is_negative,
  signed_le,
}
use xi2p_old.Streaming.Keeping.{emit-Kept, close-Kept, send_quick_ack-Kept}
use xi2p_old.Streaming.Sending.{close, send_buffer_at, is_open, is_closing, is_empty}
use xi2p_old.Streaming.Receiving.{
  grow_window, average_rtt, acknowledge, contains, ack_loop, after_ack, process_ack, enqueue,
  accept, process_packet, process_saved, schedule, answer, handle_in_sequence, save_packet,
  handle_sequenced, count_packet, handle_next_packet, read_options,
}
use xi2p_old.Streaming.Window.{
  IsBounded, either-IsBounded, Kept-IsBounded, same_bounds, send_buffer_at-IsBounded,
}

grow_window-IsBounded : (ts : ℕ) (s : Stream) → IsBounded s → IsBounded (grow_window ts s)
unfolding grow_window
grow_window-IsBounded ts s b = elim (Bool-cases (ltb s.window_size 6)) [
  | inl t ↦
      rw (t) (record {
        low = omega arith;
        high = ground (arith, t);
        sent = b.sent;
        attempts = b.attempts;
      })
  | inr f ↦ rw (f) (
      either-IsBounded (ltb ((s.last_window_size_increase_time + s.rtt) % 2 ^ 64) ts)
        (record {
          low = ground (arith, b.low);
          high = ground (arith, b.high);
          sent = b.sent;
          attempts = b.attempts;
        })
        b)
]

acknowledge-IsBounded :
    (ts : ℕ) (p : Packet) (s : Stream) → IsBounded s → IsBounded (acknowledge ts p s)
unfolding acknowledge average_rtt
acknowledge-IsBounded ts p s b =
    grow_window-IsBounded ts (average_rtt ts p s) (same_bounds b refl refl refl)

-- What the loop of ProcessAck leaves.
record Left (ps : List Packet) (x : List Packet × Bool × Stream) : Type 0 where
  fewer : length x.0 ≤ length ps
  bounded : IsBounded x.2

either-Left :
    (b : Bool) {ps : List Packet} (x y : List Packet × Bool × Stream)
    → Left ps x
    → Left ps y
    → Left ps (if b then x else y)
either-Left true x y p q = p
either-Left false x y p q = q

ack_loop-Left :
    (ts through : ℕ) (nacks : List ℕ) (ps : List Packet) (s : Stream)
    → IsBounded s
    → Left ps (ack_loop ts through nacks ps s)
unfolding ack_loop
ack_loop-Left ts through nacks [] s b = record { fewer = omega arith; bounded = b }
ack_loop-Left ts through nacks (p ∷ ps) s b =
    let nacked = contains (get_seqn p) nacks in
    let s' = if nacked then s else acknowledge ts p s in
    let l =
      ack_loop-Left ts through nacks ps s'
        (either-IsBounded nacked b (acknowledge-IsBounded ts p s b)) in
    either-Left (leb (get_seqn p) through) _ _
      (either-Left nacked _ _ (record { fewer = omega (arith, l.fewer); bounded = l.bounded })
        (record { fewer = omega (arith, l.fewer); bounded = l.bounded }))
      (record { fewer = omega arith; bounded = b })

after_ack-IsBounded :
    (o : Owner) (ts : ℕ) (a : Bool) (s : Stream) → IsBounded s → IsBounded (after_ack o ts a s)
unfolding after_ack
after_ack-IsBounded o ts a s b =
    let s1 = if is_empty s.sent_packets then emit cancel_resend s else s in
    let b1 : IsBounded s1 =
      either-IsBounded (is_empty s.sent_packets) (Kept-IsBounded (emit-Kept cancel_resend s) b) b in
    let reset_attempts : IsBounded (record s1 { num_resend_attempts = 0 }) = record {
      low = b1.low;
      high = b1.high;
      sent = b1.sent;
      attempts = omega arith;
    } in
    let s2 = if a then send_buffer_at o ts (record s1 { num_resend_attempts = 0 }) else s1 in
    let b2 : IsBounded s2 =
      either-IsBounded a
        (send_buffer_at-IsBounded o ts (record s1 { num_resend_attempts = 0 }) reset_attempts) b1 in
    either-IsBounded (is_closing s2.status) (Kept-IsBounded (close-Kept o s2) b2) b2

process_ack-IsBounded :
    (o : Owner) (ts : ℕ) (p : Packet) (s : Stream) → IsBounded s → IsBounded (process_ack o ts p s)
unfolding process_ack
process_ack-IsBounded o ts p s b =
    let r = ack_loop ts (get_ack_through p) (get_nacks p) s.sent_packets s in
    let l = ack_loop-Left ts (get_ack_through p) (get_nacks p) s.sent_packets s b in
    after_ack-IsBounded o ts r.1 (record r.2 { sent_packets = r.0 })
      (record {
        low = l.bounded.low;
        high = l.bounded.high;
        sent = omega (arith, l.fewer, b.sent);
        attempts = l.bounded.attempts;
      })

-- A handler that returns leaves a bounded stream.
unfoldable pub Returns : {A : Type 0} → Result (A × Stream) → Type 0
Returns (ok (x, s)) = IsBounded s
Returns (err e) = Unit

pub outcome : {A : Type 0} (r : Result A) → ((x : A) × (r ≡ ok x)) ⊎ ((e : Error) × (r ≡ err e))
outcome (ok x) = inl (x, refl)
outcome (err e) = inr (e, refl)

then-Returns :
    (m k : Method Stream (Unit {0})) (s : Stream)
    → Returns (m s)
    → ((t : Stream) → IsBounded t → Returns (k t))
    → Returns ((m >> k) s)
unfolding ◌>>◌ ◌>>=◌ Returns
then-Returns m k s h g = elim (outcome (m s)) [
  | inl ((x, t), e) ↦ rw (e, ◌>>=◌, Returns) (g t (subst Returns e h))
  | inr (e, q) ↦ rw (q, ◌>>=◌, Returns) tt
]

accept-IsBounded :
    (o : Owner) (p : Packet) (right : Bool) (s : Stream)
    → IsBounded s
    → IsBounded (accept o p right s)
unfolding accept enqueue emit
accept-IsBounded o p right s b =
    let s1 = if right then s else close o s in
    let b1 : IsBounded s1 = either-IsBounded right b (Kept-IsBounded (close-Kept o s) b) in
    let q : Packet = record p { offset = get_payload p } in
    let s2 : Stream = record (enqueue q s1) { last_received = get_seqn p } in
    let b0 : IsBounded (enqueue q s1) =
      either-IsBounded (get_length q == 0) b1 (same_bounds b1 refl refl refl) in
    let b2 : IsBounded s2 = same_bounds b0 refl refl refl in
    either-IsBounded (not right || (bit 1 (get_flags p) || bit 2 (get_flags p)))
      (Kept-IsBounded (close-Kept o (record s2 { status = reset })) (same_bounds b2 refl refl refl))
      b2

process_packet_ok :
    (o : Owner) (p : Packet) (s : Stream) (remote : IdentityEx) (right : Bool)
    → read_options o p s.remote_identity ≡ ok (remote, right)
    → process_packet o p s ≡ ok (tt, accept o p right (record s { remote_identity = remote }))
unfolding process_packet
process_packet_ok o p s remote right e = rw (e, process_packet) refl

process_packet_err :
    (o : Owner) (p : Packet) (s : Stream) (x : Error)
    → read_options o p s.remote_identity ≡ err x
    → process_packet o p s ≡ err x
unfolding process_packet
process_packet_err o p s x e = rw (e, process_packet) refl

process_packet-Returns :
    (o : Owner) (p : Packet) (s : Stream) → IsBounded s → Returns (process_packet o p s)
unfolding Returns
process_packet-Returns o p s b = elim (outcome (read_options o p s.remote_identity)) [
  | inl ((remote, right), e) ↦ rw (process_packet_ok o p s remote right e) (
      accept-IsBounded o p right (record s { remote_identity = remote })
        (same_bounds b refl refl refl))
  | inr (x, e) ↦ rw (process_packet_err o p s x e) tt
]

either-Returns :
    (b : Bool) (x y : Result (Unit {0} × Stream))
    → Returns x
    → Returns y
    → Returns (if b then x else y)
either-Returns true x y p q = p
either-Returns false x y p q = q

process_saved-Returns :
    (o : Owner) (ps : List Packet) (s : Stream) → IsBounded s → Returns (process_saved o ps s)
unfolding process_saved Returns
process_saved-Returns o [] s b = b
process_saved-Returns o (p ∷ ps) s b =
    either-Returns (get_seqn p == next_number s.last_received) _ _
      (then-Returns (process_packet o p) (process_saved o ps) (record s { saved_packets = ps })
        (process_packet-Returns o p (record s { saved_packets = ps })
          (same_bounds b refl refl refl))
        (process_saved-Returns o ps))
      b

answer-IsBounded :
    (o : Owner) (ts : ℕ) (syn : Bool) (s : Stream) → IsBounded s → IsBounded (answer o ts syn s)
unfolding answer schedule emit
answer-IsBounded o ts syn s b =
    either-IsBounded (is_open s.status)
      (either-IsBounded s.is_ack_send_scheduled b (same_bounds b refl refl refl))
      (either-IsBounded syn (send_buffer_at-IsBounded o ts s b) b)

handle_in_sequence-Returns :
    (o : Owner) (ts : ℕ) (p : Packet) (s : Stream)
    → IsBounded s
    → Returns (handle_in_sequence o ts p s)
unfolding handle_in_sequence Returns
handle_in_sequence-Returns o ts p s b =
    then-Returns (process_packet o p >> (λ s. process_saved o s.saved_packets s))
      (λ s. ok (tt, answer o ts (is_syn p) s)) s
      (then-Returns (process_packet o p) (λ s. process_saved o s.saved_packets s) s
        (process_packet-Returns o p s b) (λ t c. process_saved-Returns o t.saved_packets t c))
      (λ t c. answer-IsBounded o ts (is_syn p) t c)

save_packet-IsBounded : (p : Packet) (s : Stream) → IsBounded s → IsBounded (save_packet p s)
unfolding save_packet schedule emit
save_packet-IsBounded p s b =
    let s1 : Stream = record s { saved_packets = insert_packet p s.saved_packets } in
    let s2 =
      if s.is_ack_send_scheduled
      then emit cancel_ack (record s1 { is_ack_send_scheduled = false })
      else s1 in
    let b1 : IsBounded s1 = same_bounds b refl refl refl in
    let b2 : IsBounded s2 =
      either-IsBounded s.is_ack_send_scheduled (same_bounds b1 refl refl refl) b1 in
    either-IsBounded (is_negative s.last_received) (same_bounds b1 refl refl refl)
      (Kept-IsBounded (send_quick_ack-Kept s2) b2)

handle_sequenced-Returns :
    (o : Owner) (ts : ℕ) (p : Packet) (s : Stream)
    → IsBounded s
    → Returns (handle_sequenced o ts p s)
unfolding handle_sequenced Returns
handle_sequenced-Returns o ts p s b = either-Returns (get_seqn p == 0 && not (is_syn p)) _ _ b (
    either-Returns (is_syn p || get_seqn p == next_number s.last_received) _ _
      (handle_in_sequence-Returns o ts p s b)
      (either-Returns (signed_le (get_seqn p) s.last_received) _ _
        (Kept-IsBounded (send_quick_ack-Kept s) b) (save_packet-IsBounded p s b)))

pub handle_next_packet-Returns :
    (o : Owner) (ts : ℕ) (p : Packet) (s : Stream)
    → IsBounded s
    → Returns (handle_next_packet o ts p s)
unfolding handle_next_packet count_packet Returns
handle_next_packet-Returns o ts p s b =
    let s1 = count_packet p s in
    let b1 : IsBounded s1 = same_bounds b refl refl refl in
    handle_sequenced-Returns o ts p (if is_no_ack p then s1 else process_ack o ts p s1)
      (either-IsBounded (is_no_ack p) b1 (process_ack-IsBounded o ts p s1 b1))
