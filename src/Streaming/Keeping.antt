-- ===== src/Streaming/Keeping.antt =====
-- src/client/api/streaming.cc: what sending and closing leave alone.
use xi2p_old.Base.{
  ℕ, zero, suc, ◌≡◌, refl, ◌∙◌, List, [], ◌∷◌, true, false, Bool, if◌then◌else◌, ◌&&◌, not, length,
  ◌++◌, ◌-◌, ◌+◌,
}
use xi2p_old.ByteStream.{to_big}
use xi2p_old.Streaming.{
  Packet, Stream, StreamStatus, Event, is_negative, streaming_mtu, new, opened, reset, closing,
  closed, emit, Owner, is_established, delete_stream,
}
use xi2p_old.Streaming.Sending.{
  send_packets, terminate, send_close, leave, close_closing, close_at, close, send_quick_ack,
  read_buffer, first_packet, follow_packet, follow_packets, fill_packets, call_send_handler,
  is_empty, fill_at, quick_ack, last_seqn, first_front, buffer_head,
}

-- The members that decide what is received and the sent packets with their window are those of
-- another state.
pub record Kept (s t : Stream) : Type 0 where
  pub last : t.last_received ≡ s.last_received
  pub saved : t.saved_packets ≡ s.saved_packets
  pub queue : t.receive_queue ≡ s.receive_queue
  pub sent : t.sent_packets ≡ s.sent_packets
  pub window : t.window_size ≡ s.window_size
  pub attempts : t.num_resend_attempts ≡ s.num_resend_attempts

kept : {s : Stream} → Kept s s
kept = record {
  last = refl;
  saved = refl;
  queue = refl;
  sent = refl;
  window = refl;
  attempts = refl;
}

infixr 30 ◌then_kept◌
pub ◌then_kept◌ : {s t u : Stream} → Kept s t → Kept t u → Kept s u
a then_kept b = record {
  last = b.last ∙ a.last;
  saved = b.saved ∙ a.saved;
  queue = b.queue ∙ a.queue;
  sent = b.sent ∙ a.sent;
  window = b.window ∙ a.window;
  attempts = b.attempts ∙ a.attempts;
}

either-Kept : (b : Bool) {s t u : Stream} → Kept s t → Kept s u → Kept s (if b then t else u)
either-Kept true p q = p
either-Kept false p q = q

either_pair :
    {A : Type 0} (b : Bool) {s : Stream} (x y : A × Stream)
    → Kept s x.1
    → Kept s y.1
    → Kept s (if b then x else y).1
either_pair true x y p q = p
either_pair false x y p q = q

pub emit-Kept : (e : Event) (s : Stream) → Kept s (emit e s)
unfolding emit
emit-Kept e s = record {
  last = refl;
  saved = refl;
  queue = refl;
  sent = refl;
  window = refl;
  attempts = refl;
}

pub send_packets-Kept : (ps : List Packet) (s : Stream) → Kept s (send_packets ps s)
unfolding send_packets
send_packets-Kept ps s =
    either-Kept s.is_reachable
      (record {
        last = refl;
        saved = refl;
        queue = refl;
        sent = refl;
        window = refl;
        attempts = refl;
      })
      kept

leave-Kept : (s : Stream) → Kept s (leave s)
unfolding leave terminate emit
leave-Kept s =
    either-Kept s.has_handler
      (record {
        last = refl;
        saved = refl;
        queue = refl;
        sent = refl;
        window = refl;
        attempts = refl;
      })
      (record {
        last = refl;
        saved = refl;
        queue = refl;
        sent = refl;
        window = refl;
        attempts = refl;
      })
    then_kept emit-Kept delete_stream (terminate s)

pub send_close-Kept : (o : Owner) (s : Stream) → Kept s (send_close o s)
unfolding send_close
send_close-Kept o s = record {
  last = refl;
  saved = refl;
  queue = refl;
  sent = refl;
  window = refl;
  attempts = refl;
}

with_status : (k : StreamStatus) (s : Stream) → Kept s (record s { status = k })
with_status k s = record {
  last = refl;
  saved = refl;
  queue = refl;
  sent = refl;
  window = refl;
  attempts = refl;
}

close_closing-Kept : (o : Owner) (s : Stream) → Kept s (close_closing o s)
unfolding close_closing
close_closing-Kept o s =
    either-Kept (is_empty s.sent_packets && s.send_eof)
      (with_status closed s then_kept send_close-Kept o _ then_kept leave-Kept _) kept

close_at-Kept : (k : StreamStatus) (o : Owner) (s : Stream) → Kept s (close_at k o s)
unfolding close_at
close_at-Kept new o s = kept
close_at-Kept opened o s = with_status closing s then_kept close_closing-Kept o _
close_at-Kept reset o s = send_close-Kept o s then_kept leave-Kept _
close_at-Kept closing o s = close_closing-Kept o s
close_at-Kept closed o s = leave-Kept s

pub close-Kept : (o : Owner) (s : Stream) → Kept s (close o s)
unfolding close
close-Kept o s = close_at-Kept s.status o s

pub send_quick_ack-Kept : (s : Stream) → Kept s (send_quick_ack s)
unfolding send_quick_ack
send_quick_ack-Kept s =
    either-Kept (is_negative (last_seqn s)) kept
      (send_packets-Kept (quick_ack s (last_seqn s) ∷ []) s)

read_buffer-Kept : (n : ℕ) (s : Stream) → Kept s (read_buffer n s).1
unfolding read_buffer
read_buffer-Kept n s = either_pair s.send_eof _ _ kept (record {
  last = refl;
  saved = refl;
  queue = refl;
  sent = refl;
  window = refl;
  attempts = refl;
})

first_packet-Kept : (o : Owner) (s : Stream) → Kept s (first_packet o s).1
unfolding first_packet
first_packet-Kept o s =
    let r = read_buffer-Kept (streaming_mtu - (length (first_front o s) + o.signature_len)) s in
    record {
      last = r.last;
      saved = r.saved;
      queue = r.queue;
      sent = r.sent;
      window = r.window;
      attempts = r.attempts;
    }

follow_packet-Kept : (s : Stream) → Kept s (follow_packet s).1
unfolding follow_packet
follow_packet-Kept s =
    let r =
      read_buffer-Kept (streaming_mtu - length (buffer_head s ++ (to_big 2 0 ++ to_big 2 0))) s in
    record {
      last = r.last;
      saved = r.saved;
      queue = r.queue;
      sent = r.sent;
      window = r.window;
      attempts = r.attempts;
    }

follow_packets-Kept : (n : ℕ) (s : Stream) → Kept s (follow_packets n s).1
unfolding follow_packets
follow_packets-Kept zero s = kept
follow_packets-Kept (suc n) s =
    either_pair (is_established s && not s.send_eof) _ _
      (follow_packet-Kept s then_kept follow_packets-Kept n (follow_packet s).1) kept

fill_at-Kept : (k : StreamStatus) (o : Owner) (n : ℕ) (s : Stream) → Kept s (fill_at k o n s).1
unfolding fill_at
fill_at-Kept new o n s =
    first_packet-Kept o s then_kept follow_packets-Kept (n - 1) (first_packet o s).1
fill_at-Kept opened o n s = follow_packets-Kept n s
fill_at-Kept reset o n s = follow_packets-Kept n s
fill_at-Kept closing o n s = follow_packets-Kept n s
fill_at-Kept closed o n s = follow_packets-Kept n s

pub fill_packets-Kept : (o : Owner) (n : ℕ) (s : Stream) → Kept s (fill_packets o n s).1
unfolding fill_packets
fill_packets-Kept o n s = fill_at-Kept s.status o n s

pub call_send_handler-Kept : (s : Stream) → Kept s (call_send_handler s)
unfolding call_send_handler
call_send_handler-Kept s =
    either-Kept (s.send_eof && s.has_handler)
      (record {
        last = refl;
        saved = refl;
        queue = refl;
        sent = refl;
        window = refl;
        attempts = refl;
      })
      kept
