-- ===== src/Streaming/Faults.antt =====
-- src/client/api/streaming.cc: a SYN that comes again, and a payload that begins behind its packet.
use xi2p_old.Base.{
  ℕ, ◌+◌, ◌^◌, ◌≤◌, ◌<◌, ◌≡◌, refl, sym, ap, ◌∙◌, Bool, true, false, not, ◌&&◌, ◌||◌, ◌==◌, List,
  [], ◌∷◌, ◌++◌, length, All, ok, err, fault, arith, ltb, bit, min, if◌then◌else◌, Method, ◌>>◌,
}
use xi2p_old.Identity.{IdentityEx}
use xi2p_old.Streaming.{
  Packet, Stream, Owner, get_seqn, get_flags, get_payload, get_length, is_syn, is_no_ack,
  next_number, emit, cancel_receive,
}
use xi2p_old.Streaming.Receiving.{
  read_options, enqueue, accept, process_packet, process_saved, answer, handle_in_sequence,
  handle_sequenced, handle_next_packet, count_packet, process_ack, concatenate, read_some,
}
use xi2p_old.Streaming.Frames.{Same, process_ack-Same, answer-Same, either, ◌then_same◌}
use xi2p_old.Streaming.Parts.{queue_bytes, IsQueued, IsPart, process_packet-Accepts}
use xi2p_old.Streaming.Ordering.{then_ok}

-- The stream that HandleNextPacket passes on after it has counted the packet and its acknowledgements.
pub counted : Owner → ℕ → Packet → Stream → Stream
counted o ts p s = let s1 = count_packet p s in if is_no_ack p then s1 else process_ack o ts p s1

counted-Same : (o : Owner) (ts : ℕ) (p : Packet) (s : Stream) → Same s (counted o ts p s)
unfolding counted count_packet
counted-Same o ts p s =
    let first : Same s (count_packet p s) = record { last = refl; saved = refl; queue = refl } in
    either (is_no_ack p) first (first then_same process_ack-Same o ts p (count_packet p s))

and_false : (b : Bool) → (b && false) ≡ false
and_false true = refl
and_false false = refl

eq_test : (a b : ℕ) → a ≡ b → (a == b) ≡ true
eq_test a b e = ground arith

-- The branch for a packet in sequence, where no packets are saved.
in_sequence :
    (o : Owner) (ts : ℕ) (p : Packet) (s t : Stream)
    → (get_seqn p == 0 && not (is_syn p)) ≡ false
    → (is_syn p || get_seqn p == next_number (counted o ts p s).last_received) ≡ true
    → process_packet o p (counted o ts p s) ≡ ok (tt, t)
    → t.saved_packets ≡ []
    → handle_next_packet o ts p s ≡ ok (tt, answer o ts (is_syn p) t)
unfolding handle_next_packet handle_sequenced handle_in_sequence counted process_saved
in_sequence o ts p s t f g r e =
    let c = counted o ts p s in
    let done : Method Stream (Unit {0}) = λ x. ok (tt, answer o ts (is_syn p) x) in
    let loop : Method Stream (Unit {0}) = λ x. process_saved o x.saved_packets x in
    rw (f, g, handle_sequenced)
      (then_ok (process_packet o p >> loop) done c t
        (then_ok (process_packet o p) loop c t r ∙ ap (λ l. process_saved o l t) e))

-- A packet that carries the bytes d and is a SYN, on a stream that has saved no packets, but may have
-- received more already: its bytes are put behind those in the queue, and its number becomes the last
-- one received.
pub handle_next_packet-syn :
    (o : Owner) (ts : ℕ) (p : Packet) (d : List ℕ) (s : Stream)
    → IsPart o p d
    → get_seqn p ≡ 0
    → All IsQueued s.receive_queue
    → s.saved_packets ≡ []
    → (t : Stream) × (handle_next_packet o ts p s ≡ ok (tt, t))
      × (queue_bytes t.receive_queue ≡ queue_bytes s.receive_queue ++ d)
      × (t.last_received ≡ 0)
handle_next_packet-syn o ts p d s h z q v =
    let m = counted-Same o ts p s in
    let a = process_packet-Accepts o p d (counted o ts p s) h (rw (m.queue) q) in
    let b = answer-Same o ts (is_syn p) a.state in
    let syn : is_syn p ≡ true = h.syn ∙ ap (λ n. n == 0) z in
    (
      answer o ts (is_syn p) a.state,
      in_sequence o ts p s a.state (rw (syn) (and_false (get_seqn p == 0))) (rw (syn) refl) a.result
          (a.saved ∙ m.saved ∙ v),
      ap queue_bytes b.queue ∙ a.bytes ∙ ap (λ x. queue_bytes x ++ d) m.queue,
      b.last ∙ a.last ∙ z,
    )

-- A packet that ends before its payload begins, whose options are read without a failure.
pub record IsShort (o : Owner) (p : Packet) : Type 0 where
  pub plain : (bit 1 (get_flags p) || bit 2 (get_flags p)) ≡ false
  pub options : (i : IdentityEx) → (remote : IdentityEx) × (read_options o p i ≡ ok (remote, true))
  pub not_syn : is_syn p ≡ false
  pub short : p.len < get_payload p
  pub bound : get_payload p < 2 ^ 32

-- The length of its payload wraps around, and the packet is put into the queue.
beyond : Packet → Packet
beyond p = record p { offset = get_payload p }

get_length-beyond :
    (p : Packet) → p.len < get_payload p → get_payload p < 2 ^ 32 → 2 ^ 32 ≤ get_length (beyond p)
unfolding beyond get_length
get_length-beyond p h b = omega arith

process_packet-short :
    (o : Owner) (p : Packet) (s : Stream)
    → IsShort o p
    → (t : Stream) × (process_packet o p s ≡ ok (tt, t))
      × (t.saved_packets ≡ s.saved_packets)
      × (t.receive_queue ≡ s.receive_queue ++ beyond p ∷ [])
unfolding process_packet accept enqueue beyond
process_packet-short o p s h =
    let (remote, r) = h.options s.remote_identity in
    let s1 : Stream = record s { remote_identity = remote } in
    let wraps : (get_length (beyond p) == 0) ≡ false =
      ground (arith, get_length-beyond p h.short h.bound) in
    (
      record (emit cancel_receive
          (record s1 { receive_queue = s.receive_queue ++ beyond p ∷ [] })) {
            last_received = get_seqn p;
          },
      rw (r, process_packet) (rw (h.plain, wraps) refl),
      refl,
      refl,
    )

concatenate-beyond :
    (n : ℕ) (p : Packet)
    → p.len < get_payload p
    → get_payload p < 2 ^ 32
    → length p.buf < n
    → n < 2 ^ 32
    → concatenate n (beyond p ∷ []) ≡ err fault
unfolding concatenate beyond
concatenate-beyond n p h b l k =
    let size = get_length-beyond p h b in
    let all : min (get_length (beyond p)) n ≡ n = omega arith in
    let positive : (n == 0) ≡ false = ground arith in
    let outside : ltb (length p.buf) (get_payload p + n) ≡ true = ground arith in
    rw (all, positive, outside) refl

read_some-err :
    (n : ℕ) (s : Stream) → concatenate n s.receive_queue ≡ err fault → read_some n s ≡ err fault
unfolding read_some
read_some-err n s e = rw (e, read_some) refl

-- A packet that ends before its payload begins, whose options are read without a failure and show no
-- wrong signature, and that is no SYN, closes nothing and resets nothing, is the next one of a stream with an empty queue and no saved packets, and its number is not 0: it is
-- put into the queue, and a read of more bytes than its array holds, of fewer than 2^32, goes beyond
-- the array.
pub read_some-fault :
    (o : Owner) (ts : ℕ) (p : Packet) (n : ℕ) (s : Stream)
    → IsShort o p
    → (get_seqn p == 0) ≡ false
    → get_seqn p ≡ next_number s.last_received
    → s.saved_packets ≡ []
    → s.receive_queue ≡ []
    → length p.buf < n
    → n < 2 ^ 32
    → (t : Stream) × (handle_next_packet o ts p s ≡ ok (tt, t)) × (read_some n t ≡ err fault)
read_some-fault o ts p n s h z e v q l k =
    let m = counted-Same o ts p s in
    let (t, r, w, u) = process_packet-short o p (counted o ts p s) h in
    let b = answer-Same o ts (is_syn p) t in
    let queue : (answer o ts (is_syn p) t).receive_queue ≡ beyond p ∷ [] =
      b.queue ∙ u ∙ ap (λ x. x ++ beyond p ∷ []) (m.queue ∙ q) in
    (
      answer o ts (is_syn p) t,
      in_sequence o ts p s t (rw (z) refl)
          (rw (h.not_syn) (
            eq_test (get_seqn p) (next_number (counted o ts p s).last_received)
              (e ∙ ap next_number (sym m.last))))
          r (w ∙ m.saved ∙ v),
      read_some-err n (answer o ts (is_syn p) t)
          (ap (concatenate n) queue ∙ concatenate-beyond n p h.short h.bound l k),
    )
