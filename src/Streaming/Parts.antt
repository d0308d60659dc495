-- ===== src/Streaming/Parts.antt =====
-- src/client/api/streaming.cc: the packets that carry the parts of what one side sends, and what is in
-- the queue for the reader.
use mathlib.Core.List.{append-nil, append_assoc}
use xi2p_old.Base.{
  ℕ, zero, suc, ◌+◌, ◌-◌, ◌^◌, ◌≤◌, ◌<◌, ◌≡◌, ◌≢◌, take-nil, drop-nil, take-append_more,
  drop-append_more, take-append_less, drop-append_less, take-take, drop-take, drop-drop, refl, sym,
  ap, ◌∙◌, inl, inr, true, false, Bool-cases, List, [], ◌∷◌, ◌++◌, ◌||◌, ◌==◌, bit, length, take,
  drop, get_elem?, some, All, ok, arith, ltb, min, length-take, length-drop,
}
use xi2p_old.Identity.{IdentityEx}
use xi2p_old.Streaming.{
  Packet, Stream, Owner, get_length, get_bytes, get_seqn, get_flags, get_payload, is_syn,
}
use xi2p_old.Streaming.Receiving.{
  read_options, enqueue, accept, process_packet, concatenate, read_some,
}

-- The bytes that a list of parts carries, and those of the packets in the queue.
abbrev pub join : List (List ℕ) → List ℕ
join [] = []
join (d ∷ ds) = d ++ join ds

unfoldable pub queue_bytes : List Packet → List ℕ
unfolding get_bytes
queue_bytes [] = []
queue_bytes (p ∷ ps) = get_bytes p ++ queue_bytes ps

-- A packet in the queue lies in its array.
pub record IsQueued (p : Packet) : Type 0 where
  pub start : p.offset ≤ p.len
  pub within : p.len ≤ length p.buf
  pub small : p.len < 2 ^ 64

-- A packet that carries part i, the bytes d: only part 0 is a SYN, it neither closes nor resets the
-- stream, its options are read and its signature, where it has one, is right, and its payload
-- begins before the packet ends.
pub record IsPart (o : Owner) (p : Packet) (d : List ℕ) : Type 0 where
  pub syn : is_syn p ≡ (get_seqn p == 0)
  pub plain : (bit 1 (get_flags p) || bit 2 (get_flags p)) ≡ false
  pub options : (i : IdentityEx) → (remote : IdentityEx) × (read_options o p i ≡ ok (remote, true))
  pub start : get_payload p ≤ p.len
  pub within : p.len ≤ length p.buf
  pub small : p.len < 2 ^ 64
  pub bytes : take (p.len - get_payload p) (drop (get_payload p) p.buf) ≡ d

-- One of the parts ds.
abbrev pub IsPartOf : Owner → List (List ℕ) → Packet → Type 0
IsPartOf o ds p = (d : List ℕ) × (get_elem? ds (get_seqn p) ≡ some d) × IsPart o p d

pub get_length-IsQueued : {p : Packet} → IsQueued p → get_length p ≡ p.len - p.offset
unfolding get_length
get_length-IsQueued q = omega arith

queue_bytes-append :
    (ps qs : List Packet) → queue_bytes (ps ++ qs) ≡ queue_bytes ps ++ queue_bytes qs
unfolding queue_bytes
queue_bytes-append [] qs = refl
queue_bytes-append (p ∷ ps) qs =
    ap (λ x. get_bytes p ++ x) (queue_bytes-append ps qs)
    ∙ sym (append_assoc (get_bytes p) (queue_bytes ps) (queue_bytes qs))

All-snoc :
    (ps : List Packet) (p : Packet) → All IsQueued ps → IsQueued p → All IsQueued (ps ++ p ∷ [])
All-snoc [] p h q = (q, tt)
All-snoc (x ∷ ps) p (a, h) q = (a, All-snoc ps p h q)

-- What is put into the queue.
pub enqueue-queue :
    (p : Packet) (s : Stream)
    → IsQueued p
    → All IsQueued s.receive_queue
    → (queue_bytes (enqueue p s).receive_queue
        ≡ queue_bytes s.receive_queue ++ take (p.len - p.offset) (drop p.offset p.buf))
      × All IsQueued (enqueue p s).receive_queue
unfolding enqueue queue_bytes get_bytes
enqueue-queue p s q h =
    let n = get_length-IsQueued q in
    elim (Bool-cases (get_length p == 0)) [
      | inl t ↦
          let empty : p.len - p.offset ≡ 0 = ground (arith, n) in
          rw (t, enqueue) (rw (empty) (sym (append-nil (queue_bytes s.receive_queue))), h)
      | inr f ↦
          rw (f, enqueue)
            (
              queue_bytes-append s.receive_queue (p ∷ [])
                  ∙ ap (λ x. queue_bytes s.receive_queue ++ x)
                      (append-nil (get_bytes p) ∙ ap (λ k. take k (drop p.offset p.buf)) n),
              All-snoc s.receive_queue p h q,
            )
    ]

take_more :
    (ds : List (List ℕ)) (k : ℕ) (d : List ℕ)
    → get_elem? ds k ≡ some d
    → join (take (suc k) ds) ≡ join (take k ds) ++ d
take_more [] k d h = cc
take_more (x ∷ ds) zero d h = append-nil x ∙ ground (arith, h)
take_more (x ∷ ds) (suc k) d h =
    ap (λ y. x ++ y) (take_more ds k d h) ∙ sym (append_assoc x (join (take k ds)) d)

pub get_elem?-lt :
    (ds : List (List ℕ)) (k : ℕ) (d : List ℕ) → get_elem? ds k ≡ some d → k < length ds
get_elem?-lt [] k d h = cc
get_elem?-lt (x ∷ ds) zero d h = omega arith
get_elem?-lt (x ∷ ds) (suc k) d h = omega (arith, get_elem?-lt ds k d h)

-- The queue holds the first k parts.
pub record Holds (ds : List (List ℕ)) (k : ℕ) (queue : List Packet) : Type 0 where
  pub bytes : queue_bytes queue ≡ join (take k ds)
  pub queued : All IsQueued queue

enqueue-saved : (p : Packet) (s : Stream) → (enqueue p s).saved_packets ≡ s.saved_packets
unfolding enqueue
enqueue-saved p s = ground arith

-- Processing a packet that carries the bytes d puts them behind those in the queue.
pub record Accepts (o : Owner) (p : Packet) (d : List ℕ) (s : Stream) : Type 0 where
  pub state : Stream
  pub result : process_packet o p s ≡ ok (tt, state)
  pub last : state.last_received ≡ get_seqn p
  pub saved : state.saved_packets ≡ s.saved_packets
  pub bytes : queue_bytes state.receive_queue ≡ queue_bytes s.receive_queue ++ d
  pub queued : All IsQueued state.receive_queue

pub process_packet-Accepts :
    (o : Owner) (p : Packet) (d : List ℕ) (s : Stream)
    → IsPart o p d
    → All IsQueued s.receive_queue
    → Accepts o p d s
unfolding process_packet accept
process_packet-Accepts o p d s h q =
    let (remote, r) = h.options s.remote_identity in
    let p' : Packet = record p { offset = get_payload p } in
    let s1 : Stream = record s { remote_identity = remote } in
    let queued : IsQueued p' = record { start = h.start; within = h.within; small = h.small } in
    let (bytes, all) = enqueue-queue p' s1 queued q in
    record {
      state = record (enqueue p' s1) { last_received = get_seqn p };
      result = rw (r, process_packet) (rw (h.plain) refl);
      last = refl;
      saved = enqueue-saved p' s1;
      bytes = bytes ∙ ap (λ x. queue_bytes s.receive_queue ++ x) h.bytes;
      queued = all;
    }

-- The next part.
pub Accepts-Holds :
    {o : Owner} {p : Packet} {d : List ℕ} {s : Stream} (ds : List (List ℕ)) (k : ℕ)
    → get_elem? ds k ≡ some d
    → (a : Accepts o p d s) → Holds ds k s.receive_queue
    → Holds ds (suc k) a.state.receive_queue
Accepts-Holds {d = d} ds k e a q = record {
  bytes = a.bytes ∙ ap (λ x. x ++ d) q.bytes ∙ sym (take_more ds k d e);
  queued = a.queued;
}

-- ConcatenatePackets copies the first n bytes of the queue, or all of it, and leaves the others.
pub record Concatenates (n : ℕ) (ps : List Packet) : Type 0 where
  pub rest : List Packet
  pub result : concatenate n ps ≡ ok (take n (queue_bytes ps), rest)
  pub left : queue_bytes rest ≡ drop n (queue_bytes ps)
  pub queued : All IsQueued rest

length-get_bytes : {p : Packet} → IsQueued p → length (get_bytes p) ≡ p.len - p.offset
unfolding get_bytes
length-get_bytes {p} q = omega (
  arith,
  get_length-IsQueued q,
  length-take (get_length p) (drop p.offset p.buf),
  length-drop p.offset p.buf,
  q.start,
  q.within,
)

get_bytes-IsQueued :
    {p : Packet} → IsQueued p → get_bytes p ≡ take (p.len - p.offset) (drop p.offset p.buf)
unfolding get_bytes
get_bytes-IsQueued {p} q = ap (λ k. take k (drop p.offset p.buf)) (get_length-IsQueued q)

-- A packet that is copied whole, and one of which a part stays.
whole :
    (n : ℕ) (p : Packet) (ps : List Packet)
    → IsQueued p
    → p.len - p.offset ≤ n
    → n ≢ 0
    → Concatenates (n - (p.len - p.offset)) ps
    → Concatenates n (p ∷ ps)
unfolding concatenate queue_bytes get_bytes
whole n p ps q h z c =
    let a = p.len - p.offset in
    let size : get_length p ≡ a = get_length-IsQueued q in
    let copied : min (get_length p) n ≡ a = omega arith in
    let positive : (n == 0) ≡ false = ground arith in
    let inside : ltb (length p.buf) (p.offset + a) ≡ false = ground (arith, q.within, q.start) in
    let p' : Packet = record p { offset = p.offset + a } in
    let queued : IsQueued p' = record {
      start = omega (arith, q.start);
      within = q.within;
      small = q.small;
    } in
    let spent : (get_length p' == 0) ≡ true = ground (arith, get_length-IsQueued queued) in
    let same_length : length (get_bytes p) ≡ a = length-get_bytes q in
    record {
      rest = c.rest;
      result =
          rw (copied, positive, inside, spent, c.result)
            (ap (λ x. ok (x, c.rest))
              (ap (λ k. take k (drop p.offset p.buf) ++ take (n - a) (queue_bytes ps)) copied
                ∙ ap (λ y. y ++ take (n - a) (queue_bytes ps)) (sym (get_bytes-IsQueued q))
                ∙ ap (λ k. get_bytes p ++ take (n - k) (queue_bytes ps)) (sym same_length)
                ∙ sym (take-append_more n (get_bytes p) (queue_bytes ps) (omega arith))));
      left =
          c.left
          ∙ ap (λ k. drop (n - k) (queue_bytes ps)) (sym same_length)
          ∙ sym (drop-append_more n (get_bytes p) (queue_bytes ps) (omega arith));
      queued = c.queued;
    }

divided :
    (n : ℕ) (p : Packet) (ps : List Packet)
    → IsQueued p
    → n < p.len - p.offset
    → n ≢ 0
    → All IsQueued ps
    → Concatenates n (p ∷ ps)
unfolding concatenate queue_bytes
divided n p ps q h z all =
    let a = p.len - p.offset in
    let size : get_length p ≡ a = get_length-IsQueued q in
    let copied : min (get_length p) n ≡ n = omega arith in
    let positive : (n == 0) ≡ false = ground arith in
    let inside : ltb (length p.buf) (p.offset + n) ≡ false = ground (arith, q.within, q.start) in
    let p' : Packet = record p { offset = p.offset + n } in
    let queued : IsQueued p' = record {
      start = omega (arith, q.start);
      within = q.within;
      small = q.small;
    } in
    let remains : (get_length p' == 0) ≡ false = ground (arith, get_length-IsQueued queued) in
    let same_length : length (get_bytes p) ≡ a = length-get_bytes q in
    let shorter : n ≤ length (get_bytes p) = omega arith in
    let size' : p.len - (p.offset + n) ≡ a - n = omega arith in
    record {
      rest = p' ∷ ps;
      result =
          rw (copied, positive, inside, remains)
            (ap (λ x. ok (x, p' ∷ ps))
              (sym (take-take n a (drop p.offset p.buf) (omega arith))
                ∙ ap (take n) (sym (get_bytes-IsQueued q))
                ∙ sym (take-append_less n (get_bytes p) (queue_bytes ps) shorter)));
      left =
          ap (λ x. x ++ queue_bytes ps)
            (get_bytes-IsQueued queued
              ∙ ap (λ k. take k (drop (p.offset + n) p.buf)) size'
              ∙ ap (take (a - n)) (sym (drop-drop n p.offset p.buf))
              ∙ sym (drop-take n a (drop p.offset p.buf) (omega arith))
              ∙ ap (drop n) (sym (get_bytes-IsQueued q)))
          ∙ sym (drop-append_less n (get_bytes p) (queue_bytes ps) shorter);
      queued = (queued, all);
    }

pub concatenate-take : (n : ℕ) (ps : List Packet) → All IsQueued ps → Concatenates n ps
unfolding concatenate queue_bytes
concatenate-take n [] h = record {
  rest = [];
  result = ap (λ x. ok (x, [])) (sym (take-nil n));
  left = sym (drop-nil n);
  queued = tt;
}
concatenate-take zero (p ∷ ps) h = record { rest = p ∷ ps; result = refl; left = refl; queued = h }
concatenate-take (suc n) (p ∷ ps) (q, h) = elim (Bool-cases (ltb (suc n) (p.len - p.offset))) [
  | inl t ↦ divided (suc n) p ps q (ground arith) (omega arith) h
  | inr f ↦
      whole (suc n) p ps q (ground arith) (omega arith)
        (concatenate-take (suc n - (p.len - p.offset)) ps h)
]

pub read_some_lem :
    (n : ℕ) (s : Stream) {bytes : List ℕ} {rest : List Packet}
    → concatenate n s.receive_queue ≡ ok (bytes, rest)
    → read_some n s ≡ ok (bytes, record s { receive_queue = rest })
unfolding read_some
read_some_lem n s e = rw (e, read_some) refl
