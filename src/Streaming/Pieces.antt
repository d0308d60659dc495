-- ===== src/Streaming/Pieces.antt =====
-- src/client/api/streaming.cc: SendBuffer cuts what is to be sent into packets with numbers in order.
use mathlib.Core.List.{append_assoc}
use mathlib.Core.Path.{subst}
use xi2p_old.Base.{
  ℕ, zero, suc, ◌+◌, ◌*◌, ◌^◌, ◌≤◌, ◌<◌, ◌≡◌, refl, sym, ap, ◌∙◌, inl, inr, Bool, true, false, not,
  ◌&&◌, Bool-cases, List, [], ◌∷◌, ◌++◌, map, length, take, drop, take_all, take-append-drop,
  length-take, length-drop, arith, ltb, if◌then◌else◌, ◌==◌,
}
use xi2p_old.ByteStream.{to_big}
use xi2p_old.ByteStream.Words.{from_big-to_big}
use xi2p_old.Streaming.{
  Packet, Stream, Owner, get_seqn, get_payload, is_syn, is_established, next_number,
}
use xi2p_old.Streaming.Sending.{new_packet, buffer_head, read_buffer, follow_packet, follow_packets}
use xi2p_old.Streaming.Receiving.{read_options}
use xi2p_old.Streaming.Parts.{join, IsPart}

-- The bytes behind the 22 bytes that a packet without options and NACKs begins with.
unfoldable pub payload_of : Packet → List ℕ
payload_of p = drop 22 p.buf

-- Packets with the numbers from i on, each a part with the bytes of its payload.
abbrev pub Numbered : Owner → ℕ → List Packet → Type 0
Numbered o i [] = Unit
Numbered o i (p ∷ ps) =
    (get_seqn p ≡ i) × IsPart o p (payload_of p) × (length p.buf ≤ 1730) × Numbered o (suc i) ps

positive : (n i : ℕ) → n ≡ i → 0 < i → false ≡ (n == 0)
positive n i e h = ground arith

if_true : {A : Type 0} (b : Bool) (x y : A) → b ≡ true → (if b then x else y) ≡ x
if_true true x y e = refl
if_true false x y e = cc

if_false : {A : Type 0} (b : Bool) (x y : A) → b ≡ false → (if b then x else y) ≡ y
if_false true x y e = cc
if_false false x y e = refl

follow_bytes : Stream → List ℕ → Packet
unfolding buffer_head
follow_bytes s payload = new_packet ((buffer_head s ++ (to_big 2 0 ++ to_big 2 0)) ++ payload)

follow_bytes-seqn :
    (s : Stream) (payload : List ℕ)
    → s.sequence_number < 2 ^ 32
    → get_seqn (follow_bytes s payload) ≡ s.sequence_number
unfolding follow_bytes get_seqn new_packet buffer_head
follow_bytes-seqn s payload h = from_big-to_big 4 s.sequence_number h

follow_bytes-IsPart :
    (o : Owner) (s : Stream) (payload : List ℕ)
    → 0 < s.sequence_number
    → s.sequence_number < 2 ^ 32
    → length payload ≤ 1708
    → IsPart o (follow_bytes s payload) payload
unfolding follow_bytes new_packet buffer_head is_syn get_payload read_options
follow_bytes-IsPart o s payload p h l = record {
  syn =
      positive (get_seqn (follow_bytes s payload)) s.sequence_number (follow_bytes-seqn s payload h)
        p;
  plain = refl;
  options = λ i. (i, refl);
  start = omega arith;
  within = omega arith;
  small = omega arith;
  bytes = take_all _ payload (omega arith);
}

both : (a b : Bool) → a ≡ true → b ≡ false → (a && not b) ≡ true
both a b h e = ground arith

stopped : (a b : Bool) → b ≡ true → (a && not b) ≡ false
stopped a b e = ground arith

short : (a b : ℕ) → ltb a b ≡ true → a ≤ b
short a b e = ground arith

drop_all : (n : ℕ) (xs : List ℕ) → length xs ≤ n → drop n xs ≡ []
drop_all zero [] h = refl
drop_all zero (x ∷ xs) h = absurd (omega arith)
drop_all (suc n) [] h = refl
drop_all (suc n) (x ∷ xs) h = drop_all n xs (omega arith)

payload_of-follow_bytes :
    (s : Stream) (payload : List ℕ) → payload_of (follow_bytes s payload) ≡ payload
unfolding payload_of follow_bytes new_packet buffer_head
payload_of-follow_bytes s payload = refl

length-follow_bytes :
    (s : Stream) (payload : List ℕ)
    → length payload ≤ 1708
    → length (follow_bytes s payload).buf ≤ 1730
unfolding follow_bytes new_packet buffer_head
length-follow_bytes s payload l = omega arith

next_number-suc : (n : ℕ) → n < 2 ^ 31 → next_number n ≡ suc n
unfolding next_number
next_number-suc n h = omega arith

nil_of_length : (xs : List ℕ) → length xs ≤ 0 → xs ≡ []
nil_of_length [] h = refl
nil_of_length (x ∷ xs) h = absurd (omega arith)

-- What is left after a packet.
abbrev after_packet : Stream → Stream
after_packet s = record s {
  send_buffer = drop 1708 s.send_buffer;
  send_eof = ltb (length s.send_buffer) 1708;
  sequence_number = next_number s.sequence_number;
}

follow_packet_lem :
    (s : Stream)
    → s.send_eof ≡ false
    → follow_packet s ≡ (follow_bytes s (take 1708 s.send_buffer), after_packet s)
unfolding follow_packet follow_bytes read_buffer buffer_head
follow_packet_lem s e =
    ap
      (λ (r : List ℕ × Stream).
        (follow_bytes s r.0, record r.1 { sequence_number = next_number s.sequence_number }))
      (if_false s.send_eof ([], s)
        (
          take 1708 s.send_buffer,
          record s {
            send_buffer = drop 1708 s.send_buffer;
            send_eof = ltb (length s.send_buffer) 1708;
          },
        )
        e)

follow_packets_more :
    (n : ℕ) (s : Stream)
    → is_established s ≡ true
    → s.send_eof ≡ false
    → follow_packets (suc n) s ≡ (
      follow_bytes s (take 1708 s.send_buffer) ∷ (follow_packets n (after_packet s)).0,
      (follow_packets n (after_packet s)).1,
    )
unfolding follow_packets
follow_packets_more n s h e =
    if_true (is_established s && not s.send_eof) _ ([], s) (both (is_established s) s.send_eof h e)
    ∙ ap (λ (r : Packet × Stream). (r.0 ∷ (follow_packets n r.1).0, (follow_packets n r.1).1))
        (follow_packet_lem s e)

follow_packets_end : (n : ℕ) (s : Stream) → s.send_eof ≡ true → follow_packets n s ≡ ([], s)
unfolding follow_packets
follow_packets_end zero s e = refl
follow_packets_end (suc n) s e =
    if_false (is_established s && not s.send_eof) _ ([], s)
      (stopped (is_established s) s.send_eof e)

-- A stream with numbers and a buffer from which nothing is left where its end was met.
pub record MaySend (n : ℕ) (s : Stream) : Type 0 where
  pub established : is_established s ≡ true
  pub started : 0 < s.sequence_number
  pub bound : s.sequence_number + n < 2 ^ 31
  pub drained : s.send_eof ≡ true → s.send_buffer ≡ []

-- What SendBuffer makes of the first bytes of the buffer, with room for n packets.
pub record Pieces (o : Owner) (n : ℕ) (s : Stream) (r : List Packet × Stream) : Type 0 where
  pub numbered : Numbered o s.sequence_number r.0
  pub joined : join (map payload_of r.0) ++ r.1.send_buffer ≡ s.send_buffer
  pub few : length r.0 ≤ n
  pub all : length s.send_buffer ≤ n * 1708 → r.1.send_buffer ≡ []

after_packet-MaySend : {n : ℕ} {s : Stream} → MaySend (suc n) s → MaySend n (after_packet s)
unfolding next_number is_established
after_packet-MaySend {n} {s} h = record {
  established = h.established;
  started = omega (arith, h.started, h.bound);
  bound = omega (arith, h.started, h.bound);
  drained = λ t. drop_all 1708 s.send_buffer (short (length s.send_buffer) 1708 t);
}

pub follow_packets-Pieces :
    (o : Owner) (n : ℕ) (s : Stream) → MaySend n s → Pieces o n s (follow_packets n s)
unfolding follow_packets
follow_packets-Pieces o zero s h = record {
  numbered = tt;
  joined = refl;
  few = omega arith;
  all = λ l. nil_of_length s.send_buffer (omega arith);
}
follow_packets-Pieces o (suc n) s h = elim (Bool-cases s.send_eof) [
  | inl t ↦
      subst (Pieces o (suc n) s) (sym (follow_packets_end (suc n) s t))
        (record { numbered = tt; joined = refl; few = omega arith; all = λ l. h.drained t })
  | inr f ↦
      let rest = follow_packets-Pieces o n (after_packet s) (after_packet-MaySend h) in
      let d = take 1708 s.send_buffer in
      let small : length d ≤ 1708 = omega (arith, length-take 1708 s.send_buffer) in
      let number = next_number-suc s.sequence_number (omega (arith, h.bound)) in
      subst (Pieces o (suc n) s) (sym (follow_packets_more n s h.established f)) (record {
        numbered = (
          follow_bytes-seqn s d (omega (arith, h.bound)),
          rw (payload_of-follow_bytes s d)
              (follow_bytes-IsPart o s d h.started (omega (arith, h.bound)) small),
          length-follow_bytes s d small,
          subst (λ i. Numbered o i (follow_packets n (after_packet s)).0) number rest.numbered,
        );
        joined =
            ap
              (λ x.
                (x ++ join (map payload_of (follow_packets n (after_packet s)).0))
                ++ (follow_packets n (after_packet s)).1.send_buffer)
              (payload_of-follow_bytes s d)
            ∙ append_assoc d _ _
            ∙ ap (λ x. d ++ x) rest.joined
            ∙ take-append-drop 1708 s.send_buffer;
        few = omega (arith, rest.few);
        all = λ l. rest.all (omega (arith, length-drop 1708 s.send_buffer));
      })
]
