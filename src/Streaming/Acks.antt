-- ===== src/Streaming/Acks.antt =====
-- src/client/api/streaming.cc: the numbers that a quick acknowledgement lists, and what the loop of
-- ProcessAck makes of such numbers.
pub mod Quick
pub mod Overrun
use mathlib.Core.List.{append_assoc}
use xi2p_old.Base.{
  ℕ, zero, suc, ◌+◌, ◌-◌, ◌%◌, ◌^◌, ◌≤◌, ◌<◌, ◌≡◌, refl, sym, ap, ◌∙◌, inl, inr, Bool, true, false,
  not, ◌&&◌, ◌||◌, Bool-cases, leb, ltb, ◌==◌, ==_iff, Option, none, some, List, [], ◌∷◌, ◌++◌, map,
  length, take-append, drop-append, length-append, All, arith, if◌then◌else◌,
}
use xi2p_old.ByteStream.{to_big, read_at}
use xi2p_old.ByteStream.Words.{from_big-to_big, length-to_big}
use xi2p_old.Streaming.{
  Packet, Stream, get_seqn, get_ack_through, get_nack_count, get_nacks, words, next_number,
  signed_le,
}
use xi2p_old.Streaming.Sending.{
  range, fill_nacks, highest_seqn, word_bytes, ack_packet, or_else, quick_ack, last_seqn,
  packet_head, new_packet,
}
use xi2p_old.Streaming.Receiving.{contains, acknowledge, ack_loop}

-- Packets with ascending numbers from `low` on.
abbrev pub Ascending : ℕ → List Packet → Type 0
Ascending low [] = Unit
Ascending low (p ∷ ps) =
    (low ≤ get_seqn p) × (get_seqn p < 2 ^ 31) × Ascending (suc (get_seqn p)) ps

-- The numbers from `low` on that are missing before a packet, and the number behind the last packet.
unfoldable pub gaps : ℕ → List Packet → List ℕ
unfolding range
gaps low [] = []
gaps low (p ∷ ps) = range low (get_seqn p - low) ++ gaps (suc (get_seqn p)) ps

unfoldable pub end : ℕ → List Packet → ℕ
end low [] = low
end low (p ∷ ps) = end (suc (get_seqn p)) ps

length-range : (a n : ℕ) → length (range a n) ≡ n
unfolding range
length-range a zero = refl
length-range a (suc n) = ap suc (length-range (a + 1) n)

below_256 : (m n : ℕ) → m < 256 → n ≡ m → leb 256 n ≡ false
below_256 m n l e = ground arith

next_number-suc : (n : ℕ) → n < 2 ^ 31 → next_number n ≡ suc n
unfolding next_number
next_number-suc n h = omega arith

or_assoc : (a b c : Bool) → (a || (b || c)) ≡ ((a || b) || c)
or_assoc true b c = refl
or_assoc false b c = refl

or_of : (a b : Bool) → a ≡ false → b ≡ false → (a || b) ≡ false
or_of a b e f = ground arith

range_step :
    (j a n : ℕ)
    → ((j == a) || (leb (a + 1) j && ltb j (a + 1 + n))) ≡ (leb a j && ltb j (a + suc n))
range_step j a n = ground arith

gap_step :
    (j low n end : ℕ) (c : Bool)
    → low ≤ n
    → suc n ≤ end
    → (j < suc n → c ≡ false)
    → ((leb low j && ltb j (low + (n - low))) || ((leb (suc n) j && ltb j end) && not c))
      ≡ ((leb low j && ltb j end) && not (j == n || c))
gap_step j low n end true a b e = ground (arith, e)
gap_step j low n end false a b e = ground arith

fill_nacks-gaps :
    (num low : ℕ) (ps : List Packet)
    → Ascending low ps
    → num + length (gaps low ps) < 256
    → fill_nacks num low ps ≡ (gaps low ps, none)
unfolding fill_nacks gaps
fill_nacks-gaps num low [] h l = refl
fill_nacks-gaps num low (p ∷ ps) (a, b, h) l =
    let n = get_seqn p in
    let total = length-append (range low (n - low)) (gaps (suc n) ps) in
    let own = length-range low (n - low) in
    let few : leb 256 ((num + (n + 2 ^ 32 - low) % 2 ^ 32) % 2 ^ 32) ≡ false =
      below_256 (num + (n - low)) ((num + (n + 2 ^ 32 - low) % 2 ^ 32) % 2 ^ 32) (omega arith)
        (omega arith) in
    let next : next_number n ≡ suc n = next_number-suc n b in
    let rest = fill_nacks-gaps (num + (n - low)) (suc n) ps h (omega arith) in
    rw (few) (rw (next) (rw (rest) refl))

contains-append :
    (j : ℕ) (xs ys : List ℕ) → contains j (xs ++ ys) ≡ (contains j xs || contains j ys)
unfolding contains
contains-append j [] ys = refl
contains-append j (x ∷ xs) ys =
    ap (λ b. (j == x) || b) (contains-append j xs ys)
    ∙ or_assoc (j == x) (contains j xs) (contains j ys)

contains-range : (j a n : ℕ) → contains j (range a n) ≡ (leb a j && ltb j (a + n))
unfolding contains range
contains-range j a zero = ground arith
contains-range j a (suc n) = ap (λ b. (j == a) || b) (contains-range j (a + 1) n) ∙ range_step j a n

Ascending-contains :
    (j low : ℕ) (ps : List Packet)
    → Ascending low ps
    → j < low
    → contains j (map get_seqn ps) ≡ false
unfolding contains
Ascending-contains j low [] h l = refl
Ascending-contains j low (p ∷ ps) (a, b, h) l =
    or_of (j == get_seqn p) (contains j (map get_seqn ps)) (ground arith)
      (Ascending-contains j (suc (get_seqn p)) ps h (omega arith))

low-end : (low : ℕ) (ps : List Packet) → Ascending low ps → low ≤ end low ps
unfolding end
low-end low [] h = omega arith
low-end low (p ∷ ps) (a, b, h) = omega (arith, low-end (suc (get_seqn p)) ps h)

-- What is listed is what is missing.
contains-gaps :
    (j low : ℕ) (ps : List Packet)
    → Ascending low ps
    → contains j (gaps low ps)
      ≡ ((leb low j && ltb j (end low ps)) && not (contains j (map get_seqn ps)))
unfolding gaps end contains
contains-gaps j low [] h = ground arith
contains-gaps j low (p ∷ ps) (a, b, h) =
    let n = get_seqn p in
    contains-append j (range low (n - low)) (gaps (suc n) ps)
    ∙ ap (λ x. x || contains j (gaps (suc n) ps)) (contains-range j low (n - low))
    ∙ ap (λ x. (leb low j && ltb j (low + (n - low))) || x) (contains-gaps j (suc n) ps h)
    ∙ gap_step j low n (end (suc n) ps) (contains j (map get_seqn ps)) a (low-end (suc n) ps h)
        (Ascending-contains j (suc n) ps h)

-- The words of a packet are read back.
words-word_bytes :
    (ns rest : List ℕ) → All (λ n. n < 2 ^ 32) ns → words (length ns) (word_bytes ns ++ rest) ≡ ns
unfolding words word_bytes
words-word_bytes [] rest h = refl
words-word_bytes (n ∷ ns) rest (a, h) =
    ap (λ x. x ∷ words (length ns) (word_bytes ns ++ rest)) (from_big-to_big 4 n a)
    ∙ ap (◌∷◌ n) (words-word_bytes ns rest h)

module _ (s : Stream) (ns : List ℕ) (through : ℕ) where
  get_ack_through-ack_packet :
      through < 2 ^ 32 → get_ack_through (ack_packet s ns through) ≡ through
  unfolding get_ack_through ack_packet packet_head new_packet
  get_ack_through-ack_packet h = from_big-to_big 4 through h

  get_nack_count-ack_packet : length ns < 256 → get_nack_count (ack_packet s ns through) ≡ length ns
  unfolding get_nack_count ack_packet packet_head new_packet
  get_nack_count-ack_packet h = from_big-to_big 1 (length ns) h

  get_nacks-ack_packet :
      length ns < 256 → All (λ n. n < 2 ^ 32) ns → get_nacks (ack_packet s ns through) ≡ ns
  unfolding get_nacks ack_packet packet_head new_packet
  get_nacks-ack_packet h a =
      ap (λ n. words n (word_bytes ns ++ (0 ∷ (to_big 2 0 ++ to_big 2 0))))
        (from_big-to_big 1 (length ns) h)
      ∙ words-word_bytes ns (0 ∷ (to_big 2 0 ++ to_big 2 0)) a

above : (j n through : ℕ) → leb j through ≡ true → leb n through ≡ false → (j == n) ≡ false
above j n through l f = ground arith

-- The three ends of a turn of the loop of ProcessAck.
either_turn :
    (j : ℕ) (t y g : Bool) (x z w : List Packet × Bool × Stream)
    → (t ≡ true → y ≡ true → contains j (map get_seqn x.0) ≡ g)
    → (t ≡ true → y ≡ false → contains j (map get_seqn z.0) ≡ g)
    → (t ≡ false → contains j (map get_seqn w.0) ≡ g)
    → contains j (map get_seqn (if t then if y then x else z else w).0) ≡ g
either_turn j true true g x z w a b c = a refl refl
either_turn j true false g x z w a b c = b refl refl
either_turn j false y g x z w a b c = c refl

nacked_turn :
    (j n : ℕ) (s l m : Bool)
    → (j ≡ n → m ≡ true)
    → (j == n || (s && not (l && not m))) ≡ ((j == n || s) && not (l && not m))
nacked_turn j n s l true e = ground arith
nacked_turn j n s true false e = ground (arith, e)
nacked_turn j n s false false e = ground arith

acked_turn :
    (j n : ℕ) (s l m : Bool)
    → (j ≡ n → l ≡ true)
    → (j ≡ n → m ≡ false)
    → (s && not (l && not m)) ≡ ((j == n || s) && not (l && not m))
acked_turn j n s true true e f = ground (arith, f)
acked_turn j n s false m e f = ground (arith, e)
acked_turn j n s true false e f = ground arith

last_turn : (s l m : Bool) → (l ≡ true → s ≡ false) → s ≡ (s && not (l && not m))
last_turn s true m e = ground (arith, e)
last_turn s false m e = ground arith

-- The packets that stay are those whose number is not acknowledged.
ack_loop-contains :
    (j ts through low : ℕ) (nacks : List ℕ) (ps : List Packet) (u : Stream)
    → Ascending low ps
    → contains j (map get_seqn (ack_loop ts through nacks ps u).0)
      ≡ (contains j (map get_seqn ps) && not (leb j through && not (contains j nacks)))
unfolding ack_loop contains
ack_loop-contains j ts through low nacks [] u h = refl
ack_loop-contains j ts through low nacks (p ∷ ps) u (a, b, h) =
    let n = get_seqn p in
    let nacked = contains n nacks in
    let u' = if nacked then u else acknowledge ts p u in
    let rest = ack_loop ts through nacks ps u' in
    let ih = ack_loop-contains j ts through (suc n) nacks ps u' h in
    let sent = contains j (map get_seqn ps) in
    either_turn j (leb n through) nacked _ (p ∷ rest.0, rest.1, rest.2) (rest.0, true, rest.2)
      (p ∷ ps, false, u)
      (λ t y.
        ap (λ c. (j == n) || c) ih
        ∙ nacked_turn j n sent (leb j through) (contains j nacks)
            (λ e. ap (λ i. contains i nacks) e ∙ y))
      (λ t z.
        ih
        ∙ acked_turn j n sent (leb j through) (contains j nacks)
            (λ e. ap (λ i. leb i through) e ∙ t) (λ e. ap (λ i. contains i nacks) e ∙ z))
      (λ f. last_turn ((j == n) || sent) (leb j through) (contains j nacks) (λ l.
        or_of (j == n) sent (above j n through l f)
          (Ascending-contains j (suc n) ps h (ground arith))))
