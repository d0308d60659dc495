-- ===== src/Streaming/Acks/Overrun.antt =====
-- src/client/api/streaming.cc: a quick acknowledgement where too many packets are missing to list them.
use xi2p_old.Base.{
  ℕ, suc, ◌+◌, ◌-◌, ◌%◌, ◌^◌, ◌≤◌, ◌<◌, ◌≡◌, refl, sym, ap, ◌∙◌, Bool, true, false, not, ◌&&◌, leb,
  Option, some, List, [], ◌∷◌, map, arith,
}
use xi2p_old.Streaming.{
  Packet, Stream, get_seqn, get_ack_through, get_nacks, next_number, signed_le,
}
use xi2p_old.Streaming.Sending.{fill_nacks, highest_seqn, ack_packet, or_else, quick_ack, last_seqn}
use xi2p_old.Streaming.Receiving.{contains, ack_loop}
use xi2p_old.Streaming.Acks.{
  Ascending, next_number-suc, get_ack_through-ack_packet, get_nacks-ack_packet, ack_loop-contains,
}
use xi2p_old.Streaming.Acks.Quick.{signed_le-leb, either_value}

-- A stream that has received the first k packets, and has saved others of which the first comes
-- more than 255 numbers later.
pub record MissesMany (k : ℕ) (s : Stream) : Type 0 where
  pub some_packet : 0 < k
  pub bound : k < 2 ^ 31
  pub last : s.last_received ≡ k - 1
  pub first : Packet
  pub others : List Packet
  pub saved : s.saved_packets ≡ first ∷ others
  pub later : Ascending (k + 256) (first ∷ others)

at_least : (n : ℕ) → 256 ≤ n → leb 256 n ≡ true
at_least n h = ground arith

not_leb : (a b : ℕ) → b < a → leb a b ≡ false
not_leb a b h = ground arith

none_left : (k : ℕ) (c : Bool) → (c && not (leb k k && not false)) ≡ false
none_left k true = ground arith
none_left k false = ground arith

highest_seqn-bounds :
    (low last : ℕ) (p : Packet) (ps : List Packet)
    → Ascending low (p ∷ ps)
    → (low ≤ highest_seqn last (p ∷ ps)) × (highest_seqn last (p ∷ ps) < 2 ^ 31)
unfolding highest_seqn
highest_seqn-bounds low last p [] (a, b, h) = (a, b)
highest_seqn-bounds low last p (q ∷ ps) (a, b, h) =
    let (l, u) = highest_seqn-bounds (suc (get_seqn p)) (get_seqn p) q ps h in (omega arith, u)

fill_nacks-many :
    (k : ℕ) (p : Packet) (ps : List Packet)
    → k < 2 ^ 31
    → Ascending (k + 256) (p ∷ ps)
    → fill_nacks 0 k (p ∷ ps) ≡ ([], some k)
unfolding fill_nacks
fill_nacks-many k p ps h (a, b, c) =
    let many : leb 256 ((0 + (get_seqn p + 2 ^ 32 - k) % 2 ^ 32) % 2 ^ 32) ≡ true =
      at_least ((0 + (get_seqn p + 2 ^ 32 - k) % 2 ^ 32) % 2 ^ 32) (omega arith) in
    rw (many) refl

quick_ack-many :
    (k : ℕ) (s : Stream) → MissesMany k s → quick_ack s (last_seqn s) ≡ ack_packet s [] k
unfolding quick_ack last_seqn or_else
quick_ack-many k s m =
    let ps = m.first ∷ m.others in
    let h = highest_seqn s.last_received s.saved_packets in
    let bounds = highest_seqn-bounds (k + 256) s.last_received m.first m.others m.later in
    let same : h ≡ highest_seqn s.last_received ps = ap (highest_seqn s.last_received) m.saved in
    let low : k + 256 ≤ h = omega (arith, same, bounds.0) in
    let high : h < 2 ^ 31 = omega (arith, same, bounds.1) in
    let last : suc s.last_received ≡ k = omega (arith, m.last, m.some_packet) in
    let from : next_number s.last_received ≡ k =
      next_number-suc s.last_received (omega (arith, m.bound)) ∙ last in
    let order : signed_le h s.last_received ≡ false =
      signed_le-leb h s.last_received high (omega (arith, m.bound))
      ∙ not_leb h s.last_received (omega (arith, low)) in
    let chosen : last_seqn s ≡ h =
      either_value (signed_le h s.last_received) s.last_received h h (λ t. cc (sym order ∙ t))
        (λ f. refl) in
    let filled : fill_nacks 0 (next_number s.last_received) s.saved_packets ≡ ([], some k) =
      ap (λ n. fill_nacks 0 n s.saved_packets) from
      ∙ ap (fill_nacks 0 k) m.saved
      ∙ fill_nacks-many k m.first m.others m.bound m.later in
    ap (quick_ack s) chosen
    ∙ either_value (signed_le h s.last_received) (ack_packet s [] h) _ (ack_packet s [] k)
        (λ t. cc (sym order ∙ t))
        (λ f. ap (λ (x : List ℕ × Option ℕ). ack_packet s x.0 (or_else h x.1)) filled)

-- A stream that has received the first k packets, at least one, and has saved others in the order of
-- their numbers, of which the first comes more than 255 numbers later, acknowledges packet k, which
-- it has not received: the loop of ProcessAck of another stream drops it from its sent packets, which
-- are in the order of their numbers, where all numbers are below 2^31.
pub ack_loop-overrun :
    (ts k low : ℕ) (s u : Stream)
    → MissesMany k s
    → Ascending low u.sent_packets
    → contains k (
        map get_seqn
          (ack_loop ts
            (get_ack_through (quick_ack s (last_seqn s)))
            (get_nacks (quick_ack s (last_seqn s)))
            u.sent_packets
            u).0)
      ≡ false
unfolding contains
ack_loop-overrun ts k low s u m a =
    let q = quick_ack-many k s m in
    let through : get_ack_through (quick_ack s (last_seqn s)) ≡ k =
      ap get_ack_through q ∙ get_ack_through-ack_packet s [] k (omega (arith, m.bound)) in
    let nacks : get_nacks (quick_ack s (last_seqn s)) ≡ [] =
      ap get_nacks q ∙ get_nacks-ack_packet s [] k (omega arith) tt in
    ap
      (λ t.
        contains k
          (map get_seqn (ack_loop ts t (get_nacks (quick_ack s (last_seqn s))) u.sent_packets u).0))
      through
    ∙ ap (λ t. contains k (map get_seqn (ack_loop ts k t u.sent_packets u).0)) nacks
    ∙ ack_loop-contains k ts k low [] u.sent_packets u a
    ∙ none_left k (contains k (map get_seqn u.sent_packets))
