-- ===== src/Streaming/Acks/Quick.antt =====
-- src/client/api/streaming.cc: a quick acknowledgement, and what ProcessAck takes it for.
use xi2p_old.Base.{
  ℕ, zero, suc, ◌+◌, ◌-◌, ◌^◌, ◌≤◌, ◌<◌, ◌≡◌, refl, sym, ap, ◌∙◌, Bool, true, false, not, ◌&&◌,
  ◌||◌, leb, ltb, ◌==◌, Option, none, List, [], ◌∷◌, ◌++◌, map, length, All, arith, if◌then◌else◌,
}
use xi2p_old.Streaming.{
  Packet, Stream, get_seqn, get_ack_through, get_nacks, next_number, signed_le,
}
use xi2p_old.Streaming.Sending.{
  range, fill_nacks, highest_seqn, ack_packet, or_else, quick_ack, last_seqn,
}
use xi2p_old.Streaming.Receiving.{contains, ack_loop}
use xi2p_old.Streaming.Acks.{
  Ascending, gaps, end, fill_nacks-gaps, next_number-suc, or_of, Ascending-contains, low-end,
  contains-gaps, get_ack_through-ack_packet, get_nacks-ack_packet, ack_loop-contains,
}

suc-highest_seqn :
    (low last : ℕ) (ps : List Packet) → suc last ≡ low → suc (highest_seqn last ps) ≡ end low ps
unfolding highest_seqn end
suc-highest_seqn low last [] e = e
suc-highest_seqn low last (p ∷ ps) e = suc-highest_seqn (suc (get_seqn p)) (get_seqn p) ps refl

end_bound : (low : ℕ) (ps : List Packet) → Ascending low ps → low ≤ 2 ^ 31 → end low ps ≤ 2 ^ 31
unfolding end
end_bound low [] h l = l
end_bound low (p ∷ ps) (a, b, h) l = end_bound (suc (get_seqn p)) ps h (omega arith)

-- A saved packet stands before the end.
Ascending-end :
    (j low : ℕ) (ps : List Packet)
    → Ascending low ps
    → end low ps ≤ j
    → contains j (map get_seqn ps) ≡ false
unfolding end contains
Ascending-end j low [] h l = refl
Ascending-end j low (p ∷ ps) (a, b, h) l =
    or_of (j == get_seqn p) (contains j (map get_seqn ps))
      (ground (arith, low-end (suc (get_seqn p)) ps h)) (Ascending-end j (suc (get_seqn p)) ps h l)

All-range : (a n : ℕ) → a + n ≤ 2 ^ 31 → All (λ i. i < 2 ^ 32) (range a n)
unfolding range
All-range a zero h = tt
All-range a (suc n) h = (omega arith, All-range (a + 1) n (omega arith))

All-append :
    (xs ys : List ℕ)
    → All (λ i. i < 2 ^ 32) xs
    → All (λ i. i < 2 ^ 32) ys
    → All (λ i. i < 2 ^ 32) (xs ++ ys)
All-append [] ys h k = k
All-append (x ∷ xs) ys (a, h) k = (a, All-append xs ys h k)

All-gaps : (low : ℕ) (ps : List Packet) → Ascending low ps → All (λ i. i < 2 ^ 32) (gaps low ps)
unfolding gaps
All-gaps low [] h = tt
All-gaps low (p ∷ ps) (a, b, h) =
    All-append (range low (get_seqn p - low)) (gaps (suc (get_seqn p)) ps)
      (All-range low (get_seqn p - low) (omega arith)) (All-gaps (suc (get_seqn p)) ps h)

-- A stream that has received the first k packets and those that it has saved, of which fewer than
-- 256 are missing.
pub record HasReceived (k : ℕ) (s : Stream) : Type 0 where
  pub some_packet : 0 < k
  pub bound : k < 2 ^ 31
  pub last : s.last_received ≡ k - 1
  pub saved : Ascending k s.saved_packets
  pub few : length (gaps k s.saved_packets) < 256

pub signed_le-leb : (a b : ℕ) → a < 2 ^ 31 → b < 2 ^ 31 → signed_le a b ≡ leb a b
unfolding signed_le
signed_le-leb a b h k = ground arith

pub either_value :
    {A : Type 0} (b : Bool) (x y z : A)
    → (b ≡ true → x ≡ z)
    → (b ≡ false → y ≡ z)
    → (if b then x else y) ≡ z
either_value true x y z e f = e refl
either_value false x y z e f = f refl

same_number :
    (h last k end : ℕ) → suc h ≡ end → suc last ≡ k → k ≤ end → leb h last ≡ true → last ≡ h
same_number h last k end e l a t = ground arith

ends_at : (h last k end : ℕ) → suc h ≡ end → suc last ≡ k → leb h last ≡ true → end ≤ k
ends_at h last k end e l t = ground arith

gaps-none : (low : ℕ) (ps : List Packet) → Ascending low ps → end low ps ≤ low → gaps low ps ≡ []
unfolding gaps end
gaps-none low [] h l = refl
gaps-none low (p ∷ ps) (a, b, h) l = absurd (omega (arith, low-end (suc (get_seqn p)) ps h))

-- The packet that SendQuickAck makes.
quick_ack_lem :
    (k : ℕ) (s : Stream)
    → HasReceived k s
    → (h : ℕ) × (suc h ≡ end k s.saved_packets)
      × (quick_ack s (last_seqn s) ≡ ack_packet s (gaps k s.saved_packets) h)
unfolding quick_ack last_seqn or_else
quick_ack_lem k s r =
    let h = highest_seqn s.last_received s.saved_packets in
    let e =
      suc-highest_seqn k s.last_received s.saved_packets (omega (arith, r.last, r.some_packet)) in
    let small : h < 2 ^ 31 =
      omega (arith, e, end_bound k s.saved_packets r.saved (omega (arith, r.bound))) in
    let last : suc s.last_received ≡ k = omega (arith, r.last, r.some_packet) in
    let from : next_number s.last_received ≡ k =
      next_number-suc s.last_received (omega (arith, r.bound)) ∙ last in
    let order = signed_le-leb h s.last_received small (omega (arith, r.bound)) in
    let above_last = low-end k s.saved_packets r.saved in
    let chosen : last_seqn s ≡ h =
      either_value (signed_le h s.last_received) s.last_received h h
        (λ t.
          same_number h s.last_received k (end k s.saved_packets) e last above_last (sym order ∙ t))
        (λ f. refl) in
    let filled : fill_nacks 0 (next_number s.last_received) s.saved_packets
        ≡ (gaps k s.saved_packets, none) =
      ap (λ n. fill_nacks 0 n s.saved_packets) from
      ∙ fill_nacks-gaps 0 k s.saved_packets r.saved (omega (arith, r.few)) in
    (
      h,
      e,
      ap (quick_ack s) chosen
          ∙ either_value (signed_le h s.last_received) (ack_packet s [] h) _
              (ack_packet s (gaps k s.saved_packets) h)
              (λ t.
                ap (λ ns. ack_packet s ns h)
                  (sym (
                    gaps-none k s.saved_packets r.saved (
                      ends_at h s.last_received k (end k s.saved_packets) e last (sym order ∙ t)))))
              (λ f. ap (λ (x : List ℕ × Option ℕ). ack_packet s x.0 (or_else h x.1)) filled),
    )

final_step :
    (j k h end : ℕ) (c : Bool)
    → suc h ≡ end
    → (j < k → c ≡ false)
    → (end ≤ j → c ≡ false)
    → k ≤ end
    → (not (leb j h && not ((leb k j && ltb j end) && not c))) ≡ not (ltb j k || c)
final_step j k h end true e a b l = ground (arith, a, b)
final_step j k h end false e a b l = ground arith

-- What an acknowledgement of the packets received so far, by a stream that has received the first k,
-- at least one, and has saved others in the order of their numbers, with fewer than 256 missing
-- before them, makes the loop of ProcessAck of another stream do with its sent packets, which are in
-- the order of their numbers, where all numbers are below 2^31: those that have been received go,
-- and the others stay.
pub ack_loop-quick_ack :
    (j ts k low : ℕ) (s u : Stream)
    → HasReceived k s
    → Ascending low u.sent_packets
    → contains j (
        map get_seqn
          (ack_loop ts
            (get_ack_through (quick_ack s (last_seqn s)))
            (get_nacks (quick_ack s (last_seqn s)))
            u.sent_packets
            u).0)
      ≡ (contains j (map get_seqn u.sent_packets)
          && not (ltb j k || contains j (map get_seqn s.saved_packets)))
ack_loop-quick_ack j ts k low s u r a =
    let (h, e, q) = quick_ack_lem k s r in
    let ns = gaps k s.saved_packets in
    let small : h < 2 ^ 32 =
      omega (arith, e, end_bound k s.saved_packets r.saved (omega (arith, r.bound))) in
    let through : get_ack_through (quick_ack s (last_seqn s)) ≡ h =
      ap get_ack_through q ∙ get_ack_through-ack_packet s ns h small in
    let nacks : get_nacks (quick_ack s (last_seqn s)) ≡ ns =
      ap get_nacks q ∙ get_nacks-ack_packet s ns h r.few (All-gaps k s.saved_packets r.saved) in
    let sent = contains j (map get_seqn u.sent_packets) in
    ap
      (λ t.
        contains j
          (map get_seqn (ack_loop ts t (get_nacks (quick_ack s (last_seqn s))) u.sent_packets u).0))
      through
    ∙ ap (λ t. contains j (map get_seqn (ack_loop ts h t u.sent_packets u).0)) nacks
    ∙ ack_loop-contains j ts h low ns u.sent_packets u a
    ∙ ap (λ c. sent && not (leb j h && not c)) (contains-gaps j k s.saved_packets r.saved)
    ∙ ap (λ c. sent && c)
        (final_step j k h (end k s.saved_packets) (contains j (map get_seqn s.saved_packets)) e
          (Ascending-contains j k s.saved_packets r.saved)
          (Ascending-end j k s.saved_packets r.saved) (low-end k s.saved_packets r.saved))
