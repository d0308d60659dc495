-- ===== src/Streaming/Ordering/Arrivals.antt =====
-- src/client/api/streaming.cc: packets that come in any order are put in order.
use mathlib.Core.Path.{subst}
use xi2p_old.Base.{
  ℕ, suc, ◌+◌, ◌-◌, ◌%◌, ◌^◌, ◌≤◌, ◌<◌, ◌≡◌, ◌≢◌, ==_iff, leb, refl, sym, ap, ◌∙◌, inl, inr, Bool,
  true, false, Bool-cases, List, [], ◌∷◌, map, not, ◌||◌, ◌&&◌, ◌==◌, length, Result, ok, arith,
  ltb, if◌then◌else◌,
}
use xi2p_old.Streaming.{
  Packet, Stream, Owner, get_seqn, is_syn, is_no_ack, insert_packet, signed_le, is_negative,
  next_number, emit, cancel_ack,
}
use xi2p_old.Streaming.Receiving.{
  contains, schedule, save_packet, handle_sequenced, handle_next_packet, count_packet, process_ack,
}
use xi2p_old.Streaming.Frames.{
  Same, same, process_ack-Same, send_quick_ack-Same, either, schedule-Same, ◌then_same◌,
}
use xi2p_old.Streaming.Parts.{IsPartOf, get_elem?-lt}
use xi2p_old.Streaming.Ordering.{
  Waiting, has, has_next, InOrder, Same-InOrder, number_of, Arrived, Reaches, Same-Reaches,
  handle_in_sequence-Reaches,
}

has_self : (k n j : ℕ) (c : Bool) → n < k → (ltb j k || c) ≡ ((j == n) || (ltb j k || c))
has_self k n j true h = ground arith
has_self k n j false h = ground arith

has_saved : (k n j : ℕ) (c : Bool) → (ltb j k || ((j == n) || c)) ≡ ((j == n) || (ltb j k || c))
has_saved k n j true = ground arith
has_saved k n j false = ground arith

repeated : (j m n : ℕ) (c : Bool) → m ≡ n → ((j == n) || c) ≡ ((j == m) || ((j == n) || c))
repeated j m n true e = ground arith
repeated j m n false e = ground arith

exchange : (a b c : Bool) → (b || (a || c)) ≡ (a || (b || c))
exchange true true c = refl
exchange true false c = refl
exchange false b c = refl

above : (n k : ℕ) → (n == k) ≡ false → ltb n k ≡ false → k < n
above n k e f = ground arith

leb_of_le : (a b : ℕ) → a ≤ b → leb a b ≡ true
leb_of_le a b h = ground arith

leb_of_lt : (a b : ℕ) → b < a → leb a b ≡ false
leb_of_lt a b h = ground arith

-- The tests of HandleNextPacket on the number of a part.
not_plain : (n : ℕ) (syn : Bool) → syn ≡ (n == 0) → (n == 0 && not syn) ≡ false
not_plain n syn e = ground arith

next_in_sequence : (n k : ℕ) (syn : Bool) → n ≡ k → (syn || n == k) ≡ true
next_in_sequence n k syn e = ground arith

not_in_sequence :
    (n m k : ℕ) (syn : Bool)
    → syn ≡ (n == 0)
    → m ≡ k
    → n ≢ k
    → (n ≡ 0 → k ≡ 0)
    → (syn || n == m) ≡ false
not_in_sequence n m k syn e h d z = ground arith

signed_le_less :
    (n k last : ℕ)
    → n < k
    → k < 2 ^ 31
    → last ≡ (k + (2 ^ 32 - 1)) % 2 ^ 32
    → signed_le n last ≡ true
unfolding signed_le
signed_le_less n k last l b e =
    let before : last ≡ k - 1 = omega arith in
    let a : (n + 2 ^ 31) % 2 ^ 32 ≡ n + 2 ^ 31 = omega arith in
    let c : (last + 2 ^ 31) % 2 ^ 32 ≡ last + 2 ^ 31 = omega arith in
    rw (a, c) (leb_of_le (n + 2 ^ 31) (last + 2 ^ 31) (omega arith))

signed_le_more :
    (n k last : ℕ)
    → k < n
    → n < 2 ^ 31
    → last ≡ (k + (2 ^ 32 - 1)) % 2 ^ 32
    → signed_le n last ≡ false
unfolding signed_le
signed_le_more n k last l b e =
    let a : (n + 2 ^ 31) % 2 ^ 32 ≡ n + 2 ^ 31 = omega arith in
    let below : (last + 2 ^ 31) % 2 ^ 32 < n + 2 ^ 31 = omega arith in
    rw (a) (leb_of_lt (n + 2 ^ 31) ((last + 2 ^ 31) % 2 ^ 32) below)

module _ (o : Owner) (ds : List (List ℕ)) (few : length ds < 2 ^ 31) where
  insert_packet-Waiting :
      (low : ℕ) (p : Packet) (ps : List Packet)
      → low ≤ get_seqn p
      → IsPartOf o ds p
      → Waiting o ds low ps
      → Waiting o ds low (insert_packet p ps)
  unfolding insert_packet
  insert_packet-Waiting low p [] l x w = (l, x, tt)
  insert_packet-Waiting low p (q ∷ qs) l x (m, y, w) =
      elim (Bool-cases (ltb (get_seqn p) (get_seqn q))) [
        | inl t ↦ rw (t) (l, x, (ground arith, y, w))
        | inr f ↦ elim (Bool-cases (get_seqn p == get_seqn q)) [
          | inl t ↦ rw (f, t) (m, y, w)
          | inr g ↦
              rw (f, g) (m, y, insert_packet-Waiting (suc (get_seqn q)) p qs (ground arith) x w)
        ]
      ]

  contains-insert_packet :
      (p : Packet) (ps : List Packet) (j : ℕ)
      → contains j (map get_seqn (insert_packet p ps))
        ≡ ((j == get_seqn p) || contains j (map get_seqn ps))
  unfolding insert_packet contains
  contains-insert_packet p [] j = refl
  contains-insert_packet p (q ∷ qs) j = elim (Bool-cases (ltb (get_seqn p) (get_seqn q))) [
    | inl t ↦ rw (t) refl
    | inr f ↦ elim (Bool-cases (get_seqn p == get_seqn q)) [
      | inl t ↦ rw (f, t) (repeated j (get_seqn p) (get_seqn q) _ (ground arith))
      | inr g ↦
          rw (f, g, contains-insert_packet p qs j)
            (exchange (j == get_seqn p) (j == get_seqn q) (contains j (map get_seqn qs)))
    ]
  ]

  save_packet-Same :
      (p : Packet) (s : Stream)
      → Same (record s { saved_packets = insert_packet p s.saved_packets }) (save_packet p s)
  unfolding save_packet schedule
  save_packet-Same p s =
      let s1 : Stream = record s { saved_packets = insert_packet p s.saved_packets } in
      let stopped : Stream = emit cancel_ack (record s1 { is_ack_send_scheduled = false }) in
      either (is_negative s.last_received) (schedule-Same s1) (
        either s.is_ack_send_scheduled (record { last = refl; saved = refl; queue = refl }) same
        then_same send_quick_ack-Same (if s.is_ack_send_scheduled then stopped else s1))

  saved_after :
      (ts : ℕ) (p : Packet) (s : Stream) (a : Arrived o ds few s)
      → IsPartOf o ds p
      → a.k < get_seqn p
      → Reaches o ds few
          (ok (tt, save_packet p s))
          (λ j. ltb j a.k || ((j == get_seqn p) || contains j (map get_seqn a.saved)))
  saved_after ts p s a part l =
      let s1 : Stream = record s { saved_packets = insert_packet p s.saved_packets } in
      let a1 : Arrived o ds few s1 = record {
        k = a.k;
        saved = insert_packet p a.saved;
        in_order = record {
          bound = a.in_order.bound;
          last = a.in_order.last;
          holds = a.in_order.holds;
        };
        kept = ap (insert_packet p) a.kept;
        waiting = insert_packet-Waiting (suc a.k) p a.saved l part a.waiting;
      } in
      Same-Reaches o ds few _ a1 (save_packet-Same p s)
        (λ j. ap (λ c. ltb j a.k || c) (contains-insert_packet p a.saved j))

  -- A handler that does the same, and the same parts named otherwise.
  along :
      {r r' : Result (Unit {0} × Stream)} {from to : ℕ → Bool}
      → r ≡ r'
      → ((j : ℕ) → from j ≡ to j)
      → Reaches o ds few r' from
      → Reaches o ds few r to
  along e c a = record {
    state = a.state;
    result = e ∙ a.result;
    arrived = a.arrived;
    came = λ j. a.came j ∙ c j;
  }

  handle_sequenced-Reaches :
      (ts : ℕ) (p : Packet) (s : Stream) (a : Arrived o ds few s)
      → IsPartOf o ds p
      → (get_seqn p ≡ 0 → a.k ≡ 0)
      → Reaches o ds few (handle_sequenced o ts p s) (λ j. (j == get_seqn p) || has a.k a.saved j)
  unfolding handle_sequenced contains
  handle_sequenced-Reaches ts p s a part z =
      let n = get_seqn p in
      let limit : n < length ds = get_elem?-lt ds n part.0 part.1 in
      let number : next_number s.last_received ≡ a.k = number_of o ds few a.in_order in
      let plain : (n == 0 && not (is_syn p)) ≡ false = not_plain n (is_syn p) part.2.syn in
      let old = a.in_order in
      elim (Bool-cases (n == a.k)) [
        | inl t ↦
            let now : a.k ≡ n = sym ((==_iff n a.k).0 t) in
            let in_sequence : (is_syn p || n == next_number s.last_received) ≡ true =
              next_in_sequence n (next_number s.last_received) (is_syn p) (sym (number ∙ now)) in
            along (rw (plain, in_sequence) refl)
              (λ j.
                has_next a.k n j (contains j (map get_seqn a.saved)) now
                ∙ has_saved a.k n j (contains j (map get_seqn a.saved)))
              (handle_in_sequence-Reaches o ds few ts p a.saved s part
                (subst (λ m. InOrder ds m s) now a.in_order) a.kept
                (subst (λ m. Waiting o ds (suc m) a.saved) now a.waiting))
        | inr f ↦
            let other : n ≢ a.k = λ e. cc (sym f ∙ (==_iff n a.k).1 e) in
            let out_of_sequence : (is_syn p || n == next_number s.last_received) ≡ false =
              not_in_sequence n (next_number s.last_received) a.k (is_syn p) part.2.syn number other
                z in
            elim (Bool-cases (ltb n a.k)) [
              | inl t ↦
                  let less : n < a.k = ground arith in
                  along
                    (rw
                      (
                        plain,
                        out_of_sequence,
                        signed_le_less n a.k s.last_received less (omega (arith, few, old.bound))
                            old.last,
                      )
                      refl)
                    (λ j. has_self a.k n j (contains j (map get_seqn a.saved)) less)
                    (Same-Reaches o ds few (has a.k a.saved) a (send_quick_ack-Same s) (λ j. refl))
              | inr g ↦
                  let more : a.k < n = above n a.k f g in
                  along
                    (rw
                      (
                        plain,
                        out_of_sequence,
                        signed_le_more n a.k s.last_received more (omega (arith, few, limit))
                            old.last,
                      )
                      refl)
                    (λ j. has_saved a.k n j (contains j (map get_seqn a.saved)))
                    (saved_after ts p s a part more)
            ]
      ]

  -- HandleNextPacket of a part, which is not a SYN where the first part has come.
  pub handle_next_packet-Reaches :
      (ts : ℕ) (p : Packet) (s : Stream) (a : Arrived o ds few s)
      → IsPartOf o ds p
      → (get_seqn p ≡ 0 → a.k ≡ 0)
      → Reaches o ds few (handle_next_packet o ts p s) (λ j. (j == get_seqn p) || has a.k a.saved j)
  unfolding handle_next_packet
  handle_next_packet-Reaches ts p s a part z =
      let s1 = count_packet p s in
      let counted : Same s s1 = record { last = refl; saved = refl; queue = refl } in
      let m : Same s (if is_no_ack p then s1 else process_ack o ts p s1) =
        either (is_no_ack p) counted (counted then_same process_ack-Same o ts p s1) in
      handle_sequenced-Reaches ts p (if is_no_ack p then s1 else process_ack o ts p s1)
        (record {
          k = a.k;
          saved = a.saved;
          in_order = Same-InOrder m a.in_order;
          kept = m.saved ∙ a.kept;
          waiting = a.waiting;
        })
        part z
