-- ===== src/Streaming/Delivery.antt =====
-- src/client/api/streaming.cc: the reader of a stream gets what the other side sent.
use xi2p_old.Base.{
  ℕ, suc, ◌-◌, ◌^◌, ◌<◌, ◌≡◌, refl, sym, ap, ◌∙◌, Bool, true, false, List, [], ◌∷◌, map, ◌||◌, ◌==◌,
  length, take, ok, arith, ltb, Method, ◌>>◌,
}
use xi2p_old.Streaming.{Packet, Stream, Owner, get_seqn}
use xi2p_old.Streaming.Receiving.{contains, handle_next_packet, read_some}
use xi2p_old.Streaming.Parts.{join, queue_bytes, IsPartOf, concatenate-take, read_some_lem}
use xi2p_old.Streaming.Ordering.{Waiting, has, Arrived, Reaches, then_ok}
use xi2p_old.Streaming.Ordering.Arrivals.{handle_next_packet-Reaches}

-- Packets that come in one after the other, each at its time.
unfoldable pub receive_all : Owner → List (ℕ × Packet) → Method Stream (Unit {0})
unfolding ◌>>◌
receive_all o [] s = ok (tt, s)
receive_all o ((ts, p) ∷ xs) s = (handle_next_packet o ts p >> receive_all o xs) s

abbrev pub numbers : List (ℕ × Packet) → List ℕ
numbers [] = []
numbers ((ts, p) ∷ xs) = get_seqn p ∷ numbers xs

abbrev pub AreParts : Owner → List (List ℕ) → List (ℕ × Packet) → Type 0
AreParts o ds [] = Unit
AreParts o ds ((ts, p) ∷ xs) = IsPartOf o ds p × AreParts o ds xs

-- The first part comes once at most.
abbrev pub SynOnce : Bool → List (ℕ × Packet) → Type 0
SynOnce seen [] = Unit
SynOnce seen ((ts, p) ∷ xs) = (get_seqn p ≡ 0 → seen ≡ false) × SynOnce (get_seqn p == 0 || seen) xs

-- A stream that has received nothing.
pub record IsFresh (s : Stream) : Type 0 where
  pub last : s.last_received ≡ 2 ^ 32 - 1
  pub saved : s.saved_packets ≡ []
  pub queue : s.receive_queue ≡ []

none_yet : (k : ℕ) (c : Bool) → (ltb 0 k || c) ≡ false → k ≡ 0
none_yet k c h = ground arith

seen_next : (n : ℕ) (seen h : Bool) → seen ≡ h → (n == 0 || seen) ≡ (0 == n || h)
seen_next n seen h e = ground arith

or_false : (b : Bool) → (b || false) ≡ b
or_false true = refl
or_false false = refl

or_assoc : (a b c : Bool) → (b || (a || c)) ≡ ((a || b) || c)
or_assoc true true c = refl
or_assoc true false c = refl
or_assoc false b c = refl

below_has : (j k : ℕ) (c : Bool) → j < k → (ltb j k || c) ≡ true
below_has j k c h = ground arith

not_below : (k : ℕ) (c : Bool) → c ≡ false → (ltb k k || c) ≡ false
not_below k c h = ground arith

module _ (o : Owner) (ds : List (List ℕ)) (few : length ds < 2 ^ 31) where
  pub Waiting-contains :
      (k low : ℕ) (ps : List Packet)
      → k < low
      → Waiting o ds low ps
      → contains k (map get_seqn ps) ≡ false
  unfolding contains
  Waiting-contains k low [] l w = refl
  Waiting-contains k low (p ∷ ps) l (m, x, w) =
      ground (arith, Waiting-contains k (suc (get_seqn p)) ps (omega arith) w)

  pub receive_all-Reaches :
      (xs : List (ℕ × Packet)) (seen : Bool) (s : Stream) (a : Arrived o ds few s)
      → seen ≡ has a.k a.saved 0
      → AreParts o ds xs
      → SynOnce seen xs
      → Reaches o ds few (receive_all o xs s) (λ j. contains j (numbers xs) || has a.k a.saved j)
  unfolding receive_all contains
  receive_all-Reaches [] seen s a e x y = record {
    state = s;
    result = refl;
    arrived = a;
    came = λ j. refl;
  }
  receive_all-Reaches ((ts, p) ∷ xs) seen s a e (part, x) (once, y) =
      let first =
        handle_next_packet-Reaches o ds few ts p s a part
          (λ z. none_yet a.k (contains 0 (map get_seqn a.saved)) (sym e ∙ once z)) in
      let rest =
        receive_all-Reaches xs (get_seqn p == 0 || seen) first.state first.arrived
          (seen_next (get_seqn p) seen (has a.k a.saved 0) e ∙ sym (first.came 0)) x y in
      record {
        state = rest.state;
        result =
            then_ok (handle_next_packet o ts p) (receive_all o xs) s first.state first.result
            ∙ rest.result;
        arrived = rest.arrived;
        came = λ j.
            rest.came j
            ∙ ap (λ b. contains j (numbers xs) || b) (first.came j)
            ∙ or_assoc (j == get_seqn p) (contains j (numbers xs)) (has a.k a.saved j);
      }

  IsFresh-Arrived : {s : Stream} → IsFresh s → Arrived o ds few s
  unfolding queue_bytes
  IsFresh-Arrived f = record {
    k = 0;
    saved = [];
    in_order = record {
      bound = omega arith;
      last = f.last;
      holds = record { bytes = rw (f.queue) refl; queued = rw (f.queue) tt };
    };
    kept = f.saved;
    waiting = tt;
  }

  nothing_came :
      {s : Stream} (f : IsFresh s) (j : ℕ)
      → has (IsFresh-Arrived f).k (IsFresh-Arrived f).saved j ≡ false
  unfolding IsFresh-Arrived contains
  nothing_came f j = ground arith

  -- Packets that each carry the one of fewer than 2^31 parts that has their number, in any order, at any times and with
  -- repetitions, but the SYN once at most, come to a new stream: then no packet fails, and there is a
  -- k such that all the packets below k have come and packet k has not, and the reader is given for n
  -- bytes the first n of the first k parts joined.
  pub receive_all-read_some :
      (xs : List (ℕ × Packet)) (n : ℕ) (s : Stream)
      → IsFresh s
      → AreParts o ds xs
      → SynOnce false xs
      → (k : ℕ) × (t : Stream) × (u : Stream) × (receive_all o xs s ≡ ok (tt, t))
        × (read_some n t ≡ ok (take n (join (take k ds)), u))
        × ((j : ℕ) → j < k → contains j (numbers xs) ≡ true)
        × (contains k (numbers xs) ≡ false)
  receive_all-read_some xs n s f x y =
      let r = receive_all-Reaches xs false s (IsFresh-Arrived f) (sym (nothing_came f 0)) x y in
      let a = r.arrived in
      let read = concatenate-take n r.state.receive_queue a.in_order.holds.queued in
      let came : (j : ℕ) → has a.k a.saved j ≡ contains j (numbers xs) = λ j.
        r.came j
        ∙ ap (λ b. contains j (numbers xs) || b) (nothing_came f j)
        ∙ or_false (contains j (numbers xs)) in
      (
        a.k,
        r.state,
        record r.state { receive_queue = read.rest },
        r.result,
        read_some_lem n r.state read.result
            ∙ ap (λ b. ok (take n b, record r.state { receive_queue = read.rest }))
                a.in_order.holds.bytes,
        λ j l. sym (came j) ∙ below_has j a.k (contains j (map get_seqn a.saved)) l,
        sym (came a.k)
            ∙ not_below a.k (contains a.k (map get_seqn a.saved))
                (Waiting-contains a.k (suc a.k) a.saved (omega arith) a.waiting),
      )
