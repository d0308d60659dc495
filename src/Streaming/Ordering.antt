-- ===== src/Streaming/Ordering.antt =====
-- src/client/api/streaming.cc: packets that come in sequence, and the saved ones behind them.
pub mod Arrivals
use mathlib.Core.Path.{subst}
use xi2p_old.Base.{
  ℕ, suc, ◌+◌, ◌-◌, ◌%◌, ◌^◌, ◌≤◌, ◌<◌, ◌≡◌, ◌≢◌, ==_iff, leb, refl, sym, ap, ◌∙◌, inl, inr, Bool,
  true, false, Bool-cases, List, [], ◌∷◌, map, not, ◌||◌, ◌&&◌, ◌==◌, length, Result, ok, arith,
  ltb, if◌then◌else◌, Method, ◌>>=◌, ◌>>◌,
}
use xi2p_old.Streaming.{
  Packet, Stream, Owner, get_seqn, is_syn, is_no_ack, insert_packet, signed_le, is_negative,
  next_number, emit, cancel_ack,
}
use xi2p_old.Streaming.Receiving.{
  process_packet, process_saved, contains, answer, schedule, save_packet, handle_in_sequence,
  handle_sequenced, handle_next_packet, count_packet, process_ack,
}
use xi2p_old.Streaming.Frames.{
  Same, same, process_ack-Same, answer-Same, send_quick_ack-Same, either, schedule-Same,
  ◌then_same◌,
}
use xi2p_old.Streaming.Parts.{IsPartOf, Holds, process_packet-Accepts, Accepts-Holds, get_elem?-lt}

-- The saved packets: parts in order, none before `low`.
abbrev pub Waiting : Owner → List (List ℕ) → ℕ → List Packet → Type 0
Waiting o ds low [] = Unit
Waiting o ds low (p ∷ ps) =
    (low ≤ get_seqn p) × IsPartOf o ds p × Waiting o ds (suc (get_seqn p)) ps

-- Which parts have come, where the first k are in the queue.
abbrev pub has : ℕ → List Packet → ℕ → Bool
has k saved j = ltb j k || contains j (map get_seqn saved)

pub has_next : (k n j : ℕ) (c : Bool) → k ≡ n → (ltb j (suc n) || c) ≡ (ltb j k || ((j == n) || c))
has_next k n j true h = ground arith
has_next k n j false h = ground arith

-- The first k parts are in the queue.
pub record InOrder (ds : List (List ℕ)) (k : ℕ) (s : Stream) : Type 0 where
  pub bound : k ≤ length ds
  pub last : s.last_received ≡ (k + (2 ^ 32 - 1)) % 2 ^ 32
  pub holds : Holds ds k s.receive_queue

pub Same-InOrder :
    {ds : List (List ℕ)} {k : ℕ} {s t : Stream} → Same s t → InOrder ds k s → InOrder ds k t
Same-InOrder m i = record { bound = i.bound; last = m.last ∙ i.last; holds = rw (m.queue) i.holds }

Waiting-weaken :
    (o : Owner) (ds : List (List ℕ)) (a b : ℕ) (ps : List Packet)
    → b ≤ a
    → Waiting o ds a ps
    → Waiting o ds b ps
Waiting-weaken o ds a b [] h w = tt
Waiting-weaken o ds a b (p ∷ ps) h (l, x, w) = (omega arith, x, w)

pub then_ok : (m k : Method Stream (Unit {0})) (s t : Stream) → m s ≡ ok (tt, t) → (m >> k) s ≡ k t
unfolding ◌>>◌ ◌>>=◌
then_ok m k s t e = rw (e, ◌>>=◌) refl

module _ (o : Owner) (ds : List (List ℕ)) (few : length ds < 2 ^ 31) where
  pub number_of : {k : ℕ} {s : Stream} → InOrder ds k s → next_number s.last_received ≡ k
  unfolding next_number
  number_of i = omega (arith, i.last, i.bound)

  -- What has come in, and what the stream has made of it.
  pub record Arrived (s : Stream) : Type 0 where
    pub k : ℕ
    pub saved : List Packet
    pub in_order : InOrder ds k s
    pub kept : s.saved_packets ≡ saved
    pub waiting : Waiting o ds (suc k) saved

  -- A handler that returns, in a state where the parts of `from` have come.
  pub record Reaches (r : Result (Unit {0} × Stream)) (from : ℕ → Bool) : Type 0 where
    pub state : Stream
    pub result : r ≡ ok (tt, state)
    pub arrived : Arrived state
    pub came : (j : ℕ) → has arrived.k arrived.saved j ≡ from j

  process_next :
      (p : Packet) (s : Stream)
      → IsPartOf o ds p
      → InOrder ds (get_seqn p) s
      → (t : Stream) × (process_packet o p s ≡ ok (tt, t))
        × InOrder ds (suc (get_seqn p)) t
        × (t.saved_packets ≡ s.saved_packets)
  process_next p s part i =
      let a = process_packet-Accepts o p part.0 s part.2 i.holds.queued in
      (
        a.state,
        a.result,
        record {
          bound = omega (arith, get_elem?-lt ds (get_seqn p) part.0 part.1);
          last = a.last ∙ omega (arith, few, get_elem?-lt ds (get_seqn p) part.0 part.1);
          holds = Accepts-Holds ds (get_seqn p) part.1 a i.holds;
        },
        a.saved,
      )

  -- The loop over the saved packets.
  process_saved-Reaches :
      (k : ℕ) (ps : List Packet) (s : Stream)
      → InOrder ds k s
      → s.saved_packets ≡ ps
      → Waiting o ds k ps
      → Reaches (process_saved o ps s) (has k ps)
  unfolding process_saved contains
  process_saved-Reaches k [] s i e w = record {
    state = s;
    result = refl;
    arrived = record { k = k; saved = []; in_order = i; kept = e; waiting = tt };
    came = λ j. refl;
  }
  process_saved-Reaches k (p ∷ ps) s i e (l, part, w) =
      let number : next_number s.last_received ≡ k = number_of i in
      elim (Bool-cases (get_seqn p == next_number s.last_received)) [
        | inl t ↦
            let now : k ≡ get_seqn p = ground (arith, number) in
            let i' : InOrder ds (get_seqn p) (record s { saved_packets = ps }) = record {
              bound = omega (arith, i.bound);
              last = i.last ∙ ap (λ n. (n + (2 ^ 32 - 1)) % 2 ^ 32) now;
              holds = subst (λ n. Holds ds n s.receive_queue) now i.holds;
            } in
            let (t', r, i2, v) = process_next p (record s { saved_packets = ps }) part i' in
            let rest = process_saved-Reaches (suc (get_seqn p)) ps t' i2 v w in
            record {
              state = rest.state;
              result = rw (t) (
                  then_ok (process_packet o p) (process_saved o ps)
                    (record s { saved_packets = ps }) t' r
                  ∙ rest.result);
              arrived = rest.arrived;
              came =
                  λ j. rest.came j ∙ has_next k (get_seqn p) j (contains j (map get_seqn ps)) now;
            }
        | inr f ↦ record {
          state = s;
          result = rw (f) refl;
          arrived = record {
            k = k;
            saved = p ∷ ps;
            in_order = i;
            kept = e;
            waiting = (ground (arith, number), part, w);
          };
          came = λ j. refl;
        }
      ]

  pub Same-Reaches :
      {s t : Stream} (from : ℕ → Bool) (a : Arrived s)
      → Same s t
      → ((j : ℕ) → has a.k a.saved j ≡ from j)
      → Reaches (ok (tt, t)) from
  Same-Reaches {s} {t} from a m c = record {
    state = t;
    result = refl;
    arrived = record {
      k = a.k;
      saved = a.saved;
      in_order = Same-InOrder m a.in_order;
      kept = m.saved ∙ a.kept;
      waiting = a.waiting;
    };
    came = c;
  }

  pub handle_in_sequence-Reaches :
      (ts : ℕ) (p : Packet) (ps : List Packet) (s : Stream)
      → IsPartOf o ds p
      → InOrder ds (get_seqn p) s
      → s.saved_packets ≡ ps
      → Waiting o ds (suc (get_seqn p)) ps
      → Reaches (handle_in_sequence o ts p s) (has (suc (get_seqn p)) ps)
  unfolding handle_in_sequence Same-Reaches answer
  handle_in_sequence-Reaches ts p ps s part i e w =
      let done : Method Stream (Unit {0}) = λ x. ok (tt, answer o ts (is_syn p) x) in
      let (t, r, i2, v) = process_next p s part i in
      let rest = process_saved-Reaches (suc (get_seqn p)) ps t i2 (v ∙ e) w in
      let end =
        Same-Reaches (has (suc (get_seqn p)) ps) rest.arrived
          (answer-Same o ts (is_syn p) rest.state) rest.came in
      record {
        state = end.state;
        result =
            then_ok (process_packet o p >> (λ x. process_saved o x.saved_packets x)) done s
              rest.state
              (then_ok (process_packet o p) (λ x. process_saved o x.saved_packets x) s t r
                ∙ ap (λ l. process_saved o l t) (v ∙ e)
                ∙ rest.result);
        arrived = end.arrived;
        came = end.came;
      }
