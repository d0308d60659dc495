-- ===== src/Streaming/Transfer.antt =====
-- src/client/api/streaming.cc: what one side writes into a stream is what the other side reads.
use mathlib.Core.Path.{subst}
use mathlib.Core.List.{append-nil, append_assoc}
use xi2p_old.Base.{
  ℕ, zero, suc, ◌+◌, ◌-◌, ◌*◌, ◌^◌, ◌≤◌, ◌<◌, ◌≡◌, refl, sym, ap, ◌∙◌, inl, inr, Bool, true, false,
  Bool-cases, ◌||◌, ◌==◌, ltb, List, [], ◌∷◌, ◌++◌, map, length, take, take_all, replicate,
  length-append, length-replicate, take-append, get_elem?, some, All, ok, arith,
}
use xi2p_old.Streaming.{Packet, Stream, opened, Owner, get_seqn}
use xi2p_old.Streaming.Sending.{fill_packets, fill_at, follow_packets}
use xi2p_old.Streaming.Receiving.{contains, read_some}
use xi2p_old.Streaming.Parts.{join, queue_bytes, IsQueued, IsPart, concatenate-take, read_some_lem}
use xi2p_old.Streaming.Ordering.{has, InOrder, Arrived}
use xi2p_old.Streaming.Delivery.{
  Waiting-contains, receive_all, receive_all-Reaches, numbers, AreParts, SynOnce,
}
use xi2p_old.Streaming.Pieces.{payload_of, Numbered, MaySend, Pieces, follow_packets-Pieces}

-- Packets that come in, each one of those that were sent.
abbrev pub AreFrom : List Packet → List (ℕ × Packet) → Type 0
AreFrom ps [] = Unit
AreFrom ps ((ts, p) ∷ xs) = ((i : ℕ) × (get_elem? ps i ≡ some p)) × AreFrom ps xs

-- A stream that has received everything before number m, and has put it into the queue.
pub record IsWaitingFor (m : ℕ) (s : Stream) : Type 0 where
  pub last : s.last_received ≡ m - 1
  pub saved : s.saved_packets ≡ []
  pub queued : All IsQueued s.receive_queue

-- The parts: what is in the queue counts as part 0, and the parts up to number m are empty.
before : ℕ → List ℕ → List (List ℕ)
before m bytes = bytes ∷ replicate (m - 1) []

join_empty : (n : ℕ) → join (replicate n []) ≡ []
join_empty zero = refl
join_empty (suc n) = join_empty n

join-before : (m : ℕ) (bytes : List ℕ) → join (before m bytes) ≡ bytes
unfolding before
join-before m bytes = ap (λ x. bytes ++ x) (join_empty (m - 1)) ∙ append-nil bytes

join-append : (xs ys : List (List ℕ)) → join (xs ++ ys) ≡ join xs ++ join ys
join-append [] ys = refl
join-append (x ∷ xs) ys =
    ap (λ y. x ++ y) (join-append xs ys) ∙ sym (append_assoc x (join xs) (join ys))

length-before : (m : ℕ) (bytes : List ℕ) → 0 < m → length (before m bytes) ≡ m
unfolding before
length-before m bytes h = omega (arith, length-replicate {A = List ℕ} (m - 1) [])

get_elem?-append :
    (xs ys : List (List ℕ)) (i : ℕ) → get_elem? (xs ++ ys) (length xs + i) ≡ get_elem? ys i
get_elem?-append [] ys i = ap (get_elem? ys) (omega arith)
get_elem?-append (x ∷ xs) ys i =
    let shift : suc (length xs) + i ≡ suc (length xs + i) = omega arith in
    rw (shift) (get_elem?-append xs ys i)

length-map : (ps : List Packet) → length (map payload_of ps) ≡ length ps
length-map [] = refl
length-map (p ∷ ps) = ap suc (length-map ps)

-- A number below the end that is not in the queue has come, and is not saved.
at_end : (k : ℕ) (saved : Bool) → saved ≡ false → (ltb k k || saved) ≡ false
at_end k saved e = ground arith

or_first : (a b : Bool) → a ≡ true → (a || b) ≡ true
or_first a b e = ground arith

or_second : (a b c : Bool) → b ≡ true → (a || (b || c)) ≡ true
or_second true b c e = refl
or_second false b c e = or_first b c e

module _ (o : Owner) where
  Numbered-get :
      (m i : ℕ) (ps : List Packet) (p : Packet)
      → Numbered o m ps
      → get_elem? ps i ≡ some p
      → (get_seqn p ≡ m + i)
        × IsPart o p (payload_of p)
        × (get_elem? (map payload_of ps) i ≡ some (payload_of p))
  Numbered-get m i [] p n e = cc
  Numbered-get m zero (q ∷ ps) p (a, b, l, n) e =
      let same : q ≡ p = cc in
      (
        ap get_seqn (sym same) ∙ a ∙ omega arith,
        subst (λ x. IsPart o x (payload_of x)) same b,
        ap (λ x. some (payload_of x)) same,
      )
  Numbered-get m (suc i) (q ∷ ps) p (a, b, l, n) e =
      let (x, y, z) = Numbered-get (suc m) i ps p n e in (x ∙ omega arith, y, z)

  module _ (m : ℕ) (started : 0 < m) (bytes : List ℕ) (ps : List Packet)
      (numbered : Numbered o m ps) where
    parts : List (List ℕ)
    parts = before m bytes ++ map payload_of ps

    AreFrom-AreParts : (xs : List (ℕ × Packet)) → AreFrom ps xs → AreParts o parts xs
    unfolding parts
    AreFrom-AreParts [] h = tt
    AreFrom-AreParts ((ts, p) ∷ xs) ((i, e), h) =
        let (a, b, c) = Numbered-get m i ps p numbered e in
        let place : get_seqn p ≡ length (before m bytes) + i =
          a ∙ ap (λ k. k + i) (sym (length-before m bytes started)) in
        (
          (
            payload_of p,
            ap (get_elem? parts) place
                ∙ get_elem?-append (before m bytes) (map payload_of ps) i
                ∙ c,
            b,
          ),
          AreFrom-AreParts xs h,
        )

    AreFrom-SynOnce : (seen : Bool) (xs : List (ℕ × Packet)) → AreFrom ps xs → SynOnce seen xs
    AreFrom-SynOnce seen [] h = tt
    AreFrom-SynOnce seen ((ts, p) ∷ xs) ((i, e), h) =
        let (a, b, c) = Numbered-get m i ps p numbered e in
        (λ z. absurd (omega (arith, z, a, started)), AreFrom-SynOnce (get_seqn p == 0 || seen) xs h)

    IsWaitingFor-InOrder :
        (s : Stream)
        → m + length ps < 2 ^ 31
        → queue_bytes s.receive_queue ≡ bytes
        → IsWaitingFor m s
        → InOrder parts m s
    unfolding parts
    IsWaitingFor-InOrder s l e w = record {
      bound = omega (
        arith,
        length-before m bytes started,
        length-append (before m bytes) (map payload_of ps),
      );
      last = w.last ∙ omega arith;
      holds = record {
        bytes =
            e
            ∙ sym (join-before m bytes)
            ∙ ap join (
                sym (
                  take-append m (before m bytes) (map payload_of ps)
                    (length-before m bytes started)));
        queued = w.queued;
      };
    }

    length-parts : length parts ≡ m + length ps
    unfolding parts
    length-parts = omega (
      arith,
      length-before m bytes started,
      length-append (before m bytes) (map payload_of ps),
      length-map ps,
    )

    join-parts : join parts ≡ bytes ++ join (map payload_of ps)
    unfolding parts
    join-parts =
        join-append (before m bytes) (map payload_of ps)
        ∙ ap (λ x. x ++ join (map payload_of ps)) (join-before m bytes)

    reached :
        (few : length parts < 2 ^ 31) (r : Stream) (v : Arrived o parts few r) (ns : List ℕ)
        → ((i : ℕ) → i < length ps → contains (m + i) ns ≡ true)
        → ((j : ℕ) → has v.k v.saved j ≡ (contains j ns || has m [] j))
        → length parts ≤ v.k
    reached few r v ns c came = elim (Bool-cases (ltb v.k (length parts))) [
      | inr f ↦ ground arith
      | inl t ↦
          let not_here : has v.k v.saved v.k ≡ false =
            at_end v.k (contains v.k (map get_seqn v.saved))
              (Waiting-contains o parts few v.k (suc v.k) v.saved (omega arith) v.waiting) in
          elim (Bool-cases (ltb v.k m)) [
            | inl u ↦
                let came_before =
                  sym not_here
                  ∙ came v.k
                  ∙ or_second (contains v.k ns) (ltb v.k m) (contains v.k (map get_seqn [])) u in
                cc came_before
            | inr g ↦
                let place : m + (v.k - m) ≡ v.k = ground arith in
                let came_now =
                  sym not_here
                  ∙ came v.k
                  ∙ or_first (contains v.k ns) (has m [] v.k) (
                      ap (λ j. contains j ns) (sym place)
                      ∙ c (v.k - m) (ground (arith, length-parts))) in
                cc came_now
          ]
    ]

    -- All of them have come: nothing is missing.
    receive_all-queue :
        (xs : List (ℕ × Packet)) (b : Stream)
        → m + length ps < 2 ^ 31
        → queue_bytes b.receive_queue ≡ bytes
        → IsWaitingFor m b
        → AreFrom ps xs
        → ((i : ℕ) → i < length ps → contains (m + i) (numbers xs) ≡ true)
        → (t : Stream) × (receive_all o xs b ≡ ok (tt, t))
          × (queue_bytes t.receive_queue ≡ bytes ++ join (map payload_of ps))
          × All IsQueued t.receive_queue
    receive_all-queue xs b l e w h c =
        let few : length parts < 2 ^ 31 = omega (arith, length-parts) in
        let start : Arrived o parts few b = record {
          k = m;
          saved = [];
          in_order = IsWaitingFor-InOrder b l e w;
          kept = w.saved;
          waiting = tt;
        } in
        let r =
          receive_all-Reaches o parts few xs (has m [] 0) b start refl (AreFrom-AreParts xs h)
            (AreFrom-SynOnce (has m [] 0) xs h) in
        let k = r.arrived.k in
        let i = r.arrived.in_order in
        let all : length parts ≤ k = reached few r.state r.arrived (numbers xs) c r.came in
        (
          r.state,
          r.result,
          i.holds.bytes ∙ ap join (take_all k parts all) ∙ join-parts,
          i.holds.queued,
        )

module _ (a : Stream) where
  fill_packets-follow :
      (o : Owner) (n : ℕ) → a.status ≡ opened → fill_packets o n a ≡ follow_packets n a
  unfolding fill_packets fill_at
  fill_packets-follow o n e = ap (λ k. fill_at k o n a) e

-- The packets that SendBuffer fills on an open and established stream that has sent its SYN, with
-- numbers below 2^31 and from a buffer that n packets have room for and that is empty where its end
-- was met, reach another stream that has received everything before them and has saved no packets,
-- in any order, at any times and any of them again, but each of them once at least: then no packet fails, and what the reader of that
-- stream is given for `room` bytes are the first bytes of what it had to read before, with the
-- bytes of the buffer behind.
pub fill_packets-receive_all :
    (o o' : Owner) (n room : ℕ) (a b : Stream) (xs : List (ℕ × Packet))
    → a.status ≡ opened
    → MaySend n a
    → length a.send_buffer ≤ n * 1708
    → IsWaitingFor a.sequence_number b
    → AreFrom (fill_packets o n a).0 xs
    → ((i : ℕ)
        → i < length (fill_packets o n a).0
        → contains (a.sequence_number + i) (numbers xs) ≡ true)
    → (t : Stream) × (u : Stream) × (receive_all o' xs b ≡ ok (tt, t))
      × (read_some room t ≡ ok (take room (queue_bytes b.receive_queue ++ a.send_buffer), u))
fill_packets-receive_all o o' n room a b xs open_ s l w h c =
    let p : Pieces o' n a (fill_packets o n a) =
      subst (Pieces o' n a) (sym (fill_packets-follow a o n open_))
        (follow_packets-Pieces o' n a s) in
    let ps = (fill_packets o n a).0 in
    let (t, r, q, v) =
      receive_all-queue o' a.sequence_number s.started (queue_bytes b.receive_queue) ps p.numbered
        xs b (omega (arith, p.few, s.bound)) refl w h c in
    let read = concatenate-take room t.receive_queue v in
    let sent : join (map payload_of ps) ≡ a.send_buffer =
      sym (append-nil (join (map payload_of ps)))
      ∙ ap (λ x. join (map payload_of ps) ++ x) (sym (p.all l))
      ∙ p.joined in
    (
      t,
      record t { receive_queue = read.rest },
      r,
      read_some_lem room t read.result
          ∙ ap (λ x. ok (take room x, record t { receive_queue = read.rest }))
              (q ∙ ap (λ x. queue_bytes b.receive_queue ++ x) sent),
    )
