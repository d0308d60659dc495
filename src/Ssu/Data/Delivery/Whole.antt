-- ===== src/Ssu/Data/Delivery/Whole.antt =====
-- src/core/router/transports/ssu/data.cc: all data packets of one message, received by ProcessMessage.
use xi2p_old.Base.{
  lookup, ℕ, ◌^◌, ◌≤◌, ◌<◌, ◌≡◌, ◌⊎◌, refl, sym, ◌∙◌, Bool, true, false, none, List, [], ◌∷◌, ◌++◌,
  length, replicate, Result, ok, err, arith,
}
use xi2p_old.I2np.{Message, from_ssu}
use xi2p_old.Ssu.Data.{IncompleteMessage, SsuData}
use xi2p_old.Ssu.Data.Incoming.{receive_fragment, new_incomplete}
use xi2p_old.Ssu.Data.Process.{incomplete_of, deliver, process_message}
use xi2p_old.Ssu.Data.Reassembly.{piece, join, fragment_of, receive_all, arrived, ArePieces}
use xi2p_old.Ssu.Data.Reassembly.Run.{receive_all-new_incomplete, receive_all_sound}
use xi2p_old.Ssu.Data.Delivery.{packet_of, receive_packets, SameSession, saved_packet, last_packet}

receive_all-step :
    (cs : List (List ℕ)) (now i : ℕ) (arrivals : List (ℕ × ℕ)) (m n : IncompleteMessage)
    → receive_fragment now (fragment_of cs i) m ≡ ok (false, n)
    → receive_all cs ((now, i) ∷ arrivals) m ≡ receive_all cs arrivals n
unfolding receive_all
receive_all-step cs now i arrivals m n h = rw (h, receive_all) refl

-- The first step of a run that does not complete the message.
first_step :
    (cs : List (List ℕ)) (now i : ℕ) (arrivals : List (ℕ × ℕ)) (m n : IncompleteMessage)
    → receive_all cs ((now, i) ∷ arrivals) m ≡ ok (false, n)
    → (k : IncompleteMessage) × (receive_fragment now (fragment_of cs i) m ≡ ok (false, k))
      × (receive_all cs arrivals k ≡ ok (false, n))
unfolding receive_all
first_step cs now i arrivals m n h = go (receive_fragment now (fragment_of cs i) m) refl
  where
    go :
        (r : Result (Bool × IncompleteMessage))
        → receive_fragment now (fragment_of cs i) m ≡ r
        → (k : IncompleteMessage) × (receive_fragment now (fragment_of cs i) m ≡ ok (false, k))
          × (receive_all cs arrivals k ≡ ok (false, n))
    go (ok (true, k)) e = absurd (ground (arith, e, h))
    go (ok (false, k)) e = (k, e, ground (arith, e, h))
    go (err x) e = absurd (ground (arith, e, h))

receive_all-append :
    (cs : List (List ℕ)) (arrivals more : List (ℕ × ℕ)) (m n : IncompleteMessage)
    → receive_all cs arrivals m ≡ ok (false, n)
    → receive_all cs (arrivals ++ more) m ≡ receive_all cs more n
unfolding receive_all
receive_all-append cs [] more m n h = ground (arith, h)
receive_all-append cs ((now, i) ∷ arrivals) more m n h =
    let (k, e, r) = first_step cs now i arrivals m n h in
    receive_all-step cs now i (arrivals ++ more) m k e ∙ receive_all-append cs arrivals more k n r

-- A run of one fragment that completes the message.
last_step :
    (cs : List (List ℕ)) (now i : ℕ) (m n : IncompleteMessage)
    → receive_all cs ((now, i) ∷ []) m ≡ ok (true, n)
    → receive_fragment now (fragment_of cs i) m ≡ ok (true, n)
unfolding receive_all
last_step cs now i m n h = go (receive_fragment now (fragment_of cs i) m) refl
  where
    go :
        (r : Result (Bool × IncompleteMessage))
        → receive_fragment now (fragment_of cs i) m ≡ r
        → receive_fragment now (fragment_of cs i) m ≡ ok (true, n)
    go (ok (true, k)) e = ground (arith, e, h)
    go (ok (false, k)) e = absurd (ground (arith, e, h))
    go (err x) e = absurd (ground (arith, e, h))

arrived-append :
    (j now i : ℕ) (arrivals : List (ℕ × ℕ))
    → (arrived j arrivals ≡ true) ⊎ (j ≡ i)
    → arrived j (arrivals ++ (now, i) ∷ []) ≡ true
unfolding arrived
arrived-append j now i [] h = ground arith
arrived-append j now i ((t, k) ∷ arrivals) h = ground (arith, arrived-append j now i arrivals)

ArePieces-append :
    (cs : List (List ℕ)) (now i : ℕ) (arrivals : List (ℕ × ℕ))
    → ArePieces cs arrivals
    → i < length cs
    → ArePieces cs (arrivals ++ (now, i) ∷ [])
ArePieces-append cs now i [] a l = (l, tt)
ArePieces-append cs now i ((t, k) ∷ arrivals) (p, a) l = (p, ArePieces-append cs now i arrivals a l)

module _ (padding : ℕ → List ℕ) (msg_id : ℕ) (cs : List (List ℕ)) (p : msg_id < 2 ^ 32)
    (q : length cs ≤ 128) (r : (j : ℕ) → length (piece cs j) < 1456) where
  receive_packets-step :
      (now i : ℕ) (arrivals : List (ℕ × ℕ)) (d e : SsuData)
      → process_message now (packet_of padding msg_id cs i, d) ≡ ok (tt, (padding i, e))
      → receive_packets padding msg_id cs ((now, i) ∷ arrivals) d
        ≡ receive_packets padding msg_id cs arrivals e
  unfolding receive_packets
  receive_packets-step now i arrivals d e h = rw (h, receive_packets) refl

  receive_packets-append :
      (arrivals more : List (ℕ × ℕ)) (d : SsuData) (n : IncompleteMessage)
      → ArePieces cs arrivals
      → receive_all cs arrivals (incomplete_of msg_id d) ≡ ok (false, n)
      → (e : SsuData) × (receive_packets padding msg_id cs (arrivals ++ more) d
          ≡ receive_packets padding msg_id cs more e)
        × (incomplete_of msg_id e ≡ n)
        × SameSession d e
  unfolding receive_all
  receive_packets-append [] more d n a h = (d, refl, ground (arith, h), (refl, refl))
  receive_packets-append ((now, i) ∷ arrivals) more d n (l, a) h =
      let (k, s, t) = first_step cs now i arrivals (incomplete_of msg_id d) n h in
      let (e, u, v, (w, x)) = saved_packet padding msg_id cs p q r now i d k l s in
      let (f, y, z, (b, c)) = receive_packets-append arrivals more e n a (rw v t) in
      (f, receive_packets-step now i (arrivals ++ more) d e u ∙ y, z, (b ∙ w, c ∙ x))

incomplete_of_new :
    (msg_id : ℕ) (d : SsuData)
    → lookup msg_id d.incomplete_messages ≡ none
    → incomplete_of msg_id d ≡ new_incomplete
unfolding incomplete_of
incomplete_of_new msg_id d h = rw (h, incomplete_of) refl

-- A message cut into at most 128 pieces of less than 1456 bytes, 32771 bytes at most in all, under
-- a message id that ProcessMessage has no fragments of: when the data packets with its pieces come
-- in any order, at any times and any of them again, and piece i is the last that had not come, then
-- no packet fails, and with the packet of piece i the message is put into its full format and
-- handed on, its bytes 13 zero bytes and the pieces in order; before that the state of the session
-- and the numbers of the messages received are as they were.
pub receive_packets-deliver :
    (padding : ℕ → List ℕ) (msg_id : ℕ) (cs : List (List ℕ)) (arrivals : List (ℕ × ℕ)) (now i : ℕ)
    (d : SsuData)
    → msg_id < 2 ^ 32
    → length cs ≤ 128
    → ((j : ℕ) → length (piece cs j) < 1456)
    → length (join cs) ≤ 32771
    → lookup msg_id d.incomplete_messages ≡ none
    → ArePieces cs arrivals
    → i < length cs
    → arrived i arrivals ≡ false
    → ((j : ℕ) → j < length cs → (arrived j arrivals ≡ true) ⊎ (j ≡ i))
    → (e : SsuData) × (msg : Message) × (receive_packets padding msg_id cs
          (arrivals ++ (now, i) ∷ [])
          d
        ≡ ok (deliver msg_id (from_ssu msg_id msg) e))
      × (msg.bytes ≡ replicate 13 0 ++ join cs)
      × SameSession d e
unfolding receive_packets
receive_packets-deliver padding msg_id cs arrivals now i d p q r w new a l fresh others =
    let start = incomplete_of_new msg_id d new in
    let (done, n, run, cases) = receive_all_sound cs arrivals i (omega arith) (omega arith) a l in
    let unfinished : done ≡ false = ground (arith, cases) in
    let prefix : receive_all cs arrivals new_incomplete ≡ ok (false, n) = rw (← unfinished) run in
    let (m, complete, whole) =
      receive_all-new_incomplete cs (arrivals ++ (now, i) ∷ []) (omega arith) (omega arith)
        (ArePieces-append cs now i arrivals a l)
        (λ j b. arrived-append j now i arrivals (others j b)) in
    let final : receive_fragment now (fragment_of cs i) n ≡ ok (true, m) =
      last_step cs now i n m
        (sym (receive_all-append cs arrivals ((now, i) ∷ []) new_incomplete n prefix) ∙ complete) in
    let (f, s, t, (u, v)) =
      receive_packets-append padding msg_id cs p q r arrivals ((now, i) ∷ []) d n a
        (rw start prefix) in
    let (e, x, (y, z)) = last_packet padding msg_id cs p q r now i f m l (rw t final) in
    (
      e,
      m.msg,
      s ∙ receive_packets-step padding msg_id cs p q r now i [] f _ x,
      whole,
      (y ∙ u, z ∙ v),
    )
