-- ===== src/Ssu/Data/Reassembly/Run.antt =====
-- src/core/router/transports/ssu/data.cc: the fragments of a message in any order, again and again.
use xi2p_old.Base.{
  ℕ, suc, ◌+◌, ◌==◌, ◌≤◌, ◌<◌, ◌≡◌, ◌⊎◌, inl, inr, refl, sym, ap, ◌∙◌, Bool, true, false, List, [],
  ◌∷◌, ◌++◌, length, take_all, replicate, Result, ok, arith, Bool-cases,
}
use xi2p_old.I2np.{new_buffer}
use xi2p_old.Ssu.Data.{IncompleteMessage, contains}
use xi2p_old.Ssu.Data.Incoming.{new_incomplete}
use xi2p_old.Ssu.Data.Reassembly.{join, receive_all, arrived, ArePieces, HasRoom, Ascending, Held}
use xi2p_old.Ssu.Data.Reassembly.Saved.{contains-Ascending}
use xi2p_old.Ssu.Data.Reassembly.Arrival.{partial, receive_fragment-Progress}

-- What a run of arrivals gives: completion, with the whole message, exactly when every piece is
-- held at the start or arrives.
record Outcome (cs : List (List ℕ)) (n : ℕ) (saved : List ℕ) (arrivals : List (ℕ × ℕ))
    (r : Result (Bool × IncompleteMessage)) : Type 0 where
  done : Bool
  message : IncompleteMessage
  result : r ≡ ok (done, message)
  whole : done ≡ true → message.msg.bytes ≡ replicate 13 0 ++ join cs
  complete : ((j : ℕ) → j < length cs → Held n saved j ⊎ (arrived j arrivals ≡ true)) → done ≡ true
  needed : done ≡ true → (j : ℕ) → j < length cs → Held n saved j ⊎ (arrived j arrivals ≡ true)

receive_all-Outcome :
    (cs : List (List ℕ)) (capacity n time : ℕ) (saved : List ℕ) (arrivals : List (ℕ × ℕ))
    → HasRoom capacity
    → n < length cs
    → Ascending (suc n) (length cs) saved
    → ArePieces cs arrivals
    → 13 + length (join cs) ≤ 32784
    → Outcome cs n saved arrivals (receive_all cs arrivals (partial cs capacity n time saved))
unfolding receive_all arrived
receive_all-Outcome cs capacity n time saved [] r p a q h = record {
  done = false;
  message = partial cs capacity n time saved;
  result = refl;
  whole = λ e. absurd (cc);
  complete = λ f. ground (arith, f n p, contains-Ascending n (suc n) (length cs) saved a);
  needed = λ e. absurd (cc);
}
receive_all-Outcome cs capacity n time saved ((now, i) ∷ arrivals) r p a (q, qs) h =
    let s = receive_fragment-Progress cs capacity n time now i saved r p q a h in
    elim (Bool-cases (s.at == length cs)) [
      | inl t ↦
          let e : s.at ≡ length cs = ground arith in
          record {
            done = true;
            message = partial cs s.capacity s.at s.time s.saved;
            result = ground (arith, s.result);
            whole = λ _. ap (λ xs. replicate 13 0 ++ join xs) (take_all s.at cs (omega arith));
            complete = λ _. refl;
            needed = λ _ j l. ground (arith, s.holds j);
          }
      | inr f ↦
          let next =
            receive_all-Outcome cs s.capacity s.at s.time s.saved arrivals s.has_room
              (ground (arith, s.at_most)) s.ordered qs h in
          record {
            done = next.done;
            message = next.message;
            result = ground (arith, s.result, next.result);
            whole = next.whole;
            complete = λ g. next.complete (λ j l. ground (arith, g j l, s.holds j));
            needed = λ e j l. ground (arith, next.needed e j l, s.holds j);
          }
    ]

-- A new message has none of the pieces.
new_incomplete-partial : (cs : List (List ℕ)) → partial cs 4112 0 0 [] ≡ new_incomplete
unfolding new_incomplete new_buffer join
new_incomplete-partial cs = refl

-- A message of one or more pieces of which every fragment has the number and the last mark of its
-- piece, and that fits the 32784 bytes of a full-size buffer behind 13 others: when its fragments
-- are received in any order, any number of times and at any times, and each piece is among them,
-- then no write leaves the buffer, the message is completed, and its bytes are 13 zero bytes and
-- the pieces in order.
pub receive_all-new_incomplete :
    (cs : List (List ℕ)) (arrivals : List (ℕ × ℕ))
    → 0 < length cs
    → 13 + length (join cs) ≤ 32784
    → ArePieces cs arrivals
    → ((j : ℕ) → j < length cs → arrived j arrivals ≡ true)
    → (m : IncompleteMessage) × (receive_all cs arrivals new_incomplete ≡ ok (true, m))
      × (m.msg.bytes ≡ replicate 13 0 ++ join cs)
receive_all-new_incomplete cs arrivals p h q all =
    let o = receive_all-Outcome cs 4112 0 0 [] arrivals (inl refl) p tt q h in
    let d = o.complete (λ j l. inr (all j l)) in
    let e : receive_all cs arrivals new_incomplete ≡ ok (o.done, o.message) =
      ap (receive_all cs arrivals) (sym (new_incomplete-partial cs)) ∙ o.result in
    (o.message, rw (e, d) refl, o.whole d)

-- Under the same bounds a run of fragments of a message never writes outside the buffer, and where
-- it completes the message, each piece was received and the bytes are 13 zero bytes and the pieces.
pub receive_all_sound :
    (cs : List (List ℕ)) (arrivals : List (ℕ × ℕ)) (j : ℕ)
    → 0 < length cs
    → 13 + length (join cs) ≤ 32784
    → ArePieces cs arrivals
    → j < length cs
    → (done : Bool) × (m : IncompleteMessage) × (receive_all cs arrivals new_incomplete
        ≡ ok (done, m))
      × ((done ≡ false) ⊎ ((arrived j arrivals ≡ true) × (m.msg.bytes ≡ replicate 13 0 ++ join cs)))
unfolding contains
receive_all_sound cs arrivals j p h q l =
    let o = receive_all-Outcome cs 4112 0 0 [] arrivals (inl refl) p tt q h in
    let e : receive_all cs arrivals new_incomplete ≡ ok (o.done, o.message) =
      ap (receive_all cs arrivals) (sym (new_incomplete-partial cs)) ∙ o.result in
    (
      o.done,
      o.message,
      e,
      elim (Bool-cases o.done) [
        | inl d ↦ inr (ground (arith, o.needed d j l), o.whole d)
        | inr f ↦ inl f
      ],
    )
