-- ===== src/Tunnel/Endpoint/Early.antt =====
-- src/core/router/tunnel/endpoint.cc: fragments that come before their turn.
use mathlib.Core.List.{append-nil}
use xi2p_old.Base.{
  ℕ, suc, ◌+◌, ◌%◌, ◌^◌, ◌≤◌, ◌<◌, ◌≡◌, ◌≢◌, inl, inr, refl, sym, ap, ◌∙◌, List, [], ◌∷◌, ◌++◌,
  length, Bool, true, false, ltb, ◌==◌, put, ok, err, fault, ◌>>=◌, ◌>>◌, lift, length-append,
  arith,
}
use xi2p_old.ByteStream.{read_at}
use xi2p_old.I2np.{Message, new_buffer, get_buffer, assign, append_data}
use xi2p_old.Tunnel.{Target}
use xi2p_old.Tunnel.Pieces.{Phase, idle, collecting, Out}
use xi2p_old.Tunnel.Endpoint.{
  Endpoint, Incomplete, OutOfSequence, add_out_of_sequence, keep_incomplete, erase_incomplete,
  erase_out_of_sequence, concatenate, with_data, next, finish, handle_next_message, joined_found,
  handle_found, handle_out_of_sequence, joined_next, handle_follow_on,
}
use xi2p_old.Tunnel.Endpoint.Joining.{
  Holding, get_buffer-Holding, get_length-Holding, length-Holding, concatenate-Holding,
}
use xi2p_old.Tunnel.Endpoint.Phases.{
  Represents, Handled, waiting, contents, delivered, contents-route,
}
use xi2p_old.Tunnel.Endpoint.Refinement.{
  ==_self, lookup_one, erase_one, put_one, lookup-none, put_none, follow_on-Holding,
}

-- A fragment that is saved for message `msg_id`.
abbrev pub saved : ℕ → Bool → Message → OutOfSequence
saved n is_last m = record { fragment_num = n; is_last_fragment = is_last; data_ = m }

-- The saved fragments of an endpoint.
abbrev pub with_saved : ℕ → OutOfSequence → Endpoint → Endpoint
with_saved msg_id fragment e = record e { out_of_sequence_fragments = (msg_id, fragment) ∷ [] }

-- A concatenation that the largest buffer has no room for.
concatenate-fault :
    {m : Message} {acc : List ℕ} (h : Holding m acc) (d : List ℕ)
    → 2 + length acc ≤ 32784
    → 32784 < 2 + length acc + length d
    → 4096 < length m.bytes + length d
    → concatenate m d ≡ err fault
unfolding concatenate assign append_data new_buffer
concatenate-fault {m} {acc} h d k l n =
    let enlarge : ltb m.max_len (length m.bytes + length d) ≡ true = ground (arith, h.max_len) in
    let room : ltb 32784 (2 + length acc) ≡ false = ground arith in
    let over : ltb 32784 (length (0 ∷ 0 ∷ acc) + length d) ≡ true = ground arith in
    rw (enlarge, get_buffer-Holding h, get_length-Holding h, room, over, concatenate) refl

-- The phase and the messages after a fragment that is the last, or is not.
abbrev pub after_last : Target → List ℕ → ℕ → List ℕ → Bool → Phase
after_last t id n acc true = idle
after_last t id n acc false = collecting t id n acc

abbrev pub out_last : Target → List ℕ → Bool → List Out
out_last t acc true = (t, acc) ∷ []
out_last t acc false = []

module _ (ours : List ℕ) where
  handle_out_of_sequence-saved :
      (msg_id : ℕ) (msg : Incomplete) (is_last : Bool) (m : Message) (e : Endpoint)
      → e.out_of_sequence_fragments ≡ (msg_id, saved msg.next_fragment_num is_last m) ∷ []
      → handle_out_of_sequence ours msg_id msg e
        ≡ handle_found ours msg_id msg (saved msg.next_fragment_num is_last m) e
  unfolding handle_out_of_sequence
  handle_out_of_sequence-saved msg_id msg is_last m e h =
      rw (lookup_one msg_id _ _ h, ==_self msg.next_fragment_num, handle_out_of_sequence) refl

  -- HandleOutOfSequenceFragment of a message in the largest buffer and a saved fragment of the number
  -- that comes next, where the bytes of both do not fit the 32784 bytes of the buffer behind the two
  -- reserved ones: the copy goes beyond the buffer, since the size is not tested here.
  pub handle_out_of_sequence-fault :
      (msg_id : ℕ) (msg : Incomplete) (acc d : List ℕ) (is_last : Bool) (m : Message) (e : Endpoint)
      → e.out_of_sequence_fragments ≡ (msg_id, saved msg.next_fragment_num is_last m) ∷ []
      → Holding msg.block.data_ acc
      → msg.block.data_.capacity ≡ 32784
      → Holding m d
      → 32784 < 2 + length acc + length d
      → handle_out_of_sequence ours msg_id msg e ≡ err fault
  unfolding handle_found ◌>>=◌ lift
  handle_out_of_sequence-fault msg_id msg acc d is_last m e h k c l n =
      let room : 2 + length acc ≤ 32784 = elim (k.room) [
        | inl r ↦ absurd (omega arith)
        | inr (o, r) ↦ omega (arith, length-Holding k, k.fits)
      ] in
      let full : concatenate msg.block.data_ (get_buffer m) ≡ err fault =
        ap (concatenate msg.block.data_) (get_buffer-Holding l)
        ∙ concatenate-fault k d room n (elim (k.room) [
          | inl r ↦ absurd (omega arith)
          | inr (o, r) ↦ omega (arith, length-Holding k)
        ]) in
      handle_out_of_sequence-saved msg_id msg is_last m e h ∙ rw (full, handle_found) refl

  handle_found-ok :
      (msg_id : ℕ) (msg : Incomplete) (fragment : OutOfSequence) (n : Message) (e : Endpoint)
      → concatenate msg.block.data_ (get_buffer fragment.data_) ≡ ok n
      → handle_found ours msg_id msg fragment e
        ≡ (joined_found ours msg_id fragment.is_last_fragment (with_data msg n)
              >> erase_out_of_sequence msg_id)
            e
  unfolding handle_found ◌>>=◌ ◌>>◌ lift
  handle_found-ok msg_id msg fragment n e h = rw (h, handle_found) refl

  -- A fragment after the next one is saved.
  add_out_of_sequence-new :
      (msg_id : ℕ) (f : OutOfSequence) (e : Endpoint)
      → e.out_of_sequence_fragments ≡ []
      → add_out_of_sequence msg_id f e ≡ ok (tt, with_saved msg_id f e)
  unfolding add_out_of_sequence
  add_out_of_sequence-new msg_id f e h =
      rw (lookup-none msg_id _ h, put_none msg_id f _ h, add_out_of_sequence) refl

  saved_early :
      (msg_id n : ℕ) (is_last : Bool) (msg : Incomplete) (m : Message) (e : Endpoint)
      → e.incomplete_messages ≡ (msg_id, msg) ∷ []
      → e.out_of_sequence_fragments ≡ []
      → msg.next_fragment_num ≢ n
      → handle_follow_on ours msg_id is_last n m e
        ≡ ok (tt, with_saved msg_id (saved n is_last m) e)
  unfolding handle_follow_on
  saved_early msg_id n is_last msg m e h k l =
      let other : (n == msg.next_fragment_num) ≡ false = ground arith in
      rw (lookup_one msg_id msg _ h, other, handle_follow_on)
        (add_out_of_sequence-new msg_id (saved n is_last m) e k)

  module _ (t : Target) (id : List ℕ) (n : ℕ) (e : Endpoint) (old new : Message)
      (entry : e.incomplete_messages ≡ (read_at 4 id, waiting n t old) ∷ []) where
    -- What is left to do when the saved fragment is joined.
    joined_found-Handled :
        (is_last : Bool) (f : OutOfSequence) (k : ℕ) (acc : List ℕ)
        → e.out_of_sequence_fragments ≡ (read_at 4 id, f) ∷ []
        → Holding new acc
        → k < 64
        → Handled ours (after_last t id (suc k) acc is_last) (out_last t acc is_last) e (
            (joined_found ours (read_at 4 id) is_last (waiting k t new)
                >> erase_out_of_sequence (read_at 4 id))
              e)
    unfolding joined_found finish handle_next_message erase_incomplete keep_incomplete
        erase_out_of_sequence next delivered ◌>>=◌ ◌>>◌
    joined_found-Handled true f k acc h hold l = record {
      state = _;
      result = refl;
      represents = (erase_one (read_at 4 id) _ _ entry, erase_one (read_at 4 id) _ _ h);
      events = contents-route ours e.is_inbound t new acc e.events (get_buffer-Holding hold);
      inbound = refl;
      received = refl;
    }
    joined_found-Handled false f k acc h hold l =
        let number : (k + 1) % 2 ^ 8 ≡ suc k = omega arith in
        record {
          state = _;
          result = refl;
          represents = (
            erase_one (read_at 4 id) _ _ h,
            record {
              message = new;
              entry =
                  put_one (read_at 4 id) _ _ _ entry
                  ∙ ap (λ j. (read_at 4 id, waiting j t new) ∷ []) number;
              holding = hold;
            },
          );
          events = sym (append-nil (contents e.events));
          inbound = refl;
          received = refl;
        }

  -- The fragment that was waited for, when the next one is saved.
  joined_next-saved :
      (t : Target) (id : List ℕ) (n : ℕ) (is_last : Bool) (acc d : List ℕ) (e : Endpoint)
      (old new m : Message)
      → e.incomplete_messages ≡ (read_at 4 id, waiting n t old) ∷ []
      → e.out_of_sequence_fragments ≡ (read_at 4 id, saved (suc n) is_last m) ∷ []
      → Holding new acc
      → Holding m d
      → n < 63
      → 2 + length acc + length d ≤ 32784
      → Handled ours
          (after_last t id (suc (suc n)) (acc ++ d) is_last)
          (out_last t (acc ++ d) is_last)
          e
          (joined_next ours (read_at 4 id) false (waiting n t new) e)
  unfolding joined_next keep_incomplete next ◌>>◌ ◌>>=◌ with_data
  joined_next-saved t id n is_last acc d e old new m h k hold l b f =
      let msg_id = read_at 4 id in
      let number : (n + 1) % 2 ^ 8 ≡ suc n = omega arith in
      let e₂ : Endpoint = record e { incomplete_messages = (msg_id, waiting (suc n) t new) ∷ [] } in
      let (m₂, g, hold₂) = concatenate-Holding hold d f in
      let start =
        ap
          (λ j.
            handle_out_of_sequence ours msg_id (waiting j t new) (record e {
              incomplete_messages = put msg_id (waiting j t new) e.incomplete_messages;
            }))
          number
        ∙ ap
            (λ z.
              handle_out_of_sequence ours msg_id (waiting (suc n) t new)
                (record e { incomplete_messages = z }))
            (put_one msg_id _ _ _ h) in
      let found =
        handle_out_of_sequence-saved msg_id (waiting (suc n) t new) is_last m e₂ k
        ∙ handle_found-ok msg_id (waiting (suc n) t new) (saved (suc n) is_last m) m₂ e₂
            (ap (concatenate new) (get_buffer-Holding l) ∙ g) in
      let r =
        joined_found-Handled t id (suc n) e₂ new m₂ refl is_last (saved (suc n) is_last m) (suc n)
          (acc ++ d) k hold₂ (omega arith) in
      record {
        state = r.state;
        result = start ∙ found ∙ r.result;
        represents = r.represents;
        events = r.events;
        inbound = r.inbound;
        received = r.received;
      }

  -- While an endpoint waits for follow-on fragment n < 63 of a message and has no saved fragment,
  -- fragment n + 1 comes before fragment n, which is not the last and has less than 1004 bytes, and
  -- the message stays below 32766 bytes with both: the first of the two is saved, and with the
  -- second both are joined behind the bytes so far, in the order of their numbers; the message is
  -- then handed on, where fragment n + 1 is the last, or waits for fragment n + 2.
  pub handle_follow_on-swapped :
      (t : Target) (id : List ℕ) (n : ℕ) (is_last : Bool) (acc d₁ d₂ : List ℕ) (e : Endpoint)
      (m₁ m₂ : Message)
      → Represents (collecting t id n acc) e
      → Holding m₁ d₁
      → Holding m₂ d₂
      → n < 63
      → length d₁ < 1004
      → 2 + length acc + length d₁ + length d₂ < 32768
      → (e' : Endpoint) × (handle_follow_on ours (read_at 4 id) is_last (suc n) m₂ e ≡ ok (tt, e'))
        × Handled ours
            (after_last t id (suc (suc n)) ((acc ++ d₁) ++ d₂) is_last)
            (out_last t ((acc ++ d₁) ++ d₂) is_last)
            e
            (handle_follow_on ours (read_at 4 id) false n m₁ e')
  handle_follow_on-swapped t id n is_last acc d₁ d₂ e m₁ m₂ (s, c) h₁ h₂ b k f =
      let msg_id = read_at 4 id in
      let e₁ = with_saved msg_id (saved (suc n) is_last m₂) e in
      let (old, new, en, g, hold) =
        follow_on-Holding ours e₁ msg_id n false t acc d₁ m₁
          (record { message = c.message; entry = c.entry; holding = c.holding }) h₁ k
          (omega arith) in
      let r =
        joined_next-saved t id n is_last (acc ++ d₁) d₂ e₁ old new m₂ en refl hold h₂ b
          (omega (arith, length-append acc d₁)) in
      (
        e₁,
        saved_early msg_id (suc n) is_last (waiting n t c.message) m₂ e c.entry s (omega arith),
        record {
          state = r.state;
          result = g ∙ r.result;
          represents = r.represents;
          events = r.events;
          inbound = r.inbound;
          received = r.received;
        },
      )
