-- ===== src/Tunnel/Endpoint/Refinement.antt =====
-- src/core/router/tunnel/endpoint.cc: the endpoint against the phases of what the tunnel carries.
use mathlib.Core.List.{append-nil}
use xi2p_old.Base.{
  ℕ, suc, ◌+◌, ◌%◌, ◌^◌, ◌<◌, ◌≡◌, inl, inr, refl, sym, ap, ◌∙◌, List, [], ◌∷◌, ◌++◌, length, Bool,
  true, false, ltb, ◌==◌, lookup, erase, put, none, some, ok, ◌>>=◌, ◌>>◌, lift, pure, arith,
}
use xi2p_old.ByteStream.{read_at}
use xi2p_old.I2np.{Message, get_length, get_buffer}
use xi2p_old.Tunnel.{Target}
use xi2p_old.Tunnel.Pieces.{Piece, data_of, Phase, Step, one_piece, starts, continues, ends, Out}
use xi2p_old.Tunnel.Endpoint.{
  Endpoint, Incomplete, route, handle_next_message, keep_incomplete, erase_incomplete, concatenate,
  with_data, next, finish, handle_out_of_sequence, joined_next, attach_next, handle_next_fragment,
  handle_follow_on, handle_first,
}
use xi2p_old.Tunnel.Endpoint.Received.{handle_fragment}
use xi2p_old.Tunnel.Endpoint.Headers.{used, header_of}
use xi2p_old.Tunnel.Endpoint.Joining.{
  Holding, get_buffer-Holding, get_length-Holding, length-Holding, concatenate-Holding,
}
use xi2p_old.Tunnel.Endpoint.Phases.{
  contents, delivered, waiting, Collects, Represents, Handled, contents-route,
}

pub ==_self : (n : ℕ) → (n == n) ≡ true
==_self n = ground arith

pub lookup_one :
    {A : Type 0} (k : ℕ) (a : A) (m : List (ℕ × A)) → m ≡ (k, a) ∷ [] → lookup k m ≡ some a
unfolding lookup
lookup_one k a m h = ground (arith, h)

pub erase_one : {A : Type 0} (k : ℕ) (a : A) (m : List (ℕ × A)) → m ≡ (k, a) ∷ [] → erase k m ≡ []
unfolding erase
erase_one k a m h = ground (arith, h)

pub put_one :
    {A : Type 0} (k : ℕ) (a b : A) (m : List (ℕ × A)) → m ≡ (k, a) ∷ [] → put k b m ≡ (k, b) ∷ []
unfolding put
put_one k a b m h = ground (arith, h)

pub lookup-none : {A : Type 0} (k : ℕ) (m : List (ℕ × A)) → m ≡ [] → lookup k m ≡ none
unfolding lookup
lookup-none k m h = ground (arith, h)

pub put_none : {A : Type 0} (k : ℕ) (b : A) (m : List (ℕ × A)) → m ≡ [] → put k b m ≡ (k, b) ∷ []
unfolding put
put_none k b m h = ground (arith, h)

module _ (ours : List ℕ) where
  handle_out_of_sequence_none :
      (msg_id : ℕ) (msg : Incomplete) (e : Endpoint)
      → e.out_of_sequence_fragments ≡ []
      → handle_out_of_sequence ours msg_id msg e ≡ ok (tt, e)
  unfolding handle_out_of_sequence
  handle_out_of_sequence_none msg_id msg e h =
      rw (lookup-none msg_id _ h, handle_out_of_sequence) refl

  attach_next-ok :
      (msg_id : ℕ) (is_last : Bool) (msg : Incomplete) (m n : Message) (e : Endpoint)
      → concatenate msg.block.data_ (get_buffer m) ≡ ok n
      → attach_next ours msg_id is_last msg m e
        ≡ joined_next ours msg_id is_last (with_data msg n) e
  unfolding attach_next ◌>>=◌ lift
  attach_next-ok msg_id is_last msg m n e h = rw (h, attach_next) refl

  handle_next_fragment-ok :
      (msg_id : ℕ) (is_last : Bool) (msg : Incomplete) (m n : Message) (e : Endpoint)
      → length msg.block.data_.bytes + get_length m < 32768
      → concatenate msg.block.data_ (get_buffer m) ≡ ok n
      → handle_next_fragment ours msg_id is_last msg m e
        ≡ joined_next ours msg_id is_last (with_data msg n) e
  unfolding handle_next_fragment
  handle_next_fragment-ok msg_id is_last msg m n e l h =
      let small : ltb (length msg.block.data_.bytes + get_length m) 32768 ≡ true = ground arith in
      rw (small, handle_next_fragment) (attach_next-ok msg_id is_last msg m n e h)

  handle_follow_on-ok :
      (msg_id : ℕ) (is_last : Bool) (msg : Incomplete) (m n : Message) (e : Endpoint)
      → lookup msg_id e.incomplete_messages ≡ some msg
      → length msg.block.data_.bytes + get_length m < 32768
      → concatenate msg.block.data_ (get_buffer m) ≡ ok n
      → handle_follow_on ours msg_id is_last msg.next_fragment_num m e
        ≡ joined_next ours msg_id is_last (with_data msg n) e
  unfolding handle_follow_on
  handle_follow_on-ok msg_id is_last msg m n e k l h =
      rw (k, ==_self msg.next_fragment_num, handle_follow_on)
        (handle_next_fragment-ok msg_id is_last msg m n e l h)

  handle_first-new :
      (msg_id : ℕ) (t : Target) (m : Message) (e : Endpoint)
      → e.incomplete_messages ≡ []
      → e.out_of_sequence_fragments ≡ []
      → handle_first ours msg_id (record { target = t; data_ = m }) e
        ≡ ok (
          tt,
          record e {
            incomplete_messages =
                (msg_id, record { block = record { target = t; data_ = m }; next_fragment_num = 1 })
                ∷ [];
          },
        )
  unfolding handle_first keep_incomplete ◌>>◌ ◌>>=◌
  handle_first-new msg_id t m e h k =
      rw (lookup-none msg_id _ h, put_none msg_id _ _ h, handle_first)
        (handle_out_of_sequence_none msg_id _ _ k)

  -- A fragment that is not the last, and the last.
  joined_next-more :
      (msg_id : ℕ) (old new : Incomplete) (e : Endpoint)
      → e.incomplete_messages ≡ (msg_id, old) ∷ []
      → e.out_of_sequence_fragments ≡ []
      → joined_next ours msg_id false new e
        ≡ ok (tt, record e { incomplete_messages = (msg_id, next new) ∷ [] })
  unfolding joined_next keep_incomplete ◌>>◌ ◌>>=◌
  joined_next-more msg_id old new e h k =
      rw (put_one msg_id old (next new) _ h, joined_next) (handle_out_of_sequence_none msg_id _ _ k)

  joined_next-last :
      (msg_id : ℕ) (old new : Incomplete) (e : Endpoint)
      → e.incomplete_messages ≡ (msg_id, old) ∷ []
      → joined_next ours msg_id true new e
        ≡ ok (
          tt,
          record e {
            incomplete_messages = [];
            events = e.events ++ route ours e.is_inbound new.block.target new.block.data_;
          },
        )
  unfolding joined_next finish handle_next_message erase_incomplete ◌>>◌ ◌>>=◌
  joined_next-last msg_id old new e h = rw (erase_one msg_id old _ h, joined_next) refl

  -- A follow-on fragment with the number that the endpoint waits for.
  pub follow_on-Holding :
      (e : Endpoint) (msg_id n : ℕ) (is_last : Bool) (t : Target) (acc d : List ℕ) (m : Message)
      → Collects msg_id n t acc e
      → Holding m d
      → length d < 1004
      → 2 + length acc + length d < 32768
      → (a b : Message) × (e.incomplete_messages ≡ (msg_id, waiting n t a) ∷ [])
        × (handle_follow_on ours msg_id is_last n m e
            ≡ joined_next ours msg_id is_last (waiting n t b) e)
        × Holding b (acc ++ d)
  unfolding with_data
  follow_on-Holding e msg_id n is_last t acc d m c k l f =
      let (b, g, hb) = concatenate-Holding c.holding d (omega arith) in
      let small : length c.message.bytes + get_length m < 32768 = elim (c.holding.room) [
        | inl r ↦ omega (arith, c.holding.fits, get_length-Holding k)
        | inr (o, r) ↦ omega (arith, length-Holding c.holding, get_length-Holding k)
      ] in
      (
        c.message,
        b,
        c.entry,
        handle_follow_on-ok msg_id is_last (waiting n t c.message) m b e
            (lookup_one msg_id _ _ c.entry) small
            (ap (concatenate c.message) (get_buffer-Holding k) ∙ g),
        hb,
      )

  -- The next piece of the tunnel, read into a buffer, takes the endpoint to the next phase.
  pub handle_fragment-Step :
      {p q : Phase} {x : Piece} {o : List Out} (e : Endpoint) {m : Message}
      → Step p x q o
      → Represents p e
      → Holding m (data_of x)
      → Handled ours q o e (handle_fragment ours (header_of x) m e)
  unfolding handle_fragment header_of data_of delivered pure handle_next_message next
  handle_fragment-Step e {m} (one_piece t d h l) (i, s) k = record {
    state = _;
    result = refl;
    represents = (i, s);
    events = contents-route ours e.is_inbound t m d e.events (get_buffer-Holding k);
    inbound = refl;
    received = refl;
  }
  handle_fragment-Step e {m} (starts t id d h b z l) (i, s) k =
      let zero_id : (read_at 4 id == 0) ≡ false = ground arith in
      record {
        state = _;
        result = rw (zero_id, handle_fragment) (handle_first-new (read_at 4 id) (used t) m e i s);
        represents = (s, record { message = m; entry = refl; holding = k });
        events = sym (append-nil (contents e.events));
        inbound = refl;
        received = refl;
      }
  handle_fragment-Step e {m} (continues t id acc d n b z u l f) (s, c) k =
      let zero_id : (read_at 4 id == 0) ≡ false = ground arith in
      let (old, new, en, r, h) = follow_on-Holding e (read_at 4 id) n false t acc d m c k l f in
      let number : (n + 1) % 2 ^ 8 ≡ suc n = omega arith in
      record {
        state = _;
        result =
            rw (zero_id, handle_fragment)
              (r ∙ joined_next-more (read_at 4 id) (waiting n t old) (waiting n t new) e en s);
        represents = (
          s,
          record {
            message = new;
            entry = ap (λ j. (read_at 4 id, waiting j t new) ∷ []) number;
            holding = h;
          },
        );
        events = sym (append-nil (contents e.events));
        inbound = refl;
        received = refl;
      }
  handle_fragment-Step e {m} (ends t id acc d n b z u l f) (s, c) k =
      let zero_id : (read_at 4 id == 0) ≡ false = ground arith in
      let (old, new, en, r, h) = follow_on-Holding e (read_at 4 id) n true t acc d m c k l f in
      record {
        state = _;
        result =
            rw (zero_id, handle_fragment)
              (r ∙ joined_next-last (read_at 4 id) (waiting n t old) (waiting n t new) e en);
        represents = (refl, s);
        events = contents-route ours e.is_inbound t new (acc ++ d) e.events (get_buffer-Holding h);
        inbound = refl;
        received = refl;
      }
