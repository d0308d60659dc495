-- ===== src/Tunnel/Endpoint/Runs.antt =====
-- src/core/router/tunnel/endpoint.cc: the loop over the fragments of one tunnel data message.
use mathlib.Core.Path.{subst}
use mathlib.Core.List.{append_assoc, append-nil}
use xi2p_old.Base.{
  ℕ, zero, suc, ◌+◌, ◌≤◌, ◌<◌, ◌≡◌, inl, inr, refl, sym, ap, ◌∙◌, List, [], ◌∷◌, ◌++◌, length, take,
  drop, replicate, Bool, true, false, Bool-cases, ltb, Result, ok, length-append, take-append,
  arith,
}
use xi2p_old.I2np.{Message, new_buffer, assign}
use xi2p_old.Tunnel.Pieces.{Phase, Out}
use xi2p_old.Tunnel.Endpoint.{Endpoint, route}
use xi2p_old.Tunnel.Endpoint.Received.{
  FragmentHeader, read_header, fragment_data, handle_fragment, process_fragments,
}
use xi2p_old.Tunnel.Endpoint.Joining.{Holding, get_buffer-Holding, get_length-Holding}
use xi2p_old.Tunnel.Endpoint.Phases.{Represents, Handled, delivered, contents}

-- A copy with room for the header of a gateway.
abbrev short_buffer : Message
short_buffer = record { bytes = replicate 24 0; offset = 8; max_len = 4096; capacity = 4112 }

copy-Holding :
    {m : Message} {d : List ℕ}
    → Holding m d
    → length d < 1044
    → (n : Message) × (assign short_buffer m ≡ ok n) × Holding n d
unfolding assign
copy-Holding {m} {d} h l =
    let copy : Message = record {
      bytes = replicate 8 0 ++ d;
      offset = 8;
      max_len = 4096;
      capacity = 4112;
    } in
    (
      copy,
      rw (get_buffer-Holding h, get_length-Holding h, h.max_len) (ground arith),
      record {
        front = replicate 8 0;
        bytes = refl;
        offset = refl;
        max_len = refl;
        low = omega arith;
        room = inl refl;
        fits = omega arith;
      },
    )

-- The buffer of a tunnel data message.
pub record IsShort (msg : Message) : Type 0 where
  pub max_len : msg.max_len ≡ 4096
  pub capacity : msg.capacity ≡ 4112

module _ {msg : Message} (hm : IsShort msg) where
  pub fragment_data-Holding :
      (front d after : List ℕ) (end : ℕ)
      → length front + length d ≤ end
      → end ≤ 1046
      → length d < 1004
      → (m : Message) × (fragment_data (front ++ (d ++ after)) end (length front) (length d) msg
          ≡ ok m)
        × Holding m d
  unfolding fragment_data new_buffer
  fragment_data-Holding front d after end h k z =
      let array = front ++ (d ++ after) in
      let at : Message = record msg { bytes = front ++ d; offset = length front } in
      let same_bytes : take (length front + length d) array ≡ front ++ d =
        ap (take (length front + length d)) (sym (append_assoc front d after))
        ∙ take-append _ (front ++ d) after (length-append front d) in
      let inside : ltb (length array) (length front + length d) ≡ false =
        ground (arith, length-append front (d ++ after), length-append d after) in
      let holding : Holding at d = record {
        front = front;
        bytes = refl;
        offset = refl;
        max_len = hm.max_len;
        low = omega arith;
        room = inl hm.capacity;
        fits = omega (arith, length-append front d, hm.capacity);
      } in
      elim (Bool-cases (ltb (length front + length d) end)) [
        | inl t ↦
            let (n, e, hn) = copy-Holding holding (omega arith) in
            (n, rw (inside, t, same_bytes, fragment_data) e, hn)
        | inr f ↦ (at, rw (inside, f, same_bytes, fragment_data) refl, holding)
      ]

module _ (ours : List ℕ) where
  process_fragments-read :
      (fuel : ℕ) (array : List ℕ) (end at : ℕ) (msg m : Message) (e e' : Endpoint)
      → let h = read_header (drop at array) in
        at < end
        → fragment_data array end (at + h.len) h.size msg ≡ ok m
        → handle_fragment ours h m e ≡ ok (tt, e')
        → process_fragments ours (suc fuel) array end at msg e
          ≡ process_fragments ours fuel array end (at + h.len + h.size) msg e'
  unfolding process_fragments
  process_fragments-read fuel array end at msg m e e' l f g =
      let inside : ltb at end ≡ true = ground arith in rw (inside, f, g, process_fragments) refl

  pub process_fragments-step :
      (fuel : ℕ) (array : List ℕ) (end at : ℕ) (msg m : Message) {h : FragmentHeader}
      (e e' : Endpoint)
      → at < end
      → read_header (drop at array) ≡ h
      → fragment_data array end (at + h.len) h.size msg ≡ ok m
      → handle_fragment ours h m e ≡ ok (tt, e')
      → process_fragments ours (suc fuel) array end at msg e
        ≡ process_fragments ours fuel array end (at + h.len + h.size) msg e'
  process_fragments-step fuel array end at msg m e e' l k =
      subst
        (λ h.
          fragment_data array end (at + h.len) h.size msg ≡ ok m
          → handle_fragment ours h m e ≡ ok (tt, e')
          → process_fragments ours (suc fuel) array end at msg e
            ≡ process_fragments ours fuel array end (at + h.len + h.size) msg e')
        k (process_fragments-read fuel array end at msg m e e' l)

  pub process_fragments-end :
      (fuel : ℕ) (array : List ℕ) (end : ℕ) (msg : Message) (e : Endpoint)
      → process_fragments ours fuel array end end msg e ≡ ok (tt, e)
  unfolding process_fragments
  process_fragments-end zero array end msg e = refl
  process_fragments-end (suc fuel) array end msg e =
      let outside : ltb end end ≡ false = ground arith in rw (outside, process_fragments) refl

  pub delivered-append :
      (is_inbound : Bool) (os us : List Out)
      → delivered ours is_inbound (os ++ us)
        ≡ delivered ours is_inbound os ++ delivered ours is_inbound us
  unfolding delivered
  delivered-append is_inbound [] us = refl
  delivered-append is_inbound ((t, d) ∷ os) us =
      ap (λ x. route ours is_inbound t d ++ x) (delivered-append is_inbound os us)
      ∙ sym (append_assoc (route ours is_inbound t d) _ _)

  pub Handled-nil :
      {p : Phase} {e : Endpoint} {r : Result (Unit {0} × Endpoint)}
      → Represents p e
      → r ≡ ok (tt, e)
      → Handled ours p [] e r
  unfolding delivered
  Handled-nil {e = e} h k = record {
    state = e;
    result = k;
    represents = h;
    events = sym (append-nil (contents e.events));
    inbound = refl;
    received = refl;
  }

  pub Handled-append :
      {p q : Phase} {os us : List Out} {e : Endpoint} {r s : Result (Unit {0} × Endpoint)}
      (h : Handled ours p os e r)
      → Handled ours q us h.state s
      → Handled ours q (os ++ us) e s
  Handled-append {os = os} {us = us} {e = e} h k = record {
    state = k.state;
    result = k.result;
    represents = k.represents;
    events =
        k.events
        ∙ ap (λ b. contents h.state.events ++ delivered ours b us) h.inbound
        ∙ ap (λ x. x ++ delivered ours e.is_inbound us) h.events
        ∙ append_assoc (contents e.events) (delivered ours e.is_inbound os) _
        ∙ ap (λ x. contents e.events ++ x) (sym (delivered-append e.is_inbound os us));
    inbound = k.inbound ∙ h.inbound;
    received = k.received ∙ h.received;
  }
