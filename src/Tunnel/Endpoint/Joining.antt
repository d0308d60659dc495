-- ===== src/Tunnel/Endpoint/Joining.antt =====
-- src/core/router/tunnel/endpoint.cc: the bytes of a message as fragments are concatenated.
use mathlib.Core.List.{append_assoc}
use xi2p_old.Base.{
  ℕ, ◌+◌, ◌≤◌, ◌≡◌, ◌⊎◌, inl, inr, refl, ap, ◌∙◌, List, ◌++◌, length, drop, ltb, replicate,
  Bool-cases, length-append, drop-append, ok, arith,
}
use xi2p_old.I2np.{Message, new_buffer, get_length, get_buffer, assign, append_data}
use xi2p_old.Tunnel.Endpoint.{concatenate}

-- A message buffer with the bytes `acc` behind its offset: a short buffer, or a full-size one.
pub record Holding (m : Message) (acc : List ℕ) : Type 0 where
  pub front : List ℕ
  pub bytes : m.bytes ≡ front ++ acc
  pub offset : length front ≡ m.offset
  pub max_len : m.max_len ≡ 4096
  pub low : m.offset ≤ 1046
  pub room : (m.capacity ≡ 4112) ⊎ ((m.offset ≡ 2) × (m.capacity ≡ 32784))
  pub fits : length m.bytes ≤ m.capacity

module _ {m : Message} {acc : List ℕ} (h : Holding m acc) where
  pub get_buffer-Holding : get_buffer m ≡ acc
  unfolding get_buffer
  get_buffer-Holding = ap (drop m.offset) h.bytes ∙ drop-append m.offset h.front acc h.offset

  pub length-Holding : length m.bytes ≡ m.offset + length acc
  length-Holding = ap length h.bytes ∙ omega (arith, length-append h.front acc, h.offset)

  pub get_length-Holding : get_length m ≡ length acc
  unfolding get_length
  get_length-Holding = omega (arith, length-Holding)

  -- In the same buffer.
  append_data-Holding :
      (d : List ℕ)
      → length m.bytes + length d ≤ m.capacity
      → (n : Message) × (append_data m d ≡ ok n) × Holding n (acc ++ d)
  unfolding append_data
  append_data-Holding d k = (
    record m { bytes = m.bytes ++ d },
    ground arith,
    record {
      front = h.front;
      bytes = rw h.bytes (append_assoc h.front acc d);
      offset = h.offset;
      max_len = h.max_len;
      low = h.low;
      room = h.room;
      fits = omega (arith, length-append m.bytes d);
    },
  )

  -- Copied to a full-size buffer.
  assign-Holding :
      2 + length acc ≤ 32784
      → (n : Message) × (assign (new_buffer 32768) m ≡ ok n)
        × Holding n acc
        × (n.capacity ≡ 32784)
        × (n.offset ≡ 2)
  unfolding assign new_buffer
  assign-Holding k =
      let copy : Message = record {
        bytes = replicate 2 0 ++ acc;
        offset = 2;
        max_len = 4096;
        capacity = 32784;
      } in
      (
        copy,
        rw (get_buffer-Holding, get_length-Holding, h.max_len) (ground arith),
        record {
          front = replicate 2 0;
          bytes = refl;
          offset = refl;
          max_len = refl;
          low = omega arith;
          room = inr (refl, refl);
          fits = omega arith;
        },
        refl,
        refl,
      )

pub concatenate-Holding :
    {m : Message} {acc : List ℕ} (h : Holding m acc) (d : List ℕ)
    → 2 + length acc + length d ≤ 32784
    → (n : Message) × (concatenate m d ≡ ok n) × Holding n (acc ++ d)
unfolding concatenate
concatenate-Holding {m} {acc} h d k =
    elim (Bool-cases (ltb m.max_len (length m.bytes + length d))) [
      | inl t ↦
          let (n, e, hn, c, o) = assign-Holding h (omega arith) in
          let (q, f, hq) = append_data-Holding hn d (omega (arith, length-Holding hn)) in
          (q, rw (t, e, f) refl, hq)
      | inr f ↦
          let small : length m.bytes + length d ≤ 4096 = ground (arith, h.max_len) in
          let (q, g, hq) = append_data-Holding h d (ground (arith, h.room)) in
          (q, rw (f, g) refl, hq)
    ]
