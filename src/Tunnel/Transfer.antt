-- ===== src/Tunnel/Transfer.antt =====
-- src/core/router/tunnel: what the gateway completes is what the endpoint accepts.
pub mod Messages
pub mod Sending
pub mod Delivery
use mathlib.Core.Path.{subst}
use mathlib.Core.List.{append_assoc, append-nil}
use xi2p_old.Base.{
  ℕ, zero, suc, ◌+◌, ◌-◌, ◌*◌, ◌≤◌, ◌<◌, ◌≡◌, ◌≢◌, inl, inr, refl, sym, ap, ◌∙◌, Bool, true, false,
  Bool-cases, ltb, List, [], ◌∷◌, ◌++◌, map, length, take, drop, replicate, All, Result, ok, err,
  Method, length-append, length-take, length-drop, length-replicate, arith,
}
use xi2p_old.ByteStream.{to_big}
use xi2p_old.ByteStream.Words.{length-to_big}
use xi2p_old.I2np.{Message}
use xi2p_old.Tunnel.{Crypto}
use xi2p_old.Tunnel.Gateway.{frame, padding, non_zero, GatewayBuffer}
use xi2p_old.Tunnel.Gateway.Groups.{stamp, frames_of, Fits}
use xi2p_old.Tunnel.Pieces.{
  Piece, encode_all, join, Phase, idle, collecting, Run, stop, Run-split, Out,
}
use xi2p_old.Tunnel.Endpoint.{Endpoint, same}
use xi2p_old.Tunnel.Endpoint.Received.{handle_decrypted, process_fragments}
use xi2p_old.Tunnel.Endpoint.Frames.{
  Parts, before, handle_decrypted-verified, length-before, handle_decrypted-refused, same_self,
}
use xi2p_old.Tunnel.Endpoint.Loop.{process_fragments-Run}
use xi2p_old.Tunnel.Endpoint.Phases.{Represents, Handled, delivered, contents}
use xi2p_old.Tunnel.Endpoint.Runs.{IsShort}

-- A message made by CreateEmptyTunnelDataMsg, with the bytes of a tunnel data message in it.
unfoldable pub tunnel_data_msg : List ℕ → Message
tunnel_data_msg payload = record {
  bytes = replicate 18 0 ++ payload;
  offset = 2;
  max_len = 4096;
  capacity = 4112;
}

All-take : {A : Type 0} (P : A → Type 0) (n : ℕ) (xs : List A) → All P xs → All P (take n xs)
All-take P zero xs h = tt
All-take P (suc n) [] h = tt
All-take P (suc n) (x ∷ xs) (h, hs) = (h, All-take P n xs hs)

All-drop : {A : Type 0} (P : A → Type 0) (n : ℕ) (xs : List A) → All P xs → All P (drop n xs)
All-drop P zero xs h = h
All-drop P (suc n) [] h = tt
All-drop P (suc n) (x ∷ xs) (h, hs) = All-drop P n xs hs

-- What the constructor of TunnelGatewayBuffer makes of random bytes.
abbrev pub IsPadding : List ℕ → Type 0
IsPadding xs = (length xs ≡ 1003) × All (λ x. x ≢ 0) xs

length-map : (f : ℕ → ℕ) (xs : List ℕ) → length (map f xs) ≡ length xs
length-map f [] = refl
length-map f (x ∷ xs) = ap suc (length-map f xs)

All-non_zero : (xs : List ℕ) → All (λ x. x ≢ 0) (map non_zero xs)
unfolding non_zero
All-non_zero [] = tt
All-non_zero (zero ∷ xs) = (omega arith, All-non_zero xs)
All-non_zero (suc x ∷ xs) = (omega arith, All-non_zero xs)

pub map-non_zero : (xs : List ℕ) → length xs ≡ 1003 → IsPadding (map non_zero xs)
map-non_zero xs h = (length-map non_zero xs ∙ h, All-non_zero xs)

module _ (c : Crypto) (b : GatewayBuffer) (h : IsPadding b.non_zero_random_buffer) where
  length-padding : (n : ℕ) → n ≤ 1003 → length (padding c b n) ≡ n
  unfolding padding
  length-padding n k = elim (Bool-cases (ltb 0 n)) [
    | inl t ↦
        let at = c.rand_in_range b.draws 0 (1003 - n) in
        rw (t, padding)
          (omega (
            arith,
            length-take n (drop at b.non_zero_random_buffer),
            length-drop at b.non_zero_random_buffer,
            c.rand_in_range-bound b.draws 0 (1003 - n) (omega arith),
            h.0,
          ))
    | inr f ↦ rw (f, padding) (ground arith)
  ]

  padding-All : (n : ℕ) → All (λ x. x ≢ 0) (padding c b n)
  unfolding padding
  padding-All n = elim (Bool-cases (ltb 0 n)) [
    | inl t ↦ rw (t, padding) (All-take (λ x. x ≢ 0) n _ (All-drop (λ x. x ≢ 0) _ _ h.1))
    | inr f ↦ rw (f, padding) tt
  ]

  -- A completed message in the parts that the endpoint reads.
  pub frame-Parts :
      (payload : List ℕ)
      → length payload ≤ 1003
      → Parts
          (replicate 18 0)
          (to_big 4 b.tunnel_id)
          (c.rand_bytes b.draws 16)
          (take 4 (c.sha256 (payload ++ c.rand_bytes b.draws 16)))
          (padding c b (1028 - length payload - 25))
          payload
  frame-Parts payload k = record {
    header = refl;
    tunnel_id = length-to_big 4 b.tunnel_id;
    vector = c.length-rand_bytes b.draws 16;
    sum = omega (
      arith,
      length-take 4 (c.sha256 (payload ++ c.rand_bytes b.draws 16)),
      c.length-sha256 (payload ++ c.rand_bytes b.draws 16),
    );
    non_zero = padding-All (1028 - length payload - 25);
    total = omega (arith, length-padding (1028 - length payload - 25) (omega arith));
  }

  -- A completed message of a payload of at most 1003 bytes has 1028 bytes, by a gateway whose 1003
  -- bytes for padding are not zero, wherever in them the padding is taken.
  pub length-frame : (payload : List ℕ) → length payload ≤ 1003 → length (frame c b payload) ≡ 1028
  unfolding frame
  length-frame payload k =
      let p = frame-Parts payload k in
      let iv = c.rand_bytes b.draws 16 in
      let sum = take 4 (c.sha256 (payload ++ iv)) in
      let pad = padding c b (1028 - length payload - 25) in
      omega (
        arith,
        length-append (to_big 4 b.tunnel_id) (iv ++ (sum ++ (pad ++ 0 ∷ payload))),
        length-append iv (sum ++ (pad ++ 0 ∷ payload)),
        length-append sum (pad ++ 0 ∷ payload),
        length-append pad (0 ∷ payload),
        p.tunnel_id,
        p.vector,
        p.sum,
        p.total,
      )

-- The tunnel data messages that an endpoint gets one after the other.
unfoldable pub handle_all : List ℕ → Crypto → List (List ℕ) → Method Endpoint (Unit {0})
unfolding tunnel_data_msg handle_decrypted
handle_all ours c [] e = ok (tt, e)
handle_all ours c (f ∷ fs) e = elim (handle_decrypted ours c (tunnel_data_msg f) e) [
  | err x ↦ err x
  | ok (_, e') ↦ handle_all ours c fs e'
]

abbrev pub count : ℕ → Endpoint → Endpoint
count n e = record e { num_received_bytes = e.num_received_bytes + n }

Represents-count : (p : Phase) (n : ℕ) (e : Endpoint) → Represents p e → Represents p (count n e)
Represents-count idle n e i = i
Represents-count (collecting t id k acc) n e (s, i) =
    (s, record { message = i.message; entry = i.entry; holding = i.holding })

module _ (ours : List ℕ) (c : Crypto) where
  -- An endpoint in a phase that is given a completed message with the payload of a run of pieces,
  -- of at most 1003 bytes in all, by a gateway whose 1003 bytes for padding are not zero, goes on
  -- to the phase in which the run ends: the padding and the checksum are accepted, each message
  -- that the run completes is handed on as its target says, and nothing is read or written outside
  -- a buffer. The bytes received are counted.
  pub handle_decrypted-Run :
      {p q : Phase} {g : List Piece} {os : List Out} (b : GatewayBuffer) (e : Endpoint)
      → IsPadding b.non_zero_random_buffer
      → Run p g q os
      → Fits g
      → Represents p e
      → Handled ours q os
          (count 1028 e)
          (handle_decrypted ours c (tunnel_data_msg (frame c b (encode_all g))) e)
  unfolding frame tunnel_data_msg
  handle_decrypted-Run {p} {q} {g} {os} b e h r f i =
      let payload = encode_all g in
      let parts = frame-Parts c b h payload f in
      let pad = length-padding c b h (1028 - length payload - 25) (omega arith) in
      subst (Handled ours q os (count 1028 e))
        (sym (handle_decrypted-verified 4096 parts ours c e (same_self _)))
        (process_fragments-Run ours (record { max_len = refl; capacity = refl }) (length payload)
          (before 4096 parts) _ 1046 (count 1028 e) r (Represents-count p 1028 e i) (omega arith)
          (omega (arith, length-before 4096 parts)) (omega arith))
