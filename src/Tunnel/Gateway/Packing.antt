-- ===== src/Tunnel/Gateway/Packing.antt =====
-- src/core/router/tunnel/gateway.cc: the steps that fill and complete a tunnel data message, on groups
-- of pieces.
use mathlib.Core.List.{append-nil}
use xi2p_old.Base.{
  ℕ, suc, ◌+◌, ◌-◌, ◌≤◌, ◌≡◌, inl, inr, refl, sym, ap, ◌∙◌, none, some, Bool-cases, ◌==◌, List, [],
  ◌∷◌, ◌++◌, length, length-append, arith,
}
use xi2p_old.Tunnel.{Crypto}
use xi2p_old.Tunnel.Gateway.{
  GatewayBuffer, append_current, frame, padding, complete_current, consume,
}
use xi2p_old.Tunnel.Pieces.{Piece, encode, encode_all, encode_all-append, join}
use xi2p_old.Tunnel.Gateway.Groups.{Fits, frames_of, Packs}

module _ (c : Crypto) where
  -- A message completed with the pieces `g`, when `r` bytes were left.
  completed : GatewayBuffer → ℕ → List Piece → GatewayBuffer
  completed b r g = record b {
    tunnel_data_msgs = b.tunnel_data_msgs ++ frame c b (encode_all g) ∷ [];
    current = none;
    remaining_size = r;
    draws = suc b.draws;
  }

  -- A message that is being filled with the pieces `g`.
  abbrev filled : GatewayBuffer → ℕ → List Piece → GatewayBuffer
  filled b r g = record b { current = some (encode_all g); remaining_size = r }

  complete_current-filled :
      (b : GatewayBuffer) (r : ℕ) (g : List Piece)
      → complete_current c (filled b r g) ≡ completed b r g
  unfolding completed complete_current frame padding
  complete_current-filled b r g = refl

  Packs-completed :
      (b : GatewayBuffer) (r : ℕ) (cur xs : List Piece)
      → Fits (cur ++ xs)
      → (p : Packs c b (completed b r (cur ++ xs)) cur xs) × (p.rest ≡ [])
  unfolding completed frames_of frame padding join
  Packs-completed b r cur xs f = (
    record {
      groups = (cur ++ xs) ∷ [];
      rest = [];
      tunnel_id = refl;
      non_zero = refl;
      draws = omega arith;
      messages = refl;
      pieces = append-nil ((cur ++ xs) ++ []) ∙ append-nil (cur ++ xs);
      fits = (f, tt);
      carries = inl (refl, refl);
    },
    refl,
  )

  Packs-filled :
      (b : GatewayBuffer) (r : ℕ) (cur xs : List Piece)
      → length (encode_all (cur ++ xs)) + r ≡ 1003
      → Packs c b (filled b r (cur ++ xs)) cur xs
  unfolding frames_of join
  Packs-filled b r cur xs h = record {
    groups = [];
    rest = cur ++ xs;
    tunnel_id = refl;
    non_zero = refl;
    draws = omega arith;
    messages = sym (append-nil b.tunnel_data_msgs);
    pieces = refl;
    fits = tt;
    carries = inr (refl, h);
  }

  current_filled :
      (b : GatewayBuffer) (g : List Piece)
      → b.current ≡ some (encode_all g)
      → b ≡ filled b b.remaining_size g
  current_filled b g h = ap (λ x. record b { current = x }) h

  -- What is being filled is completed.
  pub complete_current-Packs :
      (b : GatewayBuffer) (cur : List Piece)
      → b.current ≡ some (encode_all cur)
      → Fits cur
      → (b' : GatewayBuffer) × (complete_current c b ≡ b')
        × (p : Packs c b b' cur []) × (p.rest ≡ [])
        × (b'.current ≡ none)
  unfolding completed
  complete_current-Packs b cur h f =
      let (p, e) = Packs-completed b b.remaining_size cur [] (rw append-nil f) in
      (
        completed b b.remaining_size (cur ++ []),
        ap (complete_current c) (current_filled b cur h)
            ∙ complete_current-filled b b.remaining_size cur
            ∙ ap (completed b b.remaining_size) (sym (append-nil cur)),
        p,
        e,
        refl,
      )

  encode_all-snoc :
      (g : List Piece) (x : Piece) → encode_all g ++ encode x ≡ encode_all (g ++ x ∷ [])
  unfolding encode_all
  encode_all-snoc g x =
      ap (λ y. encode_all g ++ y) (sym (append-nil (encode x))) ∙ sym (encode_all-append g (x ∷ []))

  -- A piece put behind those of the current message.
  append_current-filled :
      (b : GatewayBuffer) (g : List Piece) (x : Piece)
      → b.current ≡ some (encode_all g)
      → append_current (encode x) b ≡ filled b b.remaining_size (g ++ x ∷ [])
  unfolding append_current
  append_current-filled b g x h =
      rw (h, append_current) (ap (λ y. record b { current = some y }) (encode_all-snoc g x))

  -- The message is then completed.
  pub fill_and_complete :
      (b : GatewayBuffer) (g : List Piece) (x : Piece)
      → b.current ≡ some (encode_all g)
      → Fits (g ++ x ∷ [])
      → (b' : GatewayBuffer) × (complete_current c (append_current (encode x) b) ≡ b')
        × (p : Packs c b b' g (x ∷ [])) × (p.rest ≡ [])
        × (b'.current ≡ none)
  unfolding completed
  fill_and_complete b g x h f =
      let (p, e) = Packs-completed b b.remaining_size g (x ∷ []) f in
      (
        completed b b.remaining_size (g ++ x ∷ []),
        ap (complete_current c) (append_current-filled b g x h)
            ∙ complete_current-filled b b.remaining_size (g ++ x ∷ []),
        p,
        e,
        refl,
      )

  pub length-snoc :
      (g : List Piece) (x : Piece)
      → length (encode_all (g ++ x ∷ [])) ≡ length (encode_all g) + length (encode x)
  length-snoc g x = ap length (sym (encode_all-snoc g x)) ∙ length-append (encode_all g) (encode x)

  -- Or its size is counted, and the message completed where no byte is left.
  pub fill_and_consume :
      (b : GatewayBuffer) (g : List Piece) (x : Piece) (n : ℕ)
      → b.current ≡ some (encode_all g)
      → length (encode_all g) + b.remaining_size ≡ 1003
      → length (encode x) ≡ n
      → n ≤ b.remaining_size
      → (b' : GatewayBuffer) × (consume c n (append_current (encode x) b) ≡ b')
        × Packs c b b' g (x ∷ [])
  unfolding consume
  fill_and_consume b g x n h l e k =
      let r = b.remaining_size - n in
      let total = length-snoc g x in
      elim (Bool-cases (r == 0)) [
        | inl t ↦
            let (p, _) = Packs-completed b r g (x ∷ []) (omega arith) in
            (
              completed b r (g ++ x ∷ []),
              ap (consume c n) (append_current-filled b g x h)
                  ∙ rw (t, consume) (complete_current-filled b r (g ++ x ∷ [])),
              p,
            )
        | inr f ↦ (
          filled b r (g ++ x ∷ []),
          ap (consume c n) (append_current-filled b g x h) ∙ rw (f, consume) refl,
          Packs-filled b r g (x ∷ []) (omega arith),
        )
      ]
