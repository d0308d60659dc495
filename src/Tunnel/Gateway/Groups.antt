-- ===== src/Tunnel/Gateway/Groups.antt =====
-- src/core/router/tunnel/gateway.cc: the tunnel data messages that the gateway fills, as groups of
-- pieces.
use mathlib.Core.List.{append_assoc, append-nil}
use xi2p_old.Base.{
  ℕ, suc, ◌+◌, ◌≤◌, ◌≡◌, ◌⊎◌, refl, sym, ap, ◌∙◌, none, some, List, [], ◌∷◌, ◌++◌, length, All,
  length-append, arith,
}
use xi2p_old.Tunnel.{Crypto}
use xi2p_old.Tunnel.Gateway.{GatewayBuffer, frame}
use xi2p_old.Tunnel.Pieces.{Piece, encode, encode_all, join}

-- What the bytes of a completed message depend on.
abbrev pub stamp : ℕ → List ℕ → ℕ → GatewayBuffer
stamp tunnel_id non_zero draw = record {
  tunnel_id = tunnel_id;
  tunnel_data_msgs = [];
  current = none;
  remaining_size = 0;
  non_zero_random_buffer = non_zero;
  draws = draw;
}

join-append : {A : Type 0} (gs hs : List (List A)) → join (gs ++ hs) ≡ join gs ++ join hs
unfolding join
join-append [] hs = refl
join-append (g ∷ gs) hs = rw (join-append gs hs) (sym (append_assoc g (join gs) (join hs)))

All-append : {A : Type 0} (P : A → Type 0) (xs ys : List A) → All P xs → All P ys → All P (xs ++ ys)
All-append P [] ys h k = k
All-append P (x ∷ xs) ys (h, hs) k = (h, All-append P xs ys hs k)

abbrev pub Fits : List Piece → Type 0
Fits g = length (encode_all g) ≤ 1003

-- The pieces in the message that is being filled: none, or as many as leave the remaining size.
abbrev pub Carries : GatewayBuffer → List Piece → Type 0
Carries b cur =
    ((b.current ≡ none) × (cur ≡ []))
    ⊎ ((b.current ≡ some (encode_all cur)) × (length (encode_all cur) + b.remaining_size ≡ 1003))

pub Fits-one : (x : Piece) → length (encode x) ≤ 1003 → Fits (x ∷ [])
unfolding encode_all
Fits-one x h = rw append-nil h

module _ (c : Crypto) where
  -- The messages that groups of pieces are completed to, from a draw on.
  unfoldable pub frames_of : ℕ → List ℕ → ℕ → List (List Piece) → List (List ℕ)
  unfolding frame encode_all
  frames_of tunnel_id non_zero draw [] = []
  frames_of tunnel_id non_zero draw (g ∷ gs) =
      frame c (stamp tunnel_id non_zero draw) (encode_all g)
      ∷ frames_of tunnel_id non_zero (suc draw) gs

  frames_of-append :
      (tunnel_id : ℕ) (non_zero : List ℕ) (draw : ℕ) (gs hs : List (List Piece))
      → frames_of tunnel_id non_zero draw (gs ++ hs)
        ≡ frames_of tunnel_id non_zero draw gs ++ frames_of tunnel_id non_zero (draw + length gs) hs
  unfolding frames_of
  frames_of-append tunnel_id non_zero draw [] hs =
      ap (λ n. frames_of tunnel_id non_zero n hs) (omega arith)
  frames_of-append tunnel_id non_zero draw (g ∷ gs) hs =
      ap (◌∷◌ (frame c (stamp tunnel_id non_zero draw) (encode_all g))) (
        frames_of-append tunnel_id non_zero (suc draw) gs hs
        ∙ ap (λ n. frames_of tunnel_id non_zero (suc draw) gs ++ frames_of tunnel_id non_zero n hs)
            (omega arith))

  -- From `b` to `b'` the pieces `xs` are put behind the pieces `cur`: some groups are completed,
  -- and the rest is in the message that is being filled.
  pub record Packs (b b' : GatewayBuffer) (cur xs : List Piece) : Type 0 where
    pub groups : List (List Piece)
    pub rest : List Piece
    pub tunnel_id : b'.tunnel_id ≡ b.tunnel_id
    pub non_zero : b'.non_zero_random_buffer ≡ b.non_zero_random_buffer
    pub draws : b'.draws ≡ b.draws + length groups
    pub messages :
        b'.tunnel_data_msgs
        ≡ b.tunnel_data_msgs ++ frames_of b.tunnel_id b.non_zero_random_buffer b.draws groups
    pub pieces : join groups ++ rest ≡ cur ++ xs
    pub fits : All Fits groups
    pub carries : Carries b' rest

  pub Packs-append :
      {b b₁ b₂ : GatewayBuffer} {cur xs ys : List Piece} (p : Packs b b₁ cur xs)
      → Packs b₁ b₂ p.rest ys
      → Packs b b₂ cur (xs ++ ys)
  Packs-append {b} {b₁} {b₂} {cur} {xs} {ys} p q = record {
    groups = p.groups ++ q.groups;
    rest = q.rest;
    tunnel_id = q.tunnel_id ∙ p.tunnel_id;
    non_zero = q.non_zero ∙ p.non_zero;
    draws = omega (arith, q.draws, p.draws, length-append p.groups q.groups);
    messages =
        q.messages
        ∙ rw (p.messages, p.tunnel_id, p.non_zero, p.draws) (append_assoc b.tunnel_data_msgs _ _)
        ∙ ap (λ x. b.tunnel_data_msgs ++ x)
            (sym (frames_of-append b.tunnel_id b.non_zero_random_buffer b.draws p.groups q.groups));
    pieces =
        ap (λ x. x ++ q.rest) (join-append p.groups q.groups)
        ∙ append_assoc (join p.groups) (join q.groups) q.rest
        ∙ ap (λ x. join p.groups ++ x) q.pieces
        ∙ sym (append_assoc (join p.groups) p.rest ys)
        ∙ ap (λ x. x ++ ys) p.pieces
        ∙ append_assoc cur xs ys;
    fits = All-append Fits p.groups q.groups p.fits q.fits;
    carries = q.carries;
  }

  pub rest-Packs-append :
      {b b₁ b₂ : GatewayBuffer} {cur xs ys : List Piece} (p : Packs b b₁ cur xs)
      (q : Packs b₁ b₂ p.rest ys)
      → (Packs-append p q).rest ≡ q.rest
  unfolding Packs-append
  rest-Packs-append p q = refl

  -- Nothing is put.
  pub Packs-nil : {b : GatewayBuffer} {cur : List Piece} → Carries b cur → Packs b b cur []
  unfolding frames_of join
  Packs-nil {b} {cur} h = record {
    groups = [];
    rest = cur;
    tunnel_id = refl;
    non_zero = refl;
    draws = omega arith;
    messages = sym (append-nil b.tunnel_data_msgs);
    pieces = sym (append-nil cur);
    fits = tt;
    carries = h;
  }
