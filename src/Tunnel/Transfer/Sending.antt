-- ===== src/Tunnel/Transfer/Sending.antt =====
-- src/core/router/tunnel/gateway.cc and impl.cc: messages put into a gateway, and SendBuffer.
use mathlib.Core.Path.{subst}
use mathlib.Core.List.{append-nil}
use xi2p_old.Base.{
  ℕ, suc, ◌+◌, ◌*◌, ◌<◌, ◌≡◌, inl, inr, refl, sym, ap, ◌∙◌, Option, none, some, List, [], ◌∷◌, ◌++◌,
  length, All, arith,
}
use xi2p_old.I2np.{get_buffer}
use xi2p_old.Tunnel.{Crypto, TunnelMessageBlock}
use xi2p_old.Tunnel.Gateway.{
  GatewayBuffer, Gateway, complete_current, put_i2np_msg, send_buffer, put_tunnel_data_msg,
}
use xi2p_old.Tunnel.Gateway.Groups.{
  frames_of, Fits, Packs, Packs-append, rest-Packs-append, Carries, Packs-nil,
}
use xi2p_old.Tunnel.Gateway.Packing.{complete_current-Packs}
use xi2p_old.Tunnel.Gateway.Putting.{IsBlock, full_len}
use xi2p_old.Tunnel.Gateway.Whole.{put_i2np_msg-Puts}
use xi2p_old.Tunnel.Pieces.{Piece, join, idle, Run, stop, Run-append, Out}
use xi2p_old.Tunnel.Transfer.{IsPadding}

-- A gateway without a message in preparation or to send.
abbrev pub IsReady : GatewayBuffer → Type 0
IsReady b = (b.current ≡ none) × (b.tunnel_data_msgs ≡ []) × IsPadding b.non_zero_random_buffer

module _ (c : Crypto) where
  complete_current-none : (b : GatewayBuffer) → b.current ≡ none → complete_current c b ≡ b
  unfolding complete_current
  complete_current-none b h = rw (h, complete_current) (ap (λ x. record b { current = x }) h)

  -- What is in preparation is completed.
  flush :
      {b b' : GatewayBuffer} {cur xs : List Piece}
      → Packs c b b' cur xs
      → (b'' : GatewayBuffer) × (complete_current c b' ≡ b'')
        × (p : Packs c b b'' cur xs) × (p.rest ≡ [])
        × (b''.current ≡ none)
  flush {b} {b'} {cur} {xs} p = elim (p.carries) [
    | inl (h, e) ↦ (b', complete_current-none b' h, p, e, h)
    | inr (h, l) ↦
        let (b'', e, q, r, n) = complete_current-Packs c b' p.rest h (omega arith) in
        let (p', r') =
          subst (λ ys. (z : Packs c b b'' cur ys) × (z.rest ≡ [])) (append-nil xs)
            (Packs-append c p q, rest-Packs-append c p q ∙ r) in
        (b'', e, p', r', n)
  ]

  -- A gateway that had nothing to send, after SendBuffer.
  pub record Sends (g : Gateway) (xs : List Piece) (g' : Gateway) : Type 0 where
    pub groups : List (List Piece)
    pub pieces : join groups ≡ xs
    pub fits : All Fits groups
    pub sent :
        g'.sent
        ≡ g.sent
          ++ frames_of c g.buffer.tunnel_id g.buffer.non_zero_random_buffer g.buffer.draws groups
            ∷ []
    pub counted : g'.num_sent_bytes ≡ g.num_sent_bytes + 1028 * length groups
    pub ready : IsReady g'.buffer

  length-frames_of :
      (tunnel_id : ℕ) (padding : List ℕ) (draw : ℕ) (gs : List (List Piece))
      → length (frames_of c tunnel_id padding draw gs) ≡ length gs
  unfolding frames_of
  length-frames_of tunnel_id padding draw [] = refl
  length-frames_of tunnel_id padding draw (g ∷ gs) =
      ap suc (length-frames_of tunnel_id padding (suc draw) gs)

  pub send_buffer-Sends :
      (g : Gateway) {b' : GatewayBuffer} {xs : List Piece}
      → IsReady g.buffer
      → Packs c g.buffer b' [] xs
      → Sends g xs (send_buffer c (record g { buffer = b' }))
  unfolding send_buffer
  send_buffer-Sends g {b'} {xs} (h, m, k) p =
      let (b'', e, q, r, n) = flush p in
      let frames =
        frames_of c g.buffer.tunnel_id g.buffer.non_zero_random_buffer g.buffer.draws q.groups in
      let all : b''.tunnel_data_msgs ≡ frames = q.messages ∙ ap (λ y. y ++ frames) m in
      record {
        groups = q.groups;
        pieces = sym (append-nil (join q.groups)) ∙ ap (λ y. join q.groups ++ y) (sym r) ∙ q.pieces;
        fits = q.fits;
        sent = ap (λ y. g.sent ++ y ∷ []) (ap (λ (z : GatewayBuffer). z.tunnel_data_msgs) e ∙ all);
        counted =
            ap (λ y. g.num_sent_bytes + 1028 * length y)
              (ap (λ (z : GatewayBuffer). z.tunnel_data_msgs) e ∙ all)
            ∙ ap (λ y. g.num_sent_bytes + 1028 * y)
                (length-frames_of g.buffer.tunnel_id g.buffer.non_zero_random_buffer g.buffer.draws
                  q.groups);
        ready = (
          ap (λ (z : GatewayBuffer). z.current) e ∙ n,
          refl,
          subst IsPadding
              (sym (ap (λ (z : GatewayBuffer). z.non_zero_random_buffer) e ∙ q.non_zero)) k,
        );
      }

  -- Blocks put one after the other, as OutboundTunnel and TransitTunnelGateway do before SendBuffer.
  unfoldable pub put_all : List TunnelMessageBlock → Gateway → Option Gateway
  unfolding put_tunnel_data_msg
  put_all [] g = some g
  put_all (block ∷ blocks) g = elim (put_tunnel_data_msg c block.target (some block.data_) g) [
    | none ↦ none
    | some g' ↦ put_all blocks g'
  ]

  pub put_tunnel_data_msg-some :
      (block : TunnelMessageBlock) (g : Gateway) (b : GatewayBuffer)
      → put_i2np_msg c 2 block g.buffer ≡ some b
      → put_tunnel_data_msg c block.target (some block.data_) g ≡ some (record g { buffer = b })
  unfolding put_tunnel_data_msg
  put_tunnel_data_msg-some block g b h = rw (h, put_tunnel_data_msg) refl

  put_all-step :
      (block : TunnelMessageBlock) (blocks : List TunnelMessageBlock) (g g' : Gateway)
      → put_tunnel_data_msg c block.target (some block.data_) g ≡ some g'
      → put_all (block ∷ blocks) g ≡ put_all blocks g'
  unfolding put_all
  put_all-step block blocks g g' h = rw (h, put_all) refl

  pub messages : List TunnelMessageBlock → List Out
  messages [] = []
  messages (block ∷ blocks) = (block.target, get_buffer block.data_) ∷ messages blocks

  -- Blocks of which each takes more than 999 bytes.
  pub put_all-Packs :
      (blocks : List TunnelMessageBlock) (g : Gateway) (cur : List Piece)
      → All (λ block. IsBlock block × (999 < full_len block)) blocks
      → Carries g.buffer cur
      → (b : GatewayBuffer) × (xs : List Piece) × (put_all blocks g
          ≡ some (record g { buffer = b }))
        × Packs c g.buffer b cur xs
        × Run idle xs idle (messages blocks)
  unfolding put_all messages
  put_all-Packs [] g cur h k = (g.buffer, [], refl, Packs-nil c k, stop)
  put_all-Packs (block ∷ blocks) g cur ((v, l), hs) k =
      let (b, e, p) = put_i2np_msg-Puts c block v g.buffer cur k (inr (inr l)) in
      let g' : Gateway = record g { buffer = b } in
      let (b', ys, f, q, r) = put_all-Packs blocks g' p.packs.rest hs p.packs.carries in
      (
        b',
        p.put ++ ys,
        put_all-step block blocks g g' (put_tunnel_data_msg-some block g b e) ∙ f,
        Packs-append c p.packs q,
        Run-append p.run r,
      )
