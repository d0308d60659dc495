-- ===== src/Tunnel/Transfer/Delivery.antt =====
-- src/core/router/tunnel: from the gateway to the endpoint.
use mathlib.Core.Path.{subst}
use mathlib.Core.List.{append-nil}
use xi2p_old.Base.{
  ℕ, ◌+◌, ◌*◌, ◌<◌, ◌≡◌, inl, refl, sym, ap, ◌∙◌, some, List, [], ◌∷◌, ◌++◌, length, All, ok,
}
use xi2p_old.I2np.{Message, get_buffer}
use xi2p_old.Tunnel.{Crypto, Target, TunnelMessageBlock}
use xi2p_old.Tunnel.Gateway.{Gateway, send_buffer, send_tunnel_data_msg}
use xi2p_old.Tunnel.Gateway.Groups.{frames_of}
use xi2p_old.Tunnel.Gateway.Putting.{IsBlock, full_len}
use xi2p_old.Tunnel.Gateway.Whole.{put_i2np_msg-Puts}
use xi2p_old.Tunnel.Pieces.{Piece, idle, Run, Out}
use xi2p_old.Tunnel.Endpoint.{Endpoint, route}
use xi2p_old.Tunnel.Endpoint.Phases.{Represents, delivered, contents}
use xi2p_old.Tunnel.Transfer.{handle_all}
use xi2p_old.Tunnel.Transfer.Messages.{Accepts, handle_all-frames_of}
use xi2p_old.Tunnel.Transfer.Sending.{
  IsReady, Sends, send_buffer-Sends, put_all, put_all-Packs, put_tunnel_data_msg-some, messages,
}

module _ (ours : List ℕ) (c : Crypto) where
  -- What SendBuffer hands over, as an endpoint takes it.
  accepted :
      {g g' : Gateway} {xs : List Piece} {os : List Out} (e : Endpoint)
      → IsReady g.buffer
      → (s : Sends c g xs g') → Run idle xs idle os
      → Represents idle e
      → Accepts ours c idle os (1028 * length s.groups) e (
          handle_all ours c
            (frames_of c g.buffer.tunnel_id g.buffer.non_zero_random_buffer g.buffer.draws s.groups)
            e)
  accepted {g} {os = os} e (h, m, k) s r i =
      handle_all-frames_of ours c g.buffer.tunnel_id g.buffer.non_zero_random_buffer g.buffer.draws
        s.groups e k s.fits (subst (λ ys. Run idle ys idle os) (sym s.pieces) r) i

  -- SendTunnelDataMsg of a message that has a target of a known type with a hash of 32 bytes and a
  -- tunnel id of 32 bits, a message id that is not zero and less than 32766 bytes, by a gateway
  -- that has nothing to send and 1003 bytes for padding that are not zero, returns, and hands over
  -- tunnel data messages from which an endpoint without incomplete messages and saved fragments
  -- gets the same message: it does with the bytes of the message what its target says, once, and is
  -- without incomplete messages again; the gateway has nothing more to send, and the endpoint has
  -- counted as many bytes received as the gateway sent.
  pub send_tunnel_data_msg-handle_all :
      (target : Target) (msg : Message) (g : Gateway) (e : Endpoint)
      → IsReady g.buffer
      → IsBlock (record { target = target; data_ = msg })
      → Represents idle e
      → (g' : Gateway) × (frames : List (List ℕ)) × (e' : Endpoint) × (n : ℕ)
        × (send_tunnel_data_msg c target (some msg) g ≡ some g')
        × (g'.sent ≡ g.sent ++ frames ∷ [])
        × (handle_all ours c frames e ≡ ok (tt, e'))
        × (contents e'.events
            ≡ contents e.events ++ route ours e.is_inbound target (get_buffer msg))
        × Represents idle e'
        × IsReady g'.buffer
        × (g'.num_sent_bytes ≡ g.num_sent_bytes + n)
        × (e'.num_received_bytes ≡ e.num_received_bytes + n)
  unfolding send_tunnel_data_msg delivered
  send_tunnel_data_msg-handle_all target msg g e h v i =
      let block : TunnelMessageBlock = record { target = target; data_ = msg } in
      let (b, p, q) = put_i2np_msg-Puts c block v g.buffer [] (inl (h.0, refl)) (inl h.0) in
      let s = send_buffer-Sends c g h q.packs in
      let a = accepted e h s q.run i in
      (
        send_buffer c (record g { buffer = b }),
        _,
        a.state,
        _,
        rw (put_tunnel_data_msg-some c block g b p, send_tunnel_data_msg) refl,
        s.sent,
        a.result,
        a.events
            ∙ ap (λ x. contents e.events ++ x)
                (append-nil (route ours e.is_inbound target (get_buffer msg))),
        a.represents,
        s.ready,
        s.counted,
        a.received,
      )

  -- Any number of messages, each with a target of a known type, a hash of 32 bytes and a tunnel id
  -- of 32 bits, a message id that is not zero and less than 32766 bytes, and each of more than 999
  -- bytes with its delivery instructions, that are put one after the other into a gateway that has
  -- nothing to send and 1003 bytes for padding that are not zero, before SendBuffer is called once:
  -- all calls return, and the messages leave an endpoint without incomplete messages and saved
  -- fragments in the order in which they were put, each once and unchanged, as their targets say.
  pub put_all-handle_all :
      (blocks : List TunnelMessageBlock) (g : Gateway) (e : Endpoint)
      → IsReady g.buffer
      → All (λ block. IsBlock block × (999 < full_len block)) blocks
      → Represents idle e
      → (g' : Gateway) × (frames : List (List ℕ)) × (e' : Endpoint) × (put_all c blocks g ≡ some g')
        × ((send_buffer c g').sent ≡ g.sent ++ frames ∷ [])
        × (handle_all ours c frames e ≡ ok (tt, e'))
        × (contents e'.events
            ≡ contents e.events ++ delivered ours e.is_inbound (messages c blocks))
        × Represents idle e'
        × IsReady (send_buffer c g').buffer
  put_all-handle_all blocks g e h v i =
      let (b, xs, f, p, r) = put_all-Packs c blocks g [] v (inl (h.0, refl)) in
      let s = send_buffer-Sends c g h p in
      let a = accepted e h s r i in
      (record g { buffer = b }, _, a.state, f, s.sent, a.result, a.events, a.represents, s.ready)
