-- ===== src/Tunnel/Hops/Delivery.antt =====
-- src/core/router/tunnel: from the gateway of an outbound tunnel, by its hops, to the endpoint.
use mathlib.Core.Path.{subst}
use mathlib.Core.List.{append-nil}
use xi2p_old.Base.{ℕ, ◌≡◌, inl, refl, sym, ap, ◌∙◌, some, List, [], ◌∷◌, ◌++◌, length, All, ok}
use xi2p_old.I2np.{Message, get_buffer}
use xi2p_old.Tunnel.{Crypto, Target, TunnelMessageBlock}
use xi2p_old.Tunnel.Gateway.{Gateway, send_buffer, send_tunnel_data_msg}
use xi2p_old.Tunnel.Gateway.Groups.{frames_of}
use xi2p_old.Tunnel.Gateway.Putting.{IsBlock}
use xi2p_old.Tunnel.Gateway.Whole.{put_i2np_msg-Puts}
use xi2p_old.Tunnel.Pieces.{Piece, idle, Run}
use xi2p_old.Tunnel.Endpoint.{Endpoint, route}
use xi2p_old.Tunnel.Endpoint.Phases.{Represents, delivered, contents}
use xi2p_old.Tunnel.Transfer.{handle_all}
use xi2p_old.Tunnel.Transfer.Messages.{handle_all-frames_of}
use xi2p_old.Tunnel.Transfer.Sending.{IsReady, send_buffer-Sends, put_tunnel_data_msg-some}
use xi2p_old.Base.{Result, err, ◌≤◌, suc}
use xi2p_old.Tunnel.Gateway.{frame, padding}
use xi2p_old.Tunnel.Gateway.Groups.{stamp, Fits}
use xi2p_old.Tunnel.Pieces.{encode_all}
use xi2p_old.Tunnel.Transfer.{IsPadding, length-frame, tunnel_data_msg}
use xi2p_old.Tunnel.Endpoint.Received.{handle_decrypted}
use xi2p_old.Tunnel.Cipher.{Aes, LayerKeys}
use xi2p_old.Tunnel.Hops.{Participant, encrypt_tunnel_msg, taken_off, handle_transit_endpoint}
use xi2p_old.Tunnel.Hops.Layers.{pass_all, keys_of, pass_all-encrypt_tunnel_msg}

-- What is done after a result, and the same done in two ways.
abbrev after :
    Result (Unit {0} × Endpoint)
    → (Endpoint → Result (Unit {0} × Endpoint))
    → Result (Unit {0} × Endpoint)
after (err x) f = err x
after (ok (_, e)) f = f e

after_same :
    (r : Result (Unit {0} × Endpoint)) {f g : Endpoint → Result (Unit {0} × Endpoint)}
    → ((e : Endpoint) → f e ≡ g e)
    → after r f ≡ after r g
after_same (err x) h = refl
after_same (ok (_, e)) h = h e

module _ (aes : Aes) (ps : List Participant) (keys : LayerKeys) where
  -- What comes to the endpoint of what the gateway of an outbound tunnel sends.
  unfoldable pub travel : List ℕ → List ℕ
  unfolding encrypt_tunnel_msg pass_all
  travel payload = pass_all aes ps (encrypt_tunnel_msg aes (keys_of aes ps ++ keys ∷ []) payload)

  unfoldable pub travel_all : List (List ℕ) → List (List ℕ)
  unfolding travel
  travel_all [] = []
  travel_all (f ∷ fs) = travel f ∷ travel_all fs

  -- Those, handled by the endpoint.
  unfoldable pub handle_arrivals :
      List ℕ → Crypto → List (List ℕ) → Endpoint → Result (Unit {0} × Endpoint)
  unfolding handle_transit_endpoint
  handle_arrivals ours c [] e = ok (tt, e)
  handle_arrivals ours c (f ∷ fs) e =
      after (handle_transit_endpoint aes ours c keys f e) (λ e'. handle_arrivals ours c fs e')

  module _ (ours : List ℕ) (c : Crypto) where
    travel-frame :
        (tunnel_id : ℕ) (nz : List ℕ) (draw : ℕ) (payload : List ℕ)
        → IsPadding nz
        → length payload ≤ 1003
        → taken_off aes keys (travel (frame c (stamp tunnel_id nz draw) payload))
          ≡ frame c (stamp 0 nz draw) payload
    unfolding travel frame padding
    travel-frame tunnel_id nz draw payload h k =
        let b = stamp tunnel_id nz draw in
        pass_all-encrypt_tunnel_msg aes ps keys (frame c b payload) (length-frame c b h payload k)

    handle_arrivals-step :
        (f : List ℕ) (fs : List (List ℕ)) (e : Endpoint)
        → handle_arrivals ours c (travel_all (f ∷ fs)) e
          ≡ after
              (handle_decrypted ours c (tunnel_data_msg (taken_off aes keys (travel f))) e)
              (handle_arrivals ours c (travel_all fs))
    unfolding handle_arrivals travel_all handle_transit_endpoint
    handle_arrivals-step f fs e = refl

    handle_all-step :
        (f : List ℕ) (fs : List (List ℕ)) (e : Endpoint)
        → after (handle_decrypted ours c (tunnel_data_msg f) e) (handle_all ours c fs)
          ≡ handle_all ours c (f ∷ fs) e
    unfolding handle_all
    handle_all-step f fs e = go (handle_decrypted ours c (tunnel_data_msg f) e)
      where
        go :
            (r : Result (Unit {0} × Endpoint))
            → after r (handle_all ours c fs) ≡ elim r as (λ _. Result (Unit {0} × Endpoint)) [
              | err x ↦ err x
              | ok (_, e') ↦ handle_all ours c fs e'
            ]
        go (err x) = refl
        go (ok (_, e')) = refl

    frames_of-cons :
        (tunnel_id : ℕ) (nz : List ℕ) (draw : ℕ) (g : List Piece) (gs : List (List Piece))
        → frames_of c tunnel_id nz draw (g ∷ gs)
          ≡ frame c (stamp tunnel_id nz draw) (encode_all g)
            ∷ frames_of c tunnel_id nz (suc draw) gs
    unfolding frames_of
    frames_of-cons tunnel_id nz draw g gs = refl

    handle_arrivals-nil :
        (tunnel_id : ℕ) (nz : List ℕ) (draw : ℕ) (e : Endpoint)
        → handle_arrivals ours c (travel_all (frames_of c tunnel_id nz draw [])) e
          ≡ handle_all ours c (frames_of c 0 nz draw []) e
    unfolding handle_arrivals travel_all frames_of handle_all
    handle_arrivals-nil tunnel_id nz draw e = refl

    handle_arrivals-frames_of :
        (tunnel_id : ℕ) (nz : List ℕ) (draw : ℕ) (gs : List (List Piece)) (e : Endpoint)
        → IsPadding nz
        → All Fits gs
        → handle_arrivals ours c (travel_all (frames_of c tunnel_id nz draw gs)) e
          ≡ handle_all ours c (frames_of c 0 nz draw gs) e
    handle_arrivals-frames_of tunnel_id nz draw [] e h f = handle_arrivals-nil tunnel_id nz draw e
    handle_arrivals-frames_of tunnel_id nz draw (g ∷ gs) e h (f, fs) =
        let payload = encode_all g in
        let here = frame c (stamp tunnel_id nz draw) payload in
        let there = frame c (stamp 0 nz draw) payload in
        let more = frames_of c tunnel_id nz (suc draw) gs in
        ap (λ x. handle_arrivals ours c (travel_all x) e) (frames_of-cons tunnel_id nz draw g gs)
        ∙ handle_arrivals-step here more e
        ∙ ap
            (λ x.
              after (handle_decrypted ours c (tunnel_data_msg x) e)
                (handle_arrivals ours c (travel_all more)))
            (travel-frame tunnel_id nz draw payload h f)
        ∙ after_same (handle_decrypted ours c (tunnel_data_msg there) e)
            (λ e'. handle_arrivals-frames_of tunnel_id nz (suc draw) gs e' h fs)
        ∙ handle_all-step there (frames_of c 0 nz (suc draw) gs) e
        ∙ ap (λ x. handle_all ours c x e) (sym (frames_of-cons 0 nz draw g gs))

    -- A message that the owner of an outbound tunnel sends, with a target of a known type with a
    -- hash of 32 bytes and a tunnel id of 32 bits, a message id that is not zero and less than
    -- 32766 bytes, by a gateway that has nothing to send and 1003 bytes for padding that are not
    -- zero: when each of its tunnel data messages is encrypted for the hops, handled by the
    -- participants in their order and by the endpoint of the tunnel, in the order in which they
    -- were sent, then an endpoint without incomplete messages and saved fragments hands on the
    -- bytes of the message once, as its target says, and is without incomplete messages and saved
    -- fragments again.
    pub send_tunnel_data_msg-handle_arrivals :
        (target : Target) (msg : Message) (g : Gateway) (e : Endpoint)
        → IsReady g.buffer
        → IsBlock (record { target = target; data_ = msg })
        → Represents idle e
        → (g' : Gateway) × (frames : List (List ℕ)) × (e' : Endpoint) × (send_tunnel_data_msg c
              target
              (some msg)
              g
            ≡ some g')
          × (g'.sent ≡ g.sent ++ frames ∷ [])
          × (handle_arrivals ours c (travel_all frames) e ≡ ok (tt, e'))
          × (contents e'.events
              ≡ contents e.events ++ route ours e.is_inbound target (get_buffer msg))
          × Represents idle e'
    unfolding send_tunnel_data_msg delivered
    send_tunnel_data_msg-handle_arrivals target msg g e (h, m, k) v i =
        let block : TunnelMessageBlock = record { target = target; data_ = msg } in
        let (b, p, q) = put_i2np_msg-Puts c block v g.buffer [] (inl (h, refl)) (inl h) in
        let s = send_buffer-Sends c g (h, m, k) q.packs in
        let nz = g.buffer.non_zero_random_buffer in
        let a =
          handle_all-frames_of ours c 0 nz g.buffer.draws s.groups e k s.fits
            (subst (λ ys. Run idle ys idle ((target, get_buffer msg) ∷ [])) (sym s.pieces) q.run)
            i in
        (
          send_buffer c (record g { buffer = b }),
          _,
          a.state,
          rw (put_tunnel_data_msg-some c block g b p, send_tunnel_data_msg) refl,
          s.sent,
          handle_arrivals-frames_of g.buffer.tunnel_id nz g.buffer.draws s.groups e k s.fits
              ∙ a.result,
          a.events
              ∙ ap (λ x. contents e.events ++ x)
                  (append-nil (route ours e.is_inbound target (get_buffer msg))),
          a.represents,
        )
