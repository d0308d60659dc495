-- ===== src/Tunnel/Transfer/Messages.antt =====
-- src/core/router/tunnel: messages sent through a gateway, as they leave the endpoint.
use mathlib.Core.Path.{subst}
use mathlib.Core.List.{append_assoc, append-nil}
use xi2p_old.Base.{
  ℕ, suc, ◌+◌, ◌*◌, ◌≡◌, refl, sym, ap, ◌∙◌, List, [], ◌∷◌, ◌++◌, length, All, Result, ok, arith,
}
use xi2p_old.Tunnel.{Crypto}
use xi2p_old.Tunnel.Gateway.{frame}
use xi2p_old.Tunnel.Gateway.Groups.{stamp, frames_of, Fits}
use xi2p_old.Tunnel.Pieces.{Piece, encode_all, join, Phase, Run, Run-nil, Run-split, Out}
use xi2p_old.Tunnel.Endpoint.{Endpoint}
use xi2p_old.Tunnel.Endpoint.Received.{handle_decrypted}
use xi2p_old.Tunnel.Endpoint.Phases.{Represents, delivered, contents}
use xi2p_old.Tunnel.Endpoint.Runs.{delivered-append}
use xi2p_old.Tunnel.Transfer.{IsPadding, tunnel_data_msg, handle_all, handle_decrypted-Run}

module _ (ours : List ℕ) (c : Crypto) where
  -- Where the endpoint stands after tunnel data messages: no fault, and every message that a run of
  -- pieces completes has been handed on.
  pub record Accepts (q : Phase) (os : List Out) (n : ℕ) (e : Endpoint)
      (r : Result (Unit {0} × Endpoint)) : Type 0 where
    pub state : Endpoint
    pub result : r ≡ ok (tt, state)
    pub represents : Represents q state
    pub events : contents state.events ≡ contents e.events ++ delivered ours e.is_inbound os
    pub inbound : state.is_inbound ≡ e.is_inbound
    pub received : state.num_received_bytes ≡ e.num_received_bytes + n

  handle_all-step :
      (f : List ℕ) (fs : List (List ℕ)) (e e' : Endpoint)
      → handle_decrypted ours c (tunnel_data_msg f) e ≡ ok (tt, e')
      → handle_all ours c (f ∷ fs) e ≡ handle_all ours c fs e'
  unfolding handle_all
  handle_all-step f fs e e' h = rw (h, handle_all) refl

  -- The groups of pieces of completed messages, one message after the other.
  pub handle_all-frames_of :
      {p q : Phase} {os : List Out} (tunnel_id : ℕ) (padding : List ℕ) (draw : ℕ)
      (gs : List (List Piece)) (e : Endpoint)
      → IsPadding padding
      → All Fits gs
      → Run p (join gs) q os
      → Represents p e
      → Accepts q os
          (1028 * length gs)
          e
          (handle_all ours c (frames_of c tunnel_id padding draw gs) e)
  unfolding handle_all frames_of join delivered
  handle_all-frames_of {p = p} {q = q} {os = os} tunnel_id padding draw [] e h f r i =
      let (here, nothing) = Run-nil r in
      record {
        state = e;
        result = refl;
        represents = subst (λ y. Represents y e) here i;
        events =
            sym (append-nil (contents e.events))
            ∙ ap (λ y. contents e.events ++ delivered ours e.is_inbound y) (sym nothing);
        inbound = refl;
        received = omega arith;
      }
  handle_all-frames_of {p = p} {q = q} {os = os} tunnel_id padding draw (g ∷ gs) e h (f, fs) r i =
      let (p₁, us, vs, r₁, r₂, split) = Run-split g (join gs) r in
      let k = handle_decrypted-Run ours c (stamp tunnel_id padding draw) e h r₁ f i in
      let l =
        handle_all-frames_of {p = p₁} tunnel_id padding (suc draw) gs k.state h fs r₂
          k.represents in
      record {
        state = l.state;
        result =
            handle_all-step (frame c (stamp tunnel_id padding draw) (encode_all g))
              (frames_of c tunnel_id padding (suc draw) gs) e k.state k.result
            ∙ l.result;
        represents = l.represents;
        events =
            l.events
            ∙ ap (λ b. contents k.state.events ++ delivered ours b vs) k.inbound
            ∙ ap (λ x. x ++ delivered ours e.is_inbound vs) k.events
            ∙ append_assoc (contents e.events) (delivered ours e.is_inbound us) _
            ∙ ap (λ x. contents e.events ++ x)
                (sym (delivered-append ours e.is_inbound us vs)
                  ∙ ap (delivered ours e.is_inbound) (sym split));
        inbound = l.inbound ∙ k.inbound;
        received = omega (arith, l.received, k.received);
      }
