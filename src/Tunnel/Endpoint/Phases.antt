-- ===== src/Tunnel/Endpoint/Phases.antt =====
-- src/core/router/tunnel/endpoint.cc: what an endpoint holds in a phase of the tunnel, and what it hands on.
use mathlib.Core.List.{append-nil}
use xi2p_old.Base.{
  ℕ, ◌≡◌, inl, inr, refl, sym, ap, ◌∙◌, List, [], ◌∷◌, ◌++◌, Bool, Bool-cases, Result, ok,
}
use xi2p_old.ByteStream.{read_at}
use xi2p_old.I2np.{Message, get_buffer}
use xi2p_old.Tunnel.{DeliveryType, local, to_tunnel, to_router, unknown, Target}
use xi2p_old.Tunnel.Pieces.{Phase, idle, collecting, Out}
use xi2p_old.Tunnel.Endpoint.{
  Endpoint, Incomplete, Event, handle_i2np, send_message, send_tunnel_gateway, route, same,
}
use xi2p_old.Tunnel.Endpoint.Headers.{used}
use xi2p_old.Tunnel.Endpoint.Joining.{Holding}

-- Events without the buffers that the messages stand in.
unfoldable pub event_map : {A B : Type 0} → (A → B) → Event A → Event B
event_map f (handle_i2np a) = handle_i2np (f a)
event_map f (send_message h a) = send_message h (f a)
event_map f (send_tunnel_gateway h id a) = send_tunnel_gateway h id (f a)

unfoldable pub contents : List (Event Message) → List (Event (List ℕ))
unfolding event_map get_buffer
contents [] = []
contents (x ∷ xs) = event_map get_buffer x ∷ contents xs

pub contents-append :
    (xs ys : List (Event Message)) → contents (xs ++ ys) ≡ contents xs ++ contents ys
unfolding contents
contents-append [] ys = refl
contents-append (x ∷ xs) ys = ap (◌∷◌ (event_map get_buffer x)) (contents-append xs ys)

-- What is done with messages that leave the tunnel one after the other.
unfoldable pub delivered : List ℕ → Bool → List Out → List (Event (List ℕ))
unfolding route
delivered ours is_inbound [] = []
delivered ours is_inbound ((t, d) ∷ os) = route ours is_inbound t d ++ delivered ours is_inbound os

contents-route_of :
    (ours : List ℕ) (is_inbound : Bool) (k : DeliveryType) (hash : List ℕ) (id : ℕ) (m : Message)
    → contents
        (route ours is_inbound (used (record { delivery_type = k; hash = hash; tunnel_id = id })) m)
      ≡ route ours is_inbound
          (record { delivery_type = k; hash = hash; tunnel_id = id })
          (get_buffer m)
unfolding contents route used
contents-route_of ours is_inbound local hash id m = refl
contents-route_of ours is_inbound to_tunnel hash id m = refl
contents-route_of ours is_inbound to_router hash id m = elim (Bool-cases (same hash ours)) [
  | inl t ↦ rw t refl
  | inr f ↦ elim (Bool-cases is_inbound) [ inl a ↦ rw (f, a) refl | inr a ↦ rw (f, a) refl ]
]
contents-route_of ours is_inbound unknown hash id m = refl

-- An entry of a message that waits for fragment n, and the state of an endpoint in a phase.
abbrev pub waiting : ℕ → Target → Message → Incomplete
waiting n t m = record { block = record { target = used t; data_ = m }; next_fragment_num = n }

pub record Collects (msg_id n : ℕ) (t : Target) (acc : List ℕ) (e : Endpoint) : Type 0 where
  pub message : Message
  pub entry : e.incomplete_messages ≡ (msg_id, waiting n t message) ∷ []
  pub holding : Holding message acc

abbrev pub Represents : Phase → Endpoint → Type 0
Represents idle e = (e.incomplete_messages ≡ []) × (e.out_of_sequence_fragments ≡ [])
Represents (collecting t id n acc) e =
    (e.out_of_sequence_fragments ≡ []) × Collects (read_at 4 id) n t acc e

-- What a phase and its deliveries are to the endpoint: a result without a fault, in which only the
-- maps and the events have changed.
pub record Handled (ours : List ℕ) (q : Phase) (os : List Out) (e : Endpoint)
    (r : Result (Unit {0} × Endpoint)) : Type 0 where
  pub state : Endpoint
  pub result : r ≡ ok (tt, state)
  pub represents : Represents q state
  pub events : contents state.events ≡ contents e.events ++ delivered ours e.is_inbound os
  pub inbound : state.is_inbound ≡ e.is_inbound
  pub received : state.num_received_bytes ≡ e.num_received_bytes

module _ (ours : List ℕ) where
  pub contents-route :
      (is_inbound : Bool) (t : Target) (m : Message) (d : List ℕ) (es : List (Event Message))
      → get_buffer m ≡ d
      → contents (es ++ route ours is_inbound (used t) m)
        ≡ contents es ++ delivered ours is_inbound ((t, d) ∷ [])
  unfolding delivered
  contents-route is_inbound t m d es h =
      contents-append es _
      ∙ ap (λ x. contents es ++ x)
          (contents-route_of ours is_inbound t.delivery_type t.hash t.tunnel_id m
            ∙ ap (route ours is_inbound t) h
            ∙ sym (append-nil (route ours is_inbound t d)))
