-- ===== src/Tunnel/Endpoint.antt =====
-- src/core/router/tunnel/endpoint.h and endpoint.cc: TunnelEndpoint, which takes the fragments off
-- decrypted tunnel data messages, joins them and hands the messages on.
pub mod Received
pub mod Joining
pub mod Headers
pub mod Phases
pub mod Refinement
pub mod Runs
pub mod Termination
pub mod Loop
pub mod Frames
pub mod Early
use xi2p_old.Base.{
  ℕ, zero, suc, ◌+◌, ◌-◌, ◌*◌, ◌/◌, ◌%◌, ◌^◌, Bool, true, false, not, ◌&&◌, Option, none, some,
  List, [], ◌∷◌, ◌++◌, map, length, take, drop, replicate, ltb, leb, bit, ◌==◌, if◌then◌else◌,
  Result, ok, err, fault, Method, ◌>>=◌, ◌>>◌, pure, lift, throw, lookup, erase, put,
}
use xi2p_old.ByteStream.{read_at}
use xi2p_old.I2np.{
  Message, new_buffer, get_length, get_buffer, assign, append_data, i2np_header_size,
  i2np_max_message_size, i2np_max_short_message_size,
}
use xi2p_old.Tunnel.{
  tunnel_data_msg_size, tunnel_data_encrypted_size, tunnel_gateway_header_size, DeliveryType, local,
  to_tunnel, to_router, unknown, type_of_code, Target, TunnelMessageBlock, Crypto,
}

-- TunnelMessageBlockEx and Fragment.
pub record Incomplete : Type 0 where
  pub block : TunnelMessageBlock
  pub next_fragment_num : ℕ

pub record OutOfSequence : Type 0 where
  pub fragment_num : ℕ
  pub is_last_fragment : Bool
  pub data_ : Message

-- What is handed on: a call of HandleI2NPMessage, and calls of SendMessage for a router, with the
-- message itself or with a TunnelGateway message of it for a tunnel.
pub data Event (A : Type 0) : Type 0 where
  handle_i2np : A → Event A
  send_message : List ℕ → A → Event A
  send_tunnel_gateway : List ℕ → ℕ → A → Event A

pub record Endpoint : Type 0 where
  pub incomplete_messages : List (ℕ × Incomplete)
  pub out_of_sequence_fragments : List (ℕ × OutOfSequence)
  pub is_inbound : Bool
  pub num_received_bytes : ℕ
  pub events : List (Event Message)

unfoldable pub new_endpoint : Bool → Endpoint
new_endpoint is_inbound = record {
  incomplete_messages = [];
  out_of_sequence_fragments = [];
  is_inbound = is_inbound;
  num_received_bytes = 0;
  events = [];
}

-- Equality of two hashes.
unfoldable pub same : List ℕ → List ℕ → Bool
same [] [] = true
same [] (y ∷ ys) = false
same (x ∷ xs) [] = false
same (x ∷ xs) (y ∷ ys) = x == y && same xs ys

-- HandleNextMessage, for the router whose hash is `ours`: what is done with a message.
unfoldable pub route : {A : Type 0} → List ℕ → Bool → Target → A → List (Event A)
unfolding same
route ours is_inbound t m = elim t.delivery_type [
  | local ↦ handle_i2np m ∷ []
  | to_tunnel ↦ send_tunnel_gateway t.hash t.tunnel_id m ∷ []
  | to_router ↦
      if same t.hash ours
      then handle_i2np m ∷ []
      else if is_inbound
      then []
      else send_message t.hash m ∷ []
  | unknown ↦ []
]

unfoldable pub handle_next_message : List ℕ → TunnelMessageBlock → Method Endpoint (Unit {0})
unfolding route
handle_next_message ours block e =
    ok (tt, record e { events = e.events ++ route ours e.is_inbound block.target block.data_ })

-- The two maps as they are updated.
unfoldable pub keep_incomplete : ℕ → Incomplete → Method Endpoint (Unit {0})
unfolding put
keep_incomplete msg_id msg e =
    ok (tt, record e { incomplete_messages = put msg_id msg e.incomplete_messages })

unfoldable pub erase_incomplete : ℕ → Method Endpoint (Unit {0})
unfolding erase
erase_incomplete msg_id e =
    ok (tt, record e { incomplete_messages = erase msg_id e.incomplete_messages })

unfoldable pub erase_out_of_sequence : ℕ → Method Endpoint (Unit {0})
unfolding erase
erase_out_of_sequence msg_id e =
    ok (tt, record e { out_of_sequence_fragments = erase msg_id e.out_of_sequence_fragments })

-- AddOutOfSequenceFragment.
unfoldable pub add_out_of_sequence : ℕ → OutOfSequence → Method Endpoint (Unit {0})
unfolding lookup put
add_out_of_sequence msg_id fragment e = elim (lookup msg_id e.out_of_sequence_fragments) [
  | none ↦
      ok (
        tt,
        record e { out_of_sequence_fragments = put msg_id fragment e.out_of_sequence_fragments },
      )
  | some _ ↦ ok (tt, e)
]

-- The bytes of a fragment behind those of a message, in a full-size buffer where max_len is not
-- enough.
unfoldable pub concatenate : Message → List ℕ → Result Message
unfolding new_buffer assign append_data
concatenate m bytes =
    if ltb m.max_len (length m.bytes + length bytes)
    then elim (assign (new_buffer i2np_max_message_size) m) [
      | ok n ↦ append_data n bytes
      | err x ↦ err x
    ]
    else append_data m bytes

unfoldable pub with_data : Incomplete → Message → Incomplete
with_data msg data_ = record msg { block = record { target = msg.block.target; data_ = data_ } }

-- `next_fragment_num++` of eight bits.
unfoldable pub next : Incomplete → Incomplete
next msg = record msg { next_fragment_num = (msg.next_fragment_num + 1) % 2 ^ 8 }

module _ (ours : List ℕ) where
  -- The end of a message, and of HandleOutOfSequenceFragment.
  unfoldable pub finish : ℕ → Incomplete → Method Endpoint (Unit {0})
  unfolding handle_next_message erase_incomplete ◌>>◌
  finish msg_id msg = handle_next_message ours msg.block >> erase_incomplete msg_id

  unfoldable pub joined_found : ℕ → Bool → Incomplete → Method Endpoint (Unit {0})
  unfolding next keep_incomplete finish
  joined_found msg_id true msg = finish msg_id msg
  joined_found msg_id false msg = keep_incomplete msg_id (next msg)

  unfoldable pub handle_found : ℕ → Incomplete → OutOfSequence → Method Endpoint (Unit {0})
  unfolding concatenate with_data joined_found erase_out_of_sequence ◌>>=◌ ◌>>◌ lift get_buffer
  handle_found msg_id msg fragment = do
    data_ ← lift (concatenate msg.block.data_ (get_buffer fragment.data_))
    joined_found msg_id fragment.is_last_fragment (with_data msg data_)
    erase_out_of_sequence msg_id

  -- HandleOutOfSequenceFragment; `msg` stands in m_IncompleteMessages.
  unfoldable pub handle_out_of_sequence : ℕ → Incomplete → Method Endpoint (Unit {0})
  unfolding lookup handle_found
  handle_out_of_sequence msg_id msg e = elim (lookup msg_id e.out_of_sequence_fragments) [
    | none ↦ ok (tt, e)
    | some fragment ↦
        if fragment.fragment_num == msg.next_fragment_num
        then handle_found msg_id msg fragment e
        else ok (tt, e)
  ]

  -- The branch of HandleFollowOnFragment in which the fragment is the next one.
  unfoldable pub joined_next : ℕ → Bool → Incomplete → Method Endpoint (Unit {0})
  unfolding next keep_incomplete finish handle_out_of_sequence ◌>>◌
  joined_next msg_id true msg = finish msg_id msg
  joined_next msg_id false msg =
      keep_incomplete msg_id (next msg) >> handle_out_of_sequence msg_id (next msg)

  unfoldable pub attach_next : ℕ → Bool → Incomplete → Message → Method Endpoint (Unit {0})
  unfolding get_buffer concatenate with_data joined_next ◌>>=◌ lift
  attach_next msg_id is_last_fragment msg m = do
    data_ ← lift (concatenate msg.block.data_ (get_buffer m))
    joined_next msg_id is_last_fragment (with_data msg data_)

  unfoldable pub handle_next_fragment : ℕ → Bool → Incomplete → Message → Method Endpoint (Unit {0})
  unfolding get_length erase_incomplete attach_next
  handle_next_fragment msg_id is_last_fragment msg m =
      if ltb (length msg.block.data_.bytes + get_length m) i2np_max_message_size
      then attach_next msg_id is_last_fragment msg m
      else erase_incomplete msg_id

  -- HandleFollowOnFragment.
  unfoldable pub handle_follow_on : ℕ → Bool → ℕ → Message → Method Endpoint (Unit {0})
  unfolding lookup add_out_of_sequence handle_next_fragment
  handle_follow_on msg_id is_last_fragment fragment_num m e =
      let saved : OutOfSequence = record {
        fragment_num = fragment_num;
        is_last_fragment = is_last_fragment;
        data_ = m;
      } in
      elim (lookup msg_id e.incomplete_messages) [
        | none ↦ add_out_of_sequence msg_id saved e
        | some msg ↦
            if fragment_num == msg.next_fragment_num
            then handle_next_fragment msg_id is_last_fragment msg m e
            else add_out_of_sequence msg_id saved e
      ]

  -- The first fragment of a message.
  unfoldable pub handle_first : ℕ → TunnelMessageBlock → Method Endpoint (Unit {0})
  unfolding lookup keep_incomplete handle_out_of_sequence ◌>>◌
  handle_first msg_id block e =
      let msg : Incomplete = record { block = block; next_fragment_num = 1 } in
      elim (lookup msg_id e.incomplete_messages) [
        | none ↦ (keep_incomplete msg_id msg >> handle_out_of_sequence msg_id msg) e
        | some _ ↦ ok (tt, e)
      ]
