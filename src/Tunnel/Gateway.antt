-- ===== src/Tunnel/Gateway.antt =====
-- src/core/router/tunnel/gateway.h and gateway.cc: TunnelGatewayBuffer, which packs messages and their
-- fragments into tunnel data messages of 1028 bytes, and TunnelGateway, which sends them.
pub mod Groups
pub mod Packing
pub mod FollowOn
pub mod Putting
pub mod Whole
pub mod Unfinished
use xi2p_old.Base.{
  ℕ, zero, suc, ◌+◌, ◌-◌, ◌*◌, ◌/◌, ◌%◌, Bool, true, false, not, ◌||◌, ◌&&◌, Option, none, some,
  List, [], ◌∷◌, ◌++◌, map, length, take, drop, leb, ltb, ◌==◌, if◌then◌else◌, of_bool,
}
use xi2p_old.ByteStream.{to_big}
use xi2p_old.I2np.{Message, get_length, get_buffer, first}
use xi2p_old.Tunnel.{
  tunnel_data_msg_size, tunnel_data_max_payload_size, local, to_tunnel, to_router, unknown,
  type_code, Target, TunnelMessageBlock, Crypto,
}

-- TunnelGatewayBuffer: `current` holds the bytes from the offset of m_CurrentTunnelDataMsg to its
-- length, and each of `tunnel_data_msgs` the 1028 bytes behind the header of a message. `draws`
-- counts the draws of random bytes.
pub record GatewayBuffer : Type 0 where
  pub tunnel_id : ℕ
  pub tunnel_data_msgs : List (List ℕ)
  pub current : Option (List ℕ)
  pub remaining_size : ℕ
  pub non_zero_random_buffer : List ℕ
  pub draws : ℕ

-- The test of `m_CurrentTunnelDataMsg`.
unfoldable pub has_current : GatewayBuffer → Bool
has_current b = elim b.current [ none ↦ false | some _ ↦ true ]

unfoldable pub non_zero : ℕ → ℕ
non_zero zero = 1
non_zero (suc n) = suc n

-- CreateCurrentTunnelDataMessage.
unfoldable pub create_current : GatewayBuffer → GatewayBuffer
create_current b = record b { current = some []; remaining_size = tunnel_data_max_payload_size }

-- The bytes that come behind those that the current message has.
unfoldable pub append_current : List ℕ → GatewayBuffer → GatewayBuffer
append_current bytes b = record b {
  current = elim b.current [ none ↦ none | some payload ↦ some (payload ++ bytes) ];
}

-- The flag, the tunnel id and the hash of delivery instructions; `extra` is the fragmented bit.
unfoldable pub address : Target → List ℕ
address t = elim t.delivery_type [
  | local ↦ []
  | to_tunnel ↦ to_big 4 t.tunnel_id ++ t.hash
  | to_router ↦ t.hash
  | unknown ↦ t.hash
]

unfoldable pub instructions : ℕ → Target → List ℕ
unfolding address type_code
instructions extra t = (type_code t.delivery_type * 32 + extra) ∷ address t

-- The four bytes of the message id, in network byte order.
unfoldable pub message_id : Message → List ℕ
unfolding get_buffer
message_id m = take 4 (drop 1 (first 5 (record m { bytes = get_buffer m })))

-- Whether the message in preparation is completed before a message of full_msg_len is put.
unfoldable pub needs_new : ℕ → ℕ → Bool
needs_new full_msg_len remaining_size =
    let num_follow_on_fragments = full_msg_len / tunnel_data_max_payload_size in
    let non_fit = (full_msg_len + num_follow_on_fragments * 7) % tunnel_data_max_payload_size in
    non_fit == 0 || ltb remaining_size non_fit

module _ (c : Crypto) where
  unfoldable pub new_gateway_buffer : ℕ → GatewayBuffer
  unfolding non_zero
  new_gateway_buffer tunnel_id = record {
    tunnel_id = tunnel_id;
    tunnel_data_msgs = [];
    current = none;
    remaining_size = 0;
    non_zero_random_buffer = map non_zero (c.rand_bytes 0 tunnel_data_max_payload_size);
    draws = 1;
  }

  -- The padding before the zero byte.
  unfoldable pub padding : GatewayBuffer → ℕ → List ℕ
  padding b padding_size =
      if ltb 0 padding_size
      then take padding_size (
          drop (c.rand_in_range b.draws 0 (tunnel_data_max_payload_size - padding_size))
            b.non_zero_random_buffer)
      else []

  -- The 1028 bytes of a completed message: tunnel id, IV, checksum, padding, zero, payload.
  unfoldable pub frame : GatewayBuffer → List ℕ → List ℕ
  unfolding padding
  frame b payload =
      let iv = c.rand_bytes b.draws 16 in
      to_big 4 b.tunnel_id
      ++ (iv
          ++ (take 4 (c.sha256 (payload ++ iv))
              ++ (padding b (tunnel_data_msg_size - length payload - 25) ++ 0 ∷ payload)))

  -- CompleteCurrentTunnelDataMessage.
  unfoldable pub complete_current : GatewayBuffer → GatewayBuffer
  unfolding frame
  complete_current b = elim b.current [
    | none ↦ b
    | some payload ↦ record b {
      tunnel_data_msgs = b.tunnel_data_msgs ++ frame b payload ∷ [];
      current = none;
      draws = suc b.draws;
    }
  ]

  -- What is left when `n` bytes are counted, and the completion of a message without room.
  unfoldable pub consume : ℕ → GatewayBuffer → GatewayBuffer
  unfolding complete_current
  consume n b =
      let b' : GatewayBuffer = record b { remaining_size = b.remaining_size - n } in
      if b'.remaining_size == 0 then complete_current b' else b'

  -- The loop over follow-on fragments, on the bytes that are left of the message. Each turn takes
  -- one byte at least, and `fuel` is the number of these bytes.
  unfoldable pub follow_on_fragments : ℕ → List ℕ → ℕ → List ℕ → GatewayBuffer → GatewayBuffer
  unfolding create_current append_current complete_current consume
  follow_on_fragments zero msg_id fragment_number rest b = b
  follow_on_fragments (suc fuel) msg_id fragment_number [] b = b
  follow_on_fragments (suc fuel) msg_id fragment_number (x ∷ xs) b =
      let rest = x ∷ xs in
      let is_last = leb (length rest) (tunnel_data_max_payload_size - 7) in
      let s = if is_last then length rest else tunnel_data_max_payload_size - 7 in
      let flag = 128 + fragment_number * 2 % 128 + of_bool is_last in
      let filled =
        append_current (flag ∷ (msg_id ++ (to_big 2 s ++ take s rest))) (create_current b) in
      let b' = if is_last then consume (s + 7) filled else complete_current filled in
      follow_on_fragments fuel msg_id (suc fragment_number) (drop s rest) b'

  -- The branch of PutI2NPMsg in which the message fits.
  unfoldable pub put_whole : TunnelMessageBlock → GatewayBuffer → GatewayBuffer
  unfolding get_length get_buffer instructions append_current consume
  put_whole block b =
      let di = instructions 0 block.target in
      let len = get_length block.data_ in
      consume (length di + 2 + len)
        (append_current (di ++ (to_big 2 len ++ get_buffer block.data_)) b)

  -- The branch in which it is cut: the first fragment fills the current message. Where that is more
  -- than the message has, the copy goes on with the bytes behind it, which are zeros here.
  unfoldable pub put_fragments : TunnelMessageBlock → GatewayBuffer → GatewayBuffer
  unfolding get_buffer message_id instructions append_current complete_current follow_on_fragments
  put_fragments block b =
      let data_ = get_buffer block.data_ in
      let msg_id = message_id block.data_ in
      let di = instructions 8 block.target in
      let size = b.remaining_size - length di - 6 in
      let b' = complete_current (
        append_current
          (di ++ (msg_id ++ (to_big 2 size ++ first size (record block.data_ { bytes = data_ }))))
          b) in
      follow_on_fragments (length data_) msg_id 1 (drop size data_) b'

  -- The message is completed before, or is the one that was in preparation.
  unfoldable pub renewed : Bool → TunnelMessageBlock → GatewayBuffer → GatewayBuffer
  unfolding get_length instructions create_current complete_current needs_new
  renewed message_created block b =
      let full_msg_len = length (instructions 0 block.target) + get_length block.data_ + 2 in
      if not message_created && needs_new full_msg_len b.remaining_size
      then create_current (complete_current b)
      else b

  -- Fragments, where the delivery instructions fit.
  unfoldable pub put_large : TunnelMessageBlock → GatewayBuffer → Bool × GatewayBuffer
  unfolding instructions complete_current put_fragments
  put_large block b =
      if leb (length (instructions 0 block.target) + 6) b.remaining_size
      then (false, put_fragments block b)
      else (true, complete_current b)

  unfoldable pub put_in : Bool → TunnelMessageBlock → GatewayBuffer → Bool × GatewayBuffer
  unfolding get_length instructions put_whole renewed put_large
  put_in message_created block b =
      let full_msg_len = length (instructions 0 block.target) + get_length block.data_ + 2 in
      if leb full_msg_len b.remaining_size
      then (false, put_whole block b)
      else put_large block (renewed message_created block b)

  -- PutI2NPMsg up to its call of itself: whether the call is made, and the buffer.
  unfoldable pub put_once : TunnelMessageBlock → GatewayBuffer → Bool × GatewayBuffer
  unfolding has_current create_current put_in
  put_once block b =
      if has_current b then put_in false block b else put_in true block (create_current b)

  -- PutI2NPMsg, with fuel for the calls of itself; `none` is a call too many.
  unfoldable pub put_i2np_msg : ℕ → TunnelMessageBlock → GatewayBuffer → Option GatewayBuffer
  unfolding put_once
  put_i2np_msg zero block b = none
  put_i2np_msg (suc fuel) block b =
      let (again, b') = put_once block b in
      elim again [ true ↦ put_i2np_msg fuel block b' | false ↦ some b' ]

-- TunnelGateway: `sent` holds the tunnel data messages handed to the tunnel for encryption and then
-- to the transports, before they are encrypted, one list for each call of SendMessages.
pub record Gateway : Type 0 where
  pub buffer : GatewayBuffer
  pub num_sent_bytes : ℕ
  pub sent : List (List (List ℕ))

module _ (c : Crypto) where
  -- SendBuffer.
  unfoldable pub send_buffer : Gateway → Gateway
  unfolding complete_current
  send_buffer g =
      let b = complete_current c g.buffer in
      record {
        buffer = record b { tunnel_data_msgs = [] };
        num_sent_bytes = g.num_sent_bytes + tunnel_data_msg_size * length b.tunnel_data_msgs;
        sent = g.sent ++ b.tunnel_data_msgs ∷ [];
      }

  -- PutTunnelDataMsg and SendTunnelDataMsg of a block whose data may be null. Two calls of
  -- PutI2NPMsg are as many as there can be.
  unfoldable pub put_tunnel_data_msg : Target → Option Message → Gateway → Option Gateway
  unfolding put_i2np_msg
  put_tunnel_data_msg target none g = some g
  put_tunnel_data_msg target (some msg) g =
      elim (put_i2np_msg c 2 (record { target = target; data_ = msg }) g.buffer) [
        | none ↦ none
        | some b ↦ some (record g { buffer = b })
      ]

  unfoldable pub send_tunnel_data_msg : Target → Option Message → Gateway → Option Gateway
  unfolding put_tunnel_data_msg send_buffer
  send_tunnel_data_msg target none g = some g
  send_tunnel_data_msg target (some msg) g = elim (put_tunnel_data_msg target (some msg) g) [
    | none ↦ none
    | some g' ↦ some (send_buffer g')
  ]
