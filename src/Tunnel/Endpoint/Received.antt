-- ===== src/Tunnel/Endpoint/Received.antt =====
-- src/core/router/tunnel/endpoint.cc: HandleDecryptedTunnelDataMsg, with the delivery instructions that
-- it reads before each fragment.
use xi2p_old.Base.{
  ℕ, zero, suc, ◌+◌, ◌-◌, ◌/◌, ◌%◌, Bool, true, false, not, ◌&&◌, Option, none, some, List, [], ◌∷◌,
  ◌++◌, length, take, drop, replicate, ltb, bit, ◌==◌, if◌then◌else◌, Result, ok, err, fault,
  Method, pure,
}
use xi2p_old.ByteStream.{read_at}
use xi2p_old.I2np.{Message, new_buffer, assign, i2np_header_size, i2np_max_short_message_size}
use xi2p_old.Tunnel.{
  tunnel_data_msg_size, tunnel_data_encrypted_size, tunnel_gateway_header_size, DeliveryType, local,
  to_tunnel, to_router, unknown, type_of_code, Target, TunnelMessageBlock, Crypto,
}
use xi2p_old.Tunnel.Endpoint.{Endpoint, same, handle_next_message, handle_first, handle_follow_on}

-- What the loop of HandleDecryptedTunnelDataMsg reads before the bytes of a fragment: `len` is the
-- number of bytes read, the size included. The members of `target` that the source leaves unset
-- are zero here.
pub record FragmentHeader : Type 0 where
  pub is_follow_on_fragment : Bool
  pub is_last_fragment : Bool
  pub msg_id : ℕ
  pub fragment_num : ℕ
  pub target : Target
  pub len : ℕ
  pub size : ℕ

abbrev pub unset_hash : List ℕ
unset_hash = replicate 32 0

-- The tunnel id and the hash behind a flag, and how many bytes they take.
unfoldable pub read_target : DeliveryType → List ℕ → Target × ℕ
read_target local s = (record { delivery_type = local; hash = unset_hash; tunnel_id = 0 }, 0)
read_target to_tunnel s =
    (record { delivery_type = to_tunnel; hash = take 32 (drop 4 s); tunnel_id = read_at 4 s }, 36)
read_target to_router s =
    (record { delivery_type = to_router; hash = take 32 s; tunnel_id = 0 }, 32)
read_target unknown s = (record { delivery_type = unknown; hash = unset_hash; tunnel_id = 0 }, 0)

-- The rest of what is read behind the flag of a follow-on fragment, and behind that of another one.
unfoldable pub follow_on_header : ℕ → List ℕ → FragmentHeader
follow_on_header flag s = record {
  is_follow_on_fragment = true;
  is_last_fragment = bit 0 flag;
  msg_id = read_at 4 s;
  fragment_num = flag / 2 % 64;
  target = record { delivery_type = local; hash = unset_hash; tunnel_id = 0 };
  len = 7;
  size = read_at 2 (drop 4 s);
}

unfoldable pub first_header : Bool → List ℕ → Target × ℕ → FragmentHeader
first_header is_fragmented s (target, n) =
    let m = if is_fragmented then 4 else 0 in
    record {
      is_follow_on_fragment = false;
      is_last_fragment = not is_fragmented;
      msg_id = if is_fragmented then read_at 4 (drop n s) else 0;
      fragment_num = 0;
      target = target;
      len = 1 + n + m + 2;
      size = read_at 2 (drop m (drop n s));
    }

unfoldable pub read_header : List ℕ → FragmentHeader
unfolding read_target type_of_code follow_on_header first_header
read_header s =
    let flag = read_at 1 s in
    if bit 7 flag
    then follow_on_header flag (drop 1 s)
    else first_header (bit 3 flag) (drop 1 s)
        (read_target (type_of_code (flag / 32 % 4)) (drop 1 s))

-- The array behind `buf`: the bytes of the message, then zeros up to its capacity.
unfoldable pub array_of : Message → List ℕ
array_of m = m.bytes ++ replicate (m.capacity - length m.bytes) 0

-- The data of a fragment whose bytes stand from `at` on: the received message itself with a new
-- offset, or a copy of it where it does not reach `end`. Bytes beyond the array are a fault here
-- already, where the source sets the length, and not where they are read.
unfoldable pub fragment_data : List ℕ → ℕ → ℕ → ℕ → Message → Result Message
unfolding new_buffer assign
fragment_data array end at size msg =
    if ltb (length array) (at + size)
    then err fault
    else let msg' : Message = record msg { bytes = take (at + size) array; offset = at } in
      let short = new_buffer i2np_max_short_message_size in
      if ltb (at + size) end
      then assign
          (record short {
            bytes = short.bytes ++ replicate tunnel_gateway_header_size 0;
            offset = short.offset + tunnel_gateway_header_size;
          })
          msg'
      else ok msg'

-- The zero byte that ends the padding: how many bytes stand before it.
unfoldable pub find_zero : List ℕ → Option ℕ
find_zero [] = none
find_zero (zero ∷ xs) = some 0
find_zero (suc x ∷ xs) = elim (find_zero xs) [ none ↦ none | some i ↦ some (suc i) ]

module _ (ours : List ℕ) where
  -- One fragment.
  unfoldable pub handle_fragment : FragmentHeader → Message → Method Endpoint (Unit {0})
  unfolding handle_next_message handle_first handle_follow_on pure
  handle_fragment h m =
      let block : TunnelMessageBlock = record { target = h.target; data_ = m } in
      if not h.is_follow_on_fragment && h.is_last_fragment
      then handle_next_message ours block
      else if h.msg_id == 0
      then pure tt
      else if h.is_follow_on_fragment
      then handle_follow_on ours h.msg_id h.is_last_fragment h.fragment_num m
      else handle_first ours h.msg_id block

  -- The loop over the fragments, from `at` to `end`. Each turn reads three bytes at least, and
  -- `fuel` is the number of bytes up to `end`.
  unfoldable pub process_fragments : ℕ → List ℕ → ℕ → ℕ → Message → Method Endpoint (Unit {0})
  unfolding read_header fragment_data handle_fragment
  process_fragments zero array end at msg e = ok (tt, e)
  process_fragments (suc fuel) array end at msg e =
      let h = read_header (drop at array) in
      if ltb at end
      then elim (fragment_data array end (at + h.len) h.size msg) [
        | err x ↦ err x
        | ok m ↦ elim (handle_fragment h m e) [
          | err x ↦ err x
          | ok (_, e') ↦ process_fragments fuel array end (at + h.len + h.size) msg e'
        ]
      ]
      else ok (tt, e)

  -- The checksum over the fragments and the IV, and the fragments where it is right.
  unfoldable pub handle_payload :
      Crypto → ℕ → ℕ → List ℕ → List ℕ → Message → Method Endpoint (Unit {0})
  unfolding same process_fragments
  handle_payload c end at array checksum msg e =
      let hash = c.sha256 (take (end - at + 16) (drop at array)) in
      if same (take 4 hash) checksum
      then process_fragments (end - at) array end at msg e
      else ok (tt, e)

  -- HandleDecryptedTunnelDataMsg; the payload of the message is that of a tunnel data message.
  unfoldable pub handle_decrypted : Crypto → Message → Method Endpoint (Unit {0})
  unfolding array_of find_zero handle_payload
  handle_decrypted c msg e =
      let e' : Endpoint = record e {
        num_received_bytes = e.num_received_bytes + tunnel_data_msg_size;
      } in
      let payload = msg.offset + i2np_header_size in
      let end = payload + tunnel_data_msg_size in
      let received = array_of msg in
      elim (find_zero (take (tunnel_data_encrypted_size - 4) (drop (payload + 24) received))) [
        | none ↦ ok (tt, e')
        | some i ↦
            let iv = take 16 (drop (payload + 4) received) in
            handle_payload c end (payload + 24 + i + 1)
              (take end received ++ (iv ++ drop (end + 16) received))
              (take 4 (drop (payload + 20) received)) msg e'
      ]
