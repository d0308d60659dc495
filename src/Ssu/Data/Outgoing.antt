-- ===== src/Ssu/Data/Outgoing.antt =====
-- src/core/router/transports/ssu/data.cc: AdjustPacketSize, Send and the acknowledgements sent.
use xi2p_old.Base.{
  lookup, put, ℕ, zero, suc, ◌+◌, ◌-◌, ◌*◌, ◌/◌, ◌%◌, ◌^◌, ◌==◌, Bool, true, false, none, some,
  List, [], ◌∷◌, ◌++◌, map, length, take, drop, replicate, ltb, leb, of_bool, if◌then◌else◌, Result,
  ok, err, fault,
}
use xi2p_old.ByteStream.{to_big}
use xi2p_old.I2np.{Message, to_ssu}
use xi2p_old.Ssu.Header.{header_min}
use xi2p_old.Ssu.Packet.{padded_size}
use xi2p_old.Ssu.Data.{
  Fragment, SentMessage, send, schedule_resend, SsuData, emit, fragment_buffer, header_udp,
  resend_interval,
}

-- AdjustPacketSize, for the MTU of the router's address; the difference of an MTU below the headers
-- is negative, and becomes a size_t.
unfoldable pub adjust_packet_size : ℕ → Bool → SsuData → SsuData
adjust_packet_size mtu is_v6 d =
    let raw = (mtu + 2 ^ 64 - (if is_v6 then 40 else 20) - header_udp) % 2 ^ 64 in
    let aligned = raw / 16 * 16 in
    if mtu == 0
    then d
    else if raw == 0
    then record d { packet_size = d.max_packet_size }
    else record d {
      packet_size = if ltb d.max_packet_size aligned then d.max_packet_size else aligned;
    }

-- The bitwise or of two integers of `width` bits.
unfoldable pub bit_or : ℕ → ℕ → ℕ → ℕ
bit_or zero a b = 0
bit_or (suc width) a b = (if a % 2 + b % 2 == 0 then 0 else 1) + 2 * bit_or width (a / 2) (b / 2)

-- The fragment info, in 32 bits.
unfoldable pub fragment_info : ℕ → Bool → ℕ → ℕ
fragment_info fragment_num is_last size =
    bit_or 32 (bit_or 32 (fragment_num * 2 ^ 17 % 2 ^ 32) (of_bool is_last * 2 ^ 16))
      (size % 2 ^ 32)

-- The bytes of a data packet with one fragment, from HeaderMin on.
unfoldable pub fragment_payload : ℕ → ℕ → Bool → List ℕ → List ℕ
fragment_payload msg_id fragment_num is_last bytes =
    4
    ∷ 1
    ∷ (to_big 4 msg_id
        ++ (drop 1 (to_big 4 (fragment_info fragment_num is_last (length bytes))) ++ bytes))

-- The fragment kept for resending; its own last mark is not set.
unfoldable pub new_fragment : ℕ → ℕ → Bool → List ℕ → Fragment
unfolding fragment_payload
new_fragment msg_id fragment_num is_last bytes = record {
  fragment_num = fragment_num;
  len = padded_size (header_min + 9 + length bytes);
  is_last = false;
  buffer = fragment_payload msg_id fragment_num is_last bytes;
}

-- The loop of Send: `fuel` bounds its turns; a fragment larger than its array is a fault.
unfoldable pub fragments_of : ℕ → ℕ → ℕ → ℕ → List ℕ → Result (List Fragment)
fragments_of fuel payload_size msg_id fragment_num [] = ok []
fragments_of zero payload_size msg_id fragment_num (b ∷ msg_buf) = err fault
fragments_of (suc fuel) payload_size msg_id fragment_num (b ∷ msg_buf) =
    let is_last = leb (length (b ∷ msg_buf)) payload_size in
    let bytes = if is_last then b ∷ msg_buf else take payload_size (b ∷ msg_buf) in
    if ltb (fragment_buffer - (header_min + 9)) (length bytes) then err fault else elim is_last [
      | true ↦ ok (new_fragment msg_id fragment_num true bytes ∷ [])
      | false ↦
          elim (fragments_of fuel payload_size msg_id (suc fragment_num)
            (drop payload_size (b ∷ msg_buf))) [
              | ok fs ↦ ok (new_fragment msg_id fragment_num false bytes ∷ fs)
              | err e ↦ err e
            ]
    ]

-- The bytes of a fragment: what the packet has room for behind the header and the fragment info.
unfoldable pub payload_size_of : ℕ → ℕ
payload_size_of packet_size = (packet_size + 2 ^ 64 - header_min - 9) % 2 ^ 64

unfoldable pub send_fragments : List Fragment → SsuData → SsuData
send_fragments [] d = d
send_fragments (f ∷ fs) d = send_fragments fs (emit (send f.buffer f.len) d)

unfoldable pub start_resends : SsuData → SsuData
start_resends d = elim d.sent_messages [ [] ↦ emit schedule_resend d | _ ∷ _ ↦ d ]

unfoldable pub send_message : ℕ → Message → SsuData → Result SsuData
send_message now m d =
    let (msg_id, msg_buf) = to_ssu m in
    elim (lookup msg_id d.sent_messages) [
      | some _ ↦ ok d
      | none ↦
          elim (fragments_of (length msg_buf) (payload_size_of d.packet_size) msg_id 0 msg_buf) [
            | err e ↦ err e
            | ok fs ↦
                let s = send_fragments fs (start_resends d) in
                let sent : SentMessage = record {
                  fragments = map some fs;
                  next_resend_time = (now + resend_interval) % 2 ^ 32;
                  num_resends = 0;
                } in
                ok (record s { sent_messages = put msg_id sent d.sent_messages })
          ]
    ]

-- SendMsgACK.
unfoldable pub msg_ack_payload : ℕ → List ℕ
msg_ack_payload msg_id = 128 ∷ 1 ∷ (to_big 4 msg_id ++ 0 ∷ [])

unfoldable pub send_msg_ack : ℕ → SsuData → SsuData
send_msg_ack msg_id d = emit (send (msg_ack_payload msg_id) 48) d

-- SendFragmentACK: seven fragments to a byte, all but the last byte with the top bit.
unfoldable pub fragment_ack_payload : ℕ → ℕ → List ℕ
fragment_ack_payload msg_id fragment_num =
    64
    ∷ 1
    ∷ (to_big 4 msg_id ++ (replicate (fragment_num / 7) 128 ++ 2 ^ (fragment_num % 7) ∷ 0 ∷ []))

unfoldable pub send_fragment_ack : ℕ → ℕ → SsuData → SsuData
send_fragment_ack msg_id fragment_num d =
    if ltb 64 fragment_num
    then d
    else emit
        (send (fragment_ack_payload msg_id fragment_num)
          (if ltb (fragment_num / 7) 4 then 48 else 64))
        d
