-- ===== src/Ssu/Data/Limits.antt =====
-- src/core/router/transports/ssu: sizes of packets and fragments, and times of messages.
use xi2p_old.Base.{
  ℕ, suc, ◌+◌, ◌%◌, ◌^◌, ◌≤◌, ◌<◌, ◌≡◌, ◌⊎◌, Bool, true, false, List, [], ◌∷◌, length,
  if◌then◌else◌, ok, err, fault, arith,
}
use xi2p_old.Ssu.Packet.{padding_size, padded_size}
use xi2p_old.Ssu.Data.{Fragment, IncompleteMessage, SsuData}
use xi2p_old.Ssu.Data.Incoming.{
  receive_fragment, attach_next_fragment, attach_saved, new_incomplete,
}
use xi2p_old.Ssu.Data.Outgoing.{adjust_packet_size, payload_size_of, fragments_of}
use xi2p_old.Ssu.Data.Timers.{drop_stale}

-- A padded size is the least multiple of 16 that is not below the size.
pub padded_size-least :
    (size : ℕ)
    → (padded_size size % 16 ≡ 0) × (size ≤ padded_size size) × (padded_size size < size + 16)
unfolding padded_size padding_size
padded_size-least size = ground arith

-- Whatever MTU a router announces, the packet size does not come to exceed the largest one; where
-- the MTU is more than the headers take, a packet and its headers fit the MTU.
pub adjust_packet_size-bounds :
    (mtu : ℕ) (is_v6 : Bool) (d : SsuData)
    → d.packet_size ≤ d.max_packet_size
    → mtu < 2 ^ 16
    → ((adjust_packet_size mtu is_v6 d).packet_size ≤ d.max_packet_size)
      × ((mtu ≤ (if is_v6 then 48 else 28))
          ⊎ ((adjust_packet_size mtu is_v6 d).packet_size + (if is_v6 then 48 else 28) ≤ mtu))
unfolding adjust_packet_size
adjust_packet_size-bounds mtu true d h l = ground arith
adjust_packet_size-bounds mtu false d h l = ground arith

-- With a packet size below the 46 bytes that come before a fragment, which a small MTU leaves, the
-- room for a fragment wraps around, and Send copies a message of more than 1428 bytes over the
-- end of a fragment's array.
pub fragments_of-fault :
    (packet_size msg_id fuel : ℕ) (msg_buf : List ℕ)
    → packet_size < 46
    → 1428 < length msg_buf
    → length msg_buf < 2 ^ 32
    → fragments_of (suc fuel) (payload_size_of packet_size) msg_id 0 msg_buf ≡ err fault
unfolding fragments_of payload_size_of
fragments_of-fault packet_size msg_id fuel [] p q r = absurd (omega arith)
fragments_of-fault packet_size msg_id fuel (b ∷ bs) p q r = ground arith

-- The first fragment of a message, with more to come, leaves the time of the last insertion at 0
-- whenever it came: a cleanup after the first thirty seconds of the epoch drops the message.
pub receive_fragment-drop_stale :
    (now later msg_id : ℕ) (f : Fragment) (m : IncompleteMessage)
    → f.fragment_num ≡ 0
    → f.is_last ≡ false
    → receive_fragment now f new_incomplete ≡ ok (false, m)
    → 30 < later
    → drop_stale later ((msg_id, m) ∷ []) ≡ []
unfolding receive_fragment attach_next_fragment attach_saved new_incomplete drop_stale
receive_fragment-drop_stale now later msg_id f m p q h l = ground arith
