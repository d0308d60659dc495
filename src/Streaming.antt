-- ===== src/Streaming.antt =====
-- src/client/api/streaming.h: the packets of the streaming protocol, and the state of one stream.
pub mod Sending
pub mod Keeping
pub mod Frames
pub mod Window
pub mod Parts
pub mod Ordering
pub mod Delivery
pub mod Pieces
pub mod Transfer
pub mod Acks
pub mod Faults
pub mod Resending
pub mod Receiving
pub mod Timers
use xi2p_old.Base.{
  ℕ, zero, suc, ◌+◌, ◌-◌, ◌*◌, ◌/◌, ◌%◌, ◌^◌, ◌≤◌, ◌≡◌, Bool, true, false, List, [], ◌∷◌, ◌++◌,
  length, take, drop, ltb, leb, bit, ◌==◌, if◌then◌else◌,
}
use xi2p_old.ByteStream.{read_at}
use xi2p_old.Identity.{IdentityEx}

abbrev pub streaming_mtu : ℕ
streaming_mtu = 1730

abbrev pub max_num_resend_attempts : ℕ
max_num_resend_attempts = 6

abbrev pub window_size_limit : ℕ
window_size_limit = 6

abbrev pub min_window_size : ℕ
min_window_size = 1

abbrev pub max_window_size : ℕ
max_window_size = 128

abbrev pub initial_rto : ℕ
initial_rto = 9000

-- Packet. `buf` is the array as far as it is written: all of it in a received packet.
pub record Packet : Type 0 where
  pub buf : List ℕ
  pub len : ℕ
  pub offset : ℕ
  pub send_time : ℕ

-- GetBuffer and GetLength; the latter wraps around where the offset is beyond the length.
unfoldable pub get_length : Packet → ℕ
get_length p = (p.len + 2 ^ 64 - p.offset) % 2 ^ 64

unfoldable pub get_bytes : Packet → List ℕ
unfolding get_length
get_bytes p = take (get_length p) (drop p.offset p.buf)

unfoldable pub get_send_stream_id : Packet → ℕ
get_send_stream_id p = read_at 4 p.buf

unfoldable pub get_receive_stream_id : Packet → ℕ
get_receive_stream_id p = read_at 4 (drop 4 p.buf)

unfoldable pub get_seqn : Packet → ℕ
get_seqn p = read_at 4 (drop 8 p.buf)

unfoldable pub get_ack_through : Packet → ℕ
get_ack_through p = read_at 4 (drop 12 p.buf)

unfoldable pub get_nack_count : Packet → ℕ
get_nack_count p = read_at 1 (drop 16 p.buf)

-- The first n of the numbers that GetNACK returns.
unfoldable pub words : ℕ → List ℕ → List ℕ
words zero bs = []
words (suc n) bs = read_at 4 bs ∷ words n (drop 4 bs)

unfoldable pub get_nacks : Packet → List ℕ
unfolding words get_nack_count
get_nacks p = words (get_nack_count p) (drop 17 p.buf)

-- GetOption, GetOptionData and GetPayload, as distances from the start of the array.
unfoldable pub get_option : Packet → ℕ
unfolding get_nack_count
get_option p = 17 + get_nack_count p * 4 + 3

unfoldable pub get_flags : Packet → ℕ
unfolding get_option
get_flags p = read_at 2 (drop (get_option p - 2) p.buf)

unfoldable pub get_option_size : Packet → ℕ
unfolding get_option
get_option_size p = read_at 2 (drop (get_option p) p.buf)

unfoldable pub get_option_data : Packet → ℕ
unfolding get_option
get_option_data p = get_option p + 2

unfoldable pub get_payload : Packet → ℕ
unfolding get_option_data get_option_size
get_payload p = get_option_data p + get_option_size p

unfoldable pub is_syn : Packet → Bool
unfolding get_flags
is_syn p = bit 0 (get_flags p)

unfoldable pub is_no_ack : Packet → Bool
unfolding get_flags
is_no_ack p = bit 10 (get_flags p)

-- The sets of packets are lists in the order of their sequence numbers (PacketCmp); a packet with
-- the number of one that is in the set is not inserted.
unfoldable pub insert_packet : Packet → List Packet → List Packet
unfolding get_seqn
insert_packet p [] = p ∷ []
insert_packet p (q ∷ qs) =
    if ltb (get_seqn p) (get_seqn q)
    then p ∷ q ∷ qs
    else if get_seqn p == get_seqn q
    then q ∷ qs
    else q ∷ insert_packet p qs

-- A 32-bit pattern as a signed number: its order, and whether it is negative.
unfoldable pub signed_le : ℕ → ℕ → Bool
signed_le a b = leb ((a + 2 ^ 31) % 2 ^ 32) ((b + 2 ^ 31) % 2 ^ 32)

unfoldable pub is_negative : ℕ → Bool
is_negative a = leb (2 ^ 31) a

unfoldable pub next_number : ℕ → ℕ
next_number n = (n + 1) % 2 ^ 32

-- StreamStatus; `opened` is eStreamStatusOpen.
pub data StreamStatus : Type 0 where
  new opened reset closing closed : StreamStatus

-- What a stream asks of the destination, its timers, its tunnels and the application.
-- `transmit` are the packets of one SendPackets that go out, and `post` is a packet for which
-- SendClose posts a call of SendPacket.
pub data Event : Type 0 where
  transmit : List (List ℕ) → Event
  post : Packet → Event
  schedule_ack cancel_ack : Event
  schedule_resend : ℕ → Event
  cancel_resend cancel_receive : Event
  call_handler : Bool → Event
  pick_lease pick_tunnel delete_stream : Event

-- Stream. Its 32-bit number m_LastReceivedSequenceNumber is kept as a bit pattern, -1 as 2^32 - 1.
-- `send_buffer` holds what is not read yet of m_SendBuffer and `send_eof` its state; `is_reachable`
-- says whether SendPackets finds a lease set, an outbound tunnel and a lease that has not expired,
-- and `has_handler` whether m_SendHandler is set.
pub record Stream : Type 0 where
  pub send_stream_id : ℕ
  pub recv_stream_id : ℕ
  pub sequence_number : ℕ
  pub last_received : ℕ
  pub status : StreamStatus
  pub is_ack_send_scheduled : Bool
  pub remote_identity : IdentityEx
  pub is_reachable : Bool
  pub receive_queue : List Packet
  pub saved_packets : List Packet
  pub sent_packets : List Packet
  pub num_sent_bytes : ℕ
  pub num_received_bytes : ℕ
  pub send_buffer : List ℕ
  pub send_eof : Bool
  pub window_size : ℕ
  pub rtt : ℕ
  pub rto : ℕ
  pub last_window_size_increase_time : ℕ
  pub num_resend_attempts : ℕ
  pub has_handler : Bool
  pub events : List Event

unfoldable pub emit : Event → Stream → Stream
emit e s = record s { events = s.events ++ e ∷ [] }

-- The members of a new stream, with the number that it takes at random.
unfoldable pub new_stream : ℕ → IdentityEx → Stream
new_stream id identity = record {
  send_stream_id = 0;
  recv_stream_id = id;
  sequence_number = 0;
  last_received = 2 ^ 32 - 1;
  status = new;
  is_ack_send_scheduled = false;
  remote_identity = identity;
  is_reachable = true;
  receive_queue = [];
  saved_packets = [];
  sent_packets = [];
  num_sent_bytes = 0;
  num_received_bytes = 0;
  send_buffer = [];
  send_eof = false;
  window_size = min_window_size;
  rtt = 8000;
  rto = initial_rto;
  last_window_size_increase_time = 0;
  num_resend_attempts = 0;
  has_handler = false;
  events = [];
}

unfoldable pub is_established : Stream → Bool
is_established s = if s.send_stream_id == 0 then false else true

-- The keys and the signatures: what the owner of the destination signs with, and the verifier of
-- an identity. The identity and the signature leave room for data in the first packet.
pub record Owner : Type 0 where
  pub identity : List ℕ
  pub signature_len : ℕ
  pub sign : List ℕ → List ℕ
  pub length_sign : (bytes : List ℕ) → length (sign bytes) ≡ signature_len
  pub small : length identity + signature_len ≤ 1024
  pub verify : IdentityEx → List ℕ → List ℕ → Bool
