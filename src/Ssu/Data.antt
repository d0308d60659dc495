-- ===== src/Ssu/Data.antt =====
-- src/core/router/transports/ssu/data.h: the fragments, messages and tables of SSUData, and what it
-- tells the session and the handler to do.
pub mod Incoming
pub mod Process
pub mod Outgoing
pub mod Acks
pub mod Timers
pub mod Reassembly
pub mod Fragmentation
pub mod Resending
pub mod Reading
pub mod Limits
pub mod Delivery
use xi2p_old.Base.{
  ℕ, ◌==◌, ◌++◌, Bool, true, false, not, Option, none, some, List, [], ◌∷◌, if◌then◌else◌, ltb,
}
use xi2p_old.I2np.{Message}

abbrev pub packet_max_ipv4 : ℕ
packet_max_ipv4 = 1456

abbrev pub packet_max_ipv6 : ℕ
packet_max_ipv6 = 1440

abbrev pub fragment_buffer : ℕ
fragment_buffer = 1474

abbrev pub header_udp : ℕ
header_udp = 8

abbrev pub max_received_messages : ℕ
max_received_messages = 1000

abbrev pub resend_interval : ℕ
resend_interval = 3

abbrev pub max_resends : ℕ
max_resends = 5

abbrev pub cleanup_timeout : ℕ
cleanup_timeout = 30

-- `buffer` holds the bytes of the array that the code writes: of a received fragment its `len`
-- bytes, of a sent one those from HeaderMin on, without the header and the padding.
pub record Fragment : Type 0 where
  pub fragment_num : ℕ
  pub len : ℕ
  pub is_last : Bool
  pub buffer : List ℕ

-- The set of saved fragments is kept as FragmentCmp orders it.
pub record IncompleteMessage : Type 0 where
  pub msg : Message
  pub next_fragment_num : ℕ
  pub last_fragment_insert_time : ℕ
  pub saved_fragments : List Fragment

-- An acknowledged fragment is a null pointer.
pub record SentMessage : Type 0 where
  pub fragments : List (Option Fragment)
  pub next_resend_time : ℕ
  pub num_resends : ℕ

-- Calls of the session, the handler and the timers; `send` has the bytes written from HeaderMin on
-- and the length of the packet.
pub data Event : Type 0 where
  send : List ℕ → ℕ → Event
  put_next_message : Message → Event
  session_established : Event
  schedule_resend : Event
  cancel_resend : Event
  schedule_decay : Event
  schedule_cleanup : Event

-- SSUData; `established` is whether the session is in the state Established.
pub record SsuData : Type 0 where
  pub incomplete_messages : List (ℕ × IncompleteMessage)
  pub sent_messages : List (ℕ × SentMessage)
  pub received_messages : List ℕ
  pub max_packet_size : ℕ
  pub packet_size : ℕ
  pub established : Bool
  pub events : List Event

unfoldable pub emit : Event → SsuData → SsuData
emit e d = record d { events = d.events ++ e ∷ [] }

-- std::set by its keys.
unfoldable pub contains : ℕ → List ℕ → Bool
contains k [] = false
contains k (j ∷ m) = if j == k then true else contains k m
