-- ===== src/Ssu/Packet.antt =====
-- src/core/router/transports/ssu/packet.h and packet.cc: the payloads of the nine packet types, their
-- checked setters and their sizes.
use xi2p_old.Base.{
  ℕ, ◌+◌, ◌-◌, ◌*◌, ◌%◌, List, [], ◌∷◌, Bool, length, ◌==◌, ◌||◌, if◌then◌else◌, Result, ok, err,
  length_error,
}
use xi2p_old.Identity.{IdentityEx, full_len, signature_len}
use xi2p_old.Ssu.Header.{Header, header_size, dh_public, intro_key_size}

pub record SessionRequest : Type 0 where
  pub dh_x : List ℕ
  pub ip_address : List ℕ
  pub ip_address_size : ℕ

pub record SessionCreated : Type 0 where
  pub dh_y : List ℕ
  pub ip_address : List ℕ
  pub address_size : ℕ
  pub port : ℕ
  pub relay_tag : ℕ
  pub signed_on_time : ℕ
  pub signature : List ℕ
  pub signature_size : ℕ

-- `signature` is what lies at the pointer, to the end of the packet.
pub record SessionConfirmed : Type 0 where
  pub remote_identity : IdentityEx
  pub signed_on_time : ℕ
  pub signature : List ℕ

pub record RelayRequest : Type 0 where
  pub relay_tag : ℕ
  pub ip_address : List ℕ
  pub ip_address_size : ℕ
  pub port : ℕ
  pub challenge : List ℕ
  pub challenge_size : ℕ
  pub intro_key : List ℕ
  pub nonce : ℕ

pub record RelayResponse : Type 0 where
  pub nonce : ℕ
  pub ip_address_alice : List ℕ
  pub ip_address_alice_size : ℕ
  pub ip_address_charlie : List ℕ
  pub ip_address_charlie_size : ℕ
  pub port_alice : ℕ
  pub port_charlie : ℕ

pub record RelayIntro : Type 0 where
  pub ip_address : List ℕ
  pub ip_address_size : ℕ
  pub port : ℕ
  pub challenge : List ℕ
  pub challenge_size : ℕ

-- SSUFragment.
pub record PacketFragment : Type 0 where
  pub message_id : ℕ
  pub number : ℕ
  pub is_last : Bool
  pub fragment_size : ℕ
  pub bytes : List ℕ

pub record DataPacket : Type 0 where
  pub explicit_acks : List ℕ
  pub acks : List ℕ
  pub ack_bitfields : List ℕ
  pub fragments : List PacketFragment

pub record PeerTest : Type 0 where
  pub nonce : ℕ
  pub ip_address : List ℕ
  pub port : ℕ
  pub intro_key : List ℕ

pub data Payload : Type 0 where
  session_request : SessionRequest → Payload
  session_created : SessionCreated → Payload
  session_confirmed : SessionConfirmed → Payload
  relay_request : RelayRequest → Payload
  relay_response : RelayResponse → Payload
  relay_intro : RelayIntro → Payload
  data_message : DataPacket → Payload
  peer_test : PeerTest → Payload
  session_destroyed : Payload

-- SSUPacket with the payload of its subclass; `raw_data` holds m_RawDataLength bytes.
pub record Packet : Type 0 where
  pub header : Header
  pub raw_data : List ℕ
  pub payload : Payload

-- The size tests of the SetIPAddress methods: of SessionRequest, SessionCreated and Alice in
-- RelayResponse; of RelayRequest; of Charlie in RelayResponse and of RelayIntro.
unfoldable pub check_ip_size : ℕ → Result (Unit {0})
check_ip_size size = if size == 4 || size == 16 then ok tt else err length_error

unfoldable pub check_optional_ipv4_size : ℕ → Result (Unit {0})
check_optional_ipv4_size size = if size == 0 || size == 4 then ok tt else err length_error

unfoldable pub check_ipv4_size : ℕ → Result (Unit {0})
check_ipv4_size size = if size == 4 then ok tt else err length_error

-- SSUPacketBuilder::GetPaddingSize and GetPaddedSize.
unfoldable pub padding_size : ℕ → ℕ
padding_size size = if size % 16 == 0 then 0 else 16 - size % 16

unfoldable pub padded_size : ℕ → ℕ
unfolding padding_size
padded_size size = size + padding_size size

-- The GetSize methods.
unfoldable pub session_request_size : Header → SessionRequest → ℕ
session_request_size h p = header_size h + dh_public + 1 + p.ip_address_size

unfoldable pub session_created_size : Header → SessionCreated → ℕ
session_created_size h p =
    header_size h + dh_public + 1 + p.address_size + 2 + 4 + 4 + p.signature_size

unfoldable pub session_confirmed_size : Header → SessionConfirmed → Result ℕ
session_confirmed_size h p = elim (signature_len p.remote_identity) [
  | ok n ↦ ok (padded_size (header_size h + 3 + full_len p.remote_identity + n + 4))
  | err e ↦ err e
]

unfoldable pub relay_request_size : Header → RelayRequest → ℕ
relay_request_size h p =
    header_size h + 4 + 1 + p.ip_address_size + 2 + 1 + p.challenge_size + intro_key_size + 4

unfoldable pub relay_response_size : Header → RelayResponse → ℕ
relay_response_size h p =
    header_size h + 1 + p.ip_address_charlie_size + 2 + 1 + p.ip_address_alice_size + 2 + 4

unfoldable pub relay_intro_size : Header → RelayIntro → ℕ
relay_intro_size h p = header_size h + 1 + p.ip_address_size + 2 + 1 + p.challenge_size

unfoldable pub fragments_size : List PacketFragment → ℕ
fragments_size [] = 0
fragments_size (f ∷ fs) = f.fragment_size + 4 + 3 + fragments_size fs

abbrev pub counted : ℕ → List ℕ → ℕ
counted width [] = 0
counted width (x ∷ xs) = 1 + length (x ∷ xs) * width

unfoldable pub data_size : Header → DataPacket → ℕ
unfolding fragments_size
data_size h p =
    header_size h
    + 1
    + 1
    + counted 4 p.explicit_acks
    + counted 5 p.acks
    + fragments_size p.fragments

unfoldable pub peer_test_size : Header → ℕ
peer_test_size h = header_size h + 4 + 1 + 2 + intro_key_size
