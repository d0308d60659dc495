-- ===== src/Ssu/Parser.antt =====
-- SSUPacketParser of src/core/router/transports/ssu/packet.cc.
pub mod Safety
use xi2p_old.Base.{
  ℕ, zero, suc, ◌+◌, ◌-◌, ◌/◌, ◌%◌, ◌^◌, List, [], ◌∷◌, Bool, true, false, none, length, ltb, ◌==◌,
  bit, if◌then◌else◌, Result, ok, err, length_error, runtime_error, fault, Method, ◌>>=◌, ◌>>◌,
  pure, throw, lift,
}
use xi2p_old.ByteStream.{Input, read_bytes, read, skip_bytes, size}
use xi2p_old.Identity.{IdentityEx, from_buffer, signature_len}
use xi2p_old.Ssu.Header.{Header, PayloadType, header_size, parse_header, dh_public, intro_key_size}
use xi2p_old.Ssu.Packet.{
  PacketFragment, Payload, Packet, check_ip_size, check_optional_ipv4_size, check_ipv4_size,
  padding_size,
}

-- m_Length and the bytes at m_DataPtr; Size().
abbrev pub left : Method Input (List ℕ)
left s = ok (s.rest, s)

abbrev pub total : Method Input ℕ
total s = ok (size s, s)

unfoldable pub parse_session_request : Method Input Payload
parse_session_request = do
  dh_x ← read_bytes dh_public
  n ← read 1
  address ← read_bytes n
  lift (check_ip_size n)
  pure (Payload.session_request (record { dh_x = dh_x; ip_address = address; ip_address_size = n }))

unfoldable pub parse_session_created : Method Input Payload
parse_session_created = do
  dh_y ← read_bytes dh_public
  n ← read 1
  address ← read_bytes n
  lift (check_ip_size n)
  port ← read 2
  relay_tag ← read 4
  time ← read 4
  signature ← left
  pure (
      Payload.session_created (record {
        dh_y = dh_y;
        ip_address = address;
        address_size = n;
        port = port;
        relay_tag = relay_tag;
        signed_on_time = time;
        signature = signature;
        signature_size = length signature;
      }))

-- A default-constructed IdentityEx.
abbrev pub empty_identity : IdentityEx
empty_identity = record {
  standard = record {
    public_key = [];
    signing_key = [];
    certificate_type = 0;
    certificate_length = 0;
  };
  extended_len = 0;
  extended_buffer = none;
}

unfoldable pub checked_identity : ℕ × IdentityEx → Result IdentityEx
checked_identity (n, i) = if n == 0 then err length_error else ok i

unfoldable pub parse_session_confirmed : Header → Method Input Payload
unfolding checked_identity
parse_session_confirmed h = do
  initial ← left
  skip_bytes 1
  identity_size ← read 2
  bytes ← read_bytes identity_size
  identity ← lift (checked_identity (from_buffer bytes empty_identity))
  time ← read 4
  here ← left
  signature_size ← lift (signature_len identity)
  skip_bytes (padding_size (header_size h + length initial - length here + signature_size))
  signature ← left
  pure (
      Payload.session_confirmed
        (record { remote_identity = identity; signed_on_time = time; signature = signature }))

unfoldable pub parse_relay_request : Method Input Payload
parse_relay_request = do
  relay_tag ← read 4
  n ← read 1
  address ← read_bytes n
  lift (check_optional_ipv4_size n)
  port ← read 2
  m ← read 1
  challenge ← read_bytes m
  intro_key ← read_bytes intro_key_size
  nonce ← read 4
  pure (
      Payload.relay_request (record {
        relay_tag = relay_tag;
        ip_address = address;
        ip_address_size = n;
        port = port;
        challenge = challenge;
        challenge_size = m;
        intro_key = intro_key;
        nonce = nonce;
      }))

unfoldable pub parse_relay_response : Method Input Payload
parse_relay_response = do
  n ← read 1
  charlie ← read_bytes n
  lift (check_ipv4_size n)
  port_charlie ← read 2
  m ← read 1
  alice ← read_bytes m
  lift (check_ip_size m)
  port_alice ← read 2
  nonce ← read 4
  pure (
      Payload.relay_response (record {
        nonce = nonce;
        ip_address_alice = alice;
        ip_address_alice_size = m;
        ip_address_charlie = charlie;
        ip_address_charlie_size = n;
        port_alice = port_alice;
        port_charlie = port_charlie;
      }))

unfoldable pub parse_relay_intro : Method Input Payload
parse_relay_intro = do
  n ← read 1
  address ← read_bytes n
  lift (check_ipv4_size n)
  port ← read 2
  m ← read 1
  challenge ← read_bytes m
  pure (
      Payload.relay_intro (record {
        ip_address = address;
        ip_address_size = n;
        port = port;
        challenge = challenge;
        challenge_size = m;
      }))

-- BytesToAddress accepts 4 or 16 bytes.
unfoldable pub parse_peer_test : Method Input Payload
parse_peer_test = do
  nonce ← read 4
  n ← read 1
  address ← read_bytes n
  lift (check_ip_size n)
  port ← read 2
  intro_key ← read_bytes intro_key_size
  pure (
      Payload.peer_test
        (record { nonce = nonce; ip_address = address; port = port; intro_key = intro_key }))

-- The 24 bits after a message id: size in bits 0 to 13, last in bit 16, number in bits 17 to 23.
unfoldable pub parse_fragment : Method Input PacketFragment
parse_fragment = do
  message_id ← read 4
  info ← read 3
  whole ← total
  (if ltb whole (info % 2 ^ 14) then throw length_error else pure tt)
  bytes ← read_bytes (info % 2 ^ 14)
  pure (record {
    message_id = message_id;
    number = info / 2 ^ 17;
    is_last = bit 16 info;
    fragment_size = info % 2 ^ 14;
    bytes = bytes;
  })

-- for (i = 0; i < n; ++i) add(read()).
unfoldable pub repeat : {A : Type 0} → ℕ → Method Input A → Method Input (List A)
repeat zero p = pure []
repeat (suc n) p = do x ← p; xs ← repeat n p; pure (x ∷ xs)

-- The do-while loop over bitfields. Each round takes a byte, so the bytes left bound its rounds.
unfoldable pub parse_bitfields : ℕ → Method Input (List ℕ)
parse_bitfields zero = throw fault
parse_bitfields (suc fuel) = do
  bitfield ← read 1
  more ← (if bit 7 bitfield then parse_bitfields fuel else pure [])
  pure (bitfield ∷ more)

unfoldable pub parse_explicit_acks : Bool → Method Input (List ℕ)
unfolding repeat
parse_explicit_acks false = pure []
parse_explicit_acks true = do n ← read 1; repeat n (read 4)

unfoldable pub parse_acks : Bool → Method Input (List ℕ × List ℕ)
unfolding repeat parse_bitfields
parse_acks false = pure ([], [])
parse_acks true = do
  n ← read 1
  acks ← repeat n (read 4)
  here ← left
  bitfields ← parse_bitfields (suc (length here))
  pure (acks, bitfields)

unfoldable pub parse_extended : Bool → Method Input (Unit {0})
parse_extended false = pure tt
parse_extended true = do n ← read 1; skip_bytes n

unfoldable pub parse_data : Method Input Payload
unfolding parse_explicit_acks parse_acks parse_extended parse_fragment repeat
parse_data = do
  flags ← read 1
  explicit ← parse_explicit_acks (bit 7 flags)
  (acks, bitfields) ← parse_acks (bit 6 flags)
  parse_extended (bit 1 flags)
  n ← read 1
  fragments ← repeat n parse_fragment
  pure (
      Payload.data_message (record {
        explicit_acks = explicit;
        acks = acks;
        ack_bitfields = bitfields;
        fragments = fragments;
      }))

unfoldable pub parse_payload : Header → PayloadType → Method Input Payload
parse_payload h PayloadType.session_request = parse_session_request
parse_payload h PayloadType.session_created = parse_session_created
parse_payload h PayloadType.session_confirmed = parse_session_confirmed h
parse_payload h PayloadType.relay_request = parse_relay_request
parse_payload h PayloadType.relay_response = parse_relay_response
parse_payload h PayloadType.relay_intro = parse_relay_intro
parse_payload h PayloadType.data_message = parse_data
parse_payload h PayloadType.peer_test = parse_peer_test
parse_payload h PayloadType.session_destroyed = pure Payload.session_destroyed
parse_payload h PayloadType.unknown = throw runtime_error

unfoldable pub parse_packet : Method Input Packet
parse_packet = do
  h ← parse_header
  raw ← left
  payload ← parse_payload h h.payload_type
  pure (record { header = h; raw_data = raw; payload = payload })
