-- ===== src/Ssu/Builder.antt =====
-- SSUPacketBuilder of src/core/router/transports/ssu/packet.cc. The methods whose body is empty in the
-- source write nothing.
use xi2p_old.Base.{
  ℕ, ◌+◌, ◌-◌, List, some, length, Result, ok, runtime_error, fault, ◌++◌, take, false, Method,
  ◌>>=◌, ◌>>◌, pure, throw, lift,
}
use xi2p_old.ByteStream.{Output, write, write_data, skip_output}
use xi2p_old.Identity.{full_len, to_buffer, signature_len}
use xi2p_old.Ssu.Header.{Header, PayloadType, header_size, write_header, dh_public}
use xi2p_old.Ssu.Packet.{
  SessionRequest, SessionCreated, SessionConfirmed, Payload, Packet, padding_size,
}

unfoldable pub write_session_request : SessionRequest → Method Output (Unit {0})
write_session_request p = do
  write_data (some p.dh_x) dh_public false
  write 1 p.ip_address_size
  write_data (some p.ip_address) p.ip_address_size false

unfoldable pub write_session_created : SessionCreated → Method Output (Unit {0})
write_session_created p = do
  write_data (some p.dh_y) dh_public false
  write 1 p.address_size
  write_data (some p.ip_address) p.address_size false
  write 2 p.port
  write 4 p.relay_tag
  write 4 p.signed_on_time
  write_data (some p.signature) p.signature_size false

-- The number of bytes before m_DataPtr, and a copy over the bytes that stand just before it.
abbrev pub position : Method Output ℕ
position o = ok (length o.written, o)

unfoldable pub overwrite : List ℕ → Method Output (Unit {0})
overwrite bytes o =
    ok (tt, record o { written = take (length o.written - length bytes) o.written ++ bytes })

-- SkipBytes(n), then what fills the bytes that were skipped.
unfoldable pub reserve_and_fill : ℕ → Result (List ℕ) → Method Output (Unit {0})
unfolding overwrite
reserve_and_fill n filling = do skip_output n; bytes ← lift filling; overwrite bytes

-- RandBytes is a parameter: the bytes that it fills a buffer of a given size with.
unfoldable pub write_session_confirmed :
    (ℕ → List ℕ) → Header → SessionConfirmed → Method Output (Unit {0})
unfolding reserve_and_fill
write_session_confirmed rand_bytes h p = do
  begin ← position
  write 1 0x01
  write 2 (full_len p.remote_identity)
  reserve_and_fill (full_len p.remote_identity)
      (to_buffer p.remote_identity (full_len p.remote_identity))
  write 4 p.signed_on_time
  signature_size ← lift (signature_len p.remote_identity)
  here ← position
  reserve_and_fill (padding_size (header_size h + here - begin + signature_size))
      (ok (rand_bytes (padding_size (header_size h + here - begin + signature_size))))
  write_data (some p.signature) signature_size false

-- WritePacket. A payload of another class than the header's type says is a bad cast.
unfoldable pub write_payload :
    (ℕ → List ℕ) → Header → PayloadType → Payload → Method Output (Unit {0})
write_payload rand h PayloadType.unknown p = throw runtime_error
write_payload rand h PayloadType.session_request (Payload.session_request p) =
    write_session_request p
write_payload rand h PayloadType.session_created (Payload.session_created p) =
    write_session_created p
write_payload rand h PayloadType.session_confirmed (Payload.session_confirmed p) =
    write_session_confirmed rand h p
write_payload rand h PayloadType.relay_request (Payload.relay_request p) = pure tt
write_payload rand h PayloadType.relay_response (Payload.relay_response p) = pure tt
write_payload rand h PayloadType.relay_intro (Payload.relay_intro p) = pure tt
write_payload rand h PayloadType.data_message (Payload.data_message p) = pure tt
write_payload rand h PayloadType.peer_test (Payload.peer_test p) = pure tt
write_payload rand h PayloadType.session_destroyed Payload.session_destroyed = pure tt
write_payload rand h _ _ = throw fault

-- The header and the payload, as WriteAndEncrypt writes them before it encrypts.
unfoldable pub write_packet : (ℕ → List ℕ) → Packet → Method Output (Unit {0})
write_packet rand p = do
  write_header p.header
  write_payload rand p.header p.header.payload_type p.payload
