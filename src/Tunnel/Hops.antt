-- ===== src/Tunnel/Hops.antt =====
-- src/core/router/tunnel/impl.cc and transit.cc: the layers of encryption of an outbound tunnel, and the
-- routers that take them off.
pub mod Layers
pub mod Delivery
use xi2p_old.Base.{
  ℕ, zero, suc, ◌+◌, ◌≡◌, List, [], ◌∷◌, ◌++◌, length, take, drop, replicate, Result, Method,
}
use xi2p_old.ByteStream.{to_big}
use xi2p_old.I2np.{Message, get_length, i2np_header_size}
use xi2p_old.Tunnel.{Crypto}
use xi2p_old.Tunnel.Cipher.{Aes, LayerKeys, tunnel_encrypt, tunnel_decrypt}
use xi2p_old.Tunnel.Endpoint.{Endpoint}
use xi2p_old.Tunnel.Endpoint.Received.{handle_decrypted, array_of}
use xi2p_old.Tunnel.Transfer.{tunnel_data_msg}

-- TransitTunnelParticipant: `sent` holds what was handed to the transports, one list for each call
-- of SendMessages; a message is its payload.
pub record Participant : Type 0 where
  pub keys : LayerKeys
  pub next_tunnel_id : ℕ
  pub num_transmitted_bytes : ℕ
  pub tunnel_data_msgs : List (List ℕ)
  pub sent : List (List (List ℕ))

module _ (aes : Aes) where
  -- The loop of Tunnel::EncryptTunnelMsg over the hops, with the keys from the first hop to the last:
  -- the loop goes from the last to the first.
  unfoldable pub decrypt_hops : List LayerKeys → List ℕ → List ℕ
  unfolding tunnel_decrypt
  decrypt_hops [] bytes = bytes
  decrypt_hops (k ∷ ks) bytes = tunnel_decrypt aes k (decrypt_hops ks bytes)

  unfoldable pub encrypt_tunnel_msg : List LayerKeys → List ℕ → List ℕ
  unfolding decrypt_hops
  encrypt_tunnel_msg ks payload = take 4 payload ++ decrypt_hops ks (drop 4 payload)

  -- TransitTunnel::EncryptTunnelMsg, without the four bytes of the tunnel id.
  unfoldable pub transit_encrypt : LayerKeys → List ℕ → List ℕ
  unfolding tunnel_encrypt
  transit_encrypt keys payload = tunnel_encrypt aes keys (drop 4 payload)

  -- TransitTunnelParticipant::HandleTunnelDataMsg, its message, and FlushTunnelDataMsgs.
  unfoldable pub passed_on : Participant → List ℕ → List ℕ
  unfolding transit_encrypt
  passed_on p payload = to_big 4 p.next_tunnel_id ++ transit_encrypt p.keys payload

  unfoldable pub handle_participant : List ℕ → Participant → Participant
  unfolding passed_on
  handle_participant payload p = record p {
    num_transmitted_bytes = p.num_transmitted_bytes + (i2np_header_size + length payload);
    tunnel_data_msgs = p.tunnel_data_msgs ++ passed_on p payload ∷ [];
  }

  unfoldable pub flush_participant : Participant → Participant
  flush_participant p = elim p.tunnel_data_msgs [
    | [] ↦ p
    | m ∷ ms ↦ record p { tunnel_data_msgs = []; sent = p.sent ++ (m ∷ ms) ∷ [] }
  ]

  -- TransitTunnelEndpoint::HandleTunnelDataMsg: the message, whose tunnel id is left zero, and the
  -- call of the endpoint.
  unfoldable pub taken_off : LayerKeys → List ℕ → List ℕ
  unfolding transit_encrypt
  taken_off keys payload = replicate 4 0 ++ transit_encrypt keys payload

  unfoldable pub handle_transit_endpoint :
      List ℕ → Crypto → LayerKeys → List ℕ → Method Endpoint (Unit {0})
  unfolding taken_off tunnel_data_msg handle_decrypted
  handle_transit_endpoint ours c keys payload e =
      handle_decrypted ours c (tunnel_data_msg (taken_off keys payload)) e
