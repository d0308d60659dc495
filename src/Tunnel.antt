-- ===== src/Tunnel.antt =====
-- src/core/router/tunnel: the blocks that enter a tunnel at its gateway and leave it at its endpoint.
-- SHA-256 and the random numbers are those of a crypto library, the interface Crypto.
pub mod Gateway
pub mod Endpoint
pub mod Pieces
pub mod Transfer
pub mod Cipher
pub mod Hops
use xi2p_old.Base.{ℕ, zero, suc, ◌+◌, ◌≤◌, ◌<◌, ◌≡◌, List, length, All}
use xi2p_old.I2np.{Message}

abbrev pub tunnel_data_msg_size : ℕ
tunnel_data_msg_size = 1028

abbrev pub tunnel_data_encrypted_size : ℕ
tunnel_data_encrypted_size = 1008

abbrev pub tunnel_data_max_payload_size : ℕ
tunnel_data_max_payload_size = 1003

abbrev pub tunnel_gateway_header_size : ℕ
tunnel_gateway_header_size = 6

-- TunnelDeliveryType; `unknown` is the value 3, which two bits of a received flag can have.
pub data DeliveryType : Type 0 where
  local to_tunnel to_router unknown : DeliveryType

unfoldable pub type_code : DeliveryType → ℕ
type_code local = 0
type_code to_tunnel = 1
type_code to_router = 2
type_code unknown = 3

unfoldable pub type_of_code : ℕ → DeliveryType
type_of_code zero = local
type_of_code (suc zero) = to_tunnel
type_of_code (suc (suc zero)) = to_router
type_of_code (suc (suc (suc n))) = unknown

-- The first three members of TunnelMessageBlock, and the whole of it.
pub record Target : Type 0 where
  pub delivery_type : DeliveryType
  pub hash : List ℕ
  pub tunnel_id : ℕ

pub record TunnelMessageBlock : Type 0 where
  pub target : Target
  pub data_ : Message

-- The crypto library: a digest, and the random bytes and numbers of each draw.
pub record Crypto : Type 0 where
  pub sha256 : List ℕ → List ℕ
  pub rand_bytes : ℕ → ℕ → List ℕ
  pub rand_in_range : ℕ → ℕ → ℕ → ℕ
  pub length-sha256 : (bytes : List ℕ) → length (sha256 bytes) ≡ 32
  pub length-rand_bytes : (draw n : ℕ) → length (rand_bytes draw n) ≡ n
  pub rand_in_range-bound : (draw low high : ℕ) → low ≤ high → rand_in_range draw low high ≤ high
