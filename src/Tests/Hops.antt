-- ===== src/Tests/Hops.antt =====
-- src/core/router/tunnel: a tunnel with two participants and an endpoint, with a stand-in for the cipher.
use xi2p_old.Base.{
  ℕ, suc, ◌+◌, ◌-◌, ◌≡◌, refl, ap, ◌∙◌, some, ok, List, [], ◌∷◌, ◌++◌, map, length, drop, replicate,
  length-replicate, arith,
}
use xi2p_old.I2np.{get_buffer}
use xi2p_old.Tunnel.Gateway.{Gateway, send_tunnel_data_msg}
use xi2p_old.Tunnel.Pieces.{idle}
use xi2p_old.Tunnel.Endpoint.{Endpoint, route}
use xi2p_old.Tunnel.Endpoint.Phases.{Represents, contents}
use xi2p_old.Tunnel.Cipher.{Aes, LayerKeys, tunnel_encrypt, tunnel_decrypt}
use xi2p_old.Tunnel.Cipher.Undo.{tunnel_encrypt-tunnel_decrypt}
use xi2p_old.Tunnel.Hops.{Participant, encrypt_tunnel_msg, taken_off}
use xi2p_old.Tunnel.Hops.Layers.{pass_all, keys_of, pass_all-encrypt_tunnel_msg}
use xi2p_old.Tunnel.Hops.Delivery.{
  travel_all, handle_arrivals, send_tunnel_data_msg-handle_arrivals,
}
use xi2p_old.Tests.Tunnel.{
  ours, crypto, target, message, gateway, gateway-IsReady, endpoint, endpoint-Represents,
  block-IsBlock,
}

length-map : (f : ℕ → ℕ) (bytes : List ℕ) → length (map f bytes) ≡ length bytes
length-map f [] = refl
length-map f (b ∷ bytes) = ap suc (length-map f bytes)

-- A stand-in for AES, which adds the bytes of the key to each byte of a block when it decrypts.
abbrev sum : List ℕ → ℕ
sum [] = 0
sum (b ∷ bytes) = b + sum bytes

sum_taken : (k : ℕ) (bytes : List ℕ) → map (λ b. b - k) (map (λ b. b + k) bytes) ≡ bytes
sum_taken k [] = refl
sum_taken k (b ∷ bytes) = ground (arith, sum_taken k bytes)

cipher : Aes
cipher = record {
  encrypt_block = λ key block. map (λ b. b - sum key) block;
  decrypt_block = λ key block. map (λ b. b + sum key) block;
  length-decrypt_block = λ key block h. length-map (λ b. b + sum key) block ∙ h;
  encrypt_block-decrypt_block = λ key block h. sum_taken (sum key) block;
}

abbrev keys : ℕ → LayerKeys
keys n = record { layer_key = replicate 32 n; iv_key = replicate 32 (n + 100) }

abbrev participant : ℕ → Participant
participant n = record {
  keys = keys n;
  next_tunnel_id = n + 100;
  num_transmitted_bytes = 0;
  tunnel_data_msgs = [];
  sent = [];
}

abbrev participants : List Participant
participants = participant 1 ∷ participant 2 ∷ []

send_tunnel_data_msg-handle_arrivals_example :
    (g' : Gateway) × (frames : List (List ℕ)) × (e' : Endpoint) × (send_tunnel_data_msg crypto
        target
        (some (message 3000))
        gateway
      ≡ some g')
    × (g'.sent ≡ [] ++ frames ∷ [])
    × (handle_arrivals cipher participants
          (keys 3)
          ours
          crypto
          (travel_all cipher participants (keys 3) frames)
          endpoint
        ≡ ok (tt, e'))
    × (contents e'.events
        ≡ contents endpoint.events
          ++ route ours endpoint.is_inbound target (get_buffer (message 3000)))
    × Represents idle e'
send_tunnel_data_msg-handle_arrivals_example =
    send_tunnel_data_msg-handle_arrivals cipher participants (keys 3) ours crypto target
      (message 3000) gateway endpoint gateway-IsReady (block-IsBlock 3000 (omega arith))
      endpoint-Represents

pass_all-encrypt_tunnel_msg_example :
    taken_off cipher (keys 3) (
      pass_all cipher participants
        (encrypt_tunnel_msg cipher (keys_of cipher participants ++ keys 3 ∷ []) (replicate 1028 6)))
    ≡ replicate 4 0 ++ drop 4 (replicate 1028 6)
pass_all-encrypt_tunnel_msg_example =
    pass_all-encrypt_tunnel_msg cipher participants (keys 3) (replicate 1028 6)
      (length-replicate {A = ℕ} 1028 6)

tunnel_encrypt-tunnel_decrypt_example :
    tunnel_encrypt cipher (keys 3) (tunnel_decrypt cipher (keys 3) (replicate 1024 6))
    ≡ replicate 1024 6
tunnel_encrypt-tunnel_decrypt_example =
    tunnel_encrypt-tunnel_decrypt cipher (keys 3) (replicate 1024 6)
      (length-replicate {A = ℕ} 1024 6)
