-- ===== src/Tunnel/Hops/Layers.antt =====
-- src/core/router/tunnel/impl.cc and transit.cc: layers of encryption taken off, one by each hop.
use mathlib.Core.List.{append_assoc, append-nil}
use xi2p_old.Base.{
  ℕ, ◌≡◌, refl, sym, ap, ◌∙◌, List, [], ◌∷◌, ◌++◌, length, take, drop, replicate, map, length-take,
  length-drop, drop-append, arith,
}
use xi2p_old.ByteStream.{to_big}
use xi2p_old.ByteStream.Words.{length-to_big}
use xi2p_old.Tunnel.Cipher.{Aes, LayerKeys, tunnel_encrypt}
use xi2p_old.Tunnel.Cipher.Undo.{length-tunnel_decrypt, tunnel_encrypt-tunnel_decrypt}
use xi2p_old.Tunnel.Hops.{
  Participant, decrypt_hops, encrypt_tunnel_msg, transit_encrypt, passed_on, handle_participant,
  flush_participant, taken_off,
}

module _ (aes : Aes) where
  -- A payload through the participants of a tunnel, in their order, and their keys.
  unfoldable pub pass_all : List Participant → List ℕ → List ℕ
  unfolding passed_on
  pass_all [] payload = payload
  pass_all (p ∷ ps) payload = pass_all ps (passed_on aes p payload)

  abbrev pub keys_of : List Participant → List LayerKeys
  keys_of [] = []
  keys_of (p ∷ ps) = p.keys ∷ keys_of ps

  length-decrypt_hops :
      (ks : List LayerKeys) (bytes : List ℕ)
      → length bytes ≡ 1024
      → length (decrypt_hops aes ks bytes) ≡ 1024
  unfolding decrypt_hops
  length-decrypt_hops [] bytes h = h
  length-decrypt_hops (k ∷ ks) bytes h =
      length-tunnel_decrypt aes k (decrypt_hops aes ks bytes) (length-decrypt_hops ks bytes h)

  -- One hop takes off the outermost layer.
  peel :
      (front bytes : List ℕ) (keys : LayerKeys) (ks : List LayerKeys)
      → length front ≡ 4
      → length bytes ≡ 1024
      → transit_encrypt aes keys (front ++ decrypt_hops aes (keys ∷ ks) bytes)
        ≡ decrypt_hops aes ks bytes
  unfolding transit_encrypt decrypt_hops
  peel front bytes keys ks h k =
      ap (tunnel_encrypt aes keys) (drop-append 4 front _ h)
      ∙ tunnel_encrypt-tunnel_decrypt aes keys (decrypt_hops aes ks bytes)
          (length-decrypt_hops ks bytes k)

  pass_all-decrypt_hops :
      (ps : List Participant) (keys : LayerKeys) (front bytes : List ℕ)
      → length front ≡ 4
      → length bytes ≡ 1024
      → taken_off aes keys (pass_all ps (front ++ decrypt_hops aes (keys_of ps ++ keys ∷ []) bytes))
        ≡ replicate 4 0 ++ bytes
  unfolding pass_all passed_on taken_off decrypt_hops
  pass_all-decrypt_hops [] keys front bytes h k =
      ap (λ x. replicate 4 0 ++ x) (peel front bytes keys [] h k)
  pass_all-decrypt_hops (p ∷ ps) keys front bytes h k =
      ap (λ x. taken_off aes keys (pass_all ps (to_big 4 p.next_tunnel_id ++ x)))
        (peel front bytes p.keys (keys_of ps ++ keys ∷ []) h k)
      ∙ pass_all-decrypt_hops ps keys (to_big 4 p.next_tunnel_id) bytes
          (length-to_big 4 p.next_tunnel_id) k

  -- A tunnel data message that the owner of an outbound tunnel encrypts for its participants and its
  -- endpoint, and that these handle in their order, comes to the endpoint's handler as it was before
  -- the encryption, but for the four bytes of the tunnel id, which are zero.
  pub pass_all-encrypt_tunnel_msg :
      (ps : List Participant) (keys : LayerKeys) (payload : List ℕ)
      → length payload ≡ 1028
      → taken_off aes keys (pass_all ps (encrypt_tunnel_msg aes (keys_of ps ++ keys ∷ []) payload))
        ≡ replicate 4 0 ++ drop 4 payload
  unfolding encrypt_tunnel_msg
  pass_all-encrypt_tunnel_msg ps keys payload h =
      pass_all-decrypt_hops ps keys (take 4 payload) (drop 4 payload)
        (omega (arith, length-take 4 payload)) (omega (arith, length-drop 4 payload))

  -- Messages handled by a participant one after the other.
  unfoldable pub handle_each : List (List ℕ) → Participant → Participant
  unfolding handle_participant
  handle_each [] p = p
  handle_each (f ∷ fs) p = handle_each fs (handle_participant aes f p)

  tunnel_data_msgs-handle_each :
      (fs : List (List ℕ)) (p : Participant)
      → (handle_each fs p).tunnel_data_msgs ≡ p.tunnel_data_msgs ++ map (passed_on aes p) fs
  unfolding handle_each handle_participant
  tunnel_data_msgs-handle_each [] p = sym (append-nil p.tunnel_data_msgs)
  tunnel_data_msgs-handle_each (f ∷ fs) p =
      tunnel_data_msgs-handle_each fs (handle_participant aes f p)
      ∙ append_assoc p.tunnel_data_msgs (passed_on aes p f ∷ []) (map (passed_on aes p) fs)

  sent-handle_each : (fs : List (List ℕ)) (p : Participant) → (handle_each fs p).sent ≡ p.sent
  unfolding handle_each handle_participant
  sent-handle_each [] p = refl
  sent-handle_each (f ∷ fs) p = sent-handle_each fs (handle_participant aes f p)

  flush_participant-some :
      (p : Participant) (m : List ℕ) (ms : List (List ℕ))
      → p.tunnel_data_msgs ≡ m ∷ ms
      → (flush_participant aes p).sent ≡ p.sent ++ (m ∷ ms) ∷ []
  unfolding flush_participant
  flush_participant-some p m ms h = rw (h, flush_participant) refl

  -- A participant without messages, after it has handled one message or more and is flushed, has
  -- sent them in one call, in their order, each with the layer of its key taken off and with the
  -- next tunnel id.
  pub flush_participant-handle_each :
      (f : List ℕ) (fs : List (List ℕ)) (p : Participant)
      → p.tunnel_data_msgs ≡ []
      → (flush_participant aes (handle_each (f ∷ fs) p)).sent
        ≡ p.sent ++ map (passed_on aes p) (f ∷ fs) ∷ []
  flush_participant-handle_each f fs p h =
      flush_participant-some (handle_each (f ∷ fs) p) (passed_on aes p f) (map (passed_on aes p) fs)
        (tunnel_data_msgs-handle_each (f ∷ fs) p ∙ ap (λ x. x ++ map (passed_on aes p) (f ∷ fs)) h)
      ∙ ap (λ x. x ++ map (passed_on aes p) (f ∷ fs) ∷ []) (sent-handle_each (f ∷ fs) p)
