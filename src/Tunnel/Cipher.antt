-- ===== src/Tunnel/Cipher.antt =====
-- src/core/crypto/impl/cryptopp/tunnel.cc and aes.cc: the encryption of tunnel data messages, as it is
-- where the processor's AES instructions are not used.
pub mod Undo
use xi2p_old.Base.{ℕ, zero, suc, ◌+◌, ◌/◌, ◌≡◌, List, [], ◌∷◌, ◌++◌, length, take, drop, bit_xor}

-- ECB_Mode<AES> of Crypto++ on one block of 16 bytes, under a key: what decryption makes of a block,
-- encryption undoes.
pub record Aes : Type 0 where
  pub encrypt_block : List ℕ → List ℕ → List ℕ
  pub decrypt_block : List ℕ → List ℕ → List ℕ
  pub length-decrypt_block :
      (key block : List ℕ) → length block ≡ 16 → length (decrypt_block key block) ≡ 16
  pub encrypt_block-decrypt_block :
      (key block : List ℕ) → length block ≡ 16 → encrypt_block key (decrypt_block key block) ≡ block

-- The keys of SetKeys.
pub record LayerKeys : Type 0 where
  pub layer_key : List ℕ
  pub iv_key : List ℕ

-- CipherBlock::operator^=.
unfoldable pub xor_block : List ℕ → List ℕ → List ℕ
xor_block [] ys = []
xor_block (a ∷ xs) [] = a ∷ xs
xor_block (a ∷ xs) (b ∷ ys) = bit_xor a b ∷ xor_block xs ys

abbrev pub tunnel_data_encrypted_size : ℕ
tunnel_data_encrypted_size = 1008

module _ (aes : Aes) where
  -- The loop of CBCEncryption::Encrypt over the blocks, from the last block that was encrypted.
  unfoldable pub cbc_encrypt : List ℕ → ℕ → List ℕ → List ℕ → List ℕ
  unfolding xor_block
  cbc_encrypt key zero last_block bytes = []
  cbc_encrypt key (suc num_blocks) last_block bytes =
      let out = aes.encrypt_block key (xor_block last_block (take 16 bytes)) in
      out ++ cbc_encrypt key num_blocks out (drop 16 bytes)

  unfoldable pub cbc_decrypt : List ℕ → ℕ → List ℕ → List ℕ → List ℕ
  unfolding xor_block
  cbc_decrypt key zero iv bytes = []
  cbc_decrypt key (suc num_blocks) iv bytes =
      xor_block (aes.decrypt_block key (take 16 bytes)) iv
      ++ cbc_decrypt key num_blocks (take 16 bytes) (drop 16 bytes)

  -- TunnelEncryption::Encrypt and TunnelDecryption::Decrypt on the 1024 bytes at `in`.
  unfoldable pub tunnel_encrypt : LayerKeys → List ℕ → List ℕ
  unfolding cbc_encrypt
  tunnel_encrypt keys bytes =
      let iv = aes.encrypt_block keys.iv_key (take 16 bytes) in
      aes.encrypt_block keys.iv_key iv
      ++ cbc_encrypt keys.layer_key (tunnel_data_encrypted_size / 16) iv (drop 16 bytes)

  unfoldable pub tunnel_decrypt : LayerKeys → List ℕ → List ℕ
  unfolding cbc_decrypt
  tunnel_decrypt keys bytes =
      let iv = aes.decrypt_block keys.iv_key (take 16 bytes) in
      aes.decrypt_block keys.iv_key iv
      ++ cbc_decrypt keys.layer_key (tunnel_data_encrypted_size / 16) iv (drop 16 bytes)
