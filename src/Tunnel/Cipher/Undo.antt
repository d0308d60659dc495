-- ===== src/Tunnel/Cipher/Undo.antt =====
-- src/core/crypto/impl/cryptopp/tunnel.cc: what decryption makes of a tunnel data message, encryption
-- undoes.
use xi2p_old.Base.{
  ℕ, zero, suc, ◌+◌, ◌*◌, ◌≡◌, refl, sym, ap, ◌∙◌, List, [], ◌∷◌, ◌++◌, length, take, drop, arith,
  length-take, length-drop, length-append, take-append, drop-append, take-append-drop,
  bit_xor_twice,
}
use xi2p_old.Tunnel.Cipher.{
  Aes, LayerKeys, xor_block, cbc_encrypt, cbc_decrypt, tunnel_encrypt, tunnel_decrypt,
}

length-xor_block : (xs ys : List ℕ) → length (xor_block xs ys) ≡ length xs
unfolding xor_block
length-xor_block [] ys = refl
length-xor_block (a ∷ xs) [] = refl
length-xor_block (a ∷ xs) (b ∷ ys) = omega (arith, length-xor_block xs ys)

xor_block_twice : (xs ys : List ℕ) → length xs ≡ length ys → xor_block ys (xor_block xs ys) ≡ xs
unfolding xor_block
xor_block_twice [] [] h = refl
xor_block_twice [] (b ∷ ys) h = absurd (omega arith)
xor_block_twice (a ∷ xs) [] h = absurd (omega arith)
xor_block_twice (a ∷ xs) (b ∷ ys) h =
    ap (λ x. x ∷ xor_block ys (xor_block xs ys)) (bit_xor_twice a b)
    ∙ ap (◌∷◌ a) (xor_block_twice xs ys (omega arith))

length_front : (n : ℕ) (bytes : List ℕ) → length bytes ≡ 16 + n → length (take 16 bytes) ≡ 16
length_front n bytes h = omega (arith, length-take 16 bytes)

length_rest : (n : ℕ) (bytes : List ℕ) → length bytes ≡ 16 + n → length (drop 16 bytes) ≡ n
length_rest n bytes h = omega (arith, length-drop 16 bytes)

module _ (aes : Aes) where
  length-cbc_decrypt :
      (key : List ℕ) (n : ℕ) (iv bytes : List ℕ)
      → length bytes ≡ n * 16
      → length (cbc_decrypt aes key n iv bytes) ≡ n * 16
  unfolding cbc_decrypt
  length-cbc_decrypt key zero iv bytes h = refl
  length-cbc_decrypt key (suc n) iv bytes h =
      let block = take 16 bytes in
      let here = xor_block (aes.decrypt_block key block) iv in
      let full = aes.length-decrypt_block key block (length_front (n * 16) bytes (omega arith)) in
      let rest =
        length-cbc_decrypt key n block (drop 16 bytes) (length_rest (n * 16) bytes (omega arith)) in
      omega (
        arith,
        length-append here (cbc_decrypt aes key n block (drop 16 bytes)),
        length-xor_block (aes.decrypt_block key block) iv,
        full,
        rest,
      )

  -- CBC decryption is undone by CBC encryption from the same block.
  cbc_encrypt-cbc_decrypt :
      (key : List ℕ) (n : ℕ) (iv bytes : List ℕ)
      → length iv ≡ 16
      → length bytes ≡ n * 16
      → cbc_encrypt aes key n iv (cbc_decrypt aes key n iv bytes) ≡ bytes
  unfolding cbc_encrypt cbc_decrypt
  cbc_encrypt-cbc_decrypt key zero iv [] h k = refl
  cbc_encrypt-cbc_decrypt key zero iv (b ∷ bytes) h k = absurd (omega arith)
  cbc_encrypt-cbc_decrypt key (suc n) iv bytes h k =
      let block = take 16 bytes in
      let full = length_front (n * 16) bytes (omega arith) in
      let plain = aes.decrypt_block key block in
      let plain_full = aes.length-decrypt_block key block full in
      let here = xor_block plain iv in
      let here_full : length here ≡ 16 = length-xor_block plain iv ∙ plain_full in
      let rest = cbc_decrypt aes key n block (drop 16 bytes) in
      let out : aes.encrypt_block key (xor_block iv (take 16 (here ++ rest))) ≡ block =
        ap (λ x. aes.encrypt_block key (xor_block iv x)) (take-append 16 here rest here_full)
        ∙ ap (aes.encrypt_block key) (xor_block_twice plain iv (plain_full ∙ sym h))
        ∙ aes.encrypt_block-decrypt_block key block full in
      ap (λ x. x ++ cbc_encrypt aes key n x (drop 16 (here ++ rest))) out
      ∙ ap (λ x. block ++ cbc_encrypt aes key n block x) (drop-append 16 here rest here_full)
      ∙ ap (λ x. block ++ x)
          (cbc_encrypt-cbc_decrypt key n block (drop 16 bytes) full
            (length_rest (n * 16) bytes (omega arith)))
      ∙ take-append-drop 16 bytes

  pub length-tunnel_decrypt :
      (keys : LayerKeys) (bytes : List ℕ)
      → length bytes ≡ 1024
      → length (tunnel_decrypt aes keys bytes) ≡ 1024
  unfolding tunnel_decrypt
  length-tunnel_decrypt keys bytes h =
      let iv = aes.decrypt_block keys.iv_key (take 16 bytes) in
      let full = aes.length-decrypt_block keys.iv_key (take 16 bytes) (length_front 1008 bytes h) in
      omega (
        arith,
        length-append (aes.decrypt_block keys.iv_key iv)
            (cbc_decrypt aes keys.layer_key 63 iv (drop 16 bytes)),
        aes.length-decrypt_block keys.iv_key iv full,
        length-cbc_decrypt keys.layer_key 63 iv (drop 16 bytes) (length_rest 1008 bytes h),
      )

  -- What TunnelDecryption makes of 1024 bytes, TunnelEncryption with the same keys makes the bytes
  -- again, for any block cipher whose encryption undoes its decryption of a block.
  pub tunnel_encrypt-tunnel_decrypt :
      (keys : LayerKeys) (bytes : List ℕ)
      → length bytes ≡ 1024
      → tunnel_encrypt aes keys (tunnel_decrypt aes keys bytes) ≡ bytes
  unfolding tunnel_encrypt tunnel_decrypt
  tunnel_encrypt-tunnel_decrypt keys bytes h =
      let block = take 16 bytes in
      let full = length_front 1008 bytes h in
      let iv = aes.decrypt_block keys.iv_key block in
      let iv_full = aes.length-decrypt_block keys.iv_key block full in
      let head = aes.decrypt_block keys.iv_key iv in
      let head_full = aes.length-decrypt_block keys.iv_key iv iv_full in
      let rest = cbc_decrypt aes keys.layer_key 63 iv (drop 16 bytes) in
      let again : aes.encrypt_block keys.iv_key (take 16 (head ++ rest)) ≡ iv =
        ap (aes.encrypt_block keys.iv_key) (take-append 16 head rest head_full)
        ∙ aes.encrypt_block-decrypt_block keys.iv_key iv iv_full in
      ap
        (λ x.
          aes.encrypt_block keys.iv_key x
          ++ cbc_encrypt aes keys.layer_key 63 x (drop 16 (head ++ rest)))
        again
      ∙ ap (λ x. x ++ cbc_encrypt aes keys.layer_key 63 iv (drop 16 (head ++ rest)))
          (aes.encrypt_block-decrypt_block keys.iv_key block full)
      ∙ ap (λ x. block ++ cbc_encrypt aes keys.layer_key 63 iv x)
          (drop-append 16 head rest head_full)
      ∙ ap (λ x. block ++ x)
          (cbc_encrypt-cbc_decrypt keys.layer_key 63 iv (drop 16 bytes) iv_full
            (length_rest 1008 bytes h))
      ∙ take-append-drop 16 bytes
