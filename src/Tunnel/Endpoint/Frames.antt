-- ===== src/Tunnel/Endpoint/Frames.antt =====
-- src/core/router/tunnel/endpoint.cc: where the payload of a tunnel data message is found, and its
-- checksum.
use mathlib.Core.List.{append_assoc}
use xi2p_old.Base.{
  ℕ, zero, suc, ◌+◌, ◌-◌, ◌<◌, ◌≡◌, ◌≢◌, refl, sym, ap, ◌∙◌, true, false, List, [], ◌∷◌, ◌++◌,
  length, take, drop, replicate, All, some, ok, length-append, take-append, drop-append, arith,
}
use xi2p_old.I2np.{Message}
use xi2p_old.Tunnel.{Crypto}
use xi2p_old.Tunnel.Endpoint.{Endpoint, same}
use xi2p_old.Tunnel.Endpoint.Received.{
  array_of, find_zero, process_fragments, handle_payload, handle_decrypted,
}

pub same_self : (xs : List ℕ) → same xs xs ≡ true
unfolding same
same_self [] = refl
same_self (x ∷ xs) = ground (arith, same_self xs)

-- The first zero is behind bytes that are not zero.
find_zero-padding :
    (n : ℕ) (pad rest : List ℕ)
    → All (λ x. x ≢ 0) pad
    → length pad < n
    → find_zero (take n (pad ++ 0 ∷ rest)) ≡ some (length pad)
unfolding find_zero
find_zero-padding zero pad rest h l = absurd (omega arith)
find_zero-padding (suc n) [] rest h l = refl
find_zero-padding (suc n) (zero ∷ pad) rest (h, hs) l = absurd (h refl)
find_zero-padding (suc n) (suc x ∷ pad) rest (h, hs) l =
    rw (find_zero-padding n pad rest hs (omega arith), find_zero) refl

drop_over : (k m : ℕ) (xs ys : List ℕ) → k ≡ length xs + m → drop k (xs ++ ys) ≡ drop m ys
drop_over k m [] ys h = ap (λ n. drop n ys) (omega arith)
drop_over zero m (x ∷ xs) ys h = absurd (omega arith)
drop_over (suc k) m (x ∷ xs) ys h = drop_over k m xs ys (omega arith)

-- An array whose bytes behind `xs` are overwritten.
overwrite :
    (n k : ℕ) (xs iv zs : List ℕ)
    → length xs ≡ n
    → k ≡ n + 16
    → take n (xs ++ zs) ++ (iv ++ drop k (xs ++ zs)) ≡ xs ++ (iv ++ drop 16 zs)
overwrite n k xs iv zs h e =
    ap (λ y. y ++ (iv ++ drop k (xs ++ zs))) (take-append n xs zs h)
    ∙ ap (λ y. xs ++ (iv ++ y)) (drop_over k 16 xs zs (omega arith))

length-nested :
    (a b c d e f : List ℕ)
    → length (a ++ (b ++ (c ++ (d ++ (e ++ f)))))
      ≡ length a + length b + length c + length d + length e + length f
length-nested a b c d e f = omega (
  arith,
  length-append a (b ++ (c ++ (d ++ (e ++ f)))),
  length-append b (c ++ (d ++ (e ++ f))),
  length-append c (d ++ (e ++ f)),
  length-append d (e ++ f),
  length-append e f,
)

nested_assoc :
    (a b c d e f g : List ℕ)
    → (a ++ (b ++ (c ++ (d ++ (e ++ f))))) ++ g ≡ a ++ (b ++ (c ++ (d ++ (e ++ (f ++ g)))))
nested_assoc a b c d e f g = simp append_assoc refl

-- Parts b and c of six, by their places.
drop_first : (n : ℕ) (a x : List ℕ) → length a ≡ n → drop n (a ++ x) ≡ x
drop_first n a x h = drop-append n a x h

drop_two : (k : ℕ) (a b x : List ℕ) → length a + length b ≡ k → drop k (a ++ (b ++ x)) ≡ x
drop_two k a b x h = drop_over k (length b) a (b ++ x) (sym h) ∙ drop-append (length b) b x refl

drop_three :
    (k : ℕ) (a b c x : List ℕ)
    → length a + length b + length c ≡ k
    → drop k (a ++ (b ++ (c ++ x))) ≡ x
drop_three k a b c x h =
    drop_over k (length b + length c) a (b ++ (c ++ x)) (omega arith) ∙ drop_two _ b c x refl

drop_four :
    (k : ℕ) (a b c d x : List ℕ)
    → length a + length b + length c + length d ≡ k
    → drop k (a ++ (b ++ (c ++ (d ++ x)))) ≡ x
drop_four k a b c d x h =
    drop_over k (length b + length c + length d) a (b ++ (c ++ (d ++ x))) (omega arith)
    ∙ drop_three _ b c d x refl

-- A tunnel data message behind a header: the parts in their places.
pub record Parts (front tid iv checksum pad payload : List ℕ) : Type 0 where
  pub header : length front ≡ 18
  pub tunnel_id : length tid ≡ 4
  pub vector : length iv ≡ 16
  pub sum : length checksum ≡ 4
  pub non_zero : All (λ x. x ≢ 0) pad
  pub total : 25 + length pad + length payload ≡ 1028

module _ {front tid iv checksum pad payload : List ℕ} (max_len : ℕ)
    (p : Parts front tid iv checksum pad payload) where
  abbrev pub received : Message
  received = record {
    bytes = front ++ (tid ++ (iv ++ (checksum ++ (pad ++ 0 ∷ payload))));
    offset = 2;
    max_len = max_len;
    capacity = 4112;
  }

  -- What comes before the payload.
  abbrev pub before : List ℕ
  before = front ++ (tid ++ (iv ++ (checksum ++ (pad ++ 0 ∷ []))))

  pub length-before : length before ≡ 43 + length pad
  length-before = omega (
    arith,
    length-nested front tid iv checksum pad (0 ∷ []),
    p.header,
    p.tunnel_id,
    p.vector,
    p.sum,
  )

  length-received : length received.bytes ≡ 1046
  length-received = omega (
    arith,
    length-nested front tid iv checksum pad (0 ∷ payload),
    p.header,
    p.tunnel_id,
    p.vector,
    p.sum,
    p.total,
  )

  abbrev zeros : List ℕ
  zeros = replicate (4112 - length received.bytes) 0

  abbrev array : List ℕ
  array = before ++ (payload ++ (iv ++ drop 16 zeros))

  array_of-received :
      array_of received ≡ front ++ (tid ++ (iv ++ (checksum ++ (pad ++ 0 ∷ (payload ++ zeros)))))
  unfolding array_of
  array_of-received = nested_assoc front tid iv checksum pad (0 ∷ payload) zeros

  zero_found : find_zero (take 1004 (drop 42 (array_of received))) ≡ some (length pad)
  zero_found =
      ap (λ x. find_zero (take 1004 (drop 42 x))) array_of-received
      ∙ ap (λ x. find_zero (take 1004 x))
          (drop_four 42 front tid iv checksum _
            (omega (arith, p.header, p.tunnel_id, p.vector, p.sum)))
      ∙ find_zero-padding 1004 pad (payload ++ zeros) p.non_zero (omega (arith, p.total))

  vector_found : take 16 (drop 22 (array_of received)) ≡ iv
  vector_found =
      ap (λ x. take 16 (drop 22 x)) array_of-received
      ∙ ap (take 16) (drop_two 22 front tid _ (omega (arith, p.header, p.tunnel_id)))
      ∙ take-append 16 iv _ p.vector

  checksum_found : take 4 (drop 38 (array_of received)) ≡ checksum
  checksum_found =
      ap (λ x. take 4 (drop 38 x)) array_of-received
      ∙ ap (take 4) (drop_three 38 front tid iv _ (omega (arith, p.header, p.tunnel_id, p.vector)))
      ∙ take-append 4 checksum _ p.sum

  array_found : take 1046 (array_of received) ++ (iv ++ drop 1062 (array_of received)) ≡ array
  unfolding array_of
  array_found =
      overwrite 1046 1062 received.bytes iv zeros length-received (omega arith)
      ∙ nested_assoc front tid iv checksum pad (0 ∷ payload) (iv ++ drop 16 zeros)
      ∙ sym (nested_assoc front tid iv checksum pad (0 ∷ []) (payload ++ (iv ++ drop 16 zeros)))

  digested : take (1046 - length before + 16) (drop (length before) array) ≡ payload ++ iv
  digested =
      ap (take (1046 - length before + 16)) (drop-append (length before) before _ refl)
      ∙ ap (take (1046 - length before + 16)) (sym (append_assoc payload iv (drop 16 zeros)))
      ∙ take-append _ (payload ++ iv) (drop 16 zeros)
          (omega (arith, length-append payload iv, length-before, p.vector, p.total))

  module _ (ours : List ℕ) (c : Crypto) (e : Endpoint) where
    abbrev counted : Endpoint
    counted = record e { num_received_bytes = e.num_received_bytes + 1028 }

    -- The fragments are looked for behind the padding.
    handle_decrypted-payload :
        handle_decrypted ours c received e
        ≡ handle_payload ours c 1046 (length before) array checksum received counted
    unfolding handle_decrypted
    handle_decrypted-payload =
        rw (zero_found, vector_found, checksum_found, array_found, handle_decrypted)
          (ap (λ n. handle_payload ours c 1046 n array checksum received counted)
            (omega (arith, length-before)))

    -- With the right checksum the loop runs over the payload.
    pub handle_decrypted-verified :
        same (take 4 (c.sha256 (payload ++ iv))) checksum ≡ true
        → handle_decrypted ours c received e
          ≡ process_fragments ours (length payload) array 1046 (length before) received counted
    unfolding handle_payload
    handle_decrypted-verified h =
        let sum : same
              (take 4 (c.sha256 (take (1046 - length before + 16) (drop (length before) array))))
              checksum
            ≡ true =
          ap (λ x. same (take 4 (c.sha256 x)) checksum) digested ∙ h in
        handle_decrypted-payload
        ∙ rw (sum, handle_payload)
            (ap (λ n. process_fragments ours n array 1046 (length before) received counted)
              (omega (arith, length-before, p.total)))

    -- A tunnel data message of 1028 bytes behind 18 others, with a padding without zeros and a zero
    -- byte before its payload, of which the checksum is not the first four bytes of the digest of
    -- the payload and the IV, changes nothing at the endpoint but the number of bytes received.
    pub handle_decrypted-refused :
        same (take 4 (c.sha256 (payload ++ iv))) checksum ≡ false
        → handle_decrypted ours c received e ≡ ok (tt, counted)
    unfolding handle_payload
    handle_decrypted-refused h =
        let sum : same
              (take 4 (c.sha256 (take (1046 - length before + 16) (drop (length before) array))))
              checksum
            ≡ false =
          ap (λ x. same (take 4 (c.sha256 x)) checksum) digested ∙ h in
        handle_decrypted-payload ∙ rw (sum, handle_payload) refl
