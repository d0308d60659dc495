-- ===== src/I2np/ShortHeader.antt =====
-- src/core/router/i2np.h: ToSSU and FromSSU, the short header and the full one.
use xi2p_old.Base.{
  ℕ, ◌+◌, ◌-◌, ◌*◌, ◌/◌, ◌%◌, ◌^◌, ◌<◌, ◌≡◌, refl, ap, ◌∙◌, List, ◌∷◌, ◌++◌, length, take,
  replicate, take-append, take_all, arith,
}
use xi2p_old.ByteStream.{to_big, from_big}
use xi2p_old.ByteStream.Words.{from_big-to_big}
use xi2p_old.I2np.{Message, to_ssu, from_ssu}

-- A full header: type, message id, expiration in milliseconds, size and checksum.
abbrev pub full_header : ℕ → ℕ → ℕ → ℕ → ℕ → List ℕ
full_header type msg_id expiration size checksum =
    to_big 1 type
    ++ (to_big 4 msg_id ++ (to_big 8 expiration ++ (to_big 2 size ++ to_big 1 checksum)))

-- A short header, with the expiration in seconds.
abbrev pub short_header : ℕ → ℕ → List ℕ
short_header type expiration = to_big 1 type ++ to_big 4 expiration

-- What ToSSU makes of the fields of the header.
abbrev outgoing : ℕ → ℕ → ℕ → ℕ → List ℕ → ℕ × List ℕ
outgoing type msg_id expiration size payload = (
  msg_id,
  to_big 1 type
      ++ (to_big 4 (expiration / 1000 % 2 ^ 32) ++ take size (payload ++ replicate size 0)),
)

to_ssu_lem :
    (type msg_id expiration checksum capacity max_len : ℕ) (payload : List ℕ)
    → type < 256
    → msg_id < 2 ^ 32
    → expiration < 2 ^ 64
    → length payload < 2 ^ 16
    → to_ssu (record {
      bytes = 0 ∷ 0 ∷ (full_header type msg_id expiration (length payload) checksum ++ payload);
      offset = 2;
      max_len = max_len;
      capacity = capacity;
    })
      ≡ (msg_id, to_big 1 type ++ (to_big 4 (expiration / 1000 % 2 ^ 32) ++ payload))
unfolding to_ssu
to_ssu_lem type msg_id expiration checksum capacity max_len payload p q r s =
    ap
      (λ a.
        outgoing a (from_big 0 (to_big 4 msg_id)) (from_big 0 (to_big 8 expiration))
          (from_big 0 (to_big 2 (length payload))) payload)
      (from_big-to_big 1 type p)
    ∙ ap
        (λ a.
          outgoing type a (from_big 0 (to_big 8 expiration))
            (from_big 0 (to_big 2 (length payload))) payload)
        (from_big-to_big 4 msg_id q)
    ∙ ap (λ a. outgoing type msg_id a (from_big 0 (to_big 2 (length payload))) payload)
        (from_big-to_big 8 expiration r)
    ∙ ap (λ a. outgoing type msg_id expiration a payload) (from_big-to_big 2 (length payload) s)
    ∙ rw (take-append (length payload) payload (replicate (length payload) 0) refl) refl

-- As many bytes as come before the payload in both forms.
abbrev front : List ℕ
front = replicate 18 0

-- The size is a 16-bit integer, and the difference of the sizes does not wrap.
size_bytes :
    (payload : List ℕ)
    → to_big 2 (length (front ++ payload) + 2 ^ 64 - 2 - 16) ≡ to_big 2 (length payload)
size_bytes payload =
    let n = length payload in
    let high : (length (front ++ payload) + 2 ^ 64 - 2 - 16) / 256 % 256 ≡ n / 256 % 256 =
      omega arith in
    let low : (length (front ++ payload) + 2 ^ 64 - 2 - 16) / 1 % 256 ≡ n / 1 % 256 = omega arith in
    rw (high, low) refl

-- What FromSSU makes of the fields of the short header.
abbrev incoming : ℕ → ℕ → ℕ → List ℕ → List ℕ → List ℕ
incoming type msg_id expiration size payload = take (length (front ++ payload)) (
    0
    ∷ 0
    ∷ (to_big 1 type
        ++ (to_big 4 msg_id ++ (to_big 8 (expiration * 1000) ++ (size ++ to_big 1 0)))
        ++ payload))

from_ssu_lem :
    (type msg_id expiration capacity max_len : ℕ) (payload : List ℕ)
    → type < 256
    → expiration < 2 ^ 32
    → (from_ssu msg_id (record {
      bytes = replicate 13 0 ++ (short_header type expiration ++ payload);
      offset = 2;
      max_len = max_len;
      capacity = capacity;
    })).bytes
      ≡ 0 ∷ 0 ∷ (full_header type msg_id (expiration * 1000) (length payload) 0 ++ payload)
unfolding from_ssu
from_ssu_lem type msg_id expiration capacity max_len payload p q =
    ap
      (λ a.
        incoming a msg_id (from_big 0 (to_big 4 expiration))
          (to_big 2 (length (front ++ payload) + 2 ^ 64 - 2 - 16)) payload)
      (from_big-to_big 1 type p)
    ∙ ap
        (λ a.
          incoming type msg_id a (to_big 2 (length (front ++ payload) + 2 ^ 64 - 2 - 16)) payload)
        (from_big-to_big 4 expiration q)
    ∙ ap (λ a. incoming type msg_id expiration a payload) (size_bytes payload)
    ∙ take_all (length (front ++ payload)) _ (omega arith)

-- A message in its full format, as the router makes it.
abbrev pub full_message : ℕ → ℕ → ℕ → ℕ → List ℕ → Message
full_message type msg_id expiration checksum payload = record {
  bytes = 0 ∷ 0 ∷ (full_header type msg_id expiration (length payload) checksum ++ payload);
  offset = 2;
  max_len = 32768;
  capacity = 32784;
}

-- A message that ToSSU makes ready, and whose bytes from the short header on then stand behind 13
-- zero bytes at the other router, is put back by FromSSU with its type, its id and its payload; its
-- expiration, of less than 2 ^ 32 seconds, is cut to a whole second, its size is that of the payload
-- and its checksum 0.
pub from_ssu-to_ssu :
    (type msg_id expiration checksum max_len capacity : ℕ) (payload : List ℕ)
    → type < 256
    → msg_id < 2 ^ 32
    → expiration < 1000 * 2 ^ 32
    → length payload < 2 ^ 16
    → let (id, bytes) = to_ssu (full_message type msg_id expiration checksum payload) in
      (from_ssu id (record {
        bytes = replicate 13 0 ++ bytes;
        offset = 2;
        max_len = max_len;
        capacity = capacity;
      })).bytes
      ≡ 0 ∷ 0 ∷ (full_header type msg_id (expiration / 1000 * 1000) (length payload) 0 ++ payload)
from_ssu-to_ssu type msg_id expiration checksum max_len capacity payload p q r s =
    let sent = to_ssu_lem type msg_id expiration checksum 32784 32768 payload p q (omega arith) s in
    let seconds : expiration / 1000 % 2 ^ 32 ≡ expiration / 1000 = omega arith in
    ap
      (λ (x : ℕ × List ℕ).
        (from_ssu x.0 (record {
          bytes = replicate 13 0 ++ x.1;
          offset = 2;
          max_len = max_len;
          capacity = capacity;
        })).bytes)
      sent
    ∙ rw seconds
        (from_ssu_lem type msg_id (expiration / 1000) capacity max_len payload p (omega arith))
