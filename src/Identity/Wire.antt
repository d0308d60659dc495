-- ===== src/Identity/Wire.antt =====
-- src/core/router/identity.cc: ToBuffer against FromBuffer.
use xi2p_old.Base.{
  ℕ, ◌+◌, ◌^◌, ◌==◌, ◌≤◌, ◌<◌, ◌≡◌, refl, sym, ap, ◌∙◌, true, false, none, some, List, [], ◌∷◌,
  ◌++◌, length, take, drop, length-append, take-append, drop-append, take_all, ltb, leb, ok, arith,
}
use mathlib.Core.List.{append_assoc}
use xi2p_old.ByteStream.{to_big, read_at}
use xi2p_old.ByteStream.Words.{from_big-to_big, length-to_big}
use xi2p_old.Identity.{
  Standard, IdentityEx, standard_of, full_len, from_buffer, from_standard, standard_bytes,
  to_buffer_extended, to_buffer,
}

-- The fixed part as its type in C++ has it.
pub record IsStandard (s : Standard) : Type 0 where
  pub public_key_fits : length s.public_key ≡ 256
  pub signing_key_fits : length s.signing_key ≡ 128
  pub type_fits : s.certificate_type < 256
  pub length_fits : s.certificate_length < 65536

read_at-to_big : (n v : ℕ) (rest : List ℕ) → v < 256 ^ n → read_at n (to_big n v ++ rest) ≡ v
read_at-to_big n v rest h =
    rw (take-append n (to_big n v) rest (length-to_big n v)) (from_big-to_big n v h)

module _ (s : Standard) (f : IsStandard s) where
  abbrev keys : List ℕ
  keys = s.public_key ++ s.signing_key

  abbrev type_byte : List ℕ
  type_byte = to_big 1 s.certificate_type

  abbrev length_bytes : List ℕ
  length_bytes = to_big 2 s.certificate_length

  length-keys : length keys ≡ 384
  length-keys =
      omega (arith, f.public_key_fits, f.signing_key_fits, length-append s.public_key s.signing_key)

  length-typed : length (keys ++ type_byte) ≡ 385
  length-typed = omega (arith, length-keys, length-append keys type_byte)

  length-standard_bytes : length (standard_bytes s) ≡ 387
  unfolding standard_bytes
  length-standard_bytes =
      omega (arith, length-typed, length-append (keys ++ type_byte) (to_big 2 s.certificate_length))

  standard_of-standard_bytes : (tail : List ℕ) → standard_of (standard_bytes s ++ tail) ≡ s
  unfolding standard_of standard_bytes
  standard_of-standard_bytes tail =
      let after_keys = type_byte ++ (length_bytes ++ tail) in
      let third : standard_bytes s ++ tail ≡ (keys ++ type_byte) ++ (length_bytes ++ tail) =
        append_assoc (keys ++ type_byte) length_bytes tail in
      let second : standard_bytes s ++ tail ≡ keys ++ (type_byte ++ (length_bytes ++ tail)) =
        third ∙ append_assoc keys type_byte (length_bytes ++ tail) in
      let first : standard_bytes s ++ tail
          ≡ s.public_key ++ (s.signing_key ++ (type_byte ++ (length_bytes ++ tail))) =
        second ∙ append_assoc s.public_key s.signing_key (type_byte ++ (length_bytes ++ tail)) in
      let a : take 256 (standard_bytes s ++ tail) ≡ s.public_key =
        ap (take 256) first
        ∙ take-append 256 s.public_key (s.signing_key ++ after_keys) f.public_key_fits in
      let b : take 128 (drop 256 (standard_bytes s ++ tail)) ≡ s.signing_key =
        ap (λ xs. take 128 (drop 256 xs)) first
        ∙ ap (take 128)
            (drop-append 256 s.public_key (s.signing_key ++ after_keys) f.public_key_fits)
        ∙ take-append 128 s.signing_key after_keys f.signing_key_fits in
      let c : read_at 1 (drop 384 (standard_bytes s ++ tail)) ≡ s.certificate_type =
        ap (λ xs. read_at 1 (drop 384 xs)) second
        ∙ ap (read_at 1) (drop-append 384 keys after_keys length-keys)
        ∙ read_at-to_big 1 s.certificate_type (length_bytes ++ tail) f.type_fits in
      let d : read_at 2 (drop 385 (standard_bytes s ++ tail)) ≡ s.certificate_length =
        ap (λ xs. read_at 2 (drop 385 xs)) third
        ∙ ap (read_at 2) (drop-append 385 (keys ++ type_byte) (length_bytes ++ tail) length-typed)
        ∙ read_at-to_big 2 s.certificate_length tail f.length_fits in
      rw (a, b, c, d) refl

  from_buffer_plain :
      (before : IdentityEx) (rest : List ℕ)
      → s.certificate_length ≡ 0
      → from_buffer (standard_bytes s ++ rest) before
        ≡ (387, record { standard = s; extended_len = 0; extended_buffer = none })
  unfolding from_buffer from_standard
  from_buffer_plain before rest z =
      let long : ltb (length (standard_bytes s ++ rest)) 387 ≡ false =
        ground (arith, length-standard_bytes, length-append (standard_bytes s) rest) in
      let none_left : (s.certificate_length == 0) ≡ true = ground arith in
      ap (λ t. from_standard t (standard_bytes s ++ rest) before) (standard_of-standard_bytes rest)
      ∙ rw (long, none_left) refl

  from_buffer_extended :
      (before : IdentityEx) (ext rest : List ℕ)
      → length ext ≡ s.certificate_length
      → 0 < s.certificate_length
      → from_buffer ((standard_bytes s ++ ext) ++ rest) before ≡ (
        s.certificate_length + 387,
        record { standard = s; extended_len = s.certificate_length; extended_buffer = some ext },
      )
  unfolding from_buffer from_standard
  from_buffer_extended before ext rest e p =
      let n = s.certificate_length in
      let whole = append_assoc (standard_bytes s) ext rest in
      let all = length-append (standard_bytes s) (ext ++ rest) in
      let ends = length-append ext rest in
      let l = length-standard_bytes in
      let long : ltb (length (standard_bytes s ++ (ext ++ rest))) 387 ≡ false =
        ground (arith, l, all) in
      let some_left : (n == 0) ≡ false = ground arith in
      let fits : leb (n + 387) (length (standard_bytes s ++ (ext ++ rest))) ≡ true =
        ground (arith, l, all, ends) in
      ap (λ xs. from_standard (standard_of xs) xs before) whole
      ∙ ap (λ t. from_standard t (standard_bytes s ++ (ext ++ rest)) before)
          (standard_of-standard_bytes (ext ++ rest))
      ∙ rw
          (
            long,
            some_left,
            fits,
            drop-append 387 (standard_bytes s) (ext ++ rest) l,
            take-append n ext rest e,
          )
          refl

-- An identity that FromBuffer gives without a certificate, and one that it gives with one.
abbrev pub identity : Standard → List ℕ → IdentityEx
identity s [] = record { standard = s; extended_len = 0; extended_buffer = none }
identity s (x ∷ ext) = record {
  standard = s;
  extended_len = length (x ∷ ext);
  extended_buffer = some (x ∷ ext);
}

-- An identity of keys of 256 and 128 bytes and a certificate of the announced length, which may be
-- 0, that is written into a buffer of at least its full length takes that length, and is read back
-- as it was, whatever follows it and whatever identity was there before.
pub from_buffer-to_buffer :
    (s : Standard) (ext : List ℕ) (before : IdentityEx) (buflen : ℕ) (rest : List ℕ)
    → IsStandard s
    → length ext ≡ s.certificate_length
    → full_len (identity s ext) ≤ buflen
    → (bytes : List ℕ) × (to_buffer (identity s ext) buflen ≡ ok bytes)
      × (length bytes ≡ full_len (identity s ext))
      × (from_buffer (bytes ++ rest) before ≡ (full_len (identity s ext), identity s ext))
unfolding to_buffer to_buffer_extended full_len
from_buffer-to_buffer s [] before buflen rest f e h =
    let enough : ltb buflen 387 ≡ false = ground arith in
    (
      standard_bytes s,
      rw enough refl,
      length-standard_bytes s f,
      from_buffer_plain s f before rest (sym e),
    )
from_buffer-to_buffer s (x ∷ ext) before buflen rest f e h =
    let enough : ltb buflen 387 ≡ false = ground arith in
    let room : ltb buflen (387 + length (x ∷ ext)) ≡ false = ground arith in
    let some_left : (length (x ∷ ext) == 0) ≡ false = ground arith in
    let whole = take_all (length (x ∷ ext)) (x ∷ ext) (omega arith) in
    (
      standard_bytes s ++ x ∷ ext,
      rw (enough, some_left, room, whole) refl,
      omega (arith, length-append (standard_bytes s) (x ∷ ext), length-standard_bytes s f),
      rw e (from_buffer_extended s f before (x ∷ ext) rest e (omega arith)),
    )
