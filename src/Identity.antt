-- ===== src/Identity.antt =====
-- src/core/router/identity.h and identity.cc: router identities and their wire form.
pub mod Wire
use xi2p_old.Base.{
  ℕ, suc, ◌+◌, ◌-◌, ◌*◌, ◌/◌, ◌%◌, ◌^◌, List, [], ◌∷◌, ◌++◌, Bool, true, false, Option, none, some,
  length, take, drop, get_elem?, ltb, leb, ◌==◌, if◌then◌else◌, Result, ok, err, length_error,
  fault, ◌&&◌,
}
use xi2p_old.ByteStream.{read_at, to_big}

-- sizeof(Identity): 256 + 128 + 1 + 2.
abbrev pub default_identity_size : ℕ
default_identity_size = 387

abbrev pub certificate_type_key : ℕ
certificate_type_key = 5

-- Identity. `certificate_length` is the number that the two big-endian bytes stand for.
pub record Standard : Type 0 where
  pub public_key : List ℕ
  pub signing_key : List ℕ
  pub certificate_type : ℕ
  pub certificate_length : ℕ

-- IdentityEx, without the hash and the cached verifier, which its other members determine.
pub record IdentityEx : Type 0 where
  pub standard : Standard
  pub extended_len : ℕ
  pub extended_buffer : Option (List ℕ)

abbrev pub byte_at : List ℕ → ℕ → ℕ
byte_at buf i = read_at 1 (drop i buf)

-- memcpy(&m_StandardIdentity, buf, DEFAULT_IDENTITY_SIZE).
unfoldable pub standard_of : List ℕ → Standard
standard_of buf = record {
  public_key = take 256 buf;
  signing_key = take 128 (drop 256 buf);
  certificate_type = byte_at buf 384;
  certificate_length = read_at 2 (drop 385 buf);
}

unfoldable pub full_len : IdentityEx → ℕ
full_len i = i.extended_len + default_identity_size

-- FromBuffer, over the bytes that `buf` and `len` describe. 0 stands for failure.
unfoldable pub from_standard : Standard → List ℕ → IdentityEx → ℕ × IdentityEx
unfolding full_len
from_standard s buf i =
    let n = s.certificate_length in
    let plain : IdentityEx = record { standard = s; extended_len = 0; extended_buffer = none } in
    let missing : IdentityEx = record { standard = s; extended_len = n; extended_buffer = none } in
    let extended : IdentityEx = record {
      standard = s;
      extended_len = n;
      extended_buffer = some (take n (drop default_identity_size buf));
    } in
    if ltb (length buf) default_identity_size
    then (0, i)
    else if n == 0
    then (full_len plain, plain)
    else if leb (n + default_identity_size) (length buf)
    then (full_len extended, extended)
    else (0, missing)

unfoldable pub from_buffer : List ℕ → IdentityEx → ℕ × IdentityEx
from_buffer buf i = from_standard (standard_of buf) buf i

unfoldable pub standard_bytes : Standard → List ℕ
standard_bytes s =
    s.public_key ++ s.signing_key ++ to_big 1 s.certificate_type ++ to_big 2 s.certificate_length

unfoldable pub to_buffer_extended : ℕ → Option (List ℕ) → List ℕ → ℕ → Result (List ℕ)
to_buffer_extended extended_len none front buflen = ok front
to_buffer_extended extended_len (some ext) front buflen =
    if extended_len == 0
    then ok front
    else if ltb buflen (default_identity_size + extended_len)
    then err length_error
    else ok (front ++ take extended_len ext)

-- ToBuffer: the bytes that it writes.
unfoldable pub to_buffer : IdentityEx → ℕ → Result (List ℕ)
unfolding standard_bytes to_buffer_extended
to_buffer i buflen =
    if ltb buflen default_identity_size
    then err length_error
    else to_buffer_extended i.extended_len i.extended_buffer (standard_bytes i.standard) buflen

-- GetSigningKeyType. The two bytes are read whatever the length of the buffer is.
unfoldable pub signing_key_type : IdentityEx → Result ℕ
signing_key_type i = elim i.extended_buffer [
  | none ↦ ok 0
  | some ext ↦
      if i.standard.certificate_type == certificate_type_key
      then if ltb (length ext) 2 then err fault else ok (read_at 2 ext)
      else ok 0
]

-- CreateVerifier: how many bytes it copies from offset 4 of the extended buffer.
unfoldable pub excess_len : ℕ → ℕ
excess_len type =
    if type == 3
    then 4
    else if type == 4
    then 128
    else if type == 5
    then 256
    else if type == 6
    then 384
    else 0

-- GetSignatureLen of the verifier for a key type; a type with no verifier counts as DSA.
unfoldable pub signature_len_of : ℕ → ℕ
signature_len_of type =
    if type == 1
    then 64
    else if type == 2
    then 96
    else if type == 3
    then 132
    else if type == 4
    then 256
    else if type == 5
    then 384
    else if type == 6
    then 512
    else if type == 7
    then 64
    else 40

unfoldable pub copies_excess : Option (List ℕ) → ℕ → Bool
copies_excess none n = n == 0
copies_excess (some ext) n = if n == 0 then true else leb (4 + n) (length ext)

-- GetSignatureLen: creates the verifier, then asks it.
unfoldable pub signature_len : IdentityEx → Result ℕ
unfolding signing_key_type excess_len signature_len_of copies_excess
signature_len i = elim (signing_key_type i) [
  | ok type ↦
      if copies_excess i.extended_buffer (excess_len type)
      then ok (signature_len_of type)
      else err fault
  | err e ↦ err e
]
