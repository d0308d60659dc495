-- ===== src/Tests/Streams.antt =====
-- src/core/util/byte_stream and src/core/router/identity.cc: bytes written and read.
use xi2p_old.Base.{
  ℕ, ◌*◌, ◌/◌, ◌≤◌, ◌≡◌, refl, none, List, [], ◌∷◌, ◌++◌, length, replicate, length-replicate, ok,
  arith,
}
use xi2p_old.I2np.{to_ssu, from_ssu}
use xi2p_old.I2np.ShortHeader.{full_message, full_header, from_ssu-to_ssu}
use xi2p_old.Identity.{Standard, IdentityEx, full_len, to_buffer, from_buffer}
use xi2p_old.Identity.Wire.{IsStandard, identity, from_buffer-to_buffer}

abbrev router : Standard
router = record {
  public_key = replicate 256 3;
  signing_key = replicate 128 4;
  certificate_type = 5;
  certificate_length = 4;
}

router-IsStandard : IsStandard router
router-IsStandard = record {
  public_key_fits = length-replicate {A = ℕ} 256 3;
  signing_key_fits = length-replicate {A = ℕ} 128 4;
  type_fits = omega arith;
  length_fits = omega arith;
}

router_fits : full_len (identity router (0 ∷ 7 ∷ 0 ∷ 0 ∷ [])) ≤ 400
unfolding full_len
router_fits = omega arith

abbrev blank : IdentityEx
blank = record { standard = router; extended_len = 0; extended_buffer = none }

from_buffer-to_buffer_example :
    (bytes : List ℕ) × (to_buffer (identity router (0 ∷ 7 ∷ 0 ∷ 0 ∷ [])) 400 ≡ ok bytes)
    × (length bytes ≡ full_len (identity router (0 ∷ 7 ∷ 0 ∷ 0 ∷ [])))
    × (from_buffer (bytes ++ 9 ∷ []) blank
        ≡ (full_len (identity router (0 ∷ 7 ∷ 0 ∷ 0 ∷ [])), identity router (0 ∷ 7 ∷ 0 ∷ 0 ∷ [])))
from_buffer-to_buffer_example =
    from_buffer-to_buffer router (0 ∷ 7 ∷ 0 ∷ 0 ∷ []) blank 400 (9 ∷ []) router-IsStandard refl
      router_fits

abbrev text : List ℕ
text = 5 ∷ 6 ∷ 7 ∷ []

from_ssu-to_ssu_example :
    let (id, bytes) = to_ssu (full_message 1 77 2500 9 text) in
    (from_ssu id (record {
      bytes = replicate 13 0 ++ bytes;
      offset = 2;
      max_len = 4096;
      capacity = 4112;
    })).bytes
    ≡ 0 ∷ 0 ∷ (full_header 1 77 (2500 / 1000 * 1000) (length text) 0 ++ text)
from_ssu-to_ssu_example =
    from_ssu-to_ssu 1 77 2500 9 4096 4112 text (omega arith) (omega arith) (omega arith)
      (omega arith)
