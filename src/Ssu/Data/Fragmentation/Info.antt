-- ===== src/Ssu/Data/Fragmentation/Info.antt =====
-- src/core/router/transports/ssu/data.cc: the 24 bits of the fragment info, written and read.
use xi2p_old.Base.{
  ℕ, zero, suc, ◌+◌, ◌*◌, ◌/◌, ◌%◌, ◌^◌, ◌<◌, ◌≡◌, ◌∙◌, Bool, true, false, of_bool, arith,
}
use xi2p_old.Ssu.Data.Outgoing.{bit_or, fragment_info}

-- k doublings of a number.
abbrev double : ℕ → ℕ → ℕ
double zero a = a
double (suc k) a = 2 * double k a

bit_or-zero : (width a : ℕ) → a < double width 1 → bit_or width a 0 ≡ a
unfolding bit_or
bit_or-zero zero a h = omega arith
bit_or-zero (suc width) a h = ground (arith, bit_or-zero width (a / 2) (omega arith))

-- The or of a number doubled k times and one below 2 ^ k is their sum.
bit_or-add :
    (width k a b : ℕ)
    → b < double k 1
    → double k a + b < double width 1
    → bit_or width (double k a) b ≡ double k a + b
unfolding bit_or
bit_or-add width zero a zero p q = bit_or-zero width a (omega arith) ∙ omega arith
bit_or-add width zero a (suc b) p q = absurd (omega arith)
bit_or-add zero (suc k) a b p q = omega arith
bit_or-add (suc width) (suc k) a b p q =
    let e : 2 * double k a / 2 ≡ double k a = omega arith in
    let ih = bit_or-add width k a (b / 2) (omega arith) (omega arith) in rw e (ground (arith, ih))

-- The parts of a fragment info do not overlap.
pub fragment_info_lem :
    (fragment_num size : ℕ) (is_last : Bool)
    → fragment_num < 128
    → size < 2 ^ 16
    → fragment_info fragment_num is_last size
      ≡ fragment_num * 2 ^ 17 + of_bool is_last * 2 ^ 16 + size
unfolding fragment_info
fragment_info_lem n size true p q =
    let e : n * 2 ^ 17 % 2 ^ 32 ≡ double 17 n = omega arith in
    let f : double 17 n + 1 * 2 ^ 16 ≡ double 16 (2 * n + 1) = omega arith in
    let g : size % 2 ^ 32 ≡ size = omega arith in
    rw
      (
        e,
        bit_or-add 32 17 n (1 * 2 ^ 16) (omega arith) (omega arith),
        f,
        g,
        bit_or-add 32 16 (2 * n + 1) size (omega arith) (omega arith),
      )
      (omega arith)
fragment_info_lem n size false p q =
    let e : n * 2 ^ 17 % 2 ^ 32 ≡ double 17 n = omega arith in
    let f : double 17 n + 0 * 2 ^ 16 ≡ double 16 (2 * n) = omega arith in
    let g : size % 2 ^ 32 ≡ size = omega arith in
    rw
      (
        e,
        bit_or-add 32 17 n (0 * 2 ^ 16) (omega arith) (omega arith),
        f,
        g,
        bit_or-add 32 16 (2 * n) size (omega arith) (omega arith),
      )
      (omega arith)
