-- ===== src/ByteStream/Words.antt =====
-- Integers on the wire: what Write<UInt> puts on a stream, Read<UInt> takes off it.
use native.Mathlib.Nat.{div-add-mod, mod-lt, mod-eq_of_lt, mul-add-mod_self_left, mul-le-mul_right}
use xi2p_old.Base.{
  ℕ, zero, suc, ◌+◌, ◌*◌, ◌/◌, ◌%◌, ◌^◌, ◌≤◌, ◌<◌, ◌≡◌, refl, ap, ◌∙◌, List, ◌++◌, ok, length,
  length-append, take-append, drop-append, arith,
}
use xi2p_old.ByteStream.{from_big, to_big, read_bytes}

pub length-to_big : (n v : ℕ) → length (to_big n v) ≡ n
length-to_big zero v = refl
length-to_big (suc n) v = ap suc (length-to_big n v)

-- The two lowest digits of v in base 256 * p.
split_digit : (v p : ℕ) → 0 < p → v % (256 * p) ≡ v / p % 256 * p + v % p
split_digit v p h = rw (← parts) at (mul-add-mod_self_left (256 * p) high low ∙ mod-eq_of_lt small)
  where
    high : ℕ
    high = v / p / 256

    low : ℕ
    low = v / p % 256 * p + v % p

    parts : v ≡ 256 * p * high + low
    parts = omega (arith, div-add-mod v p, ap (λ (t : ℕ). p * t) (div-add-mod (v / p) 256))

    small : low < 256 * p
    small = omega (arith, mod-lt v h, mul-le-mul_right p (bound (v / p)))
      where
        bound : (q : ℕ) → q % 256 + 1 ≤ 256
        bound q = omega arith

pow_pos : (n : ℕ) → 0 < 256 ^ n
pow_pos zero = omega arith
pow_pos (suc n) = omega (arith, pow_pos n)

pow_step : (n : ℕ) → 256 ^ suc n ≡ 256 * 256 ^ n
pow_step n = omega arith

from_big-to_big_acc : (n acc v : ℕ) → from_big acc (to_big n v) ≡ acc * 256 ^ n + v % 256 ^ n
from_big-to_big_acc zero acc v = omega arith
from_big-to_big_acc (suc n) acc v =
    from_big-to_big_acc n (acc * 256 + v / 256 ^ n % 256) v
    ∙ rw (pow_step n) (omega (arith, split_digit v (256 ^ n) (pow_pos n)))

-- Big-endian coding loses nothing of a value that fits.
pub from_big-to_big : (n v : ℕ) → v < 256 ^ n → from_big 0 (to_big n v) ≡ v
from_big-to_big n v h = from_big-to_big_acc n 0 v ∙ omega (arith, mod-eq_of_lt h)

pub read_bytes-append :
    (n : ℕ) (bs rest : List ℕ) (c : ℕ)
    → 0 < n
    → length bs ≡ n
    → read_bytes n (record { rest = bs ++ rest; counter = c })
      ≡ ok (bs, record { rest = rest; counter = c + n })
unfolding read_bytes
read_bytes-append n bs rest c h e =
    ground (arith, length-append bs rest, take-append n bs rest e, drop-append n bs rest e)
