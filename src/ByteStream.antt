-- ===== src/ByteStream.antt =====
-- src/core/util/byte_stream.h and src/core/util/byte_stream.cc: the cursor over received bytes and the
-- cursor that packets are written through.
pub mod Bounds
pub mod Words
pub mod Codec
use xi2p_old.Base.{
  ℕ, zero, suc, ◌+◌, ◌-◌, ◌*◌, ◌/◌, ◌%◌, ◌^◌, Bool, true, false, not, ◌||◌, ◌&&◌, Option, none,
  some, List, [], ◌∷◌, ◌++◌, length, take, drop, replicate, ltb, ◌==◌, if◌then◌else◌, Result, ok,
  err, length_error, invalid_argument, fault, Method, ◌>>=◌, pure,
}

-- `rest` holds the m_Length bytes at m_DataPtr.
pub record Input : Type 0 where
  pub rest : List ℕ
  pub counter : ℕ

-- `written` holds the m_Counter bytes before m_DataPtr, and `remaining` is m_Length.
pub record Output : Type 0 where
  pub written : List ℕ
  pub remaining : ℕ

-- The constructors; `none` is the null pointer.
unfoldable pub new_input : Option (List ℕ) → Result Input
new_input none = err invalid_argument
new_input (some data_) =
    if length data_ == 0 then err length_error else ok (record { rest = data_; counter = 0 })

unfoldable pub new_output : Bool → ℕ → Result Output
new_output is_null len =
    if is_null
    then err invalid_argument
    else if len == 0
    then err length_error
    else ok (record { written = []; remaining = len })

-- Gcount, Size.
unfoldable pub gcount : Input → ℕ
gcount s = length s.rest

unfoldable pub size : Input → ℕ
size s = length s.rest + s.counter

-- The test of `Advance`, over m_Length.
unfoldable pub may_advance : ℕ → ℕ → Bool
may_advance len m_length = not (len == 0 || ltb m_length len)

unfoldable pub advance : ℕ → Input → Result Input
unfolding may_advance
advance len s =
    if may_advance len (length s.rest)
    then ok (record { rest = drop len s.rest; counter = s.counter + len })
    else err length_error

-- ReadBytes, and the use of the bytes at the pointer that it returns: one behind the end of the array
-- is a fault.
unfoldable pub read_bytes : ℕ → Method Input (List ℕ)
unfolding advance
read_bytes len s = elim (advance len s) [
  | ok t ↦ if ltb (length s.rest) len then err fault else ok (take len s.rest, t)
  | err e ↦ err e
]

unfoldable pub skip_bytes : ℕ → Method Input (Unit {0})
unfolding advance
skip_bytes len s = elim (advance len s) [ ok t ↦ ok (tt, t) | err e ↦ err e ]

-- The value of a big-endian byte string, and the n bytes of a value.
abbrev pub from_big : ℕ → List ℕ → ℕ
from_big acc [] = acc
from_big acc (b ∷ bs) = from_big (acc * 256 + b) bs

abbrev pub to_big : ℕ → ℕ → List ℕ
to_big zero v = []
to_big (suc n) v = (v / 256 ^ n % 256) ∷ to_big n v

-- Read<UInt> for an n-byte type: on a buffer, and on the stream.
abbrev pub read_at : ℕ → List ℕ → ℕ
read_at n buf = from_big 0 (take n buf)

unfoldable pub read : ℕ → Method Input ℕ
read n = do buf ← read_bytes n; pure (read_at n buf)

-- What lies at a source pointer; a copy of more than that many bytes is a fault.
unfoldable pub copied : Option (List ℕ) → ℕ → Result (List ℕ)
copied none len = ok (replicate len 0)
copied (some data_) len = if ltb (length data_) len then err fault else ok (take len data_)

unfoldable pub append_bytes : Result (List ℕ) → ℕ → Output → Result (Unit {0} × Output)
append_bytes (ok bytes) len o =
    ok (tt, record { written = o.written ++ bytes; remaining = o.remaining - len })
append_bytes (err e) len o = err e

abbrev is_null : Option (List ℕ) → Bool
is_null none = true
is_null (some _) = false

unfoldable pub write_data : Option (List ℕ) → ℕ → Bool → Method Output (Unit {0})
unfolding may_advance copied append_bytes
write_data data_ len allow_null_data o =
    if is_null data_ && not allow_null_data
    then err invalid_argument
    else if len == 0
    then err length_error
    else if may_advance len o.remaining
    then append_bytes (copied data_ len) len o
    else err length_error

unfoldable pub skip_output : ℕ → Method Output (Unit {0})
skip_output len = write_data none len true

-- Write<UInt> for an n-byte type.
unfoldable pub write : ℕ → ℕ → Method Output (Unit {0})
write n v = write_data (some (to_big n v)) n false
