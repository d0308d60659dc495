-- ===== src/ByteStream/Bounds.antt =====
-- Neither cursor leaves its buffer, and the size of a stream never changes.
use xi2p_old.Base.{
  ℕ, ◌+◌, ◌-◌, ◌≤◌, ◌<◌, ◌≡◌, List, ◌++◌, Bool, false, Option, none, some, ok, err, length_error,
  length, length-append, length-take, length-drop, length-replicate, take, drop, arith, ◌⊎◌, inl,
  inr, take-append-drop, replicate,
}
use xi2p_old.ByteStream.{Input, Output, size, read_bytes, write_data}

pub read_bytes_ok :
    (n : ℕ) (s : Input)
    → 0 < n
    → n ≤ length s.rest
    → read_bytes n s ≡ ok (take n s.rest, record { rest = drop n s.rest; counter = s.counter + n })
unfolding read_bytes
read_bytes_ok n s h k = ground arith

pub read_bytes_err :
    (n : ℕ) (s : Input) → (n ≡ 0) ⊎ (length s.rest < n) → read_bytes n s ≡ err length_error
unfolding read_bytes
read_bytes_err n s h = ground arith

-- A request for one byte or more that the stream still holds takes that many bytes from the front
-- and leaves the rest, at the same total size; a request for none or for too many is refused.
pub read_bytes_outcome :
    (n : ℕ) (s : Input)
    → ((0 < n)
        × (n ≤ length s.rest)
        × ((bs : List ℕ) × (t : Input) × (read_bytes n s ≡ ok (bs, t))
            × (length bs ≡ n)
            × (bs ++ t.rest ≡ s.rest)
            × (size t ≡ size s)))
      ⊎ (((n ≡ 0) ⊎ (length s.rest < n)) × (read_bytes n s ≡ err length_error))
unfolding size
read_bytes_outcome n s = elim (split n (length s.rest)) [
  | inl (h, k) ↦ inl (
    h,
    k,
    (
      take n s.rest,
      record { rest = drop n s.rest; counter = s.counter + n },
      read_bytes_ok n s h k,
      omega (arith, length-take n s.rest),
      take-append-drop n s.rest,
      omega (arith, length-drop n s.rest),
    ),
  )
  | inr h ↦ inr (h, read_bytes_err n s h)
]
  where
    split : (n m : ℕ) → ((0 < n) × (n ≤ m)) ⊎ ((n ≡ 0) ⊎ (m < n))
    split n m = ground arith

pub write_data_ok :
    (bs : List ℕ) (n : ℕ) (o : Output)
    → 0 < n
    → n ≤ o.remaining
    → n ≤ length bs
    → write_data (some bs) n false o
      ≡ ok (tt, record { written = o.written ++ take n bs; remaining = o.remaining - n })
unfolding write_data
write_data_ok bs n o h k l = ground arith

-- Whatever is written, and however it is called, a write that returns has written the asked number
-- of bytes, at least one, and the buffer that it was given still holds all of them.
pub write_data_bounds :
    (data_ : Option (List ℕ)) (n : ℕ) (allow_null : Bool) (o p : Output)
    → write_data data_ n allow_null o ≡ ok (tt, p)
    → (0 < n)
      × (length p.written ≡ length o.written + n)
      × (length p.written + p.remaining ≡ length o.written + o.remaining)
unfolding write_data
write_data_bounds none n allow_null o p h =
    ground (arith, length-append o.written (replicate n 0), length-replicate {A = ℕ} n 0)
write_data_bounds (some bs) n allow_null o p h =
    ground (arith, length-append o.written (take n bs), length-take n bs)
