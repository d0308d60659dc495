-- ===== src/I2np.antt =====
-- src/core/router/i2np.h and i2np.cc: the message buffer that the transports and the tunnels share.
pub mod ShortHeader
use xi2p_old.Base.{
  ℕ, ◌+◌, ◌-◌, ◌*◌, ◌/◌, ◌%◌, ◌^◌, List, ◌++◌, length, take, drop, replicate, ltb, if◌then◌else◌,
  Result, ok, err, fault,
}
use xi2p_old.ByteStream.{to_big, read_at}

abbrev pub i2np_header_size : ℕ
i2np_header_size = 16

abbrev pub i2np_short_header_size : ℕ
i2np_short_header_size = 5

abbrev pub i2np_max_message_size : ℕ
i2np_max_message_size = 32768

abbrev pub i2np_max_short_message_size : ℕ
i2np_max_short_message_size = 4096

-- I2NPMessage: `bytes` are the first `len` bytes at `buf`, and `capacity` is the size of the array
-- behind `buf`, which the source does not keep.
pub record Message : Type 0 where
  pub bytes : List ℕ
  pub offset : ℕ
  pub max_len : ℕ
  pub capacity : ℕ

-- I2NPMessageBuffer<SZ>: a zeroed array of SZ + 16 bytes, a header and 2 bytes for NTCP.
unfoldable pub new_buffer : ℕ → Message
new_buffer sz = record {
  bytes = replicate (i2np_header_size + 2) 0;
  offset = 2;
  max_len = sz;
  capacity = sz + 16;
}

-- GetLength, GetBuffer.
unfoldable pub get_length : Message → ℕ
get_length m = length m.bytes - m.offset

unfoldable pub get_buffer : Message → List ℕ
get_buffer m = drop m.offset m.bytes

unfoldable pub get_type_id : Message → ℕ
get_type_id m = read_at 1 (drop m.offset m.bytes)

-- operator=: the other's buffer at our offset, under the other's max_len.
unfoldable pub assign : Message → Message → Result Message
unfolding get_length get_buffer
assign m other =
    if ltb m.capacity (m.offset + get_length other)
    then err fault
    else ok
        (record m { bytes = take m.offset m.bytes ++ get_buffer other; max_len = other.max_len })

-- memcpy(buf + len, data, n); len += n.
unfoldable pub append_data : Message → List ℕ → Result Message
append_data m data_ =
    if ltb m.capacity (length m.bytes + length data_)
    then err fault
    else ok (record m { bytes = m.bytes ++ data_ })

-- The first n bytes of the array: those below `len`, then what the array was zeroed with.
abbrev pub first : ℕ → Message → List ℕ
first n m = take n (m.bytes ++ replicate n 0)

-- FromSSU: the short header that stands right before the payload becomes a full header.
unfoldable pub from_ssu : ℕ → Message → Message
from_ssu msg_id m =
    let ssu =
      drop (m.offset + i2np_header_size - i2np_short_header_size)
        (first (m.offset + i2np_header_size) m) in
    let header =
      to_big 1 (read_at 1 ssu)
      ++ (to_big 4 msg_id
          ++ (to_big 8 (read_at 4 (drop 1 ssu) * 1000)
              ++ (to_big 2 (length m.bytes + 2 ^ 64 - m.offset - i2np_header_size)
                  ++ to_big 1 0))) in
    record m {
      bytes =
          take (length m.bytes)
            (take m.offset m.bytes ++ (header ++ drop (m.offset + i2np_header_size) m.bytes));
    }

-- ToSSU, and what then lies at GetSSUHeader for GetLength: the message id; and the short header,
-- written over the end of the full one, with as many bytes behind it as the full one announced.
unfoldable pub to_ssu : Message → ℕ × List ℕ
to_ssu m =
    let header = first i2np_header_size (record m { bytes = drop m.offset m.bytes }) in
    let size = read_at 2 (drop 13 header) in
    (
      read_at 4 (drop 1 header),
      to_big 1 (read_at 1 header)
          ++ (to_big 4 (read_at 8 (drop 5 header) / 1000 % 2 ^ 32)
              ++ first size (record m { bytes = drop (m.offset + i2np_header_size) m.bytes })),
    )
