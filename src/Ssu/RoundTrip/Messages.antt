-- ===== src/Ssu/RoundTrip/Messages.antt =====
-- Whole packets: WriteHeader and WritePacket against ParsePacket.
use xi2p_old.Base.{
  drop, drop-append, ℕ, ◌+◌, ◌-◌, ◌^◌, ◌≤◌, ◌<◌, ◌≡◌, ◌≢◌, refl, ◌∙◌, List, [], ◌++◌, Option, none,
  some, length, ok, ◌>>=◌, pure, arith, length-append,
}
use mathlib.Core.List.{append_assoc}
use xi2p_old.ByteStream.{Output, to_big}
use xi2p_old.ByteStream.Codec.{Writes, Writes-seq}
use xi2p_old.Ssu.Header.{
  PayloadType, unknown, mac_size, iv_size, header_size, header_flag, write_header, parse_header,
}
use xi2p_old.Ssu.Packet.{Payload}
use xi2p_old.Ssu.Parser.{parse_packet, parse_payload}
use xi2p_old.Ssu.Builder.{write_packet, write_payload}
use xi2p_old.Ssu.RoundTrip.HeaderCodec.{
  session_header, OptionsFit, mac_bytes, options_bytes, header_bytes, wire_bytes, Writes-header,
  Reads-header,
}

type_of_session :
    (mac : Option (List ℕ)) (iv : List ℕ) (type : PayloadType) (time : ℕ)
    (options : Option (List ℕ))
    → (session_header mac iv type time options).payload_type ≡ type
unfolding session_header
type_of_session mac iv type time none = refl
type_of_session mac iv type time (some o) = refl

module _ (mac : Option (List ℕ)) (iv : List ℕ) (type : PayloadType) (time : ℕ)
    (options : Option (List ℕ)) where
  length-header_bytes :
      (flag : ℕ)
      → length (mac_bytes mac) ≡ mac_size
      → length iv ≡ iv_size
      → length (header_bytes flag (mac_bytes mac) iv time options)
        ≡ 37 + length (options_bytes options)
  unfolding header_bytes
  length-header_bytes flag hm hi = omega (
    arith,
    length-append (mac_bytes mac)
        (iv ++ (to_big 1 flag ++ (to_big 4 time ++ options_bytes options))),
    length-append iv (to_big 1 flag ++ (to_big 4 time ++ options_bytes options)),
  )

-- A header of a session takes as many bytes as GetSize says.
pub length-wire_bytes :
    (mac : Option (List ℕ)) (iv : List ℕ) (type : PayloadType) (time : ℕ)
    (options : Option (List ℕ))
    → length (mac_bytes mac) ≡ mac_size
    → length iv ≡ iv_size
    → OptionsFit options
    → length (wire_bytes mac iv type time options)
      ≡ header_size (session_header mac iv type time options)
unfolding session_header header_size
length-wire_bytes mac iv type time none hm hi ho = length-header_bytes mac iv type time none _ hm hi
length-wire_bytes mac iv type time (some o) hm hi ho =
    length-header_bytes mac iv type time (some o) _ hm hi ∙ omega arith

-- The header in front of a payload whose own reader and writer agree.
module _ (mac : Option (List ℕ)) (iv : List ℕ) (type : PayloadType) (time : ℕ)
    (options : Option (List ℕ)) (hm : length (mac_bytes mac) ≡ mac_size) (hi : length iv ≡ iv_size)
    (ht : type ≢ unknown) (hq : time < 2 ^ 32) (ho : OptionsFit options) where
  parse_header_on :
      (rest : List ℕ) (c : ℕ)
      → parse_header (record { rest = wire_bytes mac iv type time options ++ rest; counter = c })
        ≡ ok (
          session_header (some (mac_bytes mac)) iv type time options,
          record { rest = rest; counter = c + length (wire_bytes mac iv type time options) },
        )
  unfolding parse_header
  parse_header_on rest c = ground (
    arith,
    (Reads-header mac iv type time options hm hi ht hq ho).on rest c,
    length-append (wire_bytes mac iv type time options) rest,
    length-header_bytes mac iv type time options
        (header_flag (session_header mac iv type time options)) hm hi,
  )

  pub Writes-packet :
      (rand : ℕ → List ℕ) (payload : Payload) (body : List ℕ)
      → Writes (write_payload rand (session_header mac iv type time options) type payload) body
      → Writes
          (write_packet rand (record {
            header = session_header mac iv type time options;
            raw_data = [];
            payload = payload;
          }))
          (wire_bytes mac iv type time options ++ body)
  unfolding write_packet session_header
  Writes-packet rand payload body hw =
      Writes-seq (Writes-header mac iv type time options hm hi ho)
        (rw (type_of_session mac iv type time options) hw)

  pub parse_packet_on :
      (payload : Payload) (body after : List ℕ) (c d : ℕ)
      → parse_payload
          (session_header (some (mac_bytes mac)) iv type time options)
          type
          (record { rest = body; counter = c + length (wire_bytes mac iv type time options) })
        ≡ ok (payload, record { rest = after; counter = d })
      → parse_packet (record { rest = wire_bytes mac iv type time options ++ body; counter = c })
        ≡ ok (
          record {
            header = session_header (some (mac_bytes mac)) iv type time options;
            raw_data = body;
            payload = payload;
          },
          record { rest = after; counter = d },
        )
  unfolding parse_packet ◌>>=◌ pure
  parse_packet_on payload body after c d e = ground (
    arith,
    parse_header_on body c,
    type_of_session (some (mac_bytes mac)) iv type time options,
    e,
  )

-- What a session puts into a header: a MAC of 16 bytes or none yet, an IV of 16 bytes, a known type,
-- a 32-bit time, and no options or 1 to 255 bytes of them.
pub record HeaderFits (mac : Option (List ℕ)) (iv : List ℕ) (type : PayloadType) (time : ℕ)
    (options : Option (List ℕ)) : Type 0 where
  pub mac_fits : length (mac_bytes mac) ≡ mac_size
  pub iv_fits : length iv ≡ iv_size
  pub type_known : type ≢ unknown
  pub time_fits : time < 2 ^ 32
  pub options_fit : OptionsFit options

-- A header without rekeying, of a known type, over 16 bytes of MAC or none, with 16 bytes of IV, a
-- time of 32 bits and no options or 1 to 255 bytes of them, that is written where there is room for
-- it, is read back as it was, with 16 zero bytes for a MAC that is still to come; it takes
-- header_size bytes, and the reader stops right behind it.
pub parse_header-write_header :
    (mac : Option (List ℕ)) (iv : List ℕ) (type : PayloadType) (time : ℕ)
    (options : Option (List ℕ)) (o : Output) (rest : List ℕ) (c : ℕ)
    → HeaderFits mac iv type time options
    → header_size (session_header mac iv type time options) ≤ o.remaining
    → (bs : List ℕ) × (length bs ≡ header_size (session_header mac iv type time options))
      × (write_header (session_header mac iv type time options) o
          ≡ ok (tt, record { written = o.written ++ bs; remaining = o.remaining - length bs }))
      × (parse_header (record { rest = bs ++ rest; counter = c })
          ≡ ok (
            session_header (some (mac_bytes mac)) iv type time options,
            record { rest = rest; counter = c + length bs },
          ))
parse_header-write_header mac iv type time options o rest c f h =
    let e = length-wire_bytes mac iv type time options f.mac_fits f.iv_fits f.options_fit in
    (
      wire_bytes mac iv type time options,
      e,
      (Writes-header mac iv type time options f.mac_fits f.iv_fits f.options_fit).on o
          (omega (arith, e)),
      parse_header_on mac iv type time options f.mac_fits f.iv_fits f.type_known f.time_fits
          f.options_fit rest c,
    )

-- A payload whose writer puts out `body`, and whose reader takes `body` off `body ++ rest`.
pub packet_round_trip :
    (mac : Option (List ℕ)) (iv : List ℕ) (type : PayloadType) (time : ℕ)
    (options : Option (List ℕ)) (rand : ℕ → List ℕ) (payload : Payload) (body rest after : List ℕ)
    (o : Output) (c d : ℕ)
    → HeaderFits mac iv type time options
    → Writes (write_payload rand (session_header mac iv type time options) type payload) body
    → parse_payload (session_header (some (mac_bytes mac)) iv type time options) type (record {
      rest = body ++ rest;
      counter = c + header_size (session_header mac iv type time options);
    })
      ≡ ok (payload, record { rest = after; counter = d })
    → header_size (session_header mac iv type time options) + length body ≤ o.remaining
    → (bs : List ℕ) × (length bs
        ≡ header_size (session_header mac iv type time options) + length body)
      × (write_packet rand
            (record {
              header = session_header mac iv type time options;
              raw_data = [];
              payload = payload;
            })
            o
          ≡ ok (tt, record { written = o.written ++ bs; remaining = o.remaining - length bs }))
      × (parse_packet (record { rest = bs ++ rest; counter = c })
          ≡ ok (
            record {
              header = session_header (some (mac_bytes mac)) iv type time options;
              raw_data = drop (header_size (session_header mac iv type time options)) (bs ++ rest);
              payload = payload;
            },
            record { rest = after; counter = d },
          ))
packet_round_trip mac iv type time options rand payload body rest after o c d f hw hr room =
    let front : List ℕ = wire_bytes mac iv type time options in
    let e = length-wire_bytes mac iv type time options f.mac_fits f.iv_fits f.options_fit in
    let l : length (front ++ body)
        ≡ header_size (session_header mac iv type time options) + length body =
      omega (arith, e, length-append front body) in
    (
      front ++ body,
      l,
      (Writes-packet mac iv type time options f.mac_fits f.iv_fits f.type_known f.time_fits
            f.options_fit rand payload body hw).on
          o (omega (arith, l)),
      rw (append_assoc front body rest, drop-append _ front (body ++ rest) e)
          (parse_packet_on mac iv type time options f.mac_fits f.iv_fits f.type_known f.time_fits
            f.options_fit payload (body ++ rest) after c d (rw e hr)),
    )
