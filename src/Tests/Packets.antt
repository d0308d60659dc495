-- ===== src/Tests/Packets.antt =====
-- src/core/router/transports/ssu/packet.cc: packets written and read.
use xi2p_old.Base.{
  ℕ, ◌+◌, ◌-◌, ◌≤◌, ◌<◌, ◌≡◌, ◌⊎◌, length_error, inl, refl, Option, none, some, List, [], ◌∷◌, ◌++◌,
  length, replicate, drop, ok, err, fault, ◌≢◌, arith,
}
use xi2p_old.ByteStream.{Input, Output}
use xi2p_old.Ssu.Header.{
  Header, PayloadType, header_size, write_header, parse_header, set_extended_options,
  set_extended_options_data, new_header,
}
use xi2p_old.Ssu.Packet.{Payload, session_request_size, session_created_size}
use xi2p_old.Ssu.Parser.{parse_packet, parse_payload}
use xi2p_old.Ssu.Parser.Safety.Payloads.{parse_payload-no_fault, parse_header-no_fault}
use xi2p_old.Ssu.Builder.{write_packet}
use xi2p_old.Ssu.RoundTrip.HeaderCodec.{session_header, with_options, mac_bytes}
use xi2p_old.Ssu.RoundTrip.Messages.{HeaderFits, parse_header-write_header}
use xi2p_old.Ssu.RoundTrip.Sessions.{
  request, created, parse_packet-session_request, parse_packet-session_created,
}

abbrev empty : Output
empty = record { written = []; remaining = 1000 }

abbrev iv : List ℕ
iv = replicate 16 2

abbrev dh : List ℕ
dh = replicate 256 3

abbrev address : List ℕ
address = 127 ∷ 0 ∷ 0 ∷ 1 ∷ []

abbrev options : Option (List ℕ)
options = some (1 ∷ 2 ∷ [])

abbrev rand : ℕ → List ℕ
rand n = replicate n 0

abbrev request_header : Header
request_header = session_header none iv PayloadType.session_request 1000 options

abbrev created_header : Header
created_header = session_header none iv PayloadType.session_created 1000 options

request-HeaderFits : HeaderFits none iv PayloadType.session_request 1000 options
request-HeaderFits = record {
  mac_fits = refl;
  iv_fits = refl;
  type_known = λ e. cc;
  time_fits = omega arith;
  options_fit = (omega arith, omega arith);
}

created-HeaderFits : HeaderFits none iv PayloadType.session_created 1000 options
created-HeaderFits = record {
  mac_fits = refl;
  iv_fits = refl;
  type_known = λ e. cc;
  time_fits = omega arith;
  options_fit = (omega arith, omega arith);
}

header_fits : header_size request_header ≤ 1000
unfolding header_size session_header with_options new_header set_extended_options
    set_extended_options_data
header_fits = omega arith

request_fits : session_request_size request_header (request dh address) ≤ 1000
unfolding session_request_size header_size session_header with_options new_header
    set_extended_options set_extended_options_data
request_fits = omega arith

created_fits : session_created_size created_header (created dh address 80 7 9 (5 ∷ [])) ≤ 1000
unfolding session_created_size header_size session_header with_options new_header
    set_extended_options set_extended_options_data
created_fits = omega arith

parse_header-write_header_example :
    (bs : List ℕ) × (length bs ≡ header_size request_header)
    × (write_header request_header empty
        ≡ ok
            (tt, record { written = empty.written ++ bs; remaining = empty.remaining - length bs }))
    × (parse_header (record { rest = bs ++ 6 ∷ []; counter = 0 })
        ≡ ok (
          session_header (some (mac_bytes none)) iv PayloadType.session_request 1000 options,
          record { rest = 6 ∷ []; counter = 0 + length bs },
        ))
parse_header-write_header_example =
    parse_header-write_header none iv PayloadType.session_request 1000 options empty (6 ∷ []) 0
      request-HeaderFits header_fits

parse_packet-session_request_example :
    (bs : List ℕ) × (length bs ≡ session_request_size request_header (request dh address))
    × (write_packet rand
          (record {
            header = request_header;
            raw_data = [];
            payload = Payload.session_request (request dh address);
          })
          empty
        ≡ ok
            (tt, record { written = empty.written ++ bs; remaining = empty.remaining - length bs }))
    × (parse_packet (record { rest = bs ++ 6 ∷ []; counter = 0 })
        ≡ ok (
          record {
            header =
                session_header (some (mac_bytes none)) iv PayloadType.session_request 1000 options;
            raw_data = drop (header_size request_header) (bs ++ 6 ∷ []);
            payload = Payload.session_request (request dh address);
          },
          record { rest = 6 ∷ []; counter = 0 + length bs },
        ))
parse_packet-session_request_example =
    parse_packet-session_request none iv 1000 options dh address rand empty (6 ∷ []) 0
      request-HeaderFits refl (inl refl) request_fits

parse_packet-session_created_example :
    (bs : List ℕ) × (length bs
      ≡ session_created_size created_header (created dh address 80 7 9 (5 ∷ [])))
    × (write_packet rand
          (record {
            header = created_header;
            raw_data = [];
            payload = Payload.session_created (created dh address 80 7 9 (5 ∷ []));
          })
          empty
        ≡ ok
            (tt, record { written = empty.written ++ bs; remaining = empty.remaining - length bs }))
    × (parse_packet (record { rest = bs; counter = 0 })
        ≡ ok (
          record {
            header =
                session_header (some (mac_bytes none)) iv PayloadType.session_created 1000 options;
            raw_data = drop (header_size created_header) bs;
            payload = Payload.session_created (created dh address 80 7 9 (5 ∷ []));
          },
          record { rest = 5 ∷ []; counter = 0 + (length bs - 1) },
        ))
parse_packet-session_created_example =
    parse_packet-session_created none iv 1000 options dh address 80 7 9 (5 ∷ []) rand empty 0
      created-HeaderFits refl (inl refl) (omega arith) (omega arith) (omega arith) (omega arith)
      created_fits

abbrev noise : Input
noise = record { rest = 64 ∷ 1 ∷ 0 ∷ 0 ∷ 0 ∷ 9 ∷ 128 ∷ 128 ∷ []; counter = 37 }

parse_payload-no_fault_example :
    parse_payload request_header PayloadType.data_message noise ≢ err fault
parse_payload-no_fault_example =
    parse_payload-no_fault request_header PayloadType.data_message noise (λ e. cc)

-- A header that announces 255 bytes of options and ends before them.
abbrev cut_header : Input
cut_header = record { rest = replicate 32 1 ++ 36 ∷ 0 ∷ 0 ∷ 0 ∷ 1 ∷ 255 ∷ 7 ∷ []; counter = 0 }

parse_header-no_fault_example :
    ((length cut_header.rest < 37) × (parse_header cut_header ≡ err length_error))
    ⊎ ((37 ≤ length cut_header.rest) × (parse_header cut_header ≢ err fault))
parse_header-no_fault_example = parse_header-no_fault cut_header
