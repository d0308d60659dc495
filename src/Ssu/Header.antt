-- ===== src/Ssu/Header.antt =====
-- src/core/router/transports/ssu/packet.h and packet.cc: sizes, payload types, and the SSU header with
-- its parser and its writer.
use xi2p_old.Base.{
  ℕ, ◌+◌, ◌*◌, ◌/◌, ◌%◌, ◌^◌, List, Bool, true, false, Option, none, some, length, ltb, ◌==◌, bit,
  of_bool, if◌then◌else◌, Result, ok, err, length_error, invalid_argument, Method, ◌>>=◌, ◌>>◌,
  pure, lift,
}
use xi2p_old.ByteStream.{
  Input, Output, read_bytes, read, skip_bytes, write, write_data, skip_output,
}

-- SSUSize.
abbrev pub header_min : ℕ
header_min = 37

abbrev pub mac_size : ℕ
mac_size = 16

abbrev pub iv_size : ℕ
iv_size = 16

abbrev pub intro_key_size : ℕ
intro_key_size = 32

abbrev pub keying_material : ℕ
keying_material = 64

abbrev pub dh_public : ℕ
dh_public = 256

pub data PayloadType : Type 0 where
  session_request session_created session_confirmed relay_request relay_response : PayloadType
  relay_intro data_message peer_test session_destroyed unknown : PayloadType

-- The number of an enumerator.
unfoldable pub type_code : PayloadType → ℕ
type_code session_request = 0
type_code session_created = 1
type_code session_confirmed = 2
type_code relay_request = 3
type_code relay_response = 4
type_code relay_intro = 5
type_code data_message = 6
type_code peer_test = 7
type_code session_destroyed = 8
type_code unknown = 9

-- static_cast<SSUPayloadType> of a number.
unfoldable pub type_of_code : ℕ → PayloadType
type_of_code n =
    if n == 0
    then session_request
    else if n == 1
    then session_created
    else if n == 2
    then session_confirmed
    else if n == 3
    then relay_request
    else if n == 4
    then relay_response
    else if n == 5
    then relay_intro
    else if n == 6
    then data_message
    else if n == 7
    then peer_test
    else if n == 8
    then session_destroyed
    else unknown

-- The pointers of a header are `none` when null, and otherwise the bytes that they point at.
pub record Header : Type 0 where
  pub mac : Option (List ℕ)
  pub iv : Option (List ℕ)
  pub extended_options : Option (List ℕ)
  pub rekey : Bool
  pub extended : Bool
  pub time : ℕ
  pub payload_type : PayloadType
  pub extended_options_size : ℕ

-- The constructor over a type, a MAC, an IV and a time.
unfoldable pub new_header : PayloadType → Option (List ℕ) → Option (List ℕ) → ℕ → Header
new_header type mac iv time = record {
  mac = mac;
  iv = iv;
  extended_options = none;
  rekey = false;
  extended = false;
  time = time;
  payload_type = type;
  extended_options_size = 0;
}

-- SetPayloadType. Its callers pass the upper half of a flag byte, so a number below 0 does not occur.
unfoldable pub set_payload_type : ℕ → Result PayloadType
unfolding type_of_code
set_payload_type type = if ltb 8 type then err invalid_argument else ok (type_of_code type)

unfoldable pub set_extended_options : Bool → Header → Header
set_extended_options extended h = record h { extended = extended }

unfoldable pub set_extended_options_data : Option (List ℕ) → ℕ → Header → Header
set_extended_options_data data_ size h = record h {
  extended_options = data_;
  extended_options_size = size;
}

-- SSUHeader::GetSize, a uint16_t.
unfoldable pub header_size : Header → ℕ
header_size h =
    (header_min
      + (if h.rekey then keying_material else 0)
      + (if h.extended then 1 + h.extended_options_size else 0))
    % 2 ^ 16

unfoldable pub parse_rekey : Bool → Method Input (Unit {0})
parse_rekey true = skip_bytes keying_material
parse_rekey false = pure tt

unfoldable pub parse_options : Bool → Method Input (Option (List ℕ) × ℕ)
parse_options true = do
  options_size ← read 1
  options ← read_bytes options_size
  pure (some options, options_size)
parse_options false = pure (none, 0)

unfoldable pub parse_header_fields : Method Input Header
parse_header_fields = do
  mac ← read_bytes mac_size
  iv ← read_bytes iv_size
  flag ← read 1
  type ← lift (set_payload_type (flag / 2 ^ 4))
  time ← read 4
  parse_rekey (bit 3 flag)
  (options, options_size) ← parse_options (bit 2 flag)
  pure (record {
    mac = some mac;
    iv = some iv;
    extended_options = options;
    rekey = bit 3 flag;
    extended = bit 2 flag;
    time = time;
    payload_type = type;
    extended_options_size = options_size;
  })

unfoldable pub parse_header : Method Input Header
parse_header s = if ltb (length s.rest) header_min then err length_error else parse_header_fields s

unfoldable pub write_mac : Option (List ℕ) → Method Output (Unit {0})
write_mac none = skip_output mac_size
write_mac (some mac) = write_data (some mac) mac_size false

unfoldable pub header_flag : Header → ℕ
header_flag h =
    (type_code h.payload_type * 2 ^ 4 + of_bool h.rekey * 2 ^ 3 + of_bool h.extended * 2 ^ 2)
    % 2 ^ 8

unfoldable pub write_options : Bool → Option (List ℕ) → ℕ → Method Output (Unit {0})
write_options true options size = do write 1 size; write_data options size false
write_options false options size = pure tt

unfoldable pub write_header : Header → Method Output (Unit {0})
unfolding write_mac header_flag write_options
write_header h = do
  write_mac h.mac
  write_data h.iv iv_size false
  write 1 (header_flag h)
  write 4 h.time
  write_options h.extended h.extended_options h.extended_options_size
