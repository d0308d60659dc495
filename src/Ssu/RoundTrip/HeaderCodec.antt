-- ===== src/Ssu/RoundTrip/HeaderCodec.antt =====
-- The header: WriteHeader and ParseHeader.
use xi2p_old.Base.{
  ℕ, ◌/◌, ◌^◌, ◌<◌, ◌≡◌, ◌≢◌, refl, List, [], ◌++◌, Bool, true, false, Option, none, some, length,
  replicate, ok, arith, bit,
}
use xi2p_old.ByteStream.{to_big}
use xi2p_old.ByteStream.Codec.{
  Writes, Reads, Writes-seq, Reads-bind, Reads-pure, Reads-last, Reads-silent, Reads-check,
  Reads-return, Reads-lift, Writes-nil, Reads-read_bytes, Reads-read, Writes-data, Writes-write,
  Writes-skip,
}
use xi2p_old.Ssu.Header.{
  Header, PayloadType, mac_size, iv_size, unknown, new_header, set_extended_options,
  set_extended_options_data, header_flag, write_header, parse_header_fields, type_code, write_mac,
  write_options, parse_options, parse_rekey, set_payload_type,
}

-- A header as the sessions make it: over a MAC or none, and with options or none.
unfoldable pub with_options : Option (List ℕ) → Header → Header
with_options none h = h
with_options (some options) h =
    set_extended_options_data (some options) (length options) (set_extended_options true h)

unfoldable pub session_header :
    Option (List ℕ) → List ℕ → PayloadType → ℕ → Option (List ℕ) → Header
unfolding with_options new_header set_extended_options_data set_extended_options
session_header mac iv type time options = with_options options (new_header type mac (some iv) time)

abbrev pub OptionsFit : Option (List ℕ) → Type 0
OptionsFit none = Unit
OptionsFit (some options) = (0 < length options) × (length options < 256)

abbrev pub mac_bytes : Option (List ℕ) → List ℕ
mac_bytes none = replicate mac_size 0
mac_bytes (some mac) = mac

abbrev pub options_bytes : Option (List ℕ) → List ℕ
options_bytes none = []
options_bytes (some options) = to_big 1 (length options) ++ options

abbrev is_some : Option (List ℕ) → Bool
is_some none = false
is_some (some options) = true

abbrev options_len : Option (List ℕ) → ℕ
options_len none = 0
options_len (some options) = length options

unfoldable pub header_bytes : ℕ → List ℕ → List ℕ → ℕ → Option (List ℕ) → List ℕ
header_bytes flag mac iv time options =
    mac ++ (iv ++ (to_big 1 flag ++ (to_big 4 time ++ options_bytes options)))

Writes-mac :
    (mac : Option (List ℕ))
    → length (mac_bytes mac) ≡ mac_size
    → Writes (write_mac mac) (mac_bytes mac)
unfolding write_mac
Writes-mac none h = Writes-skip mac_size (omega arith)
Writes-mac (some mac) h = Writes-data mac (omega arith) h

Writes-front :
    (h : Header) (mac : Option (List ℕ)) (iv : List ℕ) (options : Option (List ℕ))
    → h.mac ≡ mac
    → h.iv ≡ some iv
    → length (mac_bytes mac) ≡ mac_size
    → length iv ≡ iv_size
    → Writes
        (write_options h.extended h.extended_options h.extended_options_size)
        (options_bytes options)
    → Writes (write_header h) (header_bytes (header_flag h) (mac_bytes mac) iv h.time options)
unfolding write_header header_bytes
Writes-front h mac iv options em ei hm hi ho =
    rw (em, ei)
      (Writes-seq (Writes-mac mac hm) (
        Writes-seq (Writes-data iv (omega arith) hi) (
          Writes-seq (Writes-write 1 _ (omega arith))
            (Writes-seq (Writes-write 4 _ (omega arith)) ho))))

module _ (mac : Option (List ℕ)) (iv : List ℕ) (type : PayloadType) (time : ℕ)
    (options : Option (List ℕ)) where
  abbrev pub wire_bytes : List ℕ
  wire_bytes =
      header_bytes (header_flag (session_header mac iv type time options)) (mac_bytes mac) iv time
        options

pub Writes-header :
    (mac : Option (List ℕ)) (iv : List ℕ) (type : PayloadType) (time : ℕ)
    (options : Option (List ℕ))
    → length (mac_bytes mac) ≡ mac_size
    → length iv ≡ iv_size
    → OptionsFit options
    → Writes
        (write_header (session_header mac iv type time options))
        (wire_bytes mac iv type time options)
unfolding session_header write_options
Writes-header mac iv type time none hm hi ho = Writes-front _ mac iv none refl refl hm hi Writes-nil
Writes-header mac iv type time (some options) hm hi ho =
    Writes-front _ mac iv (some options) refl refl hm hi
      (Writes-seq (Writes-write 1 (length options) (omega arith)) (Writes-data options ho.0 refl))

type-type_code : (type : PayloadType) → type ≢ unknown → set_payload_type (type_code type) ≡ ok type
unfolding set_payload_type type_code
type-type_code type h = ground arith

header_flag_parts :
    (mac : Option (List ℕ)) (iv : List ℕ) (type : PayloadType) (time : ℕ)
    (options : Option (List ℕ))
    → let flag = header_flag (session_header mac iv type time options) in
      (flag / 2 ^ 4 ≡ type_code type)
      × (bit 3 flag ≡ false)
      × (bit 2 flag ≡ is_some options)
      × (flag < 256)
unfolding header_flag session_header type_code
header_flag_parts mac iv type time none = ground arith
header_flag_parts mac iv type time (some o) = ground arith

Reads-options :
    (options : Option (List ℕ)) (b : Bool)
    → b ≡ is_some options
    → OptionsFit options
    → Reads (parse_options b) (options_bytes options) (options, options_len options)
unfolding parse_options
Reads-options none b e h = rw e (Reads-pure _)
Reads-options (some options) b e h = rw e (
    Reads-bind _ (Reads-read 1 (length options) (omega arith) (omega arith))
      (Reads-last _ (Reads-read_bytes options h.0 refl) (Reads-pure _)))

Reads-no_rekey : (b : Bool) → b ≡ false → Reads (parse_rekey b) [] tt
unfolding parse_rekey
Reads-no_rekey b e = rw e (Reads-pure tt)

-- The record that ParseHeader fills is the one that was written, over the MAC's bytes.
parsed :
    (mac : Option (List ℕ)) (iv : List ℕ) (type : PayloadType) (time : ℕ)
    (options : Option (List ℕ))
    → {b c : Bool} → b ≡ false
    → c ≡ is_some options
    → ◌≡◌ {A = Header}
        (record {
          mac = some (mac_bytes mac);
          iv = some iv;
          extended_options = options;
          rekey = b;
          extended = c;
          time = time;
          payload_type = type;
          extended_options_size = options_len options;
        })
        (session_header (some (mac_bytes mac)) iv type time options)
unfolding session_header
parsed mac iv type time none eb ec = ground arith
parsed mac iv type time (some o) eb ec = ground arith

pub Reads-header :
    (mac : Option (List ℕ)) (iv : List ℕ) (type : PayloadType) (time : ℕ)
    (options : Option (List ℕ))
    → length (mac_bytes mac) ≡ mac_size
    → length iv ≡ iv_size
    → type ≢ unknown
    → time < 2 ^ 32
    → OptionsFit options
    → Reads parse_header_fields
        (wire_bytes mac iv type time options)
        (session_header (some (mac_bytes mac)) iv type time options)
unfolding parse_header_fields header_bytes
Reads-header mac iv type time options hm hi ht hq ho =
    let (fc, f3, f2, fl) = header_flag_parts mac iv type time options in
    Reads-bind _ (Reads-read_bytes (mac_bytes mac) (omega arith) hm) (
      Reads-bind _ (Reads-read_bytes iv (omega arith) hi) (
        Reads-bind _ (Reads-read 1 _ (omega arith) fl) (
          Reads-silent _ (Reads-lift (rw fc (type-type_code type ht))) (
            Reads-bind _ (Reads-read 4 _ (omega arith) hq) (
              Reads-check (Reads-no_rekey _ f3) (
                Reads-last _ (Reads-options options _ f2 ho)
                  (Reads-return (parsed mac iv type time options f3 f2))))))))
