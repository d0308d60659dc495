-- ===== src/Ssu/RoundTrip/Sessions.antt =====
-- SessionRequest and SessionCreated packets: WriteHeader and WritePacket against ParsePacket.
use mathlib.Core.List.{append-nil}
use xi2p_old.Base.{
  drop, ℕ, ◌+◌, ◌-◌, ◌^◌, ◌≤◌, ◌<◌, ◌≡◌, ◌⊎◌, refl, ◌∙◌, List, [], ◌++◌, Option, some, length, ok,
  ◌>>=◌, pure, arith, length-append,
}
use xi2p_old.ByteStream.{Output, to_big}
use xi2p_old.ByteStream.Codec.{
  Writes, Reads, Writes-seq, Reads-bind, Reads-pure, Reads-last, Reads-step, Reads-step_check,
  Reads-check, Reads-lift, Reads-read_bytes, Reads-read, Writes-data, Writes-write,
}
use xi2p_old.Ssu.Header.{PayloadType, header_size, dh_public}
use xi2p_old.Ssu.Packet.{
  Payload, SessionRequest, SessionCreated, session_request_size, session_created_size,
  check_ip_size,
}
use xi2p_old.Ssu.Parser.{
  parse_packet, parse_payload, left, parse_session_request, parse_session_created,
}
use xi2p_old.Ssu.Builder.{write_packet, write_payload, write_session_request, write_session_created}
use xi2p_old.Ssu.RoundTrip.HeaderCodec.{session_header, mac_bytes}
use xi2p_old.Ssu.RoundTrip.Messages.{HeaderFits, packet_round_trip}

-- An IPv4 or an IPv6 address.
abbrev pub IsAddress : List ℕ → Type 0
IsAddress a = (length a ≡ 4) ⊎ (length a ≡ 16)

address_checked : (a : List ℕ) → IsAddress a → check_ip_size (length a) ≡ ok tt
unfolding check_ip_size
address_checked a h = ground arith

abbrev pub request : List ℕ → List ℕ → SessionRequest
request dh address = record { dh_x = dh; ip_address = address; ip_address_size = length address }

module _ (dh address : List ℕ) (hd : length dh ≡ dh_public) (ha : IsAddress address) where
  request_bytes : List ℕ
  request_bytes = dh ++ (to_big 1 (length address) ++ address)

  Writes-request : Writes (write_session_request (request dh address)) request_bytes
  unfolding write_session_request request_bytes
  Writes-request =
      Writes-seq (Writes-data dh (omega arith) hd)
        (Writes-seq (Writes-write 1 _ (omega arith)) (Writes-data address (omega arith) refl))

  Reads-request :
      Reads parse_session_request request_bytes (Payload.session_request (request dh address))
  unfolding parse_session_request request_bytes
  Reads-request = Reads-bind _ (Reads-read_bytes dh (omega arith) hd) (
      Reads-bind _ (Reads-read 1 (length address) (omega arith) (omega arith)) (
        Reads-last _ (Reads-read_bytes address (omega arith) refl)
          (Reads-check (Reads-lift (address_checked address ha)) (Reads-pure _))))

  length-request_bytes : length request_bytes ≡ dh_public + 1 + length address
  unfolding request_bytes
  length-request_bytes = omega (arith, length-append dh (to_big 1 (length address) ++ address))

-- A written SessionRequest, header and body, is read back whole, whatever follows it; it takes
-- GetSize bytes. Its raw data are the bytes behind the header.
pub parse_packet-session_request :
    (mac : Option (List ℕ)) (iv : List ℕ) (time : ℕ) (options : Option (List ℕ))
    (dh address : List ℕ) (rand : ℕ → List ℕ) (o : Output) (rest : List ℕ) (c : ℕ)
    → HeaderFits mac iv PayloadType.session_request time options
    → length dh ≡ dh_public
    → IsAddress address
    → session_request_size
        (session_header mac iv PayloadType.session_request time options)
        (request dh address)
      ≤ o.remaining
    → let h = session_header mac iv PayloadType.session_request time options in
      let payload = Payload.session_request (request dh address) in
      (bs : List ℕ) × (length bs ≡ session_request_size h (request dh address))
      × (write_packet rand (record { header = h; raw_data = []; payload = payload }) o
          ≡ ok (tt, record { written = o.written ++ bs; remaining = o.remaining - length bs }))
      × (parse_packet (record { rest = bs ++ rest; counter = c })
          ≡ ok (
            record {
              header =
                  session_header (some (mac_bytes mac)) iv PayloadType.session_request time options;
              raw_data = drop (header_size h) (bs ++ rest);
              payload = payload;
            },
            record { rest = rest; counter = c + length bs },
          ))
unfolding write_payload parse_payload session_request_size
parse_packet-session_request mac iv time options dh address rand o rest c f hd ha room =
    let h = session_header mac iv PayloadType.session_request time options in
    let body : List ℕ = request_bytes dh address hd ha in
    let e = length-request_bytes dh address hd ha in
    let (bs, l, w, p) =
      packet_round_trip mac iv PayloadType.session_request time options rand
        (Payload.session_request (request dh address)) body rest rest o c
        (c + header_size h + length body) f (Writes-request dh address hd ha)
        ((Reads-request dh address hd ha).on rest _) (omega (arith, e)) in
    let q : c + header_size h + length body ≡ c + length bs = omega (arith, l) in
    (bs, omega (arith, l, e), w, rw q at p)

abbrev pub created : List ℕ → List ℕ → ℕ → ℕ → ℕ → List ℕ → SessionCreated
created dh address port relay_tag signed_on_time signature = record {
  dh_y = dh;
  ip_address = address;
  address_size = length address;
  port = port;
  relay_tag = relay_tag;
  signed_on_time = signed_on_time;
  signature = signature;
  signature_size = length signature;
}

left-pure :
    {A : Type 0} (f : List ℕ → A) (r : List ℕ) (c d : ℕ)
    → c ≡ d
    → (left >>= λ s. pure (f s)) (record { rest = r; counter = c })
      ≡ ok (f r, record { rest = r; counter = d })
unfolding ◌>>=◌ pure
left-pure f r c d e = ground arith

module _ (dh address : List ℕ) (port relay_tag signed_on_time : ℕ) (signature : List ℕ)
    (hd : length dh ≡ dh_public) (ha : IsAddress address) (hp : port < 2 ^ 16)
    (hr : relay_tag < 2 ^ 32) (ht : signed_on_time < 2 ^ 32) (hs : 0 < length signature) where
  abbrev packet : SessionCreated
  packet = created dh address port relay_tag signed_on_time signature

  created_bytes : List ℕ
  created_bytes =
      dh
      ++ (to_big 1 (length address)
          ++ (address
              ++ (to_big 2 port ++ (to_big 4 relay_tag ++ (to_big 4 signed_on_time ++ signature)))))

  Writes-created : Writes (write_session_created packet) created_bytes
  unfolding write_session_created created_bytes
  Writes-created = Writes-seq (Writes-data dh (omega arith) hd) (
      Writes-seq (Writes-write 1 _ (omega arith)) (
        Writes-seq (Writes-data address (omega arith) refl) (
          Writes-seq (Writes-write 2 _ (omega arith)) (
            Writes-seq (Writes-write 4 _ (omega arith))
              (Writes-seq (Writes-write 4 _ (omega arith)) (Writes-data signature hs refl))))))

  length-created_bytes :
      length created_bytes ≡ dh_public + 1 + length address + 2 + 4 + 4 + length signature
  unfolding created_bytes
  length-created_bytes = omega (
    arith,
    length-append dh (
        to_big 1 (length address)
        ++ (address
            ++ (to_big 2 port ++ (to_big 4 relay_tag ++ (to_big 4 signed_on_time ++ signature))))),
    length-append address
        (to_big 2 port ++ (to_big 4 relay_tag ++ (to_big 4 signed_on_time ++ signature))),
  )

  -- The signature is whatever is left, so the packet is read at the end of its buffer.
  Reads-created :
      (c : ℕ)
      → parse_session_created (record { rest = created_bytes; counter = c })
        ≡ ok (
          Payload.session_created packet,
          record { rest = signature; counter = c + (dh_public + 1 + length address + 2 + 4 + 4) },
        )
  unfolding parse_session_created created_bytes
  Reads-created c =
      Reads-step _ (Reads-read_bytes dh (omega arith) hd) _ c
      ∙ Reads-step _ (Reads-read 1 (length address) (omega arith) (omega arith)) _ _
      ∙ Reads-step _ (Reads-read_bytes address (omega arith) refl) _ _
      ∙ Reads-step_check _ (Reads-lift (address_checked address ha)) _ _
      ∙ Reads-step _ (Reads-read 2 port (omega arith) hp) _ _
      ∙ Reads-step _ (Reads-read 4 relay_tag (omega arith) hr) _ _
      ∙ Reads-step _ (Reads-read 4 signed_on_time (omega arith) ht) _ _
      ∙ left-pure _ signature _ _ (omega arith)

-- A written SessionCreated at the end of its buffer is read back whole: its signature is all that
-- follows the signed-on time. It takes GetSize bytes.
pub parse_packet-session_created :
    (mac : Option (List ℕ)) (iv : List ℕ) (time : ℕ) (options : Option (List ℕ))
    (dh address : List ℕ) (port relay_tag signed_on_time : ℕ) (signature : List ℕ)
    (rand : ℕ → List ℕ) (o : Output) (c : ℕ)
    → HeaderFits mac iv PayloadType.session_created time options
    → length dh ≡ dh_public
    → IsAddress address
    → port < 2 ^ 16
    → relay_tag < 2 ^ 32
    → signed_on_time < 2 ^ 32
    → 0 < length signature
    → session_created_size
        (session_header mac iv PayloadType.session_created time options)
        (created dh address port relay_tag signed_on_time signature)
      ≤ o.remaining
    → let h = session_header mac iv PayloadType.session_created time options in
      let packet = created dh address port relay_tag signed_on_time signature in
      let payload = Payload.session_created packet in
      (bs : List ℕ) × (length bs ≡ session_created_size h packet)
      × (write_packet rand (record { header = h; raw_data = []; payload = payload }) o
          ≡ ok (tt, record { written = o.written ++ bs; remaining = o.remaining - length bs }))
      × (parse_packet (record { rest = bs; counter = c })
          ≡ ok (
            record {
              header =
                  session_header (some (mac_bytes mac)) iv PayloadType.session_created time options;
              raw_data = drop (header_size h) bs;
              payload = payload;
            },
            record { rest = signature; counter = c + (length bs - length signature) },
          ))
unfolding write_payload parse_payload session_created_size
parse_packet-session_created mac iv time options dh address port tag at sig rand o c f hd ha hp hr
      ht hs room =
    let h = session_header mac iv PayloadType.session_created time options in
    let body : List ℕ = created_bytes dh address port tag at sig hd ha hp hr ht hs in
    let e = length-created_bytes dh address port tag at sig hd ha hp hr ht hs in
    let (bs, l, w, p) =
      packet_round_trip mac iv PayloadType.session_created time options rand
        (Payload.session_created (created dh address port tag at sig)) body [] sig o c
        (c + header_size h + (dh_public + 1 + length address + 2 + 4 + 4)) f
        (Writes-created dh address port tag at sig hd ha hp hr ht hs)
        (rw append-nil (Reads-created dh address port tag at sig hd ha hp hr ht hs _))
        (omega (arith, e)) in
    let q : c + header_size h + (dh_public + 1 + length address + 2 + 4 + 4)
        ≡ c + (length bs - length sig) =
      omega (arith, l, e) in
    (bs, omega (arith, l, e), w, rw q at (rw append-nil at p))
