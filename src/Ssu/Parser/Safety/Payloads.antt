-- ===== src/Ssu/Parser/Safety/Payloads.antt =====
-- src/core/router/transports/ssu/packet.cc: the other payloads, the header and whole packets on any
-- bytes.
use xi2p_old.Base.{
  ℕ, ◌/◌, ◌^◌, ◌≢◌, ◌≡◌, ◌<◌, ◌≤◌, ◌⊎◌, length_error, refl, Bool, true, false, List, length, ltb,
  bit, Result, ok, err, fault, Method, ◌>>=◌, ◌>>◌, throw, lift, arith, Bool-cases, inl, inr,
}
use xi2p_old.ByteStream.{Input, read_bytes, read}
use xi2p_old.Ssu.Header.{
  Header, PayloadType, keying_material, set_payload_type, parse_rekey, parse_options,
  parse_header_fields, parse_header,
}
use xi2p_old.Ssu.Packet.{check_ip_size, check_optional_ipv4_size, check_ipv4_size}
use xi2p_old.Ssu.Parser.{
  left, parse_session_request, parse_session_created, parse_relay_request, parse_relay_response,
  parse_relay_intro, parse_peer_test, parse_payload,
}
use xi2p_old.Ssu.Parser.Safety.{
  Safe, >>=-Safe, >>-Safe, read-Safe, read_bytes-Safe, skip_bytes-Safe, pure-Safe, left-Safe,
  parse_data-no_fault,
}

module _ {B : Type 0} where
  read_first :
      (n : ℕ) (f : ℕ → Method Input B) (s : Input)
      → ((a : ℕ) (t : Input) → Safe (f a) t)
      → Safe (read n >>= f) s
  read_first n f s h = >>=-Safe (read n) f s (read-Safe n s) (λ a t _. h a t)

  bytes_first :
      (n : ℕ) (f : List ℕ → Method Input B) (s : Input)
      → ((a : List ℕ) (t : Input) → Safe (f a) t)
      → Safe (read_bytes n >>= f) s
  bytes_first n f s h = >>=-Safe (read_bytes n) f s (read_bytes-Safe n s) (λ a t _. h a t)

  left_first :
      (f : List ℕ → Method Input B) (s : Input)
      → ((a : List ℕ) (t : Input) → Safe (f a) t)
      → Safe (left >>= f) s
  left_first f s h = >>=-Safe left f s (left-Safe s) (λ a t _. h a t)

lift-Safe : {A : Type 0} (r : Result A) (s : Input) → r ≢ err fault → Safe (lift r) s
unfolding lift
lift-Safe (ok a) s h = λ q. cc
lift-Safe (err e) s h = λ q. ground (arith, h, q)

check_first :
    {B : Type 0} (r : Result (Unit {0})) (k : Method Input B) (s : Input)
    → r ≢ err fault
    → ((t : Input) → Safe k t)
    → Safe (lift r >> k) s
check_first r k s h g = >>-Safe (lift r) k s (lift-Safe r s h) g

ip_size_checked : (n : ℕ) → check_ip_size n ≢ err fault
unfolding check_ip_size
ip_size_checked n = ground arith

optional_size_checked : (n : ℕ) → check_optional_ipv4_size n ≢ err fault
unfolding check_optional_ipv4_size
optional_size_checked n = ground arith

ipv4_size_checked : (n : ℕ) → check_ipv4_size n ≢ err fault
unfolding check_ipv4_size
ipv4_size_checked n = ground arith

type_checked : (n : ℕ) → set_payload_type n ≢ err fault
unfolding set_payload_type
type_checked n = ground arith

session_request-Safe : (s : Input) → Safe parse_session_request s
unfolding parse_session_request
session_request-Safe s = bytes_first _ _ s λ dh t.
    read_first _ _ t
      λ n u. bytes_first _ _ u λ address v. check_first _ _ v (ip_size_checked n) λ w. pure-Safe _ w

session_created-Safe : (s : Input) → Safe parse_session_created s
unfolding parse_session_created
session_created-Safe s = bytes_first _ _ s λ dh t. read_first _ _ t λ n u.
    bytes_first _ _ u λ address v. check_first _ _ v (ip_size_checked n) λ w.
      read_first _ _ w λ port x.
        read_first _ _ x
          λ tag y. read_first _ _ y λ time z. left_first _ z λ signature o. pure-Safe _ o

relay_request-Safe : (s : Input) → Safe parse_relay_request s
unfolding parse_relay_request
relay_request-Safe s = read_first _ _ s λ tag t. read_first _ _ t λ n u.
    bytes_first _ _ u λ address v. check_first _ _ v (optional_size_checked n) λ w.
      read_first _ _ w λ port x. read_first _ _ x λ m y.
        bytes_first _ _ y
          λ challenge z. bytes_first _ _ z λ key o. read_first _ _ o λ nonce p. pure-Safe _ p

relay_response-Safe : (s : Input) → Safe parse_relay_response s
unfolding parse_relay_response
relay_response-Safe s = read_first _ _ s λ n t. bytes_first _ _ t λ charlie u.
    check_first _ _ u (ipv4_size_checked n) λ v. read_first _ _ v λ port w. read_first _ _ w λ m x.
      bytes_first _ _ x λ alice y.
        check_first _ _ y (ip_size_checked m)
          λ z. read_first _ _ z λ port_alice o. read_first _ _ o λ nonce p. pure-Safe _ p

relay_intro-Safe : (s : Input) → Safe parse_relay_intro s
unfolding parse_relay_intro
relay_intro-Safe s = read_first _ _ s λ n t. bytes_first _ _ t λ address u.
    check_first _ _ u (ipv4_size_checked n) λ v.
      read_first _ _ v
        λ port w. read_first _ _ w λ m x. bytes_first _ _ x λ challenge y. pure-Safe _ y

peer_test-Safe : (s : Input) → Safe parse_peer_test s
unfolding parse_peer_test
peer_test-Safe s = read_first _ _ s λ nonce t. read_first _ _ t λ n u.
    bytes_first _ _ u λ address v.
      check_first _ _ v (ip_size_checked n)
        λ w. read_first _ _ w λ port x. bytes_first _ _ x λ key y. pure-Safe _ y

rekey-Safe : (c : Bool) (s : Input) → Safe (parse_rekey c) s
unfolding parse_rekey
rekey-Safe true s = skip_bytes-Safe keying_material s
rekey-Safe false s = pure-Safe tt s

options-Safe : (c : Bool) (s : Input) → Safe (parse_options c) s
unfolding parse_options
options-Safe true s = read_first _ _ s λ n t. bytes_first _ _ t λ options u. pure-Safe _ u
options-Safe false s = pure-Safe _ s

fields-Safe : (s : Input) → Safe parse_header_fields s
unfolding parse_header_fields
fields-Safe s = bytes_first _ _ s λ mac t. bytes_first _ _ t λ iv u. read_first _ _ u λ flag v.
    >>=-Safe _ _ v (lift-Safe _ v (type_checked (flag / 2 ^ 4))) λ type w _.
      read_first _ _ w λ time x.
        >>-Safe _ _ x (rekey-Safe (bit 3 flag) x)
          λ y. >>=-Safe _ _ y (options-Safe (bit 2 flag) y) λ options z _. pure-Safe _ z

-- Whatever bytes a packet begins with: where they are fewer than 37, the parser of headers throws a
-- length error, and where they are 37 or more, it reads none behind their end, so that it gives a
-- header, or throws.
pub parse_header-no_fault :
    (s : Input)
    → ((length s.rest < 37) × (parse_header s ≡ err length_error))
      ⊎ ((37 ≤ length s.rest) × (parse_header s ≢ err fault))
unfolding parse_header
parse_header-no_fault s = elim (Bool-cases (ltb (length s.rest) 37)) [
  | inl t ↦ inl (ground (arith, t), ground arith)
  | inr f ↦ let h = fields-Safe s in inr (ground (arith, f), ground (arith, h))
]

-- Whatever bytes follow a header, the parser of its payload reads none behind their end, for every
-- type but SessionConfirmed: it gives a payload, or throws.
pub parse_payload-no_fault :
    (h : Header) (type : PayloadType) (s : Input)
    → type ≢ PayloadType.session_confirmed
    → parse_payload h type s ≢ err fault
unfolding parse_payload throw
parse_payload-no_fault h PayloadType.session_request s p = session_request-Safe s
parse_payload-no_fault h PayloadType.session_created s p = session_created-Safe s
parse_payload-no_fault h PayloadType.session_confirmed s p = absurd (p refl)
parse_payload-no_fault h PayloadType.relay_request s p = relay_request-Safe s
parse_payload-no_fault h PayloadType.relay_response s p = relay_response-Safe s
parse_payload-no_fault h PayloadType.relay_intro s p = relay_intro-Safe s
parse_payload-no_fault h PayloadType.data_message s p = parse_data-no_fault s
parse_payload-no_fault h PayloadType.peer_test s p = peer_test-Safe s
parse_payload-no_fault h PayloadType.session_destroyed s p = pure-Safe _ s
parse_payload-no_fault h PayloadType.unknown s p = λ q. cc
