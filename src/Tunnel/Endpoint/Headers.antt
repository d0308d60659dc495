-- ===== src/Tunnel/Endpoint/Headers.antt =====
-- src/core/router/tunnel/endpoint.cc: the delivery instructions of a piece, as the endpoint reads them.
use mathlib.Core.List.{append_assoc}
use xi2p_old.Base.{
  ℕ, suc, ◌+◌, ◌*◌, ◌/◌, ◌%◌, ◌^◌, ◌<◌, ◌≡◌, ◌≢◌, refl, sym, ap, ◌∙◌, List, ◌∷◌, ◌++◌, length, take,
  drop, Bool, true, false, of_bool, bit, if◌then◌else◌, length-append, drop-append, take-append,
  take_all, arith,
}
use xi2p_old.ByteStream.{to_big, read_at, from_big}
use xi2p_old.ByteStream.Words.{from_big-to_big, length-to_big}
use xi2p_old.Tunnel.{
  DeliveryType, local, to_tunnel, to_router, unknown, type_code, type_of_code, Target,
}
use xi2p_old.Tunnel.Gateway.{address, instructions}
use xi2p_old.Tunnel.Pieces.{
  Piece, whole, begin, follow, head, data_of, IsTarget, Phase, Step, one_piece, starts, continues,
  ends, Out,
}
use xi2p_old.Tunnel.Endpoint.Received.{
  FragmentHeader, unset_hash, read_target, follow_on_header, first_header, read_header,
}

-- A target without the members that its type does not use.
unfoldable pub used : Target → Target
used t = elim t.delivery_type [
  | local ↦ record { delivery_type = local; hash = unset_hash; tunnel_id = 0 }
  | to_tunnel ↦ record { delivery_type = to_tunnel; hash = t.hash; tunnel_id = t.tunnel_id }
  | to_router ↦ record { delivery_type = to_router; hash = t.hash; tunnel_id = 0 }
  | unknown ↦ record { delivery_type = unknown; hash = unset_hash; tunnel_id = 0 }
]

-- A number of n bytes at the front of a byte string.
pub read_at-to_big : (n v : ℕ) (rest : List ℕ) → v < 256 ^ n → read_at n (to_big n v ++ rest) ≡ v
read_at-to_big n v rest h =
    ap (from_big 0) (take-append n (to_big n v) rest (length-to_big n v)) ∙ from_big-to_big n v h

pub read_at-append :
    (n : ℕ) (bs rest : List ℕ) → length bs ≡ n → read_at n (bs ++ rest) ≡ read_at n bs
read_at-append n bs rest h =
    ap (from_big 0) (take-append n bs rest h ∙ sym (take_all n bs (omega arith)))

abbrev target_of : DeliveryType → List ℕ → ℕ → Target
target_of k hash id = record { delivery_type = k; hash = hash; tunnel_id = id }

read_target-address :
    (k : DeliveryType) (hash : List ℕ) (id : ℕ) (rest : List ℕ)
    → IsTarget (target_of k hash id)
    → read_target k (address (target_of k hash id) ++ rest)
      ≡ (used (target_of k hash id), length (address (target_of k hash id)))
unfolding read_target address used
read_target-address local hash id rest h = refl
read_target-address to_tunnel hash id rest (h, l, b) =
    ap (λ v. (target_of to_tunnel (take 32 (hash ++ rest)) v, 36))
      (read_at-to_big 4 id (hash ++ rest) b)
    ∙ ap (λ xs. (target_of to_tunnel xs id, 36)) (take-append 32 hash rest l)
    ∙ ap (λ n. (target_of to_tunnel hash id, suc (suc (suc (suc n))))) (sym l)
read_target-address to_router hash id rest (h, l, b) =
    ap (λ xs. (target_of to_router xs 0, 32)) (take-append 32 hash rest l)
    ∙ ap (λ n. (target_of to_router hash 0, n)) (sym l)
read_target-address unknown hash id rest (h, l, b) = absurd (h refl)

-- The flag of delivery instructions has the type in it, and the fragmented bit.
abbrev flag_of : Bool → DeliveryType → ℕ
flag_of fragmented k = type_code k * 32 + of_bool fragmented * 8

read_header-first :
    (fragmented : Bool) (k : DeliveryType) (s : List ℕ)
    → k ≢ unknown
    → read_header (flag_of fragmented k ∷ s) ≡ first_header fragmented s (read_target k s)
unfolding read_header type_code type_of_code
read_header-first true local s h = refl
read_header-first true to_tunnel s h = refl
read_header-first true to_router s h = refl
read_header-first false local s h = refl
read_header-first false to_tunnel s h = refl
read_header-first false to_router s h = refl
read_header-first fragmented unknown s h = absurd (h refl)

-- What is read of a whole message, of a first fragment and of a follow-on fragment.
abbrev header_whole : Target → ℕ → ℕ → FragmentHeader
header_whole t len size = record {
  is_follow_on_fragment = false;
  is_last_fragment = true;
  msg_id = 0;
  fragment_num = 0;
  target = t;
  len = len;
  size = size;
}

abbrev header_begin : Target → ℕ → ℕ → ℕ → FragmentHeader
header_begin t msg_id len size = record {
  is_follow_on_fragment = false;
  is_last_fragment = false;
  msg_id = msg_id;
  fragment_num = 0;
  target = t;
  len = len;
  size = size;
}

abbrev header_follow : Bool → ℕ → ℕ → ℕ → ℕ → FragmentHeader
header_follow last msg_id n len size = record {
  is_follow_on_fragment = true;
  is_last_fragment = last;
  msg_id = msg_id;
  fragment_num = n;
  target = target_of local unset_hash 0;
  len = len;
  size = size;
}

unfoldable pub header_of : Piece → FragmentHeader
header_of (whole t d) = header_whole (used t) (length (head (whole t d))) (length d)
header_of (begin t id d) =
    header_begin (used t) (read_at 4 id) (length (head (begin t id d))) (length d)
header_of (follow id n last d) =
    header_follow last (read_at 4 id) n (length (head (follow id n last d))) (length d)

module _ (t : Target) (h : IsTarget t) where
  read_header-instructions :
      (fragmented : Bool) (s : List ℕ)
      → read_header (flag_of fragmented t.delivery_type ∷ (address t ++ s))
        ≡ first_header fragmented (address t ++ s) (used t, length (address t))
  read_header-instructions fragmented s =
      read_header-first fragmented t.delivery_type (address t ++ s) h.0
      ∙ ap (first_header fragmented (address t ++ s))
          (read_target-address t.delivery_type t.hash t.tunnel_id s h)

  read_header-whole :
      (d rest : List ℕ)
      → length d < 1004
      → read_header (head (whole t d) ++ rest) ≡ header_of (whole t d)
  unfolding head header_of instructions first_header
  read_header-whole d rest l =
      let s = to_big 2 (length d) ++ rest in
      ap (λ xs. read_header (flag_of false t.delivery_type ∷ xs))
        (append_assoc (address t) (to_big 2 (length d)) rest)
      ∙ read_header-instructions false s
      ∙ ap (λ xs. header_whole (used t) (1 + length (address t) + 0 + 2) (read_at 2 xs))
          (drop-append (length (address t)) (address t) s refl)
      ∙ ap (header_whole (used t) (1 + length (address t) + 0 + 2))
          (read_at-to_big 2 (length d) rest (omega arith))
      ∙ ap (λ n. header_whole (used t) n (length d))
          (omega (arith, length-append (address t) (to_big 2 (length d))))

  read_header-begin :
      (id d rest : List ℕ)
      → length id ≡ 4
      → length d < 1004
      → read_header (head (begin t id d) ++ rest) ≡ header_of (begin t id d)
  unfolding head header_of instructions first_header
  read_header-begin id d rest k l =
      let size = to_big 2 (length d) in
      let s = id ++ (size ++ rest) in
      let len = 1 + length (address t) + 4 + 2 in
      ap (λ xs. read_header (flag_of true t.delivery_type ∷ xs))
        (append_assoc (address t) (id ++ size) rest
          ∙ ap (λ xs. address t ++ xs) (append_assoc id size rest))
      ∙ read_header-instructions true s
      ∙ ap (λ xs. header_begin (used t) (read_at 4 xs) len (read_at 2 (drop 4 xs)))
          (drop-append (length (address t)) (address t) s refl)
      ∙ ap (λ n. header_begin (used t) n len (read_at 2 (drop 4 s)))
          (read_at-append 4 id (size ++ rest) k)
      ∙ ap (λ xs. header_begin (used t) (read_at 4 id) len (read_at 2 xs))
          (drop-append 4 id (size ++ rest) k)
      ∙ ap (header_begin (used t) (read_at 4 id) len)
          (read_at-to_big 2 (length d) rest (omega arith))
      ∙ ap (λ n. header_begin (used t) (read_at 4 id) n (length d))
          (omega (arith, length-append (address t) (id ++ size), length-append id size))

-- The flag of a follow-on fragment has its number, of six bits, and the last mark.
abbrev follow_flag : ℕ → Bool → ℕ
follow_flag n last = 128 + n * 2 % 128 + of_bool last

follow_flag-follow_on : (n : ℕ) (last : Bool) → bit 7 (follow_flag n last) ≡ true
follow_flag-follow_on n true = ground arith
follow_flag-follow_on n false = ground arith

follow_flag-last : (n : ℕ) (last : Bool) → bit 0 (follow_flag n last) ≡ last
follow_flag-last n true = ground arith
follow_flag-last n false = ground arith

follow_flag-num : (n : ℕ) (last : Bool) → n < 64 → follow_flag n last / 2 % 64 ≡ n
follow_flag-num n true h = omega arith
follow_flag-num n false h = omega arith

abbrev by_kind : List ℕ → ℕ → Bool → FragmentHeader
by_kind s flag follow_on =
    if follow_on
    then follow_on_header flag s
    else first_header (bit 3 flag) s (read_target (type_of_code (flag / 32 % 4)) s)

read_header-follow_on :
    (flag : ℕ) (s : List ℕ) → bit 7 flag ≡ true → read_header (flag ∷ s) ≡ follow_on_header flag s
unfolding read_header
read_header-follow_on flag s h =
    ap (λ x. by_kind s x (bit 7 x)) (omega arith) ∙ ap (by_kind s flag) h

read_header-follow :
    (id : List ℕ) (n : ℕ) (last : Bool) (d rest : List ℕ)
    → length id ≡ 4
    → n < 64
    → length d < 1004
    → read_header (head (follow id n last d) ++ rest) ≡ header_of (follow id n last d)
unfolding head header_of follow_on_header
read_header-follow id n last d rest k b l =
    let size = to_big 2 (length d) in
    let s = id ++ (size ++ rest) in
    ap (λ xs. read_header (follow_flag n last ∷ xs)) (append_assoc id size rest)
    ∙ read_header-follow_on (follow_flag n last) s (follow_flag-follow_on n last)
    ∙ ap (λ x. header_follow x (read_at 4 s) (follow_flag n last / 2 % 64) 7 (read_at 2 (drop 4 s)))
        (follow_flag-last n last)
    ∙ ap (λ x. header_follow last (read_at 4 s) x 7 (read_at 2 (drop 4 s)))
        (follow_flag-num n last b)
    ∙ ap (λ x. header_follow last x n 7 (read_at 2 (drop 4 s)))
        (read_at-append 4 id (size ++ rest) k)
    ∙ ap (λ xs. header_follow last (read_at 4 id) n 7 (read_at 2 xs))
        (drop-append 4 id (size ++ rest) k)
    ∙ ap (header_follow last (read_at 4 id) n 7) (read_at-to_big 2 (length d) rest (omega arith))
    ∙ ap (λ x. header_follow last (read_at 4 id) n x (length d))
        (omega (arith, length-append id size))

-- What the gateway writes before the data of a piece that can come next is read by the endpoint,
-- whatever follows, as the kind of the piece, its message id, number and last mark, the members of
-- its target that its type uses, the number of bytes read and the size of the data.
pub read_header-head :
    {p q : Phase} {x : Piece} {o : List Out} (rest : List ℕ)
    → Step p x q o
    → read_header (head x ++ rest) ≡ header_of x
read_header-head rest (one_piece t d h l) = read_header-whole t h d rest l
read_header-head rest (starts t id d h k z l) = read_header-begin t h id d rest k l
read_header-head rest (continues t id acc d n k z b l m) =
    read_header-follow id n false d rest k b l
read_header-head rest (ends t id acc d n k z b l m) = read_header-follow id n true d rest k b l

-- What is read has the lengths of the two parts of the piece.
pub len-header_of : (x : Piece) → (header_of x).len ≡ length (head x)
unfolding header_of head
len-header_of (whole t d) = refl
len-header_of (begin t id d) = refl
len-header_of (follow id n last d) = refl

pub size-header_of : (x : Piece) → (header_of x).size ≡ length (data_of x)
unfolding header_of data_of
size-header_of (whole t d) = refl
size-header_of (begin t id d) = refl
size-header_of (follow id n last d) = refl
