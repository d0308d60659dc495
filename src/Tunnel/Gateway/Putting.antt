-- ===== src/Tunnel/Gateway/Putting.antt =====
-- src/core/router/tunnel/gateway.cc: PutI2NPMsg, and the pieces that it puts.
use mathlib.Core.Path.{subst}
use mathlib.Core.List.{append_assoc}
use xi2p_old.Base.{
  ℕ, zero, suc, ◌+◌, ◌-◌, ◌≤◌, ◌<◌, ◌≡◌, ◌≢◌, refl, sym, ap, ◌∙◌, none, some, List, [], ◌∷◌, ◌++◌,
  length, take, drop, replicate, length-append, length-take, length-drop, length-replicate,
  take-append-drop, arith,
}
use xi2p_old.ByteStream.{to_big, read_at}
use xi2p_old.I2np.{Message, get_length, get_buffer, first}
use xi2p_old.Tunnel.{
  Crypto, Target, TunnelMessageBlock, DeliveryType, local, to_tunnel, to_router, unknown,
}
use xi2p_old.Tunnel.Gateway.{
  GatewayBuffer, append_current, complete_current, consume, follow_on_fragments, address,
  instructions, message_id, put_whole, put_fragments,
}
use xi2p_old.Tunnel.Gateway.Groups.{Packs, Packs-append}
use xi2p_old.Tunnel.Gateway.Packing.{fill_and_complete, fill_and_consume, length-snoc}
use xi2p_old.Tunnel.Gateway.FollowOn.{follow_on_fragments-FollowsOn}
use xi2p_old.Tunnel.Pieces.{
  Piece, whole, begin, encode, encode_all, head, data_of, IsTarget, idle, one_piece, starts, Run,
  stop, step,
}

-- A message to a known kind of target, shorter than the largest message, with a message id.
abbrev pub IsBlock : TunnelMessageBlock → Type 0
IsBlock block =
    IsTarget block.target
    × (2 + get_length block.data_ < 32768)
    × (read_at 4 (message_id block.data_) ≢ 0)

-- The bytes that a message takes in one piece.
abbrev pub full_len : TunnelMessageBlock → ℕ
full_len block = length (instructions 0 block.target) + get_length block.data_ + 2

pub get_length-get_buffer : (m : Message) → length (get_buffer m) ≡ get_length m
unfolding get_buffer get_length
get_length-get_buffer m = length-drop m.offset m.bytes

length-message_id : (m : Message) → length (message_id m) ≡ 4
unfolding message_id
length-message_id m =
    let array = get_buffer m ++ replicate 5 0 in
    omega (
      arith,
      length-take 4 (drop 1 (take 5 array)),
      length-drop 1 (take 5 array),
      length-take 5 array,
      length-append (get_buffer m) (replicate 5 0),
    )

length-address :
    (k : DeliveryType) (hash : List ℕ) (id : ℕ)
    → length hash ≡ 32
    → length (address (record { delivery_type = k; hash = hash; tunnel_id = id })) ≤ 36
unfolding address
length-address local hash id h = omega arith
length-address to_tunnel hash id h = omega (arith, length-append (to_big 4 id) hash)
length-address to_router hash id h = omega arith
length-address unknown hash id h = omega arith

pub length-instructions : (extra : ℕ) (t : Target) → IsTarget t → length (instructions extra t) ≤ 37
unfolding instructions
length-instructions extra t (h, k, l) =
    omega (arith, length-address t.delivery_type t.hash t.tunnel_id k)

pub same_length : (t : Target) → length (instructions 8 t) ≡ length (instructions 0 t)
unfolding instructions
same_length t = refl

take_front : (n : ℕ) (xs ys : List ℕ) → n ≤ length xs → take n (xs ++ ys) ≡ take n xs
take_front zero xs ys h = refl
take_front (suc n) [] ys h = absurd (omega arith)
take_front (suc n) (x ∷ xs) ys h = ap (◌∷◌ x) (take_front n xs ys (omega arith))

-- The pieces that are put for a block, all of it.
pub record Puts (c : Crypto) (block : TunnelMessageBlock) (b b' : GatewayBuffer) (cur : List Piece)
    : Type 0 where
  pub put : List Piece
  pub packs : Packs c b b' cur put
  pub run : Run idle put idle ((block.target, get_buffer block.data_) ∷ [])

-- A message that is being filled with the pieces `cur`.
abbrev pub Filling : GatewayBuffer → List Piece → Type 0
Filling b cur =
    (b.current ≡ some (encode_all cur)) × (length (encode_all cur) + b.remaining_size ≡ 1003)

module _ (c : Crypto) (block : TunnelMessageBlock) (valid : IsBlock block) (b : GatewayBuffer)
    (cur : List Piece) (fill : Filling b cur) where
  abbrev pub data_ : List ℕ
  data_ = get_buffer block.data_

  abbrev pub len : ℕ
  len = get_length block.data_

  pub put_whole-Puts :
      full_len block ≤ b.remaining_size
      → (b' : GatewayBuffer) × (put_whole c block b ≡ b') × Puts c block b b' cur
  unfolding put_whole encode head data_of
  put_whole-Puts h =
      let di = instructions 0 block.target in
      let size = get_length-get_buffer block.data_ in
      let x = whole block.target data_ in
      let bytes : di ++ (to_big 2 len ++ data_) ≡ encode x =
        ap (λ n. di ++ (to_big 2 n ++ data_)) (sym size)
        ∙ sym (append_assoc di (to_big 2 (length data_)) data_) in
      let (b', e, p) =
        fill_and_consume c b cur x (length di + 2 + len) fill.0 fill.1
          (omega (
            arith,
            size,
            length-append (di ++ to_big 2 (length data_)) data_,
            length-append di (to_big 2 (length data_)),
          ))
          (omega arith) in
      (
        b',
        ap (λ y. consume c (length di + 2 + len) (append_current y b)) bytes ∙ e,
        record {
          put = x ∷ [];
          packs = p;
          run = step (one_piece block.target data_ valid.0 (omega (arith, size))) stop;
        },
      )

  abbrev pub size : ℕ
  size = b.remaining_size - length (instructions 8 block.target) - 6

  abbrev pub front : List ℕ
  front = first size (record block.data_ { bytes = data_ })

  pub length-front : length front ≡ size
  length-front = omega (
    arith,
    length-take size (data_ ++ replicate size 0),
    length-append data_ (replicate size 0),
    length-replicate {A = ℕ} size 0,
  )

  abbrev pub first_piece : Piece
  first_piece = begin block.target (message_id block.data_) front

  first_fragment :
      instructions 8 block.target ++ (message_id block.data_ ++ (to_big 2 size ++ front))
      ≡ encode first_piece
  unfolding encode head data_of
  first_fragment =
      let di = instructions 8 block.target in
      let id = message_id block.data_ in
      ap (λ n. di ++ (id ++ (to_big 2 n ++ front))) (sym length-front)
      ∙ ap (λ y. di ++ y) (sym (append_assoc id (to_big 2 (length front)) front))
      ∙ sym (append_assoc di (id ++ to_big 2 (length front)) front)

  length-first_fragment :
      length (encode first_piece) ≡ length (instructions 8 block.target) + 6 + length front
  unfolding encode head data_of
  length-first_fragment =
      let di = instructions 8 block.target in
      let id = message_id block.data_ in
      omega (
        arith,
        length-append (di ++ (id ++ to_big 2 (length front))) front,
        length-append di (id ++ to_big 2 (length front)),
        length-append id (to_big 2 (length front)),
        length-message_id block.data_,
      )

  -- The first fragment fills the message, and the loop goes on with the bytes behind it.
  pub put_fragments-first :
      length (instructions 8 block.target) + 6 ≤ b.remaining_size
      → (b' : GatewayBuffer) × (put_fragments c block b
          ≡ follow_on_fragments c (length data_) (message_id block.data_) 1 (drop size data_) b')
        × (p : Packs c b b' cur (first_piece ∷ [])) × (p.rest ≡ [])
        × (b'.current ≡ none)
  unfolding put_fragments
  put_fragments-first h =
      let (b', e, p, r, n) = fill_and_complete c b cur first_piece fill.0 (
        omega
          (arith, length-snoc c cur first_piece, length-first_fragment, length-front, fill.1)) in
      (
        b',
        ap
              (λ y.
                follow_on_fragments c (length data_) (message_id block.data_) 1 (drop size data_)
                  (complete_current c (append_current y b)))
              first_fragment
            ∙ ap (follow_on_fragments c (length data_) (message_id block.data_) 1 (drop size data_))
                e,
        p,
        r,
        n,
      )

  -- Where the message is longer than the first fragment, all of it is put.
  pub put_fragments-Puts :
      length (instructions 8 block.target) + 6 ≤ b.remaining_size
      → size < len
      → (b' : GatewayBuffer) × (put_fragments c block b ≡ b') × Puts c block b b' cur
  put_fragments-Puts h k =
      let total = get_length-get_buffer block.data_ in
      let (b₁, e, p, r, n) = put_fragments-first h in
      let rest = drop size data_ in
      let left : length rest ≡ len - size = omega (arith, length-drop size data_) in
      let (b₂, g, q) =
        follow_on_fragments-FollowsOn c block.target (message_id block.data_)
          (length-message_id block.data_) valid.2 (length data_) 1 front rest b₁ (omega arith)
          (omega arith) (omega (arith, valid.1)) (omega (arith, valid.1, length-front)) in
      (
        b₂,
        e ∙ g,
        record {
          put = first_piece ∷ q.put;
          packs = Packs-append c p (rw r q.packs);
          run =
              subst (λ y. Run idle (first_piece ∷ q.put) idle ((block.target, y) ∷ []))
                (ap (λ y. y ++ rest) (take_front size data_ (replicate size 0) (omega arith))
                  ∙ take-append-drop size data_)
                (step
                  (starts block.target (message_id block.data_) front valid.0
                    (length-message_id block.data_) valid.2 (omega (arith, length-front, fill.1)))
                  q.run);
        },
      )
