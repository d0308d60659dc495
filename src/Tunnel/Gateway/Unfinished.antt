-- ===== src/Tunnel/Gateway/Unfinished.antt =====
-- src/core/router/tunnel/gateway.cc: a message that PutI2NPMsg puts as a first fragment only.
use xi2p_old.Base.{
  ℕ, ◌+◌, ◌-◌, ◌≤◌, ◌<◌, ◌≡◌, refl, ap, ◌∙◌, none, some, true, false, List, [], ◌∷◌, length, arith,
}
use xi2p_old.I2np.{get_length, get_buffer}
use xi2p_old.Tunnel.{Crypto, TunnelMessageBlock}
use xi2p_old.Tunnel.Gateway.{
  GatewayBuffer, create_current, instructions, needs_new, put_large, put_i2np_msg,
}
use xi2p_old.Tunnel.Gateway.Groups.{Packs, Packs-append}
use xi2p_old.Tunnel.Gateway.Packing.{complete_current-Packs}
use xi2p_old.Tunnel.Gateway.FollowOn.{Packs-create}
use xi2p_old.Tunnel.Gateway.Putting.{IsBlock, full_len, Filling, length-instructions, same_length}
use xi2p_old.Tunnel.Pieces.{Piece, encode_all}
use xi2p_old.Base.{drop}
use xi2p_old.Tunnel.Gateway.{follow_on_fragments, message_id}
use xi2p_old.Tunnel.Gateway.Whole.{
  put_i2np_msg-once, put_once-some, put_in-large, renewed_if, put_large-fragments,
}
use xi2p_old.Tunnel.Gateway.Putting.{
  put_fragments-first, front, length-front, get_length-get_buffer,
}
use xi2p_old.Tunnel.Gateway.FollowOn.{follow_on_fragments-nil, drop_all}
use xi2p_old.Tunnel.Pieces.{begin}

-- A message that fits in a new tunnel data message needs one where it does not fit in the old.
needs_new_small :
    (full_msg_len remaining_size : ℕ)
    → remaining_size < full_msg_len
    → full_msg_len ≤ 999
    → needs_new full_msg_len remaining_size ≡ true
unfolding needs_new
needs_new_small full_msg_len remaining_size h k = ground arith

module _ (c : Crypto) (block : TunnelMessageBlock) (valid : IsBlock block) where
  -- A message that has a target of a known type with a hash of 32 bytes and a tunnel id of 32 bits,
  -- a message id that is not zero and less than 32766 bytes, of at most 999 bytes with its delivery
  -- instructions, that does not fit behind the pieces of the tunnel data message in preparation, is
  -- put in a new one as a first fragment of as many bytes as the message has or more, and no other
  -- fragment follows: nothing that the gateway sends says that the message is complete.
  pub put_i2np_msg-unfinished :
      (b : GatewayBuffer) (cur : List Piece)
      → Filling b cur
      → b.remaining_size < full_len block
      → full_len block ≤ 999
      → (b' : GatewayBuffer) × (d : List ℕ) × (put_i2np_msg c 2 block b ≡ some b')
        × Packs c b b' cur (begin block.target (message_id block.data_) d ∷ [])
        × (length d + full_len block ≡ 999 + get_length block.data_)
        × (b'.current ≡ none)
  unfolding create_current encode_all
  put_i2np_msg-unfinished b cur fill h k =
      let data_ = get_buffer block.data_ in
      let (b₁, e, p, r, n) = complete_current-Packs c b cur fill.0 (omega (arith, fill.1)) in
      let fresh = create_current b₁ in
      let small = length-instructions 0 block.target valid.0 in
      let same = same_length block.target in
      let total = get_length-get_buffer block.data_ in
      let (b₂, g, q, s, m) =
        put_fragments-first c block valid fresh [] (refl, refl) (omega arith) in
      let size = 1003 - length (instructions 8 block.target) - 6 in
      let nothing : drop size data_ ≡ [] = drop_all size data_ (omega arith) in
      (
        b₂,
        front c block valid fresh [] (refl, refl),
        put_i2np_msg-once c block 1 b b₂ (
            put_once-some c block b (encode_all cur) fill.0
            ∙ put_in-large c block false b h
            ∙ ap (put_large c block) (
                renewed_if c block b true (needs_new_small (full_len block) b.remaining_size h k)
                ∙ ap create_current e)
            ∙ put_large-fragments c block fresh (omega arith)
            ∙ ap (λ x. (false, x))
                (g
                  ∙ ap (λ y. follow_on_fragments c (length data_) (message_id block.data_) 1 y b₂)
                      nothing
                  ∙ follow_on_fragments-nil c (length data_) (message_id block.data_) 1 b₂)),
        Packs-append c p (rw r (Packs-create c q)),
        omega (arith, length-front c block valid fresh [] (refl, refl)),
        m,
      )
