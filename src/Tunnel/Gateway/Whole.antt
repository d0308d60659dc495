-- ===== src/Tunnel/Gateway/Whole.antt =====
-- src/core/router/tunnel/gateway.cc: PutI2NPMsg as a whole.
use native.Mathlib.Decide.{dec_lt}
use xi2p_old.Base.{
  ℕ, suc, ◌+◌, ◌≤◌, ◌<◌, ◌≡◌, ◌⊎◌, inl, inr, refl, ap, ◌∙◌, none, some, Bool, true, false,
  Bool-cases, leb, if◌then◌else◌, List, [], length, arith,
}
use xi2p_old.Tunnel.{Crypto, TunnelMessageBlock}
use xi2p_old.Tunnel.Gateway.{
  GatewayBuffer, has_current, create_current, complete_current, instructions, put_whole,
  put_fragments, needs_new, renewed, put_large, put_in, put_once, put_i2np_msg,
}
use xi2p_old.Tunnel.Gateway.Groups.{Packs, Packs-append, Carries}
use xi2p_old.Tunnel.Gateway.Packing.{complete_current-Packs}
use xi2p_old.Tunnel.Gateway.FollowOn.{Packs-create}
use xi2p_old.Tunnel.Gateway.Putting.{
  IsBlock, full_len, Puts, Filling, put_whole-Puts, put_fragments-Puts, length-instructions,
  same_length,
}
use xi2p_old.Tunnel.Pieces.{Piece, encode_all}

module _ (c : Crypto) (block : TunnelMessageBlock) where
  -- PutI2NPMsg where it puts the block at once, and where it calls itself.
  pub put_i2np_msg-once :
      (fuel : ℕ) (b b' : GatewayBuffer)
      → put_once c block b ≡ (false, b')
      → put_i2np_msg c (suc fuel) block b ≡ some b'
  unfolding put_i2np_msg
  put_i2np_msg-once fuel b b' h =
      ap
        (λ (r : Bool × GatewayBuffer). elim r.0 [
          | true ↦ put_i2np_msg c fuel block r.1
          | false ↦ some r.1
        ])
        h

  put_i2np_msg-again :
      (fuel : ℕ) (b b' : GatewayBuffer)
      → put_once c block b ≡ (true, b')
      → put_i2np_msg c (suc fuel) block b ≡ put_i2np_msg c fuel block b'
  unfolding put_i2np_msg
  put_i2np_msg-again fuel b b' h =
      ap
        (λ (r : Bool × GatewayBuffer). elim r.0 [
          | true ↦ put_i2np_msg c fuel block r.1
          | false ↦ some r.1
        ])
        h

  put_once-none :
      (b : GatewayBuffer)
      → b.current ≡ none
      → put_once c block b ≡ put_in c true block (create_current b)
  unfolding put_once has_current
  put_once-none b h = rw (h, put_once) refl

  pub put_once-some :
      (b : GatewayBuffer) (p : List ℕ)
      → b.current ≡ some p
      → put_once c block b ≡ put_in c false block b
  unfolding put_once has_current
  put_once-some b p h = rw (h, put_once) refl

  -- The branches of the rest.
  put_in-whole :
      (created : Bool) (b : GatewayBuffer)
      → full_len block ≤ b.remaining_size
      → put_in c created block b ≡ (false, put_whole c block b)
  unfolding put_in
  put_in-whole created b h =
      let fits : leb (full_len block) b.remaining_size ≡ true = ground arith in
      ap
        (λ x.
          if x then (false, put_whole c block b) else put_large c block (renewed c created block b))
        fits

  pub put_in-large :
      (created : Bool) (b : GatewayBuffer)
      → b.remaining_size < full_len block
      → put_in c created block b ≡ put_large c block (renewed c created block b)
  unfolding put_in
  put_in-large created b h =
      let large : leb (full_len block) b.remaining_size ≡ false = ground arith in
      ap
        (λ x.
          if x then (false, put_whole c block b) else put_large c block (renewed c created block b))
        large

  renewed_created : (b : GatewayBuffer) → renewed c true block b ≡ b
  unfolding renewed
  renewed_created b = refl

  pub renewed_if :
      (b : GatewayBuffer) (x : Bool)
      → needs_new (full_len block) b.remaining_size ≡ x
      → renewed c false block b ≡ (if x then create_current (complete_current c b) else b)
  unfolding renewed
  renewed_if b x h = ap (λ y. if y then create_current (complete_current c b) else b) h

  pub put_large-fragments :
      (b : GatewayBuffer)
      → length (instructions 0 block.target) + 6 ≤ b.remaining_size
      → put_large c block b ≡ (false, put_fragments c block b)
  unfolding put_large
  put_large-fragments b h =
      let room : leb (length (instructions 0 block.target) + 6) b.remaining_size ≡ true =
        ground arith in
      ap (λ x. if x then (false, put_fragments c block b) else (true, complete_current c b)) room

  put_large-again :
      (b : GatewayBuffer)
      → b.remaining_size < length (instructions 0 block.target) + 6
      → put_large c block b ≡ (true, complete_current c b)
  unfolding put_large
  put_large-again b h =
      let room : leb (length (instructions 0 block.target) + 6) b.remaining_size ≡ false =
        ground arith in
      ap (λ x. if x then (false, put_fragments c block b) else (true, complete_current c b)) room

  module _ (valid : IsBlock block) where
    abbrev di_len : ℕ
    di_len = length (instructions 0 block.target)

    small_di : di_len ≤ 37
    small_di = length-instructions 0 block.target valid.0

    -- In a new message.
    new_fragments :
        (b : GatewayBuffer)
        → 999 < full_len block
        → (b' : GatewayBuffer) × (put_large c block (create_current b) ≡ (false, b'))
          × Puts c block b b' []
    unfolding create_current encode_all
    new_fragments b h =
        let (b', e, p) =
          put_fragments-Puts c block valid (create_current b) [] (refl, refl)
            (omega (arith, small_di, same_length block.target))
            (omega (arith, small_di, same_length block.target)) in
        (
          b',
          put_large-fragments (create_current b) (omega (arith, small_di)) ∙ ap (λ x. (false, x)) e,
          record { put = p.put; packs = Packs-create c p.packs; run = p.run },
        )

    put_once-new :
        (b : GatewayBuffer)
        → b.current ≡ none
        → (b' : GatewayBuffer) × (put_once c block b ≡ (false, b')) × Puts c block b b' []
    unfolding create_current encode_all
    put_once-new b h = elim (dec_lt 1003 (full_len block)) [
      | yes l ↦
          let (b', e, p) = new_fragments b (omega arith) in
          (
            b',
            put_once-none b h
                ∙ put_in-large true (create_current b) l
                ∙ ap (put_large c block) (renewed_created (create_current b))
                ∙ e,
            p,
          )
      | no l ↦
          let (b', e, p) =
            put_whole-Puts c block valid (create_current b) [] (refl, refl) (omega arith) in
          (
            b',
            put_once-none b h
                ∙ put_in-whole true (create_current b) (omega arith)
                ∙ ap (λ x. (false, x)) e,
            record { put = p.put; packs = Packs-create c p.packs; run = p.run },
          )
    ]

    -- Behind the pieces of a completed message.
    after_completed :
        {b b₁ b' : GatewayBuffer} {cur : List Piece} (p : Packs c b b₁ cur [])
        → p.rest ≡ []
        → Puts c block b₁ b' []
        → Puts c block b b' cur
    after_completed p r q = record {
      put = q.put;
      packs = Packs-append c p (rw r q.packs);
      run = q.run;
    }

    module _ (b : GatewayBuffer) (cur : List Piece) (fill : Filling b cur) where
      put_large-Puts :
          b.remaining_size < full_len block
          → 999 < full_len block
          → (b' : GatewayBuffer) × (put_i2np_msg c 2 block b ≡ some b') × Puts c block b b' cur
      put_large-Puts h k =
          let (b₁, e, p, r, n) = complete_current-Packs c b cur fill.0 (omega (arith, fill.1)) in
          let start = put_once-some b (encode_all cur) fill.0 ∙ put_in-large false b h in
          elim (Bool-cases (needs_new (full_len block) b.remaining_size)) [
            | inl t ↦
                let (b₂, g, q) = new_fragments b₁ k in
                (
                  b₂,
                  put_i2np_msg-once 1 b b₂ (
                      start
                      ∙ ap (put_large c block) (renewed_if b true t ∙ ap create_current e)
                      ∙ g),
                  after_completed p r q,
                )
            | inr f ↦
                let here = start ∙ ap (put_large c block) (renewed_if b false f) in
                elim (dec_lt b.remaining_size (di_len + 6)) [
                  | yes l ↦
                      let (b₂, g, q) = put_once-new b₁ n in
                      (
                        b₂,
                        put_i2np_msg-again 1 b b₁
                              (here ∙ put_large-again b l ∙ ap (λ x. (true, x)) e)
                            ∙ put_i2np_msg-once 0 b₁ b₂ g,
                        after_completed p r q,
                      )
                  | no l ↦
                      let (b₂, g, q) =
                        put_fragments-Puts c block valid b cur fill
                          (omega (arith, same_length block.target))
                          (omega (arith, same_length block.target)) in
                      (
                        b₂,
                        put_i2np_msg-once 1 b b₂
                            (here ∙ put_large-fragments b (omega arith) ∙ ap (λ x. (false, x)) g),
                        q,
                      )
                ]
          ]

      put_whole_here :
          full_len block ≤ b.remaining_size
          → (b' : GatewayBuffer) × (put_i2np_msg c 2 block b ≡ some b') × Puts c block b b' cur
      put_whole_here h =
          let (b', e, p) = put_whole-Puts c block valid b cur fill h in
          (
            b',
            put_i2np_msg-once 1 b b' (
                put_once-some b (encode_all cur) fill.0
                ∙ put_in-whole false b h
                ∙ ap (λ x. (false, x)) e),
            p,
          )

    -- PutI2NPMsg of a message that has a target of a known type with a hash of 32 bytes and a
    -- tunnel id of 32 bits, a message id that is not zero and less than 32766 bytes returns within
    -- two calls, and what it puts behind the pieces in preparation, in this tunnel data message and
    -- in completed ones of which none has more than 1003 bytes of payload, is a run of pieces of
    -- this one message for its target; where a tunnel data message is in preparation, the condition
    -- is that the message fits in it, or takes more than 999 bytes with its delivery instructions.
    pub put_i2np_msg-Puts :
        (b : GatewayBuffer) (cur : List Piece)
        → Carries b cur
        → (b.current ≡ none) ⊎ (full_len block ≤ b.remaining_size) ⊎ (999 < full_len block)
        → (b' : GatewayBuffer) × (put_i2np_msg c 2 block b ≡ some b') × Puts c block b b' cur
    put_i2np_msg-Puts b cur (inl (h, e)) k =
        let (b', g, p) = put_once-new b h in (b', put_i2np_msg-once 1 b b' g, rw e p)
    put_i2np_msg-Puts b cur (inr fill) (inl h) = absurd (cc)
    put_i2np_msg-Puts b cur (inr fill) (inr (inl h)) = put_whole_here b cur fill h
    put_i2np_msg-Puts b cur (inr fill) (inr (inr h)) =
        elim (dec_lt b.remaining_size (full_len block)) [
          | yes l ↦ put_large-Puts b cur fill l h
          | no l ↦ put_whole_here b cur fill (omega arith)
        ]
