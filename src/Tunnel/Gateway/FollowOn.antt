-- ===== src/Tunnel/Gateway/FollowOn.antt =====
-- src/core/router/tunnel/gateway.cc: the loop over follow-on fragments.
use mathlib.Core.Path.{subst}
use mathlib.Core.List.{append_assoc}
use xi2p_old.Base.{
  ℕ, zero, suc, ◌+◌, ◌-◌, ◌*◌, ◌%◌, ◌≤◌, ◌<◌, ◌≡◌, ◌≢◌, inl, inr, refl, sym, ap, ◌∙◌, Bool, true,
  false, Bool-cases, leb, of_bool, List, [], ◌∷◌, ◌++◌, length, take, drop, length-append,
  length-take, length-drop, take_all, take-append-drop, arith,
}
use xi2p_old.ByteStream.{to_big, read_at}
use xi2p_old.Tunnel.{Crypto, Target}
use xi2p_old.Tunnel.Gateway.{
  GatewayBuffer, create_current, append_current, complete_current, consume, follow_on_fragments,
}
use xi2p_old.Tunnel.Gateway.Groups.{Packs, Packs-append, Fits-one}
use xi2p_old.Tunnel.Gateway.Packing.{fill_and_complete, fill_and_consume}
use xi2p_old.Tunnel.Pieces.{
  Piece, follow, encode, encode_all, head, data_of, idle, collecting, continues, ends, Run, stop,
  step,
}

pub drop_all : (n : ℕ) (xs : List ℕ) → length xs ≤ n → drop n xs ≡ []
drop_all zero [] h = refl
drop_all zero (x ∷ xs) h = absurd (omega arith)
drop_all (suc n) [] h = refl
drop_all (suc n) (x ∷ xs) h = drop_all n xs (omega arith)

-- The bytes that the loop writes for a fragment.
abbrev written : List ℕ → ℕ → Bool → ℕ → List ℕ → List ℕ
written id n is_last s d = (128 + n * 2 % 128 + of_bool is_last) ∷ (id ++ (to_big 2 s ++ d))

written-encode :
    (id : List ℕ) (n : ℕ) (is_last : Bool) (s : ℕ) (d : List ℕ)
    → length d ≡ s
    → written id n is_last s d ≡ encode (follow id n is_last d)
unfolding encode head data_of
written-encode id n is_last s d h =
    ap (λ k. written id n is_last k d) (sym h)
    ∙ ap (◌∷◌ (128 + n * 2 % 128 + of_bool is_last)) (sym (append_assoc id (to_big 2 (length d)) d))

length-follow :
    (id : List ℕ) (n : ℕ) (is_last : Bool) (d : List ℕ)
    → length id ≡ 4
    → length (encode (follow id n is_last d)) ≡ length d + 7
unfolding encode head data_of
length-follow id n is_last d h =
    omega
      (arith, length-append (id ++ to_big 2 (length d)) d, length-append id (to_big 2 (length d)))

module _ (c : Crypto) where
  -- A new message takes the place of a completed one.
  pub Packs-create :
      {b b' : GatewayBuffer} {xs : List Piece}
      → Packs c (create_current b) b' [] xs
      → Packs c b b' [] xs
  unfolding create_current
  Packs-create p = record {
    groups = p.groups;
    rest = p.rest;
    tunnel_id = p.tunnel_id;
    non_zero = p.non_zero;
    draws = p.draws;
    messages = p.messages;
    pieces = p.pieces;
    fits = p.fits;
    carries = p.carries;
  }

  pub follow_on_fragments-nil :
      (fuel : ℕ) (id : List ℕ) (n : ℕ) (b : GatewayBuffer)
      → follow_on_fragments c fuel id n [] b ≡ b
  unfolding follow_on_fragments
  follow_on_fragments-nil zero id n b = refl
  follow_on_fragments-nil (suc fuel) id n b = refl

  -- One turn: the last fragment, and another one.
  follow_on_fragments-last :
      (fuel : ℕ) (id : List ℕ) (n x : ℕ) (xs : List ℕ) (b : GatewayBuffer)
      → length (x ∷ xs) ≤ 996
      → length id ≡ 4
      → follow_on_fragments c (suc fuel) id n (x ∷ xs) b
        ≡ consume c
            (length (x ∷ xs) + 7)
            (append_current (encode (follow id n true (x ∷ xs))) (create_current b))
  unfolding follow_on_fragments
  follow_on_fragments-last fuel id n x xs b h k =
      let rest = x ∷ xs in
      let is_last : leb (length rest) 996 ≡ true = ground arith in
      let whole : take (length rest) rest ≡ rest = take_all (length rest) rest (omega arith) in
      let nothing : drop (length rest) rest ≡ [] = drop_all (length rest) rest (omega arith) in
      rw (is_last, whole, nothing, follow_on_fragments)
        (follow_on_fragments-nil fuel id (suc n) _
          ∙ ap (λ y. consume c (length rest + 7) (append_current y (create_current b)))
              (written-encode id n true (length rest) rest refl))

  follow_on_fragments-more :
      (fuel : ℕ) (id : List ℕ) (n x : ℕ) (xs : List ℕ) (b : GatewayBuffer)
      → 996 < length (x ∷ xs)
      → follow_on_fragments c (suc fuel) id n (x ∷ xs) b
        ≡ follow_on_fragments c fuel id (suc n) (drop 996 (x ∷ xs)) (
            complete_current c
              (append_current (encode (follow id n false (take 996 (x ∷ xs)))) (create_current b)))
  unfolding follow_on_fragments
  follow_on_fragments-more fuel id n x xs b h =
      let rest = x ∷ xs in
      let not_last : leb (length rest) 996 ≡ false = ground arith in
      rw (not_last, follow_on_fragments)
        (ap
          (λ y.
            follow_on_fragments c fuel id (suc n) (drop 996 rest)
              (complete_current c (append_current y (create_current b))))
          (written-encode id n false 996 (take 996 rest) (omega (arith, length-take 996 rest))))

  -- The loop puts the follow-on fragments of a message, and stops.
  pub record FollowsOn (t : Target) (id : List ℕ) (n : ℕ) (acc rest : List ℕ) (b b' : GatewayBuffer)
      : Type 0 where
    pub put : List Piece
    pub packs : Packs c b b' [] put
    pub run : Run (collecting t id n acc) put idle ((t, acc ++ rest) ∷ [])

  module _ (t : Target) (id : List ℕ) (h : length id ≡ 4) (k : read_at 4 id ≢ 0) where
    last_follows :
        (n x : ℕ) (acc xs : List ℕ) (b : GatewayBuffer)
        → n < 64
        → length (x ∷ xs) ≤ 996
        → 2 + length acc + length (x ∷ xs) < 32768
        → (b' : GatewayBuffer) × (consume c
              (length (x ∷ xs) + 7)
              (append_current (encode (follow id n true (x ∷ xs))) (create_current b))
            ≡ b')
          × FollowsOn t id n acc (x ∷ xs) b b'
    unfolding create_current encode_all
    last_follows n x acc xs b l f m =
        let rest = x ∷ xs in
        let (b', e, p) =
          fill_and_consume c (create_current b) [] (follow id n true rest) (length rest + 7) refl
            refl (length-follow id n true rest h) (omega arith) in
        (
          b',
          e,
          record {
            put = _;
            packs = Packs-create p;
            run = step (ends t id acc rest n h k l (omega arith) m) stop;
          },
        )

    pub follow_on_fragments-FollowsOn :
        (fuel n : ℕ) (acc rest : List ℕ) (b : GatewayBuffer)
        → 0 < length rest
        → length rest ≤ fuel
        → length rest + n * 996 ≤ 64 * 996
        → 2 + length acc + length rest < 32768
        → (b' : GatewayBuffer) × (follow_on_fragments c fuel id n rest b ≡ b')
          × FollowsOn t id n acc rest b b'
    unfolding create_current encode_all
    follow_on_fragments-FollowsOn fuel n acc [] b z f l m = absurd (omega arith)
    follow_on_fragments-FollowsOn zero n acc (x ∷ xs) b z f l m = absurd (omega arith)
    follow_on_fragments-FollowsOn (suc fuel) n acc (x ∷ xs) b z f l m =
        let rest = x ∷ xs in
        elim (Bool-cases (leb (length rest) 996)) [
          | inl y ↦
              let small : length rest ≤ 996 = ground arith in
              let (b', e, r) = last_follows n x acc xs b (omega arith) small m in
              (b', follow_on_fragments-last fuel id n x xs b small h ∙ e, r)
          | inr y ↦
              let large : 996 < length rest = ground arith in
              let d = take 996 rest in
              let size : length d ≡ 996 = omega (arith, length-take 996 rest) in
              let left : length (drop 996 rest) ≡ length rest - 996 = length-drop 996 rest in
              let total : length (acc ++ d) ≡ length acc + 996 =
                omega (arith, length-append acc d) in
              let (b₁, e, p, r, s) =
                fill_and_complete c (create_current b) [] (follow id n false d) refl
                  (Fits-one (follow id n false d) (omega (arith, length-follow id n false d h))) in
              let (b₂, g, q) =
                follow_on_fragments-FollowsOn fuel (suc n) (acc ++ d) (drop 996 rest) b₁
                  (omega arith) (omega arith) (omega arith) (omega arith) in
              (
                b₂,
                follow_on_fragments-more fuel id n x xs b large
                    ∙ ap (follow_on_fragments c fuel id (suc n) (drop 996 rest)) e
                    ∙ g,
                record {
                  put = _;
                  packs = Packs-create (Packs-append c p (rw r q.packs));
                  run =
                      subst
                        (λ y.
                          Run (collecting t id n acc) (follow id n false d ∷ q.put) idle
                            ((t, y) ∷ []))
                        (append_assoc acc d (drop 996 rest)
                          ∙ ap (λ y. acc ++ y) (take-append-drop 996 rest))
                        (step (continues t id acc d n h k (omega arith) (omega arith) (omega arith))
                          q.run);
                },
              )
        ]
