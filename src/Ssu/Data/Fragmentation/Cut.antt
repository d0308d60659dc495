-- ===== src/Ssu/Data/Fragmentation/Cut.antt =====
-- src/core/router/transports/ssu/data.cc: the loop of Send over the bytes of a message.
use xi2p_old.Base.{
  ℕ, zero, suc, ◌≤◌, ◌<◌, ◌≡◌, refl, ap, ◌∙◌, inl, inr, false, List, [], ◌∷◌, ◌++◌, length, take,
  drop, length-take, length-drop, take-append-drop, leb, ok, arith, Bool-cases,
}
use mathlib.Core.List.{append-nil}
use xi2p_old.Ssu.Data.Outgoing.{new_fragment, fragments_of}
use xi2p_old.Ssu.Data.Reassembly.{join}
use xi2p_old.Ssu.Data.Fragmentation.{packets}

-- The pieces of a message: each but the last of them full, none of them empty.
abbrev pub AreCut : ℕ → List (List ℕ) → Type 0
AreCut n [] = Unit
AreCut n (c ∷ []) = (0 < length c) × (length c ≤ n)
AreCut n (c ∷ d ∷ cs) = (length c ≡ n) × AreCut n (d ∷ cs)

packets-cons :
    (msg_id fragment_num : ℕ) (c : List ℕ) (cs : List (List ℕ))
    → 0 < length cs
    → packets msg_id fragment_num (c ∷ cs)
      ≡ new_fragment msg_id fragment_num false c ∷ packets msg_id (suc fragment_num) cs
unfolding packets
packets-cons msg_id num c [] h = absurd (omega arith)
packets-cons msg_id num c (d ∷ cs) h = refl

AreCut-cons :
    (n : ℕ) (c : List ℕ) (cs : List (List ℕ))
    → length c ≡ n
    → 0 < length cs
    → AreCut n cs
    → AreCut n (c ∷ cs)
AreCut-cons n c [] e h a = absurd (omega arith)
AreCut-cons n c (d ∷ cs) e h a = (e, a)

-- With room for at least one byte, and for no more than the array of a fragment holds, the loop of
-- Send ends within as many turns as there are bytes, writes inside the array, and makes of a
-- message that is not empty one packet for each of the pieces it is cut into: the pieces are full
-- but for the last one, they are the message when joined, and the packets have their numbers in
-- order and the last mark on the last one.
pub fragments_of-packets :
    (fuel n msg_id fragment_num : ℕ) (msg_buf : List ℕ)
    → 0 < n
    → n ≤ 1428
    → 0 < length msg_buf
    → length msg_buf ≤ fuel
    → (cs : List (List ℕ)) × (fragments_of fuel n msg_id fragment_num msg_buf
        ≡ ok (packets msg_id fragment_num cs))
      × (join cs ≡ msg_buf)
      × AreCut n cs
      × (0 < length cs)
unfolding fragments_of packets join
fragments_of-packets fuel n msg_id num [] p q r s = absurd (omega arith)
fragments_of-packets zero n msg_id num (b ∷ bs) p q r s = absurd (omega arith)
fragments_of-packets (suc fuel) n msg_id num (b ∷ bs) p q r s =
    elim (Bool-cases (leb (length (b ∷ bs)) n)) [
      | inl t ↦ (
        (b ∷ bs) ∷ [],
        ground arith,
        append-nil (b ∷ bs),
        (omega arith, ground arith),
        omega arith,
      )
      | inr f ↦
          let l = length-take n (b ∷ bs) in
          let m = length-drop n (b ∷ bs) in
          let more : n < length (b ∷ bs) = ground arith in
          let (cs, e, j, a, z) =
            fragments_of-packets fuel n msg_id (suc num) (drop n (b ∷ bs)) p q (omega (arith, m))
              (omega (arith, m)) in
          let whole : take n (b ∷ bs) ++ join cs ≡ b ∷ bs =
            ap (◌++◌ (take n (b ∷ bs))) j ∙ take-append-drop n (b ∷ bs) in
          (
            take n (b ∷ bs) ∷ cs,
            ground (arith, l, e, packets-cons msg_id num (take n (b ∷ bs)) cs z),
            whole,
            AreCut-cons n (take n (b ∷ bs)) cs (omega (arith, l)) z a,
            omega arith,
          )
    ]
