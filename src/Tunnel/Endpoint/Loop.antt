-- ===== src/Tunnel/Endpoint/Loop.antt =====
-- src/core/router/tunnel/endpoint.cc: all fragments of one tunnel data message, as the loop meets them.
use mathlib.Core.Path.{subst}
use mathlib.Core.List.{append_assoc}
use xi2p_old.Base.{
  ℕ, zero, suc, ◌+◌, ◌≤◌, ◌<◌, ◌≡◌, refl, sym, ap, ◌∙◌, List, ◌∷◌, ◌++◌, length, drop, Result, ok,
  length-append, drop-append, arith,
}
use xi2p_old.I2np.{Message}
use xi2p_old.Tunnel.Gateway.{instructions}
use xi2p_old.Tunnel.Pieces.{
  Piece, whole, begin, follow, head, data_of, encode, encode_all, Phase, Step, one_piece, starts,
  continues, ends, Run, stop, step, Out,
}
use xi2p_old.Tunnel.Endpoint.{Endpoint}
use xi2p_old.Tunnel.Endpoint.Received.{read_header, fragment_data, process_fragments}
use xi2p_old.Tunnel.Endpoint.Headers.{header_of, read_header-head, len-header_of, size-header_of}
use xi2p_old.Tunnel.Endpoint.Phases.{Represents, Handled}
use xi2p_old.Tunnel.Endpoint.Refinement.{handle_fragment-Step}
use xi2p_old.Tunnel.Endpoint.Runs.{
  IsShort, fragment_data-Holding, process_fragments-step, process_fragments-end, Handled-nil,
  Handled-append,
}

length-data_of : {p q : Phase} {x : Piece} {o : List Out} → Step p x q o → length (data_of x) < 1004
unfolding data_of
length-data_of (one_piece t d h l) = l
length-data_of (starts t id d h b z l) = l
length-data_of (continues t id acc d n b z u l f) = l
length-data_of (ends t id acc d n b z u l f) = l

length-head_pos : (x : Piece) → 0 < length (head x)
unfolding head instructions
length-head_pos (whole t d) = omega arith
length-head_pos (begin t id d) = omega arith
length-head_pos (follow id n last d) = omega arith

length-encode : (x : Piece) → length (encode x) ≡ length (head x) + length (data_of x)
unfolding encode
length-encode x = length-append (head x) (data_of x)

-- Where piece x stands.
array_split :
    (before : List ℕ) (x : Piece) (xs : List Piece) (after : List ℕ)
    → before ++ (encode_all (x ∷ xs) ++ after)
      ≡ before ++ (head x ++ (data_of x ++ (encode_all xs ++ after)))
unfolding encode_all encode
array_split before x xs after =
    ap (λ y. before ++ y)
      (append_assoc (encode x) (encode_all xs) after
        ∙ append_assoc (head x) (data_of x) (encode_all xs ++ after))

-- The same with the piece behind the cursor, and with its instructions behind it.
array_next :
    (before : List ℕ) (x : Piece) (xs : List Piece) (after : List ℕ)
    → before ++ (head x ++ (data_of x ++ (encode_all xs ++ after)))
      ≡ (before ++ encode x) ++ (encode_all xs ++ after)
unfolding encode
array_next before x xs after =
    ap (λ y. before ++ y) (sym (append_assoc (head x) (data_of x) (encode_all xs ++ after)))
    ∙ sym (append_assoc before (encode x) (encode_all xs ++ after))

module _ (ours : List ℕ) {msg : Message} (hm : IsShort msg) where
  -- One turn of the loop.
  process_fragments-piece :
      {p q : Phase} {x : Piece} {o : List Out} (fuel : ℕ) (before rest : List ℕ) (end : ℕ)
      (e : Endpoint)
      → Step p x q o
      → Represents p e
      → length before + length (encode x) ≤ end
      → end ≤ 1046
      → (r : Result (Unit {0} × Endpoint)) × (h : Handled ours q o e r) × (process_fragments ours
            (suc fuel)
            (before ++ (head x ++ (data_of x ++ rest)))
            end
            (length before)
            msg
            e
          ≡ process_fragments ours fuel
              (before ++ (head x ++ (data_of x ++ rest)))
              end
              (length (before ++ encode x))
              msg
              h.state)
  process_fragments-piece {x = x} fuel before rest end e s i l k =
      let array = before ++ (head x ++ (data_of x ++ rest)) in
      let cursor : length (before ++ head x) ≡ length before + (header_of x).len =
        length-append before (head x) ∙ ap (λ n. length before + n) (sym (len-header_of x)) in
      let (m, f, hm') =
        fragment_data-Holding hm (before ++ head x) (data_of x) rest end
          (omega (arith, length-append before (head x), length-encode x)) k (length-data_of s) in
      let h = handle_fragment-Step ours e s i hm' in
      let read : fragment_data array end (length before + (header_of x).len) (header_of x).size msg
          ≡ ok m =
        rw (← cursor, size-header_of x, ← append_assoc before (head x) (data_of x ++ rest)) f in
      let there : read_header (drop (length before) array) ≡ header_of x =
        ap read_header (drop-append (length before) before _ refl)
        ∙ read_header-head (data_of x ++ rest) s in
      (
        _,
        h,
        process_fragments-step ours fuel array end (length before) msg m e h.state
              (omega (arith, length-encode x, length-head_pos x)) there read h.result
            ∙ ap (λ n. process_fragments ours fuel array end n msg h.state)
                (omega (
                  arith,
                  length-append before (encode x),
                  length-encode x,
                  len-header_of x,
                  size-header_of x,
                )),
      )

  pub process_fragments-Run :
      {p q : Phase} {xs : List Piece} {os : List Out} (fuel : ℕ) (before after : List ℕ) (end : ℕ)
      (e : Endpoint)
      → Run p xs q os
      → Represents p e
      → length (encode_all xs) ≤ fuel
      → length before + length (encode_all xs) ≡ end
      → end ≤ 1046
      → Handled ours q os e (
          process_fragments ours fuel
            (before ++ (encode_all xs ++ after))
            end
            (length before)
            msg
            e)
  unfolding encode_all
  process_fragments-Run fuel before after end e stop i f l k =
      let here : length before ≡ end = omega arith in
      rw here (Handled-nil ours i (process_fragments-end ours fuel (before ++ after) end msg e))
  process_fragments-Run zero before after end e (step {x = x} {xs = xs} s h) i f l k =
      absurd (
        omega (arith, length-append (encode x) (encode_all xs), length-encode x, length-head_pos x))
  process_fragments-Run {q = q} (suc fuel) before after end e
        (step {x = x} {xs = xs} {o = o} {os = os} s h) i f l k =
      let sizes = length-append (encode x) (encode_all xs) in
      let (r, t, g) =
        process_fragments-piece fuel before (encode_all xs ++ after) end e s i
          (omega (arith, sizes)) k in
      let rest =
        process_fragments-Run fuel (before ++ encode x) after end t.state h t.represents
          (omega (arith, sizes, length-encode x, length-head_pos x))
          (omega (arith, sizes, length-append before (encode x))) k in
      subst (Handled ours q (o ++ os) e)
        (sym (
          ap (λ a. process_fragments ours (suc fuel) a end (length before) msg e)
            (array_split before x xs after)
          ∙ g
          ∙ ap (λ a. process_fragments ours fuel a end (length (before ++ encode x)) msg t.state)
              (array_next before x xs after)))
        (Handled-append ours t rest)
