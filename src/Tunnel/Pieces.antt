-- ===== src/Tunnel/Pieces.antt =====
-- What a tunnel carries, without its packing: the pieces that stand in tunnel data messages, their
-- bytes, and how pieces make up messages.
use xi2p_old.Base.{
  ℕ, suc, ◌+◌, ◌*◌, ◌%◌, ◌^◌, ◌<◌, ◌≡◌, ◌≢◌, refl, sym, Bool, true, false, List, [], ◌∷◌, ◌++◌,
  length, of_bool,
}
use mathlib.Core.List.{append_assoc}
use xi2p_old.ByteStream.{to_big, read_at}
use xi2p_old.Tunnel.{unknown, Target}
use xi2p_old.Tunnel.Gateway.{instructions}

-- A whole message, the first fragment of one, and a follow-on fragment with its number and the last
-- mark. A message id is its four bytes.
pub data Piece : Type 0 where
  whole : Target → List ℕ → Piece
  begin : Target → List ℕ → List ℕ → Piece
  follow : List ℕ → ℕ → Bool → List ℕ → Piece

-- The bytes before the data of a piece, and all of them.
unfoldable pub head : Piece → List ℕ
unfolding instructions
head (whole t d) = instructions 0 t ++ to_big 2 (length d)
head (begin t id d) = instructions 8 t ++ (id ++ to_big 2 (length d))
head (follow id n last d) = (128 + n * 2 % 128 + of_bool last) ∷ (id ++ to_big 2 (length d))

unfoldable pub data_of : Piece → List ℕ
data_of (whole t d) = d
data_of (begin t id d) = d
data_of (follow id n last d) = d

unfoldable pub encode : Piece → List ℕ
unfolding head data_of
encode x = head x ++ data_of x

unfoldable pub encode_all : List Piece → List ℕ
unfolding encode
encode_all [] = []
encode_all (x ∷ xs) = encode x ++ encode_all xs

unfoldable pub join : {A : Type 0} → List (List A) → List A
join [] = []
join (g ∷ gs) = g ++ join gs

-- Between two messages, or `n - 1` follow-on fragments into one, with the bytes so far.
pub data Phase : Type 0 where
  idle : Phase
  collecting : Target → List ℕ → ℕ → List ℕ → Phase

abbrev pub IsTarget : Target → Type 0
IsTarget t = (t.delivery_type ≢ unknown) × (length t.hash ≡ 32) × (t.tunnel_id < 2 ^ 32)

abbrev pub Out : Type 0
Out = Target × List ℕ

-- One piece, and the message it completes, if any.
pub data Step : Phase → Piece → Phase → List Out → Type 0 where
  one_piece :
      (t : Target) (d : List ℕ)
      → IsTarget t
      → length d < 1004
      → Step idle (whole t d) idle ((t, d) ∷ [])
  starts :
      (t : Target) (id d : List ℕ)
      → IsTarget t
      → length id ≡ 4
      → read_at 4 id ≢ 0
      → length d < 1004
      → Step idle (begin t id d) (collecting t id 1 d) []
  continues :
      (t : Target) (id acc d : List ℕ) (n : ℕ)
      → length id ≡ 4
      → read_at 4 id ≢ 0
      → n < 64
      → length d < 1004
      → 2 + length acc + length d < 32768
      → Step (collecting t id n acc) (follow id n false d) (collecting t id (suc n) (acc ++ d)) []
  ends :
      (t : Target) (id acc d : List ℕ) (n : ℕ)
      → length id ≡ 4
      → read_at 4 id ≢ 0
      → n < 64
      → length d < 1004
      → 2 + length acc + length d < 32768
      → Step (collecting t id n acc) (follow id n true d) idle ((t, acc ++ d) ∷ [])

-- Pieces one after the other, and the messages that they complete in this order.
pub data Run : Phase → List Piece → Phase → List Out → Type 0 where
  stop : {p : Phase} → Run p [] p []
  step :
      {p q r : Phase} {x : Piece} {xs : List Piece} {o os : List Out}
      → Step p x q o
      → Run q xs r os
      → Run p (x ∷ xs) r (o ++ os)

pub Run-nil : {p q : Phase} {os : List Out} → Run p [] q os → (p ≡ q) × (os ≡ [])
Run-nil stop = (refl, refl)

pub Run-append :
    {p q r : Phase} {xs ys : List Piece} {os us : List Out}
    → Run p xs q os
    → Run q ys r us
    → Run p (xs ++ ys) r (os ++ us)
Run-append stop k = k
Run-append {us = us} (step {o = o} {os = os} s h) k =
    rw (append_assoc o os us) (step s (Run-append h k))

pub Run-split :
    {p r : Phase} (xs ys : List Piece) {os : List Out}
    → Run p (xs ++ ys) r os
    → (q : Phase) × (us vs : List Out) × Run p xs q us × Run q ys r vs × (os ≡ us ++ vs)
Run-split {p} [] ys {os} h = (p, [], os, stop, h, refl)
Run-split (x ∷ xs) ys (step {o = o} s h) =
    let (q, us, vs, k, l, e) = Run-split xs ys h in
    (q, o ++ us, vs, step s k, l, rw e (sym (append_assoc o us vs)))

pub encode_all-append :
    (xs ys : List Piece) → encode_all (xs ++ ys) ≡ encode_all xs ++ encode_all ys
unfolding encode_all
encode_all-append [] ys = refl
encode_all-append (x ∷ xs) ys =
    rw (encode_all-append xs ys) (sym (append_assoc (encode x) (encode_all xs) (encode_all ys)))
