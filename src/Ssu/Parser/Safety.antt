-- ===== src/Ssu/Parser/Safety.antt =====
-- src/core/router/transports/ssu/packet.cc: ParseData and ParseFragment on any bytes.
pub mod Payloads
use xi2p_old.Base.{
  ℕ, zero, suc, ◌+◌, ◌-◌, ◌%◌, ◌^◌, ◌≤◌, ◌<◌, ◌≡◌, ◌≢◌, ◌⊎◌, inl, inr, refl, Bool, true, false,
  List, [], ◌∷◌, length, ltb, bit, if◌then◌else◌, Result, ok, err, length_error, invalid_argument,
  runtime_error, fault, Method, ◌>>=◌, ◌>>◌, pure, throw, length-drop, arith, drop,
}
use xi2p_old.ByteStream.{Input, read_bytes, skip_bytes, read, advance, may_advance}
use xi2p_old.Ssu.Packet.{Payload, PacketFragment}
use xi2p_old.Ssu.Parser.{
  left, total, repeat, parse_fragment, parse_bitfields, parse_explicit_acks, parse_acks,
  parse_extended, parse_data,
}

abbrev pub Safe : {A : Type 0} → Method Input A → Input → Type 0
Safe p s = p s ≢ err fault

pub >>=-Safe :
    {A B : Type 0} (p : Method Input A) (f : A → Method Input B) (s : Input)
    → Safe p s
    → ((a : A) (t : Input) → p s ≡ ok (a, t) → Safe (f a) t)
    → Safe (p >>= f) s
unfolding ◌>>=◌
>>=-Safe {A} {B} p f s h k = go (p s) refl
  where
    go :
        (r : Result (A × Input))
        → p s ≡ r
        → elim r as (λ _. Result (B × Input)) [ ok (a, t) ↦ f a t | err e ↦ err e ] ≢ err fault
    go (ok (a, t)) e = k a t e
    go (err length_error) e = λ q. cc
    go (err invalid_argument) e = λ q. cc
    go (err runtime_error) e = λ q. cc
    go (err fault) e = absurd (h e)

pub read_bytes-Safe : (n : ℕ) (s : Input) → Safe (read_bytes n) s
unfolding read_bytes advance may_advance
read_bytes-Safe n s = ground arith

pub skip_bytes-Safe : (n : ℕ) (s : Input) → Safe (skip_bytes n) s
unfolding skip_bytes advance may_advance
skip_bytes-Safe n s = ground arith

pub pure-Safe : {A : Type 0} (a : A) (s : Input) → Safe (pure a) s
unfolding pure
pure-Safe a s = λ q. cc

pub read-Safe : (n : ℕ) (s : Input) → Safe (read n) s
unfolding read
read-Safe n s = >>=-Safe (read_bytes n) _ s (read_bytes-Safe n s) (λ a t _. pure-Safe _ t)

pub >>-Safe :
    {B : Type 0} (p : Method Input (Unit {0})) (k : Method Input B) (s : Input)
    → Safe p s
    → ((t : Input) → Safe k t)
    → Safe (p >> k) s
unfolding ◌>>◌
>>-Safe p k s h g = >>=-Safe p (λ _. k) s h (λ a t _. g t)

repeat-Safe :
    {A : Type 0} (n : ℕ) (p : Method Input A) (s : Input)
    → ((t : Input) → Safe p t)
    → Safe (repeat n p) s
unfolding repeat
repeat-Safe zero p s h = pure-Safe [] s
repeat-Safe (suc n) p s h =
    >>=-Safe p _ s (h s)
      (λ x t _. >>=-Safe (repeat n p) _ t (repeat-Safe n p t h) (λ xs u _. pure-Safe (x ∷ xs) u))

-- A byte that is read is one byte fewer left.
length-read : (b : ℕ) (s t : Input) → read 1 s ≡ ok (b, t) → length t.rest < length s.rest
unfolding read read_bytes advance may_advance ◌>>=◌ pure
length-read b s t h = ground (arith, length-drop 1 s.rest)

parse_bitfields-Safe : (fuel : ℕ) (s : Input) → length s.rest < fuel → Safe (parse_bitfields fuel) s
unfolding parse_bitfields
parse_bitfields-Safe zero s l = absurd (omega arith)
parse_bitfields-Safe (suc fuel) s l = >>=-Safe (read 1) _ s (read-Safe 1 s) (λ b t e.
    >>=-Safe (if bit 7 b then parse_bitfields fuel else pure []) _ t
      (more (bit 7 b) t (parse_bitfields-Safe fuel t (omega (arith, length-read b s t e))))
      (λ bs u _. pure-Safe (b ∷ bs) u))
  where
    more :
        (c : Bool) (t : Input)
        → Safe (parse_bitfields fuel) t
        → Safe (if c then parse_bitfields fuel else pure []) t
    more true t h = h
    more false t h = pure-Safe [] t

total-Safe : (s : Input) → Safe total s
total-Safe s = λ q. cc

pub left-Safe : (s : Input) → Safe left s
left-Safe s = λ q. cc

throw-Safe : (c : Bool) (t : Input) → Safe (if c then throw length_error else pure tt) t
unfolding throw
throw-Safe true t = λ q. cc
throw-Safe false t = pure-Safe tt t

parse_fragment-Safe : (s : Input) → Safe parse_fragment s
unfolding parse_fragment
parse_fragment-Safe s = >>=-Safe (read 4) _ s (read-Safe 4 s) (λ id t _.
    >>=-Safe (read 3) _ t (read-Safe 3 t) (λ info u _.
      >>=-Safe total _ u (total-Safe u) (λ whole v _.
        >>-Safe _ _ v (throw-Safe (ltb whole (info % 2 ^ 14)) v) (λ w.
          >>=-Safe (read_bytes (info % 2 ^ 14)) _ w (read_bytes-Safe (info % 2 ^ 14) w)
            (λ bytes x _. pure-Safe _ x)))))

parse_explicit_acks-Safe : (c : Bool) (s : Input) → Safe (parse_explicit_acks c) s
unfolding parse_explicit_acks
parse_explicit_acks-Safe false s = pure-Safe [] s
parse_explicit_acks-Safe true s =
    >>=-Safe (read 1) _ s (read-Safe 1 s) (λ n t _. repeat-Safe n (read 4) t (read-Safe 4))

parse_acks-Safe : (c : Bool) (s : Input) → Safe (parse_acks c) s
unfolding parse_acks
parse_acks-Safe false s = pure-Safe ([], []) s
parse_acks-Safe true s = >>=-Safe (read 1) _ s (read-Safe 1 s) (λ n t _.
    >>=-Safe (repeat n (read 4)) _ t (repeat-Safe n (read 4) t (read-Safe 4)) (λ acks u _.
      >>=-Safe left _ u (left-Safe u) (λ here v e.
        >>=-Safe (parse_bitfields (suc (length here))) _ v
          (parse_bitfields-Safe (suc (length here)) v (ground (arith, e)))
          (λ bs w _. pure-Safe (acks, bs) w))))

parse_extended-Safe : (c : Bool) (s : Input) → Safe (parse_extended c) s
unfolding parse_extended
parse_extended-Safe false s = pure-Safe tt s
parse_extended-Safe true s = >>=-Safe (read 1) _ s (read-Safe 1 s) (λ n t _. skip_bytes-Safe n t)

-- Whatever bytes a data packet consists of, its parser reads none behind their end, and its loop
-- over the bitfields ends: it gives a packet, or throws.
pub parse_data-no_fault : (s : Input) → parse_data s ≢ err fault
unfolding parse_data
parse_data-no_fault s = >>=-Safe (read 1) _ s (read-Safe 1 s) (λ flags t _.
    >>=-Safe _ _ t (parse_explicit_acks-Safe (bit 7 flags) t) (λ explicit u _.
      >>=-Safe _ _ u (parse_acks-Safe (bit 6 flags) u) (λ acks v _.
        >>-Safe _ _ v (parse_extended-Safe (bit 1 flags) v) (λ w.
          >>=-Safe (read 1) _ w (read-Safe 1 w) (λ n x _.
            >>=-Safe _ _ x (repeat-Safe n parse_fragment x parse_fragment-Safe)
              (λ fragments y _. pure-Safe _ y))))))
