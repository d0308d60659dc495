-- ===== src/Ssu/Data/Reading.antt =====
-- src/core/router/transports/ssu/data.cc: reads at the pointer into a packet, one after the other.
use xi2p_old.Base.{
  ℕ, ◌^◌, ◌<◌, ◌≡◌, refl, ap, ◌∙◌, List, ◌++◌, take, take_all, take-append, Method, drop-append,
  length-append, length, Result, ok, err, ◌>>=◌, ◌>>◌, pure, arith,
}
use xi2p_old.ByteStream.{to_big}
use xi2p_old.ByteStream.Words.{from_big-to_big, length-to_big}
use xi2p_old.Ssu.Data.{SsuData}
use xi2p_old.Ssu.Data.Acks.{Received, raw_bytes, raw}

pub raw_bytes-append :
    (n : ℕ) (xs rest : List ℕ) (d : SsuData)
    → length xs ≡ n
    → raw_bytes n (xs ++ rest, d) ≡ ok (xs, (rest, d))
unfolding raw_bytes
raw_bytes-append n xs rest d h =
    ground (arith, length-append xs rest, take-append n xs rest h, drop-append n xs rest h)

pub bind_ok :
    {A B : Type 0} (m : Method Received A) (f : A → Method Received B) {s t : Received} {a : A}
    → m s ≡ ok (a, t)
    → (m >>= f) s ≡ f a t
unfolding ◌>>=◌
bind_ok {A} {B} m f e =
    ap
      (λ (r : Result (A × Received)). elim r as (λ _. Result (B × Received)) [
        | ok (a, t) ↦ f a t
        | err x ↦ err x
      ])
      e

pub then_ok :
    {B : Type 0} (m : Method Received (Unit {0})) (k : Method Received B) {s t : Received}
    → m s ≡ ok (tt, t)
    → (m >> k) s ≡ k t
unfolding ◌>>◌
then_ok m k e = bind_ok m (λ _. k) e

pub then_pure : (m : Method Received (Unit {0})) (s : Received) → (m >> pure tt) s ≡ m s
unfolding ◌>>=◌ ◌>>◌ pure
then_pure m s = go (m s)
  where
    go :
        (r : Result (Unit {0} × Received))
        → elim r as (λ _. Result (Unit {0} × Received)) [ ok (a, t) ↦ ok (tt, t) | err x ↦ err x ]
          ≡ r
    go (ok (a, t)) = refl
    go (err x) = refl

pub raw-to_big :
    (n v : ℕ) (rest : List ℕ) (d : SsuData)
    → v < 256 ^ n
    → raw n (to_big n v ++ rest, d) ≡ ok (v, (rest, d))
unfolding raw pure
raw-to_big n v rest d h =
    let f : take n (to_big n v) ≡ to_big n v =
      take_all n (to_big n v) (omega (arith, length-to_big n v)) in
    bind_ok (raw_bytes n) _ (raw_bytes-append n (to_big n v) rest d (length-to_big n v))
    ∙ rw (f, from_big-to_big n v h) refl
