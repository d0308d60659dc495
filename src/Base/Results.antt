-- ===== src/Base/Results.antt =====
-- Exceptions as values, and state passing for methods that may throw.
use mathlib.Core.Path.{◌≡◌, refl}

-- The standard exceptions that the code throws. `fault` is no exception: it marks an access outside
-- an allocated buffer, which C++ leaves undefined.
pub data Error : Type 0 where
  length_error invalid_argument runtime_error fault : Error

pub data Result {ℓ} (A : Type ℓ) : Type ℓ where
  ok : A → Result A
  err : Error → Result A

-- A method of an object with state S.
abbrev pub Method : Type 0 → Type 0 → Type 0
Method S A = S → Result (A × S)

infixl 5 ◌>>=◌ ◌>>◌
unfoldable pub ◌>>=◌ : {S A B : Type 0} → Method S A → (A → Method S B) → Method S B
◌>>=◌ m f s = elim (m s) [ ok (a, s') ↦ f a s' | err e ↦ err e ]

unfoldable pub ◌>>◌ : {S B : Type 0} → Method S (Unit {0}) → Method S B → Method S B
unfolding ◌>>=◌
m >> k = m >>= λ _. k

unfoldable pub pure : {S A : Type 0} → A → Method S A
pure a s = ok (a, s)

unfoldable pub throw : {S A : Type 0} → Error → Method S A
throw e s = err e

-- A result as a method that leaves the state alone.
unfoldable pub lift : {S A : Type 0} → Result A → Method S A
lift (ok a) s = ok (a, s)
lift (err e) s = err e

-- A successful bind has two successful parts.
pub >>=-eq-ok :
    {S A B : Type 0} (m : Method S A) (f : A → Method S B) (s : S) {b : B × S}
    → (m >>= f) s ≡ ok b
    → (a : A) × (t : S) × (m s ≡ ok (a, t)) × (f a t ≡ ok b)
unfolding ◌>>=◌
>>=-eq-ok {S} {A} {B} m f s {b} h = go (m s) refl h
  where
    go :
        (r : Result (A × S))
        → m s ≡ r
        → elim r as (λ _. Result (B × S)) [ ok (a, s') ↦ f a s' | err e ↦ err e ] ≡ ok b
        → (a : A) × (t : S) × (m s ≡ ok (a, t)) × (f a t ≡ ok b)
    go (ok (a, t)) e k = (a, t, e, k)
    go (err x) e k = cc
