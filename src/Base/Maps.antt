-- ===== src/Base/Maps.antt =====
-- std::map as an association list in the order of its keys.
use Prim.Native.Nat.{ℕ}
use mathlib.Core.Path.{◌≡◌, refl}
use mathlib.Core.Logic.{◌≢◌}
use mathlib.Core.Option.{Option, none, some}
use mathlib.Core.List.{List, [], ◌∷◌}
use native.Mathlib.Omega.{arith}
use xi2p_old.Base.Tests.{◌==◌, ltb, if◌then◌else◌}

unfoldable pub lookup : {A : Type 0} → ℕ → List (ℕ × A) → Option A
lookup k [] = none
lookup k ((j, a) ∷ m) = if j == k then some a else lookup k m

unfoldable pub erase : {A : Type 0} → ℕ → List (ℕ × A) → List (ℕ × A)
erase k [] = []
erase k ((j, a) ∷ m) = if j == k then erase k m else (j, a) ∷ erase k m

-- The entry of a key replaced, or a new one in the order of the keys.
unfoldable pub put : {A : Type 0} → ℕ → A → List (ℕ × A) → List (ℕ × A)
put k a [] = (k, a) ∷ []
put k a ((j, b) ∷ m) =
    if j == k then (k, a) ∷ m else if ltb k j then (k, a) ∷ (j, b) ∷ m else (j, b) ∷ put k a m

-- Each key stands once.
abbrev pub Distinct : {A : Type 0} → List (ℕ × A) → Type 0
Distinct [] = Unit
Distinct ((k, a) ∷ m) = (lookup k m ≡ none) × Distinct m

module _ {A : Type 0} where
  pub lookup-erase : (k : ℕ) (m : List (ℕ × A)) → lookup k (erase k m) ≡ none
  unfolding lookup erase
  lookup-erase k [] = refl
  lookup-erase k ((j, a) ∷ m) = ground (arith, lookup-erase k m)

  pub lookup-erase_other : (k j : ℕ) (m : List (ℕ × A)) → j ≢ k → lookup j (erase k m) ≡ lookup j m
  unfolding lookup erase
  lookup-erase_other k j [] h = refl
  lookup-erase_other k j ((i, a) ∷ m) h = ground (arith, lookup-erase_other k j m h)

  pub lookup-put : (k : ℕ) (a : A) (m : List (ℕ × A)) → lookup k (put k a m) ≡ some a
  unfolding lookup put
  lookup-put k a [] = ground arith
  lookup-put k a ((j, b) ∷ m) = ground (arith, lookup-put k a m)

  pub lookup-put_other :
      (k j : ℕ) (a : A) (m : List (ℕ × A)) → j ≢ k → lookup j (put k a m) ≡ lookup j m
  unfolding lookup put
  lookup-put_other k j a [] h = ground arith
  lookup-put_other k j a ((i, b) ∷ m) h = ground (arith, lookup-put_other k j a m h)
