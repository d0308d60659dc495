-- ===== src/Base/Xor.antt =====
-- The exclusive or of numbers: doing it twice with the same number changes nothing.
use Prim.Native.Nat.{
  ℕ, zero, suc, ◌+◌, ◌*◌, ◌/◌, ◌%◌, ◌≤◌, ◌<◌, bit_xor, digits, differ, bit_xor-bitwise,
}
use mathlib.Core.Path.{◌≡◌, refl, ap, sym, ◌∙◌}
use native.Mathlib.Omega.{arith}

abbrev xor_digits : ℕ → ℕ → ℕ → ℕ
xor_digits n a b = digits (λ b. b) differ n a b

xor_digits_more : (n m a b : ℕ) → a ≤ n → a ≤ m → xor_digits n a b ≡ xor_digits m a b
xor_digits_more zero zero a b p q = refl
xor_digits_more zero (suc m) zero b p q = refl
xor_digits_more zero (suc m) (suc a) b p q = absurd (omega arith)
xor_digits_more (suc n) zero zero b p q = refl
xor_digits_more (suc n) zero (suc a) b p q = absurd (omega arith)
xor_digits_more (suc n) (suc m) zero b p q = refl
xor_digits_more (suc n) (suc m) (suc a) b p q =
    ap (λ x. x * 2 + differ (suc a % 2) (b % 2))
      (xor_digits_more n m (suc a / 2) (b / 2) (omega arith) (omega arith))

zero-bit_xor : (b : ℕ) → bit_xor 0 b ≡ b
zero-bit_xor b = bit_xor-bitwise 0 b

bit_xor_step : (a b : ℕ) → bit_xor a b ≡ bit_xor (a / 2) (b / 2) * 2 + differ (a % 2) (b % 2)
bit_xor_step zero b = zero-bit_xor b ∙ omega (arith, zero-bit_xor (b / 2))
bit_xor_step (suc a) b =
    bit_xor-bitwise (suc a) b
    ∙ ap (λ x. x * 2 + differ (suc a % 2) (b % 2))
        (xor_digits_more a (suc a / 2) (suc a / 2) (b / 2) (omega arith) (omega arith)
          ∙ sym (bit_xor-bitwise (suc a / 2) (b / 2)))

differ-lt : (p q : ℕ) → p < 2 → q < 2 → differ p q < 2
differ-lt zero q h k = k
differ-lt (suc p) zero h k = h
differ-lt (suc zero) (suc zero) h k = omega arith
differ-lt (suc zero) (suc (suc q)) h k = absurd (omega arith)
differ-lt (suc (suc p)) (suc q) h k = absurd (omega arith)

differ_twice : (p q : ℕ) → p < 2 → q < 2 → differ q (differ p q) ≡ p
differ_twice zero zero h k = refl
differ_twice zero (suc zero) h k = refl
differ_twice zero (suc (suc q)) h k = absurd (omega arith)
differ_twice (suc zero) zero h k = refl
differ_twice (suc zero) (suc zero) h k = refl
differ_twice (suc zero) (suc (suc q)) h k = absurd (omega arith)
differ_twice (suc (suc p)) q h k = absurd (omega arith)

bit_xor_twice_below : (n a b : ℕ) → a ≤ n → b ≤ n → bit_xor b (bit_xor a b) ≡ a
bit_xor_twice_below zero zero zero h k = refl
bit_xor_twice_below zero zero (suc b) h k = absurd (omega arith)
bit_xor_twice_below zero (suc a) b h k = absurd (omega arith)
bit_xor_twice_below (suc n) a b h k =
    let x = bit_xor a b in
    let y = bit_xor (a / 2) (b / 2) in
    let d = differ (a % 2) (b % 2) in
    let small : d < 2 = differ-lt (a % 2) (b % 2) (omega arith) (omega arith) in
    let half : x / 2 ≡ y = omega (arith, bit_xor_step a b, small) in
    let digit : x % 2 ≡ d = omega (arith, bit_xor_step a b, small) in
    bit_xor_step b x
    ∙ ap (λ z. bit_xor (b / 2) z * 2 + differ (b % 2) (x % 2)) half
    ∙ ap (λ z. z * 2 + differ (b % 2) (x % 2))
        (bit_xor_twice_below n (a / 2) (b / 2) (omega arith) (omega arith))
    ∙ ap (λ z. a / 2 * 2 + differ (b % 2) z) digit
    ∙ ap (λ z. a / 2 * 2 + z) (differ_twice (a % 2) (b % 2) (omega arith) (omega arith))
    ∙ omega arith

pub bit_xor_twice : (a b : ℕ) → bit_xor b (bit_xor a b) ≡ a
bit_xor_twice a b = bit_xor_twice_below (a + b) a b (omega arith) (omega arith)
