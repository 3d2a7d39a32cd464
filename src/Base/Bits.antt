-- ===== src/Base/Bits.antt =====
-- The native `bit_and`, `bit_or` and `bit_xor` by their lowest digit. Digits reads single bits of
-- a word, Fields the halves of a packed word.
pub mod Digits
pub mod Fields
pub mod Flags
use Prim.Native.Nat.{
  ℕ, zero, suc, ◌+◌, ◌*◌, ◌/◌, ◌%◌, ◌≤◌, min, max, digits, differ, bit_and, bit_or, bit_xor,
  bit_and-bitwise, bit_or-bitwise, bit_xor-bitwise,
}
use mathlib.Core.Path.{◌≡◌, refl, ap}
use native.Mathlib.Omega.{arith}

-- More fuel than the first number needs changes nothing.
enough_digits :
    (last : ℕ → ℕ) (op : ℕ → ℕ → ℕ) (f a b : ℕ)
    → a ≤ f
    → digits last op f a b ≡ digits last op a a b
enough_digits last op f a b h = both f a a b h (omega arith)
  where
    both : (f g a b : ℕ) → a ≤ f → a ≤ g → digits last op f a b ≡ digits last op g a b
    both zero zero a b p q = refl
    both zero (suc g) zero b p q = refl
    both zero (suc g) (suc a) b p q = absurd (omega arith)
    both (suc f) zero zero b p q = refl
    both (suc f) zero (suc a) b p q = absurd (omega arith)
    both (suc f) (suc g) zero b p q = refl
    both (suc f) (suc g) (suc a) b p q =
        ap (λ t. t * 2 + op (suc a % 2) (b % 2))
          (both f g (suc a / 2) (b / 2) (omega arith) (omega arith))

pub bit_and_step : (a b : ℕ) → bit_and a b ≡ bit_and (a / 2) (b / 2) * 2 + min (a % 2) (b % 2)
bit_and_step zero b = omega (arith, bit_and-bitwise 0 b, bit_and-bitwise 0 (b / 2))
bit_and_step (suc a) b = omega (
  arith,
  bit_and-bitwise (suc a) b,
  bit_and-bitwise (suc a / 2) (b / 2),
  enough_digits (λ _. zero) min a (suc a / 2) (b / 2) (omega arith),
)

pub bit_or_step : (a b : ℕ) → bit_or a b ≡ bit_or (a / 2) (b / 2) * 2 + max (a % 2) (b % 2)
bit_or_step zero b = omega (arith, bit_or-bitwise 0 b, bit_or-bitwise 0 (b / 2))
bit_or_step (suc a) b = omega (
  arith,
  bit_or-bitwise (suc a) b,
  bit_or-bitwise (suc a / 2) (b / 2),
  enough_digits (λ y. y) max a (suc a / 2) (b / 2) (omega arith),
)

pub bit_xor_step : (a b : ℕ) → bit_xor a b ≡ bit_xor (a / 2) (b / 2) * 2 + differ (a % 2) (b % 2)
bit_xor_step zero b = omega (arith, bit_xor-bitwise 0 b, bit_xor-bitwise 0 (b / 2))
bit_xor_step (suc a) b = omega (
  arith,
  bit_xor-bitwise (suc a) b,
  bit_xor-bitwise (suc a / 2) (b / 2),
  enough_digits (λ y. y) differ a (suc a / 2) (b / 2) (omega arith),
)
