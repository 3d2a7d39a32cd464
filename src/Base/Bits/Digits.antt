-- ===== src/Base/Bits/Digits.antt =====
-- `test_bit w i` is bit i of w: what setting and toggling a bit do to it, and to the size of a word.
use Prim.Native.Nat.{ℕ, zero, suc, ◌/◌, ◌%◌, ◌^◌, ◌<◌, max, differ, bit_or, bit_xor}
use mathlib.Core.Path.{◌≡◌, refl}
use native.Mathlib.Nat.{two-pow-succ}
use native.Mathlib.Omega.{arith}
use openmcapi_deprecated.Base.Tests.{◌==◌, if◌then◌else◌}
use openmcapi_deprecated.Base.Bits.{bit_or_step, bit_xor_step}

unfoldable pub test_bit : ℕ → ℕ → ℕ
test_bit w zero = w % 2
test_bit w (suc i) = test_bit (w / 2) i

pub test_bit-lt : (w i : ℕ) → test_bit w i < 2
unfolding test_bit
test_bit-lt w zero = omega arith
test_bit-lt w (suc i) = test_bit-lt (w / 2) i

pub test_bit-zero : (i : ℕ) → test_bit 0 i ≡ 0
unfolding test_bit
test_bit-zero zero = refl
test_bit-zero (suc i) = test_bit-zero i

pub test_bit-pow : (k i : ℕ) → test_bit (2 ^ k) i ≡ (if k == i then 1 else 0)
unfolding test_bit
test_bit-pow zero zero = refl
test_bit-pow zero (suc i) = ground (arith, test_bit-zero i)
test_bit-pow (suc k) zero = ground (arith, two-pow-succ k)
test_bit-pow (suc k) (suc i) =
    let half : 2 ^ suc k / 2 ≡ 2 ^ k = omega (arith, two-pow-succ k) in
    rw half (ground (arith, test_bit-pow k i))

differ-lt : (a b : ℕ) → a < 2 → b < 2 → differ a b < 2
differ-lt zero b p q = q
differ-lt (suc a) zero p q = p
differ-lt (suc zero) (suc zero) p q = omega arith
differ-lt (suc zero) (suc (suc b)) p q = absurd (omega arith)
differ-lt (suc (suc a)) (suc b) p q = absurd (omega arith)

pub test_bit-bit_or : (i a b : ℕ) → test_bit (bit_or a b) i ≡ max (test_bit a i) (test_bit b i)
unfolding test_bit
test_bit-bit_or zero a b = omega (arith, bit_or_step a b)
test_bit-bit_or (suc i) a b =
    let half : bit_or a b / 2 ≡ bit_or (a / 2) (b / 2) = omega (arith, bit_or_step a b) in
    rw half (test_bit-bit_or i (a / 2) (b / 2))

pub test_bit-bit_xor : (i a b : ℕ) → test_bit (bit_xor a b) i ≡ differ (test_bit a i) (test_bit b i)
unfolding test_bit
test_bit-bit_xor zero a b =
    omega (arith, bit_xor_step a b, differ-lt (a % 2) (b % 2) (omega arith) (omega arith))
test_bit-bit_xor (suc i) a b =
    let small = differ-lt (a % 2) (b % 2) (omega arith) (omega arith) in
    let half : bit_xor a b / 2 ≡ bit_xor (a / 2) (b / 2) = omega (arith, bit_xor_step a b, small) in
    rw half (test_bit-bit_xor i (a / 2) (b / 2))

pub differ_zero : (a : ℕ) → differ a 0 ≡ a
differ_zero zero = refl
differ_zero (suc a) = refl

pub two-pow-pos : (n : ℕ) → 0 < 2 ^ n
two-pow-pos zero = omega arith
two-pow-pos (suc n) = omega (arith, two-pow-succ n, two-pow-pos n)

pub two-pow-lt : (m n : ℕ) → m < n → 2 ^ m < 2 ^ n
two-pow-lt m zero h = absurd (omega arith)
two-pow-lt zero (suc n) h = omega (arith, two-pow-succ n, two-pow-pos n)
two-pow-lt (suc m) (suc n) h =
    omega (arith, two-pow-succ m, two-pow-succ n, two-pow-lt m n (omega arith))

-- Words of n bits are closed under both.
pub bit_or-lt : (n a b : ℕ) → a < 2 ^ n → b < 2 ^ n → bit_or a b < 2 ^ n
bit_or-lt zero zero zero p q = omega arith
bit_or-lt zero zero (suc b) p q = absurd (omega arith)
bit_or-lt zero (suc a) b p q = absurd (omega arith)
bit_or-lt (suc n) a b p q =
    let rest : bit_or (a / 2) (b / 2) < 2 ^ n =
      bit_or-lt n (a / 2) (b / 2) (omega (arith, two-pow-succ n)) (omega (arith, two-pow-succ n)) in
    omega (arith, bit_or_step a b, two-pow-succ n)

pub bit_xor-lt : (n a b : ℕ) → a < 2 ^ n → b < 2 ^ n → bit_xor a b < 2 ^ n
bit_xor-lt zero zero zero p q = omega arith
bit_xor-lt zero zero (suc b) p q = absurd (omega arith)
bit_xor-lt zero (suc a) b p q = absurd (omega arith)
bit_xor-lt (suc n) a b p q =
    let rest : bit_xor (a / 2) (b / 2) < 2 ^ n =
      bit_xor-lt n (a / 2) (b / 2) (omega (arith, two-pow-succ n))
        (omega (arith, two-pow-succ n)) in
    let small = differ-lt (a % 2) (b % 2) (omega arith) (omega arith) in
    omega (arith, bit_xor_step a b, two-pow-succ n)
