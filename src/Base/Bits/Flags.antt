-- ===== src/Base/Bits/Flags.antt =====
-- Single bits of a word of flags, as the test `s & f` sees them after `s |= f` and `s &= m`.
use Prim.Native.Nat.{ℕ, zero, suc, ◌*◌, ◌/◌, ◌^◌, ◌<◌, min, max, bit_and, bit_or}
use mathlib.Core.Path.{◌≡◌, refl, ap, ◌∙◌, sym}
use mathlib.Core.Bool.{Bool, not, ◌&&◌, ◌||◌}
use native.Mathlib.Nat.{two-pow-succ}
use native.Mathlib.Omega.{arith}
use openmcapi_deprecated.Base.Tests.{◌==◌, ne→==}
use openmcapi_deprecated.Base.Bits.{bit_and_step}
use openmcapi_deprecated.Base.Bits.Digits.{test_bit, test_bit-lt, test_bit-bit_or, two-pow-pos}
use openmcapi_deprecated.Base.Bits.Fields.{bit_and-no_digit}

-- `s & f`, as a condition
abbrev pub has_flag : ℕ → ℕ → Bool
has_flag s f = not (bit_and s f == 0)

test_bit-bit_and : (i a b : ℕ) → test_bit (bit_and a b) i ≡ min (test_bit a i) (test_bit b i)
unfolding test_bit
test_bit-bit_and zero a b = omega (arith, bit_and_step a b)
test_bit-bit_and (suc i) a b =
    let half : bit_and a b / 2 ≡ bit_and (a / 2) (b / 2) = omega (arith, bit_and_step a b) in
    rw half (test_bit-bit_and i (a / 2) (b / 2))

bit_and-pow : (j s : ℕ) → bit_and s (2 ^ j) ≡ test_bit s j * 2 ^ j
unfolding test_bit
bit_and-pow zero s = omega (arith, bit_and_step s 1, bit_and-no_digit (s / 2) (s / 2) (omega arith))
bit_and-pow (suc j) s =
    let half : 2 ^ suc j / 2 ≡ 2 ^ j = omega (arith, two-pow-succ j) in
    let rest : bit_and (s / 2) (2 ^ suc j / 2) ≡ test_bit (s / 2) j * 2 ^ j =
      rw half (bit_and-pow j (s / 2)) in
    omega (
      arith,
      bit_and_step s (2 ^ suc j),
      two-pow-succ j,
      ap (λ (t : ℕ). test_bit (s / 2) j * t) (two-pow-succ j),
    )

-- The test of bit j is the bit.
has_flag-test_bit : (j s : ℕ) → has_flag s (2 ^ j) ≡ (test_bit s j == 1)
has_flag-test_bit j s = bit (test_bit s j) (test_bit-lt s j) (bit_and-pow j s)
  where
    bit : (t : ℕ) → t < 2 → bit_and s (2 ^ j) ≡ t * 2 ^ j → has_flag s (2 ^ j) ≡ (t == 1)
    bit zero h e = let z : 0 * 2 ^ j ≡ 0 = omega arith in ap (λ m. not (m == 0)) (e ∙ z)
    bit (suc zero) h e = ap not (ne→== (bit_and s (2 ^ j)) 0 (λ z. omega (arith, two-pow-pos j)))
    bit (suc (suc t)) h e = absurd (omega arith)

max_one : (a b : ℕ) → a < 2 → b < 2 → (max a b == 1) ≡ ((a == 1) || (b == 1))
max_one zero zero h k = refl
max_one zero (suc zero) h k = refl
max_one (suc zero) zero h k = refl
max_one (suc zero) (suc zero) h k = refl
max_one (suc (suc a)) b h k = absurd (omega arith)
max_one zero (suc (suc b)) h k = absurd (omega arith)
max_one (suc zero) (suc (suc b)) h k = absurd (omega arith)

min_one : (a b : ℕ) → a < 2 → b < 2 → (min a b == 1) ≡ ((a == 1) && (b == 1))
min_one zero zero h k = refl
min_one zero (suc zero) h k = refl
min_one (suc zero) zero h k = refl
min_one (suc zero) (suc zero) h k = refl
min_one (suc (suc a)) b h k = absurd (omega arith)
min_one zero (suc (suc b)) h k = absurd (omega arith)
min_one (suc zero) (suc (suc b)) h k = absurd (omega arith)

-- After `s |= f`.
pub has_flag-or :
    (j s f : ℕ) → has_flag (bit_or s f) (2 ^ j) ≡ (has_flag s (2 ^ j) || has_flag f (2 ^ j))
has_flag-or j s f =
    has_flag-test_bit j (bit_or s f)
    ∙ ap (λ t. t == 1) (test_bit-bit_or j s f)
    ∙ max_one (test_bit s j) (test_bit f j) (test_bit-lt s j) (test_bit-lt f j)
    ∙ ap (λ b. b || (test_bit f j == 1)) (sym (has_flag-test_bit j s))
    ∙ ap (λ b. has_flag s (2 ^ j) || b) (sym (has_flag-test_bit j f))

-- After `s &= m`.
pub has_flag-and :
    (j s m : ℕ) → has_flag (bit_and s m) (2 ^ j) ≡ (has_flag s (2 ^ j) && has_flag m (2 ^ j))
has_flag-and j s m =
    has_flag-test_bit j (bit_and s m)
    ∙ ap (λ t. t == 1) (test_bit-bit_and j s m)
    ∙ min_one (test_bit s j) (test_bit m j) (test_bit-lt s j) (test_bit-lt m j)
    ∙ ap (λ b. b && (test_bit m j == 1)) (sym (has_flag-test_bit j s))
    ∙ ap (λ b. has_flag s (2 ^ j) && b) (sym (has_flag-test_bit j m))
