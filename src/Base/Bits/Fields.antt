-- ===== src/Base/Bits/Fields.antt =====
-- Packed words: `q * 2 ^ k + r` with r below `2 ^ k` has the fields q and r, and the masks
-- `0xffff` and `0xffff0000` take them apart.
use Prim.Native.Nat.{ℕ, zero, suc, ◌+◌, ◌*◌, ◌/◌, ◌^◌, ◌<◌, bit_and, bit_or}
use mathlib.Core.Path.{◌≡◌, refl, ap}
use native.Mathlib.Nat.{two-pow-succ}
use native.Mathlib.Omega.{arith}
use openmcapi_deprecated.Base.Bits.{bit_and_step, bit_or_step}

-- Shifting by one more place doubles.
mul-pow-suc : (q k : ℕ) → q * 2 ^ suc k ≡ 2 * (q * 2 ^ k)
mul-pow-suc q k = omega (arith, ap (λ (t : ℕ). q * t) (two-pow-succ k))

pub bit_and-no_digit : (f a : ℕ) → a < suc f → bit_and a 0 ≡ 0
bit_and-no_digit f zero h = refl
bit_and-no_digit zero (suc a) h = absurd (omega arith)
bit_and-no_digit (suc f) (suc a) h =
    omega (arith, bit_and_step (suc a) 0, bit_and-no_digit f (suc a / 2) (omega arith))

bit_or-no_digit : (f a : ℕ) → a < suc f → bit_or a 0 ≡ a
bit_or-no_digit f zero h = refl
bit_or-no_digit zero (suc a) h = absurd (omega arith)
bit_or-no_digit (suc f) (suc a) h =
    omega (arith, bit_or_step (suc a) 0, bit_or-no_digit f (suc a / 2) (omega arith))

pub bit_or-pack : (k q r : ℕ) → r < 2 ^ k → bit_or (q * 2 ^ k) r ≡ q * 2 ^ k + r
bit_or-pack zero q zero h = omega (arith, bit_or-no_digit (q * 1) (q * 1) (omega arith))
bit_or-pack zero q (suc r) h = absurd (omega arith)
bit_or-pack (suc k) q r h =
    let half : q * 2 ^ suc k / 2 ≡ q * 2 ^ k = omega (arith, mul-pow-suc q k) in
    let rest = bit_or-pack k q (r / 2) (omega (arith, two-pow-succ k)) in
    omega
      (arith, bit_or_step (q * 2 ^ suc k) r, ap (λ t. bit_or t (r / 2)) half, rest, mul-pow-suc q k)

-- A mask of k ones keeps the low field.
pub bit_and-low : (k q r m : ℕ) → r < 2 ^ k → suc m ≡ 2 ^ k → bit_and (q * 2 ^ k + r) m ≡ r
bit_and-low zero q r zero h e =
    omega (arith, bit_and-no_digit (q * 1 + r) (q * 1 + r) (omega arith))
bit_and-low zero q r (suc m) h e = absurd (omega arith)
bit_and-low (suc k) q r m h e =
    let half : (q * 2 ^ suc k + r) / 2 ≡ q * 2 ^ k + r / 2 = omega (arith, mul-pow-suc q k) in
    let rest =
      bit_and-low k q (r / 2) (m / 2) (omega (arith, two-pow-succ k))
        (omega (arith, two-pow-succ k)) in
    omega (
      arith,
      bit_and_step (q * 2 ^ suc k + r) m,
      ap (λ t. bit_and t (m / 2)) half,
      rest,
      two-pow-succ k,
      mul-pow-suc q k,
    )

-- A mask with k low zeros acts on the high field alone.
pub bit_and-high :
    (k q r m : ℕ) → r < 2 ^ k → bit_and (q * 2 ^ k + r) (m * 2 ^ k) ≡ bit_and q m * 2 ^ k
bit_and-high zero q zero m h =
    let same : q * 1 + 0 ≡ q = omega arith in
    let mask : m * 1 ≡ m = omega arith in
    omega (arith, ap (λ t. bit_and t (m * 1)) same, ap (λ t. bit_and q t) mask)
bit_and-high zero q (suc r) m h = absurd (omega arith)
bit_and-high (suc k) q r m h =
    let half : (q * 2 ^ suc k + r) / 2 ≡ q * 2 ^ k + r / 2 = omega (arith, mul-pow-suc q k) in
    let mask : m * 2 ^ suc k / 2 ≡ m * 2 ^ k = omega (arith, mul-pow-suc m k) in
    let rest = bit_and-high k q (r / 2) m (omega (arith, two-pow-succ k)) in
    omega (
      arith,
      bit_and_step (q * 2 ^ suc k + r) (m * 2 ^ suc k),
      ap (λ t. bit_and t (m * 2 ^ suc k / 2)) half,
      ap (λ t. bit_and (q * 2 ^ k + r / 2) t) mask,
      rest,
      mul-pow-suc q k,
      mul-pow-suc m k,
      mul-pow-suc (bit_and q m) k,
    )
