-- ===== src/Shm/FirstZero.antt =====
-- `get_first_zero_bit` (libmcapi/shm/shm.c).
use native.Mathlib.Nat.{two-pow-succ}
use native.Mathlib.Decide.{ℕ_discrete}
use openmcapi_deprecated.Base.{
  ℕ, zero, suc, ◌+◌, ◌-◌, ◌/◌, ◌%◌, ◌^◌, ◌<◌, ◌≡◌, ◌≢◌, refl, ap, ◌∙◌, Bool, true, false, ◌&&◌,
  arith, bit_and, ◌==◌, ==→eq,
}
use openmcapi_deprecated.Base.Bits.{bit_and_step}
use openmcapi_deprecated.Base.Bits.Digits.{test_bit}
use openmcapi_deprecated.Shm.{count_ones, get_first_zero_bit}

-- Bit k of w is its lowest zero bit.
pub record FirstZero (w k : ℕ) : Type 0 where
  pub is_zero : test_bit w k ≡ 0
  pub ones_below : (j : ℕ) → j < k → test_bit w j ≡ 1

-- A word and its complement have no bit in common.
bit_and-complement : (n a : ℕ) → a < 2 ^ n → bit_and (2 ^ n - 1 - a) a ≡ 0
bit_and-complement zero zero h = omega arith
bit_and-complement zero (suc a) h = absurd (omega arith)
bit_and-complement (suc n) a h =
    let half : (2 ^ suc n - 1 - a) / 2 ≡ 2 ^ n - 1 - a / 2 = omega (arith, two-pow-succ n) in
    let rest : bit_and ((2 ^ suc n - 1 - a) / 2) (a / 2) ≡ 0 =
      rw half (bit_and-complement n (a / 2) (omega (arith, two-pow-succ n))) in
    omega (arith, bit_and_step (2 ^ suc n - 1 - a) a, two-pow-succ n)

-- Of a word of n bits that is not all ones, the complement and its two's complement have one bit in
-- common: the lowest zero of the word.
record LowZero (n w : ℕ) : Type 0 where
  k : ℕ
  near : k < n
  first : FirstZero w k
  common : bit_and (2 ^ n - 1 - w) (w + 1) ≡ 2 ^ k

first_at_even : (w : ℕ) → w % 2 ≡ 0 → FirstZero w 0
unfolding test_bit
first_at_even w h = record { is_zero = h; ones_below = λ j lt. absurd (omega arith) }

first_at_odd : (w k : ℕ) → w % 2 ≡ 1 → FirstZero (w / 2) k → FirstZero w (suc k)
unfolding test_bit
first_at_odd w k h f = record { is_zero = f.is_zero; ones_below = below }
  where
    below : (j : ℕ) → j < suc k → test_bit w j ≡ 1
    below zero lt = h
    below (suc j) lt = f.ones_below j (omega arith)

low_zero : (n w : ℕ) → w < 2 ^ n → w ≢ 2 ^ n - 1 → LowZero n w
low_zero zero w h d = absurd (d (omega arith))
low_zero (suc n) w h d = elim (ℕ_discrete (w % 2) 0) [
  | yes even ↦
      let half : (2 ^ suc n - 1 - w) / 2 ≡ 2 ^ n - 1 - w / 2 = omega (arith, two-pow-succ n) in
      let half' : (w + 1) / 2 ≡ w / 2 = omega arith in
      let rest : bit_and ((2 ^ suc n - 1 - w) / 2) ((w + 1) / 2) ≡ 0 =
        rw (half, half') (bit_and-complement n (w / 2) (omega (arith, two-pow-succ n))) in
      record {
        k = 0;
        near = omega arith;
        first = first_at_even w even;
        common = omega (arith, bit_and_step (2 ^ suc n - 1 - w) (w + 1), two-pow-succ n);
      }
  | no odd ↦
      let r =
        low_zero n (w / 2) (omega (arith, two-pow-succ n))
          (λ e. d (omega (arith, two-pow-succ n))) in
      let half : (2 ^ suc n - 1 - w) / 2 ≡ 2 ^ n - 1 - w / 2 = omega (arith, two-pow-succ n) in
      let half' : (w + 1) / 2 ≡ w / 2 + 1 = omega arith in
      let rest : bit_and ((2 ^ suc n - 1 - w) / 2) ((w + 1) / 2) ≡ 2 ^ r.k =
        rw (half, half') r.common in
      record {
        k = suc r.k;
        near = omega (arith, r.near);
        first = first_at_odd w r.k (omega arith) r.first;
        common =
            omega
              (arith, bit_and_step (2 ^ suc n - 1 - w) (w + 1), two-pow-succ n, two-pow-succ r.k);
      }
]

all_below : ℕ → (ℕ → Bool) → Bool
all_below zero f = true
all_below (suc n) f = f n && all_below n f

all_below-at : (n : ℕ) (f : ℕ → Bool) (k : ℕ) → all_below n f ≡ true → k < n → f k ≡ true
unfolding all_below
all_below-at zero f k h lt = absurd (omega arith)
all_below-at (suc n) f k h lt = elim (ℕ_discrete k n) [
  | yes e ↦ rw e (both (f n) (all_below n f) h).0
  | no ne ↦ all_below-at n f k (both (f n) (all_below n f) h).1 (omega arith)
]
  where
    both : (a b : Bool) → (a && b) ≡ true → (a ≡ true) × (b ≡ true)
    both true b h = (refl, h)
    both false b h = cc

counts : all_below 32 (λ k. count_ones ((2 ^ k + (2 ^ 32 - 1)) % 2 ^ 32) == k) ≡ true
unfolding all_below count_ones
counts = refl

one_bit :
    (w k : ℕ)
    → w < 2 ^ 32 - 1
    → bit_and (2 ^ 32 - 1 - w) (w + 1) ≡ 2 ^ k
    → get_first_zero_bit w ≡ count_ones ((2 ^ k + (2 ^ 32 - 1)) % 2 ^ 32)
unfolding get_first_zero_bit
one_bit w k h e =
    let negated : (2 ^ 32 - (2 ^ 32 - 1 - w)) % 2 ^ 32 ≡ w + 1 = omega arith in
    ap (λ m. count_ones ((bit_and (2 ^ 32 - 1 - w) m + (2 ^ 32 - 1)) % 2 ^ 32)) negated
    ∙ ap (λ m. count_ones ((m + (2 ^ 32 - 1)) % 2 ^ 32)) e

-- For a 32-bit word that is not all ones, `get_first_zero_bit` returns the index of its lowest zero
-- bit, which is less than 32.
pub get_first_zero_bit-FirstZero :
    (w : ℕ)
    → w < 2 ^ 32
    → w ≢ 2 ^ 32 - 1
    → (get_first_zero_bit w < 32) × FirstZero w (get_first_zero_bit w)
get_first_zero_bit-FirstZero w h d =
    let l = low_zero 32 w h d in
    let same : get_first_zero_bit w ≡ l.k =
      one_bit w l.k (omega arith) l.common
      ∙ ==→eq _ _ (
          all_below-at 32 (λ k. count_ones ((2 ^ k + (2 ^ 32 - 1)) % 2 ^ 32) == k) l.k counts
            l.near) in
    rw same (l.near, l.first)

-- For the word of all ones it returns 33.
pub get_first_zero_bit-full : get_first_zero_bit (2 ^ 32 - 1) ≡ 33
unfolding get_first_zero_bit count_ones
get_first_zero_bit-full = refl
