-- ===== src/Shm/Count.antt =====
-- The number of buffers in use that the mask of libmcapi/shm/shm.c records.
use native.Mathlib.Decide.{ℕ_discrete}
use openmcapi_deprecated.Base.{
  ℕ, zero, suc, ◌+◌, ◌/◌, ◌%◌, ◌≤◌, ◌<◌, ◌≡◌, ◌≢◌, refl, sym, ap, ◌∙◌, arith, List, get_or,
}
use openmcapi_deprecated.Base.Bits.Digits.{test_bit-lt}
use openmcapi_deprecated.Shm.Mask.{bit_at}

-- The number of ones among the first m bits.
unfoldable pub ones : ℕ → List ℕ → ℕ
ones zero mask = 0
ones (suc m) mask = bit_at mask m + ones m mask

pub ones-same :
    (m : ℕ) (a b : List ℕ) → ((j : ℕ) → j < m → bit_at a j ≡ bit_at b j) → ones m a ≡ ones m b
unfolding ones
ones-same zero a b h = refl
ones-same (suc m) a b h =
    omega (arith, h m (omega arith), ones-same m a b (λ j lt. h j (omega arith)))

bit-le : (a : List ℕ) (m : ℕ) → bit_at a m ≤ 1
bit-le a m = omega (arith, test_bit-lt (get_or a (m / 32) 0) (m % 32))

pub ones-le : (m : ℕ) (a : List ℕ) → ones m a ≤ m
unfolding ones
ones-le zero a = omega arith
ones-le (suc m) a = omega (arith, ones-le m a, bit-le a m)

-- One more bit is one more one.
pub ones-more :
    (m idx : ℕ) (a b : List ℕ)
    → idx < m
    → bit_at a idx ≡ 0
    → bit_at b idx ≡ 1
    → ((j : ℕ) → idx ≢ j → bit_at b j ≡ bit_at a j)
    → ones m b ≡ ones m a + 1
unfolding ones
ones-more zero idx a b lt free used h = absurd (omega arith)
ones-more (suc m) idx a b lt free used h = elim (ℕ_discrete idx m) [
  | yes e ↦
      let rest = ones-same m b a (λ j lt'. h j (λ q. omega arith)) in
      let free' : bit_at a m ≡ 0 = ap (bit_at a) (sym e) ∙ free in
      let used' : bit_at b m ≡ 1 = ap (bit_at b) (sym e) ∙ used in omega arith
  | no d ↦ omega (arith, h m d, ones-more m idx a b (omega arith) free used h)
]
