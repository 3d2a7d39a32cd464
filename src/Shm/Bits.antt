-- ===== src/Shm/Bits.antt =====
-- The bits of the mask that `get_sm_buff_index` and `clear_sm_buff_index` (libmcapi/shm/shm.c) change.
use mathlib.Core.Path.{subst}
use native.Mathlib.Decide.{ℕ_discrete}
use openmcapi_deprecated.Base.{
  ℕ, zero, suc, ◌-◌, ◌*◌, ◌/◌, ◌%◌, ◌^◌, ◌<◌, ◌≡◌, ◌≢◌, refl, sym, ap, ◌∙◌, some, none, arith, List,
  ◌⊎◌, length, set, get_or, get_or-set_self, get_or-set_ne, length-set, inl, inr, bit_or, bit_xor,
  eq→==, ne→==,
}
use openmcapi_deprecated.Base.Bits.Digits.{
  test_bit, test_bit-lt, test_bit-pow, two-pow-pos, two-pow-lt, differ_zero, test_bit-bit_or,
  test_bit-bit_xor, bit_or-lt, bit_xor-lt,
}
use openmcapi_deprecated.Shm.{get_sm_buff_index, clear_sm_buff_index}
use openmcapi_deprecated.Shm.Mask.{bit_at, Words, Taken, found, all_full, get_index_from-Search}
use native.Mathlib.Nat.{two-pow-succ}

test_bit-ones : (n j : ℕ) → j < n → test_bit (2 ^ n - 1) j ≡ 1
unfolding test_bit
test_bit-ones zero j h = absurd (omega arith)
test_bit-ones (suc n) zero h = omega (arith, two-pow-succ n, two-pow-pos n)
test_bit-ones (suc n) (suc j) h =
    let half : (2 ^ suc n - 1) / 2 ≡ 2 ^ n - 1 = omega (arith, two-pow-succ n, two-pow-pos n) in
    rw half (test_bit-ones n j (omega arith))

module _ (mask : List ℕ) (q w : ℕ) (in_mask : q < length mask) where
  bit_at-set_self : (j : ℕ) → j / 32 ≡ q → bit_at (set mask q w) j ≡ test_bit w (j % 32)
  bit_at-set_self j e =
      ap (λ v. test_bit v (j % 32))
        (ap (λ i. get_or (set mask q w) i 0) e ∙ get_or-set_self mask q w 0 in_mask)

  bit_at-set_ne : (j : ℕ) → j / 32 ≢ q → bit_at (set mask q w) j ≡ bit_at mask j
  bit_at-set_ne j d =
      ap (λ v. test_bit v (j % 32)) (get_or-set_ne mask q (j / 32) w 0 (λ e. d (sym e)))

  Words-set : Words mask → w < 2 ^ 32 → Words (set mask q w)
  Words-set ok h i lt = elim (ℕ_discrete q i) [
    | yes e ↦
        subst (λ v. v < 2 ^ 32)
          (sym (get_or-set_self mask q w 0 in_mask) ∙ ap (λ i. get_or (set mask q w) i 0) e) h
    | no d ↦
        subst (λ v. v < 2 ^ 32) (sym (get_or-set_ne mask q i w 0 d))
          (ok i (omega (arith, length-set mask q w)))
  ]

-- Setting and toggling bit t of a word, seen at bit j.
pow_self : (t : ℕ) → test_bit (2 ^ t) t ≡ 1
pow_self t = rw (test_bit-pow t t, eq→== t t refl) refl

pow_ne : (t j : ℕ) → t ≢ j → test_bit (2 ^ t) j ≡ 0
pow_ne t j d = rw (test_bit-pow t j, ne→== t j d) refl

or_pow_self : (w t : ℕ) → test_bit (bit_or w (2 ^ t)) t ≡ 1
or_pow_self w t = omega (arith, test_bit-bit_or t w (2 ^ t), test_bit-lt w t, pow_self t)

or_pow_ne : (w t j : ℕ) → t ≢ j → test_bit (bit_or w (2 ^ t)) j ≡ test_bit w j
or_pow_ne w t j d = omega (arith, test_bit-bit_or j w (2 ^ t), pow_ne t j d)

xor_pow_self : (w t : ℕ) → test_bit w t ≡ 1 → test_bit (bit_xor w (2 ^ t)) t ≡ 0
xor_pow_self w t h = rw (test_bit-bit_xor t w (2 ^ t), h, pow_self t) refl

xor_pow_ne : (w t j : ℕ) → t ≢ j → test_bit (bit_xor w (2 ^ t)) j ≡ test_bit w j
xor_pow_ne w t j d = rw (test_bit-bit_xor j w (2 ^ t), pow_ne t j d) (differ_zero (test_bit w j))

-- Index idx was the lowest free one of the mask, and is in use in the new mask, which is otherwise the
-- same.
pub record Claimed (mask : List ℕ) (idx : ℕ) (mask' : List ℕ) : Type 0 where
  pub in_range : idx < length mask * 32
  pub was_free : bit_at mask idx ≡ 0
  pub lowest : (j : ℕ) → j < idx → bit_at mask j ≡ 1
  pub in_use : bit_at mask' idx ≡ 1
  pub others : (j : ℕ) → idx ≢ j → bit_at mask' j ≡ bit_at mask j
  pub words : Words mask'
  pub sized : length mask' ≡ length mask

-- Index idx was in use, and is free in the new mask, which is otherwise the same.
pub record Released (mask : List ℕ) (idx : ℕ) (mask' : List ℕ) : Type 0 where
  pub now_free : bit_at mask' idx ≡ 0
  pub others : (j : ℕ) → idx ≢ j → bit_at mask' j ≡ bit_at mask j
  pub words : Words mask'
  pub sized : length mask' ≡ length mask

module _ (mask : List ℕ) (ok : Words mask) where
  Taken-Claimed : (idx : ℕ) (mask' : List ℕ) → Taken 0 mask idx mask' → Claimed mask idx mask'
  Taken-Claimed idx mask' tk =
      let w = get_or mask tk.q 0 in
      let word : idx / 32 ≡ tk.q = omega (arith, tk.index, tk.in_word) in
      let bit : idx % 32 ≡ tk.t = omega (arith, tk.index, tk.in_word) in
      let old = bit_at mask in
      subst (Claimed mask idx) (sym tk.updated) (record {
        in_range = omega (arith, tk.index, tk.in_word, tk.in_mask);
        was_free =
            ap (λ i. test_bit (get_or mask i 0) (idx % 32)) word
            ∙ ap (test_bit w) bit
            ∙ tk.first.is_zero;
        lowest = λ j lt. elim (ℕ_discrete (j / 32) tk.q) [
          | yes e ↦
              ap (λ i. test_bit (get_or mask i 0) (j % 32)) e
              ∙ tk.first.ones_below (j % 32) (omega arith)
          | no d ↦
              ap (λ v. test_bit v (j % 32)) (tk.full_before (j / 32) (omega arith))
              ∙ test_bit-ones 32 (j % 32) (omega arith)
        ];
        in_use =
            bit_at-set_self mask tk.q (bit_or w (2 ^ tk.t)) tk.in_mask idx word
            ∙ ap (test_bit (bit_or w (2 ^ tk.t))) bit
            ∙ or_pow_self w tk.t;
        others = λ j d. elim (ℕ_discrete (j / 32) tk.q) [
          | yes e ↦
              bit_at-set_self mask tk.q (bit_or w (2 ^ tk.t)) tk.in_mask j e
              ∙ or_pow_ne w tk.t (j % 32) (λ same. d (omega arith))
              ∙ ap (λ i. test_bit (get_or mask i 0) (j % 32)) (sym e)
          | no n ↦ bit_at-set_ne mask tk.q (bit_or w (2 ^ tk.t)) tk.in_mask j n
        ];
        words =
            Words-set mask tk.q (bit_or w (2 ^ tk.t)) tk.in_mask ok
              (bit_or-lt 32 w (2 ^ tk.t) (ok tk.q tk.in_mask) (two-pow-lt tk.t 32 tk.in_word));
        sized = length-set mask tk.q (bit_or w (2 ^ tk.t));
      })

  -- With words of 32 bits, `get_sm_buff_index` gives out the lowest free index and marks just that one, or
  -- gives out none when all are in use.
  pub get_sm_buff_index-lowest :
      ((get_sm_buff_index mask ≡ none) × ((j : ℕ) → j < length mask * 32 → bit_at mask j ≡ 1))
      ⊎ ((idx : ℕ) × (mask' : List ℕ) × (get_sm_buff_index mask ≡ some (idx, mask'))
          × Claimed mask idx mask')
  unfolding get_sm_buff_index
  get_sm_buff_index-lowest = elim (get_index_from-Search 0 mask ok) [
    | found idx mask' e tk ↦ inr (idx, mask', e, Taken-Claimed idx mask' tk)
    | all_full e fs ↦ inl (
      e,
      λ j lt.
          ap (λ v. test_bit v (j % 32)) (fs (j / 32) (omega arith))
          ∙ test_bit-ones 32 (j % 32) (omega arith),
    )
  ]

  -- `clear_sm_buff_index` frees an index that is in use, and no other.
  pub clear_sm_buff_index-Released :
      (idx : ℕ)
      → idx < length mask * 32
      → bit_at mask idx ≡ 1
      → Released mask idx (clear_sm_buff_index idx mask)
  unfolding clear_sm_buff_index
  clear_sm_buff_index-Released idx lt used =
      let w = get_or mask (idx / 32) 0 in
      let in_mask : idx / 32 < length mask = omega arith in
      record {
        now_free =
            bit_at-set_self mask (idx / 32) (bit_xor w (2 ^ (idx % 32))) in_mask idx refl
            ∙ xor_pow_self w (idx % 32) used;
        others = λ j d. elim (ℕ_discrete (j / 32) (idx / 32)) [
          | yes e ↦
              bit_at-set_self mask (idx / 32) (bit_xor w (2 ^ (idx % 32))) in_mask j e
              ∙ xor_pow_ne w (idx % 32) (j % 32) (λ same. d (omega arith))
              ∙ ap (λ i. test_bit (get_or mask i 0) (j % 32)) (sym e)
          | no n ↦ bit_at-set_ne mask (idx / 32) (bit_xor w (2 ^ (idx % 32))) in_mask j n
        ];
        words = Words-set mask (idx / 32) (bit_xor w (2 ^ (idx % 32))) in_mask ok (
            bit_xor-lt 32 w (2 ^ (idx % 32)) (ok (idx / 32) in_mask)
              (two-pow-lt (idx % 32) 32 (omega arith)));
        sized = length-set mask (idx / 32) (bit_xor w (2 ^ (idx % 32)));
      }
