-- ===== src/Shm/Mask.antt =====
-- The search of `get_sm_buff_index` (libmcapi/shm/shm.c) through the words of the bit mask.
use native.Mathlib.Decide.{ℕ_discrete}
use openmcapi_deprecated.Base.{
  ℕ, zero, suc, ◌+◌, ◌-◌, ◌*◌, ◌/◌, ◌%◌, ◌^◌, ◌<◌, ◌≡◌, refl, ap, ◌∙◌, some, none, arith, List, [],
  ◌∷◌, length, set, get_or, lt→ltb, bit_or,
}
use openmcapi_deprecated.Base.Bits.Digits.{test_bit}
use openmcapi_deprecated.Shm.{get_first_zero_bit, get_index_from}
use openmcapi_deprecated.Shm.FirstZero.{
  FirstZero, get_first_zero_bit-FirstZero, get_first_zero_bit-full,
}

-- Bit j of the mask: 1 if buffer j is in use.
abbrev pub bit_at : List ℕ → ℕ → ℕ
bit_at mask j = test_bit (get_or mask (j / 32) 0) (j % 32)

-- Every word has 32 bits.
abbrev pub Words : List ℕ → Type 0
Words mask = (i : ℕ) → i < length mask → get_or mask i 0 < 2 ^ 32

-- What one search of the words from number i on has found.
pub record Taken (i : ℕ) (mask : List ℕ) (idx : ℕ) (mask' : List ℕ) : Type 0 where
  pub q : ℕ
  pub t : ℕ
  pub index : idx ≡ t + (i + q) * 32
  pub in_word : t < 32
  pub in_mask : q < length mask
  pub first : FirstZero (get_or mask q 0) t
  pub full_before : (r : ℕ) → r < q → get_or mask r 0 ≡ 2 ^ 32 - 1
  pub updated : mask' ≡ set mask q (bit_or (get_or mask q 0) (2 ^ t))

step-hit :
    (i w : ℕ) (ws : List ℕ)
    → get_first_zero_bit w < 32
    → get_index_from i (w ∷ ws)
      ≡ some (get_first_zero_bit w + i * 32, bit_or w (2 ^ get_first_zero_bit w) ∷ ws)
unfolding get_index_from
step-hit i w ws h = rw (lt→ltb _ _ h) refl

step-miss :
    (i w idx : ℕ) (ws ws' : List ℕ)
    → w ≡ 2 ^ 32 - 1
    → get_index_from (i + 1) ws ≡ some (idx, ws')
    → get_index_from i (w ∷ ws) ≡ some (idx, w ∷ ws')
unfolding get_index_from
step-miss i w idx ws ws' full e =
    let miss : get_first_zero_bit w ≡ 33 = ap get_first_zero_bit full ∙ get_first_zero_bit-full in
    rw (get_index_from, miss, e) refl

step-none :
    (i w : ℕ) (ws : List ℕ)
    → w ≡ 2 ^ 32 - 1
    → get_index_from (i + 1) ws ≡ none
    → get_index_from i (w ∷ ws) ≡ none
unfolding get_index_from
step-none i w ws full e =
    let miss : get_first_zero_bit w ≡ 33 = ap get_first_zero_bit full ∙ get_first_zero_bit-full in
    rw (get_index_from, miss, e) refl

-- The search stops at a free bit, or all words are full.
pub data Search (i : ℕ) (mask : List ℕ) : Type 0 where
  found :
      (idx : ℕ) (mask' : List ℕ)
      → get_index_from i mask ≡ some (idx, mask')
      → Taken i mask idx mask'
      → Search i mask
  all_full :
      get_index_from i mask ≡ none
      → ((r : ℕ) → r < length mask → get_or mask r 0 ≡ 2 ^ 32 - 1)
      → Search i mask

pub get_index_from-Search : (i : ℕ) (mask : List ℕ) → Words mask → Search i mask
unfolding get_index_from
get_index_from-Search i [] ok = all_full refl (λ r h. absurd (omega arith))
get_index_from-Search i (w ∷ ws) ok = elim (ℕ_discrete w (2 ^ 32 - 1)) [
  | no d ↦
      let (lt, first) = get_first_zero_bit-FirstZero w (ok 0 (omega arith)) d in
      found _ _ (step-hit i w ws lt) (record {
        q = 0;
        t = get_first_zero_bit w;
        index = omega arith;
        in_word = lt;
        in_mask = omega arith;
        first = first;
        full_before = λ r h. absurd (omega arith);
        updated = refl;
      })
  | yes full ↦ elim (get_index_from-Search (i + 1) ws (λ j h. ok (suc j) (omega arith))) [
    | found idx ws' e tk ↦ found idx (w ∷ ws') (step-miss i w idx ws ws' full e) (record {
      q = suc tk.q;
      t = tk.t;
      index = tk.index ∙ omega arith;
      in_word = tk.in_word;
      in_mask = omega (arith, tk.in_mask);
      first = tk.first;
      full_before = before full tk.q tk.full_before;
      updated = ap (λ l. w ∷ l) tk.updated;
    })
    | all_full e fs ↦ all_full (step-none i w ws full e) (before full (length ws) fs)
  ]
]
  where
    before :
        w ≡ 2 ^ 32 - 1
        → (q : ℕ) → ((r : ℕ) → r < q → get_or ws r 0 ≡ 2 ^ 32 - 1)
        → (r : ℕ) → r < suc q
        → get_or (w ∷ ws) r 0 ≡ 2 ^ 32 - 1
    before full q h zero lt = full
    before full q h (suc r) lt = h r (omega arith)
