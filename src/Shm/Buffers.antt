-- ===== src/Shm/Buffers.antt =====
-- `shm_get_buffer` and `shm_free_buffer` (libmcapi/shm/shm.c) on the mask and the count of used buffers.
use mathlib.Core.Path.{subst}
use native.Mathlib.Nat.{mod-eq_of_lt}
use native.Mathlib.Decide.{dec_le, ℕ_discrete}
use openmcapi_deprecated.Base.{
  ℕ, zero, suc, ◌+◌, ◌-◌, ◌%◌, ◌^◌, ◌≤◌, ◌<◌, ◌≡◌, ◌≢◌, refl, sym, ap, ◌∙◌, ◌⊎◌, inl, inr, Bool,
  true, false, ◌||◌, some, none, arith, some-eq, List, [], ◌∷◌, length, le→leb, gt→leb, ◌==◌, eq→==,
  ne→==, Bool-cases,
}
use openmcapi_deprecated.Shm.{
  ShmRoute, MgmtBlock, low_pri_buf_cont, get_sm_buff_index, clear_sm_buff_index, get_buffer_from,
  shm_get_buffer, shm_free_buffer,
}
use openmcapi_deprecated.Shm.Mask.{bit_at, Words}
use openmcapi_deprecated.Shm.Bits.{
  Claimed, Released, get_sm_buff_index-lowest, clear_sm_buff_index-Released,
}
use openmcapi_deprecated.Shm.Count.{ones, ones-le, ones-more}

-- The block counts the buffers in use, and has 128 of them.
pub record BlockValid (b : MgmtBlock) : Type 0 where
  pub sized : length b.buff_bit_mask ≡ 4
  pub words : Words b.buff_bit_mask
  pub counted : b.buff_count ≡ ones 128 b.buff_bit_mask

none-some : {a : ℕ} → none ≢ some a
none-some e = cc

or_right : (a b : Bool) → a ≡ false → (a || b) ≡ true → b ≡ true
or_right true b e h = cc
or_right false b e h = h

-- The route of a node is in the list.
unfoldable pub has_route : ℕ → List ShmRoute → Bool
has_route node_id [] = false
has_route node_id (r ∷ rs) = (r.node_id == node_id) || has_route node_id rs

-- What giving a buffer out does to the block.
pub record Given (b : MgmtBlock) (idx : ℕ) (b' : MgmtBlock) : Type 0 where
  pub in_range : idx < 128
  pub claimed : Claimed b.buff_bit_mask idx b'.buff_bit_mask
  pub count : b'.buff_count ≡ b.buff_count + 1
  pub valid : BlockValid b'

module _ (node_id : ℕ) (b : MgmtBlock) (v : BlockValid b) where
  given :
      (idx : ℕ) (mask : List ℕ)
      → Claimed b.buff_bit_mask idx mask
      → Given b idx (record b { buff_bit_mask = mask; buff_count = (b.buff_count + 1) % 2 ^ 32 })
  given idx mask c =
      let lt : idx < 128 = omega (arith, c.in_range, v.sized) in
      let more = ones-more 128 idx b.buff_bit_mask mask lt c.was_free c.in_use c.others in
      let small : b.buff_count + 1 < 2 ^ 32 =
        omega (arith, v.counted, ones-le 128 b.buff_bit_mask) in
      record {
        in_range = lt;
        claimed = c;
        count = mod-eq_of_lt small;
        valid = record {
          sized = c.sized ∙ v.sized;
          words = c.words;
          counted = mod-eq_of_lt small ∙ ap (λ n. n + 1) v.counted ∙ sym more;
        };
      }

  from_none :
      (rs : List ShmRoute)
      → get_sm_buff_index b.buff_bit_mask ≡ none
      → get_buffer_from rs node_id b ≡ (none, b)
  unfolding get_buffer_from
  from_none [] e = refl
  from_none (r ∷ rs) e = elim (Bool-cases (r.node_id == node_id)) [
    | inl q ↦ rw (get_buffer_from, q, e) (from_none rs e)
    | inr q ↦ rw (get_buffer_from, q) (from_none rs e)
  ]

  from_some :
      (rs : List ShmRoute) (idx : ℕ) (mask : List ℕ)
      → has_route node_id rs ≡ true
      → get_sm_buff_index b.buff_bit_mask ≡ some (idx, mask)
      → get_buffer_from rs node_id b
        ≡ (some idx, record b { buff_bit_mask = mask; buff_count = (b.buff_count + 1) % 2 ^ 32 })
  unfolding get_buffer_from has_route
  from_some [] idx mask h e = cc
  from_some (r ∷ rs) idx mask h e = elim (Bool-cases (r.node_id == node_id)) [
    | inl q ↦ rw (get_buffer_from, q, e) refl
    | inr q ↦
        rw (get_buffer_from, q)
          (from_some rs idx mask (or_right (r.node_id == node_id) (has_route node_id rs) q h) e)
  ]

  -- A block with less than 128 buffers in use has a free one.
  all_used : ((j : ℕ) → j < 128 → bit_at b.buff_bit_mask j ≡ 1) → b.buff_count ≡ 128
  unfolding ones
  all_used h = v.counted ∙ full 128 (omega arith)
    where
      full : (m : ℕ) → m ≤ 128 → ones m b.buff_bit_mask ≡ m
      full zero le = refl
      full (suc m) le = omega (arith, full m (omega arith), h m (omega arith))

  admitted :
      (priority : ℕ)
      → (priority ≡ 0) ⊎ (b.buff_count ≤ low_pri_buf_cont)
      → shm_get_buffer node_id priority b ≡ get_buffer_from b.routes node_id b
  unfolding shm_get_buffer
  admitted priority (inl e) = rw (shm_get_buffer, eq→== priority 0 e) refl
  admitted priority (inr le) = elim (Bool-cases (priority == 0)) [
    | inl q ↦ rw (shm_get_buffer, q) refl
    | inr q ↦ rw (shm_get_buffer, q, le→leb _ _ le) refl
  ]

  -- In a valid block with a route to the node and fewer than 128 buffers in use, `shm_get_buffer` gives a
  -- request of priority 0, or any request while at most 96 are in use, the lowest free buffer: it is in
  -- use afterwards, every other buffer is as before, and the count is one more and still right.
  pub shm_get_buffer-Given :
      (priority : ℕ)
      → has_route node_id b.routes ≡ true
      → b.buff_count < 128
      → (priority ≡ 0) ⊎ (b.buff_count ≤ low_pri_buf_cont)
      → (idx : ℕ) × (b' : MgmtBlock) × (shm_get_buffer node_id priority b ≡ (some idx, b'))
        × Given b idx b'
  shm_get_buffer-Given priority route room allowed =
      elim (get_sm_buff_index-lowest b.buff_bit_mask v.words) [
        | inl (e, used) ↦
            let full = all_used (λ j lt. used j (omega (arith, v.sized))) in absurd (omega arith)
        | inr (idx, mask, e, c) ↦ (
          idx,
          record b { buff_bit_mask = mask; buff_count = (b.buff_count + 1) % 2 ^ 32 },
          admitted priority allowed ∙ from_some b.routes idx mask route e,
          given idx mask c,
        )
      ]

  -- A request of another priority gets nothing while more than 96 are in use, and a request of any
  -- priority gets nothing when all 128 are; the block stays as it is.
  pub shm_get_buffer-refuses :
      (priority : ℕ)
      → ((priority ≢ 0) × (low_pri_buf_cont < b.buff_count)) ⊎ (b.buff_count ≡ 128)
      → shm_get_buffer node_id priority b ≡ (none, b)
  unfolding shm_get_buffer
  shm_get_buffer-refuses priority (inl (ne, more)) =
      rw (shm_get_buffer, ne→== priority 0 ne, gt→leb b.buff_count 96 (λ le. omega arith)) refl
  shm_get_buffer-refuses priority (inr full) =
      elim (get_sm_buff_index-lowest b.buff_bit_mask v.words) [
        | inl (e, used) ↦ elim (ℕ_discrete priority 0) [
          | yes z ↦ admitted priority (inl z) ∙ from_none b.routes e
          | no nz ↦
              rw (shm_get_buffer, ne→== priority 0 nz, gt→leb b.buff_count 96 (λ le. omega arith))
                refl
        ]
        | inr (idx, mask, e, c) ↦
            let g = given idx mask c in
            absurd (omega (arith, g.count, g.valid.counted, ones-le 128 mask))
      ]

module _ (b : MgmtBlock) (v : BlockValid b) where
  -- `shm_free_buffer` of a buffer in use frees it and no other, and the count is one less and still
  -- right.
  pub shm_free_buffer-Released :
      (idx : ℕ)
      → idx < 128
      → bit_at b.buff_bit_mask idx ≡ 1
      → Released b.buff_bit_mask idx (shm_free_buffer idx b).buff_bit_mask
        × (b.buff_count ≡ (shm_free_buffer idx b).buff_count + 1)
        × BlockValid (shm_free_buffer idx b)
  unfolding shm_free_buffer
  shm_free_buffer-Released idx lt used =
      let r =
        clear_sm_buff_index-Released b.buff_bit_mask v.words idx (omega (arith, v.sized)) used in
      let more =
        ones-more 128 idx (clear_sm_buff_index idx b.buff_bit_mask) b.buff_bit_mask lt r.now_free
          used (λ j d. sym (r.others j d)) in
      let less : (b.buff_count + (2 ^ 32 - 1)) % 2 ^ 32
          ≡ ones 128 (clear_sm_buff_index idx b.buff_bit_mask) =
        omega (arith, v.counted, more, ones-le 128 b.buff_bit_mask) in
      (
        r,
        omega (arith, less, more, v.counted),
        record { sized = r.sized ∙ v.sized; words = r.words; counted = less },
      )

-- A buffer of a valid block that is given out and freed again leaves every bit of the mask and the count as they
-- were.
pub shm_free_buffer-shm_get_buffer :
    (node_id priority idx : ℕ) (b b' : MgmtBlock)
    → BlockValid b
    → has_route node_id b.routes ≡ true
    → shm_get_buffer node_id priority b ≡ (some idx, b')
    → ((j : ℕ) → bit_at (shm_free_buffer idx b').buff_bit_mask j ≡ bit_at b.buff_bit_mask j)
      × ((shm_free_buffer idx b').buff_count ≡ b.buff_count)
shm_free_buffer-shm_get_buffer node_id priority idx b b' v route run =
    let g = given_result in
    let (r, less, valid) = shm_free_buffer-Released b' g.valid idx g.in_range g.claimed.in_use in
    (
      (λ j. elim (ℕ_discrete idx j) [
        | yes e ↦
            subst (λ i. bit_at (shm_free_buffer idx b').buff_bit_mask i ≡ bit_at b.buff_bit_mask i)
              e (r.now_free ∙ sym g.claimed.was_free)
        | no d ↦ r.others j d ∙ g.claimed.others j d
      ]),
      omega (arith, less, g.count),
    )
  where
    same_result :
        {i : ℕ} {c : MgmtBlock}
        → shm_get_buffer node_id priority b ≡ (some i, c)
        → Given b i c
        → Given b idx b'
    same_result {i} {c} e g =
        let same : (some i, c) ≡ (some idx, b') = sym e ∙ run in
        subst (λ k. Given b k b') (some-eq (ap (λ x. x.0) same))
          (subst (Given b i) (ap (λ x. x.1) same) g)

    refused : shm_get_buffer node_id priority b ≡ (none, b) → Given b idx b'
    refused e =
        let same : (none, b) ≡ (some idx, b') = sym e ∙ run in
        let apart : none ≡ some idx = ap (λ x. x.0) same in absurd (none-some apart)

    given_result : Given b idx b'
    given_result = elim (dec_le 128 b.buff_count) [
      | yes full ↦ refused (
          shm_get_buffer-refuses node_id b v priority
            (inr (omega (arith, v.counted, ones-le 128 b.buff_bit_mask))))
      | no room ↦ elim (ℕ_discrete priority 0) [
        | yes z ↦
            let (i, c, e, g) =
              shm_get_buffer-Given node_id b v priority route (omega arith) (inl z) in
            same_result e g
        | no nz ↦ elim (dec_le b.buff_count 96) [
          | yes le ↦
              let (i, c, e, g) =
                shm_get_buffer-Given node_id b v priority route (omega arith) (inr le) in
              same_result e g
          | no gt ↦ refused (shm_get_buffer-refuses node_id b v priority (inl (nz, omega arith)))
        ]
      ]
    ]
