-- ===== src/Shm/Tests.antt =====
-- The theorems on libmcapi/shm/shm.c at a block that has just been set up, and at one with a buffer in use.
use openmcapi_deprecated.Base.{
  ℕ, zero, suc, ◌≡◌, ◌≢◌, refl, inr, none, some, true, List, [], ◌∷◌, ◌++◌, arith, length,
  replicate,
}
use openmcapi_deprecated.Base.Bits.Digits.{test_bit}
use openmcapi_deprecated.Status
use openmcapi_deprecated.Shm.{
  MgmtBlock, DescQ, q_size, blank_desc, count_ones, get_first_zero_bit, get_index_from,
  get_sm_buff_index, get_buffer_from, shm_get_buffer, shm_free_buffer, enqueue_sm_ring_q,
}
use openmcapi_deprecated.Shm.Mask.{bit_at, Words}
use openmcapi_deprecated.Shm.Count.{ones}
use openmcapi_deprecated.Shm.Buffers.{
  BlockValid, Given, has_route, shm_get_buffer-Given, shm_get_buffer-refuses,
  shm_free_buffer-shm_get_buffer,
}
use openmcapi_deprecated.Shm.Ring.{contents, window, RingValid, desc_of, enqueue_sm_ring_q-append}
use openmcapi_deprecated.Shm.Fifo.{put, take, run_ring, run_list, run_ring-run_list}

abbrev in_use : List ℕ
in_use = 0xffff_ffff ∷ 5 ∷ 0 ∷ 0 ∷ []

in_use-Words : Words in_use
in_use-Words zero h = omega arith
in_use-Words (suc zero) h = omega arith
in_use-Words (suc (suc zero)) h = omega arith
in_use-Words (suc (suc (suc zero))) h = omega arith
in_use-Words (suc (suc (suc (suc i)))) h = absurd (omega arith)

lowest_run : get_sm_buff_index in_use ≡ some (33, 0xffff_ffff ∷ 7 ∷ 0 ∷ 0 ∷ [])
unfolding get_sm_buff_index get_index_from get_first_zero_bit count_ones
lowest_run = refl

bit_run : bit_at in_use 34 ≡ 1
unfolding test_bit
bit_run = refl

abbrev idle_ring : DescQ
idle_ring = record { pkt_desc_q = replicate 16 blank_desc; put_idx = 0; count = 0; get_idx = 0 }

abbrev block : MgmtBlock
block = record {
  routes = record { node_id = 1; unit_id = 0 } ∷ [];
  queues = idle_ring ∷ idle_ring ∷ [];
  buff_bit_mask = in_use;
  buff_count = 34;
  init_field = 0xef56a55a;
}

block-BlockValid : BlockValid block
unfolding ones test_bit
block-BlockValid = record { sized = refl; words = in_use-Words; counted = refl }

route_run : has_route 1 block.routes ≡ true
unfolding has_route
route_run = refl

shm_get_buffer-Given_example :
    (idx : ℕ) × (b' : MgmtBlock) × (shm_get_buffer 1 1 block ≡ (some idx, b')) × Given block idx b'
shm_get_buffer-Given_example =
    shm_get_buffer-Given 1 block block-BlockValid 1 route_run (omega arith) (inr (omega arith))

abbrev full_block : MgmtBlock
full_block = record block { buff_bit_mask = replicate 4 0xffff_ffff; buff_count = 128 }

full-Words : Words full_block.buff_bit_mask
full-Words zero h = omega arith
full-Words (suc zero) h = omega arith
full-Words (suc (suc zero)) h = omega arith
full-Words (suc (suc (suc zero))) h = omega arith
full-Words (suc (suc (suc (suc i)))) h = absurd (omega arith)

full_block-BlockValid : BlockValid full_block
unfolding ones test_bit
full_block-BlockValid = record { sized = refl; words = full-Words; counted = refl }

shm_get_buffer-refuses_example : shm_get_buffer 1 0 full_block ≡ (none, full_block)
shm_get_buffer-refuses_example =
    shm_get_buffer-refuses 1 full_block full_block-BlockValid 0 (inr refl)

abbrev block_after : MgmtBlock
block_after = record block { buff_bit_mask = 0xffff_ffff ∷ 7 ∷ 0 ∷ 0 ∷ []; buff_count = 35 }

get_run : shm_get_buffer 1 1 block ≡ (some 33, block_after)
unfolding shm_get_buffer get_buffer_from get_sm_buff_index get_index_from get_first_zero_bit
    count_ones
get_run = refl

shm_free_buffer-shm_get_buffer_example :
    ((j : ℕ) → bit_at (shm_free_buffer 33 block_after).buff_bit_mask j ≡ bit_at in_use j)
    × ((shm_free_buffer 33 block_after).buff_count ≡ 34)
shm_free_buffer-shm_get_buffer_example =
    shm_free_buffer-shm_get_buffer 1 1 33 block block_after block-BlockValid route_run get_run

-- A ring with one descriptor, at its last place.
abbrev ring : DescQ
ring = record { pkt_desc_q = replicate 16 blank_desc; put_idx = 0; count = 1; get_idx = 15 }

ring-RingValid : RingValid ring
ring-RingValid = record {
  sized = refl;
  get_in_range = omega arith;
  bounded = omega arith;
  put_follows = refl;
}

contents_run : contents ring ≡ blank_desc ∷ []
unfolding contents window
contents_run = refl

enqueue_sm_ring_q-append_example :
    ((length (contents ring) ≡ q_size
        → enqueue_sm_ring_q ring 64 0 2 ≡ (Status.err_transmission, ring))
      × (length (contents ring) ≢ q_size
          → (q' : DescQ) × (enqueue_sm_ring_q ring 64 0 2 ≡ (Status.success, q'))
            × (contents q' ≡ contents ring ++ desc_of 64 0 2 ∷ [])
            × RingValid q'))
enqueue_sm_ring_q-append_example = enqueue_sm_ring_q-append ring ring-RingValid 64 0 2

run_ring-run_list_example :
    run_ring ring (put 64 0 2 ∷ take ∷ take ∷ take ∷ [])
    ≡ run_list (blank_desc ∷ []) (put 64 0 2 ∷ take ∷ take ∷ take ∷ [])
run_ring-run_list_example =
    run_ring-run_list ring (blank_desc ∷ []) (put 64 0 2 ∷ take ∷ take ∷ take ∷ []) ring-RingValid
      contents_run
