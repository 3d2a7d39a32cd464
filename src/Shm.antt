-- ===== src/Shm.antt =====
-- The shared-memory driver: libmcapi/shm/shm.c on the structures of libmcapi/shm/shm.h. All nodes share one
-- management block: a bit mask of the buffers in use, a ring of packet descriptors per node, and the
-- routes from a node to its scheduling unit. The mask of buffers, a ring that is
-- written to or consumed, and the initialization each have a lock; `shm_desc_get_next` and `shm_finalize`
-- take none. Each operation is one function here. The sizes are those of shm.h: 128 buffers in 4 words of 32 bits, rings of 16
-- descriptors.
--
-- The address of a buffer is its index, as shm.c computes one from the other. Driver has
-- transmission, reception, initialization and finalization.
pub mod FirstZero
pub mod Mask
pub mod Bits
pub mod Ring
pub mod Fifo
pub mod Buffers
pub mod Count
pub mod Driver
pub mod Poll
pub mod Routes
pub mod Init
mod Tests
mod DriverTests
use openmcapi_deprecated.Base.{
  ℕ, zero, suc, ◌+◌, ◌-◌, ◌*◌, ◌/◌, ◌%◌, ◌^◌, ◌||◌, Option, none, some, List, [], ◌∷◌, bit_and,
  bit_or, bit_xor, ◌==◌, ltb, leb, if◌then◌else◌, get_or, set,
}
use openmcapi_deprecated.Status

-- `>>` on a signed 32-bit number, which copies the sign bit down.
abbrev pub shift_right : ℕ → ℕ → ℕ
shift_right v k = v / 2 ^ k + (if leb (2 ^ 31) v then 2 ^ 32 - 2 ^ (32 - k) else 0)

-- The part of `get_first_zero_bit` that counts the ones of a word 2 ^ k - 1. The masks are the octal
-- 033333333333, 011111111111 and 030707070707.
pub count_ones : ℕ → ℕ
count_ones value =
    let halves = bit_and (shift_right value 1) 0xdb6db6db in
    let quarters = bit_and (shift_right value 2) 0x49249249 in
    let tmp32 = (value + (2 ^ 32 - halves) + (2 ^ 32 - quarters)) % 2 ^ 32 in
    bit_and ((tmp32 + tmp32 / 2 ^ 3) % 2 ^ 32) 0xc71c71c7 % 63

-- `get_first_zero_bit`
pub get_first_zero_bit : ℕ → ℕ
unfolding count_ones
get_first_zero_bit value =
    let inverted = 2 ^ 32 - 1 - value in
    let negated = (2 ^ 32 - inverted) % 2 ^ 32 in
    count_ones ((bit_and inverted negated + (2 ^ 32 - 1)) % 2 ^ 32)

-- The loop of `get_sm_buff_index` from word i on: the index, and the words with its bit set.
pub get_index_from : ℕ → List ℕ → Option (ℕ × List ℕ)
get_index_from i [] = none
get_index_from i (w ∷ ws) =
    let rest = get_index_from (i + 1) ws in
    let tmp32 = get_first_zero_bit w in
    if ltb tmp32 32
    then some (tmp32 + i * 32, bit_or w (2 ^ tmp32) ∷ ws)
    else elim rest [ none ↦ none | some (idx, ws') ↦ some (idx, w ∷ ws') ]

-- `get_sm_buff_index`
pub get_sm_buff_index : List ℕ → Option (ℕ × List ℕ)
unfolding get_index_from
get_sm_buff_index mask = get_index_from 0 mask

-- `clear_sm_buff_index`
pub clear_sm_buff_index : ℕ → List ℕ → List ℕ
clear_sm_buff_index idx mask =
    set mask (idx / 32) (bit_xor (get_or mask (idx / 32) 0) (2 ^ (idx % 32)))

-- `struct _shm_buff_desc_`
pub record Desc : Type 0 where
  pub value : ℕ
  pub type : ℕ
  pub priority : ℕ

-- `struct _shm_buff_desc_q_`
pub record DescQ : Type 0 where
  pub pkt_desc_q : List Desc
  pub put_idx : ℕ
  pub count : ℕ
  pub get_idx : ℕ

-- SHM_BUFF_DESC_Q_SIZE
abbrev pub q_size : ℕ
q_size = 16

-- `enqueue_sm_ring_q`: the status and the queue. The buffer is given by its offset.
pub enqueue_sm_ring_q : DescQ → ℕ → ℕ → ℕ → ℕ × DescQ
enqueue_sm_ring_q q value priority type =
    if q.count == q_size then (Status.err_transmission, q) else (
      Status.success,
      record q {
        pkt_desc_q =
            set q.pkt_desc_q q.put_idx
              (record { value = value; type = type % 2 ^ 16; priority = priority % 2 ^ 16 });
        put_idx = (q.put_idx + 1) % 2 ^ 32 % q_size;
        count = (q.count + 1) % 2 ^ 32;
      },
    )

abbrev pub blank_desc : Desc
blank_desc = record { value = 0; type = 0; priority = 0 }

-- `shm_desc_get_next`
pub shm_desc_get_next : DescQ → Option Desc
shm_desc_get_next q = if q.count == 0 then none else some (get_or q.pkt_desc_q q.get_idx blank_desc)

-- `shm_desc_consume`
pub shm_desc_consume : DescQ → DescQ
shm_desc_consume q = record q {
  get_idx = (q.get_idx + 1) % 2 ^ 32 % q_size;
  count = (q.count + (2 ^ 32 - 1)) % 2 ^ 32;
}

-- `struct _shm_route_`
pub record ShmRoute : Type 0 where
  pub node_id : ℕ
  pub unit_id : ℕ

-- `struct _shm_drv_mgmt_struct_`, with the buffer management block in it.
pub record MgmtBlock : Type 0 where
  pub routes : List ShmRoute
  pub queues : List DescQ
  pub buff_bit_mask : List ℕ
  pub buff_count : ℕ
  pub init_field : ℕ

-- SHM_LOW_PRI_BUF_CONT
abbrev pub low_pri_buf_cont : ℕ
low_pri_buf_cont = 96

-- The loop of `shm_get_buffer`: a route that has the node is tried, and the next if no bit is free.
pub get_buffer_from : List ShmRoute → ℕ → MgmtBlock → Option ℕ × MgmtBlock
get_buffer_from [] node_id b = (none, b)
get_buffer_from (r ∷ rs) node_id b =
    let rest = get_buffer_from rs node_id b in
    if r.node_id == node_id
    then (elim (get_sm_buff_index b.buff_bit_mask) [
      | none ↦ rest
      | some (idx, mask) ↦
          (some idx, record b { buff_bit_mask = mask; buff_count = (b.buff_count + 1) % 2 ^ 32 })
    ])
    else rest

-- `shm_get_buffer`: the index of the buffer, if one is given.
pub shm_get_buffer : ℕ → ℕ → MgmtBlock → Option ℕ × MgmtBlock
unfolding get_buffer_from
shm_get_buffer node_id priority b =
    if (priority == 0) || leb b.buff_count low_pri_buf_cont
    then get_buffer_from b.routes node_id b
    else (none, b)

-- `shm_free_buffer`, of the buffer with this index.
pub shm_free_buffer : ℕ → MgmtBlock → MgmtBlock
unfolding clear_sm_buff_index
shm_free_buffer idx b = record b {
  buff_bit_mask = clear_sm_buff_index idx b.buff_bit_mask;
  buff_count = (b.buff_count + (2 ^ 32 - 1)) % 2 ^ 32;
}
