-- ===== src/Shm/Init.antt =====
-- The block that the first node sets up (libmcapi/shm/shm.c).
use openmcapi_deprecated.Base.{
  ℕ, zero, suc, ◌<◌, ◌≡◌, ◌≢◌, refl, sym, none, some, arith, eq→==, ne→==, gt→leb, replicate,
}
use openmcapi_deprecated.Base.Bits.Digits.{test_bit}
use openmcapi_deprecated.Status
use openmcapi_deprecated.Shm.{MgmtBlock}
use openmcapi_deprecated.Shm.Mask.{Words}
use openmcapi_deprecated.Shm.Buffers.{BlockValid}
use openmcapi_deprecated.Shm.Count.{ones}
use openmcapi_deprecated.Shm.Driver.{
  invalid_route, init_complete_key, find_unit, shm_master_node_init, openmcapi_shm_init,
}

blank-Words : Words (replicate 4 0)
blank-Words zero h = omega arith
blank-Words (suc zero) h = omega arith
blank-Words (suc (suc zero)) h = omega arith
blank-Words (suc (suc (suc zero))) h = omega arith
blank-Words (suc (suc (suc (suc i)))) h = absurd (omega arith)

no_ones : 0 ≡ ones 128 (replicate 4 0)
unfolding ones test_bit
no_ones = refl

find_unit-invalid : (k m : ℕ) → 0xff ≢ m → find_unit m (replicate k invalid_route) ≡ none
unfolding find_unit
find_unit-invalid zero m d = refl
find_unit-invalid (suc k) m d = rw (ne→== 0xff m d) (find_unit-invalid k m d)

-- A node below the number of nodes that maps a block which no node has set up: `openmcapi_shm_init` returns
-- success and sets the block up; it is then valid, marked as set up, and the node is the only one that is
-- reached.
pub openmcapi_shm_init-master :
    (nr_nodes unit_id node_id : ℕ) (b : MgmtBlock)
    → node_id < nr_nodes
    → b.init_field ≢ init_complete_key
    → (b' : MgmtBlock) × (openmcapi_shm_init nr_nodes unit_id node_id (some b)
        ≡ (Status.success, some b'))
      × BlockValid b'
      × (b'.init_field ≡ init_complete_key)
      × (find_unit node_id b'.routes ≡ some unit_id)
      × ((m : ℕ) → m ≢ node_id → m ≢ 0xff → find_unit m b'.routes ≡ none)
unfolding openmcapi_shm_init shm_master_node_init find_unit
openmcapi_shm_init-master zero unit_id node_id b lt key = absurd (omega arith)
openmcapi_shm_init-master (suc k) unit_id node_id b lt key = (
  shm_master_node_init (suc k) unit_id node_id b,
  rw
      (
        openmcapi_shm_init,
        gt→leb (suc k) node_id (λ le. omega arith),
        ne→== b.init_field init_complete_key key,
      )
      refl,
  record { sized = refl; words = blank-Words; counted = no_ones },
  refl,
  rw (shm_master_node_init, find_unit, eq→== node_id node_id refl) refl,
  (λ m d d'.
      rw (shm_master_node_init, find_unit, ne→== node_id m (λ e. d (sym e)))
        (find_unit-invalid k m (λ e. d' (sym e)))),
)
