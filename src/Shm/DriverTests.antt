-- ===== src/Shm/DriverTests.antt =====
-- The theorems on the routes and the reception of libmcapi/shm/shm.c at small blocks.
use openmcapi_deprecated.Base.{
  List, ℕ, ◌≡◌, ◌≢◌, refl, true, false, none, some, [], ◌∷◌, arith, replicate,
}
use openmcapi_deprecated.Status
use openmcapi_deprecated.Shm.{MgmtBlock, DescQ, blank_desc}
use openmcapi_deprecated.Shm.Driver.{
  invalid_route, init_complete_key, idle_queue, find_unit, has_node, shm_poll, shm_finalize,
  shm_slave_node_init, openmcapi_shm_init,
}
use openmcapi_deprecated.Shm.Ring.{contents, window, RingValid}
use openmcapi_deprecated.Shm.Buffers.{BlockValid}
use openmcapi_deprecated.Shm.Poll.{Handed, any_in_range, shm_poll-Handed}
use openmcapi_deprecated.Shm.Routes.{shm_slave_node_init-joins, shm_finalize-shm_slave_node_init}
use openmcapi_deprecated.Shm.Init.{openmcapi_shm_init-master}

-- Memory that no node has set up.
abbrev mapped : MgmtBlock
mapped = record {
  routes = invalid_route ∷ invalid_route ∷ [];
  queues = idle_queue ∷ idle_queue ∷ [];
  buff_bit_mask = 7 ∷ 7 ∷ 7 ∷ 7 ∷ [];
  buff_count = 3;
  init_field = 0;
}

openmcapi_shm_init-master_example :
    (b' : MgmtBlock) × (openmcapi_shm_init 2 9 1 (some mapped) ≡ (Status.success, some b'))
    × BlockValid b'
    × (b'.init_field ≡ init_complete_key)
    × (find_unit 1 b'.routes ≡ some 9)
    × ((m : ℕ) → m ≢ 1 → m ≢ 0xff → find_unit m b'.routes ≡ none)
openmcapi_shm_init-master_example =
    openmcapi_shm_init-master 2 9 1 mapped (omega arith) (omega arith)

abbrev one_node : MgmtBlock
one_node = record mapped { routes = record { node_id = 1; unit_id = 9 } ∷ invalid_route ∷ [] }

absent_run : has_node 0 one_node.routes ≡ false
unfolding has_node
absent_run = refl

free_run : has_node 0xff one_node.routes ≡ true
unfolding has_node
free_run = refl

shm_slave_node_init-joins_example :
    (b' : MgmtBlock) × (shm_slave_node_init 4 0 one_node ≡ (Status.success, b'))
    × (find_unit 0 b'.routes ≡ some 4)
    × ((m : ℕ) → m ≢ 0 → m ≢ 0xff → find_unit m b'.routes ≡ find_unit m one_node.routes)
    × (b'.queues ≡ one_node.queues)
    × (b'.buff_bit_mask ≡ one_node.buff_bit_mask)
shm_slave_node_init-joins_example = shm_slave_node_init-joins 4 0 one_node absent_run free_run

shm_finalize-shm_slave_node_init_example :
    (b' : MgmtBlock) × (shm_finalize 0 (shm_slave_node_init 4 0 one_node).1 ≡ (Status.success, b'))
    × ((m : ℕ) → m ≢ 0xff → find_unit m b'.routes ≡ find_unit m one_node.routes)
shm_finalize-shm_slave_node_init_example =
    shm_finalize-shm_slave_node_init 4 0 one_node absent_run free_run (omega arith)

-- A ring with a packet of priority 0 and, round the end, a descriptor of a priority that is not used.
abbrev ring : DescQ
ring = record {
  pkt_desc_q = record blank_desc { priority = 5 } ∷ replicate 15 (record blank_desc { value = 64 });
  put_idx = 1;
  count = 2;
  get_idx = 15;
}

ring-RingValid : RingValid ring
ring-RingValid = record {
  sized = refl;
  get_in_range = omega arith;
  bounded = omega arith;
  put_follows = refl;
}

contents_run :
    contents ring ≡ record blank_desc { value = 64 } ∷ record blank_desc { priority = 5 } ∷ []
unfolding contents window
contents_run = refl

shm_poll-Handed_example :
    (ps : List (ℕ × ℕ)) × (q' : DescQ) × (shm_poll 3 ring
      ≡ some (
        ps,
        any_in_range (record blank_desc { value = 64 } ∷ record blank_desc { priority = 5 } ∷ []),
        q',
      ))
    × Handed (record blank_desc { value = 64 } ∷ record blank_desc { priority = 5 } ∷ []) ps
    × (contents q' ≡ [])
    × RingValid q'
shm_poll-Handed_example =
    shm_poll-Handed 3 ring
      (record blank_desc { value = 64 } ∷ record blank_desc { priority = 5 } ∷ []) ring-RingValid
      contents_run (omega arith)
