-- ===== src/Shm/Driver.antt =====
-- The rest of libmcapi/shm/shm.c: transmission, reception, and the initialization and finalization of a
-- node. The operating system layer (libmcapi/shm/linux/shm_os.c) is in the parameters: the scheduling
-- unit of the caller, and the status of a notification. What the driver asks of the library is in the
-- results.
use openmcapi_deprecated.Base.{
  ℕ, zero, suc, ◌%◌, ◌^◌, Bool, true, false, ◌||◌, Option, none, some, List, [], ◌∷◌, ◌++◌, ◌==◌,
  ltb, leb, if◌then◌else◌, get_or, set, replicate,
}
use openmcapi_deprecated.Status
use openmcapi_deprecated.Shm.{
  Desc, DescQ, ShmRoute, MgmtBlock, blank_desc, enqueue_sm_ring_q, shm_desc_get_next,
  shm_desc_consume,
}

abbrev pub msg_type : ℕ
msg_type = 0

abbrev pub chan_pkt_type : ℕ
chan_pkt_type = 1

abbrev pub chan_scal_type : ℕ
chan_scal_type = 2

-- SHM_INVALID_NODE and SHM_INVALID_SCH_UNIT
abbrev pub invalid_route : ShmRoute
invalid_route = record { node_id = 0xff; unit_id = 0xff }

abbrev pub init_complete_key : ℕ
init_complete_key = 0xef56a55a

abbrev pub idle_queue : DescQ
idle_queue = record { pkt_desc_q = replicate 16 blank_desc; put_idx = 0; count = 0; get_idx = 0 }

-- The loop of `get_sm_ring_q`: the unit of the first route to a node. The ring is the one with the
-- number of the node.
unfoldable pub find_unit : ℕ → List ShmRoute → Option ℕ
find_unit node_id [] = none
find_unit node_id (r ∷ rs) =
    let rest = find_unit node_id rs in if r.node_id == node_id then some r.unit_id else rest

-- What `shm_tx` returns and does: the status, the block, the status that the tasks suspended on the
-- transmission are woken with, and the unit and node that are notified.
pub record Sent : Type 0 where
  pub status : ℕ
  pub block : MgmtBlock
  pub resumed : Option ℕ
  pub notified : Option (ℕ × ℕ)

-- `shm_tx` of the buffer at an offset, to the foreign node of the endpoint.
unfoldable pub shm_tx : (ℕ → ℕ → ℕ) → ℕ → ℕ → ℕ → ℕ → MgmtBlock → Sent
unfolding find_unit
shm_tx notify buffer priority node_id chan_type b = elim (find_unit node_id b.routes) [
  | none ↦ record { status = Status.err_node_notinit; block = b; resumed = none; notified = none }
  | some unit_id ↦
      let (status, q) =
        enqueue_sm_ring_q (get_or b.queues node_id idle_queue) buffer priority
          (chan_type % 2 ^ 8) in
      let sent = record b { queues = set b.queues node_id q } in
      if status == Status.success
      then record {
        status = notify unit_id node_id;
        block = sent;
        resumed = some status;
        notified = some (unit_id, node_id);
      }
      else record { status = status; block = sent; resumed = some status; notified = none }
]

-- Whether `shm_poll` hands a descriptor of this type over.
abbrev pub is_packet : Desc → Bool
is_packet d = (d.type == msg_type) || (d.type == chan_pkt_type) || (d.type == chan_scal_type)

-- What is put on the global receive queues for a descriptor: the priority and the offset.
abbrev pub delivery : Desc → List (ℕ × ℕ)
delivery d = if is_packet d then (d.priority, d.value) ∷ [] else []

-- `shm_poll` on the ring of the node, on fuel: what is put on the receive queues in order, whether the
-- event is set, and the ring.
unfoldable pub shm_poll : ℕ → DescQ → Option (List (ℕ × ℕ) × Bool × DescQ)
shm_poll zero q = none
shm_poll (suc f) q =
    let rest = shm_poll f (shm_desc_consume q) in
    elim (shm_desc_get_next q) [
      | none ↦ some ([], false, q)
      | some d ↦ elim rest [
        | none ↦ none
        | some (packets, got_data, q') ↦
            if ltb d.priority 2
            then some (delivery d ++ packets, true, q')
            else some (packets, got_data, q')
      ]
    ]

-- A loop that overwrites the first route of a node.
unfoldable pub replace_first : ℕ → ShmRoute → List ShmRoute → List ShmRoute
replace_first node_id new [] = []
replace_first node_id new (r ∷ rs) =
    let rest = replace_first node_id new rs in if r.node_id == node_id then new ∷ rs else r ∷ rest

-- The loop that looks for the route of a node.
unfoldable pub has_node : ℕ → List ShmRoute → Bool
has_node node_id [] = false
has_node node_id (r ∷ rs) =
    let rest = has_node node_id rs in if r.node_id == node_id then true else rest

-- `shm_finalize`
unfoldable pub shm_finalize : ℕ → MgmtBlock → ℕ × MgmtBlock
unfolding has_node replace_first
shm_finalize node_id b =
    if has_node node_id b.routes
    then (Status.success, record b { routes = replace_first node_id invalid_route b.routes })
    else (Status.err_node_initfailed, b)

-- `shm_master_node_init`, of a block with nr_nodes routes. It does not touch the rings. The index that it
-- stores in each buffer is the address of the buffer here.
unfoldable pub shm_master_node_init : ℕ → ℕ → ℕ → MgmtBlock → MgmtBlock
shm_master_node_init nr_nodes unit_id node_id b = record b {
  routes =
      set (replicate nr_nodes invalid_route) 0 (record { node_id = node_id; unit_id = unit_id });
  buff_bit_mask = replicate 4 0;
  buff_count = 0;
  init_field = init_complete_key;
}

-- `shm_slave_node_init`
unfoldable pub shm_slave_node_init : ℕ → ℕ → MgmtBlock → ℕ × MgmtBlock
unfolding has_node replace_first
shm_slave_node_init unit_id node_id b =
    if has_node node_id b.routes then (Status.err_node_initfailed, b) else (
      Status.success,
      record b {
        routes = replace_first 0xff (record { node_id = node_id; unit_id = unit_id }) b.routes;
      },
    )

-- `openmcapi_shm_init`, where the block is what `openmcapi_shm_map` gives, if it does.
-- The names and function pointers that it stores in the interface are left out.
unfoldable pub openmcapi_shm_init : ℕ → ℕ → ℕ → Option MgmtBlock → ℕ × Option MgmtBlock
unfolding shm_master_node_init shm_slave_node_init
openmcapi_shm_init nr_nodes unit_id node_id mapped =
    if leb nr_nodes node_id then (Status.err_node_invalid, mapped) else (elim mapped [
      | none ↦ (Status.err_general, none)
      | some b ↦
          if b.init_field == init_complete_key
          then (let (status, b') = shm_slave_node_init unit_id node_id b in (status, some b'))
          else (Status.success, some (shm_master_node_init nr_nodes unit_id node_id b))
    ])
