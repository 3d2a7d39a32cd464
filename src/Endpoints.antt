-- ===== src/Endpoints.antt =====
-- The endpoint table of a node: `struct _mcapi_endpoint` and `MCAPI_NODE` of
-- libmcapi/include/openmcapi.h, `mcapi_find_endpoint` of libmcapi/mcapi/endpoint.c, and the search
-- for a port and for a slot of libmcapi/mcapi/create_endpoint.c. The table is an open-addressed hash
-- table: port p is looked for from slot `p % MCAPI_MAX_ENDPOINTS` on, and a slot that is closed keeps
-- the port that it last had.
--
-- `max_endpoints` is the build option MCAPI_MAX_ENDPOINTS. An index of -1 is `none`.
pub mod Live
pub mod Lookup
pub mod Slots
pub mod Update
pub mod Insert
pub mod Close
mod Tests
use openmcapi_deprecated.Base.{
  ℕ, zero, suc, ◌+◌, ◌%◌, Bool, not, Option, none, some, List, [], bit_and, ◌==◌, leb,
  if◌then◌else◌, get_or,
}

abbrev pub endp_closed : ℕ
endp_closed = 0x1

abbrev pub endp_open : ℕ
endp_open = 0x2

abbrev pub endp_connecting : ℕ
endp_connecting = 0x4

abbrev pub endp_tx : ℕ
endp_tx = 0x10

abbrev pub endp_rx : ℕ
endp_rx = 0x20

-- `s & f`, as a condition
abbrev pub has_flag : ℕ → ℕ → Bool
has_flag s f = not (bit_and s f == 0)

-- `struct _mcapi_endpoint`, without the pointers to the driver. `route` is the index of the route in
-- the node's list, `rx_queue` the buffers on the receive queue by their addresses.
pub record Endpoint : Type 0 where
  pub node_id : ℕ
  pub port_id : ℕ
  pub foreign_node_id : ℕ
  pub foreign_port_id : ℕ
  pub state : ℕ
  pub chan_type : ℕ
  pub endp_handle : ℕ
  pub req_node_id : ℕ
  pub req_port_id : ℕ
  pub priority : ℕ
  pub route : Option ℕ
  pub rx_queue : List ℕ

-- `memset(endp_ptr, 0, sizeof(MCAPI_ENDPOINT))`
abbrev pub blank : Endpoint
blank = record {
  node_id = 0;
  port_id = 0;
  foreign_node_id = 0;
  foreign_port_id = 0;
  state = 0;
  chan_type = 0;
  endp_handle = 0;
  req_node_id = 0;
  req_port_id = 0;
  priority = 0;
  route = none;
  rx_queue = [];
}

abbrev pub Table : Type 0
Table = List Endpoint

abbrev pub slot : Table → ℕ → Endpoint
slot t i = get_or t i blank

module _ (max_endpoints : ℕ) where
  -- `endp_idx ++; if (endp_idx >= MCAPI_MAX_ENDPOINTS) endp_idx = 0;`
  abbrev pub next_slot : ℕ → ℕ
  next_slot i = if leb max_endpoints (i + 1) then 0 else i + 1

  -- What the search returns at a slot that has the port: nothing if it has been closed.
  abbrev pub if_open : Table → ℕ → Option ℕ
  if_open t i = if has_flag (slot t i).state endp_open then some i else none

  -- The `do ... while` of `mcapi_find_endpoint`, by the rounds that are left.
  unfoldable pub find_from : ℕ → Table → ℕ → ℕ → Option ℕ
  find_from zero t port i = none
  find_from (suc k) t port i =
      let j = next_slot i in
      let rest = find_from k t port j in if (slot t j).port_id == port then if_open t j else rest

  -- `mcapi_find_endpoint`
  unfoldable pub find_endpoint : ℕ → Table → Option ℕ
  unfolding find_from
  find_endpoint port t =
      let i = port % max_endpoints in
      if (slot t i).port_id == port then if_open t i else find_from max_endpoints t port i

  -- The `do ... while` of `create_endpoint` that looks for a closed slot.
  unfoldable pub free_from : ℕ → Table → ℕ → Option ℕ
  free_from zero t i = none
  free_from (suc k) t i =
      let j = next_slot i in
      let rest = free_from k t j in if (slot t j).state == endp_closed then some j else rest

  -- The slot that `create_endpoint` uses for a port.
  unfoldable pub find_slot : ℕ → Table → Option ℕ
  unfolding free_from
  find_slot port t =
      let i = port % max_endpoints in
      if (slot t i).state == endp_closed then some i else free_from max_endpoints t i
