-- ===== src/Nodes.antt =====
-- The nodes of the database (`MCAPI_NODE`, `MCAPI_GLOBAL_DATA` of libmcapi/include/openmcapi.h), the lookup
-- of nodes and routes, and the creation of endpoints: node.c, route.c and create_endpoint.c of
-- libmcapi/mcapi. The operations that take handles are in Api.
--
-- What an operation asks of other parts of the library (waking requests up, sending a FIN, giving a
-- buffer back) is in its result, as the list of those calls in their order. `max_endpoints` is
-- MCAPI_MAX_ENDPOINTS, `next_port` is MCAPI_Next_Port, and the list of nodes has MCAPI_NODE_COUNT
-- entries.
pub mod Api
pub mod Create
pub mod Place
pub mod Local
pub mod Closed
pub mod Delete
pub mod Ports
pub mod Valid
pub mod Stored
pub mod States
mod Tests
use openmcapi_deprecated.Base.{
  ℕ, zero, suc, ◌+◌, ◌-◌, ◌%◌, ◌^◌, Bool, true, false, not, ◌&&◌, ◌||◌, Option, none, some, List,
  [], ◌∷◌, ◌++◌, ◌⊎◌, inl, inr, ◌==◌, ltb, leb, if◌then◌else◌, get_or, set,
}
use openmcapi_deprecated.Status
use openmcapi_deprecated.Handle.{encode_endpoint, decode_endpoint}
use openmcapi_deprecated.Endpoints.{
  Endpoint, Table, blank, slot, endp_closed, endp_open, endp_connecting, endp_tx, endp_rx, has_flag,
  find_endpoint, find_slot,
}

-- `struct _mcapi_route`: the destination, and the interface unless its pointer is null.
pub record Route : Type 0 where
  pub dest_node_id : ℕ
  pub interface : Option ℕ

-- `MCAPI_NODE`
pub record Node : Type 0 where
  pub node_id : ℕ
  pub state : ℕ
  pub endpoint_count : ℕ
  pub status_port : ℕ
  pub endpoint_list : Table
  pub route_list : List Route

abbrev pub node_unused : ℕ
node_unused = 0

abbrev pub blank_node : Node
blank_node = record {
  node_id = 0;
  state = node_unused;
  endpoint_count = 0;
  status_port = 0;
  endpoint_list = [];
  route_list = [];
}

-- The loop of `mcapi_find_node` from entry i on.
unfoldable pub find_node_from : ℕ → ℕ → List Node → Option ℕ
find_node_from target_id i [] = none
find_node_from target_id i (n ∷ ns) =
    if not (n.state == node_unused) && (n.node_id == target_id)
    then some i
    else find_node_from target_id (i + 1) ns

-- `mcapi_find_node`
unfoldable pub find_node : ℕ → List Node → Option ℕ
unfolding find_node_from
find_node target_id nodes = find_node_from target_id 0 nodes

-- The loop of `mcapi_find_route` from entry i on.
unfoldable pub find_route_from : ℕ → ℕ → List Route → Option ℕ
find_route_from node_id i [] = none
find_route_from node_id i (r ∷ rs) =
    let rest = find_route_from node_id (i + 1) rs in
    if r.dest_node_id == node_id then elim r.interface [ none ↦ rest | some _ ↦ some i ] else rest

-- `mcapi_find_route`
unfoldable pub find_route : ℕ → Node → Option ℕ
unfolding find_route_from
find_route node_id node = find_route_from node_id 0 node.route_list

-- What other parts of the library are asked to do.
pub data Call : Type 0 where
  check_foreign_resume : (kind endpoint status : ℕ) → Call
  check_resume : (kind endpoint byte_count status : ℕ) → Call
  tx_fin_msg : Endpoint → Call
  recover_buffer : ℕ → Call

abbrev pub req_deleted : ℕ
req_deleted = 1

abbrev pub req_created : ℕ
req_created = 2

abbrev pub port_any : ℕ
port_any = 0xffff_ffff

abbrev pub default_prio : ℕ
default_prio = 1

-- The result of `create_endpoint`: the status, the handle, the node and MCAPI_Next_Port afterwards, and
-- the calls made.
pub record Created : Type 0 where
  pub status : ℕ
  pub endpoint : ℕ
  pub node : Node
  pub next_port : ℕ
  pub calls : List Call

-- The entry that `create_endpoint` fills in.
abbrev pub fresh_endpoint : ℕ → ℕ → Endpoint
fresh_endpoint node_id port = record blank {
  node_id = node_id;
  port_id = port;
  state = endp_open;
  endp_handle = encode_endpoint node_id port;
  priority = default_prio;
}

-- The result of a failure, with nothing changed.
abbrev pub refuse : ℕ → Node → ℕ → Created
refuse status node next_port = record {
  status = status;
  endpoint = 0;
  node = node;
  next_port = next_port;
  calls = [];
}

module _ (max_endpoints : ℕ) where
  -- The part of `create_endpoint` after the port is settled. Where no slot is closed the status stays
  -- MCAPI_SUCCESS and the handle 0.
  pub place : Node → ℕ → ℕ → Created
  place node port next_port = elim (find_slot max_endpoints port node.endpoint_list) [
    | none ↦ record {
      status = Status.success;
      endpoint = 0;
      node = node;
      next_port = next_port;
      calls = [];
    }
    | some i ↦
        let endpoint = encode_endpoint node.node_id port in
        record {
          status = Status.success;
          endpoint = endpoint;
          node = record node {
            endpoint_count = (node.endpoint_count + 1) % 2 ^ 32;
            endpoint_list = set node.endpoint_list i (fresh_endpoint node.node_id port);
          };
          next_port = next_port;
          calls =
              check_foreign_resume req_created endpoint Status.success
              ∷ check_resume req_created endpoint 0 Status.success
              ∷ [];
        }
  ]

  -- The `do ... while` that looks for an unused port, on fuel: the port and MCAPI_Next_Port, which is
  -- 16 bits wide and counts round.
  pub pick_port : ℕ → Table → ℕ → Option (ℕ × ℕ)
  pick_port zero t next_port = none
  pick_port (suc f) t next_port =
      let after = (next_port + 1) % 2 ^ 16 in
      let rest = pick_port f t after in
      elim (find_endpoint max_endpoints next_port t) [
        | none ↦ some (next_port, after)
        | some _ ↦ if next_port == port_any then some (next_port, after) else rest
      ]

  -- `create_endpoint`; `none` when the fuel of the port search runs out.
  pub create_endpoint : ℕ → Node → ℕ → ℕ → Option Created
  unfolding place pick_port
  create_endpoint fuel node next_port port =
      if ltb node.endpoint_count max_endpoints
      then (if port == port_any
          then elim (pick_port fuel node.endpoint_list next_port) [
            | none ↦ none
            | some (p, after) ↦
                if p == port_any
                then some (refuse Status.err_port_invalid node after)
                else some (place node p after)
          ]
          else elim (find_endpoint max_endpoints port node.endpoint_list) [
            | some _ ↦ some (refuse Status.err_endp_exists node next_port)
            | none ↦ some (place node port next_port)
          ])
      else some (refuse Status.err_general node next_port)
