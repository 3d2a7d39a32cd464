-- ===== src/Init.antt =====
-- `mcapi_initialize` of libmcapi/mcapi/mcapi_init.c, with `mcapi_init_node_data` of node_data.c. Parameters:
-- MCAPI_MAX_ENDPOINTS, MCAPI_FREE_REQUEST_COUNT, the fuel of the search for a port, the status of MCAPI_Init_OS
-- and of mcapi_init_interfaces, and the routes of MCAPI_Route_List with the interfaces that mcapi_find_interface
-- returns for their names; the route list of a node has place for all of them. The creation of the two control
-- endpoints wakes nobody, since the queues of requests are empty.
pub mod Ready
mod Tests
use openmcapi_deprecated.Base.{
  ℕ, ◌+◌, ◌%◌, ◌^◌, Bool, Option, none, some, List, [], ◌∷◌, ◌==◌, if◌then◌else◌, get_or, set,
  replicate, map, ◌>>=◌,
}
use openmcapi_deprecated.Status
use openmcapi_deprecated.Endpoints.{Endpoint, endp_closed}
use openmcapi_deprecated.Nodes.{
  Node, Route, blank_node, node_unused, find_node, create_endpoint, port_any,
}
use openmcapi_deprecated.Channels.{rx_control_port}
use openmcapi_deprecated.Requests.{Request, blank_request}

abbrev pub node_initialized : ℕ
node_initialized = 1

abbrev pub endp_port_init : ℕ
endp_port_init = 10000

-- The global variables that `mcapi_initialize` sets: MCAPI_Init, the nodes and their number, MCAPI_Node_ID,
-- MCAPI_Next_Port, MCAPI_Free_Request_Structs, the handles of the two control endpoints, the queues of local and
-- of foreign requests, the receive queues by priority, and the list of those that wait for a buffer.
pub record Library : Type 0 where
  pub initialized : Bool
  pub nodes : List Node
  pub node_count : ℕ
  pub here : ℕ
  pub next_port : ℕ
  pub pool : List Request
  pub ctrl_rx : ℕ
  pub ctrl_tx : ℕ
  pub local : List Request
  pub foreign : List Request
  pub rx_queues : List (List ℕ)
  pub wait_list : List ℕ

-- The loop over the endpoints of the node.
abbrev pub closed_entry : Endpoint → Endpoint
closed_entry e = record e { state = endp_closed; rx_queue = [] }

-- The node before its control endpoints are created.
unfoldable pub prepare_node : ℕ → Node → Node
prepare_node node_id node = record node {
  node_id = node_id;
  state = node_initialized;
  endpoint_count = 0;
  endpoint_list = map closed_entry node.endpoint_list;
  status_port = rx_control_port;
}

-- The loop over the nodes that looks for an unused one, from entry i on.
unfoldable pub find_unused : ℕ → List Node → Option ℕ
find_unused i [] = none
find_unused i (n ∷ ns) =
    let rest = find_unused (i + 1) ns in if n.state == node_unused then some i else rest

-- The loop that adds the routes, on the route list of the node.
unfoldable pub add_routes : List Route → List Route → List Route
add_routes [] routes = []
add_routes (r ∷ rs) [] = r ∷ rs
add_routes (r ∷ rs) (route ∷ routes) = route ∷ add_routes rs routes

-- What `mcapi_init_node_data` does to a node.
abbrev pub unused_node : Node → Node
unused_node n = record n { state = node_unused }

module _ (max_endpoints request_total fuel init_os : ℕ) (init_interfaces : ℕ → ℕ)
    (route_list : List Route) where
  -- The creation of the endpoint for sending control messages, unless MCAPI_Init_OS has failed: the node,
  -- MCAPI_Next_Port and the handle.
  unfoldable pub add_ctrl_tx : Node → ℕ → ℕ → Option (Node × ℕ × ℕ)
  add_ctrl_tx node next_port ctrl_tx =
      if init_os == Status.success
      then (do
        tx ← create_endpoint max_endpoints fuel node next_port port_any
        some (tx.node, tx.next_port, tx.endpoint))
      else some (node, next_port, ctrl_tx)

  -- The status, and whether the initialization is complete.
  abbrev pub final_status : ℕ → ℕ
  final_status node_id =
      if init_os == Status.success then init_interfaces node_id else Status.err_transmission

  -- The routes of the node, which are added once everything else has succeeded.
  abbrev pub routed : ℕ → Node → Node
  routed status node =
      if status == Status.success
      then record node { route_list = add_routes node.route_list route_list }
      else node

  -- The part of `mcapi_initialize` for a free entry of the database; `none` when the fuel of the search for a
  -- port runs out.
  unfoldable pub set_up : Library → ℕ → ℕ → Option (ℕ × Library)
  set_up l i node_id =
      let node = prepare_node node_id (get_or l.nodes i blank_node) in
      do
        rx ← create_endpoint max_endpoints fuel node endp_port_init rx_control_port
        (node', next_port, ctrl_tx) ← add_ctrl_tx rx.node rx.next_port l.ctrl_tx
        some (
          final_status node_id,
          record l {
            initialized = final_status node_id == Status.success;
            nodes = set l.nodes i (routed (final_status node_id) node');
            node_count = (l.node_count + 1) % 2 ^ 32;
            here = node_id;
            next_port = next_port;
            ctrl_rx = rx.endpoint;
            ctrl_tx = ctrl_tx;
          },
        )

  -- The database and the requests after they were cleared.
  abbrev pub cleared : Library → Library
  cleared l = record l {
    nodes = map unused_node l.nodes;
    node_count = 0;
    pool = replicate request_total blank_request;
    local = [];
    foreign = [];
    rx_queues = map (λ q. []) l.rx_queues;
    wait_list = [];
  }

  -- `mcapi_initialize`; `has_version` is whether the version pointer is not null.
  unfoldable pub mcapi_initialize : Library → ℕ → Bool → Option (ℕ × Library)
  mcapi_initialize l node_id has_version =
      if has_version
      then (if l.initialized
          then some (Status.err_node_initialized, l)
          else elim (find_unused 0 (cleared l).nodes) [
            | none ↦ some (Status.err_node_invalid, cleared l)
            | some i ↦ elim (find_node node_id (cleared l).nodes) [
              | some _ ↦ some (Status.err_node_invalid, cleared l)
              | none ↦ set_up (cleared l) i node_id
            ]
          ])
      else some (Status.err_parameter, l)
