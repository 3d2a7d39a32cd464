-- ===== src/Init/Tests.antt =====
-- The theorem on `mcapi_initialize` (libmcapi/mcapi/mcapi_init.c) for a database of two nodes with four slots each,
-- the first of which has an entry from before.
use openmcapi_deprecated.Base.{◌≡◌, refl, some, true, false, List, [], ◌∷◌, arith, replicate}
use openmcapi_deprecated.Status
use openmcapi_deprecated.Endpoints.{blank}
use openmcapi_deprecated.Nodes.{Node, Route, blank_node}
use openmcapi_deprecated.Requests.{blank_request}
use openmcapi_deprecated.Init.{Library, mcapi_initialize}
use openmcapi_deprecated.Init.Ready.{IsReady, mcapi_initialize-IsReady}

abbrev stale : Node
stale = record blank_node {
  node_id = 7;
  state = 1;
  endpoint_count = 3;
  endpoint_list = record blank { port_id = 900; state = 0x23 } ∷ replicate 3 blank;
}

abbrev library : Library
library = record {
  initialized = false;
  nodes = stale ∷ stale ∷ [];
  node_count = 5;
  here = 0;
  next_port = 0;
  pool = record blank_request { type = 3 } ∷ [];
  ctrl_rx = 0;
  ctrl_tx = 0;
  local = blank_request ∷ [];
  foreign = [];
  rx_queues = (3 ∷ []) ∷ [] ∷ [];
  wait_list = [];
}

abbrev routes : List Route
routes = record { dest_node_id = 1; interface = some 0 } ∷ []

mcapi_initialize-IsReady_example :
    (l : Library) × (mcapi_initialize 4 2 5 Status.success
        (λ id. Status.success)
        routes
        library
        7
        true
      ≡ some (Status.success, l))
    × IsReady 4 7 l
mcapi_initialize-IsReady_example =
    mcapi_initialize-IsReady 4 routes (λ id. Status.success) 2 7 library stale (stale ∷ []) refl
      (omega arith) (omega arith) refl
