-- ===== src/Completion/Tests.antt =====
-- The theorems on `__mcapi_test` and `mcapi_cancel` (libmcapi/mcapi/mcapi_test.c and mcapi_cancel.c) at node 2
-- with an endpoint on port 6 that is open for receiving.
use openmcapi_deprecated.Base.{
  ℕ, ◌+◌, ◌≡◌, refl, true, false, some, List, [], ◌∷◌, arith, replicate, map,
}
use openmcapi_deprecated.Status
use openmcapi_deprecated.Endpoints.{blank}
use openmcapi_deprecated.Nodes.{Node}
use openmcapi_deprecated.Channels.{req_rx_open}
use openmcapi_deprecated.Requests.{Request, blank_request}
use openmcapi_deprecated.Suspend.{Waiter, req_rx_fin}
use openmcapi_deprecated.Messages.{Driver}
use openmcapi_deprecated.Control.{Store}
use openmcapi_deprecated.Completion.{mcapi_test}
use openmcapi_deprecated.Completion.Cancel.{mcapi_cancel}
use openmcapi_deprecated.Completion.Cancelled.{others, cancelled, mcapi_cancel-matching}
use openmcapi_deprecated.Completion.Verdict.{IsSound, mcapi_test-IsSound}

abbrev wire : Driver ℕ
wire = record {
  max_buf_size = 64;
  get_buffer = λ d node size priority. (some (100, replicate 64 9), d);
  tx_output = λ d a packet size priority endp. (Status.success, d + 1);
  recover_buffer = λ d a. d;
}

abbrev nodes : List Node
nodes =
    record {
      node_id = 2;
      state = 1;
      endpoint_count = 1;
      status_port = 0;
      endpoint_list =
          record blank { state = 1 }
          ∷ record blank { state = 1 }
          ∷ record blank { node_id = 2; port_id = 6; state = 0x22; endp_handle = 0x20006 }
          ∷ record blank { state = 1 }
          ∷ [];
      route_list = record { dest_node_id = 1; interface = some 0 } ∷ [];
    }
    ∷ []

abbrev store : Store ℕ
store = record { nodes = nodes; driver = 0; foreign = []; pool = []; calls = [] }

-- A request of a type on the endpoint, with a status.
abbrev request : ℕ → ℕ → Request
request type status = record blank_request {
  status = status;
  type = type;
  requesting_node_id = 2;
  target_endp = 0x20006;
}

abbrev waiter : ℕ → ℕ → Waiter
waiter address type = record {
  address = address;
  request = request type Status.pending;
  has_endp_ptr = false;
}

abbrev queue : List Waiter
queue = waiter 1 req_rx_open ∷ waiter 2 req_rx_fin ∷ waiter 3 req_rx_open ∷ []

mcapi_cancel-matching_example :
    (s : Store ℕ) × (mcapi_cancel wire 4 2 0x20385 [] 4 store
        (request req_rx_open Status.pending)
        queue
      ≡ some record {
        status = Status.success;
        request = request req_rx_open Status.pending;
        waiting = others (request req_rx_open Status.pending) queue;
        woken = map cancelled (waiter 1 req_rx_open ∷ waiter 3 req_rx_open ∷ []);
        store = s;
      })
mcapi_cancel-matching_example =
    mcapi_cancel-matching wire 4 2 0x20385 [] (request req_rx_open Status.pending) 4 store queue
      (waiter 1 req_rx_open) (waiter 3 req_rx_open ∷ []) (omega arith) refl

mcapi_test-IsSound_example :
    IsSound (mcapi_test 4 2 nodes (request req_rx_fin Status.err_chan_notopen) true)
mcapi_test-IsSound_example =
    mcapi_test-IsSound 4 2 nodes (request req_rx_fin Status.err_chan_notopen) true
