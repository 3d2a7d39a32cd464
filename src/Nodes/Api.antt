-- ===== src/Nodes/Api.antt =====
-- The operations on the database that name endpoints by their handles: `mcapi_create_endpoint`,
-- `mcapi_delete_endpoint`, and `mcapi_decode_local_endpoint` and `mcapi_find_local_endpoint`
-- (libmcapi/mcapi/mcapi_create_endp.c, mcapi_delete_endp.c and endpoint.c).
use openmcapi_deprecated.Base.{
  ℕ, ◌+◌, ◌-◌, ◌%◌, ◌^◌, not, ◌&&◌, ◌||◌, Option, none, some, List, [], ◌∷◌, ◌++◌, ◌⊎◌, inl, inr,
  ◌==◌, leb, if◌then◌else◌, get_or, set,
}
use openmcapi_deprecated.Status
use openmcapi_deprecated.Handle.{decode_endpoint}
use openmcapi_deprecated.Endpoints.{
  Endpoint, slot, endp_closed, endp_connecting, endp_tx, endp_rx, has_flag, find_endpoint,
}
use openmcapi_deprecated.Nodes.{
  Node, blank_node, Call, check_resume, tx_fin_msg, recover_buffer, req_deleted, port_any,
  find_node, create_endpoint,
}

-- The result of an operation on the database: the status, the nodes and the calls made.
pub record ApiResult : Type 0 where
  pub status : ℕ
  pub nodes : List Node
  pub calls : List Call

-- Entry k of the endpoint table of node i, and the nodes with another entry there.
abbrev pub endpoint_at : List Node → ℕ × ℕ → Endpoint
endpoint_at nodes (i, k) = slot (get_or nodes i blank_node).endpoint_list k

abbrev pub set_endpoint : List Node → ℕ × ℕ → Endpoint → List Node
set_endpoint nodes (i, k) e =
    let node = get_or nodes i blank_node in
    set nodes i (record node { endpoint_list = set node.endpoint_list k e })

-- `mcapi_decode_local_endpoint`: an error status, or the index of the node and of the endpoint.
unfoldable pub decode_local_endpoint : ℕ → List Node → ℕ → ℕ ⊎ (ℕ × ℕ)
decode_local_endpoint max_endpoints nodes endpoint =
    let (node_id, port_id) = decode_endpoint endpoint in
    elim (find_node node_id nodes) [
      | none ↦ inl Status.err_endp_notowner
      | some i ↦
          elim (find_endpoint max_endpoints port_id (get_or nodes i blank_node).endpoint_list) [
            | none ↦ inl Status.err_endp_invalid
            | some k ↦ inr (i, k)
          ]
    ]

-- The calls of `mcapi_recover_buffer` for what is dequeued from the receive queue.
abbrev pub recover_all : List ℕ → List Call
recover_all [] = []
recover_all (b ∷ bs) = recover_buffer b ∷ recover_all bs

abbrev pub fin_calls : Endpoint → List Call
fin_calls e = if has_flag e.state endp_connecting then tx_fin_msg e ∷ [] else []

-- The entry after `mcapi_delete_endpoint`.
abbrev pub closed_endpoint : Endpoint → Endpoint
closed_endpoint e = record e { state = endp_closed; rx_queue = [] }

-- The node after it.
abbrev pub without : Node → ℕ → Node
without node k = record node {
  endpoint_count = (node.endpoint_count + (2 ^ 32 - 1)) % 2 ^ 32;
  endpoint_list = set node.endpoint_list k (closed_endpoint (slot node.endpoint_list k));
}

-- `mcapi_delete_endpoint`
unfoldable pub delete_endpoint : ℕ → List Node → ℕ → ApiResult
unfolding decode_local_endpoint
delete_endpoint max_endpoints nodes endpoint =
    elim (decode_local_endpoint max_endpoints nodes endpoint) [
      | inl e ↦ record { status = e; nodes = nodes; calls = [] }
      | inr (i, k) ↦
          let node = get_or nodes i blank_node in
          let endp = slot node.endpoint_list k in
          if not (has_flag endp.state endp_tx) && not (has_flag endp.state endp_rx)
          then (elim (find_node (decode_endpoint endpoint).0 nodes) [
            | none ↦ record { status = Status.err_endp_invalid; nodes = nodes; calls = [] }
            | some j ↦ record {
              status = Status.success;
              nodes = set nodes j (without (get_or nodes j blank_node) k);
              calls =
                  fin_calls endp
                  ++ (check_resume req_deleted endpoint 0 Status.err_port_invalid
                      ∷ recover_all endp.rx_queue);
            }
          ])
          else record { status = Status.err_chan_open; nodes = nodes; calls = [] }
    ]

-- `mcapi_find_local_endpoint`: the indices of the node and of the endpoint.
unfoldable pub find_local_endpoint : ℕ → List Node → ℕ → ℕ → Option (ℕ × ℕ)
find_local_endpoint max_endpoints nodes node_id port_id = elim (find_node node_id nodes) [
  | none ↦ none
  | some i ↦ elim (find_endpoint max_endpoints port_id (get_or nodes i blank_node).endpoint_list) [
    | none ↦ none
    | some k ↦ some (i, k)
  ]
]

-- What `mcapi_create_endpoint` leaves: the status, the handle that is returned, the nodes and
-- MCAPI_Next_Port afterwards, and the calls made.
pub record ApiCreated : Type 0 where
  pub status : ℕ
  pub endpoint : ℕ
  pub nodes : List Node
  pub next_port : ℕ
  pub calls : List Call

-- `mcapi_create_endpoint`, on the node `here`; `none` when the fuel of the port search runs out.
unfoldable pub mcapi_create_endpoint : ℕ → ℕ → ℕ → List Node → ℕ → ℕ → Option ApiCreated
mcapi_create_endpoint max_endpoints fuel here nodes next_port port =
    if (port == port_any) || leb port 65535
    then (elim (find_node here nodes) [
      | none ↦ some (record {
        status = Status.err_node_notinit;
        endpoint = 0;
        nodes = nodes;
        next_port = next_port;
        calls = [];
      })
      | some i ↦
          elim (create_endpoint max_endpoints fuel (get_or nodes i blank_node) next_port port) [
            | none ↦ none
            | some r ↦ some (record {
              status = r.status;
              endpoint = r.endpoint;
              nodes = set nodes i r.node;
              next_port = r.next_port;
              calls = r.calls;
            })
          ]
    ])
    else some (record {
      status = Status.err_port_invalid;
      endpoint = 0;
      nodes = nodes;
      next_port = next_port;
      calls = [];
    })
