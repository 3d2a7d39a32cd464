-- ===== src/Nodes/Delete.antt =====
-- `mcapi_delete_endpoint` (libmcapi/mcapi/mcapi_delete_endp.c), its success and its failures.
use openmcapi_deprecated.Base.{
  ℕ, ◌^◌, ◌<◌, ◌≡◌, ◌≢◌, refl, ap, ◌⊎◌, inl, inr, true, false, some, none, List, [], ◌∷◌, ◌++◌, set,
  get_or, Bool-cases, Option-cases,
}
use openmcapi_deprecated.Status
use openmcapi_deprecated.Handle.{decode_endpoint}
use openmcapi_deprecated.Endpoints.{slot, endp_closed, endp_tx, endp_rx, has_flag, find_endpoint}
use openmcapi_deprecated.Nodes.Valid.{IsValid}
use openmcapi_deprecated.Nodes.{Node, Call, blank_node, find_node, check_resume, req_deleted}
use openmcapi_deprecated.Nodes.Api.{
  without, fin_calls, recover_all, decode_local_endpoint, delete_endpoint, ApiResult,
}
use openmcapi_deprecated.Nodes.Closed.{Closed, Ends, Ends-calls, emptied, without-Closed}

-- What `mcapi_delete_endpoint` does, branch by branch.
module _ (n : ℕ) (nodes : List Node) (endpoint i k : ℕ)
    (node_found : find_node (decode_endpoint endpoint).0 nodes ≡ some i) where
  decoded :
      find_endpoint n (decode_endpoint endpoint).1 (get_or nodes i blank_node).endpoint_list
        ≡ some k
      → decode_local_endpoint n nodes endpoint ≡ inr (i, k)
  unfolding decode_local_endpoint
  decoded e = rw (decode_local_endpoint, node_found, e) refl

  delete-idle :
      find_endpoint n (decode_endpoint endpoint).1 (get_or nodes i blank_node).endpoint_list
        ≡ some k
      → has_flag (slot (get_or nodes i blank_node).endpoint_list k).state endp_tx ≡ false
      → has_flag (slot (get_or nodes i blank_node).endpoint_list k).state endp_rx ≡ false
      → delete_endpoint n nodes endpoint ≡ record {
        status = Status.success;
        nodes = set nodes i (without (get_or nodes i blank_node) k);
        calls =
            fin_calls (slot (get_or nodes i blank_node).endpoint_list k)
            ++ (check_resume req_deleted endpoint 0 Status.err_port_invalid
                ∷ recover_all (slot (get_or nodes i blank_node).endpoint_list k).rx_queue);
      }
  unfolding delete_endpoint
  delete-idle e tx rx = rw (delete_endpoint, decoded e, tx, rx, node_found) refl

  delete_connected :
      find_endpoint n (decode_endpoint endpoint).1 (get_or nodes i blank_node).endpoint_list
        ≡ some k
      → (has_flag (slot (get_or nodes i blank_node).endpoint_list k).state endp_tx ≡ true)
        ⊎ (has_flag (slot (get_or nodes i blank_node).endpoint_list k).state endp_rx ≡ true)
      → delete_endpoint n nodes endpoint
        ≡ record { status = Status.err_chan_open; nodes = nodes; calls = [] }
  unfolding delete_endpoint
  delete_connected e (inl tx) = rw (delete_endpoint, decoded e, tx) refl
  delete_connected e (inr rx) =
      elim (Bool-cases
        (has_flag (slot (get_or nodes i blank_node).endpoint_list k).state endp_tx)) [
          | inl tx ↦ rw (delete_endpoint, decoded e, tx) refl
          | inr tx ↦ rw (delete_endpoint, decoded e, tx, rx) refl
        ]

  -- An open endpoint of a valid node without the TX and RX flags is deleted: `mcapi_delete_endpoint`
  -- returns success; its port is not found any more, its entry is closed with nothing queued, every other port
  -- is found where it was, the node is valid and its count is one less. A FIN is sent first if a connection was
  -- half open, then the requests that wait on the endpoint are woken with MCAPI_ERR_PORT_INVALID, then each queued
  -- buffer is given back, in order.
  pub delete_endpoint-closes :
      0 < n
      → n < 2 ^ 32
      → IsValid n (get_or nodes i blank_node)
      → find_endpoint n (decode_endpoint endpoint).1 (get_or nodes i blank_node).endpoint_list
        ≡ some k
      → has_flag (slot (get_or nodes i blank_node).endpoint_list k).state endp_tx ≡ false
      → has_flag (slot (get_or nodes i blank_node).endpoint_list k).state endp_rx ≡ false
      → (after : Node) × (calls : List Call) × (delete_endpoint n nodes endpoint
          ≡ record { status = Status.success; nodes = set nodes i after; calls = calls })
        × Ends endpoint (slot (get_or nodes i blank_node).endpoint_list k) calls
        × ((slot after.endpoint_list k).state ≡ endp_closed)
        × ((slot after.endpoint_list k).rx_queue ≡ [])
        × Closed n (get_or nodes i blank_node) after (decode_endpoint endpoint).1
  delete_endpoint-closes pos_n small v e tx rx =
      let node = get_or nodes i blank_node in
      let entry = emptied n pos_n small node (decode_endpoint endpoint).1 k v e in
      (
        without node k,
        _,
        delete-idle e tx rx,
        Ends-calls endpoint (slot node.endpoint_list k),
        ap (λ x. x.state) entry,
        ap (λ x. x.rx_queue) entry,
        without-Closed n pos_n small node (decode_endpoint endpoint).1 k v e,
      )

-- The result of a deletion that fails with a status.
abbrev pub not_deleted : ℕ → List Node → ApiResult
not_deleted status nodes = record { status = status; nodes = nodes; calls = [] }

module _ (n : ℕ) (nodes : List Node) (endpoint : ℕ) where
  delete-not_owner :
      find_node (decode_endpoint endpoint).0 nodes ≡ none
      → delete_endpoint n nodes endpoint ≡ not_deleted Status.err_endp_notowner nodes
  unfolding delete_endpoint decode_local_endpoint
  delete-not_owner e = rw (delete_endpoint, decode_local_endpoint, e) refl

  delete-invalid :
      (i : ℕ)
      → find_node (decode_endpoint endpoint).0 nodes ≡ some i
      → find_endpoint n (decode_endpoint endpoint).1 (get_or nodes i blank_node).endpoint_list
        ≡ none
      → delete_endpoint n nodes endpoint ≡ not_deleted Status.err_endp_invalid nodes
  unfolding delete_endpoint decode_local_endpoint
  delete-invalid i e e' = rw (delete_endpoint, decode_local_endpoint, e, e') refl

  -- What `mcapi_delete_endpoint` can fail with.
  pub data Failure : Type 0 where
    not_owner :
        find_node (decode_endpoint endpoint).0 nodes ≡ none
        → delete_endpoint n nodes endpoint ≡ not_deleted Status.err_endp_notowner nodes
        → Failure
    invalid :
        (i : ℕ)
        → find_node (decode_endpoint endpoint).0 nodes ≡ some i
        → find_endpoint n (decode_endpoint endpoint).1 (get_or nodes i blank_node).endpoint_list
          ≡ none
        → delete_endpoint n nodes endpoint ≡ not_deleted Status.err_endp_invalid nodes
        → Failure
    connected :
        (i k : ℕ)
        → find_node (decode_endpoint endpoint).0 nodes ≡ some i
        → find_endpoint n (decode_endpoint endpoint).1 (get_or nodes i blank_node).endpoint_list
          ≡ some k
        → (has_flag (slot (get_or nodes i blank_node).endpoint_list k).state endp_tx ≡ true)
          ⊎ (has_flag (slot (get_or nodes i blank_node).endpoint_list k).state endp_rx ≡ true)
        → delete_endpoint n nodes endpoint ≡ not_deleted Status.err_chan_open nodes
        → Failure

  idle-succeeds :
      (i k : ℕ)
      → find_node (decode_endpoint endpoint).0 nodes ≡ some i
      → find_endpoint n (decode_endpoint endpoint).1 (get_or nodes i blank_node).endpoint_list
        ≡ some k
      → has_flag (slot (get_or nodes i blank_node).endpoint_list k).state endp_tx ≡ false
      → has_flag (slot (get_or nodes i blank_node).endpoint_list k).state endp_rx ≡ false
      → (delete_endpoint n nodes endpoint).status ≡ Status.success
  idle-succeeds i k e e' tx rx = ap (λ r. r.status) (delete-idle n nodes endpoint i k e e' tx rx)

  -- When `mcapi_delete_endpoint` does not return success, it has changed no node and made no call; and the
  -- handle names no local node (MCAPI_ERR_ENDP_NOTOWNER), or no open endpoint of its node
  -- (MCAPI_ERR_ENDP_INVALID), or an endpoint with the TX or RX flag (MCAPI_ERR_CHAN_OPEN).
  pub delete_endpoint-Failure : (delete_endpoint n nodes endpoint).status ≢ Status.success → Failure
  delete_endpoint-Failure failed =
      elim (Option-cases (find_node (decode_endpoint endpoint).0 nodes)) [
        | inl e ↦ not_owner e (delete-not_owner e)
        | inr (i, e) ↦
            elim (Option-cases (
              find_endpoint n (decode_endpoint endpoint).1
                (get_or nodes i blank_node).endpoint_list)) [
                  | inl e' ↦ invalid i e e' (delete-invalid i e e')
                  | inr (k, e') ↦
                      elim (Bool-cases (
                        has_flag (slot (get_or nodes i blank_node).endpoint_list k).state
                          endp_tx)) [
                            | inl tx ↦
                                connected i k e e' (inl tx)
                                  (delete_connected n nodes endpoint i k e e' (inl tx))
                            | inr tx ↦
                                elim (Bool-cases (
                                  has_flag (slot (get_or nodes i blank_node).endpoint_list k).state
                                    endp_rx)) [
                                      | inl rx ↦
                                          connected i k e e' (inr rx)
                                            (delete_connected n nodes endpoint i k e e' (inr rx))
                                      | inr rx ↦ absurd (failed (idle-succeeds i k e e' tx rx))
                                    ]
                          ]
                ]
      ]
