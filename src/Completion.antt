-- ===== src/Completion.antt =====
-- Testing and cancelling requests: `__mcapi_test` of libmcapi/mcapi/mcapi_test.c here, and `mcapi_cancel` of
-- mcapi_cancel.c in Cancel.
pub mod Cancel
pub mod Cancelled
pub mod Verdict
mod Tests
use openmcapi_deprecated.Base.{
  ℕ, Bool, true, false, not, ◌&&◌, Option, none, some, List, ◌⊎◌, inl, inr, ◌==◌, if◌then◌else◌,
}
use openmcapi_deprecated.Status
use openmcapi_deprecated.Endpoints.{Endpoint, endp_tx, endp_rx, has_flag}
use openmcapi_deprecated.Nodes.{Node, req_created}
use openmcapi_deprecated.Nodes.Api.{find_local_endpoint, decode_local_endpoint, endpoint_at}
use openmcapi_deprecated.Channels.{req_rx_open, req_tx_open, req_closed, endp_disconnected}
use openmcapi_deprecated.Suspend.{req_tx_fin, req_rx_fin, req_connected}
use openmcapi_deprecated.Control.{endp_connected}
use openmcapi_deprecated.Requests.{Request}

-- What `__mcapi_test` leaves: the status, the request, the size if it is written, the endpoint handle if it is
-- written, and the result.
pub record Tested : Type 0 where
  pub status : ℕ
  pub request : Request
  pub size : Option ℕ
  pub handle : Option ℕ
  pub done : Bool

-- A test that finds the request not completed, and one that finds it completed.
abbrev pub not_done : Request → ℕ → Tested
not_done r status = record {
  status = status;
  request = r;
  size = none;
  handle = none;
  done = false;
}

abbrev pub done_with : Request → ℕ → Tested
done_with r status = record {
  status = status;
  request = r;
  size = none;
  handle = none;
  done = true;
}

-- The request that is completed when a condition on its endpoint holds.
unfoldable pub test_flag : Request → Bool → Tested
test_flag r holds =
    if holds
    then done_with (record r { status = Status.success }) Status.success
    else not_done r Status.pending

-- The request that is completed once its status is another than MCAPI_PENDING.
unfoldable pub test_status : Request → Tested
test_status r =
    if r.status == Status.pending then not_done r Status.pending else done_with r r.status

-- The case MCAPI_REQ_RX_FIN, for an endpoint that was found.
unfoldable pub test_received : Request → Tested
test_received r =
    if r.status == Status.success
    then record (done_with r Status.success) { size = some r.byte_count }
    else record (not_done r r.status) { size = some 0 }

-- A flag of the endpoint, if it was found.
abbrev pub endp_has : Option Endpoint → ℕ → Bool
endp_has none f = false
endp_has (some e) f = has_flag e.state f

-- The `switch` for a request on a local endpoint.
unfoldable pub test_operation : Request → Option Endpoint → Tested
unfolding test_flag test_status test_received
test_operation r endp =
    if r.type == req_tx_fin
    then record (test_status r) { size = elim endp [ none ↦ none | some _ ↦ some r.byte_count ] }
    else (if r.type == req_rx_fin
        then elim endp [ none ↦ not_done r Status.err_request_invalid | some _ ↦ test_received r ]
        else (if r.type == req_connected
            then test_status r
            else (if r.type == req_rx_open
                then test_flag r (endp_has endp endp_rx && endp_has endp endp_connected)
                else (if r.type == req_closed
                    then test_flag r (endp_has endp endp_disconnected)
                    else (if r.type == req_tx_open
                        then test_flag r (endp_has endp endp_tx && endp_has endp endp_connected)
                        else not_done r Status.err_request_invalid)))))

module _ (max_endpoints here : ℕ) where
  -- The case of a request for an endpoint that is to be created.
  unfoldable pub test_created : List Node → Request → Tested
  unfolding test_status
  test_created nodes r =
      if r.target_node_id == here
      then elim (find_local_endpoint max_endpoints nodes r.target_node_id r.target_port_id) [
        | some place ↦ record (done_with (record r { status = Status.success }) Status.success) {
          handle = some (endpoint_at nodes place).endp_handle;
        }
        | none ↦ not_done r Status.pending
      ]
      else test_status r

  -- The endpoint of the request, as the pointer that `mcapi_decode_local_endpoint` returns.
  abbrev pub target : List Node → ℕ → Option Endpoint
  target nodes handle = elim (decode_local_endpoint max_endpoints nodes handle) [
    | inl _ ↦ none
    | inr place ↦ some (endpoint_at nodes place)
  ]

  -- `__mcapi_test` of a request whose pointer is not null; `has_size` is whether the size pointer is not null.
  unfoldable pub mcapi_test : List Node → Request → Bool → Tested
  unfolding test_created test_operation
  mcapi_test nodes r has_size =
      if r.status == Status.err_request_cancelled
      then not_done r Status.err_request_cancelled
      else (if has_size
          then (if r.type == req_created
              then test_created nodes r
              else test_operation r (target nodes r.target_endp))
          else not_done r Status.err_parameter)
