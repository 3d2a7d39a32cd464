-- ===== src/Completion/Cancel.antt =====
-- `mcapi_cancel` of libmcapi/mcapi/mcapi_cancel.c. The requests that are pending are a list; those that were
-- resumed are in the result, in order.
use openmcapi_deprecated.Base.{
  ℕ, zero, suc, not, ◌&&◌, ◌||◌, Option, none, some, List, [], ◌∷◌, inl, inr, ◌==◌, if◌then◌else◌,
  bit_or, ◌>>=◌,
}
use openmcapi_deprecated.Status
use openmcapi_deprecated.Wire.{Buffer}
use openmcapi_deprecated.Endpoints.{endp_open}
use openmcapi_deprecated.Nodes.{req_created}
use openmcapi_deprecated.Nodes.Api.{decode_local_endpoint, endpoint_at, set_endpoint}
use openmcapi_deprecated.Channels.{req_rx_open, req_tx_open, endp_disconnected}
use openmcapi_deprecated.Requests.{Request, same_request}
use openmcapi_deprecated.Suspend.{Waiter, Woken, nothing, resume}
use openmcapi_deprecated.Messages.{Driver}
use openmcapi_deprecated.Control.{Store}
use openmcapi_deprecated.Control.Lookup.{tx_response}

-- `mcapi_find_request` on the queue, and `mcapi_remove` of what it has found: the request, and the others.
unfoldable pub take_request : Request → List Waiter → Option (Waiter × List Waiter)
take_request target [] = none
take_request target (w ∷ ws) =
    let rest = take_request target ws in
    if same_request w.request target
    then some (w, ws)
    else elim rest [ none ↦ none | some (v, vs) ↦ some (v, w ∷ vs) ]

-- What `mcapi_cancel` leaves: the status, the application's request (if that is on the queue itself, it is
-- among those resumed), the queue of pending requests, the requests that were resumed, and the store.
pub record Cancellation (D : Type 0) : Type 0 where
  pub status : ℕ
  pub request : Request
  pub waiting : List Waiter
  pub woken : List Woken
  pub store : Store D

module _ {D : Type 0} (driver : Driver D) (max_endpoints here ctrl_tx : ℕ) (buffer : Buffer) where
  -- An opening that is cancelled: the endpoint is disconnected and has no channel type.
  unfoldable pub close_target : Store D → ℕ → Store D
  close_target s handle = elim (decode_local_endpoint max_endpoints s.nodes handle) [
    | inl _ ↦ s
    | inr place ↦
        let endp = endpoint_at s.nodes place in
        let closed = record endp { state = bit_or endp_disconnected endp_open; chan_type = 0 } in
        record s { nodes = set_endpoint s.nodes place closed }
  ]

  -- What is done for a request of the queue before it is resumed.
  unfoldable pub abandon : Store D → Request → Request → Store D
  unfolding close_target
  abandon s target r =
      if r.status == Status.pending
      then (if (r.type == req_created) && not (r.target_node_id == here)
          then tx_response driver max_endpoints here ctrl_tx s buffer
              (record r { status = Status.err_request_cancelled })
          else (if (r.type == req_rx_open) || (r.type == req_tx_open)
              then close_target s target.target_endp
              else s))
      else s

  -- The `while`, by the rounds that are left; `none` when they run out.
  unfoldable pub cancel_all :
      ℕ → Store D → Request → List Waiter → Option (Store D × List Waiter × List Woken)
  cancel_all zero s target ws = none
  cancel_all (suc fuel) s target ws = elim (take_request target ws) [
    | none ↦ some (s, ws, [])
    | some (w, vs) ↦ (do
      (s', left, woken) ← cancel_all fuel (abandon s target w.request) target vs
      some (s', left, resume w Status.err_request_cancelled nothing ∷ woken))
  ]

  -- The part of `mcapi_cancel` for a request that is not on the queue.
  unfoldable pub cancel_unqueued : Store D → Request → List Waiter → Cancellation D
  cancel_unqueued s target ws =
      if target.status == Status.pending
      then record {
        status = Status.success;
        request = record target { status = Status.err_request_cancelled };
        waiting = ws;
        woken = [];
        store = s;
      }
      else record {
        status = Status.err_request_invalid;
        request = target;
        waiting = ws;
        woken = [];
        store = s;
      }

  -- `mcapi_cancel` of a request whose pointer is not null, on fuel.
  unfoldable pub mcapi_cancel : ℕ → Store D → Request → List Waiter → Option (Cancellation D)
  mcapi_cancel fuel s target ws = elim (take_request target ws) [
    | none ↦ some (cancel_unqueued s target ws)
    | some _ ↦ (do
      (s', left, woken) ← cancel_all fuel s target ws
      some record {
        status = Status.success;
        request = target;
        waiting = left;
        woken = woken;
        store = s';
      })
  ]
