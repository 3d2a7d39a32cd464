-- ===== src/Suspend.antt =====
-- Waking suspended requests up: `mcapi_check_resume` and `mcapi_resume` of libmcapi/mcapi/suspend.c. A
-- request on the local queue is its structure with its address and whether `mcapi_endp_ptr` is set; what
-- is written through the application's pointers is in the result. `contents` gives the bytes of the
-- buffer at an address. `none` stands for a read through a null pointer.
pub mod Walk
pub mod Resume
pub mod Events
mod Tests
use openmcapi_deprecated.Base.{
  ℕ, zero, suc, ◌+◌, Bool, true, false, not, ◌&&◌, ◌||◌, Option, none, some, List, [], ◌∷◌, ◌==◌,
  leb, if◌then◌else◌, ◌>>=◌,
}
use openmcapi_deprecated.Status
use openmcapi_deprecated.Wire.{Buffer}
use openmcapi_deprecated.Packet.{data_size, payload}
use openmcapi_deprecated.Handle.{encode_endpoint}
use openmcapi_deprecated.Endpoints.{Endpoint}
use openmcapi_deprecated.Nodes.{req_deleted, req_created}
use openmcapi_deprecated.Channels.{req_rx_open, req_tx_open, req_closed}
use openmcapi_deprecated.Requests.{Request}

abbrev pub req_tx_fin : ℕ
req_tx_fin = 3

abbrev pub req_rx_fin : ℕ
req_rx_fin = 4

abbrev pub req_connected : ℕ
req_connected = 5

abbrev pub msg_type : ℕ
msg_type = 0

abbrev pub chan_pkt_type : ℕ
chan_pkt_type = 1

-- A request on a queue.
pub record Waiter : Type 0 where
  pub address : ℕ
  pub request : Request
  pub has_endp_ptr : Bool

-- What a request gets through the application's pointers.
pub data Delivery : Type 0 where
  nothing : Delivery
  endpoint_handle : ℕ → Delivery
  message : List ℕ → Delivery
  packet_buffer : ℕ → Delivery

-- A request that was taken off the queue and resumed.
pub record Woken : Type 0 where
  pub waiter : Waiter
  pub delivery : Delivery

-- The condition of the `case` for the type of event, on a request.
unfoldable pub wants : ℕ → ℕ → Request → Bool
wants kind endpoint r =
    if kind == req_deleted
    then (((r.type == req_tx_fin) || (r.type == req_tx_open) || (r.type == req_connected))
        && (r.target_endp == endpoint))
      || (((r.type == req_rx_fin) || (r.type == req_rx_open) || (r.type == req_connected))
          && (r.target_endp == endpoint))
    else (if (kind == req_closed) || (kind == req_tx_open) || (kind == req_rx_open)
        then r.target_endp == endpoint
        else (if (kind == req_tx_fin) || (kind == req_rx_fin) || (kind == req_connected)
            then (r.type == kind) && (r.target_endp == endpoint)
            else (if kind == req_created
                then (r.type == req_created)
                  && (encode_endpoint r.target_node_id r.target_port_id == endpoint)
                else false)))

-- `mcapi_resume`: the request with its status, and what it was given.
abbrev pub resume : Waiter → ℕ → Delivery → Woken
resume w status delivery = record {
  waiter = record w { request = record w.request { status = status } };
  delivery = delivery;
}

-- The request with the number of bytes.
abbrev pub with_bytes : Waiter → ℕ → Waiter
with_bytes w n = record w { request = record w.request { byte_count = n } }

-- What `mcapi_check_resume` leaves: the queue, the requests resumed, the receive queue, and the buffers
-- that went to MCAPI_Buf_Wait_List and back to the driver.
pub record Resumed : Type 0 where
  pub waiting : List Waiter
  pub woken : List Woken
  pub rx_queue : List ℕ
  pub wait_list : List ℕ
  pub recovered : List ℕ

abbrev pub first_buffer : List ℕ → Option ℕ
first_buffer [] = none
first_buffer (b ∷ bs) = some b

-- The part of `mcapi_check_resume` after the loop.
unfoldable pub settle : Endpoint → List Waiter × List Woken × Bool → Option Resumed
settle endp (waiting, woken, false) = some record {
  waiting = waiting;
  woken = woken;
  rx_queue = endp.rx_queue;
  wait_list = [];
  recovered = [];
}
settle endp (waiting, woken, true) = elim endp.rx_queue [
  | [] ↦ none
  | b ∷ bs ↦ some record {
    waiting = waiting;
    woken = woken;
    rx_queue = bs;
    wait_list = if endp.chan_type == chan_pkt_type then b ∷ [] else [];
    recovered = if endp.chan_type == chan_pkt_type then [] else b ∷ [];
  }
]

module _ (contents : ℕ → Buffer) where
  -- The inner switch of the case MCAPI_REQ_RX_FIN: the request, the status from here on, what is
  -- given, and whether data was copied.
  unfoldable pub receive : Option ℕ → ℕ → ℕ → Waiter → Option (Waiter × ℕ × Delivery × Bool)
  receive first byte_count status w =
      if w.request.chan_type == msg_type
      then (if leb byte_count w.request.buf_size
          then elim first [
            | none ↦ none
            | some b ↦ some (
              with_bytes w (data_size (contents b)),
              status,
              message (payload (contents b)),
              true,
            )
          ]
          else some (w, Status.err_msg_truncated, nothing, false))
      else (if w.request.chan_type == chan_pkt_type
          then elim first [
            | none ↦ none
            | some b ↦ some (with_bytes w (data_size (contents b)), status, packet_buffer b, true)
          ]
          else some (w, status, nothing, false))

  -- The body of a `case` for a request that its condition takes.
  unfoldable pub serve : ℕ → ℕ → Option ℕ → ℕ → ℕ → Waiter → Option (Waiter × ℕ × Delivery × Bool)
  unfolding receive
  serve kind endpoint first byte_count status w =
      if kind == req_rx_fin
      then receive first byte_count status w
      else (if kind == req_tx_fin
          then some (with_bytes w byte_count, status, nothing, false)
          else (if (kind == req_created) && w.has_endp_ptr
              then some (w, status, endpoint_handle endpoint, false)
              else some (w, status, nothing, false)))

  -- The `while` of `mcapi_check_resume`, from a request on: the queue that is left, the requests that
  -- were resumed in their order, and whether data was copied.
  unfoldable pub resume_from :
      ℕ → ℕ → Option ℕ → ℕ → ℕ → List Waiter → Option (List Waiter × List Woken × Bool)
  unfolding wants serve
  resume_from kind endpoint first byte_count status [] = some ([], [], false)
  resume_from kind endpoint first byte_count status (w ∷ ws) =
      elim (wants kind endpoint w.request) [
        | true ↦ (do
          (w', status', delivery, here) ← serve kind endpoint first byte_count status w
          (waiting, woken, copied) ← resume_from kind endpoint first byte_count status' ws
          some (waiting, resume w' status' delivery ∷ woken, here || copied))
        | false ↦ (do
          (waiting, woken, copied) ← resume_from kind endpoint first byte_count status ws
          some (w ∷ waiting, woken, copied))
      ]

  -- `mcapi_check_resume` for an endpoint structure.
  unfoldable pub check_resume : ℕ → ℕ → Endpoint → ℕ → ℕ → List Waiter → Option Resumed
  unfolding resume_from settle
  check_resume kind endpoint endp byte_count status queue = do
    r ← resume_from kind endpoint (first_buffer endp.rx_queue) byte_count status queue
    settle endp r
