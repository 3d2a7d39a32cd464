-- ===== src/Messages/Receive.antt =====
-- `msg_recv` (libmcapi/mcapi/msg_rcv.c).
use openmcapi_deprecated.Base.{
  ℕ, Bool, false, not, ◌&&◌, Option, none, some, List, [], ◌∷◌, ◌++◌, inl, inr, ◌==◌, leb,
  if◌then◌else◌,
}
use openmcapi_deprecated.Status
use openmcapi_deprecated.Wire.{Buffer}
use openmcapi_deprecated.Packet.{data_size, payload}
use openmcapi_deprecated.Endpoints.{Endpoint, endp_connecting, has_flag}
use openmcapi_deprecated.Nodes.{Node}
use openmcapi_deprecated.Nodes.Api.{decode_local_endpoint, endpoint_at, set_endpoint}
use openmcapi_deprecated.Requests.{Request, init_request}
use openmcapi_deprecated.Suspend.{req_rx_fin, msg_type, Waiter}

-- What `msg_recv` leaves: the status, unless the caller is suspended; the request; the number of bytes, if
-- it is written, and the bytes received; the nodes, the queue of pending requests, and the buffer given back.
pub record MsgReceived : Type 0 where
  pub status : Option ℕ
  pub request : Option Request
  pub bytes_recv : Option ℕ
  pub bytes : Option (List ℕ)
  pub nodes : List Node
  pub waiting : List Waiter
  pub recovered : List ℕ

module _ (contents : ℕ → Buffer) (max_endpoints here : ℕ) where
  abbrev pub not_received : List Node → List Waiter → Option Request → ℕ → MsgReceived
  not_received nodes waiting request status = record {
    status = some status;
    request = request;
    bytes_recv = some 0;
    bytes = none;
    nodes = nodes;
    waiting = waiting;
    recovered = [];
  }

  abbrev pub invalid_argument : List Node → List Waiter → Option Request → MsgReceived
  invalid_argument nodes waiting request =
      record (not_received nodes waiting request Status.err_parameter) { bytes_recv = none }

  -- The request that `msg_recv` sets up.
  abbrev pub receive_request : ℕ → ℕ → Request
  receive_request endpoint buffer_size = record (init_request here req_rx_fin) {
    target_endp = endpoint;
    chan_type = msg_type;
    buf_size = buffer_size;
  }

  -- The part of `msg_recv` for an endpoint that is not connected. A caller with a timeout is suspended by
  -- the operating system with its request on the queue; a caller without one gets MCAPI_SUCCESS.
  unfoldable pub receive_now :
      List Node → List Waiter → ℕ × ℕ → Endpoint → Request → ℕ → Bool → MsgReceived
  receive_now nodes waiting place endp request address timeout = elim endp.rx_queue [
    | [] ↦ record {
      status = if timeout then none else some Status.success;
      request = some request;
      bytes_recv = some 0;
      bytes = none;
      nodes = nodes;
      waiting =
          waiting ++ (record { address = address; request = request; has_endp_ptr = false } ∷ []);
      recovered = [];
    }
    | b ∷ bs ↦
        let size = data_size (contents b) in
        if leb size request.buf_size
        then record {
          status = some Status.success;
          request = some (record request { status = Status.success; byte_count = size });
          bytes_recv = some size;
          bytes = some (payload (contents b));
          nodes = set_endpoint nodes place (record endp { rx_queue = bs });
          waiting = waiting;
          recovered = b ∷ [];
        }
        else not_received nodes waiting
            (some (record request { status = Status.err_msg_truncated })) Status.err_msg_truncated
  ]

  -- The request after `request->mcapi_byte_count = 0`.
  abbrev pub no_bytes : Request → Option Request
  no_bytes r = some (record r { byte_count = 0 })

  -- `msg_recv`; `has_buffer` and `has_count` are whether these pointers are not null, `address` is that of
  -- the request.
  unfoldable pub msg_recv :
      List Node → List Waiter → ℕ → Bool → ℕ → Bool → Option Request → ℕ → Bool → MsgReceived
  unfolding receive_now
  msg_recv nodes waiting endpoint has_buffer buffer_size has_count request address timeout =
      elim request [
        | none ↦ invalid_argument nodes waiting none
        | some r ↦
            if has_count && has_buffer && not (buffer_size == 0)
            then (elim (decode_local_endpoint max_endpoints nodes endpoint) [
              | inl _ ↦ not_received nodes waiting (no_bytes r) Status.err_endp_invalid
              | inr place ↦
                  let endp = endpoint_at nodes place in
                  if has_flag endp.state endp_connecting
                  then not_received nodes waiting (no_bytes r) Status.err_chan_connected
                  else receive_now nodes waiting place endp (receive_request endpoint buffer_size)
                      address timeout
            ])
            else invalid_argument nodes waiting (some r)
      ]
