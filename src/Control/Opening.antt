-- ===== src/Control/Opening.antt =====
-- Connecting and opening channels: `mcapi_connect` and `mcapi_open` of libmcapi/mcapi/connect.c. The requests
-- that are left pending are in the result. `buffer` is what the message buffer on the stack holds before it
-- is written.
use openmcapi_deprecated.Base.{
  ℕ, Bool, true, false, not, ◌&&◌, ◌||◌, Option, none, some, inl, inr, ◌==◌, if◌then◌else◌, bit_or,
}
use openmcapi_deprecated.Status
use openmcapi_deprecated.Wire.{Buffer, put16, put32}
use openmcapi_deprecated.Handle.{encode_endpoint, decode_endpoint}
use openmcapi_deprecated.Endpoints.{Endpoint, endp_connecting, endp_tx, endp_rx, has_flag}
use openmcapi_deprecated.Nodes.Api.{
  find_local_endpoint, decode_local_endpoint, endpoint_at, set_endpoint,
}
use openmcapi_deprecated.Channels.{rx_control_port}
use openmcapi_deprecated.Requests.{Request, init_request}
use openmcapi_deprecated.Suspend.{req_connected}
use openmcapi_deprecated.Messages.{Driver}
use openmcapi_deprecated.Control.{
  Store, prot_type, cnct_req_node, cnct_req_port, cnct_tx_node, cnct_tx_port, cnct_rx_node,
  cnct_rx_port, cnct_chan_type, cnct_status, connect_msg_len, endp_connected, endp_connecting_tx,
  endp_connecting_rx, own, peer, ctrl_send, tx_open,
}
use openmcapi_deprecated.Control.Process.{connect_request}

-- The status, the application's request if it was set up, whether that was put on the queue of pending
-- requests, and the store.
pub record Opened (D : Type 0) : Type 0 where
  pub status : ℕ
  pub request : Option Request
  pub pending : Bool
  pub store : Store D

-- The message of `mcapi_connect`.
unfoldable pub connect_message : Buffer → ℕ → ℕ × ℕ → ℕ × ℕ → ℕ → Buffer
connect_message buffer here (tx_node, tx_port) (rx_node, rx_port) type =
    let b₁ = put16 buffer prot_type connect_request in
    let b₂ = put16 b₁ cnct_req_node here in
    let b₃ = put16 b₂ cnct_req_port rx_control_port in
    let b₄ = put16 b₃ cnct_tx_node tx_node in
    let b₅ = put16 b₄ cnct_tx_port tx_port in
    let b₆ = put16 b₅ cnct_rx_node rx_node in
    let b₇ = put16 b₆ cnct_rx_port rx_port in
    let b₈ = put16 b₇ cnct_chan_type type in put32 b₈ cnct_status 0

module _ {D : Type 0} (driver : Driver D) (max_endpoints here ctrl_tx : ℕ) where
  -- The checks of `mcapi_connect` on one of the two endpoints: the status.
  unfoldable pub check_side : Store D → ℕ × ℕ → ℕ → ℕ
  check_side s (node, port) type =
      if node == here
      then elim (find_local_endpoint max_endpoints s.nodes node port) [
        | none ↦ Status.err_endp_invalid
        | some place ↦
            let endp = endpoint_at s.nodes place in
            if has_flag endp.state endp_connecting
            then Status.err_chan_connected
            else (if not (endp.chan_type == 0) && not (endp.chan_type == type)
                then Status.err_chan_type
                else Status.success)
      ]
      else Status.success

  -- The part of `mcapi_connect` after the checks, with the status they have given.
  unfoldable pub connect_checked : Store D → Buffer → ℕ × ℕ → ℕ × ℕ → ℕ → Request → ℕ → Opened D
  unfolding connect_message
  connect_checked s buffer tx rx type request status =
      if status == Status.success
      then (let (sent, s') =
            ctrl_send driver max_endpoints here ctrl_tx s (encode_endpoint tx.0 rx_control_port)
              (connect_message buffer here tx rx type) connect_msg_len in
          if sent == Status.success
          then record { status = sent; request = some request; pending = true; store = s' }
          else record {
            status = sent;
            request = some (record request { status = sent });
            pending = false;
            store = s';
          })
      else record {
        status = status;
        request = some (record request { status = status });
        pending = false;
        store = s;
      }

  -- `mcapi_connect`; `has_request` is whether the request pointer is not null.
  unfoldable pub mcapi_connect : Store D → Buffer → ℕ → ℕ → ℕ → Bool → Opened D
  mcapi_connect s buffer send_endpoint receive_endpoint type has_request =
      if has_request
      then (let tx = decode_endpoint send_endpoint in
          let rx = decode_endpoint receive_endpoint in
          let request = record (init_request here req_connected) { target_endp = send_endpoint } in
          let first = check_side s tx type in
          let second = check_side s rx type in
          connect_checked s buffer tx rx type request
            (if first == Status.success then second else first))
      else record { status = Status.err_parameter; request = none; pending = false; store = s }

  abbrev pub not_opened : Store D → ℕ → Opened D
  not_opened s status = record { status = status; request = none; pending = false; store = s }

  -- The end of `mcapi_open` for an endpoint that is opened: its request is pending and its flag is set.
  abbrev pub opened : Store D → ℕ × ℕ → Endpoint → ℕ → ℕ → ℕ → ℕ → Opened D
  opened s place endp handle request_type flag status = record {
    status = status;
    request = some (record (init_request here request_type) { target_endp = handle });
    pending = true;
    store = record s {
      nodes = set_endpoint s.nodes place (record endp { state = bit_or endp.state flag });
    };
  }

  -- The message to the other side, if the direction allows the opening.
  unfoldable pub announce : Store D → Buffer → Endpoint → ℕ → ℕ → ℕ → ℕ × Store D
  announce s buffer endp type flag pkt_type =
      if flag == endp_tx
      then (if not (has_flag endp.state endp_rx) && not (has_flag endp.state endp_connecting_rx)
          then tx_open driver max_endpoints here ctrl_tx s buffer endp (own endp) (peer endp)
              pkt_type type
          else (Status.err_chan_direction, s))
      else (if not (has_flag endp.state endp_tx) && not (has_flag endp.state endp_connecting_tx)
          then tx_open driver max_endpoints here ctrl_tx s buffer endp (peer endp) (own endp)
              pkt_type type
          else (Status.err_chan_direction, s))

  -- `mcapi_open` of an endpoint that is part of a connection.
  unfoldable pub open_connecting : Store D → Buffer → ℕ × ℕ → ℕ → ℕ → ℕ → ℕ → ℕ → Opened D
  open_connecting s buffer place handle type flag request_type pkt_type =
      let endp = endpoint_at s.nodes place in
      if endp.chan_type == type
      then (let (status, s') = announce s buffer endp type flag pkt_type in
          if status == Status.success
          then opened s' place (endpoint_at s'.nodes place) handle request_type flag status
          else not_opened s' status)
      else not_opened s Status.err_chan_type

  -- `mcapi_open` of an endpoint that is not open yet.
  unfoldable pub open_closed : Store D → Buffer → ℕ × ℕ → ℕ → ℕ → ℕ → ℕ → ℕ → Opened D
  open_closed s buffer place handle type flag request_type pkt_type =
      let endp = endpoint_at s.nodes place in
      if has_flag endp.state endp_connecting
      then open_connecting s buffer place handle type flag request_type pkt_type
      else opened s place (record endp { chan_type = type }) handle request_type flag
          Status.err_not_connected

  -- `mcapi_open`
  unfoldable pub mcapi_open : Store D → Buffer → ℕ → ℕ → Bool → ℕ → ℕ → ℕ → Opened D
  mcapi_open s buffer handle type has_request flag request_type pkt_type =
      if has_request
      then elim (decode_local_endpoint max_endpoints s.nodes handle) [
        | inl e ↦ not_opened s e
        | inr place ↦
            let state = (endpoint_at s.nodes place).state in
            if has_flag state endp_connected
            then not_opened s Status.err_chan_connected
            else (if not (has_flag state endp_tx) && not (has_flag state endp_rx)
                then open_closed s buffer place handle type flag request_type pkt_type
                else not_opened s (
                    if ((flag == endp_tx) && has_flag state endp_rx)
                      || ((flag == endp_rx) && has_flag state endp_tx)
                    then Status.err_chan_direction
                    else Status.err_chan_connected))
      ]
      else not_opened s Status.err_parameter
