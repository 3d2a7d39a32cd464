-- ===== src/Channels.antt =====
-- Closing one side of a channel: `mcapi_close` and `mcapi_tx_fin_msg` of libmcapi/mcapi/connect.c.
--
-- `send` is what `msg_send` returns for a message to an endpoint on behalf of the control port; the
-- calls made are in the result, in their order.
pub mod Closing
mod Tests
use openmcapi_deprecated.Base.{
  ℕ, ◌+◌, Bool, true, false, Option, none, some, List, [], ◌∷◌, ◌++◌, ◌==◌, if◌then◌else◌, bit_or,
  replicate,
}
use openmcapi_deprecated.Status
use openmcapi_deprecated.Wire.{Buffer, put16}
use openmcapi_deprecated.Handle.{encode_endpoint}
use openmcapi_deprecated.Endpoints.{
  Endpoint, endp_open, endp_connecting, endp_tx, endp_rx, has_flag,
}
use openmcapi_deprecated.Nodes.{Call, check_resume, tx_fin_msg}
use openmcapi_deprecated.Nodes.Api.{recover_all, fin_calls}
use openmcapi_deprecated.Requests.{Request, init_request}

abbrev pub req_rx_open : ℕ
req_rx_open = 6

abbrev pub req_tx_open : ℕ
req_tx_open = 7

abbrev pub req_closed : ℕ
req_closed = 8

abbrev pub connect_fin : ℕ
connect_fin = 12

abbrev pub fin_tx_node : ℕ
fin_tx_node = 2

abbrev pub fin_tx_port : ℕ
fin_tx_port = 4

abbrev pub fin_port : ℕ
fin_port = 6

abbrev pub endp_disconnected : ℕ
endp_disconnected = 0x100

abbrev pub rx_control_port : ℕ
rx_control_port = 900

-- The message of `mcapi_tx_fin_msg`, from a buffer that holds anything.
pub fin_message : Buffer → Endpoint → Buffer
fin_message buffer endp =
    let b₁ = put16 buffer 0 connect_fin in
    let b₂ = put16 b₁ fin_port endp.foreign_port_id in
    let b₃ = put16 b₂ fin_tx_node endp.node_id in put16 b₃ fin_tx_port endp.port_id

-- What `mcapi_close` leaves: the status, the endpoint, the request if it was set up, and the calls.
pub record ChannelClosed : Type 0 where
  pub status : ℕ
  pub endp : Endpoint
  pub request : Option Request
  pub calls : List Call

-- The calls on closing the send side, and the receive side.
abbrev pub tx_close_calls : Endpoint → List Call
tx_close_calls endp = check_resume req_tx_open endp.endp_handle 0 Status.err_chan_notopen ∷ []

abbrev pub rx_close_calls : Endpoint → List Call
rx_close_calls endp =
    recover_all endp.rx_queue
    ++ (check_resume req_rx_open endp.endp_handle 0 Status.err_chan_notopen ∷ [])

-- The checks of `mcapi_close` for the side that is closed, with what they do on the way: the status, the
-- endpoint and the calls.
pub close_side : Endpoint → ℕ → ℕ × Endpoint × List Call
close_side endp flag =
    if flag == endp_tx
    then (if has_flag endp.state endp_tx
        then (Status.success, endp, tx_close_calls endp)
        else (if has_flag endp.state endp_rx
            then (Status.err_chan_direction, endp, [])
            else (Status.err_chan_notopen, endp, [])))
    else (if has_flag endp.state endp_rx
        then (Status.success, record endp { rx_queue = [] }, rx_close_calls endp)
        else (if has_flag endp.state endp_tx
            then (Status.err_chan_direction, endp, [])
            else (Status.err_chan_notopen, endp, [])))

-- The part of `mcapi_close` after the checks.
pub finish_close : (Endpoint → ℕ) → ℕ → Endpoint → List Call → ChannelClosed
finish_close fin here endp calls = record {
  status = if has_flag endp.state endp_connecting then fin endp else Status.success;
  endp = record endp { state = bit_or endp_disconnected endp_open; chan_type = 0 };
  request = some (record (init_request here req_closed) {
    status = Status.success;
    target_endp = endp.endp_handle;
  });
  calls =
      calls
      ++ (fin_calls endp
          ++ (check_resume req_closed endp.endp_handle 0 Status.err_not_connected ∷ []));
}

abbrev pub close_refused : ℕ → Endpoint → ChannelClosed
close_refused status endp = record { status = status; endp = endp; request = none; calls = [] }

-- `mcapi_close` of the endpoint, with what `mcapi_tx_fin_msg` returns for it; `has_request` is whether
-- the request pointer is not null.
pub mcapi_close : (Endpoint → ℕ) → ℕ → Endpoint → ℕ → Bool → ℕ → ChannelClosed
unfolding close_side finish_close
mcapi_close fin here endp type has_request flag =
    if has_request
    then (if endp.chan_type == type
        then (let (status, endp', calls) = close_side endp flag in
            if status == Status.success
            then finish_close fin here endp' calls
            else record { status = status; endp = endp'; request = none; calls = calls })
        else close_refused Status.err_chan_type endp)
    else close_refused Status.err_parameter endp

-- The status of `mcapi_tx_fin_msg`, where `send` is that of `msg_send` to an endpoint.
pub fin_status : (ℕ → Buffer → ℕ) → Buffer → Endpoint → ℕ
unfolding fin_message
fin_status send buffer endp =
    send (encode_endpoint endp.foreign_node_id rx_control_port) (fin_message buffer endp)
