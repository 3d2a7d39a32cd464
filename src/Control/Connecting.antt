-- ===== src/Control/Connecting.antt =====
-- The control messages that connect two endpoints: the cases MCAPI_CONNECT_REQUEST, MCAPI_CONNECT_SYN and
-- MCAPI_CONNECT_ACK of `mcapi_process_ctrl_msg` (libmcapi/mcapi/cntrl_msg.c).
use openmcapi_deprecated.Base.{ℕ, Option, none, some, ◌==◌, if◌then◌else◌}
use openmcapi_deprecated.Status
use openmcapi_deprecated.Wire.{Buffer, get16, get32, put16, put32}
use openmcapi_deprecated.Handle.{encode_endpoint}
use openmcapi_deprecated.Endpoints.{endp_connecting, endp_tx, endp_rx, has_flag}
use openmcapi_deprecated.Nodes.Api.{endpoint_at}
use openmcapi_deprecated.Channels.{rx_control_port}
use openmcapi_deprecated.Messages.{Driver}
use openmcapi_deprecated.Control.{
  Store, tx_side, rx_side, prot_type, cnct_tx_node, cnct_chan_type, cnct_status, connect_msg_len,
  clear_flag, own, peer, put_state, tx_place, rx_place, ctrl_send, send_connect_response, tx_open,
  open_message, connect_endpoints, setup_connection,
}

abbrev pub connect_ack : ℕ
connect_ack = 6

abbrev pub open_tx : ℕ
open_tx = 8

abbrev pub open_rx : ℕ
open_rx = 9

module _ {D : Type 0} (driver : Driver D) (max_endpoints here ctrl_tx : ℕ) where
  -- The case MCAPI_CONNECT_REQUEST. The type that connecting writes into the message is written again by
  -- the response.
  unfoldable pub on_connect_request : Store D → Buffer → Store D
  on_connect_request s buffer =
      if get16 buffer cnct_tx_node == here
      then (let (status, s') = connect_endpoints driver max_endpoints here ctrl_tx s buffer in
          if status == Status.success
          then s'
          else send_connect_response driver max_endpoints here ctrl_tx s' buffer status)
      else s

  -- The case MCAPI_CONNECT_SYN: the set-up, and the rest of the case from its status on.
  unfoldable pub answer_syn : ℕ × Store D → Option (ℕ × ℕ) → Buffer → Store D
  answer_syn (status, s) found buffer =
      let answer = put32 (put16 buffer prot_type connect_ack) cnct_status status in
      let to = encode_endpoint (get16 answer cnct_tx_node) rx_control_port in
      let (status', s') = ctrl_send driver max_endpoints here ctrl_tx s to answer connect_msg_len in
      if status' == Status.success
      then elim found [
        | none ↦ s'
        | some place ↦
            let endp = endpoint_at s'.nodes place in
            if has_flag endp.state endp_rx
            then (tx_open driver max_endpoints here ctrl_tx s' answer endp (peer endp) (own endp)
                open_rx (get16 answer cnct_chan_type)).1
            else s'
      ]
      else s'

  unfoldable pub on_connect_syn : Store D → Buffer → Store D
  on_connect_syn s buffer = elim (rx_place driver max_endpoints here ctrl_tx s buffer) [
    | none ↦ answer_syn (Status.err_endp_invalid, s) none buffer
    | some place ↦
        answer_syn (setup_connection driver max_endpoints here ctrl_tx s place buffer rx_side)
          (some place) buffer
  ]

  -- The case MCAPI_CONNECT_ACK: after a set-up that the other side has accepted.
  unfoldable pub open_connected : ℕ × Store D → ℕ × ℕ → Buffer → ℕ × Store D × Buffer
  open_connected (status, s) place buffer =
      let endp = endpoint_at s.nodes place in
      let type = get16 buffer cnct_chan_type in
      if has_flag endp.state endp_tx
      then (let (status', s') =
            tx_open driver max_endpoints here ctrl_tx s buffer endp (own endp) (peer endp) open_tx
              type in
          (status', s', open_message buffer endp (own endp) (peer endp) open_tx type))
      else (status, s, buffer)

  unfoldable pub take_ack : Store D → ℕ × ℕ → Buffer → ℕ → ℕ × Store D × Buffer
  take_ack s place buffer status =
      if status == Status.success
      then open_connected
          (setup_connection driver max_endpoints here ctrl_tx s place buffer tx_side) place buffer
      else (
        status,
        put_state s place (clear_flag (endpoint_at s.nodes place).state endp_connecting),
        buffer,
      )

  unfoldable pub respond : ℕ × Store D × Buffer → Store D
  respond (status, s, buffer) =
      send_connect_response driver max_endpoints here ctrl_tx s buffer status

  unfoldable pub on_connect_ack : Store D → Buffer → Store D
  unfolding respond
  on_connect_ack s buffer =
      let status = get32 buffer cnct_status in
      elim (tx_place driver max_endpoints here ctrl_tx s buffer) [
        | none ↦ respond (status, s, buffer)
        | some place ↦ respond (take_ack s place buffer status)
      ]
