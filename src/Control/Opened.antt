-- ===== src/Control/Opened.antt =====
-- The control messages that open and close the sides of a channel, and the response to the connector: the
-- cases MCAPI_OPEN_TX, MCAPI_OPEN_RX, their acknowledgements, MCAPI_CONNECT_RESPONSE and MCAPI_CONNECT_FIN of
-- `mcapi_process_ctrl_msg` (libmcapi/mcapi/cntrl_msg.c).
use openmcapi_deprecated.Base.{ℕ, none, some, [], ◌∷◌, ◌++◌, ◌==◌, if◌then◌else◌, bit_or}
use openmcapi_deprecated.Status
use openmcapi_deprecated.Wire.{Buffer, get16, get32, put16, put32}
use openmcapi_deprecated.Handle.{encode_endpoint}
use openmcapi_deprecated.Endpoints.{endp_connecting, endp_tx, endp_rx, has_flag}
use openmcapi_deprecated.Nodes.{check_resume}
use openmcapi_deprecated.Nodes.Api.{find_local_endpoint, endpoint_at}
use openmcapi_deprecated.Channels.{req_rx_open, req_tx_open, req_closed, rx_control_port, fin_port}
use openmcapi_deprecated.Suspend.{req_connected}
use openmcapi_deprecated.Messages.{Driver}
use openmcapi_deprecated.Control.{
  Store, prot_type, cnct_tx_node, cnct_tx_port, cnct_rx_node, cnct_status, connect_msg_len,
  endp_connected, endp_tx_acked, endp_rx_acked, clear_flag, put_state, tx_place, rx_place,
  ctrl_send,
}

abbrev pub open_tx_ack : ℕ
open_tx_ack = 10

abbrev pub open_rx_ack : ℕ
open_rx_ack = 11

-- A side has opened: its flag is set, and if the other side's is set too, the connection is complete and
-- the tasks that wait for the opening are resumed.
unfoldable pub acknowledge : {D : Type 0} → Store D → ℕ × ℕ → ℕ → ℕ → ℕ → ℕ → Store D
acknowledge s place flag other kind status =
    let endp = endpoint_at s.nodes place in
    let state = bit_or endp.state flag in
    if has_flag state other
    then record (put_state s place (bit_or state endp_connected)) {
      calls = s.calls ++ (check_resume kind endp.endp_handle 0 status ∷ []);
    }
    else put_state s place state

-- The other side has refused: the flag is cleared and the tasks that wait are resumed.
unfoldable pub refuse_open : {D : Type 0} → Store D → ℕ × ℕ → ℕ → ℕ → ℕ → Store D
refuse_open s place flag kind status =
    let endp = endpoint_at s.nodes place in
    record (put_state s place (clear_flag endp.state flag)) {
      calls = s.calls ++ (check_resume kind endp.endp_handle 0 status ∷ []);
    }

module _ {D : Type 0} (driver : Driver D) (max_endpoints here ctrl_tx : ℕ) where
  -- The answer to an opening: its type, the field with the node it goes to, and the status.
  unfoldable pub answer_open : Store D → Buffer → ℕ → ℕ → ℕ → Store D
  answer_open s buffer type node_field status =
      let answer = put32 (put16 buffer prot_type type) cnct_status status in
      (ctrl_send driver max_endpoints here ctrl_tx s
        (encode_endpoint (get16 answer node_field) rx_control_port) answer connect_msg_len).1

  -- The cases MCAPI_OPEN_TX and MCAPI_OPEN_RX.
  unfoldable pub on_open_tx : Store D → Buffer → Store D
  on_open_tx s buffer = elim (rx_place driver max_endpoints here ctrl_tx s buffer) [
    | none ↦ answer_open s buffer open_tx_ack cnct_tx_node Status.err_endp_invalid
    | some place ↦
        answer_open (acknowledge s place endp_tx_acked endp_rx_acked req_rx_open Status.success)
          buffer open_tx_ack cnct_tx_node Status.success
  ]

  unfoldable pub on_open_rx : Store D → Buffer → Store D
  on_open_rx s buffer = elim (tx_place driver max_endpoints here ctrl_tx s buffer) [
    | none ↦ answer_open s buffer open_rx_ack cnct_rx_node Status.err_endp_invalid
    | some place ↦
        answer_open (acknowledge s place endp_rx_acked endp_tx_acked req_tx_open Status.success)
          buffer open_rx_ack cnct_rx_node Status.success
  ]

  -- The cases MCAPI_OPEN_RX_ACK and MCAPI_OPEN_TX_ACK.
  unfoldable pub on_open_rx_ack : Store D → Buffer → Store D
  on_open_rx_ack s buffer =
      let status = get32 buffer cnct_status in
      elim (rx_place driver max_endpoints here ctrl_tx s buffer) [
        | none ↦ s
        | some place ↦
            if status == Status.success
            then acknowledge s place endp_rx_acked endp_tx_acked req_rx_open status
            else refuse_open s place endp_rx req_rx_open status
      ]

  unfoldable pub on_open_tx_ack : Store D → Buffer → Store D
  on_open_tx_ack s buffer =
      let status = get32 buffer cnct_status in
      elim (tx_place driver max_endpoints here ctrl_tx s buffer) [
        | none ↦ s
        | some place ↦
            if status == Status.success
            then acknowledge s place endp_tx_acked endp_rx_acked req_tx_open status
            else refuse_open s place endp_tx req_tx_open status
      ]

  -- The case MCAPI_CONNECT_RESPONSE.
  unfoldable pub on_connect_response : Store D → Buffer → Store D
  on_connect_response s buffer =
      let handle = encode_endpoint (get16 buffer cnct_tx_node) (get16 buffer cnct_tx_port) in
      record s {
        calls = s.calls ++ (check_resume req_connected handle 0 (get32 buffer cnct_status) ∷ []);
      }

  -- The case MCAPI_CONNECT_FIN.
  unfoldable pub on_connect_fin : Store D → Buffer → Store D
  on_connect_fin s buffer =
      elim (find_local_endpoint max_endpoints s.nodes here (get16 buffer fin_port)) [
        | none ↦ s
        | some place ↦
            let endp = endpoint_at s.nodes place in
            let state = clear_flag (clear_flag endp.state endp_connected) endp_connecting in
            record (put_state s place state) {
              calls =
                  s.calls
                  ++ (check_resume req_closed endp.endp_handle 0 Status.err_not_connected ∷ []);
            }
      ]
