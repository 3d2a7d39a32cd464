-- ===== src/Control/Connected.antt =====
-- The messages that connect (the cases MCAPI_CONNECT_REQUEST, MCAPI_CONNECT_SYN and MCAPI_CONNECT_ACK of
-- libmcapi/mcapi/cntrl_msg.c) change states only as allowed.
use openmcapi_deprecated.Base.{ℕ, inl, inr, Option, none, some, ◌==◌, Bool-cases, Option-cases}
use openmcapi_deprecated.Status
use openmcapi_deprecated.Wire.{Buffer, get16, get32, put16, put32}
use openmcapi_deprecated.Handle.{encode_endpoint}
use openmcapi_deprecated.Endpoints.{endp_connecting, endp_tx, endp_rx, has_flag}
use openmcapi_deprecated.Nodes.Api.{endpoint_at}
use openmcapi_deprecated.Channels.{rx_control_port}
use openmcapi_deprecated.Messages.{Driver}
use openmcapi_deprecated.Control.{
  Store, tx_side, rx_side, prot_type, cnct_tx_node, cnct_chan_type, cnct_status, connect_msg_len,
  clear_flag, own, peer, tx_place, rx_place, ctrl_send, connect_endpoints, setup_connection,
}
use openmcapi_deprecated.Control.Connecting.{
  connect_ack, open_tx, open_rx, on_connect_request, answer_syn, on_connect_syn, open_connected,
  take_ack, respond, on_connect_ack,
}
use openmcapi_deprecated.Control.Steps.{refuses, Step-Reach}
use openmcapi_deprecated.Control.Updates.{
  Moves, Moves-refl, Moves-trans, set_endpoint-Moves, ctrl_send-Moves, send_connect_response-Moves,
  tx_open-Moves, connect_endpoints-Moves, setup_connection-Moves,
}

module _ {D : Type 0} (driver : Driver D) (n here ctrl_tx : ℕ) where
  pub on_connect_request-Moves :
      (s : Store D) (buffer : Buffer)
      → Moves s.nodes (on_connect_request driver n here ctrl_tx s buffer).nodes
  unfolding on_connect_request
  on_connect_request-Moves s buffer =
      let r = connect_endpoints driver n here ctrl_tx s buffer in
      let first = connect_endpoints-Moves driver n here ctrl_tx s buffer in
      elim (Bool-cases (get16 buffer cnct_tx_node == here)) [
        | inr other ↦ rw (on_connect_request, other) (Moves-refl s.nodes)
        | inl mine ↦ elim (Bool-cases (r.0 == Status.success)) [
          | inl ok ↦ rw (on_connect_request, mine, ok) first
          | inr bad ↦
              rw (on_connect_request, mine, bad)
                (Moves-trans s.nodes r.1.nodes _ first
                  (send_connect_response-Moves driver n here ctrl_tx r.1 buffer r.0))
        ]
      ]

  answer_syn-Moves :
      (status : ℕ) (s : Store D) (found : Option (ℕ × ℕ)) (buffer : Buffer)
      → Moves s.nodes (answer_syn driver n here ctrl_tx (status, s) found buffer).nodes
  unfolding answer_syn
  answer_syn-Moves status s found buffer =
      let answer = put32 (put16 buffer prot_type connect_ack) cnct_status status in
      let to = encode_endpoint (get16 answer cnct_tx_node) rx_control_port in
      let r = ctrl_send driver n here ctrl_tx s to answer connect_msg_len in
      let first = ctrl_send-Moves driver n here ctrl_tx s to answer connect_msg_len in
      elim (Bool-cases (r.0 == Status.success)) [
        | inr bad ↦ rw (answer_syn, bad) first
        | inl ok ↦ elim (Option-cases found) [
          | inl gone ↦ rw (answer_syn, ok, gone) first
          | inr (place, there) ↦
              let endp = endpoint_at r.1.nodes place in
              elim (Bool-cases (has_flag endp.state endp_rx)) [
                | inr closed ↦ rw (answer_syn, ok, there, closed) first
                | inl opened ↦
                    rw (answer_syn, ok, there, opened)
                      (Moves-trans s.nodes r.1.nodes _ first (
                        tx_open-Moves driver n here ctrl_tx r.1 answer endp (peer endp) (own endp)
                          open_rx (get16 answer cnct_chan_type)))
              ]
        ]
      ]

  pub on_connect_syn-Moves :
      (s : Store D) (buffer : Buffer)
      → Moves s.nodes (on_connect_syn driver n here ctrl_tx s buffer).nodes
  unfolding on_connect_syn
  on_connect_syn-Moves s buffer = elim (Option-cases (rx_place driver n here ctrl_tx s buffer)) [
    | inl gone ↦ rw (on_connect_syn, gone) (answer_syn-Moves Status.err_endp_invalid s none buffer)
    | inr (place, found) ↦
        let r = setup_connection driver n here ctrl_tx s place buffer rx_side in
        rw (on_connect_syn, found)
          (Moves-trans s.nodes r.1.nodes _
            (setup_connection-Moves driver n here ctrl_tx s place buffer rx_side)
            (answer_syn-Moves r.0 r.1 (some place) buffer))
  ]

  open_connected-Moves :
      (status : ℕ) (s : Store D) (place : ℕ × ℕ) (buffer : Buffer)
      → Moves s.nodes (open_connected driver n here ctrl_tx (status, s) place buffer).1.nodes
  unfolding open_connected
  open_connected-Moves status s place buffer =
      let endp = endpoint_at s.nodes place in
      elim (Bool-cases (has_flag endp.state endp_tx)) [
        | inr closed ↦ rw (open_connected, closed) (Moves-refl s.nodes)
        | inl opened ↦
            rw (open_connected, opened)
              (tx_open-Moves driver n here ctrl_tx s buffer endp (own endp) (peer endp) open_tx
                (get16 buffer cnct_chan_type))
      ]

  take_ack-Moves :
      (s : Store D) (place : ℕ × ℕ) (buffer : Buffer) (status : ℕ)
      → Moves s.nodes (take_ack driver n here ctrl_tx s place buffer status).1.nodes
  unfolding take_ack
  take_ack-Moves s place buffer status = elim (Bool-cases (status == Status.success)) [
    | inl ok ↦
        let r = setup_connection driver n here ctrl_tx s place buffer tx_side in
        rw (take_ack, ok)
          (Moves-trans s.nodes r.1.nodes _
            (setup_connection-Moves driver n here ctrl_tx s place buffer tx_side)
            (open_connected-Moves r.0 r.1 place buffer))
    | inr bad ↦
        let endp = endpoint_at s.nodes place in
        let state = clear_flag endp.state endp_connecting in
        rw (take_ack, bad)
          (set_endpoint-Moves s.nodes place (record endp { state = state })
            (Step-Reach endp.state state (refuses endp.state)))
  ]

  pub on_connect_ack-Moves :
      (s : Store D) (buffer : Buffer)
      → Moves s.nodes (on_connect_ack driver n here ctrl_tx s buffer).nodes
  unfolding on_connect_ack respond
  on_connect_ack-Moves s buffer =
      let status = get32 buffer cnct_status in
      elim (Option-cases (tx_place driver n here ctrl_tx s buffer)) [
        | inl gone ↦
            rw (on_connect_ack, gone)
              (send_connect_response-Moves driver n here ctrl_tx s buffer status)
        | inr (place, found) ↦
            let r = take_ack driver n here ctrl_tx s place buffer status in
            rw (on_connect_ack, found)
              (Moves-trans s.nodes r.1.nodes _ (take_ack-Moves s place buffer status)
                (send_connect_response-Moves driver n here ctrl_tx r.1 r.2 r.0))
      ]
