-- ===== src/Control/Sides.antt =====
-- The messages that open and close sides of a channel, and those that ask for endpoints (the other cases of
-- `mcapi_process_ctrl_msg` of libmcapi/mcapi/cntrl_msg.c) change states only as allowed.
use openmcapi_deprecated.Base.{ℕ, refl, inl, inr, ◌==◌, bit_or, Bool-cases, Option-cases}
use openmcapi_deprecated.Status
use openmcapi_deprecated.Wire.{Buffer, get16, get32}
use openmcapi_deprecated.Handle.{decode_endpoint}
use openmcapi_deprecated.Endpoints.{endp_connecting, endp_tx, endp_rx, has_flag}
use openmcapi_deprecated.Nodes.Api.{find_local_endpoint, endpoint_at}
use openmcapi_deprecated.Channels.{req_rx_open, req_tx_open, fin_port}
use openmcapi_deprecated.Requests.{get_free_request_struct}
use openmcapi_deprecated.Messages.{Driver}
use openmcapi_deprecated.Control.{
  Store, endp_connected, endp_tx_acked, endp_rx_acked, clear_flag, put_state, tx_place, rx_place,
  cnct_status,
}
use openmcapi_deprecated.Control.Opened.{
  acknowledge, refuse_open, answer_open, on_open_tx, on_open_rx, on_open_rx_ack, on_open_tx_ack,
  on_connect_fin,
}
use openmcapi_deprecated.Control.Lookup.{
  answer_getendp, reserve, on_getendp_request, on_cancel, first_such, is_pending_for, getendp_port,
  getendp_endp,
}
use openmcapi_deprecated.Control.Flags.{or-sets}
use openmcapi_deprecated.Control.Steps.{
  Reach, follow, acks_tx, acks_rx, completes, drops_tx, drops_rx, disconnects, refuses, Step-Reach,
}
use openmcapi_deprecated.Control.Updates.{
  Moves, Moves-refl, Moves-trans, set_endpoint-Moves, ctrl_send-Moves,
}

module _ {D : Type 0} (s : Store D) (place : ℕ × ℕ) where
  put_state-Moves :
      (state : ℕ)
      → Reach (endpoint_at s.nodes place).state state
      → Moves s.nodes (put_state s place state).nodes
  put_state-Moves state r =
      set_endpoint-Moves s.nodes place (record (endpoint_at s.nodes place) { state = state }) r

  acknowledge-tx :
      (kind status : ℕ)
      → Moves s.nodes (acknowledge s place endp_tx_acked endp_rx_acked kind status).nodes
  unfolding acknowledge
  acknowledge-tx kind status =
      let before = (endpoint_at s.nodes place).state in
      let state = bit_or before endp_tx_acked in
      let first = Step-Reach before state (acks_tx before) in
      elim (Bool-cases (has_flag state endp_rx_acked)) [
        | inr waits ↦ rw (acknowledge, waits) (put_state-Moves state first)
        | inl both ↦
            rw (acknowledge, both)
              (put_state-Moves (bit_or state endp_connected) (
                follow before state (bit_or state endp_connected) first
                  (completes state (or-sets 6 before endp_tx_acked refl) both)))
      ]

  acknowledge-rx :
      (kind status : ℕ)
      → Moves s.nodes (acknowledge s place endp_rx_acked endp_tx_acked kind status).nodes
  unfolding acknowledge
  acknowledge-rx kind status =
      let before = (endpoint_at s.nodes place).state in
      let state = bit_or before endp_rx_acked in
      let first = Step-Reach before state (acks_rx before) in
      elim (Bool-cases (has_flag state endp_tx_acked)) [
        | inr waits ↦ rw (acknowledge, waits) (put_state-Moves state first)
        | inl both ↦
            rw (acknowledge, both)
              (put_state-Moves (bit_or state endp_connected) (
                follow before state (bit_or state endp_connected) first
                  (completes state both (or-sets 7 before endp_rx_acked refl))))
      ]

module _ {D : Type 0} (driver : Driver D) (n here ctrl_tx : ℕ) where
  answer_open-Moves :
      (s : Store D) (buffer : Buffer) (type node_field status : ℕ)
      → Moves s.nodes (answer_open driver n here ctrl_tx s buffer type node_field status).nodes
  unfolding answer_open
  answer_open-Moves s buffer type node_field status = ctrl_send-Moves driver n here ctrl_tx s _ _ _

  pub on_open_tx-Moves :
      (s : Store D) (buffer : Buffer)
      → Moves s.nodes (on_open_tx driver n here ctrl_tx s buffer).nodes
  unfolding on_open_tx
  on_open_tx-Moves s buffer = elim (Option-cases (rx_place driver n here ctrl_tx s buffer)) [
    | inl gone ↦ rw (on_open_tx, gone) (answer_open-Moves s buffer _ _ _)
    | inr (place, found) ↦
        let s' = acknowledge s place endp_tx_acked endp_rx_acked req_rx_open Status.success in
        rw (on_open_tx, found)
          (Moves-trans s.nodes s'.nodes _ (acknowledge-tx s place req_rx_open Status.success)
            (answer_open-Moves s' buffer _ _ _))
  ]

  pub on_open_rx-Moves :
      (s : Store D) (buffer : Buffer)
      → Moves s.nodes (on_open_rx driver n here ctrl_tx s buffer).nodes
  unfolding on_open_rx
  on_open_rx-Moves s buffer = elim (Option-cases (tx_place driver n here ctrl_tx s buffer)) [
    | inl gone ↦ rw (on_open_rx, gone) (answer_open-Moves s buffer _ _ _)
    | inr (place, found) ↦
        let s' = acknowledge s place endp_rx_acked endp_tx_acked req_tx_open Status.success in
        rw (on_open_rx, found)
          (Moves-trans s.nodes s'.nodes _ (acknowledge-rx s place req_tx_open Status.success)
            (answer_open-Moves s' buffer _ _ _))
  ]

  pub on_open_rx_ack-Moves :
      (s : Store D) (buffer : Buffer)
      → Moves s.nodes (on_open_rx_ack driver n here ctrl_tx s buffer).nodes
  unfolding on_open_rx_ack refuse_open
  on_open_rx_ack-Moves s buffer =
      let status = get32 buffer cnct_status in
      elim (Option-cases (rx_place driver n here ctrl_tx s buffer)) [
        | inl gone ↦ rw (on_open_rx_ack, gone) (Moves-refl s.nodes)
        | inr (place, found) ↦
            let before = (endpoint_at s.nodes place).state in
            elim (Bool-cases (status == Status.success)) [
              | inl ok ↦ rw (on_open_rx_ack, found, ok) (acknowledge-rx s place req_rx_open status)
              | inr bad ↦
                  rw (on_open_rx_ack, found, bad)
                    (put_state-Moves s place (clear_flag before endp_rx)
                      (Step-Reach before (clear_flag before endp_rx) (drops_rx before)))
            ]
      ]

  pub on_open_tx_ack-Moves :
      (s : Store D) (buffer : Buffer)
      → Moves s.nodes (on_open_tx_ack driver n here ctrl_tx s buffer).nodes
  unfolding on_open_tx_ack refuse_open
  on_open_tx_ack-Moves s buffer =
      let status = get32 buffer cnct_status in
      elim (Option-cases (tx_place driver n here ctrl_tx s buffer)) [
        | inl gone ↦ rw (on_open_tx_ack, gone) (Moves-refl s.nodes)
        | inr (place, found) ↦
            let before = (endpoint_at s.nodes place).state in
            elim (Bool-cases (status == Status.success)) [
              | inl ok ↦ rw (on_open_tx_ack, found, ok) (acknowledge-tx s place req_tx_open status)
              | inr bad ↦
                  rw (on_open_tx_ack, found, bad)
                    (put_state-Moves s place (clear_flag before endp_tx)
                      (Step-Reach before (clear_flag before endp_tx) (drops_tx before)))
            ]
      ]

  pub on_connect_fin-Moves :
      (s : Store D) (buffer : Buffer)
      → Moves s.nodes (on_connect_fin driver n here ctrl_tx s buffer).nodes
  unfolding on_connect_fin
  on_connect_fin-Moves s buffer =
      elim (Option-cases (find_local_endpoint n s.nodes here (get16 buffer fin_port))) [
        | inl gone ↦ rw (on_connect_fin, gone) (Moves-refl s.nodes)
        | inr (place, found) ↦
            let before = (endpoint_at s.nodes place).state in
            let middle = clear_flag before endp_connected in
            rw (on_connect_fin, found)
              (put_state-Moves s place (clear_flag middle endp_connecting) (
                follow before middle (clear_flag middle endp_connecting)
                  (Step-Reach before middle (disconnects before)) (refuses middle)))
      ]

  reserve-Moves :
      (s : Store D) (buffer : Buffer) (node port : ℕ)
      → Moves s.nodes (reserve driver n here ctrl_tx s buffer node port).nodes
  unfolding reserve answer_getendp
  reserve-Moves s buffer node port = elim (Option-cases (get_free_request_struct s.pool)) [
    | inl full ↦ rw (reserve, full) (ctrl_send-Moves driver n here ctrl_tx s _ _ _)
    | inr ((i, pool), free) ↦ rw (reserve, free) (Moves-refl s.nodes)
  ]

  pub on_getendp_request-Moves :
      (s : Store D) (buffer : Buffer)
      → Moves s.nodes (on_getendp_request driver n here ctrl_tx s buffer).nodes
  unfolding on_getendp_request answer_getendp
  on_getendp_request-Moves s buffer =
      let port = get16 buffer getendp_port in
      let node = (decode_endpoint (get32 buffer getendp_endp)).0 in
      let from = (decode_endpoint (get32 buffer getendp_endp)).1 in
      elim (Option-cases (find_local_endpoint n s.nodes here port)) [
        | inr (place, found) ↦
            rw (on_getendp_request, found) (ctrl_send-Moves driver n here ctrl_tx s _ _ _)
        | inl gone ↦
            elim (Option-cases (first_such (is_pending_for here port node) s.pool s.foreign)) [
              | inr (i, waits) ↦ rw (on_getendp_request, gone, waits) (Moves-refl s.nodes)
              | inl new ↦ rw (on_getendp_request, gone, new) (reserve-Moves s buffer node from)
            ]
      ]

  pub on_cancel-Moves :
      (s : Store D) (buffer : Buffer)
      → Moves s.nodes (on_cancel driver n here ctrl_tx s buffer).nodes
  unfolding on_cancel
  on_cancel-Moves s buffer =
      let port = get16 buffer getendp_port in
      let node = (decode_endpoint (get32 buffer getendp_endp)).0 in
      elim (Option-cases (first_such (is_pending_for here port node) s.pool s.foreign)) [
        | inl gone ↦ rw (on_cancel, gone) (Moves-refl s.nodes)
        | inr (i, found) ↦ rw (on_cancel, found) (Moves-refl s.nodes)
      ]
