-- ===== src/Control/Handshake.antt =====
-- The end of the handshake: the messages that tell the receive side of a channel that its peer has opened,
-- and that its own opening was accepted (MCAPI_OPEN_TX and MCAPI_OPEN_RX_ACK of libmcapi/mcapi/cntrl_msg.c).
use openmcapi_deprecated.Base.{ℕ, ◌^◌, ◌≡◌, refl, ap, ◌∙◌, inl, inr, true, some, bit_or, Bool-cases}
use openmcapi_deprecated.Status
use openmcapi_deprecated.Wire.{Buffer, get32}
use openmcapi_deprecated.Endpoints.{endp_open, has_flag}
use openmcapi_deprecated.Nodes.Api.{endpoint_at}
use openmcapi_deprecated.Nodes.States.{state_at, SameStates, endpoint_at-set_open}
use openmcapi_deprecated.Channels.{req_rx_open}
use openmcapi_deprecated.Messages.{Driver}
use openmcapi_deprecated.Control.{
  Store, endp_connected, endp_tx_acked, endp_rx_acked, rx_place, put_state, cnct_status,
}
use openmcapi_deprecated.Control.Flags.{or-sets, or-still}
use openmcapi_deprecated.Control.Opened.{acknowledge, answer_open, on_open_tx, on_open_rx_ack}
use openmcapi_deprecated.Control.Updates.{ctrl_send-SameStates}

module _ {D : Type 0} (s : Store D) (place : ℕ × ℕ) (flag other kind status : ℕ)
    (live : has_flag (state_at s.nodes place) endp_open ≡ true) where
  put_state-at : (state : ℕ) → state_at (put_state s place state).nodes place ≡ state
  put_state-at state =
      ap (λ x. x.state)
        (endpoint_at-set_open s.nodes place (record (endpoint_at s.nodes place) { state = state })
          live)

  -- A flag that is set once the side's own flag is.
  acknowledge-has :
      (j : ℕ)
      → has_flag (bit_or (state_at s.nodes place) flag) (2 ^ j) ≡ true
      → has_flag (state_at (acknowledge s place flag other kind status).nodes place) (2 ^ j) ≡ true
  unfolding acknowledge
  acknowledge-has j h =
      let state = bit_or (state_at s.nodes place) flag in
      elim (Bool-cases (has_flag state other)) [
        | inr waits ↦
            rw (acknowledge, waits) (ap (λ t. has_flag t (2 ^ j)) (put_state-at state) ∙ h)
        | inl both ↦
            rw (acknowledge, both)
              (ap (λ t. has_flag t (2 ^ j)) (put_state-at (bit_or state endp_connected))
                ∙ or-still j state endp_connected h)
      ]

  acknowledge-connected :
      has_flag (bit_or (state_at s.nodes place) flag) other ≡ true
      → has_flag (state_at (acknowledge s place flag other kind status).nodes place) endp_connected
        ≡ true
  unfolding acknowledge
  acknowledge-connected both =
      let state = bit_or (state_at s.nodes place) flag in
      rw (acknowledge, both)
        (ap (λ t. has_flag t endp_connected) (put_state-at (bit_or state endp_connected))
          ∙ or-sets 3 state endp_connected refl)

module _ {D : Type 0} (driver : Driver D) (n here ctrl_tx : ℕ) where
  on_open_tx-state :
      (s : Store D) (buffer : Buffer) (place : ℕ × ℕ)
      → rx_place driver n here ctrl_tx s buffer ≡ some place
      → state_at (on_open_tx driver n here ctrl_tx s buffer).nodes place
        ≡ state_at
            (acknowledge s place endp_tx_acked endp_rx_acked req_rx_open Status.success).nodes
            place
  unfolding on_open_tx answer_open SameStates
  on_open_tx-state s buffer place found =
      let s' = acknowledge s place endp_tx_acked endp_rx_acked req_rx_open Status.success in
      rw (on_open_tx, found) (ctrl_send-SameStates driver n here ctrl_tx s' _ _ _ place)

  on_open_rx_ack-state :
      (s : Store D) (buffer : Buffer) (place : ℕ × ℕ)
      → rx_place driver n here ctrl_tx s buffer ≡ some place
      → get32 buffer cnct_status ≡ Status.success
      → state_at (on_open_rx_ack driver n here ctrl_tx s buffer).nodes place
        ≡ state_at
            (acknowledge s place endp_rx_acked endp_tx_acked req_rx_open Status.success).nodes
            place
  unfolding on_open_rx_ack
  on_open_rx_ack-state s buffer place found ok = rw (on_open_rx_ack, found, ok) refl

  module _ (s : Store D) (opens accepts : Buffer) (place : ℕ × ℕ)
      (live : has_flag (state_at s.nodes place) endp_open ≡ true)
      (accepted : get32 accepts cnct_status ≡ Status.success) where
    abbrev pub after_opens : Store D
    after_opens = on_open_tx driver n here ctrl_tx s opens

    abbrev pub after_accepts : Store D
    after_accepts = on_open_rx_ack driver n here ctrl_tx s accepts

    -- When the receive side of a channel hears first that the send side has opened, and then that its own
    -- opening was accepted, it is connected.
    pub on_open_rx_ack-on_open_tx :
        rx_place driver n here ctrl_tx s opens ≡ some place
        → rx_place driver n here ctrl_tx after_opens accepts ≡ some place
        → has_flag
            (state_at (on_open_rx_ack driver n here ctrl_tx after_opens accepts).nodes place)
            endp_connected
          ≡ true
    on_open_rx_ack-on_open_tx first second =
        let before = state_at s.nodes place in
        let first_state = on_open_tx-state s opens place first in
        let still =
          ap (λ t. has_flag t endp_open) first_state
          ∙ acknowledge-has s place endp_tx_acked endp_rx_acked req_rx_open Status.success live 1
              (or-still 1 before endp_tx_acked live) in
        let marked =
          ap (λ t. has_flag t endp_tx_acked) first_state
          ∙ acknowledge-has s place endp_tx_acked endp_rx_acked req_rx_open Status.success live 6
              (or-sets 6 before endp_tx_acked refl) in
        ap (λ t. has_flag t endp_connected)
          (on_open_rx_ack-state after_opens accepts place second accepted)
        ∙ acknowledge-connected after_opens place endp_rx_acked endp_tx_acked req_rx_open
            Status.success still
            (or-still 6 (state_at after_opens.nodes place) endp_rx_acked marked)

    -- The same in the other order.
    pub on_open_tx-on_open_rx_ack :
        rx_place driver n here ctrl_tx s accepts ≡ some place
        → rx_place driver n here ctrl_tx after_accepts opens ≡ some place
        → has_flag
            (state_at (on_open_tx driver n here ctrl_tx after_accepts opens).nodes place)
            endp_connected
          ≡ true
    on_open_tx-on_open_rx_ack first second =
        let before = state_at s.nodes place in
        let first_state = on_open_rx_ack-state s accepts place first accepted in
        let still =
          ap (λ t. has_flag t endp_open) first_state
          ∙ acknowledge-has s place endp_rx_acked endp_tx_acked req_rx_open Status.success live 1
              (or-still 1 before endp_rx_acked live) in
        let marked =
          ap (λ t. has_flag t endp_rx_acked) first_state
          ∙ acknowledge-has s place endp_rx_acked endp_tx_acked req_rx_open Status.success live 7
              (or-sets 7 before endp_rx_acked refl) in
        ap (λ t. has_flag t endp_connected) (on_open_tx-state after_accepts opens place second)
        ∙ acknowledge-connected after_accepts place endp_tx_acked endp_rx_acked req_rx_open
            Status.success still
            (or-still 7 (state_at after_accepts.nodes place) endp_tx_acked marked)
