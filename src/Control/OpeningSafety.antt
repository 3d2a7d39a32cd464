-- ===== src/Control/OpeningSafety.antt =====
-- `mcapi_open` and `mcapi_connect` (libmcapi/mcapi/connect.c) keep the states of all endpoints in order.
use openmcapi_deprecated.Base.{
  ℕ, ◌≡◌, ◌⊎◌, refl, sym, ap, ◌∙◌, inl, inr, Bool, true, false, not, ◌&&◌, ◌==◌, bit_or, Bool-cases,
  Sum-cases,
}
use mathlib.Core.Path.{subst}
use openmcapi_deprecated.Status
use openmcapi_deprecated.Wire.{Buffer}
use openmcapi_deprecated.Endpoints.{Endpoint, endp_connecting, endp_tx, endp_rx, has_flag}
use openmcapi_deprecated.Nodes.Api.{decode_local_endpoint, endpoint_at}
use openmcapi_deprecated.Nodes.States.{state_at, SameStates, SameStates-refl}
use openmcapi_deprecated.Messages.{Driver}
use openmcapi_deprecated.Control.{
  Store, endp_connected, endp_connecting_tx, endp_connecting_rx, tx_open,
}
use openmcapi_deprecated.Control.Steps.{IsSafe, Reach, Reach-IsSafe, Step-Reach, opens_tx, opens_rx}
use openmcapi_deprecated.Control.Updates.{
  Moves, Moves-refl, Moves-trans, SameStates-Moves, set_endpoint-Moves, ctrl_send-SameStates,
}
use openmcapi_deprecated.Control.Opening.{
  announce, open_connecting, open_closed, mcapi_open, opened,
}

-- One of the two sides.
abbrev pub IsSideFlag : ℕ → Type 0
IsSideFlag flag = (flag ≡ endp_tx) ⊎ (flag ≡ endp_rx)

opens :
    (s flag : ℕ)
    → IsSideFlag flag
    → has_flag s endp_tx ≡ false
    → has_flag s endp_rx ≡ false
    → Reach s (bit_or s flag)
opens s flag (inl tx) no_tx no_rx =
    subst (λ f. Reach s (bit_or s f)) (sym tx)
      (Step-Reach s (bit_or s endp_tx) (opens_tx s no_tx no_rx))
opens s flag (inr rx) no_tx no_rx =
    subst (λ f. Reach s (bit_or s f)) (sym rx)
      (Step-Reach s (bit_or s endp_rx) (opens_rx s no_tx no_rx))

not-true : (b : Bool) → not b ≡ true → b ≡ false
not-true true h = cc
not-true false h = refl

both_not : (a b : Bool) → (not a && not b) ≡ true → (a ≡ false) × (b ≡ false)
both_not true b h = cc
both_not false b h = (refl, not-true b h)

module _ {D : Type 0} (driver : Driver D) (n here ctrl_tx : ℕ) where
  announce-SameStates :
      (s : Store D) (buffer : Buffer) (endp : Endpoint) (type flag pkt_type : ℕ)
      → SameStates s.nodes (announce driver n here ctrl_tx s buffer endp type flag pkt_type).1.nodes
  unfolding announce tx_open
  announce-SameStates s buffer endp type flag pkt_type =
      let rx_free =
        not (has_flag endp.state endp_rx) && not (has_flag endp.state endp_connecting_rx) in
      let tx_free =
        not (has_flag endp.state endp_tx) && not (has_flag endp.state endp_connecting_tx) in
      elim (Bool-cases (flag == endp_tx)) [
        | inl tx ↦ elim (Bool-cases rx_free) [
          | inl free ↦ rw (announce, tx, free) (ctrl_send-SameStates driver n here ctrl_tx s _ _ _)
          | inr busy ↦ rw (announce, tx, busy) (SameStates-refl s.nodes)
        ]
        | inr rx ↦ elim (Bool-cases tx_free) [
          | inl free ↦ rw (announce, rx, free) (ctrl_send-SameStates driver n here ctrl_tx s _ _ _)
          | inr busy ↦ rw (announce, rx, busy) (SameStates-refl s.nodes)
        ]
      ]

  opened-Moves :
      (s : Store D) (place : ℕ × ℕ) (endp : Endpoint) (handle request_type flag status : ℕ)
      → IsSideFlag flag
      → endp.state ≡ state_at s.nodes place
      → has_flag endp.state endp_tx ≡ false
      → has_flag endp.state endp_rx ≡ false
      → Moves s.nodes
          (opened driver n here ctrl_tx s place endp handle request_type flag status).store.nodes
  opened-Moves s place endp handle request_type flag status side same no_tx no_rx =
      set_endpoint-Moves s.nodes place (record endp { state = bit_or endp.state flag })
        (subst (λ t. Reach t (bit_or endp.state flag)) same
          (opens endp.state flag side no_tx no_rx))

  module _ (s : Store D) (buffer : Buffer) (place : ℕ × ℕ)
      (handle type flag request_type pkt_type : ℕ) (side : IsSideFlag flag)
      (no_tx : has_flag (endpoint_at s.nodes place).state endp_tx ≡ false)
      (no_rx : has_flag (endpoint_at s.nodes place).state endp_rx ≡ false) where
    open_connecting-Moves :
        Moves s.nodes
          (open_connecting driver n here ctrl_tx s buffer place handle type flag request_type
            pkt_type).store.nodes
    unfolding open_connecting SameStates
    open_connecting-Moves =
        let endp = endpoint_at s.nodes place in
        let r = announce driver n here ctrl_tx s buffer endp type flag pkt_type in
        let same = announce-SameStates s buffer endp type flag pkt_type in
        let first = SameStates-Moves s.nodes r.1.nodes same in
        elim (Bool-cases (endp.chan_type == type)) [
          | inr wrong ↦ rw (open_connecting, wrong) (Moves-refl s.nodes)
          | inl right ↦ elim (Bool-cases (r.0 == Status.success)) [
            | inr bad ↦ rw (open_connecting, right, bad) first
            | inl ok ↦
                rw (open_connecting, right, ok)
                  (Moves-trans s.nodes r.1.nodes _ first (
                    opened-Moves r.1 place (endpoint_at r.1.nodes place) handle request_type flag
                      r.0 side refl (ap (λ t. has_flag t endp_tx) (same place) ∙ no_tx)
                      (ap (λ t. has_flag t endp_rx) (same place) ∙ no_rx)))
          ]
        ]

    open_closed-Moves :
        Moves s.nodes
          (open_closed driver n here ctrl_tx s buffer place handle type flag request_type
            pkt_type).store.nodes
    unfolding open_closed
    open_closed-Moves =
        let endp = endpoint_at s.nodes place in
        elim (Bool-cases (has_flag endp.state endp_connecting)) [
          | inl joined ↦ rw (open_closed, joined) open_connecting-Moves
          | inr alone ↦
              rw (open_closed, alone)
                (opened-Moves s place (record endp { chan_type = type }) handle request_type flag
                  Status.err_not_connected side refl no_tx no_rx)
        ]

  mcapi_open-Moves :
      (s : Store D) (buffer : Buffer) (handle type : ℕ) (has_request : Bool)
      (flag request_type pkt_type : ℕ)
      → IsSideFlag flag
      → Moves s.nodes
          (mcapi_open driver n here ctrl_tx s buffer handle type has_request flag request_type
            pkt_type).store.nodes
  unfolding mcapi_open
  mcapi_open-Moves s buffer handle type false flag request_type pkt_type side = Moves-refl s.nodes
  mcapi_open-Moves s buffer handle type true flag request_type pkt_type side =
      elim (Sum-cases (decode_local_endpoint n s.nodes handle)) [
        | inl (e, wrong) ↦ rw (mcapi_open, wrong) (Moves-refl s.nodes)
        | inr (place, right) ↦
            let state = (endpoint_at s.nodes place).state in
            elim (Bool-cases (has_flag state endp_connected)) [
              | inl joined ↦ rw (mcapi_open, right, joined) (Moves-refl s.nodes)
              | inr free ↦
                  elim (Bool-cases (not (has_flag state endp_tx) && not (has_flag state endp_rx))) [
                    | inr busy ↦ rw (mcapi_open, right, free, busy) (Moves-refl s.nodes)
                    | inl closed ↦
                        let (no_tx, no_rx) =
                          both_not (has_flag state endp_tx) (has_flag state endp_rx) closed in
                        rw (mcapi_open, right, free, closed)
                          (open_closed-Moves s buffer place handle type flag request_type pkt_type
                            side no_tx no_rx)
                  ]
            ]
      ]

  -- Opening a side of any endpoint, in any circumstances, keeps an endpoint that is open in order: it never
  -- sends and receives at once, and is connected only when both sides have acknowledged.
  pub mcapi_open-IsSafe :
      (s : Store D) (buffer : Buffer) (handle type : ℕ) (has_request : Bool)
      (flag request_type pkt_type : ℕ) (q : ℕ × ℕ)
      → IsSideFlag flag
      → IsSafe (state_at s.nodes q)
      → IsSafe (
          state_at
            (mcapi_open driver n here ctrl_tx s buffer handle type has_request flag request_type
              pkt_type).store.nodes
            q)
  unfolding Moves
  mcapi_open-IsSafe s buffer handle type has_request flag request_type pkt_type q side safe =
      Reach-IsSafe (state_at s.nodes q) _
        (mcapi_open-Moves s buffer handle type has_request flag request_type pkt_type side q) safe
