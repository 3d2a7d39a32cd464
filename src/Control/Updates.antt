-- ===== src/Control/Updates.antt =====
-- Changes of the nodes in which every endpoint's state goes through the allowed changes: the updates that
-- libmcapi/mcapi/cntrl_msg.c and connect.c are made of.
use openmcapi_deprecated.Base.{
  ℕ, sym, inl, inr, Option, none, some, List, get_or, bit_or, Bool-cases, Option-cases,
}
use mathlib.Core.Path.{subst}
use openmcapi_deprecated.Wire.{Buffer, get16}
use openmcapi_deprecated.Endpoints.{Endpoint, endp_connecting, has_flag}
use openmcapi_deprecated.Nodes.{Node, blank_node, find_node, find_route, default_prio}
use openmcapi_deprecated.Nodes.Api.{find_local_endpoint, endpoint_at, set_endpoint}
use openmcapi_deprecated.Nodes.States.{state_at, SameStates, state_at-set_endpoint}
use openmcapi_deprecated.Channels.{endp_disconnected}
use openmcapi_deprecated.Requests.{blank_request}
use openmcapi_deprecated.Messages.{Driver}
use openmcapi_deprecated.Messages.States.{msg_send-SameStates}
use openmcapi_deprecated.Control.{
  Store, ConnectSide, tx_side, rx_side, connected_side, clear_flag, put_state, ctrl_send,
  send_connect_response, tx_open, connect_endpoints, setup_free, setup_connection,
  endp_connecting_tx, endp_connecting_rx, cnct_tx_node, cnct_tx_port,
}
use openmcapi_deprecated.Control.Steps.{
  Reach, stay, follow, connects, connects_tx, connects_rx, Reach-trans,
}

-- Every endpoint's state after is reached from its state before.
unfoldable pub Moves : List Node → List Node → Type 0
Moves nodes nodes' = (q : ℕ × ℕ) → Reach (state_at nodes q) (state_at nodes' q)

pub Moves-refl : (nodes : List Node) → Moves nodes nodes
unfolding Moves
Moves-refl nodes q = stay (state_at nodes q)

pub Moves-trans : (a b c : List Node) → Moves a b → Moves b c → Moves a c
unfolding Moves
Moves-trans a b c f g q = Reach-trans (state_at a q) (state_at b q) (state_at c q) (f q) (g q)

pub SameStates-Moves : (a b : List Node) → SameStates a b → Moves a b
unfolding Moves SameStates
SameStates-Moves a b same q =
    subst (λ t. Reach (state_at a q) t) (sym (same q)) (stay (state_at a q))

pub set_endpoint-Moves :
    (nodes : List Node) (p : ℕ × ℕ) (e : Endpoint)
    → Reach (state_at nodes p) e.state
    → Moves nodes (set_endpoint nodes p e)
unfolding Moves
set_endpoint-Moves nodes p e step q = elim (state_at-set_endpoint nodes p e q) [
  | inl (new, old) ↦
      subst (λ t. Reach (state_at nodes q) t) (sym new)
        (subst (λ t. Reach t e.state) (sym old) step)
  | inr kept ↦ subst (λ t. Reach (state_at nodes q) t) (sym kept) (stay (state_at nodes q))
]

connected_side-Reach :
    (side : ConnectSide) (endp : Endpoint) (route : Option ℕ) (buffer : Buffer)
    → Reach endp.state (connected_side side endp route buffer).state
unfolding connected_side
connected_side-Reach tx_side endp route buffer =
    let s = endp.state in
    let t = clear_flag (bit_or s endp_connecting) endp_disconnected in
    follow s t (bit_or t endp_connecting_tx) (follow s s t (stay s) (connects s)) (connects_tx t)
connected_side-Reach rx_side endp route buffer =
    let s = endp.state in
    let t = clear_flag (bit_or s endp_connecting) endp_disconnected in
    follow s t (bit_or t endp_connecting_rx) (follow s s t (stay s) (connects s)) (connects_rx t)

module _ {D : Type 0} (driver : Driver D) (n here ctrl_tx : ℕ) where
  pub ctrl_send-SameStates :
      (s : Store D) (to : ℕ) (buffer : Buffer) (len : ℕ)
      → SameStates s.nodes (ctrl_send driver n here ctrl_tx s to buffer len).1.nodes
  unfolding ctrl_send
  ctrl_send-SameStates s to buffer len =
      msg_send-SameStates driver n here s.driver s.nodes ctrl_tx to buffer len default_prio
        blank_request

  pub ctrl_send-Moves :
      (s : Store D) (to : ℕ) (buffer : Buffer) (len : ℕ)
      → Moves s.nodes (ctrl_send driver n here ctrl_tx s to buffer len).1.nodes
  ctrl_send-Moves s to buffer len =
      SameStates-Moves s.nodes (ctrl_send driver n here ctrl_tx s to buffer len).1.nodes
        (ctrl_send-SameStates s to buffer len)

  pub send_connect_response-Moves :
      (s : Store D) (buffer : Buffer) (status : ℕ)
      → Moves s.nodes (send_connect_response driver n here ctrl_tx s buffer status).nodes
  unfolding send_connect_response
  send_connect_response-Moves s buffer status = ctrl_send-Moves s _ _ _

  pub tx_open-Moves :
      (s : Store D) (buffer : Buffer) (endp : Endpoint) (send recv : ℕ × ℕ) (pkt_type type : ℕ)
      → Moves s.nodes (tx_open driver n here ctrl_tx s buffer endp send recv pkt_type type).1.nodes
  unfolding tx_open
  tx_open-Moves s buffer endp send recv pkt_type type = ctrl_send-Moves s _ _ _

  pub connect_endpoints-Moves :
      (s : Store D) (buffer : Buffer)
      → Moves s.nodes (connect_endpoints driver n here ctrl_tx s buffer).1.nodes
  unfolding connect_endpoints
  connect_endpoints-Moves s buffer =
      elim (Option-cases
        (find_local_endpoint n s.nodes (get16 buffer cnct_tx_node) (get16 buffer cnct_tx_port))) [
          | inl gone ↦ rw (connect_endpoints, gone) (Moves-refl s.nodes)
          | inr (place, found) ↦
              let endp = endpoint_at s.nodes place in
              elim (Bool-cases (has_flag endp.state endp_connecting)) [
                | inl busy ↦ rw (connect_endpoints, found, busy) (Moves-refl s.nodes)
                | inr idle ↦
                    let st = endp.state in
                    let state = clear_flag (bit_or st endp_connecting) endp_disconnected in
                    let s' = put_state s place state in
                    rw (connect_endpoints, found, idle)
                      (Moves-trans s.nodes s'.nodes _
                        (set_endpoint-Moves s.nodes place (record endp { state = state })
                          (follow st st state (stay st) (connects st)))
                        (ctrl_send-Moves s' _ _ _))
              ]
        ]

  setup_free-Moves :
      (s : Store D) (place : ℕ × ℕ) (buffer : Buffer) (side : ConnectSide)
      → Moves s.nodes (setup_free driver n here ctrl_tx s place buffer side).1.nodes
  unfolding setup_free
  setup_free-Moves s place buffer side =
      let endp = endpoint_at s.nodes place in
      elim (Option-cases (find_node endp.node_id s.nodes)) [
        | inl gone ↦ rw (setup_free, gone) (Moves-refl s.nodes)
        | inr (i, found) ↦
            elim (Option-cases (find_route endp.node_id (get_or s.nodes i blank_node))) [
              | inl no_route ↦
                  rw (setup_free, found, no_route)
                    (set_endpoint-Moves s.nodes place (record endp { route = none })
                      (stay endp.state))
              | inr (r, routed) ↦
                  rw (setup_free, found, routed)
                    (set_endpoint-Moves s.nodes place (connected_side side endp (some r) buffer)
                      (connected_side-Reach side endp (some r) buffer))
            ]
      ]

  pub setup_connection-Moves :
      (s : Store D) (place : ℕ × ℕ) (buffer : Buffer) (side : ConnectSide)
      → Moves s.nodes (setup_connection driver n here ctrl_tx s place buffer side).1.nodes
  unfolding setup_connection
  setup_connection-Moves s place buffer tx_side = setup_free-Moves s place buffer tx_side
  setup_connection-Moves s place buffer rx_side =
      elim (Bool-cases (has_flag (endpoint_at s.nodes place).state endp_connecting)) [
        | inl busy ↦ rw (setup_connection, busy) (Moves-refl s.nodes)
        | inr idle ↦ rw (setup_connection, idle) (setup_free-Moves s place buffer rx_side)
      ]
