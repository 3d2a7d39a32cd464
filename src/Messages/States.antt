-- ===== src/Messages/States.antt =====
-- `msg_send` (libmcapi/mcapi/msg_snd.c) changes the route and the peer of the sending endpoint, but the
-- state of none.
use openmcapi_deprecated.Base.{
  ℕ, ◌+◌, ◌%◌, ◌^◌, ◌≡◌, refl, sym, ◌∙◌, inl, inr, Option, none, some, List, get_or, ltb, leb,
  Bool-cases, Option-cases, Sum-cases,
}
use openmcapi_deprecated.Wire.{Buffer}
use openmcapi_deprecated.Packet.{header_len, size_bits}
use openmcapi_deprecated.Handle.{decode_endpoint}
use openmcapi_deprecated.Endpoints.{Endpoint, endp_connecting, has_flag}
use openmcapi_deprecated.Nodes.{Node, blank_node, find_node, find_route}
use openmcapi_deprecated.Nodes.Api.{decode_local_endpoint, endpoint_at, set_endpoint}
use openmcapi_deprecated.Nodes.States.{
  SameStates, state_at, SameStates-refl, SameStates-trans, set_endpoint-SameStates,
}
use openmcapi_deprecated.Requests.{Request}
use openmcapi_deprecated.Messages.{Driver, prio_count, with_buffer, send_along, msg_send, transmit}

module _ {D : Type 0} (driver : Driver D) (n here : ℕ) where
  with_buffer-SameStates :
      (nodes : List Node) (place : ℕ × ℕ) (endp : Endpoint) (from : ℕ) (dest : ℕ × ℕ)
      (bytes : List ℕ) (size priority : ℕ) (request : Option Request)
      (got : Option (ℕ × Buffer) × D)
      → endp.state ≡ state_at nodes place
      → SameStates nodes
          (with_buffer driver n here nodes place endp from dest bytes size priority request
            got).nodes
  unfolding with_buffer transmit
  with_buffer-SameStates nodes place endp from dest bytes size priority request (none, d) same =
      SameStates-refl nodes
  with_buffer-SameStates nodes place endp from dest bytes size priority request (some b, d) same =
      set_endpoint-SameStates nodes place
        (record endp { foreign_node_id = dest.0; foreign_port_id = dest.1 }) same

  send_along-SameStates :
      (d : D) (nodes : List Node) (place : ℕ × ℕ) (endp : Endpoint) (route : Option ℕ) (from : ℕ)
      (dest : ℕ × ℕ) (bytes : List ℕ) (size priority : ℕ) (request : Option Request)
      → endp.state ≡ state_at nodes place
      → SameStates nodes
          (send_along driver n here d nodes place endp route from dest bytes size priority
            request).nodes
  unfolding send_along SameStates
  send_along-SameStates d nodes place endp none from dest bytes size priority request same =
      set_endpoint-SameStates nodes place endp same
  send_along-SameStates d nodes place endp (some r) from dest bytes size priority request same =
      let nodes' = set_endpoint nodes place endp in
      let first = set_endpoint-SameStates nodes place endp same in
      let total = (size + header_len) % 2 ^ size_bits in
      elim (Bool-cases (leb total driver.max_buf_size)) [
        | inr long ↦ rw (send_along, long) first
        | inl fits ↦
            rw (send_along, fits)
              (SameStates-trans nodes nodes' _ first (
                with_buffer-SameStates nodes' place endp from dest bytes size priority request
                  (driver.get_buffer d dest.0 total priority) (same ∙ sym (first place))))
      ]

  pub msg_send-SameStates :
      (d : D) (nodes : List Node) (from to : ℕ) (bytes : List ℕ) (size priority : ℕ) (r : Request)
      → SameStates nodes
          (msg_send driver n here d nodes from to (some bytes) size priority (some r)).nodes
  unfolding msg_send
  msg_send-SameStates d nodes from to bytes size priority r =
      let whole = SameStates-refl nodes in
      elim (Sum-cases (decode_local_endpoint n nodes from)) [
        | inl (e, wrong) ↦ rw (msg_send, wrong) whole
        | inr (place, right) ↦
            elim (Bool-cases (has_flag (endpoint_at nodes place).state endp_connecting)) [
              | inl busy ↦ rw (msg_send, right, busy) whole
              | inr idle ↦ elim (Bool-cases (ltb priority prio_count)) [
                | inr bad ↦ rw (msg_send, right, idle, bad) whole
                | inl ok ↦ elim (Option-cases (find_node (decode_endpoint from).0 nodes)) [
                  | inl gone ↦ rw (msg_send, right, idle, ok, gone) whole
                  | inr (i, found) ↦
                      let route = find_route (decode_endpoint to).0 (get_or nodes i blank_node) in
                      rw (msg_send, right, idle, ok, found)
                        (send_along-SameStates d nodes place
                          (record (endpoint_at nodes place) { route = route }) route from
                          (decode_endpoint to) bytes size priority (some r) refl)
                ]
              ]
            ]
      ]
