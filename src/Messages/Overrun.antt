-- ===== src/Messages/Overrun.antt =====
-- The check of the size in `msg_send` (libmcapi/mcapi/msg_snd.c) for sizes that wrap round with the header.
use openmcapi_deprecated.Base.{
  ℕ, ◌+◌, ◌%◌, ◌^◌, ◌≤◌, ◌<◌, ◌≡◌, refl, ap, ◌∙◌, false, true, some, List, arith, length, get_or,
  inr, lt→ltb, le→leb,
}
use openmcapi_deprecated.Wire.{Buffer}
use openmcapi_deprecated.Packet.{header_len, size_bits}
use openmcapi_deprecated.Handle.{decode_endpoint}
use openmcapi_deprecated.Endpoints.{Endpoint, endp_connecting, has_flag}
use openmcapi_deprecated.Nodes.{Node, blank_node, find_node, find_route}
use openmcapi_deprecated.Nodes.Api.{decode_local_endpoint, endpoint_at}
use openmcapi_deprecated.Requests.{Request}
use openmcapi_deprecated.Messages.{
  Driver, prio_count, overruns, transmit, with_buffer, send_along, msg_send,
}

-- A sender with a local, unconnected endpoint, an existing priority and a route to the destination.
pub record Reaches (n : ℕ) (nodes : List Node) (from to priority : ℕ) : Type 0 where
  pub place : ℕ × ℕ
  pub decoded : decode_local_endpoint n nodes from ≡ inr place
  pub idle : has_flag (endpoint_at nodes place).state endp_connecting ≡ false
  pub prio_exists : priority < prio_count
  pub node : ℕ
  pub node_found : find_node (decode_endpoint from).0 nodes ≡ some node
  pub route : ℕ
  pub routed : find_route (decode_endpoint to).0 (get_or nodes node blank_node) ≡ some route

module _ {D : Type 0} (driver : Driver D) (n here : ℕ) (d : D) (nodes : List Node) (from to : ℕ)
    (bytes : List ℕ) (size priority : ℕ) (request : Request)
    (r : Reaches n nodes from to priority) where
  send_along-overrun :
      (endp : Endpoint) (a : ℕ) (b : Buffer) (d' : D)
      → (size + header_len) % 2 ^ size_bits ≤ driver.max_buf_size
      → driver.get_buffer d (decode_endpoint to).0 ((size + header_len) % 2 ^ size_bits) priority
        ≡ (some (a, b), d')
      → length b < size + header_len
      → (send_along driver n here d nodes r.place endp
          (some r.route)
          from
          (decode_endpoint to)
          bytes
          size
          priority
          (some request)).overrun
        ≡ true
  unfolding send_along with_buffer transmit overruns
  send_along-overrun endp a b d' fits given short =
      rw (send_along, le→leb _ _ fits, given, lt→ltb (length b) (header_len + size) (omega arith))
        refl

  -- A message whose size and header reach 2 ^ 32 bytes, from a sender with a local, unconnected endpoint, an existing
  -- priority and a route, passes the check of its size when the rest of the sum modulo 2 ^ 32 is at most the
  -- largest packet: if the interface then gives a buffer of fewer than 2 ^ 32 bytes for that rest, the copy of the
  -- message overruns memory.
  pub msg_send-overruns :
      (a : ℕ) (b : Buffer) (d' : D)
      → 2 ^ size_bits ≤ size + header_len
      → (size + header_len) % 2 ^ size_bits ≤ driver.max_buf_size
      → driver.get_buffer d (decode_endpoint to).0 ((size + header_len) % 2 ^ size_bits) priority
        ≡ (some (a, b), d')
      → length b < 2 ^ size_bits
      → (msg_send driver n here d nodes from to (some bytes) size priority (some request)).overrun
        ≡ true
  unfolding msg_send
  msg_send-overruns a b d' wraps fits given short =
      let endp = record (endpoint_at nodes r.place) {
        route = find_route (decode_endpoint to).0 (get_or nodes r.node blank_node);
      } in
      rw (msg_send, r.decoded, r.idle, lt→ltb priority prio_count r.prio_exists, r.node_found)
        (ap
            (λ route.
              (send_along driver n here d nodes r.place endp route from (decode_endpoint to) bytes
                size priority (some request)).overrun)
            r.routed
          ∙ send_along-overrun endp a b d' fits given (omega arith))
