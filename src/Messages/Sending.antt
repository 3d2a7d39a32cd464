-- ===== src/Messages/Sending.antt =====
-- The results of `msg_send` (libmcapi/mcapi/msg_snd.c).
use openmcapi_deprecated.Base.{
  ℕ, ◌+◌, ◌%◌, ◌^◌, ◌≤◌, ◌<◌, ◌≡◌, ◌≢◌, refl, ap, ◌∙◌, ◌⊎◌, inr, false, Option, none, some, List,
  arith, length, get_or, ◌==◌, le→leb, lt→ltb, ge→ltb, if◌then◌else◌,
}
use openmcapi_deprecated.Status
use openmcapi_deprecated.Wire.{Buffer}
use openmcapi_deprecated.Packet.{header_len, size_bits}
use openmcapi_deprecated.Handle.{decode_endpoint}
use openmcapi_deprecated.Endpoints.{Endpoint, endp_connecting, has_flag}
use openmcapi_deprecated.Nodes.{Node, blank_node, find_node, find_route}
use openmcapi_deprecated.Nodes.Api.{decode_local_endpoint, endpoint_at, set_endpoint}
use openmcapi_deprecated.Requests.{Request}
use openmcapi_deprecated.Messages.{
  Driver, MsgSent, prio_count, transmit, overruns, with_buffer, send_along, msg_send,
}
use openmcapi_deprecated.Messages.Header.{Carries, make_packet-Carries}

-- Nothing is overrun when the data is there and has room behind the header.
overruns-false :
    (buffer : Buffer) (bytes : List ℕ) (size : ℕ)
    → size + header_len ≤ length buffer
    → size ≤ length bytes
    → overruns buffer bytes size ≡ false
unfolding overruns
overruns-false buffer bytes size room there =
    rw
      (
        ge→ltb (length buffer) (header_len + size) (omega arith),
        ge→ltb (length bytes) size (omega arith),
      )
      refl

-- What a sender needs: its endpoint is on a local node and not part of a connection, the priority exists,
-- the destination has a route, the packet fits, and the interface has a buffer of that size.
pub record CanSend {D : Type 0} (driver : Driver D) (n : ℕ) (d : D) (nodes : List Node)
    (from to : ℕ) (size priority : ℕ) : Type 0 where
  pub place : ℕ × ℕ
  pub decoded : decode_local_endpoint n nodes from ≡ inr place
  pub idle : has_flag (endpoint_at nodes place).state endp_connecting ≡ false
  pub prio_exists : priority < prio_count
  pub node : ℕ
  pub node_found : find_node (decode_endpoint from).0 nodes ≡ some node
  pub route : ℕ
  pub routed : find_route (decode_endpoint to).0 (get_or nodes node blank_node) ≡ some route
  pub small : size + header_len < 2 ^ size_bits
  pub fits : size + header_len ≤ driver.max_buf_size
  pub address : ℕ
  pub buffer : Buffer
  pub hardware : D
  pub given :
      driver.get_buffer d (decode_endpoint to).0 (size + header_len) priority
      ≡ (some (address, buffer), hardware)
  pub room : size + header_len ≤ length buffer

-- The endpoint that sends, with its route.
abbrev pub sending :
    {D : Type 0} {driver : Driver D} {n : ℕ} {d : D} {nodes : List Node} {from to size priority : ℕ}
    → CanSend driver n d nodes from to size priority
    → Endpoint
sending {nodes = nodes} {to = to} c = record (endpoint_at nodes c.place) {
  route = find_route (decode_endpoint to).0 (get_or nodes c.node blank_node);
}

send_along-with_buffer :
    {D : Type 0} (driver : Driver D) (n here : ℕ) (d : D) (nodes : List Node) (place : ℕ × ℕ)
    (endp : Endpoint) (route from : ℕ) (dest : ℕ × ℕ) (bytes : List ℕ) (priority : ℕ)
    (request : Option Request)
    → length bytes + header_len < 2 ^ size_bits
    → length bytes + header_len ≤ driver.max_buf_size
    → send_along driver n here d nodes place endp
        (some route)
        from
        dest
        bytes
        (length bytes)
        priority
        request
      ≡ with_buffer driver n here
          (set_endpoint nodes place endp)
          place
          endp
          from
          dest
          bytes
          (length bytes)
          priority
          request
          (driver.get_buffer d dest.0 (length bytes + header_len) priority)
unfolding send_along
send_along-with_buffer driver n here d nodes place endp route from dest bytes priority request small
      fits =
    let size : (length bytes + header_len) % 2 ^ size_bits ≡ length bytes + header_len =
      omega arith in
    rw (send_along, size, le→leb (length bytes + header_len) driver.max_buf_size fits) refl

module _ {D : Type 0} (driver : Driver D) (n here : ℕ) (d : D) (nodes : List Node) (from to : ℕ)
    (bytes : List ℕ) (priority : ℕ) (request : Request)
    (c : CanSend driver n d nodes from to (length bytes) priority) where
  msg_send-with_buffer :
      msg_send driver n here d nodes from to (some bytes) (length bytes) priority (some request)
      ≡ with_buffer driver n here
          (set_endpoint nodes c.place (sending c))
          c.place
          (sending c)
          from
          (decode_endpoint to)
          bytes
          (length bytes)
          priority
          (some request)
          (some (c.address, c.buffer), c.hardware)
  unfolding msg_send
  msg_send-with_buffer =
      rw (msg_send, c.decoded, c.idle, lt→ltb priority prio_count c.prio_exists, c.node_found)
        (ap
            (λ route.
              send_along driver n here d nodes c.place (sending c) route from (decode_endpoint to)
                bytes (length bytes) priority (some request))
            c.routed
          ∙ send_along-with_buffer driver n here d nodes c.place (sending c) c.route from
              (decode_endpoint to) bytes priority (some request) c.small c.fits
          ∙ ap
              (with_buffer driver n here (set_endpoint nodes c.place (sending c)) c.place
                (sending c) from (decode_endpoint to) bytes (length bytes) priority (some request))
              c.given)

  -- A sender that has what it needs hands one packet to the interface: it carries exactly the bytes of the
  -- message, from the sending endpoint to the node and the port of the destination's handle. The status
  -- returned is that of the interface, and is also in the request; no memory is overrun.
  pub msg_send-Carries :
      (p : Buffer) × (r : Request) × ((msg_send driver n here d nodes from to
          (some bytes)
          (length bytes)
          priority
          (some request)).packet
        ≡ some p)
      × Carries p (sending c) (decode_endpoint to).0 (decode_endpoint to).1 bytes
      × ((msg_send driver n here d nodes from to
            (some bytes)
            (length bytes)
            priority
            (some request)).request
          ≡ some r)
      × (r.status
          ≡ (msg_send driver n here d nodes from to
              (some bytes)
              (length bytes)
              priority
              (some request)).status)
      × ((msg_send driver n here d nodes from to
            (some bytes)
            (length bytes)
            priority
            (some request)).overrun
          ≡ false)
  unfolding with_buffer transmit
  msg_send-Carries =
      let dest = decode_endpoint to in
      rw msg_send-with_buffer (
        _,
        _,
        refl,
        make_packet-Carries c.buffer (sending c) dest.0 dest.1 bytes c.room c.small,
        refl,
        refl,
        overruns-false c.buffer bytes (length bytes) c.room (omega arith),
      )

-- What a call of `msg_send` has done, without overrunning memory: nothing was handed over, the request is as it
-- was and the status is an error; or a packet was handed over, the request has the status, and the number of
-- bytes if the status is success and 0 otherwise.
pub Reported : {D : Type 0} → ℕ → Option Request → MsgSent D → Type 0
Reported size request s =
    (s.overrun ≡ false)
    × (((s.packet ≡ none) × (s.request ≡ request) × (s.status ≢ Status.success))
        ⊎ ((p : Buffer) × (r : Request) × (s.packet ≡ some p)
            × (s.request ≡ some r)
            × (r.status ≡ s.status)
            × (r.byte_count ≡ (if s.status == Status.success then size else 0))))

-- An interface whose buffers have the size that was asked for.
abbrev pub GivesRoom : {D : Type 0} → Driver D → Type 0
GivesRoom {D = D} driver =
    (d d' : D) (node size priority a : ℕ) (b : Buffer)
    → driver.get_buffer d node size priority ≡ (some (a, b), d')
    → size ≤ length b
