-- ===== src/Messages.antt =====
-- Connectionless messages: `msg_send` and `msg_recv` of libmcapi/mcapi/msg_snd.c and msg_rcv.c. The
-- interface that a route leads to is a parameter, of type `Driver`, over a state `D` of the hardware;
-- `max_endpoints` is MCAPI_MAX_ENDPOINTS, `here` is MCAPI_Node_ID. A request that the caller passes is
-- `none` when its pointer is null, and so is a buffer; the sizes are 32 bits wide.
pub mod Header
pub mod Sending
pub mod Receive
pub mod Deliver
pub mod Arrival
pub mod RoundTrip
pub mod Drain
pub mod Overrun
pub mod States
mod Tests
use openmcapi_deprecated.Base.{
  ℕ, zero, suc, ◌+◌, ◌%◌, ◌^◌, Bool, true, false, not, ◌&&◌, ◌||◌, Option, none, some, List, [],
  ◌∷◌, ◌++◌, inl, inr, ◌==◌, ltb, leb, if◌then◌else◌, get_or, length,
}
use openmcapi_deprecated.Status
use openmcapi_deprecated.Wire.{Buffer, put16}
use openmcapi_deprecated.Wire.Bytes.{write_bytes}
use openmcapi_deprecated.Packet
use openmcapi_deprecated.Packet.{take, header_len, size_bits}
use openmcapi_deprecated.Handle.{decode_endpoint}
use openmcapi_deprecated.Endpoints.{Endpoint, endp_connecting, has_flag}
use openmcapi_deprecated.Nodes.{Node, blank_node, find_node, find_route}
use openmcapi_deprecated.Nodes.Api.{decode_local_endpoint, endpoint_at, set_endpoint}
use openmcapi_deprecated.Requests.{Request, init_request}
use openmcapi_deprecated.Suspend.{req_tx_fin, req_rx_fin, msg_type, Waiter}

-- The functions of an MCAPI_INTERFACE: `mcapi_max_buf_size`, `mcapi_get_buffer` by node, size and priority
-- (a buffer by its address and contents), `mcapi_tx_output` of a buffer by its address and contents with
-- size, priority and endpoint, and `mcapi_recover_buffer`.
pub record Driver (D : Type 0) : Type 0 where
  pub max_buf_size : ℕ
  pub get_buffer : D → ℕ → ℕ → ℕ → Option (ℕ × Buffer) × D
  pub tx_output : D → ℕ → Buffer → ℕ → ℕ → Option Endpoint → ℕ × D
  pub recover_buffer : D → ℕ → D

abbrev pub prio_count : ℕ
prio_count = 2

-- The header that `msg_send` writes.
unfoldable pub put_header : Buffer → ℕ → ℕ → ℕ → ℕ → ℕ → Buffer
put_header buffer tx_node tx_port rx_node rx_port priority =
    let b₁ = put16 buffer Packet.src_node tx_node in
    let b₂ = put16 b₁ Packet.src_port tx_port in
    let b₃ = put16 b₂ Packet.dest_node rx_node in
    let b₄ = put16 b₃ Packet.dest_port rx_port in
    let b₅ = put16 b₄ Packet.prio priority in put16 b₅ Packet.unused 0

-- The packet: the header, the data, and `buf_size`. It is that of the program when the header and the data lie
-- inside the buffer; `overruns` below says when they do not.
unfoldable pub make_packet : Buffer → Endpoint → ℕ → ℕ → List ℕ → ℕ → Buffer
unfolding put_header
make_packet buffer endp rx_node rx_port bytes buffer_size =
    let b = put_header buffer endp.node_id endp.port_id rx_node rx_port endp.priority in
    take ((buffer_size + header_len) % 2 ^ size_bits)
      (write_bytes b header_len (take buffer_size bytes))

-- Whether the `memcpy` of `buffer_size` bytes writes behind the end of the buffer or reads behind the end of the
-- caller's bytes. What the program does then is undefined.
unfoldable pub overruns : Buffer → List ℕ → ℕ → Bool
overruns buffer bytes buffer_size =
    ltb (length buffer) (header_len + buffer_size) || ltb (length bytes) buffer_size

-- The bytes at a pointer; there are none at the null pointer, from which only 0 bytes are copied.
abbrev pub bytes_at : Option (List ℕ) → List ℕ
bytes_at none = []
bytes_at (some d) = d

-- What `msg_send` leaves: the status, the request, the nodes, the state of the hardware, the packet that was
-- given to it, and whether memory was overrun; if it was, the rest says nothing about the program.
pub record MsgSent (D : Type 0) : Type 0 where
  pub status : ℕ
  pub request : Option Request
  pub nodes : List Node
  pub driver : D
  pub packet : Option Buffer
  pub overrun : Bool

module _ {D : Type 0} (driver : Driver D) (max_endpoints here : ℕ) where
  -- The part of `msg_send` after a buffer was obtained.
  unfoldable pub transmit :
      D → List Node → ℕ × ℕ → Endpoint → ℕ → ℕ × ℕ → List ℕ → ℕ → ℕ → ℕ × Buffer → MsgSent D
  unfolding make_packet
  transmit d nodes place endp send_endpoint (rx_node, rx_port) bytes buffer_size priority
        (a, buffer) =
      let packet = make_packet buffer endp rx_node rx_port bytes buffer_size in
      let endp' = record endp { foreign_node_id = rx_node; foreign_port_id = rx_port } in
      let (status, d') = driver.tx_output d a packet buffer_size priority (some endp') in
      let request = record (init_request here req_tx_fin) {
        target_endp = send_endpoint;
        status = status;
        byte_count = if status == Status.success then buffer_size else 0;
      } in
      record {
        status = status;
        request = some request;
        nodes = set_endpoint nodes place endp';
        driver = if status == Status.success then d' else driver.recover_buffer d' a;
        packet = some packet;
        overrun = overruns buffer bytes buffer_size;
      }

  -- A refusal of `msg_send`.
  abbrev pub not_sent : D → List Node → Option Request → ℕ → MsgSent D
  not_sent d nodes request status = record {
    status = status;
    request = request;
    nodes = nodes;
    driver = d;
    packet = none;
    overrun = false;
  }

  -- The part of `msg_send` after the interface was asked for a buffer.
  unfoldable pub with_buffer :
      List Node
      → ℕ × ℕ
      → Endpoint
      → ℕ
      → ℕ × ℕ
      → List ℕ
      → ℕ
      → ℕ
      → Option Request
      → Option (ℕ × Buffer) × D
      → MsgSent D
  unfolding transmit
  with_buffer nodes place endp send_endpoint dest bytes buffer_size priority request (none, d) =
      not_sent d nodes request Status.err_transmission
  with_buffer nodes place endp send_endpoint dest bytes buffer_size priority request (some b, d) =
      transmit d nodes place endp send_endpoint dest bytes buffer_size priority b

  -- The part of `msg_send` after the route is looked up; the endpoint keeps the route, or none.
  unfoldable pub send_along :
      D
      → List Node
      → ℕ × ℕ
      → Endpoint
      → Option ℕ
      → ℕ
      → ℕ × ℕ
      → List ℕ
      → ℕ
      → ℕ
      → Option Request
      → MsgSent D
  unfolding with_buffer
  send_along d nodes place endp route send_endpoint dest bytes buffer_size priority request =
      let nodes' = set_endpoint nodes place endp in
      elim route [
        | none ↦ not_sent d nodes' request Status.err_node_invalid
        | some r ↦
            let size = (buffer_size + header_len) % 2 ^ size_bits in
            if leb size driver.max_buf_size
            then with_buffer nodes' place endp send_endpoint dest bytes buffer_size priority request
                (driver.get_buffer d dest.0 size priority)
            else not_sent d nodes' request Status.err_msg_size
      ]

  -- `msg_send`
  unfoldable pub msg_send :
      D → List Node → ℕ → ℕ → Option (List ℕ) → ℕ → ℕ → Option Request → MsgSent D
  unfolding send_along
  msg_send d nodes send_endpoint receive_endpoint buffer buffer_size priority request =
      if elim request [
        | none ↦ false
        | some _ ↦ elim buffer [ none ↦ buffer_size == 0 | some _ ↦ true ]
      ]
      then (elim (decode_local_endpoint max_endpoints nodes send_endpoint) [
        | inl _ ↦ not_sent d nodes request Status.err_endp_invalid
        | inr place ↦
            let endp = endpoint_at nodes place in
            if has_flag endp.state endp_connecting
            then not_sent d nodes request Status.err_chan_connected
            else (if ltb priority prio_count
                then (let dest = decode_endpoint receive_endpoint in
                    elim (find_node (decode_endpoint send_endpoint).0 nodes) [
                      | none ↦ not_sent d nodes request Status.err_endp_invalid
                      | some i ↦
                          let route = find_route dest.0 (get_or nodes i blank_node) in
                          send_along d nodes place (record endp { route = route }) route
                            send_endpoint dest (bytes_at buffer) buffer_size priority request
                    ])
                else not_sent d nodes request Status.err_priority)
      ])
      else not_sent d nodes request Status.err_parameter
