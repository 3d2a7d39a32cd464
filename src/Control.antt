-- ===== src/Control.antt =====
-- The control messages between nodes: libmcapi/mcapi/cntrl_msg.c, and `mcapi_tx_open` of connect.c in the
-- same folder. The messages are sent by `msg_send` from the endpoint `ctrl_tx` (MCAPI_CTRL_TX_Endp);
-- `here` is MCAPI_Node_ID. The requests resumed are recorded as calls of `mcapi_check_resume`, in order. A
-- message buffer holds MCAPI_CONTROL_MSG_LEN bytes; the state of an endpoint is 32 bits wide.
pub mod Connecting
pub mod Opened
pub mod Lookup
pub mod Process
pub mod Flags
pub mod Steps
pub mod Updates
pub mod Connected
pub mod Sides
pub mod Safety
pub mod Opening
mod Tests
pub mod Handshake
pub mod OpeningSafety
use openmcapi_deprecated.Base.{
  ℕ, zero, suc, ◌+◌, ◌-◌, ◌%◌, ◌^◌, Bool, true, false, not, ◌&&◌, ◌||◌, Option, none, some, List,
  [], ◌∷◌, ◌++◌, ◌==◌, if◌then◌else◌, get_or, bit_and, bit_or,
}
use openmcapi_deprecated.Status
use openmcapi_deprecated.Wire.{Buffer, get16, put16, put32}
use openmcapi_deprecated.Handle.{encode_endpoint}
use openmcapi_deprecated.Endpoints.{Endpoint, endp_connecting, has_flag}
use openmcapi_deprecated.Nodes.{Node, blank_node, Call, find_node, find_route, default_prio}
use openmcapi_deprecated.Nodes.Api.{find_local_endpoint, endpoint_at, set_endpoint}
use openmcapi_deprecated.Channels.{rx_control_port, endp_disconnected}
use openmcapi_deprecated.Requests.{Request, blank_request}
use openmcapi_deprecated.Messages.{Driver, msg_send}

-- The offsets of the fields of a connection message, and its length.
abbrev pub prot_type : ℕ
prot_type = 0

abbrev pub cnct_req_node : ℕ
cnct_req_node = 2

abbrev pub cnct_req_port : ℕ
cnct_req_port = 4

abbrev pub cnct_tx_node : ℕ
cnct_tx_node = 6

abbrev pub cnct_tx_port : ℕ
cnct_tx_port = 8

abbrev pub cnct_rx_node : ℕ
cnct_rx_node = 10

abbrev pub cnct_rx_port : ℕ
cnct_rx_port = 12

abbrev pub cnct_chan_type : ℕ
cnct_chan_type = 14

abbrev pub cnct_status : ℕ
cnct_status = 16

abbrev pub connect_msg_len : ℕ
connect_msg_len = 20

abbrev pub connect_response : ℕ
connect_response = 4

abbrev pub connect_syn : ℕ
connect_syn = 5

abbrev pub endp_connected : ℕ
endp_connected = 0x8

abbrev pub endp_tx_acked : ℕ
endp_tx_acked = 0x40

abbrev pub endp_rx_acked : ℕ
endp_rx_acked = 0x80

abbrev pub endp_connecting_tx : ℕ
endp_connecting_tx = 0x200

abbrev pub endp_connecting_rx : ℕ
endp_connecting_rx = 0x400

-- `state & ~f`
abbrev pub clear_flag : ℕ → ℕ → ℕ
clear_flag state f = bit_and state (0xffff_ffff - f)

-- What the control messages change: the nodes, the hardware, the queue of requests of other nodes (by
-- their entries in the pool), the pool of request structures, and the calls made.
pub record Store (D : Type 0) : Type 0 where
  pub nodes : List Node
  pub driver : D
  pub foreign : List ℕ
  pub pool : List Request
  pub calls : List Call

-- Which side of a connection is set up.
pub data ConnectSide : Type 0 where
  tx_side : ConnectSide
  rx_side : ConnectSide

-- The endpoint after a successful set-up, by the side and the connection message.
unfoldable pub connected_side : ConnectSide → Endpoint → Option ℕ → Buffer → Endpoint
connected_side tx_side endp route buffer = record endp {
  route = route;
  state =
      bit_or (clear_flag (bit_or endp.state endp_connecting) endp_disconnected) endp_connecting_tx;
  foreign_node_id = get16 buffer cnct_rx_node;
  foreign_port_id = get16 buffer cnct_rx_port;
  chan_type = get16 buffer cnct_chan_type;
  req_node_id = get16 buffer cnct_req_node;
  req_port_id = get16 buffer cnct_req_port;
}
connected_side rx_side endp route buffer = record endp {
  route = route;
  state =
      bit_or (clear_flag (bit_or endp.state endp_connecting) endp_disconnected) endp_connecting_rx;
  foreign_node_id = get16 buffer cnct_tx_node;
  foreign_port_id = get16 buffer cnct_tx_port;
  chan_type = get16 buffer cnct_chan_type;
  req_node_id = get16 buffer cnct_req_node;
  req_port_id = get16 buffer cnct_req_port;
}

-- The message of `mcapi_tx_open`.
unfoldable pub open_message : Buffer → Endpoint → ℕ × ℕ → ℕ × ℕ → ℕ → ℕ → Buffer
open_message buffer endp (send_node, send_port) (recv_node, recv_port) pkt_type type =
    let b₁ = put16 buffer cnct_tx_node send_node in
    let b₂ = put16 b₁ cnct_tx_port send_port in
    let b₃ = put16 b₂ cnct_rx_node recv_node in
    let b₄ = put16 b₃ cnct_rx_port recv_port in
    let b₅ = put16 b₄ prot_type pkt_type in
    let b₆ = put16 b₅ cnct_req_node endp.req_node_id in
    let b₇ = put16 b₆ cnct_req_port endp.req_port_id in
    let b₈ = put16 b₇ cnct_chan_type type in put32 b₈ cnct_status 0

-- The node and the port of an endpoint, and of its peer.
abbrev pub own : Endpoint → ℕ × ℕ
own endp = (endp.node_id, endp.port_id)

abbrev pub peer : Endpoint → ℕ × ℕ
peer endp = (endp.foreign_node_id, endp.foreign_port_id)

-- `endp_ptr->mcapi_state = state`
abbrev pub put_state : {D : Type 0} → Store D → ℕ × ℕ → ℕ → Store D
put_state s place state = record s {
  nodes = set_endpoint s.nodes place (record (endpoint_at s.nodes place) { state = state });
}

module _ {D : Type 0} (driver : Driver D) (max_endpoints here ctrl_tx : ℕ) where
  -- A call of `msg_send` from the control endpoint: the status and what it leaves.
  unfoldable pub ctrl_send : Store D → ℕ → Buffer → ℕ → ℕ × Store D
  ctrl_send s to buffer len =
      let r =
        msg_send driver max_endpoints here s.driver s.nodes ctrl_tx to (some buffer) len
          default_prio (some blank_request) in
      (r.status, record s { nodes = r.nodes; driver = r.driver })

  -- `send_connect_response`
  unfoldable pub send_connect_response : Store D → Buffer → ℕ → Store D
  unfolding ctrl_send
  send_connect_response s buffer status =
      let to = encode_endpoint (get16 buffer cnct_req_node) (get16 buffer cnct_req_port) in
      let b₁ = put32 buffer cnct_status status in
      (ctrl_send s to (put16 b₁ prot_type connect_response) connect_msg_len).1

  -- `mcapi_tx_open`
  unfoldable pub tx_open : Store D → Buffer → Endpoint → ℕ × ℕ → ℕ × ℕ → ℕ → ℕ → ℕ × Store D
  unfolding ctrl_send open_message
  tx_open s buffer endp send recv pkt_type type =
      ctrl_send s (encode_endpoint endp.foreign_node_id rx_control_port)
        (open_message buffer endp send recv pkt_type type) connect_msg_len

  -- `mcapi_connect_endpoints`
  unfoldable pub connect_endpoints : Store D → Buffer → ℕ × Store D
  unfolding ctrl_send
  connect_endpoints s buffer =
      let foreign = get16 buffer cnct_rx_node in
      elim (find_local_endpoint max_endpoints s.nodes (get16 buffer cnct_tx_node)
        (get16 buffer cnct_tx_port)) [
          | none ↦ (Status.err_endp_invalid, s)
          | some place ↦
              let endp = endpoint_at s.nodes place in
              if has_flag endp.state endp_connecting
              then (Status.err_chan_connected, s)
              else (let state = clear_flag (bit_or endp.state endp_connecting) endp_disconnected in
                  ctrl_send
                    (record s {
                      nodes = set_endpoint s.nodes place (record endp { state = state });
                    })
                    (encode_endpoint foreign rx_control_port) (put16 buffer prot_type connect_syn)
                    connect_msg_len)
        ]

  -- The part of `mcapi_setup_connection` for an endpoint that may be set up; the status is left as it is,
  -- MCAPI_SUCCESS, unless there is an error.
  unfoldable pub setup_free : Store D → ℕ × ℕ → Buffer → ConnectSide → ℕ × Store D
  unfolding connected_side
  setup_free s place buffer side =
      let endp = endpoint_at s.nodes place in
      elim (find_node endp.node_id s.nodes) [
        | none ↦ (Status.err_endp_invalid, s)
        | some i ↦ elim (find_route endp.node_id (get_or s.nodes i blank_node)) [
          | none ↦ (
            Status.err_endp_invalid,
            record s { nodes = set_endpoint s.nodes place (record endp { route = none }) },
          )
          | some r ↦ (
            Status.success,
            record s {
              nodes = set_endpoint s.nodes place (connected_side side endp (some r) buffer);
            },
          )
        ]
      ]

  -- `mcapi_setup_connection`
  unfoldable pub setup_connection : Store D → ℕ × ℕ → Buffer → ConnectSide → ℕ × Store D
  unfolding setup_free
  setup_connection s place buffer tx_side = setup_free s place buffer tx_side
  setup_connection s place buffer rx_side =
      if has_flag (endpoint_at s.nodes place).state endp_connecting
      then (Status.err_chan_connected, s)
      else setup_free s place buffer rx_side

  -- The endpoints of the send side and of the receive side of a connection message.
  abbrev pub tx_place : Store D → Buffer → Option (ℕ × ℕ)
  tx_place s buffer =
      find_local_endpoint max_endpoints s.nodes (get16 buffer cnct_tx_node)
        (get16 buffer cnct_tx_port)

  abbrev pub rx_place : Store D → Buffer → Option (ℕ × ℕ)
  rx_place s buffer =
      find_local_endpoint max_endpoints s.nodes (get16 buffer cnct_rx_node)
        (get16 buffer cnct_rx_port)
