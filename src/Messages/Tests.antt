-- ===== src/Messages/Tests.antt =====
-- The theorems on messages (libmcapi/mcapi/msg_snd.c, msg_rcv.c and cntrl_msg.c) at an interface that
-- counts the packets it sends, and two nodes with one endpoint each.
use openmcapi_deprecated.Base.{
  ◌==◌, if◌then◌else◌, ◌++◌, ℕ, ◌+◌, ◌≡◌, refl, true, false, some, List, [], ◌∷◌, arith, inr,
  replicate, get_or,
}
use openmcapi_deprecated.Status
use openmcapi_deprecated.Wire.{Buffer, get16, put16}
use openmcapi_deprecated.Wire.Bytes.{write_bytes}
use openmcapi_deprecated.Handle.{decode_endpoint}
use openmcapi_deprecated.Endpoints.{blank, find_endpoint}
use openmcapi_deprecated.Nodes.{Node, blank_node, find_node, find_route}
use openmcapi_deprecated.Nodes.Api.{decode_local_endpoint, find_local_endpoint, endpoint_at}
use openmcapi_deprecated.Requests.{Request, blank_request}
use openmcapi_deprecated.Suspend.Resume.{Each}
use openmcapi_deprecated.Messages.{Driver, MsgSent, msg_send}
use openmcapi_deprecated.Messages.Header.{Carries}
use openmcapi_deprecated.Messages.Sending.{CanSend, sending, msg_send-Carries}
use openmcapi_deprecated.Messages.Receive.{MsgReceived, msg_recv}
use openmcapi_deprecated.Messages.Deliver.{RxState, rx_packet, rx_queue}
use openmcapi_deprecated.Messages.Arrival.{IsAt, NobodyWaits, Addressed, queued, rx_queue-InOrder}
use openmcapi_deprecated.Messages.Drain.{one_more, no_more, receive_each, receive_each-Holds}
use openmcapi_deprecated.Messages.Overrun.{Reaches, msg_send-overruns}
use openmcapi_deprecated.Messages.RoundTrip.{CanReceive, msg_recv-rx_packet-msg_send}

-- An interface with packets of up to 64 bytes, whose state is the number of packets sent.
abbrev wire : Driver ℕ
wire = record {
  max_buf_size = 64;
  get_buffer = λ d node size priority. (some (100, replicate 64 9), d);
  tx_output = λ d a packet size priority endp. (Status.success, d + 1);
  recover_buffer = λ d a. d;
}

-- A node with an endpoint on port 6, in slot 2 of four, and a route to node 2.
abbrev node_with : ℕ → ℕ → Node
node_with id handle = record {
  node_id = id;
  state = 1;
  endpoint_count = 1;
  status_port = 0;
  endpoint_list =
      record blank { state = 1 }
      ∷ record blank { state = 1 }
      ∷ record blank { node_id = id; port_id = 6; state = 2; endp_handle = handle; priority = 1 }
      ∷ record blank { state = 1 }
      ∷ [];
  route_list = record { dest_node_id = 2; interface = some 0 } ∷ [];
}

abbrev sender : List Node
sender = node_with 1 0x10006 ∷ []

abbrev receiver : List Node
receiver = node_with 2 0x20006 ∷ []

decoded_sender : decode_local_endpoint 4 sender 0x10006 ≡ inr (0, 2)
unfolding decode_local_endpoint find_node find_endpoint decode_endpoint
decoded_sender = refl

decoded_receiver : decode_local_endpoint 4 receiver 0x20006 ≡ inr (0, 2)
unfolding decode_local_endpoint find_node find_endpoint decode_endpoint
decoded_receiver = refl

found_receiver : find_local_endpoint 4 receiver 2 6 ≡ some (0, 2)
unfolding find_local_endpoint find_node find_endpoint
found_receiver = refl

routed_sender : find_route (decode_endpoint 0x20006).0 (get_or sender 0 blank_node) ≡ some 0
unfolding find_route decode_endpoint
routed_sender = refl

found_sender : find_node (decode_endpoint 0x10006).0 sender ≡ some 0
unfolding find_node decode_endpoint
found_sender = refl

abbrev hello : List ℕ
hello = 72 ∷ 101 ∷ 108 ∷ 108 ∷ 111 ∷ []

can_send : CanSend wire 4 0 sender 0x10006 0x20006 5 1
can_send = record {
  place = (0, 2);
  decoded = decoded_sender;
  idle = refl;
  prio_exists = omega arith;
  node = 0;
  node_found = found_sender;
  route = 0;
  routed = routed_sender;
  small = omega arith;
  fits = omega arith;
  address = 100;
  buffer = replicate 64 9;
  hardware = 0;
  given = refl;
  room = omega arith;
}

abbrev sent : MsgSent ℕ
sent = msg_send wire 4 1 0 sender 0x10006 0x20006 (some hello) 5 1 (some blank_request)

msg_send-Carries_example :
    (p : Buffer) × (r : Request) × (sent.packet ≡ some p)
    × Carries p (sending can_send) (decode_endpoint 0x20006).0 (decode_endpoint 0x20006).1 hello
    × (sent.request ≡ some r)
    × (r.status ≡ sent.status)
    × (sent.overrun ≡ false)
msg_send-Carries_example =
    msg_send-Carries wire 4 1 0 sender 0x10006 0x20006 hello 1 blank_request can_send

-- An interface whose buffers have just the size that was asked for.
abbrev snug : Driver ℕ
snug = record wire { get_buffer = λ d node size priority. (some (100, replicate size 9), d) }

-- The packet, at the address 100.
abbrev packet : Buffer
packet = 0 ∷ 1 ∷ 0 ∷ 6 ∷ 0 ∷ 2 ∷ 0 ∷ 6 ∷ 0 ∷ 1 ∷ 0 ∷ 0 ∷ hello

abbrev contents : ℕ → Buffer
contents a = packet

sent-packet : sent.packet ≡ some (contents 100)
unfolding msg_send decode_local_endpoint find_node find_endpoint decode_endpoint find_route put16
    write_bytes
sent-packet = refl

abbrev can_receive : CanReceive 4 receiver 0x20006
can_receive = record {
  place = (0, 2);
  decoded = decoded_receiver;
  idle = refl;
  has_node = omega arith;
  has_slot = omega arith;
}

abbrev idle_state : RxState ℕ
idle_state = record { nodes = receiver; waiting = []; woken = []; wait_list = []; driver = 0 }

nobody : NobodyWaits 0x20006 []
unfolding Each
nobody = tt

abbrev received : RxState ℕ → MsgReceived
received s = msg_recv contents 4 2 s.nodes s.waiting 0x20006 true 8 true (some blank_request) 3 true

msg_recv-rx_packet-msg_send_example :
    (s : RxState ℕ) × (rx_packet wire contents 4 2 false idle_state 100 ≡ some s)
    × ((received s).status ≡ some Status.success)
    × ((received s).bytes ≡ some hello)
msg_recv-rx_packet-msg_send_example =
    msg_recv-rx_packet-msg_send wire 4 1 0 sender 0x10006 0x20006 hello 1 blank_request can_send
      wire contents 2 false idle_state 100 can_receive 8 blank_request 3 true (omega arith)
      sent-packet refl nobody (omega arith) (omega arith)

is_at : IsAt 4 receiver 2 6 (0, 2)
is_at = record { found = found_receiver; has_node = omega arith; has_slot = omega arith }

addressed : Addressed wire contents 4 2 false 2 6 (100 ∷ 101 ∷ [])
unfolding Addressed get16
addressed = ((refl, refl), ((refl, refl), tt))

rx_queue-InOrder_example :
    rx_queue wire contents 4 2 false idle_state (100 ∷ 101 ∷ [])
    ≡ some (record idle_state { nodes = queued receiver (0, 2) (100 ∷ 101 ∷ []) })
rx_queue-InOrder_example =
    rx_queue-InOrder wire contents 4 2 false idle_state 2 6 (0, 2) (100 ∷ 101 ∷ []) is_at nobody
      addressed

abbrev loaded : List Node
loaded = queued receiver (0, 2) (100 ∷ 101 ∷ [])

decoded_loaded : decode_local_endpoint 4 loaded 0x20006 ≡ inr (0, 2)
unfolding decode_local_endpoint find_node find_endpoint decode_endpoint
decoded_loaded = refl

abbrev can_receive_loaded : CanReceive 4 loaded 0x20006
can_receive_loaded = record {
  place = (0, 2);
  decoded = decoded_loaded;
  idle = refl;
  has_node = omega arith;
  has_slot = omega arith;
}

-- Two packets with a header and some bytes.
abbrev header : List ℕ
header = 0 ∷ 1 ∷ 0 ∷ 6 ∷ 0 ∷ 2 ∷ 0 ∷ 6 ∷ 0 ∷ 1 ∷ 0 ∷ 0 ∷ []

abbrev two_packets : ℕ → Buffer
two_packets a = if a == 100 then header ++ hello else header ++ (7 ∷ 8 ∷ [])

receive_each-Holds_example :
    (nodes : List Node) × (receive_each two_packets 8 4 2 0x20006 blank_request 3 true 2 loaded []
      ≡ (
        (some Status.success, some 5, some hello)
            ∷ (some Status.success, some 2, some (7 ∷ 8 ∷ []))
            ∷ [],
        100 ∷ 101 ∷ [],
        nodes,
        [],
      ))
    × (c : CanReceive 4 nodes 0x20006) × ((endpoint_at nodes c.place).rx_queue ≡ [])
receive_each-Holds_example =
    receive_each-Holds two_packets 8 4 2 0x20006 blank_request 3 true (100 ∷ 101 ∷ [])
      (hello ∷ (7 ∷ 8 ∷ []) ∷ []) loaded [] can_receive_loaded (omega arith) refl
      (one_more header hello refl refl (omega arith) (omega arith)
        (one_more header (7 ∷ 8 ∷ []) refl refl (omega arith) (omega arith) no_more))

abbrev reaches : Reaches 4 sender 0x10006 0x20006 1
reaches = record {
  place = can_send.place;
  decoded = can_send.decoded;
  idle = can_send.idle;
  prio_exists = can_send.prio_exists;
  node = can_send.node;
  node_found = can_send.node_found;
  route = can_send.route;
  routed = can_send.routed;
}

msg_send-overruns_example :
    (msg_send wire 4 1 0 sender 0x10006 0x20006
      (some hello)
      0xffff_fff8
      1
      (some blank_request)).overrun
    ≡ true
msg_send-overruns_example =
    msg_send-overruns wire 4 1 0 sender 0x10006 0x20006 hello 0xffff_fff8 1 blank_request reaches
      100 (replicate 64 9) 0 (omega arith) (omega arith) refl (omega arith)
