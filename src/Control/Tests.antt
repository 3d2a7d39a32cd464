-- ===== src/Control/Tests.antt =====
-- The theorems on control messages (libmcapi/mcapi/cntrl_msg.c and connect.c) at node 2 with an endpoint on
-- port 6 and a control endpoint on port 901, and an interface that counts the packets it sends.
use openmcapi_deprecated.Base.{ℕ, ◌+◌, ◌≡◌, refl, inr, true, false, some, [], ◌∷◌, replicate}
use openmcapi_deprecated.Status
use openmcapi_deprecated.Wire.{Buffer, get16, get32, put16, put32}
use openmcapi_deprecated.Wire.Bytes.{write_bytes}
use openmcapi_deprecated.Handle.{decode_endpoint, encode_endpoint}
use openmcapi_deprecated.Endpoints.{Endpoint, blank, endp_rx, has_flag, find_endpoint}
use openmcapi_deprecated.Nodes.{Node, find_node, find_route}
use openmcapi_deprecated.Nodes.Api.{find_local_endpoint, decode_local_endpoint}
use openmcapi_deprecated.Nodes.States.{state_at}
use openmcapi_deprecated.Messages.{Driver, msg_send}
use openmcapi_deprecated.Control.{Store, rx_place, ctrl_send, endp_connected}
use openmcapi_deprecated.Control.Opened.{on_open_tx, on_open_rx_ack, acknowledge, answer_open}
use openmcapi_deprecated.Control.Connecting.{open_rx}
use openmcapi_deprecated.Control.Steps.{IsSafe}
use openmcapi_deprecated.Control.Safety.{process_all, process_all-IsSafe}
use openmcapi_deprecated.Control.Opening.{mcapi_open}
use openmcapi_deprecated.Control.OpeningSafety.{mcapi_open-IsSafe}
use openmcapi_deprecated.Control.Handshake.{on_open_rx_ack-on_open_tx, on_open_tx-on_open_rx_ack}

abbrev wire : Driver ℕ
wire = record {
  max_buf_size = 64;
  get_buffer = λ d node size priority. (some (100, replicate 64 9), d);
  tx_output = λ d a packet size priority endp. (Status.success, d + 1);
  recover_buffer = λ d a. d;
}

-- The endpoint on port 6 in a state.
abbrev endpoint : ℕ → Endpoint
endpoint state = record blank {
  node_id = 2;
  port_id = 6;
  foreign_node_id = 1;
  foreign_port_id = 7;
  state = state;
  chan_type = 1;
  endp_handle = 0x20006;
  priority = 1;
}

abbrev node_two : ℕ → Node
node_two state = record {
  node_id = 2;
  state = 1;
  endpoint_count = 2;
  status_port = 0;
  endpoint_list =
      record blank { state = 1 }
      ∷ record blank { node_id = 2; port_id = 901; state = 2; endp_handle = 0x20385; priority = 1 }
      ∷ endpoint state
      ∷ record blank { state = 1 }
      ∷ [];
  route_list = record { dest_node_id = 1; interface = some 0 } ∷ [];
}

abbrev store : ℕ → Store ℕ
store state = record {
  nodes = node_two state ∷ [];
  driver = 0;
  foreign = [];
  pool = [];
  calls = [];
}

-- The message that the send side, node 1 port 7, has opened, and that the opening of the receive side was
-- accepted.
abbrev opens : Buffer
opens = 0 ∷ 8 ∷ 0 ∷ 1 ∷ 3 ∷ 132 ∷ 0 ∷ 1 ∷ 0 ∷ 7 ∷ 0 ∷ 2 ∷ 0 ∷ 6 ∷ 0 ∷ 1 ∷ 0 ∷ 0 ∷ 0 ∷ 0 ∷ []

abbrev accepts : Buffer
accepts = 0 ∷ 11 ∷ 0 ∷ 1 ∷ 3 ∷ 132 ∷ 0 ∷ 1 ∷ 0 ∷ 7 ∷ 0 ∷ 2 ∷ 0 ∷ 6 ∷ 0 ∷ 1 ∷ 0 ∷ 0 ∷ 0 ∷ 1 ∷ []

false-true : ¬ false ≡ true
false-true e = cc

-- Open, connecting as a receiver and open for receiving: 0x2 + 0x4 + 0x20 + 0x400.
safe : IsSafe 0x426
safe = record {
  is_open = refl;
  one_side = λ h. absurd (false-true h);
  tx_agreed = λ h. absurd (false-true h);
  rx_agreed = λ h. absurd (false-true h);
}

IsSafe-closed : IsSafe 0x406
IsSafe-closed = record {
  is_open = refl;
  one_side = λ h. absurd (false-true h);
  tx_agreed = λ h. absurd (false-true h);
  rx_agreed = λ h. absurd (false-true h);
}

process_all-IsSafe_example :
    IsSafe
      (state_at (process_all wire 4 2 0x20385 (store 0x426) (opens ∷ accepts ∷ [])).nodes (0, 2))
process_all-IsSafe_example =
    process_all-IsSafe wire 4 2 0x20385 (store 0x426) (opens ∷ accepts ∷ []) (0, 2) safe

mcapi_open-IsSafe_example : IsSafe (
    state_at
      (mcapi_open wire 4 2 0x20385
        (store 0x406)
        (replicate 20 0)
        0x20006
        1
        true
        endp_rx
        6
        open_rx).store.nodes
      (0, 2))
mcapi_open-IsSafe_example =
    mcapi_open-IsSafe wire 4 2 0x20385 (store 0x406) (replicate 20 0) 0x20006 1 true endp_rx 6
      open_rx (0, 2) (inr refl) IsSafe-closed

accepted : get32 accepts 16 ≡ Status.success
unfolding get32
accepted = refl

place_opens : rx_place wire 4 2 0x20385 (store 0x426) opens ≡ some (0, 2)
unfolding get16 find_local_endpoint find_node find_endpoint
place_opens = refl

place_accepts : rx_place wire 4 2 0x20385 (store 0x426) accepts ≡ some (0, 2)
unfolding get16 find_local_endpoint find_node find_endpoint
place_accepts = refl

place_after_opens :
    rx_place wire 4 2 0x20385 (on_open_tx wire 4 2 0x20385 (store 0x426) opens) accepts
    ≡ some (0, 2)
unfolding get16 find_local_endpoint find_node find_endpoint on_open_tx acknowledge answer_open
    ctrl_send msg_send find_route decode_local_endpoint decode_endpoint encode_endpoint put16 put32
    write_bytes
place_after_opens = refl

place_after_accepts :
    rx_place wire 4 2 0x20385 (on_open_rx_ack wire 4 2 0x20385 (store 0x426) accepts) opens
    ≡ some (0, 2)
unfolding get16 get32 find_local_endpoint find_node find_endpoint on_open_rx_ack acknowledge
place_after_accepts = refl

on_open_rx_ack-on_open_tx_example :
    has_flag
      (state_at
        (on_open_rx_ack wire 4 2 0x20385
          (on_open_tx wire 4 2 0x20385 (store 0x426) opens)
          accepts).nodes
        (0, 2))
      endp_connected
    ≡ true
on_open_rx_ack-on_open_tx_example =
    on_open_rx_ack-on_open_tx wire 4 2 0x20385 (store 0x426) opens accepts (0, 2) refl accepted
      place_opens place_after_opens

on_open_tx-on_open_rx_ack_example :
    has_flag
      (state_at
        (on_open_tx wire 4 2 0x20385
          (on_open_rx_ack wire 4 2 0x20385 (store 0x426) accepts)
          opens).nodes
        (0, 2))
      endp_connected
    ≡ true
on_open_tx-on_open_rx_ack_example =
    on_open_tx-on_open_rx_ack wire 4 2 0x20385 (store 0x426) opens accepts (0, 2) refl accepted
      place_accepts place_after_accepts
