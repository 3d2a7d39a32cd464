-- ===== src/Messages/RoundTrip.antt =====
-- A message from `msg_send` over `mcapi_rx_data` to `msg_recv` (libmcapi/mcapi/msg_snd.c, cntrl_msg.c and
-- msg_rcv.c).
use openmcapi_deprecated.Base.{
  ℕ, ◌/◌, ◌%◌, ◌^◌, ◌≤◌, ◌<◌, ◌≡◌, refl, sym, ap, ◌∙◌, Bool, true, false, some, List, [], ◌∷◌, ◌++◌,
  arith, length, get_or, inr, le→leb, ne→==, some-eq,
}
use mathlib.Core.Path.{subst}
use openmcapi_deprecated.Status
use openmcapi_deprecated.Wire.{Buffer, get16}
use openmcapi_deprecated.Packet
use openmcapi_deprecated.Packet.{data_size, payload, header_len, size_bits}
use openmcapi_deprecated.Handle.{decode_endpoint}
use openmcapi_deprecated.Handle.Codec.{decode_endpoint-eq}
use openmcapi_deprecated.Endpoints.{Endpoint, endp_connecting, has_flag}
use openmcapi_deprecated.Nodes.{Node, blank_node}
use openmcapi_deprecated.Nodes.Api.{
  decode_local_endpoint, find_local_endpoint, endpoint_at, set_endpoint,
}
use openmcapi_deprecated.Nodes.Stored.{
  decode_local_endpoint-set_endpoint, decode_local_endpoint-found, endpoint_at-set_endpoint,
  length-set_endpoint, slots-set_endpoint,
}
use openmcapi_deprecated.Requests.{Request}
use openmcapi_deprecated.Suspend.{Waiter}
use openmcapi_deprecated.Messages.{Driver, msg_send}
use openmcapi_deprecated.Messages.Header.{Carries}
use openmcapi_deprecated.Messages.Sending.{CanSend, sending, msg_send-Carries}
use openmcapi_deprecated.Messages.Receive.{receive_request, receive_now, msg_recv}
use openmcapi_deprecated.Messages.Deliver.{RxState, rx_packet}
use openmcapi_deprecated.Messages.Arrival.{NobodyWaits, queued, rx_packet-queued}

-- A handle of an endpoint of a local node that is not part of a connection.
pub record CanReceive (n : ℕ) (nodes : List Node) (handle : ℕ) : Type 0 where
  pub place : ℕ × ℕ
  pub decoded : decode_local_endpoint n nodes handle ≡ inr place
  pub idle : has_flag (endpoint_at nodes place).state endp_connecting ≡ false
  pub has_node : place.0 < length nodes
  pub has_slot : place.1 < length (get_or nodes place.0 blank_node).endpoint_list

module _ (contents : ℕ → Buffer) (n here : ℕ) where
  -- A receive with room for the oldest message of the queue gets its size and its bytes, and removes just
  -- that one; its buffer goes back to the driver, and no request is left pending.
  pub msg_recv-oldest :
      (nodes : List Node) (waiting : List Waiter) (handle size : ℕ) (request : Request)
      (address : ℕ) (timeout : Bool) (b : ℕ) (bs : List ℕ) (c : CanReceive n nodes handle)
      → (endpoint_at nodes c.place).rx_queue ≡ b ∷ bs
      → 0 < size
      → data_size (contents b) ≤ size
      → msg_recv contents n here nodes waiting handle true size true (some request) address timeout
        ≡ record {
          status = some Status.success;
          request = some (record (receive_request contents n here handle size) {
            status = Status.success;
            byte_count = data_size (contents b);
          });
          bytes_recv = some (data_size (contents b));
          bytes = some (payload (contents b));
          nodes = set_endpoint nodes c.place (record (endpoint_at nodes c.place) { rx_queue = bs });
          waiting = waiting;
          recovered = b ∷ [];
        }
  unfolding msg_recv receive_now
  msg_recv-oldest nodes waiting handle size request address timeout b bs c oldest some_room room =
      rw
        (
          msg_recv,
          ne→== size 0 (omega arith),
          c.decoded,
          c.idle,
          receive_now,
          oldest,
          le→leb (data_size (contents b)) size room,
        )
        refl

-- The fields of a packet name the endpoint whose handle it was sent to.
found_by_packet :
    (n : ℕ) (nodes : List Node) (handle : ℕ) (place : ℕ × ℕ) (packet : Buffer) (from : Endpoint)
    (bytes : List ℕ)
    → handle < 2 ^ 32
    → decode_local_endpoint n nodes handle ≡ inr place
    → Carries packet from (decode_endpoint handle).0 (decode_endpoint handle).1 bytes
    → find_local_endpoint n nodes (get16 packet Packet.dest_node) (get16 packet Packet.dest_port)
      ≡ some place
found_by_packet n nodes handle place packet from bytes small decoded carries =
    let split = decode_endpoint-eq handle small in
    let node : get16 packet Packet.dest_node ≡ (decode_endpoint handle).0 =
      let e : (decode_endpoint handle).0 ≡ handle / 2 ^ 16 = ap (λ x. x.0) split in
      omega (arith, carries.to_node, e) in
    let port : get16 packet Packet.dest_port ≡ (decode_endpoint handle).1 =
      let e : (decode_endpoint handle).1 ≡ handle % 2 ^ 16 = ap (λ x. x.1) split in
      omega (arith, carries.to_port, e) in
    rw (node, port) (decode_local_endpoint-found n nodes handle place decoded)

-- The nodes after the receive queue was changed still let the endpoint receive.
pub requeued-CanReceive :
    (n : ℕ) (nodes : List Node) (handle : ℕ) (q : List ℕ) (r : CanReceive n nodes handle)
    → (r' : CanReceive n
        (set_endpoint nodes r.place (record (endpoint_at nodes r.place) { rx_queue = q }))
        handle)
      × ((endpoint_at
            (set_endpoint nodes r.place (record (endpoint_at nodes r.place) { rx_queue = q }))
            r'.place).rx_queue
          ≡ q)
requeued-CanReceive n nodes handle q r =
    let e = record (endpoint_at nodes r.place) { rx_queue = q } in
    let i = r.place.0 in
    let k = r.place.1 in
    let entry = endpoint_at-set_endpoint n nodes i k e r.has_node r.has_slot refl refl in
    (
      record {
        place = r.place;
        decoded =
            decode_local_endpoint-set_endpoint n nodes i k e r.has_node r.has_slot refl refl handle
            ∙ r.decoded;
        idle = ap (λ x. has_flag x.state endp_connecting) entry ∙ r.idle;
        has_node =
            omega (
              arith,
              length-set_endpoint n nodes i k e r.has_node r.has_slot refl refl,
              r.has_node,
            );
        has_slot =
            omega
              (arith, slots-set_endpoint n nodes i k e r.has_node r.has_slot refl refl, r.has_slot);
      },
      ap (λ x. x.rx_queue) entry,
    )

module _ {D E : Type 0} (driver : Driver D) (n here : ℕ) (d : D) (nodes : List Node) (from to : ℕ)
    (bytes : List ℕ) (priority : ℕ) (request : Request)
    (c : CanSend driver n d nodes from to (length bytes) priority) (receiver : Driver E)
    (contents : ℕ → Buffer) (there : ℕ) (forwarding : Bool) (s : RxState E) (b : ℕ)
    (r : CanReceive n s.nodes to) where
  -- A message that `msg_send` has handed to the interface arrives at a node with the endpoint of its
  -- destination handle, where nothing is queued and nobody waits: a receive with room for it then gets
  -- exactly the bytes that were sent.
  pub msg_recv-rx_packet-msg_send :
      (size : ℕ) (mine : Request) (address : ℕ) (timeout : Bool)
      → to < 2 ^ 32
      → (msg_send driver n here d nodes from to
          (some bytes)
          (length bytes)
          priority
          (some request)).packet
        ≡ some (contents b)
      → (endpoint_at s.nodes r.place).rx_queue ≡ []
      → NobodyWaits (endpoint_at s.nodes r.place).endp_handle s.waiting
      → 0 < size
      → length bytes ≤ size
      → (s' : RxState E) × (rx_packet receiver contents n there forwarding s b ≡ some s')
        × ((msg_recv contents n there s'.nodes s'.waiting to true size true
              (some mine)
              address
              timeout).status
            ≡ some Status.success)
        × ((msg_recv contents n there s'.nodes s'.waiting to true size true
              (some mine)
              address
              timeout).bytes
            ≡ some bytes)
  msg_recv-rx_packet-msg_send size mine address timeout small sent empty free some_room room =
      let (p, q, handed, carries, _, _, _) =
        msg_send-Carries driver n here d nodes from to bytes priority request c in
      let same : p ≡ contents b = some-eq (sym handed ∙ sent) in
      let arrived : Carries (contents b) (sending c) (decode_endpoint to).0 (decode_endpoint to).1
          bytes =
        subst (λ x. Carries x (sending c) (decode_endpoint to).0 (decode_endpoint to).1 bytes) same
          carries in
      let found =
        found_by_packet n s.nodes to r.place (contents b) (sending c) bytes small r.decoded
          arrived in
      let (r', one) =
        requeued-CanReceive n s.nodes to ((endpoint_at s.nodes r.place).rx_queue ++ (b ∷ [])) r in
      let got =
        msg_recv-oldest contents n there (queued s.nodes r.place (b ∷ [])) s.waiting to size mine
          address timeout b [] r' (one ∙ ap (λ q. q ++ (b ∷ [])) empty) some_room
          (omega (arith, arrived.data_len)) in
      (
        record s { nodes = queued s.nodes r.place (b ∷ []) },
        rx_packet-queued receiver contents n there forwarding s b r.place found free,
        ap (λ m. m.status) got,
        ap (λ m. m.bytes) got ∙ ap some arrived.carried,
      )
