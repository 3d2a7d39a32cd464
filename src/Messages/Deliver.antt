-- ===== src/Messages/Deliver.antt =====
-- Packets that arrive from the interfaces: `mcapi_rx_data` of libmcapi/mcapi/cntrl_msg.c, and
-- `mcapi_forward` of forward.c in the same folder. `forwarding` is MCAPI_ENABLE_FORWARDING. A buffer is its
-- address, `contents` gives its bytes. `none` stands for a read through a null pointer.
use openmcapi_deprecated.Base.{
  ℕ, Bool, Option, none, some, List, [], ◌∷◌, ◌++◌, ◌==◌, if◌then◌else◌, get_or, length, ◌>>=◌,
}
use openmcapi_deprecated.Status
use openmcapi_deprecated.Wire.{Buffer, get16}
use openmcapi_deprecated.Packet
use openmcapi_deprecated.Packet.{data_size}
use openmcapi_deprecated.Nodes.{Node, blank_node, find_node, find_route}
use openmcapi_deprecated.Nodes.Api.{find_local_endpoint, endpoint_at, set_endpoint}
use openmcapi_deprecated.Suspend.{req_rx_fin, Waiter, Woken, check_resume}
use openmcapi_deprecated.Messages.{Driver}

-- What the reception changes: the nodes, the queue of pending requests, the requests that were resumed,
-- MCAPI_Buf_Wait_List, and the hardware.
pub record RxState (D : Type 0) : Type 0 where
  pub nodes : List Node
  pub waiting : List Waiter
  pub woken : List Woken
  pub wait_list : List ℕ
  pub driver : D

module _ {D : Type 0} (driver : Driver D) (contents : ℕ → Buffer) (max_endpoints here : ℕ)
    (forwarding : Bool) where
  -- `mcapi_recover_buffer` of the interface of a buffer.
  abbrev pub give_back : RxState D → ℕ → RxState D
  give_back s b = record s { driver = driver.recover_buffer s.driver b }

  abbrev pub recover_each : D → List ℕ → D
  recover_each d [] = d
  recover_each d (b ∷ bs) = recover_each (driver.recover_buffer d b) bs

  -- `mcapi_forward`
  unfoldable pub forward : RxState D → ℕ → ℕ → RxState D
  forward s b dest_node = elim (find_node here s.nodes) [
    | none ↦ give_back s b
    | some i ↦ elim (find_route dest_node (get_or s.nodes i blank_node)) [
      | none ↦ give_back s b
      | some r ↦
          let packet = contents b in
          let (status, d) =
            driver.tx_output s.driver b packet (length packet) (get16 packet Packet.prio) none in
          if status == Status.success
          then record s { driver = d }
          else give_back (record s { driver = d }) b
    ]
  ]

  -- A packet for the endpoint at a place.
  unfoldable pub deliver : RxState D → ℕ → ℕ × ℕ → Option (RxState D)
  deliver s b place =
      let endp = endpoint_at s.nodes place in
      let queued = record endp { rx_queue = endp.rx_queue ++ (b ∷ []) } in
      let size = data_size (contents b) in
      elim (check_resume contents req_rx_fin endp.endp_handle queued size Status.success
        s.waiting) [
          | none ↦ none
          | some r ↦ some record {
            nodes = set_endpoint s.nodes place (record queued { rx_queue = r.rx_queue });
            waiting = r.waiting;
            woken = s.woken ++ r.woken;
            wait_list = s.wait_list ++ r.wait_list;
            driver = recover_each s.driver r.recovered;
          }
        ]

  -- The body of the `while` of `mcapi_rx_data`.
  unfoldable pub rx_packet : RxState D → ℕ → Option (RxState D)
  unfolding deliver forward
  rx_packet s b =
      let dest_node = get16 (contents b) Packet.dest_node in
      let dest_port = get16 (contents b) Packet.dest_port in
      elim (find_local_endpoint max_endpoints s.nodes dest_node dest_port) [
        | some place ↦ deliver s b place
        | none ↦ some (if forwarding then forward s b dest_node else give_back s b)
      ]

  -- The `while` on a receive queue: no packet is added to it meanwhile.
  unfoldable pub rx_queue : RxState D → List ℕ → Option (RxState D)
  unfolding rx_packet
  rx_queue s [] = some s
  rx_queue s (b ∷ bs) = do s' ← rx_packet s b; rx_queue s' bs

  -- `mcapi_rx_data`, on the receive queues by their priorities.
  unfoldable pub rx_data : RxState D → List (List ℕ) → Option (RxState D)
  unfolding rx_queue
  rx_data s [] = some s
  rx_data s (q ∷ qs) = do s' ← rx_queue s q; rx_data s' qs
