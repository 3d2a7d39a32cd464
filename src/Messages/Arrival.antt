-- ===== src/Messages/Arrival.antt =====
-- Packets that arrive for an endpoint on which nobody waits: `mcapi_rx_data` of libmcapi/mcapi/cntrl_msg.c.
use openmcapi_deprecated.Base.{
  ℕ, ◌<◌, ◌≡◌, refl, ap, ◌∙◌, Bool, false, Option, some, List, [], ◌∷◌, ◌++◌, arith, length, get_or,
}
use openmcapi_deprecated.Status
use openmcapi_deprecated.Wire.{Buffer, get16}
use openmcapi_deprecated.Packet
use openmcapi_deprecated.Packet.{data_size}
use openmcapi_deprecated.Endpoints.{Endpoint}
use openmcapi_deprecated.Nodes.{Node, blank_node}
use openmcapi_deprecated.Nodes.Api.{find_local_endpoint, endpoint_at, set_endpoint}
use openmcapi_deprecated.Nodes.Stored.{
  endpoint_at-set_endpoint, find_local_endpoint-set_endpoint, set_endpoint_same,
  set_endpoint-set_endpoint, length-set_endpoint, slots-set_endpoint,
}
use openmcapi_deprecated.Suspend.{
  req_rx_fin, Waiter, wants, resume_from, check_resume, settle, first_buffer,
}
use openmcapi_deprecated.Suspend.Resume.{Each}
use openmcapi_deprecated.Messages.{Driver}
use openmcapi_deprecated.Messages.Deliver.{RxState, deliver, rx_packet, rx_queue}

-- No request of a queue waits for data on an endpoint.
abbrev pub NobodyWaits : ℕ → List Waiter → Type 0
NobodyWaits endpoint = Each (λ w. wants req_rx_fin endpoint w.request ≡ false)

resume_from-NobodyWaits :
    (contents : ℕ → Buffer) (endpoint : ℕ) (first : Option ℕ) (n status : ℕ) (ws : List Waiter)
    → NobodyWaits endpoint ws
    → resume_from contents req_rx_fin endpoint first n status ws ≡ some (ws, [], false)
unfolding resume_from Each
resume_from-NobodyWaits contents endpoint first n status [] free = refl
resume_from-NobodyWaits contents endpoint first n status (w ∷ ws) (one, free) =
    rw (resume_from, one, resume_from-NobodyWaits contents endpoint first n status ws free) refl

-- A place where the endpoint with a node and a port is.
pub record IsAt (n : ℕ) (nodes : List Node) (node port : ℕ) (place : ℕ × ℕ) : Type 0 where
  pub found : find_local_endpoint n nodes node port ≡ some place
  pub has_node : place.0 < length nodes
  pub has_slot : place.1 < length (get_or nodes place.0 blank_node).endpoint_list

append_assoc : (xs ys zs : List ℕ) → (xs ++ ys) ++ zs ≡ xs ++ (ys ++ zs)
append_assoc [] ys zs = refl
append_assoc (x ∷ xs) ys zs = ap (λ t. x ∷ t) (append_assoc xs ys zs)

append_nil {ℓ} : {A : Type ℓ} (xs : List A) → xs ++ [] ≡ xs
append_nil [] = refl
append_nil (x ∷ xs) = ap (λ t. x ∷ t) (append_nil xs)

-- The endpoint with packets at the end of its receive queue.
abbrev appended : List Node → ℕ × ℕ → List ℕ → Endpoint
appended nodes place bs =
    let endp = endpoint_at nodes place in record endp { rx_queue = endp.rx_queue ++ bs }

-- The nodes with a packet at the end of the receive queue of the endpoint at a place.
abbrev pub queued : List Node → ℕ × ℕ → List ℕ → List Node
queued nodes place bs =
    let endp = endpoint_at nodes place in
    set_endpoint nodes place (record endp { rx_queue = endp.rx_queue ++ bs })

module _ {D : Type 0} (driver : Driver D) (contents : ℕ → Buffer) (n here : ℕ)
    (forwarding : Bool) where
  pub rx_packet-queued :
      (s : RxState D) (b : ℕ) (place : ℕ × ℕ)
      → find_local_endpoint n s.nodes
          (get16 (contents b) Packet.dest_node)
          (get16 (contents b) Packet.dest_port)
        ≡ some place
      → NobodyWaits (endpoint_at s.nodes place).endp_handle s.waiting
      → rx_packet driver contents n here forwarding s b
        ≡ some (record s { nodes = queued s.nodes place (b ∷ []) })
  unfolding rx_packet deliver check_resume settle
  rx_packet-queued s b place found free =
      let endp = endpoint_at s.nodes place in
      rw
        (
          rx_packet,
          found,
          deliver,
          check_resume,
          resume_from-NobodyWaits contents endp.endp_handle
              (first_buffer (endp.rx_queue ++ (b ∷ []))) (data_size (contents b)) Status.success
              s.waiting free,
          append_nil s.woken,
          append_nil s.wait_list,
        )
        refl

  -- The packets for a node and a port.
  unfoldable pub Addressed : ℕ → ℕ → List ℕ → Type 0
  Addressed node port [] = Unit
  Addressed node port (b ∷ bs) =
      ((get16 (contents b) Packet.dest_node ≡ node) × (get16 (contents b) Packet.dest_port ≡ port))
      × Addressed node port bs

  queued-IsAt :
      (nodes : List Node) (node port : ℕ) (place : ℕ × ℕ) (bs : List ℕ)
      → IsAt n nodes node port place
      → IsAt n (queued nodes place bs) node port place
  queued-IsAt nodes node port place bs at = record {
    found =
        find_local_endpoint-set_endpoint n nodes place.0 place.1 (appended nodes place bs)
          at.has_node at.has_slot refl refl node port
        ∙ at.found;
    has_node = omega (
      arith,
      length-set_endpoint n nodes place.0 place.1 (appended nodes place bs) at.has_node at.has_slot
          refl refl,
      at.has_node,
    );
    has_slot = omega (
      arith,
      slots-set_endpoint n nodes place.0 place.1 (appended nodes place bs) at.has_node at.has_slot
          refl refl,
      at.has_slot,
    );
  }

  queued-entry :
      (nodes : List Node) (node port : ℕ) (place : ℕ × ℕ) (bs : List ℕ)
      → IsAt n nodes node port place
      → endpoint_at (queued nodes place bs) place ≡ appended nodes place bs
  queued-entry nodes node port place bs at =
      endpoint_at-set_endpoint n nodes place.0 place.1 (appended nodes place bs) at.has_node
        at.has_slot refl refl

  queued-queued :
      (nodes : List Node) (node port : ℕ) (place : ℕ × ℕ) (b : ℕ) (bs : List ℕ)
      → IsAt n nodes node port place
      → queued (queued nodes place (b ∷ [])) place bs ≡ queued nodes place (b ∷ bs)
  queued-queued nodes node port place b bs at =
      let endp = endpoint_at nodes place in
      let one = queued nodes place (b ∷ []) in
      ap (λ x. set_endpoint one place (record x { rx_queue = x.rx_queue ++ bs }))
        (queued-entry nodes node port place (b ∷ []) at)
      ∙ set_endpoint-set_endpoint nodes place.0 place.1 (appended nodes place (b ∷ []))
          (record endp { rx_queue = (endp.rx_queue ++ (b ∷ [])) ++ bs }) at.has_node
      ∙ ap (λ q. set_endpoint nodes place (record endp { rx_queue = q }))
          (append_assoc endp.rx_queue (b ∷ []) bs)

  -- Packets for an endpoint on which nobody waits are appended to its receive queue in the order in which
  -- they arrive, and nothing else changes.
  pub rx_queue-InOrder :
      (s : RxState D) (node port : ℕ) (place : ℕ × ℕ) (bs : List ℕ)
      → IsAt n s.nodes node port place
      → NobodyWaits (endpoint_at s.nodes place).endp_handle s.waiting
      → Addressed node port bs
      → rx_queue driver contents n here forwarding s bs
        ≡ some (record s { nodes = queued s.nodes place bs })
  unfolding rx_queue Addressed
  rx_queue-InOrder s node port place [] at free to =
      let endp = endpoint_at s.nodes place in
      rw (append_nil endp.rx_queue, set_endpoint_same s.nodes place.0 place.1) refl
  rx_queue-InOrder s node port place (b ∷ bs) at free ((to_node, to_port), to) =
      let found : find_local_endpoint n s.nodes (get16 (contents b) Packet.dest_node)
            (get16 (contents b) Packet.dest_port)
          ≡ some place =
        rw (to_node, to_port) at.found in
      let s' = record s { nodes = queued s.nodes place (b ∷ []) } in
      let handle : (endpoint_at s'.nodes place).endp_handle
          ≡ (endpoint_at s.nodes place).endp_handle =
        ap (λ x. x.endp_handle) (queued-entry s.nodes node port place (b ∷ []) at) in
      rw (rx_queue, rx_packet-queued s b place found free)
        (rx_queue-InOrder s' node port place bs (queued-IsAt s.nodes node port place (b ∷ []) at)
            (rw handle free) to
          ∙ ap (λ ns. some (record s { nodes = ns }))
              (queued-queued s.nodes node port place b bs at))
