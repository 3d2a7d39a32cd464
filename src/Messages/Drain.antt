-- ===== src/Messages/Drain.antt =====
-- Receiving one message after the other with `msg_recv` (libmcapi/mcapi/msg_rcv.c).
use openmcapi_deprecated.Base.{
  ℕ, zero, suc, ◌+◌, ◌^◌, ◌≤◌, ◌<◌, ◌≡◌, refl, sym, ap, ◌∙◌, Bool, true, Option, some, List, [],
  ◌∷◌, ◌++◌, arith, length, map, length-append,
}
use openmcapi_deprecated.Status
use openmcapi_deprecated.Wire.{Buffer}
use openmcapi_deprecated.Packet.{drop, data_size, payload}
use openmcapi_deprecated.Nodes.{Node}
use openmcapi_deprecated.Nodes.Api.{endpoint_at}
use openmcapi_deprecated.Requests.{Request}
use openmcapi_deprecated.Suspend.{Waiter}
use openmcapi_deprecated.Messages.Receive.{msg_recv}
use openmcapi_deprecated.Messages.RoundTrip.{CanReceive, msg_recv-oldest, requeued-CanReceive}

drop-append : (header bytes : List ℕ) → drop (length header) (header ++ bytes) ≡ bytes
drop-append [] bytes = refl
drop-append (b ∷ header) bytes = drop-append header bytes

-- A packet with a header of 12 bytes.
payload-append :
    (b : Buffer) (header bytes : List ℕ)
    → b ≡ header ++ bytes
    → length header ≡ 12
    → payload b ≡ bytes
payload-append b header bytes e h =
    rw e (ap (λ k. drop k (header ++ bytes)) (sym h) ∙ drop-append header bytes)

data_size-append :
    (b : Buffer) (header bytes : List ℕ)
    → b ≡ header ++ bytes
    → length header ≡ 12
    → length bytes + 12 < 2 ^ 32
    → data_size b ≡ length bytes
data_size-append b header bytes e h small =
    let l : length b ≡ length bytes + 12 = omega (arith, ap length e, length-append header bytes) in
    omega (arith, l)

-- What a call of `msg_recv` tells its caller: the status, the number of bytes and the bytes.
abbrev pub Answer : Type 0
Answer = Option ℕ × Option ℕ × Option (List ℕ)

module _ (contents : ℕ → Buffer) (size : ℕ) where
  -- The buffers of a receive queue, and the messages in them: behind a header of 12 bytes stands a message that fits
  -- into `size` bytes, and the packet is shorter than 2 ^ 32 bytes.
  pub data Holds : List ℕ → List (List ℕ) → Type 0 where
    no_more : Holds [] []
    one_more :
        {b : ℕ} {bs : List ℕ} {ms : List (List ℕ)}
        → (header message : List ℕ) → contents b ≡ header ++ message
        → length header ≡ 12
        → length message ≤ size
        → length message + 12 < 2 ^ 32
        → Holds bs ms
        → Holds (b ∷ bs) (message ∷ ms)

  module _ (n here handle : ℕ) (request : Request) (address : ℕ) (timeout : Bool) where
    -- As many calls of `msg_recv` as a number says: the answers, the buffers given back, the nodes, and the
    -- pending requests.
    unfoldable pub receive_each :
        ℕ → List Node → List Waiter → List Answer × List ℕ × List Node × List Waiter
    receive_each zero nodes waiting = ([], [], nodes, waiting)
    receive_each (suc k) nodes waiting =
        let m =
          msg_recv contents n here nodes waiting handle true size true (some request) address
            timeout in
        let (answers, given_back, nodes', waiting') = receive_each k m.nodes m.waiting in
        ((m.status, m.bytes_recv, m.bytes) ∷ answers, m.recovered ++ given_back, nodes', waiting')

    -- The answer to a receive that gets a message.
    abbrev pub got : List ℕ → Answer
    got message = (some Status.success, some (length message), some message)

    -- Of an unconnected local endpoint whose receive queue holds messages that fit, each behind a header of 12
    -- bytes, as many calls of `msg_recv` as there are messages return success and the messages, each once and in
    -- the order of the queue, with their sizes; all buffers are given back in that order, the receive queue is empty
    -- afterwards, and no request is left pending that was not before.
    pub receive_each-Holds :
        (bs : List ℕ) (ms : List (List ℕ)) (nodes : List Node) (waiting : List Waiter)
        (c : CanReceive n nodes handle)
        → 0 < size
        → (endpoint_at nodes c.place).rx_queue ≡ bs
        → Holds bs ms
        → (nodes' : List Node) × (receive_each (length bs) nodes waiting
            ≡ (map got ms, bs, nodes', waiting))
          × (c' : CanReceive n nodes' handle) × ((endpoint_at nodes' c'.place).rx_queue ≡ [])
    unfolding receive_each
    receive_each-Holds [] [] nodes waiting c some_room queued no_more = (nodes, refl, c, queued)
    receive_each-Holds [] (message ∷ ms) nodes waiting c some_room queued h = elim h [ ]
    receive_each-Holds (b ∷ bs) [] nodes waiting c some_room queued h = elim h [ ]
    receive_each-Holds (b ∷ bs) (message ∷ ms) nodes waiting c some_room queued
          (one_more header bytes e h fits small rest) =
        let size_is = data_size-append (contents b) header message e h small in
        let bytes_are = payload-append (contents b) header message e h in
        let (c₁, left) = requeued-CanReceive n nodes handle bs c in
        let (nodes', ran, c', empty) = receive_each-Holds bs ms _ waiting c₁ some_room left rest in
        let one =
          msg_recv-oldest contents n here nodes waiting handle size request address timeout b bs c
            queued some_room (omega (arith, size_is)) in
        (nodes', rw (receive_each, one, ran, size_is, bytes_are) refl, c', empty)
