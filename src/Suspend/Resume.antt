-- ===== src/Suspend/Resume.antt =====
-- The results of `mcapi_check_resume` (libmcapi/mcapi/suspend.c) by the kind of event.
use openmcapi_deprecated.Base.{
  ℕ, ◌≤◌, Bool, true, false, ◌&&◌, ◌≡◌, ◌≢◌, refl, ap, ◌∙◌, Option, some, List, [], ◌∷◌, ◌==◌, leb,
  if◌then◌else◌, map, ne→==, eq→==, le→leb, gt→leb, Bool-cases, inl, inr, arith,
}
use openmcapi_deprecated.Status
use openmcapi_deprecated.Wire.{Buffer}
use openmcapi_deprecated.Packet.{data_size, payload}
use openmcapi_deprecated.Endpoints.{Endpoint}
use openmcapi_deprecated.Nodes.{req_created}
use openmcapi_deprecated.Suspend.{
  Waiter, Woken, Delivery, Resumed, nothing, endpoint_handle, message, packet_buffer, req_tx_fin,
  req_rx_fin, msg_type, chan_pkt_type, serve, receive, resume, settle, check_resume, with_bytes,
  first_buffer,
}
use openmcapi_deprecated.Suspend.Walk.{Outcome, taken, left, walk, resume_from-walk}

-- What an event that brings no data gives to a request.
abbrev event_served : ℕ → ℕ → ℕ → Waiter → Waiter × Delivery
event_served kind endpoint byte_count w =
    if kind == req_tx_fin
    then (with_bytes w byte_count, nothing)
    else (if (kind == req_created) && w.has_endp_ptr
        then (w, endpoint_handle endpoint)
        else (w, nothing))

abbrev pub event_woken : ℕ → ℕ → ℕ → ℕ → Waiter → Woken
event_woken kind endpoint byte_count status w =
    let (w', delivery) = event_served kind endpoint byte_count w in resume w' status delivery

abbrev event_outcome : ℕ → ℕ → ℕ → ℕ → Waiter → Outcome
event_outcome kind endpoint byte_count status w =
    let (w', delivery) = event_served kind endpoint byte_count w in (w', status, delivery, false)

walk-event_outcome :
    (kind endpoint byte_count status : ℕ) (ws : List Waiter)
    → walk (event_outcome kind endpoint byte_count) status ws
      ≡ (map (event_woken kind endpoint byte_count status) ws, false)
unfolding walk
walk-event_outcome kind endpoint byte_count status [] = refl
walk-event_outcome kind endpoint byte_count status (w ∷ ws) =
    rw (walk-event_outcome kind endpoint byte_count status ws) refl

module _ (contents : ℕ → Buffer) (endpoint : ℕ) (endp : Endpoint) (byte_count status : ℕ) where
  serve-event_outcome :
      (kind : ℕ) (first : Option ℕ) (s : ℕ) (w : Waiter)
      → kind ≢ req_rx_fin
      → serve contents kind endpoint first byte_count s w
        ≡ some (event_outcome kind endpoint byte_count s w)
  unfolding serve
  serve-event_outcome kind first s w ne = rw (ne→== kind req_rx_fin ne) (ground arith)

  -- On every event but the arrival of data, no status is changed on the way and the queue is parted by the
  -- condition `wants`.
  pub check_resume-event :
      (kind : ℕ) (queue : List Waiter)
      → kind ≢ req_rx_fin
      → check_resume contents kind endpoint endp byte_count status queue
        ≡ some record {
          waiting = left kind endpoint queue;
          woken = map (event_woken kind endpoint byte_count status) (taken kind endpoint queue);
          rx_queue = endp.rx_queue;
          wait_list = [];
          recovered = [];
        }
  unfolding check_resume settle
  check_resume-event kind queue ne =
      rw
        (
          resume_from-walk contents kind endpoint (first_buffer endp.rx_queue) byte_count
              (event_outcome kind endpoint byte_count)
              (λ s w. serve-event_outcome kind (first_buffer endp.rx_queue) s w ne) status queue,
          walk-event_outcome kind endpoint byte_count status (taken kind endpoint queue),
        )
        refl

abbrev pub woken_status : Woken → ℕ
woken_status v = v.waiter.request.status

-- A pending message receive whose buffer has room for n bytes, and one whose buffer has not.
unfoldable pub Fits : ℕ → Waiter → Type 0
Fits n w = (w.request.chan_type ≡ msg_type) × (n ≤ w.request.buf_size)

unfoldable pub TooSmall : ℕ → Waiter → Type 0
TooSmall n w = (w.request.chan_type ≡ msg_type) × ¬ n ≤ w.request.buf_size

unfoldable pub Each : (Waiter → Type 0) → List Waiter → Type 0
Each P [] = Unit
Each P (w ∷ ws) = P w × Each P ws

module _ (contents : ℕ → Buffer) (b byte_count : ℕ) where
  -- What the arrival of data gives to a request.
  abbrev rx_outcome : ℕ → Waiter → Outcome
  rx_outcome status w =
      if w.request.chan_type == msg_type
      then (if leb byte_count w.request.buf_size
          then (with_bytes w (data_size (contents b)), status, message (payload (contents b)), true)
          else (w, Status.err_msg_truncated, nothing, false))
      else (if w.request.chan_type == chan_pkt_type
          then (with_bytes w (data_size (contents b)), status, packet_buffer b, true)
          else (w, status, nothing, false))

  serve-rx_outcome :
      (endpoint status : ℕ) (w : Waiter)
      → serve contents req_rx_fin endpoint (some b) byte_count status w ≡ some (rx_outcome status w)
  unfolding serve receive
  serve-rx_outcome endpoint status w = ground arith

  -- A request that gets the whole message.
  abbrev pub got_message : ℕ → Waiter → Woken
  got_message status w =
      resume (with_bytes w (data_size (contents b))) status (message (payload (contents b)))

  walk-Fits :
      (status : ℕ) (ws : List Waiter)
      → Each (Fits byte_count) ws
      → (walk rx_outcome status ws).0 ≡ map (got_message status) ws
  unfolding walk Each Fits
  walk-Fits status [] fit = refl
  walk-Fits status (w ∷ ws) ((is_msg, room), fit) =
      rw
        (
          eq→== w.request.chan_type msg_type is_msg,
          le→leb byte_count w.request.buf_size room,
          walk-Fits status ws fit,
        )
        refl

  walk-copied :
      (status : ℕ) (w : Waiter) (ws : List Waiter)
      → Fits byte_count w
      → (walk rx_outcome status (w ∷ ws)).1 ≡ true
  unfolding walk Fits
  walk-copied status w ws (is_msg, room) =
      rw (eq→== w.request.chan_type msg_type is_msg, le→leb byte_count w.request.buf_size room) refl

  walk-status :
      (ws : List Waiter)
      → map woken_status (walk rx_outcome Status.err_msg_truncated ws).0
        ≡ map (λ w. Status.err_msg_truncated) ws
  unfolding walk
  walk-status [] = refl
  walk-status (w ∷ ws) = elim (Bool-cases (w.request.chan_type == msg_type)) [
    | inl m ↦ elim (Bool-cases (leb byte_count w.request.buf_size)) [
      | inl r ↦ rw (m, r, walk-status ws) refl
      | inr r ↦ rw (m, r, walk-status ws) refl
    ]
    | inr m ↦ elim (Bool-cases (w.request.chan_type == chan_pkt_type)) [
      | inl r ↦ rw (m, r, walk-status ws) refl
      | inr r ↦ rw (m, r, walk-status ws) refl
    ]
  ]

  walk-TooSmall :
      (status : ℕ) (w : Waiter) (ws : List Waiter)
      → TooSmall byte_count w
      → map woken_status (walk rx_outcome status (w ∷ ws)).0
        ≡ map (λ w. Status.err_msg_truncated) (w ∷ ws)
  unfolding walk TooSmall
  walk-TooSmall status w ws (is_msg, room) =
      rw
        (
          eq→== w.request.chan_type msg_type is_msg,
          gt→leb byte_count w.request.buf_size room,
          walk-status ws,
        )
        refl

settle-cons :
    (endp : Endpoint) {b : ℕ} {bs : List ℕ}
    → endp.rx_queue ≡ b ∷ bs
    → (waiting : List Waiter) (woken : List Woken) (copied : Bool)
    → (r : Resumed) × (settle endp (waiting, woken, copied) ≡ some r) × (r.woken ≡ woken)
unfolding settle
settle-cons endp queued waiting woken true = rw queued (_, refl, refl)
settle-cons endp queued waiting woken false = (_, refl, refl)

module _ (contents : ℕ → Buffer) (endpoint : ℕ) (endp : Endpoint) (b : ℕ) (bs : List ℕ)
    (byte_count status : ℕ) (queue : List Waiter) (w : Waiter) (ws : List Waiter) where
  -- Data arrives on an endpoint of no packet channel for receives that all have room for it: each of
  -- them is resumed with the status given, and gets the size and the whole of the oldest message; the
  -- requests that wait for something else stay in their order; the message leaves the receive queue and
  -- its buffer goes back to the driver.
  pub check_resume-received :
      endp.rx_queue ≡ b ∷ bs
      → endp.chan_type ≢ chan_pkt_type
      → taken req_rx_fin endpoint queue ≡ w ∷ ws
      → Each (Fits byte_count) (w ∷ ws)
      → check_resume contents req_rx_fin endpoint endp byte_count status queue
        ≡ some record {
          waiting = left req_rx_fin endpoint queue;
          woken = map (got_message contents b byte_count status) (w ∷ ws);
          rx_queue = bs;
          wait_list = [];
          recovered = b ∷ [];
        }
  unfolding check_resume settle Each
  check_resume-received queued no_pkt some_wait fit =
      let copied = walk-copied contents b byte_count status w ws fit.0 in
      let woken = walk-Fits contents b byte_count status (w ∷ ws) fit in
      rw
        (
          queued,
          resume_from-walk contents req_rx_fin endpoint (some b) byte_count
              (rx_outcome contents b byte_count) (serve-rx_outcome contents b byte_count endpoint)
              status queue,
          some_wait,
          copied,
          woken,
          ne→== endp.chan_type chan_pkt_type no_pkt,
        )
        refl

  -- When the first receive that waits for the data has no room for it, every receive that is resumed
  -- with it has the status MCAPI_ERR_MSG_TRUNCATED, also one whose buffer gets the whole message.
  pub check_resume-TooSmall :
      endp.rx_queue ≡ b ∷ bs
      → taken req_rx_fin endpoint queue ≡ w ∷ ws
      → TooSmall byte_count w
      → (r : Resumed) × (check_resume contents req_rx_fin endpoint endp byte_count status queue
          ≡ some r)
        × (map woken_status r.woken ≡ map (λ w. Status.err_msg_truncated) (w ∷ ws))
  unfolding check_resume
  check_resume-TooSmall queued some_wait small =
      let copied = (walk (rx_outcome contents b byte_count) status (w ∷ ws)).1 in
      let woken = (walk (rx_outcome contents b byte_count) status (w ∷ ws)).0 in
      let ran : check_resume contents req_rx_fin endpoint endp byte_count status queue
          ≡ settle endp (left req_rx_fin endpoint queue, woken, copied) =
        rw
          (
            queued,
            resume_from-walk contents req_rx_fin endpoint (some b) byte_count
                (rx_outcome contents b byte_count) (serve-rx_outcome contents b byte_count endpoint)
                status queue,
            some_wait,
          )
          refl in
      let (r, e, same) = settle-cons endp queued (left req_rx_fin endpoint queue) woken copied in
      (
        r,
        ran ∙ e,
        ap (map woken_status) same ∙ walk-TooSmall contents b byte_count status w ws small,
      )
