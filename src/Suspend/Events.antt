-- ===== src/Suspend/Events.antt =====
-- Which requests `mcapi_check_resume` (libmcapi/mcapi/suspend.c) resumes on an event that brings no data, and what
-- they get, described apart from the code.
use openmcapi_deprecated.Base.{
  ℕ, true, ◌&&◌, ◌≡◌, ◌≢◌, refl, sym, inl, inr, some, List, [], ◌∷◌, ◌==◌, ==→eq, if◌then◌else◌,
  map, Bool-cases, arith,
}
use mathlib.Core.Path.{subst}
use native.Mathlib.Decide.{ℕ_discrete}
use openmcapi_deprecated.Wire.{Buffer}
use openmcapi_deprecated.Handle.{encode_endpoint}
use openmcapi_deprecated.Endpoints.{Endpoint}
use openmcapi_deprecated.Nodes.{req_deleted, req_created}
use openmcapi_deprecated.Channels.{req_rx_open, req_tx_open, req_closed}
use openmcapi_deprecated.Requests.{Request}
use openmcapi_deprecated.Suspend.{
  Waiter, Woken, nothing, endpoint_handle, req_tx_fin, req_rx_fin, req_connected, wants,
  check_resume,
}
use openmcapi_deprecated.Suspend.Walk.{taken, left}
use openmcapi_deprecated.Suspend.Resume.{event_woken, check_resume-event}

-- A request that an event on an endpoint resumes.
pub data Awaits (endpoint : ℕ) (r : Request) : ℕ → Type 0 where
  -- The endpoint is deleted, and the request is to send, to receive, to open or to connect there.
  sending : r.type ≡ req_tx_fin → r.target_endp ≡ endpoint → Awaits endpoint r req_deleted
  opening_tx : r.type ≡ req_tx_open → r.target_endp ≡ endpoint → Awaits endpoint r req_deleted
  receiving : r.type ≡ req_rx_fin → r.target_endp ≡ endpoint → Awaits endpoint r req_deleted
  opening_rx : r.type ≡ req_rx_open → r.target_endp ≡ endpoint → Awaits endpoint r req_deleted
  connecting : r.type ≡ req_connected → r.target_endp ≡ endpoint → Awaits endpoint r req_deleted
  -- A connection is closed, or a side of it has been opened: whatever the request is for.
  closed : r.target_endp ≡ endpoint → Awaits endpoint r req_closed
  opened_tx : r.target_endp ≡ endpoint → Awaits endpoint r req_tx_open
  opened_rx : r.target_endp ≡ endpoint → Awaits endpoint r req_rx_open
  -- Data was sent or has arrived, or the connection was made, and the request is for that.
  sent : r.type ≡ req_tx_fin → r.target_endp ≡ endpoint → Awaits endpoint r req_tx_fin
  arrived : r.type ≡ req_rx_fin → r.target_endp ≡ endpoint → Awaits endpoint r req_rx_fin
  connected : r.type ≡ req_connected → r.target_endp ≡ endpoint → Awaits endpoint r req_connected
  -- An endpoint was created, and the request is for the endpoint of its node and port.
  created :
      r.type ≡ req_created
      → encode_endpoint r.target_node_id r.target_port_id ≡ endpoint
      → Awaits endpoint r req_created

Awaits-wants :
    {kind endpoint : ℕ} {r : Request} → Awaits endpoint r kind → wants kind endpoint r ≡ true
unfolding wants
Awaits-wants (sending t e) = ground arith
Awaits-wants (opening_tx t e) = ground arith
Awaits-wants (receiving t e) = ground arith
Awaits-wants (opening_rx t e) = ground arith
Awaits-wants (connecting t e) = ground arith
Awaits-wants (closed e) = ground arith
Awaits-wants (opened_tx e) = ground arith
Awaits-wants (opened_rx e) = ground arith
Awaits-wants (sent t e) = ground arith
Awaits-wants (arrived t e) = ground arith
Awaits-wants (connected t e) = ground arith
Awaits-wants (created t e) = ground arith

module _ (endpoint : ℕ) (r : Request) where
  deleted_cases :
      r.target_endp ≡ endpoint → wants req_deleted endpoint r ≡ true → Awaits endpoint r req_deleted
  unfolding wants
  deleted_cases e h = elim (ℕ_discrete r.type req_tx_fin) [
    | yes a ↦ sending a e
    | no a ↦ elim (ℕ_discrete r.type req_tx_open) [
      | yes b ↦ opening_tx b e
      | no b ↦ elim (ℕ_discrete r.type req_connected) [
        | yes c ↦ connecting c e
        | no c ↦ elim (ℕ_discrete r.type req_rx_fin) [
          | yes d ↦ receiving d e
          | no d ↦ elim (ℕ_discrete r.type req_rx_open) [
            | yes f ↦ opening_rx f e
            | no f ↦ absurd (ground arith)
          ]
        ]
      ]
    ]
  ]

  targeted :
      (kind : ℕ) → kind ≢ req_created → wants kind endpoint r ≡ true → r.target_endp ≡ endpoint
  unfolding wants
  targeted kind ne h = ground arith

  of_kind :
      (kind : ℕ)
      → r.target_endp ≡ endpoint
      → kind ≢ req_created
      → kind ≢ req_deleted
      → kind ≢ req_closed
      → kind ≢ req_tx_open
      → kind ≢ req_rx_open
      → wants kind endpoint r ≡ true
      → Awaits endpoint r kind
  unfolding wants
  of_kind kind e k a b c d h = elim (ℕ_discrete kind req_tx_fin) [
    | yes f ↦ subst (Awaits endpoint r) (sym f) (sent (ground arith) e)
    | no f ↦ elim (ℕ_discrete kind req_rx_fin) [
      | yes g ↦ subst (Awaits endpoint r) (sym g) (arrived (ground arith) e)
      | no g ↦ elim (ℕ_discrete kind req_connected) [
        | yes i ↦ subst (Awaits endpoint r) (sym i) (connected (ground arith) e)
        | no i ↦ absurd (ground arith)
      ]
    ]
  ]

  wants-Awaits : (kind : ℕ) → wants kind endpoint r ≡ true → Awaits endpoint r kind
  unfolding wants
  wants-Awaits kind h = elim (ℕ_discrete kind req_created) [
    | yes k ↦ subst (Awaits endpoint r) (sym k) (created (ground arith) (ground arith))
    | no k ↦
        let e = targeted kind k h in
        elim (ℕ_discrete kind req_deleted) [
          | yes a ↦
              subst (Awaits endpoint r) (sym a)
                (deleted_cases e (subst (λ x. wants x endpoint r ≡ true) a h))
          | no a ↦ elim (ℕ_discrete kind req_closed) [
            | yes b ↦ subst (Awaits endpoint r) (sym b) (closed e)
            | no b ↦ elim (ℕ_discrete kind req_tx_open) [
              | yes c ↦ subst (Awaits endpoint r) (sym c) (opened_tx e)
              | no c ↦ elim (ℕ_discrete kind req_rx_open) [
                | yes d ↦ subst (Awaits endpoint r) (sym d) (opened_rx e)
                | no d ↦ of_kind kind e k a b c d h
              ]
            ]
          ]
        ]
  ]

-- What a request that is resumed looks like, and what it gets.
abbrev pub answered : ℕ → ℕ → ℕ → ℕ → Waiter → Woken
answered kind endpoint byte_count status w = record {
  waiter = record w {
    request = record w.request {
      status = status;
      byte_count = if kind == req_tx_fin then byte_count else w.request.byte_count;
    };
  };
  delivery = if (kind == req_created) && w.has_endp_ptr then endpoint_handle endpoint else nothing;
}

module _ (kind endpoint byte_count status : ℕ) where
  -- A queue, what is left of it and what was resumed from it: the requests that the event resumes are taken out
  -- and answered, the others stay, and both keep their order.
  pub data Parted : List Waiter → List Waiter → List Woken → Type 0 where
    end : Parted [] [] []
    wakes :
        {w : Waiter} {ws waiting : List Waiter} {woken : List Woken}
        → Awaits endpoint w.request kind
        → Parted ws waiting woken
        → Parted (w ∷ ws) waiting (answered kind endpoint byte_count status w ∷ woken)
    stays :
        {w : Waiter} {ws waiting : List Waiter} {woken : List Woken}
        → ¬ Awaits endpoint w.request kind
        → Parted ws waiting woken
        → Parted (w ∷ ws) (w ∷ waiting) woken

  event_woken-answered :
      (w : Waiter)
      → event_woken kind endpoint byte_count status w ≡ answered kind endpoint byte_count status w
  event_woken-answered w = elim (Bool-cases (kind == req_tx_fin)) [
    | inl y ↦ rw (y, ==→eq kind req_tx_fin y) refl
    | inr n ↦ elim (Bool-cases ((kind == req_created) && w.has_endp_ptr)) [
      | inl c ↦ rw (n, c) refl
      | inr c ↦ rw (n, c) refl
    ]
  ]

  Parted-filter :
      (ws : List Waiter)
      → Parted ws
          (left kind endpoint ws)
          (map (event_woken kind endpoint byte_count status) (taken kind endpoint ws))
  Parted-filter [] = end
  Parted-filter (w ∷ ws) = elim (Bool-cases (wants kind endpoint w.request)) [
    | inl y ↦
        rw (y, event_woken-answered w)
          (wakes (wants-Awaits endpoint w.request kind y) (Parted-filter ws))
    | inr n ↦ rw n (stays (λ a. let y = Awaits-wants a in cc) (Parted-filter ws))
  ]

  -- An event other than the arrival of data: the requests of the queue that it resumes are taken out and get the
  -- status given, and the others stay, both in their order; the receive queue and the buffers are left alone. The
  -- deletion of an endpoint resumes those that send, receive, open or connect there; the closing of a connection
  -- and the opening of a side resume every request on the endpoint, whatever it is for; the end of a transmission
  -- and a connection those that are for it, which get the number of bytes sent in the first case; the creation of an
  -- endpoint those for its node and port, which get the handle if they have a place for it.
  pub check_resume-Parted :
      (contents : ℕ → Buffer) (endp : Endpoint) (queue : List Waiter)
      → kind ≢ req_rx_fin
      → (waiting : List Waiter) × (woken : List Woken) × (check_resume contents kind endpoint endp
            byte_count status queue
          ≡ some record {
            waiting = waiting;
            woken = woken;
            rx_queue = endp.rx_queue;
            wait_list = [];
            recovered = [];
          })
        × Parted queue waiting woken
  check_resume-Parted contents endp queue ne = (
    _,
    _,
    check_resume-event contents endpoint endp byte_count status kind queue ne,
    Parted-filter queue,
  )
