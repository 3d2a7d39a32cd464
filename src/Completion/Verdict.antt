-- ===== src/Completion/Verdict.antt =====
-- What `__mcapi_test` (libmcapi/mcapi/mcapi_test.c) reports.
use openmcapi_deprecated.Base.{
  ℕ, ◌≡◌, ◌≢◌, ◌⊎◌, refl, Bool, true, false, Option, none, some, List, inl, inr, arith, ◌==◌, ==→eq,
  ==→ne, Bool-cases, Option-cases,
}
use openmcapi_deprecated.Status
use openmcapi_deprecated.Endpoints.{Endpoint}
use openmcapi_deprecated.Nodes.{Node, req_created}
use openmcapi_deprecated.Nodes.Api.{find_local_endpoint}
use openmcapi_deprecated.Channels.{req_rx_open, req_tx_open, req_closed}
use openmcapi_deprecated.Suspend.{req_tx_fin, req_rx_fin, req_connected}
use openmcapi_deprecated.Requests.{Request}
use openmcapi_deprecated.Completion.{
  Tested, not_done, test_flag, test_status, test_received, test_operation, test_created, target,
  mcapi_test,
}

-- A report of completion is not pending, and the request has the status that is reported.
unfoldable pub IsSettled : Tested → Type 0
IsSettled t = (t.status ≢ Status.pending) × (t.request.status ≡ t.status)

-- What a test may report.
unfoldable pub IsSound : Tested → Type 0
IsSound t = (t.done ≡ false) ⊎ IsSettled t

test_flag-IsSound : (r : Request) (b : Bool) → IsSound (test_flag r b)
unfolding IsSound IsSettled test_flag
test_flag-IsSound r true = inr (omega arith, refl)
test_flag-IsSound r false = inl refl

test_status-IsSound : (r : Request) → IsSound (test_status r)
unfolding IsSound IsSettled test_status
test_status-IsSound r = elim (Bool-cases (r.status == Status.pending)) [
  | inl y ↦ rw (test_status, y) (inl refl)
  | inr n ↦ rw (test_status, n) (inr (==→ne r.status Status.pending n, refl))
]

test_received-IsSound : (r : Request) → IsSound (test_received r)
unfolding IsSound IsSettled test_received
test_received-IsSound r = elim (Bool-cases (r.status == Status.success)) [
  | inl y ↦ rw (test_received, y) (inr (omega arith, ==→eq r.status Status.success y))
  | inr n ↦ rw (test_received, n) (inl refl)
]

unfinished : (r : Request) (status : ℕ) → IsSound (not_done r status)
unfolding IsSound
unfinished r status = inl refl

sized :
    (r : Request) (endp : Option Endpoint)
    → IsSound
        (record (test_status r) { size = elim endp [ none ↦ none | some _ ↦ some r.byte_count ] })
unfolding IsSound IsSettled
sized r endp = test_status-IsSound r

received :
    (r : Request) (endp : Option Endpoint)
    → IsSound
        (elim endp [ none ↦ not_done r Status.err_request_invalid | some _ ↦ test_received r ])
received r none = unfinished r Status.err_request_invalid
received r (some e) = test_received-IsSound r

test_operation-IsSound : (r : Request) (endp : Option Endpoint) → IsSound (test_operation r endp)
unfolding test_operation
test_operation-IsSound r endp = elim (Bool-cases (r.type == req_tx_fin)) [
  | inl a ↦ rw (test_operation, a) (sized r endp)
  | inr a ↦ elim (Bool-cases (r.type == req_rx_fin)) [
    | inl b ↦ rw (test_operation, a, b) (received r endp)
    | inr b ↦ elim (Bool-cases (r.type == req_connected)) [
      | inl c ↦ rw (test_operation, a, b, c) (test_status-IsSound r)
      | inr c ↦ elim (Bool-cases (r.type == req_rx_open)) [
        | inl d ↦ rw (test_operation, a, b, c, d) (test_flag-IsSound r _)
        | inr d ↦ elim (Bool-cases (r.type == req_closed)) [
          | inl e ↦ rw (test_operation, a, b, c, d, e) (test_flag-IsSound r _)
          | inr e ↦ elim (Bool-cases (r.type == req_tx_open)) [
            | inl f ↦ rw (test_operation, a, b, c, d, e, f) (test_flag-IsSound r _)
            | inr f ↦
                rw (test_operation, a, b, c, d, e, f) (unfinished r Status.err_request_invalid)
          ]
        ]
      ]
    ]
  ]
]

module _ (n here : ℕ) (nodes : List Node) (r : Request) where
  test_created-IsSound : IsSound (test_created n here nodes r)
  unfolding test_created IsSound IsSettled
  test_created-IsSound = elim (Bool-cases (r.target_node_id == here)) [
    | inr far ↦ rw (test_created, far) (test_status-IsSound r)
    | inl near ↦
        elim (Option-cases (find_local_endpoint n nodes r.target_node_id r.target_port_id)) [
          | inl gone ↦ rw (test_created, near, gone) (inl refl)
          | inr (place, found) ↦ rw (test_created, near, found) (inr (omega arith, refl))
        ]
  ]

  -- Whatever request is tested: it is reported as not completed, or as completed with a status that is not
  -- MCAPI_PENDING and is also that of the request.
  pub mcapi_test-IsSound : (has_size : Bool) → IsSound (mcapi_test n here nodes r has_size)
  unfolding mcapi_test
  mcapi_test-IsSound has_size = elim (Bool-cases (r.status == Status.err_request_cancelled)) [
    | inl gone ↦ rw (mcapi_test, gone) (unfinished r Status.err_request_cancelled)
    | inr kept ↦ elim (Bool-cases has_size) [
      | inr unsized ↦ rw (mcapi_test, kept, unsized) (unfinished r Status.err_parameter)
      | inl y ↦ elim (Bool-cases (r.type == req_created)) [
        | inl c ↦ rw (mcapi_test, kept, y, c) test_created-IsSound
        | inr c ↦
            rw (mcapi_test, kept, y, c)
              (test_operation-IsSound r (target n here nodes r.target_endp))
      ]
    ]
  ]
