-- ===== src/Completion/Cancelled.antt =====
-- The loop of `mcapi_cancel` (libmcapi/mcapi/mcapi_cancel.c) ends and takes every matching request.
use openmcapi_deprecated.Base.{
  ℕ, zero, suc, ◌<◌, ◌≡◌, ◌⊎◌, refl, ap, not, none, some, List, [], ◌∷◌, inl, inr, arith, length,
  filter, map, Bool-cases,
}
use openmcapi_deprecated.Status
use openmcapi_deprecated.Wire.{Buffer}
use openmcapi_deprecated.Requests.{Request, same_request}
use openmcapi_deprecated.Suspend.{Waiter, Woken, nothing, resume}
use openmcapi_deprecated.Messages.{Driver}
use openmcapi_deprecated.Control.{Store}
use openmcapi_deprecated.Completion.Cancel.{take_request, abandon, cancel_all, mcapi_cancel}

not-nil-cons : {xs : List Waiter} {y : Waiter} {ys : List Waiter} → xs ≡ [] → ¬ xs ≡ y ∷ ys
not-nil-cons e f = cc

-- The requests of a queue that match, and the others.
abbrev pub matching : Request → List Waiter → List Waiter
matching target = filter (λ w. same_request w.request target)

abbrev pub others : Request → List Waiter → List Waiter
others target = filter (λ w. not (same_request w.request target))

-- The queue without the first request that matches.
record IsFirst (target : Request) (ws : List Waiter) (w : Waiter) (vs : List Waiter) : Type 0 where
  first : matching target ws ≡ w ∷ matching target vs
  rest : others target ws ≡ others target vs
  shorter : length ws ≡ suc (length vs)

-- The search finds nothing and nothing matches, or it takes the first request that matches.
take_request-cases :
    (target : Request) (ws : List Waiter)
    → ((take_request target ws ≡ none) × (matching target ws ≡ []) × (others target ws ≡ ws))
      ⊎ ((w : Waiter) × (vs : List Waiter) × (take_request target ws ≡ some (w, vs))
          × IsFirst target ws w vs)
unfolding take_request
take_request-cases target [] = inl (refl, refl, refl)
take_request-cases target (w ∷ ws) = elim (Bool-cases (same_request w.request target)) [
  | inl y ↦ inr (
    w,
    ws,
    rw (take_request, y) refl,
    record { first = rw y refl; rest = rw y refl; shorter = refl },
  )
  | inr n ↦ elim (take_request-cases target ws) [
    | inl (e, m, o) ↦ inl (rw (take_request, n, e) refl, rw (n, m) refl, rw (n, o) refl)
    | inr (v, vs, e, f) ↦ inr (
      v,
      w ∷ vs,
      rw (take_request, n, e) refl,
      record {
        first = rw (n, f.first) refl;
        rest = rw (n, f.rest) refl;
        shorter = ap suc f.shorter;
      },
    )
  ]
]

-- A request as `mcapi_cancel` resumes it.
abbrev pub cancelled : Waiter → Woken
cancelled w = resume w Status.err_request_cancelled nothing

module _ {D : Type 0} (driver : Driver D) (n here ctrl_tx : ℕ) (buffer : Buffer)
    (target : Request) where
  cancel_all-matching :
      (fuel : ℕ) (s : Store D) (ws : List Waiter)
      → length ws < fuel
      → (s' : Store D) × (cancel_all driver n here ctrl_tx buffer fuel s target ws
          ≡ some (s', others target ws, map cancelled (matching target ws)))
  unfolding cancel_all
  cancel_all-matching zero s ws h = absurd (omega arith)
  cancel_all-matching (suc fuel) s ws h = elim (take_request-cases target ws) [
    | inl (e, m, o) ↦ (s, rw (cancel_all, e, m, o) refl)
    | inr (w, vs, e, f) ↦
        let s₁ = abandon driver n here ctrl_tx buffer s target w.request in
        let (s', ran) = cancel_all-matching fuel s₁ vs (omega (arith, f.shorter)) in
        (s', rw (cancel_all, e, ran, f.first, f.rest) refl)
  ]

  -- With fuel for each request of the queue and one more, `mcapi_cancel` of a request for which there are
  -- pending ones ends with success: every pending request that matches is resumed as cancelled, in order, and
  -- the others stay in their order.
  pub mcapi_cancel-matching :
      (fuel : ℕ) (s : Store D) (ws : List Waiter) (w : Waiter) (vs : List Waiter)
      → length ws < fuel
      → matching target ws ≡ w ∷ vs
      → (s' : Store D) × (mcapi_cancel driver n here ctrl_tx buffer fuel s target ws
          ≡ some record {
            status = Status.success;
            request = target;
            waiting = others target ws;
            woken = map cancelled (w ∷ vs);
            store = s';
          })
  unfolding mcapi_cancel
  mcapi_cancel-matching fuel s ws w vs h some_match =
      let (s', ran) = cancel_all-matching fuel s ws h in
      elim (take_request-cases target ws) [
        | inl (e, m, o) ↦ absurd (not-nil-cons m some_match)
        | inr (v, us, e, f) ↦ (s', rw (mcapi_cancel, e, ran, some_match) refl)
      ]
