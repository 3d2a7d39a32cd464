-- ===== src/Suspend/Walk.antt =====
-- The loop of `mcapi_check_resume` (libmcapi/mcapi/suspend.c), where no request makes it read through a
-- null pointer.
use openmcapi_deprecated.Base.{
  ℕ, Bool, false, not, ◌||◌, ◌≡◌, refl, Option, some, List, [], ◌∷◌, inl, inr, Bool-cases, filter,
}
use openmcapi_deprecated.Wire.{Buffer}
use openmcapi_deprecated.Suspend.{Waiter, Woken, Delivery, wants, serve, resume, resume_from}

-- What serving a request gives.
abbrev pub Outcome : Type 0
Outcome = Waiter × ℕ × Delivery × Bool

-- The requests of a queue that an event resumes, and those that it leaves.
abbrev pub taken : ℕ → ℕ → List Waiter → List Waiter
taken kind endpoint = filter (λ w. wants kind endpoint w.request)

abbrev pub left : ℕ → ℕ → List Waiter → List Waiter
left kind endpoint = filter (λ w. not (wants kind endpoint w.request))

-- Serving requests one after the other, each with the status that the one before has left.
unfoldable pub walk : (ℕ → Waiter → Outcome) → ℕ → List Waiter → List Woken × Bool
walk serve_one status [] = ([], false)
walk serve_one status (w ∷ ws) =
    let (w', status', delivery, here) = serve_one status w in
    let (woken, copied) = walk serve_one status' ws in
    (resume w' status' delivery ∷ woken, here || copied)

module _ (contents : ℕ → Buffer) (kind endpoint : ℕ) (first : Option ℕ) (byte_count : ℕ)
    (serve_one : ℕ → Waiter → Outcome)
    (served : (status : ℕ) (w : Waiter)
      → serve contents kind endpoint first byte_count status w ≡ some (serve_one status w)) where
  pub resume_from-walk :
      (status : ℕ) (ws : List Waiter)
      → resume_from contents kind endpoint first byte_count status ws
        ≡ some (
          left kind endpoint ws,
          (walk serve_one status (taken kind endpoint ws)).0,
          (walk serve_one status (taken kind endpoint ws)).1,
        )
  unfolding resume_from walk
  resume_from-walk status [] = refl
  resume_from-walk status (w ∷ ws) = elim (Bool-cases (wants kind endpoint w.request)) [
    | inl y ↦ rw (y, resume_from, served status w, resume_from-walk (serve_one status w).1 ws) refl
    | inr n ↦ rw (n, resume_from, resume_from-walk status ws) refl
  ]
