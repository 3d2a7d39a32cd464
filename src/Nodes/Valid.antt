-- ===== src/Nodes/Valid.antt =====
-- The invariant of a node: its table has the configured size, every slot is closed or open, no stale
-- entry hides a live one, and the endpoint count is the number of slots in use.
use openmcapi_deprecated.Base.{
  ℕ, zero, suc, ◌+◌, ◌≤◌, ◌<◌, ◌≡◌, ◌≢◌, [], ◌∷◌, arith, ◌==◌, eq→==, ne→==, if◌then◌else◌, length,
  set,
}
use native.Mathlib.Decide.{ℕ_discrete}
use openmcapi_deprecated.Endpoints.{Endpoint, Table, slot, endp_closed}
use openmcapi_deprecated.Endpoints.Live.{Clean}
use openmcapi_deprecated.Endpoints.Insert.{Settled}
use openmcapi_deprecated.Nodes.{Node}

-- The number of slots that are in use.
unfoldable pub count_used : Table → ℕ
count_used [] = 0
count_used (e ∷ t) = (if e.state == endp_closed then 0 else 1) + count_used t

pub record IsValid (n : ℕ) (node : Node) : Type 0 where
  pub sized : length node.endpoint_list ≡ n
  pub settled : (i : ℕ) → i < n → Settled (slot node.endpoint_list i)
  pub clean : Clean n node.endpoint_list
  pub counted : node.endpoint_count ≡ count_used node.endpoint_list

count_used-closed :
    (e : Endpoint) (t : Table) → e.state ≡ endp_closed → count_used (e ∷ t) ≡ count_used t
unfolding count_used
count_used-closed e t h = rw (eq→== _ _ h) (omega arith)

count_used-open :
    (e : Endpoint) (t : Table) → e.state ≢ endp_closed → count_used (e ∷ t) ≡ 1 + count_used t
unfolding count_used
count_used-open e t h = rw (ne→== _ _ h)

pub count_used-le : (t : Table) → count_used t ≤ length t
unfolding count_used
count_used-le [] = omega arith
count_used-le (e ∷ t) = elim (ℕ_discrete e.state endp_closed) [
  | yes c ↦ omega (arith, count_used-closed e t c, count_used-le t)
  | no o ↦ omega (arith, count_used-open e t o, count_used-le t)
]

-- A table that is not full has a closed slot.
pub closed_slot :
    (t : Table)
    → count_used t < length t
    → (i : ℕ) × (i < length t) × ((slot t i).state ≡ endp_closed)
unfolding count_used
closed_slot [] h = absurd (omega arith)
closed_slot (e ∷ t) h = elim (ℕ_discrete e.state endp_closed) [
  | yes c ↦ (0, omega arith, c)
  | no o ↦
      let (i, lt, c) = closed_slot t (omega (arith, count_used-open e t o)) in
      (suc i, omega arith, c)
]

-- Using a closed slot adds one.
pub count_used-set :
    (t : Table) (k : ℕ) (x : Endpoint)
    → k < length t
    → (slot t k).state ≡ endp_closed
    → x.state ≢ endp_closed
    → count_used (set t k x) ≡ count_used t + 1
unfolding count_used
count_used-set [] k x lt c o = absurd (omega arith)
count_used-set (e ∷ t) zero x lt c o = omega (arith, count_used-closed e t c, count_used-open x t o)
count_used-set (e ∷ t) (suc k) x lt c o = omega (arith, count_used-set t k x (omega arith) c o)

-- Closing a slot takes one away.
pub count_used-close :
    (t : Table) (k : ℕ) (x : Endpoint)
    → k < length t
    → (slot t k).state ≢ endp_closed
    → x.state ≡ endp_closed
    → count_used t ≡ count_used (set t k x) + 1
unfolding count_used
count_used-close [] k x lt c o = absurd (omega arith)
count_used-close (e ∷ t) zero x lt c o =
    omega (arith, count_used-open e t c, count_used-closed x t o)
count_used-close (e ∷ t) (suc k) x lt c o = omega (arith, count_used-close t k x (omega arith) c o)
