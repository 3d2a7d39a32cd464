-- ===== src/Shm/Fifo.antt =====
-- Sequences of operations on a ring of packet descriptors (libmcapi/shm/shm.c), and on a list.
use native.Mathlib.Decide.{ℕ_discrete}
use openmcapi_deprecated.Base.{
  ℕ, ◌≡◌, refl, sym, ap, ◌∙◌, some, none, Option, List, [], ◌∷◌, ◌++◌, length, ◌==◌, eq→==, ne→==,
  if◌then◌else◌,
}
use openmcapi_deprecated.Status
use openmcapi_deprecated.Shm.{
  Desc, DescQ, q_size, enqueue_sm_ring_q, shm_desc_get_next, shm_desc_consume,
}
use openmcapi_deprecated.Shm.Ring.{
  contents, RingValid, desc_of, enqueue_sm_ring_q-append, shm_desc_consume-tail,
}

-- A producer puts a descriptor in; the consumer takes the oldest, as `shm_poll` does.
pub data RingOp : Type 0 where
  put : (value priority type : ℕ) → RingOp
  take : RingOp

-- What an operation answers.
pub data Answer : Type 0 where
  put_status : ℕ → Answer
  got : Option Desc → Answer

pub run_ring : DescQ → List RingOp → List Answer
run_ring q [] = []
run_ring q (put value priority type ∷ ops) =
    let (status, q') = enqueue_sm_ring_q q value priority type in
    put_status status ∷ run_ring q' ops
run_ring q (take ∷ ops) =
    let emptied = run_ring q ops in
    let rest = run_ring (shm_desc_consume q) ops in
    elim (shm_desc_get_next q) [ none ↦ got none ∷ emptied | some d ↦ got (some d) ∷ rest ]

-- The same of a list.
pub run_list : List Desc → List RingOp → List Answer
run_list ds [] = []
run_list ds (put value priority type ∷ ops) =
    let refused = run_list ds ops in
    let rest = run_list (ds ++ desc_of value priority type ∷ []) ops in
    if length ds == q_size
    then put_status Status.err_transmission ∷ refused
    else put_status Status.success ∷ rest
run_list [] (take ∷ ops) = got none ∷ run_list [] ops
run_list (d ∷ ds) (take ∷ ops) = got (some d) ∷ run_list ds ops

-- A valid ring answers every sequence of operations as the list of what it holds does.
pub run_ring-run_list :
    (q : DescQ) (ds : List Desc) (ops : List RingOp)
    → RingValid q
    → contents q ≡ ds
    → run_ring q ops ≡ run_list ds ops
unfolding run_ring run_list
run_ring-run_list q ds [] v e = refl
run_ring-run_list q ds (put value priority type ∷ ops) v e = elim (ℕ_discrete (length ds) q_size) [
  | yes full ↦
      let run = (enqueue_sm_ring_q-append q v value priority type).0 (ap length e ∙ full) in
      rw (run_list, eq→== (length ds) 16 full, run)
        (ap (λ t. put_status Status.err_transmission ∷ t) (run_ring-run_list q ds ops v e))
  | no room ↦
      let (q', run, held, v') =
        (enqueue_sm_ring_q-append q v value priority type).1
          (λ full. room (sym (ap length e) ∙ full)) in
      rw (run_list, ne→== (length ds) 16 room, run)
        (ap (λ t. put_status Status.success ∷ t)
          (run_ring-run_list q' (ds ++ desc_of value priority type ∷ []) ops v'
            (held ∙ ap (λ l. l ++ desc_of value priority type ∷ []) e)))
]
run_ring-run_list q [] (take ∷ ops) v e =
    rw (run_ring, (shm_desc_consume-tail q v).0 e)
      (ap (λ t. got none ∷ t) (run_ring-run_list q [] ops v e))
run_ring-run_list q (d ∷ ds) (take ∷ ops) v e =
    let (next, left, v') = (shm_desc_consume-tail q v).1 d ds e in
    rw (run_ring, next)
      (ap (λ t. got (some d) ∷ t) (run_ring-run_list (shm_desc_consume q) ds ops v' left))
