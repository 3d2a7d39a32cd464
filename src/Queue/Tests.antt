-- ===== src/Queue/Tests.antt =====
-- The theorems on libmcapi/mcapi/queue.c at a queue of two entries: the header at address 1, the
-- entries at 2 and 3, and an entry that is in no queue at 4.
use openmcapi_deprecated.Base.{◌≡◌, refl, none, some, [], ◌∷◌, arith}
use openmcapi_deprecated.Queue.{qnode, Heap, write, enqueue, dequeue, remove}
use openmcapi_deprecated.Queue.Chain.{IsQueue}
use openmcapi_deprecated.Queue.Enqueue.{Enqueued, enqueue-append}
use openmcapi_deprecated.Queue.Dequeue.{Dequeued, dequeue-cons}
use openmcapi_deprecated.Queue.Unlink.{Removed}
use openmcapi_deprecated.Queue.Remove.{remove-erase}

abbrev heap : Heap
heap =
    write (write (write (write (λ a. none) 1 (qnode 2 3)) 2 (qnode 3 0)) 3 (qnode 0 2)) 4
      (qnode 0 0)

two : IsQueue heap 1 (2 ∷ 3 ∷ [])
two = record {
  back = 3;
  header = refl;
  at_end = refl;
  entries = (refl, omega arith, refl, (refl, omega arith, refl, tt));
  apart = refl;
  real = omega arith;
}

enqueue-append_example :
    (g : Heap) × (enqueue 1 4 heap ≡ some (tt, g)) × Enqueued heap 1 4 (2 ∷ 3 ∷ []) g
enqueue-append_example = enqueue-append 4 (qnode 0 0) two (omega arith) (omega arith) refl refl

dequeue-cons_example : (g : Heap) × (dequeue 1 heap ≡ some (2, g)) × Dequeued heap 1 2 (3 ∷ []) g
dequeue-cons_example = dequeue-cons two

remove-erase_example :
    (g : Heap) × (remove 3 1 3 heap ≡ some (3, g)) × Removed heap 1 3 (2 ∷ 3 ∷ []) g
remove-erase_example = remove-erase 3 heap 1 3 (2 ∷ 3 ∷ []) two (omega arith) (omega arith) refl
