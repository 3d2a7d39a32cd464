-- ===== src/Queue/Dequeue.antt =====
-- `mcapi_dequeue` of libmcapi/mcapi/queue.c.
use openmcapi_deprecated.Base.{◌≡◌, ◌≢◌, refl, false, some, List, [], ◌∷◌, arith}
use openmcapi_deprecated.Queue.{Ptr, null, qnode, Heap, write, dequeue}
use openmcapi_deprecated.Queue.Chain.{member, member-ne, first, Linked-frame, IsQueue}

-- What a `mcapi_dequeue` that returns an entry leaves.
pub record Dequeued (h : Heap) (hdr x : Ptr) (xs : List Ptr) (g : Heap) : Type 0 where
  pub queue : IsQueue g hdr xs
  pub cleared : g x ≡ some (qnode null null)
  pub same : (a : Ptr) → a ≢ hdr → member a (x ∷ xs) ≡ false → g a ≡ h a

-- On an empty queue `mcapi_dequeue` returns null and writes nothing.
pub dequeue-nil : {h : Heap} {hdr : Ptr} → IsQueue h hdr [] → dequeue hdr h ≡ some (null, h)
unfolding dequeue
dequeue-nil {h} {hdr} q = let at_hdr = q.header in let real = q.real in ground arith

abbrev taken_last : Heap → Ptr → Ptr → Ptr → Heap
taken_last h hdr x b =
    write (write (write h hdr (qnode null b)) x (qnode null null)) x (qnode null null)

dequeue_run_last :
    (h : Heap) (hdr x b : Ptr)
    → h hdr ≡ some (qnode x b)
    → h x ≡ some (qnode null null)
    → hdr ≢ null
    → x ≢ null
    → x ≢ hdr
    → dequeue hdr h ≡ some (x, taken_last h hdr x b)
unfolding dequeue
dequeue_run_last h hdr x b at_hdr at_x p q r = ground arith

abbrev taken : Heap → Ptr → Ptr → Ptr → Ptr → Ptr → Heap
taken h hdr x y f b =
    let h₂ = write (write h hdr (qnode y b)) y (qnode f null) in
    write (write h₂ x (qnode y null)) x (qnode null null)

dequeue_run :
    (h : Heap) (hdr x y f b : Ptr)
    → h hdr ≡ some (qnode x b)
    → h x ≡ some (qnode y null)
    → h y ≡ some (qnode f x)
    → hdr ≢ null
    → x ≢ null
    → y ≢ null
    → x ≢ hdr
    → y ≢ hdr
    → y ≢ x
    → dequeue hdr h ≡ some (x, taken h hdr x y f b)
unfolding dequeue
dequeue_run h hdr x y f b at_hdr at_x at_y p q r s t u = ground arith

taken-elsewhere :
    (h : Heap) (hdr x y f b a : Ptr) → a ≢ hdr → a ≢ x → a ≢ y → taken h hdr x y f b a ≡ h a
taken-elsewhere h hdr x y f b a p q r = ground arith

-- On a queue that is not empty `mcapi_dequeue` returns the oldest entry and clears its links, the
-- queue then stands for the rest, and no node outside the queue is written.
pub dequeue-cons :
    {h : Heap} {hdr x : Ptr} {xs : List Ptr}
    → IsQueue h hdr (x ∷ xs)
    → (g : Heap) × (dequeue hdr h ≡ some (x, g)) × Dequeued h hdr x xs g
dequeue-cons {h} {hdr} {x} {xs = []} q =
    let l = q.entries in
    let out : x ≢ hdr = member-ne x hdr (x ∷ []) (ground arith) q.apart in
    (
      taken_last h hdr x q.back,
      dequeue_run_last h hdr x q.back q.header l.0 q.real l.1 out,
      record {
        queue = record {
          back = q.back;
          header = ground arith;
          at_end = refl;
          entries = tt;
          apart = refl;
          real = q.real;
        };
        cleared = ground arith;
        same = λ a p o. ground arith;
      },
    )
dequeue-cons {h} {hdr} {x} {xs = y ∷ ys} q =
    let l = q.entries in
    let f = first ys in
    let apart = q.apart in
    let out : (x ≢ hdr) × (y ≢ hdr) × (y ≢ x) = ground arith in
    let g = taken h hdr x y f q.back in
    (
      g,
      dequeue_run h hdr x y f q.back q.header l.0 l.3.0 q.real l.1 l.3.1 out.0 out.1 out.2,
      record {
        queue = record {
          back = q.back;
          header = ground arith;
          at_end = q.at_end;
          entries = (
            ground arith,
            l.3.1,
            l.3.2,
            Linked-frame y ys l.3.3 (λ a i.
                taken-elsewhere h hdr x y f q.back a (member-ne a hdr ys i (ground arith))
                  (member-ne a x ys i (ground arith)) (member-ne a y ys i l.3.2)),
          );
          apart = ground arith;
          real = q.real;
        };
        cleared = ground arith;
        same = λ a p o. taken-elsewhere h hdr x y f q.back a p (ground arith) (ground arith);
      },
    )
