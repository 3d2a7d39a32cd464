-- ===== src/Queue/Enqueue.antt =====
-- `mcapi_enqueue` of libmcapi/mcapi/queue.c.
use openmcapi_deprecated.Base.{◌≡◌, ◌≢◌, refl, sym, false, some, List, [], ◌∷◌, ◌++◌, arith}
use openmcapi_deprecated.Queue.{Ptr, null, QNode, qnode, Heap, write, enqueue}
use openmcapi_deprecated.Queue.Chain.{
  member, member-ne, last_or, Linked, IsQueue, Linked-ne_null, member-last_or, last-flink,
  member-append, last_or-snoc, Linked-snoc,
}

-- What a successful `mcapi_enqueue` leaves.
pub record Enqueued (h : Heap) (hdr item : Ptr) (xs : List Ptr) (g : Heap) : Type 0 where
  pub queue : IsQueue g hdr (xs ++ item ∷ [])
  pub same : (a : Ptr) → a ≢ hdr → a ≢ item → member a xs ≡ false → g a ≡ h a

enqueue-nil :
    (h : Heap) (hdr item b : Ptr) (n : QNode)
    → h hdr ≡ some (qnode null b)
    → hdr ≢ null
    → item ≢ null
    → item ≢ hdr
    → h item ≡ some n
    → (g : Heap) × (enqueue hdr item h ≡ some (tt, g)) × Enqueued h hdr item [] g
unfolding enqueue
enqueue-nil h hdr item b n at_hdr hne ine apart at_item =
    let h₁ = write h item (qnode null n.blink) in
    let h₂ = write h₁ hdr (qnode null item) in
    let h₃ = write h₂ hdr (qnode item item) in
    let g = write h₃ item (qnode null null) in
    (
      g,
      ground arith,
      record {
        queue = record {
          back = item;
          header = ground arith;
          at_end = refl;
          entries = (ground arith, ine, refl, tt);
          apart = ground arith;
          real = hne;
        };
        same = λ a p q out. ground arith;
      },
    )

-- The heap that the second branch leaves, by its three written nodes.
abbrev appended : Heap → Ptr → Ptr → Ptr → Ptr → Ptr → QNode → Heap
appended h hdr item x z b n =
    let h₁ = write h item (qnode null n.blink) in
    write (write (write h₁ z (qnode item b)) item (qnode null z)) hdr (qnode x item)

enqueue_run :
    (h : Heap) (hdr item x z b : Ptr) (n : QNode)
    → h hdr ≡ some (qnode x z)
    → h item ≡ some n
    → h z ≡ some (qnode null b)
    → hdr ≢ null
    → item ≢ null
    → x ≢ null
    → z ≢ null
    → item ≢ hdr
    → z ≢ item
    → z ≢ hdr
    → enqueue hdr item h ≡ some (tt, appended h hdr item x z b n)
unfolding enqueue
enqueue_run h hdr item x z b n at_hdr at_item at_z hne ine xne zne d₁ d₂ d₃ = ground arith

appended-at_last :
    (h : Heap) (hdr item x z b : Ptr) (n : QNode)
    → z ≢ item
    → z ≢ hdr
    → appended h hdr item x z b n z ≡ some (qnode item b)
appended-at_last h hdr item x z b n p q = ground arith

appended-at_item :
    (h : Heap) (hdr item x z b : Ptr) (n : QNode)
    → item ≢ hdr
    → appended h hdr item x z b n item ≡ some (qnode null z)
appended-at_item h hdr item x z b n p = ground arith

appended-elsewhere :
    (h : Heap) (hdr item x z b : Ptr) (n : QNode) (a : Ptr)
    → a ≢ hdr
    → a ≢ item
    → a ≢ z
    → appended h hdr item x z b n a ≡ h a
appended-elsewhere h hdr item x z b n a p q r = ground arith

enqueue-cons :
    (h : Heap) (hdr item x b : Ptr) (xs : List Ptr) (n : QNode)
    → h hdr ≡ some (qnode x (last_or xs x))
    → hdr ≢ null
    → Linked h null (x ∷ xs)
    → member hdr (x ∷ xs) ≡ false
    → item ≢ null
    → item ≢ hdr
    → member item (x ∷ xs) ≡ false
    → h item ≡ some n
    → h (last_or xs x) ≡ some (qnode null b)
    → last_or xs x ≢ null
    → (g : Heap) × (enqueue hdr item h ≡ some (tt, g)) × Enqueued h hdr item (x ∷ xs) g
enqueue-cons h hdr item x b xs n at_hdr hne l out ine apart fresh at_item at_last lne =
    let z = last_or xs x in
    let g = appended h hdr item x z b n in
    let in_list = member-last_or x xs in
    let d₂ = member-ne z item (x ∷ xs) in_list fresh in
    let d₃ = member-ne z hdr (x ∷ xs) in_list out in
    (
      g,
      enqueue_run h hdr item x z b n at_hdr at_item at_last hne ine l.1 lne apart d₂ d₃,
      record {
        queue = record {
          back = item;
          header = ground arith;
          at_end = sym (last_or-snoc item x xs);
          entries =
              Linked-snoc null item x b xs l ine fresh at_last
                (appended-at_last h hdr item x z b n d₂ d₃)
                (appended-at_item h hdr item x z b n apart)
                (λ a i d.
                  appended-elsewhere h hdr item x z b n a (member-ne a hdr (x ∷ xs) i out)
                    (member-ne a item (x ∷ xs) i fresh) d);
          apart = ground (arith, member-append hdr (x ∷ xs) (item ∷ []));
          real = hne;
        };
        same = λ a p q o.
            appended-elsewhere h hdr item x z b n a p q
              (λ e. member-ne z a (x ∷ xs) in_list o (sym e));
      },
    )

-- `mcapi_enqueue` of an entry that is not in the queue appends it: the queue then stands for the old
-- entries and the new one behind them, and no other node of the heap is written.
pub enqueue-append :
    {h : Heap} {hdr : Ptr} {xs : List Ptr} (item : Ptr) (n : QNode)
    → IsQueue h hdr xs
    → item ≢ null
    → item ≢ hdr
    → member item xs ≡ false
    → h item ≡ some n
    → (g : Heap) × (enqueue hdr item h ≡ some (tt, g)) × Enqueued h hdr item xs g
enqueue-append {h} {hdr} {xs = []} item n q ine apart fresh at_item =
    enqueue-nil h hdr item q.back n q.header q.real ine apart at_item
enqueue-append {h} {hdr} {xs = x ∷ xs} item n q ine apart fresh at_item =
    let l = q.entries in
    let (b, at_last) = last-flink h null x xs l in
    enqueue-cons h hdr item x b xs n (rw (← q.at_end) q.header) q.real l q.apart ine apart fresh
      at_item at_last (Linked-ne_null h null (x ∷ xs) (last_or xs x) l (member-last_or x xs))
