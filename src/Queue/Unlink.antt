-- ===== src/Queue/Unlink.antt =====
-- The three ways in which `mcapi_remove` of libmcapi/mcapi/queue.c unlinks an entry: the oldest, the
-- newest, and one between two others.
use mathlib.Core.Path.{subst}
use openmcapi_deprecated.Base.{
  ◌≡◌, ◌≢◌, sym, ap, ◌∙◌, inl, inr, true, false, some, List, [], ◌∷◌, arith, ◌==◌, Bool-cases,
  ==→eq, ==→ne, ne→==,
}
use openmcapi_deprecated.Queue.{Ptr, null, QNode, qnode, Heap, write, dequeue, unlink}
use openmcapi_deprecated.Queue.Chain.{
  member, member-ne, last_or, erase, erase_self, Linked-ne_null, IsQueue,
}
use openmcapi_deprecated.Queue.Dequeue.{dequeue-cons}
use openmcapi_deprecated.Queue.Erase.{
  Between, Between-of_member, Joined, Linked-erase, member-erase,
}

unlink_run_tail :
    (h : Heap) (hdr item x p n f r : Ptr)
    → h hdr ≡ some (qnode x item)
    → h item ≡ some (qnode n p)
    → h p ≡ some (qnode f r)
    → hdr ≢ null
    → item ≢ null
    → p ≢ null
    → x ≢ item
    → p ≢ hdr
    → unlink hdr item h ≡ some (tt, write (write h hdr (qnode x p)) p (qnode null r))
unfolding unlink
unlink_run_tail h hdr item x p n f r at_hdr at_item at_p a b c d e = ground arith

unlink_run_middle :
    (h : Heap) (hdr item x z p n f r s : Ptr)
    → h hdr ≡ some (qnode x z)
    → h item ≡ some (qnode n p)
    → h p ≡ some (qnode f r)
    → h n ≡ some (qnode s item)
    → hdr ≢ null
    → item ≢ null
    → p ≢ null
    → n ≢ null
    → x ≢ item
    → z ≢ item
    → p ≢ item
    → n ≢ p
    → unlink hdr item h ≡ some (tt, write (write h p (qnode n r)) n (qnode s p))
unfolding unlink
unlink_run_middle h hdr item x z p n f r s at_hdr at_item at_p at_n a b c d e i j k = ground arith

-- Reading a heap after two writes.
module _ (h : Heap) (a b : Ptr) (m n : QNode) where
  read_second : write (write h a m) b n b ≡ some n
  read_second = ground arith

  read_first : a ≢ b → write (write h a m) b n a ≡ some m
  read_first d = ground arith

  read_other : (c : Ptr) → c ≢ a → c ≢ b → write (write h a m) b n c ≡ h c
  read_other c d e = ground arith

-- What a `mcapi_remove` that finds its entry leaves.
pub record Removed (h : Heap) (hdr item : Ptr) (xs : List Ptr) (g : Heap) : Type 0 where
  pub queue : IsQueue g hdr (erase item xs)
  pub same : (a : Ptr) → a ≢ hdr → member a xs ≡ false → g a ≡ h a

unlink_run_head :
    (h g : Heap) (hdr item z : Ptr)
    → h hdr ≡ some (qnode item z)
    → hdr ≢ null
    → dequeue hdr h ≡ some (item, g)
    → unlink hdr item h ≡ some (tt, g)
unfolding unlink
unlink_run_head h g hdr item z at_hdr ne run = ground arith

unlink-head :
    (h : Heap) (hdr item : Ptr) (xs : List Ptr)
    → IsQueue h hdr (item ∷ xs)
    → (g : Heap) × (unlink hdr item h ≡ some (tt, g)) × Removed h hdr item (item ∷ xs) g
unlink-head h hdr item xs q =
    let (g, run, d) = dequeue-cons q in
    (
      g,
      unlink_run_head h g hdr item q.back q.header q.real run,
      record { queue = subst (IsQueue g hdr) (sym (erase_self item xs)) d.queue; same = d.same },
    )

module _ (h : Heap) (hdr item x : Ptr) (xs : List Ptr) (q : IsQueue h hdr (x ∷ xs))
    (i : member item xs ≡ true) (ne : x ≢ item) (b : Between h x xs item) where
  keep : erase item (x ∷ xs) ≡ x ∷ erase item xs
  keep = rw (ne→== x item ne)

  item_in : member item (x ∷ xs) ≡ true
  item_in = ground arith

  item_real : item ≢ null
  item_real = Linked-ne_null h null (x ∷ xs) item q.entries item_in

  pred_real : b.p ≢ null
  pred_real = Linked-ne_null h null (x ∷ xs) b.p q.entries b.pred_in

  pred_apart : b.p ≢ hdr
  pred_apart = member-ne b.p hdr (x ∷ xs) b.pred_in q.apart

  apart_after : member hdr (x ∷ erase item xs) ≡ false
  apart_after = let out = q.apart in ground (arith, member-erase hdr item xs)

  unlink-tail :
      b.n ≡ null
      → last_or xs x ≡ item
      → last_or (erase item xs) x ≡ b.p
      → (g : Heap) × (unlink hdr item h ≡ some (tt, g)) × Removed h hdr item (x ∷ xs) g
  unlink-tail no_next is_last before =
      let m = qnode x b.p in
      let n = qnode null b.r in
      let g = write (write h hdr m) b.p n in
      let elsewhere = read_other h hdr b.p m n in
      let joined : Joined h g item b.p b.n b.r b.s (x ∷ xs) = record {
        at_item = b.at_item;
        at_pred = b.at_pred;
        new_pred = read_second h hdr b.p m n ∙ ap (λ t. some (qnode t b.r)) (sym no_next);
        at_succ = inl no_next;
        same = λ a k _ e _. elsewhere a (member-ne a hdr (x ∷ xs) k q.apart) e;
      } in
      (
        g,
        unlink_run_tail h hdr item x b.p b.n item b.r
            (q.header ∙ ap (λ t. some (qnode x t)) (q.at_end ∙ is_last)) b.at_item b.at_pred q.real
            item_real pred_real ne pred_apart,
        record {
          queue = subst (IsQueue g hdr) (sym keep) (record {
            back = b.p;
            header = read_first h hdr b.p m n (λ e. pred_apart (sym e));
            at_end = sym before;
            entries =
                Linked-erase h g item b.p b.n b.r b.s null x xs q.entries i (λ e. item_real (sym e))
                  joined;
            apart = apart_after;
            real = q.real;
          });
          same = λ a d o. elsewhere a d (λ e. member-ne b.p a (x ∷ xs) b.pred_in o (sym e));
        },
      )

  unlink-middle :
      b.n ≢ null
      → b.n ≢ b.p
      → member b.n xs ≡ true
      → h b.n ≡ some (qnode b.s item)
      → last_or xs x ≢ item
      → last_or (erase item xs) x ≡ last_or xs x
      → (g : Heap) × (unlink hdr item h ≡ some (tt, g)) × Removed h hdr item (x ∷ xs) g
  unlink-middle next_real next_ne next_in at_next not_last last_kept =
      let m = qnode b.n b.r in
      let n = qnode b.s b.p in
      let g = write (write h b.p m) b.n n in
      let elsewhere = read_other h b.p b.n m n in
      let next_in' : member b.n (x ∷ xs) ≡ true = ground arith in
      let joined : Joined h g item b.p b.n b.r b.s (x ∷ xs) = record {
        at_item = b.at_item;
        at_pred = b.at_pred;
        new_pred = read_first h b.p b.n m n (λ e. next_ne (sym e));
        at_succ = inr (at_next, read_second h b.p b.n m n);
        same = λ a _ _ d e. elsewhere a d e;
      } in
      (
        g,
        unlink_run_middle h hdr item x q.back b.p b.n item b.r b.s q.header b.at_item b.at_pred
            at_next q.real item_real pred_real next_real ne (λ e. not_last (sym q.at_end ∙ e))
            b.pred_ne next_ne,
        record {
          queue = subst (IsQueue g hdr) (sym keep) (record {
            back = q.back;
            header =
                elsewhere hdr (λ e. pred_apart (sym e))
                  (λ e. member-ne b.n hdr (x ∷ xs) next_in' q.apart (sym e))
                ∙ q.header;
            at_end = q.at_end ∙ sym last_kept;
            entries =
                Linked-erase h g item b.p b.n b.r b.s null x xs q.entries i (λ e. item_real (sym e))
                  joined;
            apart = apart_after;
            real = q.real;
          });
          same = λ a d o.
              elsewhere a (λ e. member-ne b.p a (x ∷ xs) b.pred_in o (sym e))
                (λ e. member-ne b.n a (x ∷ xs) next_in' o (sym e));
        },
      )

pub unlink-Removed :
    (h : Heap) (hdr item : Ptr) (xs : List Ptr)
    → IsQueue h hdr xs
    → member item xs ≡ true
    → (g : Heap) × (unlink hdr item h ≡ some (tt, g)) × Removed h hdr item xs g
unlink-Removed h hdr item [] q i = cc
unlink-Removed h hdr item (x ∷ xs) q i = elim (Bool-cases (x == item)) [
  | inl e ↦
      let same = ==→eq x item e in
      subst (λ t. (g : Heap) × (unlink hdr item h ≡ some (tt, g)) × Removed h hdr item (t ∷ xs) g)
        (sym same) (unlink-head h hdr item xs (subst (λ t. IsQueue h hdr (t ∷ xs)) same q))
  | inr e ↦
      let ne = ==→ne x item e in
      let i' : member item xs ≡ true = ground arith in
      let b = Between-of_member h null x item xs q.entries i' in
      elim b.ends [
        | inl (a₀, a₁, a₂) ↦ unlink-tail h hdr item x xs q i' ne b a₀ a₁ a₂
        | inr (a₀, _, a₂, a₃, a₄, a₅, a₆) ↦
            unlink-middle h hdr item x xs q i' ne b a₀ a₂ a₃ a₄ a₅ a₆
      ]
]
