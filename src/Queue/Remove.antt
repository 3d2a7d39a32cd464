-- ===== src/Queue/Remove.antt =====
-- `mcapi_remove` of libmcapi/mcapi/queue.c: the search, and then the unlinking.
use openmcapi_deprecated.Base.{
  ℕ, zero, suc, ◌<◌, ◌≡◌, ◌≢◌, refl, true, false, some, List, [], ◌∷◌, arith, if◌then◌else◌, length,
}
use openmcapi_deprecated.Queue.{Ptr, null, qnode, Heap, find_entry, unlink, remove}
use openmcapi_deprecated.Queue.Chain.{member, first, Linked, IsQueue}
use openmcapi_deprecated.Queue.Unlink.{Removed, unlink-Removed}

-- With fuel for each entry the search ends: at the entry if it is in the chain, else at null.
find_entry-member :
    (f : ℕ) (h : Heap) (item prev : Ptr) (xs : List Ptr)
    → Linked h prev xs
    → length xs < f
    → find_entry f item (first xs) h ≡ some (if member item xs then item else null, h)
unfolding find_entry
find_entry-member zero h item prev xs l fuel = absurd (omega arith)
find_entry-member (suc f) h item prev [] l fuel = refl
find_entry-member (suc f) h item prev (x ∷ xs) l fuel =
    ground (arith, find_entry-member f h item x xs)

remove_found :
    (f : ℕ) (h g : Heap) (hdr item z : Ptr) (xs : List Ptr)
    → h hdr ≡ some (qnode (first xs) z)
    → hdr ≢ null
    → item ≢ null
    → find_entry f item (first xs) h ≡ some (item, h)
    → unlink hdr item h ≡ some (tt, g)
    → remove f hdr item h ≡ some (item, g)
unfolding remove
remove_found f h g hdr item z xs at_hdr ne ine found run = ground arith

remove_missing :
    (f : ℕ) (h : Heap) (hdr item z : Ptr) (xs : List Ptr)
    → h hdr ≡ some (qnode (first xs) z)
    → hdr ≢ null
    → find_entry f item (first xs) h ≡ some (null, h)
    → remove f hdr item h ≡ some (null, h)
unfolding remove
remove_missing f h hdr item z xs at_hdr ne missing = ground arith

module _ (f : ℕ) (h : Heap) (hdr item : Ptr) (xs : List Ptr) (q : IsQueue h hdr xs)
    (fuel : length xs < f) where
  -- With fuel for each entry, `mcapi_remove` of an entry of the queue returns it and leaves a queue
  -- that stands for the others in their order; no node outside the queue is written.
  pub remove-erase :
      item ≢ null
      → member item xs ≡ true
      → (g : Heap) × (remove f hdr item h ≡ some (item, g)) × Removed h hdr item xs g
  remove-erase ne i =
      let (g, run, after) = unlink-Removed h hdr item xs q i in
      let found : find_entry f item (first xs) h ≡ some (item, h) =
        rw (find_entry-member f h item null xs q.entries fuel, i) in
      (g, remove_found f h g hdr item q.back xs q.header q.real ne found run, after)

  -- With fuel for each entry, `mcapi_remove` of what is not in the queue returns null and writes
  -- nothing.
  pub remove-absent : member item xs ≡ false → remove f hdr item h ≡ some (null, h)
  remove-absent o =
      remove_missing f h hdr item q.back xs q.header q.real
        (rw (find_entry-member f h item null xs q.entries fuel, o))
