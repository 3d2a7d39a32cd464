-- ===== src/Shm/Ring.antt =====
-- The ring of packet descriptors (libmcapi/shm/shm.c), operation by operation.
use native.Mathlib.Nat.{mod-eq_of_lt}
use openmcapi_deprecated.Base.{
  ℕ, zero, suc, ◌+◌, ◌-◌, ◌%◌, ◌^◌, ◌≤◌, ◌<◌, ◌≡◌, ◌≢◌, refl, sym, ap, ◌∙◌, some, none, arith, List,
  [], ◌∷◌, ◌++◌, length, set, get_or, length-set, get_or-set_self, get_or-set_ne, eq→==, ne→==,
}
use openmcapi_deprecated.Status
use openmcapi_deprecated.Endpoints.Update.{pos-injective}
use openmcapi_deprecated.Shm.{
  Desc, DescQ, q_size, blank_desc, enqueue_sm_ring_q, shm_desc_get_next, shm_desc_consume,
}

-- The c descriptors from index g on, round the end of the ring.
unfoldable pub window : List Desc → ℕ → ℕ → List Desc
window b g zero = []
window b g (suc c) = get_or b (g % 16) blank_desc ∷ window b (g + 1) c

-- What a ring holds, the oldest first.
unfoldable pub contents : DescQ → List Desc
contents q = window q.pkt_desc_q q.get_idx q.count

pub record RingValid (q : DescQ) : Type 0 where
  pub sized : length q.pkt_desc_q ≡ q_size
  pub get_in_range : q.get_idx < q_size
  pub bounded : q.count ≤ q_size
  pub put_follows : q.put_idx ≡ (q.get_idx + q.count) % q_size

window-snoc :
    (b : List Desc) (g c : ℕ)
    → window b g (suc c) ≡ window b g c ++ get_or b ((g + c) % 16) blank_desc ∷ []
unfolding window
window-snoc b g zero = ap (λ m. get_or b (m % 16) blank_desc ∷ []) (omega arith)
window-snoc b g (suc c) =
    ap (λ t. get_or b (g % 16) blank_desc ∷ t)
      (window-snoc b (g + 1) c
        ∙ ap (λ m. window b (g + 1) c ++ get_or b (m % 16) blank_desc ∷ []) (omega arith))

window-set :
    (b : List Desc) (p : ℕ) (d : Desc) (g c : ℕ)
    → ((i : ℕ) → i < c → p ≢ (g + i) % 16)
    → window (set b p d) g c ≡ window b g c
unfolding window
window-set b p d g zero h = refl
window-set b p d g (suc c) h =
    let apart : p ≢ g % 16 = λ e. h 0 (omega arith) (e ∙ ap (λ m. m % 16) (omega arith)) in
    let rest =
      window-set b p d (g + 1) c
        (λ i lt e. h (suc i) (omega arith) (e ∙ ap (λ m. m % 16) (omega arith))) in
    rw (get_or-set_ne b p (g % 16) d blank_desc apart, rest) refl

window-mod : (b : List Desc) (g c : ℕ) → window b (g % 16) c ≡ window b g c
unfolding window
window-mod b g zero = refl
window-mod b g (suc c) =
    let here : g % 16 % 16 ≡ g % 16 = omega arith in
    let next : window b (g % 16 + 1) c ≡ window b (g + 1) c =
      sym (window-mod b (g % 16 + 1) c)
      ∙ ap (λ m. window b m c) (omega arith)
      ∙ window-mod b (g + 1) c in
    rw (here, next) refl

length-window : (b : List Desc) (g c : ℕ) → length (window b g c) ≡ c
unfolding window
length-window b g zero = refl
length-window b g (suc c) = ap suc (length-window b (g + 1) c)

-- The descriptor that a call of `enqueue_sm_ring_q` is about.
abbrev pub desc_of : ℕ → ℕ → ℕ → Desc
desc_of value priority type = record {
  value = value;
  type = type % 2 ^ 16;
  priority = priority % 2 ^ 16;
}

-- The ring after `enqueue_sm_ring_q` has stored d.
abbrev pub stored : DescQ → Desc → DescQ
stored q d = record q {
  pkt_desc_q = set q.pkt_desc_q q.put_idx d;
  put_idx = (q.put_idx + 1) % 2 ^ 32 % q_size;
  count = (q.count + 1) % 2 ^ 32;
}

module _ (q : DescQ) (v : RingValid q) where
  pub length-contents : length (contents q) ≡ q.count
  unfolding contents
  length-contents = length-window q.pkt_desc_q q.get_idx q.count

  module _ (d : Desc) (room : q.count < q_size) where
    put_in_range : q.put_idx < length q.pkt_desc_q
    put_in_range = omega (arith, v.sized, v.put_follows)

    put_apart : (i : ℕ) → i < q.count → q.put_idx ≢ (q.get_idx + i) % 16
    put_apart i lt e =
        let same =
          pos-injective 16 q.get_idx q.count i v.get_in_range room (omega arith)
            (sym v.put_follows ∙ e) in
        omega arith

    contents-stored : contents (stored q d) ≡ contents q ++ d ∷ []
    unfolding contents
    contents-stored =
        ap (window (set q.pkt_desc_q q.put_idx d) q.get_idx) (omega arith)
        ∙ window-snoc (set q.pkt_desc_q q.put_idx d) q.get_idx q.count
        ∙ ap
            (λ t.
              t
              ++ get_or (set q.pkt_desc_q q.put_idx d) ((q.get_idx + q.count) % 16) blank_desc ∷ [])
            (window-set q.pkt_desc_q q.put_idx d q.get_idx q.count put_apart)
        ∙ ap
            (λ m.
              window q.pkt_desc_q q.get_idx q.count
              ++ get_or (set q.pkt_desc_q q.put_idx d) m blank_desc ∷ [])
            (sym v.put_follows)
        ∙ ap (λ e. window q.pkt_desc_q q.get_idx q.count ++ e ∷ [])
            (get_or-set_self q.pkt_desc_q q.put_idx d blank_desc put_in_range)

    stored-RingValid : RingValid (stored q d)
    stored-RingValid = record {
      sized = length-set q.pkt_desc_q q.put_idx d ∙ v.sized;
      get_in_range = v.get_in_range;
      bounded = omega arith;
      put_follows = omega (arith, v.put_follows);
    }

  enqueue-stored :
      (value priority type : ℕ)
      → q.count < q_size
      → enqueue_sm_ring_q q value priority type
        ≡ (Status.success, stored q (desc_of value priority type))
  unfolding enqueue_sm_ring_q
  enqueue-stored value priority type room =
      rw (enqueue_sm_ring_q, ne→== q.count 16 (λ e. omega arith)) refl

  enqueue-full :
      (value priority type : ℕ)
      → q.count ≡ q_size
      → enqueue_sm_ring_q q value priority type ≡ (Status.err_transmission, q)
  unfolding enqueue_sm_ring_q
  enqueue-full value priority type full = rw (enqueue_sm_ring_q, eq→== q.count 16 full) refl

  -- In a valid ring, `enqueue_sm_ring_q` refuses a descriptor when 16 are held, and changes nothing;
  -- otherwise it returns success, what is held has the descriptor as its newest, and the ring is valid.
  pub enqueue_sm_ring_q-append :
      (value priority type : ℕ)
      → ((length (contents q) ≡ q_size
            → enqueue_sm_ring_q q value priority type ≡ (Status.err_transmission, q))
          × (length (contents q) ≢ q_size
              → (q' : DescQ) × (enqueue_sm_ring_q q value priority type ≡ (Status.success, q'))
                × (contents q' ≡ contents q ++ desc_of value priority type ∷ [])
                × RingValid q'))
  enqueue_sm_ring_q-append value priority type = (
    (λ full. enqueue-full value priority type (sym length-contents ∙ full)),
    (λ room.
        let ne : q.count ≢ 16 = λ e. room (length-contents ∙ e) in
        let less : q.count < 16 = omega (arith, v.bounded) in
        (
          stored q (desc_of value priority type),
          enqueue-stored value priority type less,
          contents-stored (desc_of value priority type) less,
          stored-RingValid (desc_of value priority type) less,
        )),
  )

  -- In a valid ring, `shm_desc_get_next` returns nothing if nothing is held; otherwise it returns the
  -- oldest descriptor, and `shm_desc_consume` removes just that one and leaves a valid ring.
  pub shm_desc_consume-tail :
      ((contents q ≡ [] → shm_desc_get_next q ≡ none)
        × ((d : Desc) (ds : List Desc)
            → contents q ≡ d ∷ ds
            → (shm_desc_get_next q ≡ some d)
              × (contents (shm_desc_consume q) ≡ ds)
              × RingValid (shm_desc_consume q)))
  unfolding shm_desc_get_next shm_desc_consume contents window
  shm_desc_consume-tail = (
    (λ e. let n = sym length-contents ∙ ap length e in rw (eq→== q.count 0 n) refl),
    (λ d ds e.
        taken d ds e (q.count - 1) (let n = sym length-contents ∙ ap length e in omega arith)),
  )
    where
      taken :
          (d : Desc) (ds : List Desc)
          → contents q ≡ d ∷ ds
          → (c : ℕ) → q.count ≡ suc c
          → (shm_desc_get_next q ≡ some d)
            × (contents (shm_desc_consume q) ≡ ds)
            × RingValid (shm_desc_consume q)
      taken d ds e c n =
          let split : get_or q.pkt_desc_q (q.get_idx % 16) blank_desc
                ∷ window q.pkt_desc_q (q.get_idx + 1) c
              ≡ d ∷ ds =
            sym (ap (window q.pkt_desc_q q.get_idx) n) ∙ e in
          let head_eq : get_or q.pkt_desc_q (q.get_idx % 16) blank_desc ≡ d = cc in
          let tail_eq : window q.pkt_desc_q (q.get_idx + 1) c ≡ ds = cc in
          let at_get : q.get_idx % 16 ≡ q.get_idx = mod-eq_of_lt v.get_in_range in
          let next : (q.get_idx + 1) % 2 ^ 32 % 16 ≡ (q.get_idx + 1) % 16 =
            omega (arith, v.get_in_range) in
          let left : (q.count + (2 ^ 32 - 1)) % 2 ^ 32 ≡ c = omega (arith, v.bounded) in
          (
            rw (ne→== q.count 0 (λ z. omega arith))
                (ap some (ap (λ m. get_or q.pkt_desc_q m blank_desc) (sym at_get) ∙ head_eq)),
            ap (λ m. window q.pkt_desc_q m ((q.count + (2 ^ 32 - 1)) % 2 ^ 32)) next
                ∙ window-mod q.pkt_desc_q (q.get_idx + 1) _
                ∙ ap (window q.pkt_desc_q (q.get_idx + 1)) left
                ∙ tail_eq,
            record {
              sized = v.sized;
              get_in_range = omega arith;
              bounded = omega (arith, v.bounded);
              put_follows = v.put_follows ∙ omega (arith, v.bounded, v.get_in_range);
            },
          )
