-- ===== src/Shm/Routes.antt =====
-- The routes of the shared-memory driver (libmcapi/shm/shm.c) as nodes join and leave.
use native.Mathlib.Decide.{ℕ_discrete}
use openmcapi_deprecated.Base.{
  ℕ, ◌≡◌, ◌≢◌, refl, sym, ap, ◌∙◌, true, false, none, some, List, [], ◌∷◌, eq→==, ne→==,
}
use openmcapi_deprecated.Status
use openmcapi_deprecated.Shm.{ShmRoute, MgmtBlock}
use openmcapi_deprecated.Shm.Driver.{
  invalid_route, find_unit, replace_first, has_node, shm_finalize, shm_slave_node_init,
}

module _ (node_id : ℕ) (r : ShmRoute) (rs : List ShmRoute) where
  module _ (same : r.node_id ≡ node_id) where
    unit_here : find_unit node_id (r ∷ rs) ≡ some r.unit_id
    unfolding find_unit
    unit_here = rw (eq→== r.node_id node_id same) refl

    has_here : has_node node_id (r ∷ rs) ≡ true
    unfolding has_node
    has_here = rw (eq→== r.node_id node_id same) refl

    replace_here : (new : ShmRoute) → replace_first node_id new (r ∷ rs) ≡ new ∷ rs
    unfolding replace_first
    replace_here new = rw (eq→== r.node_id node_id same) refl

  module _ (other : r.node_id ≢ node_id) where
    unit_later : find_unit node_id (r ∷ rs) ≡ find_unit node_id rs
    unfolding find_unit
    unit_later = rw (ne→== r.node_id node_id other) refl

    has_later : has_node node_id (r ∷ rs) ≡ has_node node_id rs
    unfolding has_node
    has_later = rw (ne→== r.node_id node_id other) refl

    replace_later :
        (new : ShmRoute) → replace_first node_id new (r ∷ rs) ≡ r ∷ replace_first node_id new rs
    unfolding replace_first
    replace_later new = rw (ne→== r.node_id node_id other) refl

-- Other nodes are reached as before.
find_unit-replace_ne :
    (key m : ℕ) (new : ShmRoute) (rs : List ShmRoute)
    → key ≢ m
    → new.node_id ≢ m
    → find_unit m (replace_first key new rs) ≡ find_unit m rs
unfolding replace_first
find_unit-replace_ne key m new [] d d' = refl
find_unit-replace_ne key m new (r ∷ rs) d d' = elim (ℕ_discrete r.node_id key) [
  | yes e ↦
      ap (find_unit m) (replace_here key r rs e new)
      ∙ unit_later m new rs d'
      ∙ sym (unit_later m r rs (λ e'. d (sym e ∙ e')))
  | no ne ↦ elim (ℕ_discrete r.node_id m) [
    | yes e ↦
        ap (find_unit m) (replace_later key r rs ne new)
        ∙ unit_here m r (replace_first key new rs) e
        ∙ sym (unit_here m r rs e)
    | no ne' ↦
        ap (find_unit m) (replace_later key r rs ne new)
        ∙ unit_later m r (replace_first key new rs) ne'
        ∙ find_unit-replace_ne key m new rs d d'
        ∙ sym (unit_later m r rs ne')
  ]
]

-- The new route is the one that is found.
find_unit-replace_new :
    (key : ℕ) (new : ShmRoute) (rs : List ShmRoute)
    → has_node key rs ≡ true
    → has_node new.node_id rs ≡ false
    → find_unit new.node_id (replace_first key new rs) ≡ some new.unit_id
unfolding has_node
find_unit-replace_new key new [] h absent = cc
find_unit-replace_new key new (r ∷ rs) h absent = elim (ℕ_discrete r.node_id key) [
  | yes e ↦
      ap (find_unit new.node_id) (replace_here key r rs e new) ∙ unit_here new.node_id new rs refl
  | no ne ↦ elim (ℕ_discrete r.node_id new.node_id) [
    | yes e ↦ let here = has_here new.node_id r rs e in cc
    | no ne' ↦
        ap (find_unit new.node_id) (replace_later key r rs ne new)
        ∙ unit_later new.node_id r (replace_first key new rs) ne'
        ∙ find_unit-replace_new key new rs (sym (has_later key r rs ne) ∙ h)
            (sym (has_later new.node_id r rs ne') ∙ absent)
  ]
]

-- A route that is the only one of its node is gone when it is overwritten.
absent_unit : (m : ℕ) (rs : List ShmRoute) → has_node m rs ≡ false → find_unit m rs ≡ none
unfolding find_unit has_node
absent_unit m [] h = refl
absent_unit m (r ∷ rs) h = elim (ℕ_discrete r.node_id m) [
  | yes e ↦ let here = has_here m r rs e in cc
  | no ne ↦ unit_later m r rs ne ∙ absent_unit m rs (sym (has_later m r rs ne) ∙ h)
]

module _ (key : ℕ) (new gone : ShmRoute) (apart : gone.node_id ≢ new.node_id) where
  find_unit-replace_back :
      (rs : List ShmRoute)
      → has_node new.node_id rs ≡ false
      → find_unit new.node_id (replace_first new.node_id gone (replace_first key new rs)) ≡ none
  unfolding find_unit replace_first
  find_unit-replace_back [] absent = refl
  find_unit-replace_back (r ∷ rs) absent = elim (ℕ_discrete r.node_id new.node_id) [
    | yes e ↦ let here = has_here new.node_id r rs e in cc
    | no ne' ↦
        let absent' = sym (has_later new.node_id r rs ne') ∙ absent in
        elim (ℕ_discrete r.node_id key) [
          | yes e ↦
              ap (λ l. find_unit new.node_id (replace_first new.node_id gone l))
                (replace_here key r rs e new)
              ∙ ap (find_unit new.node_id) (replace_here new.node_id new rs refl gone)
              ∙ unit_later new.node_id gone rs apart
              ∙ absent_unit new.node_id rs absent'
          | no ne ↦
              ap (λ l. find_unit new.node_id (replace_first new.node_id gone l))
                (replace_later key r rs ne new)
              ∙ ap (find_unit new.node_id)
                  (replace_later new.node_id r (replace_first key new rs) ne' gone)
              ∙ unit_later new.node_id r (replace_first new.node_id gone (replace_first key new rs))
                  ne'
              ∙ find_unit-replace_back rs absent'
        ]
  ]

  has_node-replace :
      (rs : List ShmRoute)
      → has_node key rs ≡ true
      → has_node new.node_id (replace_first key new rs) ≡ true
  unfolding has_node replace_first
  has_node-replace [] h = cc
  has_node-replace (r ∷ rs) h = elim (ℕ_discrete r.node_id key) [
    | yes e ↦
        ap (has_node new.node_id) (replace_here key r rs e new) ∙ has_here new.node_id new rs refl
    | no ne ↦ elim (ℕ_discrete r.node_id new.node_id) [
      | yes e ↦
          ap (has_node new.node_id) (replace_later key r rs ne new)
          ∙ has_here new.node_id r (replace_first key new rs) e
      | no ne' ↦
          ap (has_node new.node_id) (replace_later key r rs ne new)
          ∙ has_later new.node_id r (replace_first key new rs) ne'
          ∙ has_node-replace rs (sym (has_later key r rs ne) ∙ h)
    ]
  ]

module _ (unit_id node_id : ℕ) (b : MgmtBlock) (absent : has_node node_id b.routes ≡ false)
    (free : has_node 0xff b.routes ≡ true) where
  -- A node that has no route yet, where a route is free: `shm_slave_node_init` returns success, the node
  -- is then reached by its unit, every other node is reached as before, and the buffers and rings stay.
  pub shm_slave_node_init-joins :
      (b' : MgmtBlock) × (shm_slave_node_init unit_id node_id b ≡ (Status.success, b'))
      × (find_unit node_id b'.routes ≡ some unit_id)
      × ((m : ℕ) → m ≢ node_id → m ≢ 0xff → find_unit m b'.routes ≡ find_unit m b.routes)
      × (b'.queues ≡ b.queues)
      × (b'.buff_bit_mask ≡ b.buff_bit_mask)
  unfolding shm_slave_node_init
  shm_slave_node_init-joins =
      let new : ShmRoute = record { node_id = node_id; unit_id = unit_id } in
      (
        record b { routes = replace_first 0xff new b.routes },
        rw (shm_slave_node_init, absent) refl,
        find_unit-replace_new 0xff new b.routes free absent,
        (λ m d d'. find_unit-replace_ne 0xff m new b.routes (λ e. d' (sym e)) (λ e. d (sym e))),
        refl,
        refl,
      )

  -- When such a node then leaves, `shm_finalize` returns success, and every node is reached as before it
  -- joined.
  pub shm_finalize-shm_slave_node_init :
      node_id ≢ 0xff
      → (b' : MgmtBlock) × (shm_finalize node_id (shm_slave_node_init unit_id node_id b).1
          ≡ (Status.success, b'))
        × ((m : ℕ) → m ≢ 0xff → find_unit m b'.routes ≡ find_unit m b.routes)
  unfolding shm_slave_node_init shm_finalize
  shm_finalize-shm_slave_node_init d =
      let new : ShmRoute = record { node_id = node_id; unit_id = unit_id } in
      let joined = replace_first 0xff new b.routes in
      let back : 0xff ≢ node_id = λ e. d (sym e) in
      (
        record b { routes = replace_first node_id invalid_route joined },
        rw
            (
              shm_slave_node_init,
              absent,
              shm_finalize,
              has_node-replace 0xff new invalid_route back b.routes free,
            )
            refl,
        (λ m d'. elim (ℕ_discrete node_id m) [
          | yes e ↦
              ap (λ k. find_unit k (replace_first node_id invalid_route joined)) (sym e)
              ∙ find_unit-replace_back 0xff new invalid_route back b.routes absent
              ∙ sym (absent_unit node_id b.routes absent)
              ∙ ap (λ k. find_unit k b.routes) e
          | no ne ↦
              find_unit-replace_ne node_id m invalid_route joined ne (λ e. d' (sym e))
              ∙ find_unit-replace_ne 0xff m new b.routes (λ e. d' (sym e)) ne
        ]),
      )
