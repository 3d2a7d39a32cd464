-- ===== src/Nodes/Create.antt =====
-- `create_endpoint` (libmcapi/mcapi/create_endpoint.c), branch by branch and as a whole.
use mathlib.Core.Path.{subst}
use native.Mathlib.Decide.{dec_lt, ℕ_discrete}
use openmcapi_deprecated.Base.{
  ℕ, suc, ◌^◌, ◌<◌, ◌≡◌, ◌≢◌, refl, sym, ◌∙◌, inl, inr, some, none, arith, some-eq, Option-cases,
  lt→ltb, ge→ltb, eq→==, ne→==,
}
use openmcapi_deprecated.Status
use openmcapi_deprecated.Handle.{encode_endpoint}
use openmcapi_deprecated.Endpoints.{find_endpoint}
use openmcapi_deprecated.Nodes.Valid.{IsValid}
use openmcapi_deprecated.Nodes.Ports.{pick_port-total, pick_port-unused}
use openmcapi_deprecated.Nodes.{Node, Created, refuse, place, pick_port, create_endpoint, port_any}
use openmcapi_deprecated.Nodes.Place.{Opened, place-Opened, place-IsValid}

-- What `create_endpoint` does, branch by branch.
module _ (n fuel : ℕ) (node : Node) (next_port port : ℕ) where
  pub create-full :
      ¬ node.endpoint_count < n
      → create_endpoint n fuel node next_port port ≡ some (refuse Status.err_general node next_port)
  unfolding create_endpoint
  create-full h = rw (create_endpoint, ge→ltb _ _ h) refl

  pub create-taken :
      (k : ℕ)
      → node.endpoint_count < n
      → port ≢ port_any
      → find_endpoint n port node.endpoint_list ≡ some k
      → create_endpoint n fuel node next_port port
        ≡ some (refuse Status.err_endp_exists node next_port)
  unfolding create_endpoint
  create-taken k lt ne e = rw (create_endpoint, lt→ltb _ _ lt, ne→== _ _ ne, e) refl

  pub create-named :
      node.endpoint_count < n
      → port ≢ port_any
      → find_endpoint n port node.endpoint_list ≡ none
      → create_endpoint n fuel node next_port port ≡ some (place n node port next_port)
  unfolding create_endpoint
  create-named lt ne e = rw (create_endpoint, lt→ltb _ _ lt, ne→== _ _ ne, e) refl

  pub create-stuck :
      node.endpoint_count < n
      → port ≡ port_any
      → pick_port n fuel node.endpoint_list next_port ≡ none
      → create_endpoint n fuel node next_port port ≡ none
  unfolding create_endpoint
  create-stuck lt e run = rw (create_endpoint, lt→ltb _ _ lt, eq→== _ _ e, run) refl

  pub create-picked :
      (p after : ℕ)
      → node.endpoint_count < n
      → port ≡ port_any
      → pick_port n fuel node.endpoint_list next_port ≡ some (p, after)
      → p ≢ port_any
      → create_endpoint n fuel node next_port port ≡ some (place n node p after)
  unfolding create_endpoint
  create-picked p after lt e run ne =
      rw (create_endpoint, lt→ltb _ _ lt, eq→== _ _ e, run, ne→== _ _ ne) refl

module _ (n : ℕ) (pos_n : 0 < n) (small : n < 2 ^ 16) (node : Node) (next_port : ℕ)
    (v : IsValid n node) where
  -- A node with room to which no open endpoint has the port: `create_endpoint` returns success and the
  -- handle that encodes the node and the port; afterwards the node is valid, the port is found at a slot
  -- that holds the new endpoint, every other port is found where it was, and the count is one more.
  pub create_endpoint-opens :
      (port fuel : ℕ)
      → port ≢ port_any
      → node.endpoint_count < n
      → find_endpoint n port node.endpoint_list ≡ none
      → (r : Created) × (create_endpoint n fuel node next_port port ≡ some r)
        × (r.status ≡ Status.success)
        × (r.endpoint ≡ encode_endpoint node.node_id port)
        × Opened n node r.node port
  create_endpoint-opens port fuel ne room missing =
      let (s, h, o) = place-Opened n pos_n (omega arith) node port v missing next_port room in
      (
        place n node port next_port,
        create-named n fuel node next_port port room ne missing,
        s,
        h,
        o,
      )

  -- With MCAPI_PORT_ANY, a node of fewer than 2 ^ 16 slots with room gets an endpoint on some unused port
  -- of 16 bits, and the search for the port ends within one round more than there are slots.
  pub create_endpoint-any_port :
      next_port < 2 ^ 16
      → node.endpoint_count < n
      → (p : ℕ) × (r : Created) × (create_endpoint n (suc n) node next_port port_any ≡ some r)
        × (p < 2 ^ 16)
        × (find_endpoint n p node.endpoint_list ≡ none)
        × (r.status ≡ Status.success)
        × (r.endpoint ≡ encode_endpoint node.node_id p)
        × Opened n node r.node p
  create_endpoint-any_port lt room =
      let (p, after, run, missing, bits) =
        pick_port-total n pos_n node.endpoint_list next_port small lt v.clean v.sized in
      let (s, h, o) = place-Opened n pos_n (omega arith) node p v missing after room in
      (
        p,
        place n node p after,
        create-picked n (suc n) node next_port port_any p after room refl run (omega arith),
        bits,
        missing,
        s,
        h,
        o,
      )

  -- Whatever `create_endpoint` returns on a valid node with a 16-bit MCAPI_Next_Port, the node is
  -- valid afterwards.
  pub create_endpoint-IsValid :
      (port fuel : ℕ) (r : Created)
      → next_port < 2 ^ 16
      → create_endpoint n fuel node next_port port ≡ some r
      → IsValid n r.node
  create_endpoint-IsValid port fuel r lt run = elim (dec_lt node.endpoint_count n) [
    | no full ↦ at_result (create-full n fuel node next_port port full) v
    | yes room ↦ elim (ℕ_discrete port port_any) [
      | no ne ↦ elim (Option-cases (find_endpoint n port node.endpoint_list)) [
        | inr (k, e) ↦ at_result (create-taken n fuel node next_port port k room ne e) v
        | inl e ↦
            at_result (create-named n fuel node next_port port room ne e)
              (place-IsValid n pos_n (omega arith) node port v e next_port)
      ]
      | yes any ↦ elim (Option-cases (pick_port n fuel node.endpoint_list next_port)) [
        | inl e ↦ let stuck = create-stuck n fuel node next_port port room any e in cc
        | inr (q, e) ↦
            let (missing, bits) =
              pick_port-unused n pos_n fuel next_port q.0 q.1 node.endpoint_list lt e in
            at_result (create-picked n fuel node next_port port q.0 q.1 room any e (omega arith))
              (place-IsValid n pos_n (omega arith) node q.0 v missing q.1)
      ]
    ]
  ]
    where
      at_result :
          {s : Created}
          → create_endpoint n fuel node next_port port ≡ some s
          → IsValid n s.node
          → IsValid n r.node
      at_result e w = subst (λ c. IsValid n c.node) (some-eq (sym e ∙ run)) w
