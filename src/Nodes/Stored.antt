-- ===== src/Nodes/Stored.antt =====
-- An entry of an endpoint table written in place with its port and state kept, as the message functions of
-- libmcapi/mcapi/msg_snd.c, msg_rcv.c and cntrl_msg.c do: every handle still leads where it did.
use openmcapi_deprecated.Base.{
  ℕ, zero, suc, ◌+◌, ◌%◌, ◌<◌, ◌≡◌, refl, sym, ap, ◌∙◌, some, List, [], ◌∷◌, ◌⊎◌, inl, inr, length,
  get_or, set, get_or-set_self, get_or-set_ne, set-get_or, set-set, length-set, Option-cases,
}
use native.Mathlib.Decide.{ℕ_discrete}
use openmcapi_deprecated.Endpoints.{
  Endpoint, Table, blank, slot, next_slot, find_from, find_endpoint,
}
use openmcapi_deprecated.Nodes.{Node, blank_node, find_node, find_node_from}
use openmcapi_deprecated.Nodes.Api.{
  endpoint_at, set_endpoint, decode_local_endpoint, find_local_endpoint,
}
use openmcapi_deprecated.Status
use openmcapi_deprecated.Handle.{decode_endpoint}

-- Two tables with the same ports and states.
pub record Alike (t u : Table) : Type 0 where
  pub ports : (j : ℕ) → (slot u j).port_id ≡ (slot t j).port_id
  pub states : (j : ℕ) → (slot u j).state ≡ (slot t j).state

find_from-Alike :
    (n k : ℕ) (t u : Table) (p i : ℕ) → Alike t u → find_from n k u p i ≡ find_from n k t p i
unfolding find_from
find_from-Alike n zero t u p i same = refl
find_from-Alike n (suc k) t u p i same =
    let j = next_slot n i in rw (same.ports j, same.states j, find_from-Alike n k t u p j same) refl

find_endpoint-Alike :
    (n : ℕ) (t u : Table) (p : ℕ) → Alike t u → find_endpoint n p u ≡ find_endpoint n p t
unfolding find_endpoint
find_endpoint-Alike n t u p same =
    rw (same.ports (p % n), same.states (p % n), find_from-Alike n n t u p (p % n) same) refl

Alike-set :
    (t : Table) (k : ℕ) (e : Endpoint)
    → k < length t
    → e.port_id ≡ (slot t k).port_id
    → e.state ≡ (slot t k).state
    → Alike t (set t k e)
Alike-set t k e in_table port state = record {
  ports = λ j. elim (ℕ_discrete k j) [
    | yes d ↦ rw (sym d) (ap (λ x. x.port_id) (get_or-set_self t k e blank in_table) ∙ port)
    | no d ↦ ap (λ x. x.port_id) (get_or-set_ne t k j e blank d)
  ];
  states = λ j. elim (ℕ_discrete k j) [
    | yes d ↦ rw (sym d) (ap (λ x. x.state) (get_or-set_self t k e blank in_table) ∙ state)
    | no d ↦ ap (λ x. x.state) (get_or-set_ne t k j e blank d)
  ];
}

find_node_from-set :
    (target at i : ℕ) (ns : List Node) (m : Node)
    → m.node_id ≡ (get_or ns i blank_node).node_id
    → m.state ≡ (get_or ns i blank_node).state
    → find_node_from target at (set ns i m) ≡ find_node_from target at ns
unfolding find_node_from
find_node_from-set target at i [] m id state = refl
find_node_from-set target at zero (n ∷ ns) m id state = rw (id, state) refl
find_node_from-set target at (suc i) (n ∷ ns) m id state =
    rw (find_node_from-set target (at + 1) i ns m id state) refl

not-inl-inr : {s : ℕ ⊎ (ℕ × ℕ)} {a : ℕ} {b : ℕ × ℕ} → s ≡ inl a → ¬ s ≡ inr b
not-inl-inr e f = cc

inr-eq : {a b : ℕ × ℕ} → ◌≡◌ {A = ℕ ⊎ (ℕ × ℕ)} (inr a) (inr b) → a ≡ b
inr-eq e = cc

pub set_endpoint_same :
    (nodes : List Node) (i k : ℕ) → set_endpoint nodes (i, k) (endpoint_at nodes (i, k)) ≡ nodes
set_endpoint_same nodes i k =
    let node = get_or nodes i blank_node in
    rw (set-get_or node.endpoint_list k blank) (set-get_or nodes i blank_node)

pub set_endpoint-set_endpoint :
    (nodes : List Node) (i k : ℕ) (e f : Endpoint)
    → i < length nodes
    → set_endpoint (set_endpoint nodes (i, k) e) (i, k) f ≡ set_endpoint nodes (i, k) f
set_endpoint-set_endpoint nodes i k e f has_node =
    let node = get_or nodes i blank_node in
    let written = record node { endpoint_list = set node.endpoint_list k e } in
    rw (get_or-set_self nodes i written blank_node has_node, set-set node.endpoint_list k e f)
      (set-set nodes i written (record node { endpoint_list = set node.endpoint_list k f }))

-- The endpoint that a handle names is the one with the node and the port of the handle.
pub decode_local_endpoint-found :
    (n : ℕ) (nodes : List Node) (h : ℕ) (place : ℕ × ℕ)
    → decode_local_endpoint n nodes h ≡ inr place
    → find_local_endpoint n nodes (decode_endpoint h).0 (decode_endpoint h).1 ≡ some place
unfolding decode_local_endpoint find_local_endpoint
decode_local_endpoint-found n nodes h place e =
    elim (Option-cases (find_node (decode_endpoint h).0 nodes)) [
      | inl gone ↦
          let wrong : decode_local_endpoint n nodes h ≡ inl Status.err_endp_notowner =
            rw (decode_local_endpoint, gone) refl in
          absurd (not-inl-inr wrong e)
      | inr (i, here) ↦
          let t = (get_or nodes i blank_node).endpoint_list in
          elim (Option-cases (find_endpoint n (decode_endpoint h).1 t)) [
            | inl gone ↦
                let wrong : decode_local_endpoint n nodes h ≡ inl Status.err_endp_invalid =
                  rw (decode_local_endpoint, here, gone) refl in
                absurd (not-inl-inr wrong e)
            | inr (k, there) ↦
                let right : decode_local_endpoint n nodes h ≡ inr (i, k) =
                  rw (decode_local_endpoint, here, there) refl in
                let same : (i, k) ≡ place = inr-eq (sym right ∙ e) in
                rw (find_local_endpoint, here, there) (ap some same)
          ]
    ]

-- A place in the nodes, with an entry to write there that keeps the port and the state.
module _ (n : ℕ) (nodes : List Node) (i k : ℕ) (e : Endpoint) (has_node : i < length nodes)
    (has_slot : k < length (get_or nodes i blank_node).endpoint_list)
    (port : e.port_id ≡ (endpoint_at nodes (i, k)).port_id)
    (state : e.state ≡ (endpoint_at nodes (i, k)).state) where
  find_node-set_endpoint :
      (target : ℕ) → find_node target (set_endpoint nodes (i, k) e) ≡ find_node target nodes
  unfolding find_node
  find_node-set_endpoint target =
      let node = get_or nodes i blank_node in
      find_node_from-set target 0 i nodes
        (record node { endpoint_list = set node.endpoint_list k e }) refl refl

  tables_Alike :
      (j : ℕ)
      → Alike
          (get_or nodes j blank_node).endpoint_list
          (get_or (set_endpoint nodes (i, k) e) j blank_node).endpoint_list
  tables_Alike j = elim (ℕ_discrete i j) [
    | yes d ↦
        let node = get_or nodes i blank_node in
        let written = record node { endpoint_list = set node.endpoint_list k e } in
        rw (sym d, get_or-set_self nodes i written blank_node has_node)
          (Alike-set node.endpoint_list k e has_slot port state)
    | no d ↦
        let node = get_or nodes i blank_node in
        let written = record node { endpoint_list = set node.endpoint_list k e } in
        rw (get_or-set_ne nodes i j written blank_node d)
          record { ports = λ j. refl; states = λ j. refl }
  ]

  find_endpoint-set_endpoint :
      (p j : ℕ)
      → find_endpoint n p (get_or (set_endpoint nodes (i, k) e) j blank_node).endpoint_list
        ≡ find_endpoint n p (get_or nodes j blank_node).endpoint_list
  find_endpoint-set_endpoint p j =
      find_endpoint-Alike n (get_or nodes j blank_node).endpoint_list
        (get_or (set_endpoint nodes (i, k) e) j blank_node).endpoint_list p (tables_Alike j)

  pub decode_local_endpoint-set_endpoint :
      (h : ℕ)
      → decode_local_endpoint n (set_endpoint nodes (i, k) e) h ≡ decode_local_endpoint n nodes h
  unfolding decode_local_endpoint
  decode_local_endpoint-set_endpoint h =
      let node_id = (decode_endpoint h).0 in
      let same = find_endpoint-set_endpoint (decode_endpoint h).1 in
      elim (Option-cases (find_node node_id nodes)) [
        | inl none_found ↦
            rw (decode_local_endpoint, find_node-set_endpoint node_id, none_found) refl
        | inr (j, found) ↦
            rw (decode_local_endpoint, find_node-set_endpoint node_id, found, same j) refl
      ]

  pub find_local_endpoint-set_endpoint :
      (node_id p : ℕ)
      → find_local_endpoint n (set_endpoint nodes (i, k) e) node_id p
        ≡ find_local_endpoint n nodes node_id p
  unfolding find_local_endpoint
  find_local_endpoint-set_endpoint node_id p = elim (Option-cases (find_node node_id nodes)) [
    | inl none_found ↦ rw (find_local_endpoint, find_node-set_endpoint node_id, none_found) refl
    | inr (j, found) ↦
        rw
          (
            find_local_endpoint,
            find_node-set_endpoint node_id,
            found,
            find_endpoint-set_endpoint p j,
          )
          refl
  ]

  pub endpoint_at-set_endpoint : endpoint_at (set_endpoint nodes (i, k) e) (i, k) ≡ e
  endpoint_at-set_endpoint =
      let node = get_or nodes i blank_node in
      let written = record node { endpoint_list = set node.endpoint_list k e } in
      rw (get_or-set_self nodes i written blank_node has_node)
        (get_or-set_self node.endpoint_list k e blank has_slot)

  pub length-set_endpoint : length (set_endpoint nodes (i, k) e) ≡ length nodes
  length-set_endpoint =
      let node = get_or nodes i blank_node in
      length-set nodes i (record node { endpoint_list = set node.endpoint_list k e })

  pub slots-set_endpoint :
      length (get_or (set_endpoint nodes (i, k) e) i blank_node).endpoint_list
      ≡ length (get_or nodes i blank_node).endpoint_list
  slots-set_endpoint =
      let node = get_or nodes i blank_node in
      let written = record node { endpoint_list = set node.endpoint_list k e } in
      rw (get_or-set_self nodes i written blank_node has_node) (length-set node.endpoint_list k e)
