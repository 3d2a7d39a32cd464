-- ===== src/Nodes/States.antt =====
-- The states of the endpoints of all nodes when one entry of a table is written, as the functions of
-- libmcapi/mcapi/msg_snd.c, cntrl_msg.c and connect.c do.
use openmcapi_deprecated.Base.{
  ℕ, ◌≡◌, ◌⊎◌, inl, inr, refl, sym, ap, ◌∙◌, List, get_or, set, get_or-set_any, get_or-set_ne,
  get_or-set_self, get_or-range, true, false,
}
use native.Mathlib.Decide.{ℕ_discrete}
use openmcapi_deprecated.Endpoints.{Endpoint, blank, slot, endp_open, has_flag}
use openmcapi_deprecated.Nodes.{Node, blank_node}
use openmcapi_deprecated.Nodes.Api.{endpoint_at, set_endpoint}

abbrev pub state_at : List Node → ℕ × ℕ → ℕ
state_at nodes q = (endpoint_at nodes q).state

-- No endpoint has another state.
unfoldable pub SameStates : List Node → List Node → Type 0
SameStates nodes nodes' = (q : ℕ × ℕ) → state_at nodes' q ≡ state_at nodes q

false-true : ¬ false ≡ true
false-true e = cc

pub SameStates-refl : (nodes : List Node) → SameStates nodes nodes
unfolding SameStates
SameStates-refl nodes q = refl

pub SameStates-trans : (a b c : List Node) → SameStates a b → SameStates b c → SameStates a c
unfolding SameStates
SameStates-trans a b c p r q = r q ∙ p q

-- After a write, an endpoint has the state that was written, and that at the place of the write, or its own.
pub state_at-set_endpoint :
    (nodes : List Node) (p : ℕ × ℕ) (e : Endpoint) (q : ℕ × ℕ)
    → ((state_at (set_endpoint nodes p e) q ≡ e.state) × (state_at nodes q ≡ state_at nodes p))
      ⊎ (state_at (set_endpoint nodes p e) q ≡ state_at nodes q)
state_at-set_endpoint nodes (i, k) e (j, l) =
    let node = get_or nodes i blank_node in
    let written = record node { endpoint_list = set node.endpoint_list k e } in
    elim (ℕ_discrete i j) [
      | no d ↦
          inr (
            ap (λ x. (slot x.endpoint_list l).state) (get_or-set_ne nodes i j written blank_node d))
      | yes d ↦ rw (sym d) (elim (get_or-set_any nodes i written blank_node) [
        | inr old ↦ inr (ap (λ x. (slot x.endpoint_list l).state) old)
        | inl new ↦
            let there = ap (λ x. (slot x.endpoint_list l).state) new in
            elim (ℕ_discrete k l) [
              | no f ↦
                  inr (there ∙ ap (λ x. x.state) (get_or-set_ne node.endpoint_list k l e blank f))
              | yes f ↦ elim (get_or-set_any node.endpoint_list k e blank) [
                | inl here ↦ inl (
                  there
                      ∙ ap (λ l. (slot (set node.endpoint_list k e) l).state) (sym f)
                      ∙ ap (λ x. x.state) here,
                  ap (λ l. state_at nodes (i, l)) (sym f),
                )
                | inr past ↦ inr (
                    there
                    ∙ ap (λ l. (slot (set node.endpoint_list k e) l).state) (sym f)
                    ∙ ap (λ x. x.state) past
                    ∙ ap (λ l. state_at nodes (i, l)) f)
              ]
            ]
      ])
    ]

pub set_endpoint-SameStates :
    (nodes : List Node) (p : ℕ × ℕ) (e : Endpoint)
    → e.state ≡ state_at nodes p
    → SameStates nodes (set_endpoint nodes p e)
unfolding SameStates
set_endpoint-SameStates nodes p e same q = elim (state_at-set_endpoint nodes p e q) [
  | inl (new, old) ↦ new ∙ same ∙ sym old
  | inr kept ↦ kept
]

-- What is written over an open endpoint stands there.
pub endpoint_at-set_open :
    (nodes : List Node) (p : ℕ × ℕ) (e : Endpoint)
    → has_flag (state_at nodes p) endp_open ≡ true
    → endpoint_at (set_endpoint nodes p e) p ≡ e
endpoint_at-set_open nodes (i, k) e live =
    let node = get_or nodes i blank_node in
    let written = record node { endpoint_list = set node.endpoint_list k e } in
    elim (get_or-range nodes i blank_node) [
      | inr past ↦ absurd (
          false-true
            (sym (ap (λ x. has_flag (slot x.endpoint_list k).state endp_open) past) ∙ live))
      | inl has_node ↦ elim (get_or-range node.endpoint_list k blank) [
        | inr past ↦ absurd (false-true (sym (ap (λ x. has_flag x.state endp_open) past) ∙ live))
        | inl has_slot ↦
            ap (λ x. slot x.endpoint_list k) (get_or-set_self nodes i written blank_node has_node)
            ∙ get_or-set_self node.endpoint_list k e blank has_slot
      ]
    ]
