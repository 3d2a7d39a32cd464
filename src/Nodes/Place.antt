-- ===== src/Nodes/Place.antt =====
-- The part of `create_endpoint` (libmcapi/mcapi/create_endpoint.c) that uses a slot for an unused port.
use mathlib.Core.Path.{subst}
use native.Mathlib.Nat.{mod-eq_of_lt}
use native.Mathlib.Decide.{ℕ_discrete}
use openmcapi_deprecated.Base.{
  ℕ, ◌+◌, ◌%◌, ◌^◌, ◌<◌, ◌≡◌, ◌≢◌, refl, sym, ap, ◌∙◌, inl, inr, some, none, arith, length, set,
  length-set, Option-cases,
}
use openmcapi_deprecated.Status
use openmcapi_deprecated.Handle.{encode_endpoint}
use openmcapi_deprecated.Endpoints.{Endpoint, Table, slot, find_endpoint, find_slot}
use openmcapi_deprecated.Endpoints.Live.{pos-lt}
use openmcapi_deprecated.Endpoints.Slots.{find_slot-FirstFree, find_slot-total}
use openmcapi_deprecated.Endpoints.Update.{slot-set_self, slot-set_ne}
use openmcapi_deprecated.Nodes.Valid.{
  IsValid, count_used, count_used-le, closed_slot, count_used-set,
}
use openmcapi_deprecated.Endpoints.Insert.{
  Settled, Insertable, Clean-set, find_endpoint-set_self, find_endpoint-set_ne,
}
use openmcapi_deprecated.Nodes.{Node, fresh_endpoint, place}

-- What a successful creation with port p does to a node.
pub record Opened (n : ℕ) (before after : Node) (p : ℕ) : Type 0 where
  pub at : ℕ
  pub valid : IsValid n after
  pub found : find_endpoint n p after.endpoint_list ≡ some at
  pub entry : slot after.endpoint_list at ≡ fresh_endpoint before.node_id p
  pub others :
      (q : ℕ)
      → p ≢ q
      → find_endpoint n q after.endpoint_list ≡ find_endpoint n q before.endpoint_list
  pub count : after.endpoint_count ≡ before.endpoint_count + 1
  pub same_id : after.node_id ≡ before.node_id
  pub same_state : after.state ≡ before.state

-- `place` keeps the next port it is given.
pub place-next_port : (n : ℕ) (node : Node) (p after : ℕ) → (place n node p after).next_port ≡ after
unfolding place
place-next_port n node p after = elim (Option-cases (find_slot n p node.endpoint_list)) [
  | inl e ↦ rw (place, e) refl
  | inr (k, e) ↦ rw (place, e) refl
]

-- The node after `place` has used slot k.
abbrev put : Node → ℕ → ℕ → Node
put node p k = record node {
  endpoint_count = (node.endpoint_count + 1) % 2 ^ 32;
  endpoint_list = set node.endpoint_list k (fresh_endpoint node.node_id p);
}

pub Settled-set :
    (n : ℕ) (t : Table) (k : ℕ) (x : Endpoint)
    → k < length t
    → Settled x
    → ((i : ℕ) → i < n → Settled (slot t i))
    → (i : ℕ) → i < n
    → Settled (slot (set t k x) i)
Settled-set n t k x lt sx st i h = elim (ℕ_discrete k i) [
  | yes at ↦ subst Settled (sym (slot-set_self n t k x lt) ∙ ap (slot (set t k x)) at) sx
  | no apart ↦ subst Settled (sym (slot-set_ne n t k x lt i apart)) (st i h)
]

module _ (n : ℕ) (pos_n : 0 < n) (small : n < 2 ^ 32) (node : Node) (p : ℕ) (v : IsValid n node)
    (missing : find_endpoint n p node.endpoint_list ≡ none) where
  insertable :
      (k : ℕ) → find_slot n p node.endpoint_list ≡ some k → Insertable n node.endpoint_list p k
  insertable k run =
      let first = find_slot-FirstFree n pos_n node.endpoint_list p k run in
      record {
        pos_n = pos_n;
        clean = v.clean;
        settled = v.settled;
        in_table =
            subst (λ l. k < l) (sym v.sized)
              (subst (λ i. i < n) (sym first.at_slot) (pos-lt n pos_n (p % n) first.d));
        missing = missing;
        first = first;
      }

  used_more :
      (k : ℕ) (ins : Insertable n node.endpoint_list p k)
      → count_used (set node.endpoint_list k (fresh_endpoint node.node_id p))
        ≡ node.endpoint_count + 1
  used_more k ins =
      count_used-set node.endpoint_list k (fresh_endpoint node.node_id p) ins.in_table
        ins.first.closed (λ e. omega (arith, e))
      ∙ ap (λ c. c + 1) (sym v.counted)

  no_wrap :
      (k : ℕ) (ins : Insertable n node.endpoint_list p k)
      → (node.endpoint_count + 1) % 2 ^ 32 ≡ node.endpoint_count + 1
  no_wrap k ins =
      let more = used_more k ins in
      let le = count_used-le (set node.endpoint_list k (fresh_endpoint node.node_id p)) in
      let len = length-set node.endpoint_list k (fresh_endpoint node.node_id p) in
      mod-eq_of_lt (omega (arith, v.sized))

  put-IsValid : (k : ℕ) (ins : Insertable n node.endpoint_list p k) → IsValid n (put node p k)
  put-IsValid k ins = record {
    sized = length-set node.endpoint_list k (fresh_endpoint node.node_id p) ∙ v.sized;
    settled =
        Settled-set n node.endpoint_list k (fresh_endpoint node.node_id p) ins.in_table (inr refl)
          v.settled;
    clean = Clean-set n node.endpoint_list p k (fresh_endpoint node.node_id p) ins refl;
    counted = no_wrap k ins ∙ sym (used_more k ins);
  }

  put-Opened : (k : ℕ) (ins : Insertable n node.endpoint_list p k) → Opened n node (put node p k) p
  put-Opened k ins = record {
    at = k;
    valid = put-IsValid k ins;
    found =
        find_endpoint-set_self n node.endpoint_list p k (fresh_endpoint node.node_id p) ins refl
          refl;
    entry = slot-set_self n node.endpoint_list k (fresh_endpoint node.node_id p) ins.in_table;
    others =
        find_endpoint-set_ne n node.endpoint_list p k (fresh_endpoint node.node_id p) ins refl refl;
    count = no_wrap k ins;
    same_id = refl;
    same_state = refl;
  }

  pub place-Opened :
      (next_port : ℕ)
      → node.endpoint_count < n
      → (place n node p next_port).status ≡ Status.success
        × ((place n node p next_port).endpoint ≡ encode_endpoint node.node_id p)
        × Opened n node (place n node p next_port).node p
  unfolding place
  place-Opened next_port room =
      let (i, lt, c) = closed_slot node.endpoint_list (omega (arith, v.counted, v.sized)) in
      let (k, run) = find_slot-total n pos_n node.endpoint_list p i (omega (arith, v.sized)) c in
      rw (place, run) (refl, refl, put-Opened k (insertable k run))

  pub place-IsValid : (next_port : ℕ) → IsValid n (place n node p next_port).node
  unfolding place
  place-IsValid next_port = elim (Option-cases (find_slot n p node.endpoint_list)) [
    | inl e ↦ rw (place, e) v
    | inr (k, e) ↦ rw (place, e) (put-IsValid k (insertable k e))
  ]
