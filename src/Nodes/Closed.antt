-- ===== src/Nodes/Closed.antt =====
-- What a deletion by `mcapi_delete_endpoint` (libmcapi/mcapi/mcapi_delete_endp.c) does to the node, and the calls it
-- has to make.
use mathlib.Core.Path.{subst}
use native.Mathlib.Nat.{mod-eq_of_lt, add-mod_right}
use openmcapi_deprecated.Base.{
  ℕ, ◌+◌, ◌-◌, ◌%◌, ◌^◌, ◌<◌, ◌≡◌, ◌≢◌, refl, sym, ap, ◌∙◌, inl, inr, true, false, some, none,
  arith, List, [], ◌∷◌, ◌++◌, length, map, length-set, Bool-cases,
}
use openmcapi_deprecated.Status
use openmcapi_deprecated.Endpoints.{
  Endpoint, slot, endp_connecting, endp_closed, has_flag, find_endpoint,
}
use openmcapi_deprecated.Endpoints.Lookup.{find_endpoint-Live}
use openmcapi_deprecated.Nodes.Valid.{IsValid, count_used, count_used-le, count_used-close}
use openmcapi_deprecated.Endpoints.Insert.{closed_not-Live}
use openmcapi_deprecated.Endpoints.Close.{Clean-close, find_endpoint-close, find_endpoint-close_ne}
use openmcapi_deprecated.Nodes.{Node, Call, check_resume, tx_fin_msg, recover_buffer, req_deleted}
use openmcapi_deprecated.Endpoints.Update.{slot-set_self}
use openmcapi_deprecated.Nodes.Api.{closed_endpoint, without, fin_calls, recover_all}
use openmcapi_deprecated.Nodes.Place.{Settled-set}

-- What a deletion of port p does to a node.
pub record Closed (n : ℕ) (before after : Node) (p : ℕ) : Type 0 where
  pub valid : IsValid n after
  pub gone : find_endpoint n p after.endpoint_list ≡ none
  pub others :
      (q : ℕ)
      → p ≢ q
      → find_endpoint n q after.endpoint_list ≡ find_endpoint n q before.endpoint_list
  pub count : before.endpoint_count ≡ after.endpoint_count + 1

module _ (n : ℕ) (pos_n : 0 < n) (small : n < 2 ^ 32) (node : Node) (p k : ℕ) (v : IsValid n node)
    (found : find_endpoint n p node.endpoint_list ≡ some k) where
  in_table : k < length node.endpoint_list
  in_table =
      let l = find_endpoint-Live n pos_n node.endpoint_list p k found in
      subst (λ m. k < m) (sym v.sized) l.in_range

  was_used : (slot node.endpoint_list k).state ≢ endp_closed
  was_used c =
      closed_not-Live n node.endpoint_list p k c
        (find_endpoint-Live n pos_n node.endpoint_list p k found)

  used_less : count_used node.endpoint_list ≡ count_used (without node k).endpoint_list + 1
  used_less =
      count_used-close node.endpoint_list k (closed_endpoint (slot node.endpoint_list k)) in_table
        was_used refl

  count_less : (without node k).endpoint_count ≡ count_used (without node k).endpoint_list
  count_less =
      let more = used_less in
      let le = count_used-le node.endpoint_list in
      let rest = count_used (without node k).endpoint_list in
      let e : node.endpoint_count + (2 ^ 32 - 1) ≡ rest + 2 ^ 32 = omega (arith, v.counted) in
      ap (λ c. c % 2 ^ 32) e ∙ add-mod_right rest (2 ^ 32) ∙ mod-eq_of_lt (omega (arith, v.sized))

  pub without-Closed : Closed n node (without node k) p
  without-Closed =
      let x = closed_endpoint (slot node.endpoint_list k) in
      record {
        valid = record {
          sized = length-set node.endpoint_list k x ∙ v.sized;
          settled = Settled-set n node.endpoint_list k x in_table (inl refl) v.settled;
          clean = Clean-close n node.endpoint_list k x pos_n v.clean in_table refl refl;
          counted = count_less;
        };
        gone =
            find_endpoint-close n node.endpoint_list k x pos_n v.clean in_table refl refl p found;
        others = λ q ne.
            find_endpoint-close_ne n node.endpoint_list k x pos_n v.clean in_table refl refl p q
              found ne;
        count = v.counted ∙ used_less ∙ ap (λ c. c + 1) (sym count_less);
      }

  pub emptied : slot (without node k).endpoint_list k ≡ closed_endpoint (slot node.endpoint_list k)
  emptied =
      slot-set_self n node.endpoint_list k (closed_endpoint (slot node.endpoint_list k)) in_table

-- The calls that the deletion of an endpoint with a handle has to make: a FIN, if the endpoint is part of a half
-- open connection; then the requests that wait on the endpoint are woken with an error; then each buffer of the
-- receive queue is given back, in order.
pub data Ends (handle : ℕ) (endp : Endpoint) : List Call → Type 0 where
  half_open :
      has_flag endp.state endp_connecting ≡ true
      → Ends handle endp (
          tx_fin_msg endp
          ∷ check_resume req_deleted handle 0 Status.err_port_invalid
          ∷ map recover_buffer endp.rx_queue)
  apart :
      has_flag endp.state endp_connecting ≡ false
      → Ends handle endp (
          check_resume req_deleted handle 0 Status.err_port_invalid
          ∷ map recover_buffer endp.rx_queue)

recover_all-map : (bs : List ℕ) → map recover_buffer bs ≡ recover_all bs
recover_all-map [] = refl
recover_all-map (b ∷ bs) = ap (λ cs. recover_buffer b ∷ cs) (recover_all-map bs)

pub Ends-calls :
    (handle : ℕ) (endp : Endpoint)
    → Ends handle endp (
        fin_calls endp
        ++ (check_resume req_deleted handle 0 Status.err_port_invalid ∷ recover_all endp.rx_queue))
Ends-calls handle endp = elim (Bool-cases (has_flag endp.state endp_connecting)) [
  | inl y ↦ rw⁻¹ (recover_all-map endp.rx_queue) (rw y (half_open y))
  | inr n ↦ rw⁻¹ (recover_all-map endp.rx_queue) (rw n (apart n))
]
