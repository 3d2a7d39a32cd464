-- ===== src/Endpoints/Update.antt =====
-- What a write of one slot does to the live entries of a table: an endpoint put into the first closed
-- slot of its port, and an endpoint closed (libmcapi/mcapi/create_endpoint.c, mcapi_delete_endp.c).
use native.Mathlib.Nat.{mod-eq_of_lt, mod-eq-sub-mod}
use native.Mathlib.Decide.{dec_lt}
use openmcapi_deprecated.Base.{
  ℕ, ◌+◌, ◌-◌, ◌<◌, ◌≡◌, ◌≢◌, sym, ap, ◌∙◌, inl, inr, true, none, arith, Option-cases, length, set,
  get_or-set_self, get_or-set_ne,
}
use openmcapi_deprecated.Endpoints.{
  Endpoint, Table, blank, slot, endp_open, has_flag, find_endpoint,
}
use openmcapi_deprecated.Endpoints.Live.{pos, Live, Clean}
use openmcapi_deprecated.Endpoints.Lookup.{find_endpoint-Live, find_endpoint_complete}

-- Fewer than n steps do not come back to a slot.
pos-apart : (n s e d : ℕ) → s < n → e < d → d < n → pos n s e ≢ pos n s d
pos-apart n s e d hs lt hd same = elim (dec_lt (s + d) n) [
  | yes h ↦
      omega
        (arith, mod-eq_of_lt {n = s + e} {m = n} (omega arith), mod-eq_of_lt {n = s + d} {m = n} h)
  | no h ↦
      let far = mod-eq-sub-mod {n = s + d} {m = n} (omega arith) in
      let far' = mod-eq_of_lt {n = s + d - n} {m = n} (omega arith) in
      elim (dec_lt (s + e) n) [
        | yes i ↦ omega (arith, mod-eq_of_lt {n = s + e} {m = n} i, far, far')
        | no i ↦ omega (
          arith,
          mod-eq-sub-mod {n = s + e} {m = n} (omega arith),
          mod-eq_of_lt {n = s + e - n} {m = n} (omega arith),
          far,
          far',
        )
      ]
]

pub pos-injective : (n s e d : ℕ) → s < n → e < n → d < n → pos n s e ≡ pos n s d → e ≡ d
pos-injective n s e d hs he hd same = elim (dec_lt e d) [
  | yes lt ↦ absurd (pos-apart n s e d hs lt hd same)
  | no ge ↦ elim (dec_lt d e) [
    | yes gt ↦ absurd (pos-apart n s d e hs gt he (sym same))
    | no le ↦ omega arith
  ]
]

-- Tables with the same live entries of a port give the same answer for it.
pub find_endpoint-same :
    (n : ℕ) (t u : Table) (p : ℕ)
    → 0 < n
    → Clean n t
    → Clean n u
    → ((j : ℕ) → Live n t p j → Live n u p j)
    → ((j : ℕ) → Live n u p j → Live n t p j)
    → find_endpoint n p u ≡ find_endpoint n p t
find_endpoint-same n t u p pos_n ct cu to from = elim (Option-cases (find_endpoint n p t)) [
  | inr (j, e) ↦
      find_endpoint_complete n pos_n u p j cu (to j (find_endpoint-Live n pos_n t p j e)) ∙ sym e
  | inl e ↦ elim (Option-cases (find_endpoint n p u)) [
    | inl e' ↦ e' ∙ sym e
    | inr (j, e') ↦
        let found =
          find_endpoint_complete n pos_n t p j ct (from j (find_endpoint-Live n pos_n u p j e')) in
        cc
  ]
]

pub not-Live :
    (n : ℕ) (t : Table) (p j : ℕ) → 0 < n → Clean n t → find_endpoint n p t ≡ none → ¬ Live n t p j
not-Live n t p j pos_n clean missing l =
    let found = find_endpoint_complete n pos_n t p j clean l in cc

module _ (n : ℕ) (t : Table) (k : ℕ) (x : Endpoint) (in_table : k < length t) where
  pub slot-set_self : slot (set t k x) k ≡ x
  slot-set_self = get_or-set_self t k x blank in_table

  pub slot-set_ne : (j : ℕ) → k ≢ j → slot (set t k x) j ≡ slot t j
  slot-set_ne j d = get_or-set_ne t k j x blank d

  pub Live-set_ne : (p j : ℕ) → k ≢ j → Live n t p j → Live n (set t k x) p j
  Live-set_ne p j d l = record {
    in_range = l.in_range;
    is_open = ap (λ s. has_flag s.state endp_open) (slot-set_ne j d) ∙ l.is_open;
    has_port = ap (λ s. s.port_id) (slot-set_ne j d) ∙ l.has_port;
  }

  pub Live-of_set : (p j : ℕ) → k ≢ j → Live n (set t k x) p j → Live n t p j
  Live-of_set p j d l = record {
    in_range = l.in_range;
    is_open = ap (λ s. has_flag s.state endp_open) (sym (slot-set_ne j d)) ∙ l.is_open;
    has_port = ap (λ s. s.port_id) (sym (slot-set_ne j d)) ∙ l.has_port;
  }

  pub Live-set_self :
      (p : ℕ) → k < n → has_flag x.state endp_open ≡ true → x.port_id ≡ p → Live n (set t k x) p k
  Live-set_self p lt o port = record {
    in_range = lt;
    is_open = ap (λ s. has_flag s.state endp_open) slot-set_self ∙ o;
    has_port = ap (λ s. s.port_id) slot-set_self ∙ port;
  }
