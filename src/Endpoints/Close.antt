-- ===== src/Endpoints/Close.antt =====
-- An endpoint closed, as libmcapi/mcapi/mcapi_delete_endp.c does: its slot keeps the port.
use mathlib.Core.Path.{subst}
use native.Mathlib.Decide.{ℕ_discrete}
use openmcapi_deprecated.Base.{
  ℕ, ◌%◌, ◌<◌, ◌≡◌, ◌≢◌, sym, ap, ◌∙◌, inl, inr, some, none, some-eq, length, set, Option-cases,
}
use openmcapi_deprecated.Endpoints.{Endpoint, Table, slot, endp_closed, find_endpoint}
use openmcapi_deprecated.Endpoints.Live.{pos, Live, Clean}
use openmcapi_deprecated.Endpoints.Lookup.{find_endpoint-Live, find_endpoint_complete}
use openmcapi_deprecated.Endpoints.Update.{
  find_endpoint-same, slot-set_self, slot-set_ne, Live-set_ne, Live-of_set,
}
use openmcapi_deprecated.Endpoints.Insert.{closed_not-Live}

module _ (n : ℕ) (t : Table) (k : ℕ) (x : Endpoint) (pos_n : 0 < n) (clean : Clean n t)
    (in_table : k < length t) (closed : x.state ≡ endp_closed)
    (port : x.port_id ≡ (slot t k).port_id) where
  closed_now : (q : ℕ) → ¬ Live n (set t k x) q k
  closed_now q =
      closed_not-Live n (set t k x) q k
        (ap (λ s. s.state) (slot-set_self n t k x in_table) ∙ closed)

  Live-still : (q j : ℕ) → Live n (set t k x) q j → Live n t q j
  Live-still q j l =
      Live-of_set n t k x in_table q j
        (λ kj. closed_now q (subst (Live n (set t k x) q) (sym kj) l)) l

  same_port : (j : ℕ) → (slot (set t k x) j).port_id ≡ (slot t j).port_id
  same_port j = elim (ℕ_discrete k j) [
    | yes at ↦
        ap (λ i. (slot (set t k x) i).port_id) (sym at)
        ∙ ap (λ s. s.port_id) (slot-set_self n t k x in_table)
        ∙ port
        ∙ ap (λ i. (slot t i).port_id) at
    | no apart ↦ ap (λ s. s.port_id) (slot-set_ne n t k x in_table j apart)
  ]

  pub Clean-close : Clean n (set t k x)
  Clean-close q d e hd l lt same =
      clean q d e hd (Live-still q _ l) lt (sym (same_port (pos n (q % n) e)) ∙ same)

  -- The closed endpoint is not found any more.
  pub find_endpoint-close :
      (p : ℕ) → find_endpoint n p t ≡ some k → find_endpoint n p (set t k x) ≡ none
  find_endpoint-close p e = elim (Option-cases (find_endpoint n p (set t k x))) [
    | inl r ↦ r
    | inr (j, r) ↦
        let l = find_endpoint-Live n pos_n (set t k x) p j r in
        let at : k ≡ j =
          some-eq (sym e ∙ find_endpoint_complete n pos_n t p j clean (Live-still p j l)) in
        absurd (closed_now p (subst (Live n (set t k x) p) (sym at) l))
  ]

  -- The others are found where they were.
  pub find_endpoint-close_ne :
      (p q : ℕ)
      → find_endpoint n p t ≡ some k
      → p ≢ q
      → find_endpoint n q (set t k x) ≡ find_endpoint n q t
  find_endpoint-close_ne p q e ne =
      let lp = find_endpoint-Live n pos_n t p k e in
      find_endpoint-same n t (set t k x) q pos_n clean Clean-close
        (λ j l.
          Live-set_ne n t k x in_table q j
            (λ kj. ne (sym lp.has_port ∙ ap (λ i. (slot t i).port_id) kj ∙ l.has_port)) l)
        (λ j l. Live-still q j l)
