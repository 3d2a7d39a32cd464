-- ===== src/Endpoints/Lookup.antt =====
-- `mcapi_find_endpoint` of libmcapi/mcapi/endpoint.c against the open endpoints of a table.
use mathlib.Core.Path.{subst}
use mathlib.Core.Logic.{◌↔◌}
use native.Mathlib.Nat.{mod-lt, mod-eq_of_lt, add-mod_right}
use native.Mathlib.Decide.{dec_le, ℕ_discrete}
use openmcapi_deprecated.Base.{
  ℕ, zero, suc, ◌+◌, ◌-◌, ◌%◌, ◌<◌, ◌≡◌, ◌≢◌, sym, ap, ◌∙◌, some, arith, eq→==, ne→==,
}
use openmcapi_deprecated.Endpoints.{Table, slot, if_open, find_from, find_endpoint}
use openmcapi_deprecated.Endpoints.Live.{
  pos, Live, Clean, find_from-Live, find_from-pos, if_open-Live, if_open_self,
}

-- Every slot is reached from every other.
pub reach_slot : (n s j : ℕ) → s < n → j < n → (d : ℕ) × (d < n) × (pos n s d ≡ j)
reach_slot n s j hs hj = elim (dec_le s j) [
  | yes le ↦
      let e : s + (j - s) ≡ j = omega arith in
      (j - s, omega arith, ap (λ t. t % n) e ∙ mod-eq_of_lt hj)
  | no gt ↦
      let e : s + (j + n - s) ≡ j + n = omega arith in
      (j + n - s, omega arith, ap (λ t. t % n) e ∙ add-mod_right j n ∙ mod-eq_of_lt hj)
]

module _ (n : ℕ) (pos_n : 0 < n) where
  pub start-pos : (p : ℕ) → pos n (p % n) 0 ≡ p % n
  start-pos p =
      let e : p % n + 0 ≡ p % n = omega arith in ap (λ t. t % n) e ∙ mod-eq_of_lt (mod-lt p pos_n)

  find_endpoint-hit :
      (t : Table) (p : ℕ) → (slot t (p % n)).port_id ≡ p → find_endpoint n p t ≡ if_open n t (p % n)
  unfolding find_endpoint
  find_endpoint-hit t p h = rw (eq→== _ _ h)

  find_endpoint-miss :
      (t : Table) (p : ℕ)
      → (slot t (p % n)).port_id ≢ p
      → find_endpoint n p t ≡ find_from n n t p (p % n)
  unfolding find_endpoint
  find_endpoint-miss t p h = rw (ne→== _ _ h)

  pub find_endpoint-Live : (t : Table) (p j : ℕ) → find_endpoint n p t ≡ some j → Live n t p j
  find_endpoint-Live t p j e = elim (ℕ_discrete (slot t (p % n)).port_id p) [
    | yes hit ↦
        if_open-Live n pos_n t p (p % n) j (mod-lt p pos_n) hit
          (sym (find_endpoint-hit t p hit) ∙ e)
    | no miss ↦
        find_from-Live n pos_n n t p (p % n) j (mod-lt p pos_n)
          (sym (find_endpoint-miss t p miss) ∙ e)
  ]

  find_at_distance :
      (t : Table) (p d : ℕ)
      → Clean n t
      → d < n
      → Live n t p (pos n (p % n) d)
      → find_endpoint n p t ≡ some (pos n (p % n) d)
  find_at_distance t p zero clean h l =
      let l' = subst (Live n t p) (start-pos p) l in
      find_endpoint-hit t p l'.has_port
      ∙ if_open_self n pos_n t p (p % n) l'
      ∙ ap some (sym (start-pos p))
  find_at_distance t p (suc d) clean h l =
      let first_miss : (slot t (p % n)).port_id ≢ p =
        subst (λ i. (slot t i).port_id ≢ p) (start-pos p) (clean p (suc d) 0 h l (omega arith)) in
      find_endpoint-miss t p first_miss
      ∙ ap (find_from n n t p) (sym (start-pos p))
      ∙ find_from-pos n pos_n n t p (p % n) 0 (suc d) l (λ c a b. clean p (suc d) c h l b)
          (omega arith) (omega arith)

  pub find_endpoint_complete :
      (t : Table) (p j : ℕ) → Clean n t → Live n t p j → find_endpoint n p t ≡ some j
  find_endpoint_complete t p j clean l =
      let (d, lt, e) = reach_slot n (p % n) j (mod-lt p pos_n) l.in_range in
      find_at_distance t p d clean lt (subst (Live n t p) (sym e) l) ∙ ap some e

  -- In a table where no stale entry of a port is probed before a live one, `mcapi_find_endpoint`
  -- returns slot j for port p exactly when slot j holds an open endpoint with port p.
  pub find_endpoint_iff :
      (t : Table) (p j : ℕ) → Clean n t → (find_endpoint n p t ≡ some j) ↔ Live n t p j
  find_endpoint_iff t p j clean = (find_endpoint-Live t p j, find_endpoint_complete t p j clean)

  -- So no two slots hold an open endpoint with the same port.
  pub Live-unique : (t : Table) (p i j : ℕ) → Clean n t → Live n t p i → Live n t p j → i ≡ j
  Live-unique t p i j clean l m =
      let e = sym (find_endpoint_complete t p i clean l) ∙ find_endpoint_complete t p j clean m in
      cc
