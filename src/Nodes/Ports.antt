-- ===== src/Nodes/Ports.antt =====
-- The search of `create_endpoint` (libmcapi/mcapi/create_endpoint.c) for an unused port. The argument for
-- its end closes the endpoints of the ports that were tried, one after the other.
use mathlib.Core.Path.{subst}
use native.Mathlib.Nat.{mod-lt, mod-eq_of_lt, mod-add-mod}
use native.Mathlib.Decide.{ℕ_discrete}
use openmcapi_deprecated.Base.{
  ℕ, zero, suc, ◌+◌, ◌-◌, ◌%◌, ◌^◌, ◌≤◌, ◌<◌, ◌≡◌, ◌≢◌, refl, sym, ap, ◌∙◌, inl, inr, some, none,
  arith, some-eq, length, set, length-set, Option-cases, ne→==,
}
use openmcapi_deprecated.Endpoints.{Table, slot, find_endpoint}
use openmcapi_deprecated.Endpoints.Live.{pos, Clean}
use openmcapi_deprecated.Endpoints.Lookup.{find_endpoint-Live}
use openmcapi_deprecated.Endpoints.Insert.{closed_not-Live}
use openmcapi_deprecated.Endpoints.Update.{pos-injective}
use openmcapi_deprecated.Endpoints.Close.{Clean-close, find_endpoint-close_ne}
use openmcapi_deprecated.Nodes.Api.{closed_endpoint}
use openmcapi_deprecated.Nodes.{pick_port, port_any}
use openmcapi_deprecated.Nodes.Valid.{count_used, count_used-le, count_used-close}

-- The port that is tried after c rounds.
abbrev pub port_after : ℕ → ℕ → ℕ
port_after np c = pos (2 ^ 16) np c

module _ (n : ℕ) (pos_n : 0 < n) where
  -- As many slots are in use as ports in a row are found.
  all_found_le :
      (f : ℕ) (np : ℕ) (t : Table)
      → np < 2 ^ 16
      → Clean n t
      → length t ≡ n
      → f ≤ 2 ^ 16
      → ((c : ℕ) → c < f → find_endpoint n (port_after np c) t ≢ none)
      → f ≤ count_used t
  all_found_le zero np t lt clean len small h = omega arith
  all_found_le (suc f) np t lt clean len small h =
      elim (Option-cases (find_endpoint n (port_after np f) t)) [
        | inl e ↦ absurd (h f (omega arith) e)
        | inr (k, e) ↦
            let l = find_endpoint-Live n pos_n t (port_after np f) k e in
            let x = closed_endpoint (slot t k) in
            let in_table : k < length t = subst (λ m. k < m) (sym len) l.in_range in
            let less =
              count_used-close t k x in_table (λ c. closed_not-Live n t (port_after np f) k c l)
                refl in
            let rest =
              all_found_le f np (set t k x) lt (Clean-close n t k x pos_n clean in_table refl refl)
                (length-set t k x ∙ len) (omega arith)
                (λ c cf gone. h c (omega arith) (
                  sym (
                    find_endpoint-close_ne n t k x pos_n clean in_table refl refl (port_after np f)
                      (port_after np c) e
                      (λ same.
                        let fc =
                          pos-injective (2 ^ 16) np f c lt (omega arith) (omega arith) same in
                        omega arith))
                  ∙ gone)) in
            omega arith
      ]

  pick-stops : (np : ℕ) (t : Table) → pick_port n zero t np ≡ none
  unfolding pick_port
  pick-stops np t = refl

  pick-hit :
      (f np : ℕ) (t : Table)
      → find_endpoint n np t ≡ none
      → pick_port n (suc f) t np ≡ some (np, (np + 1) % 2 ^ 16)
  unfolding pick_port
  pick-hit f np t e = rw (pick_port, e) refl

  pick-miss :
      (f np k : ℕ) (t : Table)
      → np < 2 ^ 16
      → find_endpoint n np t ≡ some k
      → pick_port n (suc f) t np ≡ pick_port n f t ((np + 1) % 2 ^ 16)
  unfolding pick_port
  pick-miss f np k t lt e = rw (pick_port, e, ne→== np port_any (omega arith)) refl

  pick-none :
      (f np : ℕ) (t : Table)
      → np < 2 ^ 16
      → pick_port n f t np ≡ none
      → (c : ℕ) → c < f
      → find_endpoint n (port_after np c) t ≢ none
  pick-none zero np t lt e c h gone = absurd (omega arith)
  pick-none (suc f) np t lt e c h gone = elim (Option-cases (find_endpoint n np t)) [
    | inl e' ↦ let run = pick-hit f np t e' in cc
    | inr (k, e') ↦ elim (ℕ_discrete c 0) [
      | yes z ↦
          let same : port_after np c ≡ np =
            ap (port_after np) z ∙ ap (λ m. m % 2 ^ 16) (omega arith) ∙ mod-eq_of_lt lt in
          let missing = ap (λ q. find_endpoint n q t) (sym same) ∙ gone in cc
      | no s ↦
          let next : port_after ((np + 1) % 2 ^ 16) (c - 1) ≡ port_after np c =
            mod-add-mod (np + 1) (2 ^ 16) (c - 1) ∙ ap (λ m. m % 2 ^ 16) (omega arith) in
          pick-none f ((np + 1) % 2 ^ 16) t (mod-lt (np + 1) (omega arith))
            (sym (pick-miss f np k t lt e') ∙ e) (c - 1) (omega arith)
            (ap (λ q. find_endpoint n q t) next ∙ gone)
    ]
  ]

  -- The port that is picked is unused, and has 16 bits.
  pub pick_port-unused :
      (f np p after : ℕ) (t : Table)
      → np < 2 ^ 16
      → pick_port n f t np ≡ some (p, after)
      → (find_endpoint n p t ≡ none) × (p < 2 ^ 16)
  pick_port-unused zero np p after t lt e = let stops = pick-stops np t in cc
  pick_port-unused (suc f) np p after t lt e = elim (Option-cases (find_endpoint n np t)) [
    | inl e' ↦
        let same : np ≡ p = ap (λ r. r.0) (some-eq (sym (pick-hit f np t e') ∙ e)) in
        (ap (λ q. find_endpoint n q t) (sym same) ∙ e', omega arith)
    | inr (k, e') ↦
        pick_port-unused f ((np + 1) % 2 ^ 16) p after t (mod-lt (np + 1) (omega arith))
          (sym (pick-miss f np k t lt e') ∙ e)
  ]

  -- In a table with fewer than 2 ^ 16 slots, the search for an unused port ends after at most one round
  -- more than there are slots, with a port of 16 bits that no open endpoint has.
  pub pick_port-total :
      (t : Table) (np : ℕ)
      → n < 2 ^ 16
      → np < 2 ^ 16
      → Clean n t
      → length t ≡ n
      → (p : ℕ) × (after : ℕ) × (pick_port n (suc n) t np ≡ some (p, after))
        × (find_endpoint n p t ≡ none)
        × (p < 2 ^ 16)
  pick_port-total t np small lt clean len = elim (Option-cases (pick_port n (suc n) t np)) [
    | inl e ↦
        let le =
          all_found_le (suc n) np t lt clean len (omega arith) (pick-none (suc n) np t lt e) in
        absurd (omega (arith, count_used-le t))
    | inr (r, e) ↦ let (u, b) = pick_port-unused (suc n) np r.0 r.1 t lt e in (r.0, r.1, e, u, b)
  ]
