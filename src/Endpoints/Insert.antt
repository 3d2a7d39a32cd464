-- ===== src/Endpoints/Insert.antt =====
-- An endpoint put into the first closed slot of its port, as libmcapi/mcapi/create_endpoint.c does.
use mathlib.Core.Path.{subst}
use native.Mathlib.Nat.{mod-lt}
use native.Mathlib.Decide.{ℕ_discrete}
use openmcapi_deprecated.Base.{
  ℕ, ◌%◌, ◌<◌, ◌≡◌, ◌≢◌, sym, ap, ◌∙◌, ◌⊎◌, inl, inr, true, some, none, arith, length, set,
}
use openmcapi_deprecated.Endpoints.{
  Endpoint, Table, slot, endp_open, endp_closed, has_flag, find_endpoint,
}
use openmcapi_deprecated.Endpoints.Live.{pos, Live, Clean, pos-lt}
use openmcapi_deprecated.Endpoints.Lookup.{find_endpoint_complete}
use openmcapi_deprecated.Endpoints.Slots.{FirstFree}
use openmcapi_deprecated.Endpoints.Update.{
  pos-injective, find_endpoint-same, not-Live, slot-set_self, slot-set_ne, Live-set_ne, Live-of_set,
  Live-set_self,
}

-- A slot is closed, or open whatever else holds of it.
abbrev pub Settled : Endpoint → Type 0
Settled s = (s.state ≡ endp_closed) ⊎ (has_flag s.state endp_open ≡ true)

pub closed_not-Live :
    (n : ℕ) (t : Table) (p k : ℕ) → (slot t k).state ≡ endp_closed → ¬ Live n t p k
closed_not-Live n t p k c l =
    let o = l.is_open in
    let o' : has_flag endp_closed endp_open ≡ true = subst (λ s. has_flag s endp_open ≡ true) c o in
    cc

-- A table with only closed slots, as after initialization, hides nothing.
pub all_closed-Clean :
    (n : ℕ) (t : Table) → 0 < n → ((i : ℕ) → i < n → (slot t i).state ≡ endp_closed) → Clean n t
all_closed-Clean n t pos_n c p d e hd l lt same =
    closed_not-Live n t p (pos n (p % n) d) (c (pos n (p % n) d) (pos-lt n pos_n (p % n) d)) l

-- A table with an endpoint of port p to be put into slot k.
pub record Insertable (n : ℕ) (t : Table) (p k : ℕ) : Type 0 where
  pub pos_n : 0 < n
  pub clean : Clean n t
  pub settled : (i : ℕ) → i < n → Settled (slot t i)
  pub in_table : k < length t
  pub missing : find_endpoint n p t ≡ none
  pub first : FirstFree n t (p % n) k

-- No slot on the way to k has the port.
before_first :
    (n : ℕ) (t : Table) (p k : ℕ) (ins : Insertable n t p k) (e : ℕ)
    → e < ins.first.d
    → (slot t (pos n (p % n) e)).port_id ≢ p
before_first n t p k ins e lt same =
    elim (ins.settled (pos n (p % n) e) (pos-lt n ins.pos_n (p % n) e)) [
      | inl c ↦ ins.first.taken e lt c
      | inr o ↦
          not-Live n t p (pos n (p % n) e) ins.pos_n ins.clean ins.missing
            (record { in_range = pos-lt n ins.pos_n (p % n) e; is_open = o; has_port = same })
    ]

module _ (n : ℕ) (t : Table) (p k : ℕ) (x : Endpoint) (ins : Insertable n t p k) where
  slot_in_range : k < n
  slot_in_range =
      subst (λ i. i < n) (sym ins.first.at_slot) (pos-lt n ins.pos_n (p % n) ins.first.d)

  Clean-set_at :
      (d e : ℕ)
      → d < n
      → e < d
      → k ≡ pos n (p % n) d
      → (slot (set t k x) (pos n (p % n) e)).port_id ≢ p
  Clean-set_at d e hd lt at same =
      let fd : ins.first.d ≡ d =
        pos-injective n (p % n) ins.first.d d (mod-lt p ins.pos_n) ins.first.near hd
          (sym ins.first.at_slot ∙ at) in
      let apart : k ≢ pos n (p % n) e = λ q.
        let ed = pos-injective n (p % n) e d (mod-lt p ins.pos_n) (omega arith) hd (sym q ∙ at) in
        omega arith in
      before_first n t p k ins e (omega arith)
        (ap (λ s. s.port_id) (sym (slot-set_ne n t k x ins.in_table _ apart)) ∙ same)

  module _ (port : x.port_id ≡ p) where
    pub Clean-set : Clean n (set t k x)
    Clean-set q d e hd l lt same = elim (ℕ_discrete k (pos n (q % n) d)) [
      | yes at ↦
          let pq : p ≡ q =
            sym port
            ∙ ap (λ s. s.port_id) (sym (slot-set_self n t k x ins.in_table))
            ∙ subst (λ i. (slot (set t k x) i).port_id ≡ q) (sym at) l.has_port in
          Clean-set_at d e hd lt (at ∙ ap (λ r. pos n (r % n) d) (sym pq))
            (ap (λ r. (slot (set t k x) (pos n (r % n) e)).port_id) pq ∙ same ∙ sym pq)
      | no d_apart ↦
          let live = Live-of_set n t k x ins.in_table q (pos n (q % n) d) d_apart l in
          elim (ℕ_discrete k (pos n (q % n) e)) [
            | yes at ↦
                let pq : p ≡ q =
                  sym port
                  ∙ ap (λ s. s.port_id) (sym (slot-set_self n t k x ins.in_table))
                  ∙ ap (λ i. (slot (set t k x) i).port_id) at
                  ∙ same in
                not-Live n t p (pos n (q % n) d) ins.pos_n ins.clean ins.missing
                  (subst (λ r. Live n t r (pos n (q % n) d)) (sym pq) live)
            | no e_apart ↦
                ins.clean q d e hd live lt
                  (ap (λ s. s.port_id) (sym (slot-set_ne n t k x ins.in_table _ e_apart)) ∙ same)
          ]
    ]

    module _ (is_open : has_flag x.state endp_open ≡ true) where
      -- The new endpoint is found.
      pub find_endpoint-set_self : find_endpoint n p (set t k x) ≡ some k
      find_endpoint-set_self =
          find_endpoint_complete n ins.pos_n (set t k x) p k Clean-set
            (Live-set_self n t k x ins.in_table p slot_in_range is_open port)

      -- The others are found where they were.
      pub find_endpoint-set_ne :
          (q : ℕ) → p ≢ q → find_endpoint n q (set t k x) ≡ find_endpoint n q t
      find_endpoint-set_ne q ne =
          find_endpoint-same n t (set t k x) q ins.pos_n ins.clean Clean-set
            (λ j l.
              Live-set_ne n t k x ins.in_table q j
                (λ kj. closed_not-Live n t q k ins.first.closed (subst (Live n t q) (sym kj) l)) l)
            (λ j l.
              Live-of_set n t k x ins.in_table q j
                (λ kj. ne (
                  sym port
                  ∙ ap (λ s. s.port_id) (sym (slot-set_self n t k x ins.in_table))
                  ∙ ap (λ i. (slot (set t k x) i).port_id) kj
                  ∙ l.has_port))
                l)
