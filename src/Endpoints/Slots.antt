-- ===== src/Endpoints/Slots.antt =====
-- The search of `create_endpoint` (libmcapi/mcapi/create_endpoint.c) for a closed slot.
use mathlib.Core.Path.{subst}
use native.Mathlib.Nat.{mod-lt, mod-eq_of_lt, add-mod_right}
use native.Mathlib.Decide.{dec_lt, ℕ_discrete}
use openmcapi_deprecated.Base.{
  ℕ, zero, suc, ◌+◌, ◌%◌, ◌≤◌, ◌<◌, ◌≡◌, ◌≢◌, refl, sym, ap, ◌∙◌, some, none, arith, eq→==, ne→==,
  some-eq,
}
use openmcapi_deprecated.Endpoints.{Table, slot, endp_closed, next_slot, free_from, find_slot}
use openmcapi_deprecated.Endpoints.Live.{pos, next_slot-pos}
use openmcapi_deprecated.Endpoints.Lookup.{reach_slot, start-pos}

-- Slot j is the first closed one that is probed from `s` on, after d steps.
pub record FirstFree (n : ℕ) (t : Table) (s j : ℕ) : Type 0 where
  pub d : ℕ
  pub near : d < n
  pub at_slot : j ≡ pos n s d
  pub closed : (slot t j).state ≡ endp_closed
  pub taken : (c : ℕ) → c < d → (slot t (pos n s c)).state ≢ endp_closed

-- The same of the loop, which has looked at the slots up to e.
record FreeAfter (n : ℕ) (t : Table) (s e k j : ℕ) : Type 0 where
  d : ℕ
  after : e < d
  near : d ≤ e + k
  at_slot : j ≡ pos n s d
  closed : (slot t j).state ≡ endp_closed
  taken : (c : ℕ) → e < c → c < d → (slot t (pos n s c)).state ≢ endp_closed

free_from-stops : (n : ℕ) (t : Table) (i : ℕ) → free_from n zero t i ≡ none
unfolding free_from
free_from-stops n t i = refl

free_from-hit :
    (n k : ℕ) (t : Table) (i : ℕ)
    → (slot t (next_slot n i)).state ≡ endp_closed
    → free_from n (suc k) t i ≡ some (next_slot n i)
unfolding free_from
free_from-hit n k t i h = rw (eq→== _ _ h)

free_from-miss :
    (n k : ℕ) (t : Table) (i : ℕ)
    → (slot t (next_slot n i)).state ≢ endp_closed
    → free_from n (suc k) t i ≡ free_from n k t (next_slot n i)
unfolding free_from
free_from-miss n k t i h = rw (ne→== _ _ h)

find_slot-hit :
    (n : ℕ) (t : Table) (p : ℕ)
    → (slot t (p % n)).state ≡ endp_closed
    → find_slot n p t ≡ some (p % n)
unfolding find_slot
find_slot-hit n t p h = rw (eq→== _ _ h)

find_slot-miss :
    (n : ℕ) (t : Table) (p : ℕ)
    → (slot t (p % n)).state ≢ endp_closed
    → find_slot n p t ≡ free_from n n t (p % n)
unfolding find_slot
find_slot-miss n t p h = rw (ne→== _ _ h)

module _ (n : ℕ) (pos_n : 0 < n) where
  free_from-FreeAfter :
      (k : ℕ) (t : Table) (s e j : ℕ) → free_from n k t (pos n s e) ≡ some j → FreeAfter n t s e k j
  free_from-FreeAfter zero t s e j h = let stops = free_from-stops n t (pos n s e) in cc
  free_from-FreeAfter (suc k) t s e j h =
      let to_next = next_slot-pos n pos_n s e in
      elim (ℕ_discrete (slot t (pos n s (e + 1))).state endp_closed) [
        | yes free ↦
            let hit = free_from-hit n k t (pos n s e) (rw to_next free) in
            let here : pos n s (e + 1) ≡ j = some-eq (ap some (sym to_next) ∙ sym hit ∙ h) in
            record {
              d = e + 1;
              after = omega arith;
              near = omega arith;
              at_slot = sym here;
              closed = subst (λ i. (slot t i).state ≡ endp_closed) here free;
              taken = λ c a b. absurd (omega arith);
            }
        | no used ↦
            let rest = free_from-FreeAfter k t s (e + 1) j (
              ap (free_from n k t) (sym to_next)
              ∙ sym (free_from-miss n k t (pos n s e) (rw to_next used))
              ∙ h) in
            record {
              d = rest.d;
              after = omega (arith, rest.after);
              near = omega (arith, rest.near);
              at_slot = rest.at_slot;
              closed = rest.closed;
              taken = λ c a b. elim (dec_lt (e + 1) c) [
                | yes more ↦ rest.taken c more b
                | no same ↦
                    let e' : e + 1 ≡ c = omega arith in
                    subst (λ i. (slot t (pos n s i)).state ≢ endp_closed) e' used
              ];
            }
      ]

  full_round : (s : ℕ) → s < n → pos n s n ≡ s
  full_round s h = add-mod_right s n ∙ mod-eq_of_lt h

  pub find_slot-FirstFree :
      (t : Table) (p j : ℕ) → find_slot n p t ≡ some j → FirstFree n t (p % n) j
  find_slot-FirstFree t p j h = elim (ℕ_discrete (slot t (p % n)).state endp_closed) [
    | yes free ↦
        let here : p % n ≡ j = some-eq (sym (find_slot-hit n t p free) ∙ h) in
        record {
          d = 0;
          near = pos_n;
          at_slot = sym (start-pos n pos_n p ∙ here);
          closed = subst (λ i. (slot t i).state ≡ endp_closed) here free;
          taken = λ c a. absurd (omega arith);
        }
    | no used ↦
        let rest =
          free_from-FreeAfter n t (p % n) 0 j
            (ap (free_from n n t) (start-pos n pos_n p) ∙ sym (find_slot-miss n t p used) ∙ h) in
        let round : rest.d ≢ n = λ e. used (
          subst (λ i. (slot t i).state ≡ endp_closed)
            (rest.at_slot ∙ ap (pos n (p % n)) e ∙ full_round (p % n) (mod-lt p pos_n))
            rest.closed) in
        record {
          d = rest.d;
          near = omega (arith, rest.near);
          at_slot = rest.at_slot;
          closed = rest.closed;
          taken = λ c a. elim (ℕ_discrete c 0) [
            | yes at_start ↦
                subst (λ i. (slot t i).state ≢ endp_closed)
                  (sym (start-pos n pos_n p) ∙ ap (pos n (p % n)) (sym at_start)) used
            | no more ↦ rest.taken c (omega arith) a
          ];
        }
  ]

  -- One closed slot is enough for the loop to stop at some slot.
  free_from-total :
      (k : ℕ) (t : Table) (s e d : ℕ)
      → (slot t (pos n s d)).state ≡ endp_closed
      → e < d
      → d ≤ e + k
      → (j : ℕ) × (free_from n k t (pos n s e) ≡ some j)
  free_from-total zero t s e d free lt le = absurd (omega arith)
  free_from-total (suc k) t s e d free lt le =
      let to_next = next_slot-pos n pos_n s e in
      elim (ℕ_discrete (slot t (pos n s (e + 1))).state endp_closed) [
        | yes hit ↦ (next_slot n (pos n s e), free_from-hit n k t (pos n s e) (rw to_next hit))
        | no used ↦
            let further : e + 1 ≢ d =
              λ q. used (subst (λ i. (slot t (pos n s i)).state ≡ endp_closed) (sym q) free) in
            let (j, run) = free_from-total k t s (e + 1) d free (omega arith) (omega arith) in
            (
              j,
              free_from-miss n k t (pos n s e) (rw to_next used)
                  ∙ ap (free_from n k t) to_next
                  ∙ run,
            )
      ]

  pub find_slot-total :
      (t : Table) (p i : ℕ)
      → i < n
      → (slot t i).state ≡ endp_closed
      → (j : ℕ) × (find_slot n p t ≡ some j)
  find_slot-total t p i h free = elim (ℕ_discrete (slot t (p % n)).state endp_closed) [
    | yes hit ↦ (p % n, find_slot-hit n t p hit)
    | no used ↦
        let (d, lt, e) = reach_slot n (p % n) i (mod-lt p pos_n) h in
        let further : d ≢ 0 = λ q. used (
          subst (λ t'. (slot t t').state ≡ endp_closed)
            (sym e ∙ ap (pos n (p % n)) q ∙ start-pos n pos_n p) free) in
        let (j, run) =
          free_from-total n t (p % n) 0 d
            (subst (λ t'. (slot t t').state ≡ endp_closed) (sym e) free) (omega arith)
            (omega arith) in
        (j, find_slot-miss n t p used ∙ ap (free_from n n t) (sym (start-pos n pos_n p)) ∙ run)
  ]
