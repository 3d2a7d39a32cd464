-- ===== src/Endpoints/Live.antt =====
-- The probe sequence of a port, the live entries of a table, and what the search finds.
use mathlib.Core.Path.{subst}
use native.Mathlib.Nat.{mod-lt, mod-eq_of_lt, mod-add-mod, mod_self, add_assoc}
use native.Mathlib.Decide.{dec_lt, ℕ_discrete}
use openmcapi_deprecated.Base.{
  ℕ, zero, suc, ◌+◌, ◌%◌, ◌≤◌, ◌<◌, ◌≡◌, ◌≢◌, refl, sym, ap, ◌∙◌, true, none, some, arith,
  Bool-cases, inl, inr, eq→==, ne→==,
}
use openmcapi_deprecated.Endpoints.{Table, slot, endp_open, has_flag, next_slot, if_open, find_from}

module _ (n : ℕ) where
  -- The slot that is looked at after `d` steps from `start`.
  abbrev pub pos : ℕ → ℕ → ℕ
  pos start d = (start + d) % n

  -- Slot j holds an open endpoint with port p.
  pub record Live (t : Table) (p j : ℕ) : Type 0 where
    pub in_range : j < n
    pub is_open : has_flag (slot t j).state endp_open ≡ true
    pub has_port : (slot t j).port_id ≡ p

  -- No slot that is probed before a live entry has that entry's port.
  abbrev pub Clean : Table → Type 0
  Clean t =
      (p d e : ℕ) → d < n → Live t p (pos (p % n) d) → e < d → (slot t (pos (p % n) e)).port_id ≢ p

find_from-stops : (n : ℕ) (t : Table) (p i : ℕ) → find_from n zero t p i ≡ none
unfolding find_from
find_from-stops n t p i = refl

module _ (n : ℕ) (pos_n : 0 < n) where
  step_wraps : (a : ℕ) → a < n → next_slot n a ≡ (a + 1) % n
  step_wraps a h = elim (dec_lt (a + 1) n) [
    | yes lt ↦ ground (arith, mod-eq_of_lt lt)
    | no ge ↦
        let e : a + 1 ≡ n = omega arith in
        let wraps : (a + 1) % n ≡ 0 = rw e (mod_self n) in ground arith
  ]

  pub pos-lt : (s d : ℕ) → pos n s d < n
  pos-lt s d = mod-lt (s + d) pos_n

  pub next_slot-pos : (s d : ℕ) → next_slot n (pos n s d) ≡ pos n s (d + 1)
  next_slot-pos s d =
      step_wraps (pos n s d) (pos-lt s d)
      ∙ mod-add-mod (s + d) n 1
      ∙ ap (λ t. t % n) (add_assoc s d 1)

  pub next_slot-lt : (a : ℕ) → a < n → next_slot n a < n
  next_slot-lt a h = rw (step_wraps a h) (mod-lt (a + 1) pos_n)

  pub if_open-Live :
      (t : Table) (p i j : ℕ)
      → i < n
      → (slot t i).port_id ≡ p
      → if_open n t i ≡ some j
      → Live n t p j
  if_open-Live t p i j h port e = elim (Bool-cases (has_flag (slot t i).state endp_open)) [
    | inl o ↦
        let same : i ≡ j = ground arith in
        subst (Live n t p) same (record { in_range = h; is_open = o; has_port = port })
    | inr o ↦ ground arith
  ]

  -- One round of the search.
  find_from-hit :
      (k : ℕ) (t : Table) (p i : ℕ)
      → (slot t (next_slot n i)).port_id ≡ p
      → find_from n (suc k) t p i ≡ if_open n t (next_slot n i)
  unfolding find_from
  find_from-hit k t p i h = rw (eq→== _ _ h)

  find_from-miss :
      (k : ℕ) (t : Table) (p i : ℕ)
      → (slot t (next_slot n i)).port_id ≢ p
      → find_from n (suc k) t p i ≡ find_from n k t p (next_slot n i)
  unfolding find_from
  find_from-miss k t p i h = rw (ne→== _ _ h)

  pub if_open_self : (t : Table) (p i : ℕ) → Live n t p i → if_open n t i ≡ some i
  if_open_self t p i l = rw l.is_open

  pub find_from-Live :
      (k : ℕ) (t : Table) (p i j : ℕ) → i < n → find_from n k t p i ≡ some j → Live n t p j
  find_from-Live zero t p i j h e = let stops = find_from-stops n t p i in cc
  find_from-Live (suc k) t p i j h e =
      let lt = next_slot-lt i h in
      let i' = next_slot n i in
      elim (ℕ_discrete (slot t i').port_id p) [
        | yes hit ↦ if_open-Live t p i' j lt hit (sym (find_from-hit k t p i hit) ∙ e)
        | no miss ↦ find_from-Live k t p i' j lt (sym (find_from-miss k t p i miss) ∙ e)
      ]

  pub find_from-pos :
      (k : ℕ) (t : Table) (p s e d : ℕ)
      → Live n t p (pos n s d)
      → ((c : ℕ) → e < c → c < d → (slot t (pos n s c)).port_id ≢ p)
      → e < d
      → d ≤ e + k
      → find_from n k t p (pos n s e) ≡ some (pos n s d)
  find_from-pos zero t p s e d l clean lt le = absurd (omega arith)
  find_from-pos (suc k) t p s e d l clean lt le =
      let to_next = next_slot-pos s e in
      elim (dec_lt (e + 1) d) [
        | yes more ↦
            find_from-miss k t p (pos n s e) (rw to_next (clean (e + 1) (omega arith) more))
            ∙ ap (find_from n k t p) to_next
            ∙ find_from-pos k t p s (e + 1) d l (λ c a b. clean c (omega arith) b) more
                (omega arith)
        | no done ↦
            let at_d : next_slot n (pos n s e) ≡ pos n s d = to_next ∙ ap (pos n s) (omega arith) in
            find_from-hit k t p (pos n s e) (rw at_d l.has_port)
            ∙ ap (if_open n t) at_d
            ∙ if_open_self t p (pos n s d) l
      ]
