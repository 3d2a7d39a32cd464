-- ===== src/Control/Steps.antt =====
-- The changes of an endpoint's state word that libmcapi/mcapi/cntrl_msg.c and `mcapi_open` of connect.c make,
-- as a relation, and what they keep.
use openmcapi_deprecated.Base.{ℕ, ◌≡◌, refl, sym, ◌∙◌, true, false, bit_and, bit_or}
use openmcapi_deprecated.Endpoints.{endp_open, endp_connecting, endp_tx, endp_rx, has_flag}
use openmcapi_deprecated.Channels.{endp_disconnected}
use openmcapi_deprecated.Control.{
  endp_connected, endp_tx_acked, endp_rx_acked, endp_connecting_tx, endp_connecting_rx, clear_flag,
}
use openmcapi_deprecated.Control.Flags.{or-keeps, or-still, and-was, and-still, and-unset}

-- One change of a state.
pub data Step : ℕ → ℕ → Type 0 where
  connects : (s : ℕ) → Step s (clear_flag (bit_or s endp_connecting) endp_disconnected)
  connects_tx : (s : ℕ) → Step s (bit_or s endp_connecting_tx)
  connects_rx : (s : ℕ) → Step s (bit_or s endp_connecting_rx)
  acks_tx : (s : ℕ) → Step s (bit_or s endp_tx_acked)
  acks_rx : (s : ℕ) → Step s (bit_or s endp_rx_acked)
  completes :
      (s : ℕ)
      → has_flag s endp_tx_acked ≡ true
      → has_flag s endp_rx_acked ≡ true
      → Step s (bit_or s endp_connected)
  opens_tx :
      (s : ℕ) → has_flag s endp_tx ≡ false → has_flag s endp_rx ≡ false → Step s (bit_or s endp_tx)
  opens_rx :
      (s : ℕ) → has_flag s endp_tx ≡ false → has_flag s endp_rx ≡ false → Step s (bit_or s endp_rx)
  refuses : (s : ℕ) → Step s (clear_flag s endp_connecting)
  drops_tx : (s : ℕ) → Step s (clear_flag s endp_tx)
  drops_rx : (s : ℕ) → Step s (clear_flag s endp_rx)
  disconnects : (s : ℕ) → Step s (clear_flag s endp_connected)

-- Any number of changes.
pub data Reach : ℕ → ℕ → Type 0 where
  stay : (s : ℕ) → Reach s s
  follow : (s t u : ℕ) → Reach s t → Step t u → Reach s u

pub Reach-trans : (s t u : ℕ) → Reach s t → Reach t u → Reach s u
Reach-trans s t _ p (stay _) = p
Reach-trans s t _ p (follow _ v u q step) = follow s v u (Reach-trans s t v p q) step

pub Step-Reach : (s t : ℕ) → Step s t → Reach s t
Step-Reach s t step = follow s s t (stay s) step

-- What always holds of an endpoint that is open: it sends or receives but not both, and it is connected only
-- when both sides have acknowledged.
pub record IsSafe (s : ℕ) : Type 0 where
  pub is_open : has_flag s endp_open ≡ true
  pub one_side : has_flag s endp_tx ≡ true → has_flag s endp_rx ≡ false
  pub tx_agreed : has_flag s endp_connected ≡ true → has_flag s endp_tx_acked ≡ true
  pub rx_agreed : has_flag s endp_connected ≡ true → has_flag s endp_rx_acked ≡ true

-- Setting flags other than the sides and the completion, and clearing flags other than the
-- acknowledgements.
IsSafe-or :
    (s f : ℕ)
    → has_flag f endp_tx ≡ false
    → has_flag f endp_rx ≡ false
    → has_flag f endp_connected ≡ false
    → IsSafe s
    → IsSafe (bit_or s f)
IsSafe-or s f tx rx connected safe = record {
  is_open = or-still 1 s f safe.is_open;
  one_side = λ h. or-keeps 5 s f rx ∙ safe.one_side (sym (or-keeps 4 s f tx) ∙ h);
  tx_agreed = λ h. or-still 6 s f (safe.tx_agreed (sym (or-keeps 3 s f connected) ∙ h));
  rx_agreed = λ h. or-still 7 s f (safe.rx_agreed (sym (or-keeps 3 s f connected) ∙ h));
}

IsSafe-and :
    (s m : ℕ)
    → has_flag m endp_open ≡ true
    → has_flag m endp_tx_acked ≡ true
    → has_flag m endp_rx_acked ≡ true
    → IsSafe s
    → IsSafe (bit_and s m)
IsSafe-and s m opened tx_acked rx_acked safe = record {
  is_open = and-still 1 s m safe.is_open opened;
  one_side = λ h. and-unset 5 s m (safe.one_side (and-was 4 s m h));
  tx_agreed = λ h. and-still 6 s m (safe.tx_agreed (and-was 3 s m h)) tx_acked;
  rx_agreed = λ h. and-still 7 s m (safe.rx_agreed (and-was 3 s m h)) rx_acked;
}

false-true : ¬ false ≡ true
false-true e = cc

Step-IsSafe : (s t : ℕ) → Step s t → IsSafe s → IsSafe t
Step-IsSafe _ _ (connects s) safe =
    IsSafe-and (bit_or s endp_connecting) 0xffff_feff refl refl refl
      (IsSafe-or s endp_connecting refl refl refl safe)
Step-IsSafe _ _ (connects_tx s) safe = IsSafe-or s endp_connecting_tx refl refl refl safe
Step-IsSafe _ _ (connects_rx s) safe = IsSafe-or s endp_connecting_rx refl refl refl safe
Step-IsSafe _ _ (acks_tx s) safe = IsSafe-or s endp_tx_acked refl refl refl safe
Step-IsSafe _ _ (acks_rx s) safe = IsSafe-or s endp_rx_acked refl refl refl safe
Step-IsSafe _ _ (completes s tx rx) safe = record {
  is_open = or-still 1 s endp_connected safe.is_open;
  one_side = λ h.
      or-keeps 5 s endp_connected refl ∙ safe.one_side (sym (or-keeps 4 s endp_connected refl) ∙ h);
  tx_agreed = λ h. or-still 6 s endp_connected tx;
  rx_agreed = λ h. or-still 7 s endp_connected rx;
}
Step-IsSafe _ _ (opens_tx s no_tx no_rx) safe = record {
  is_open = or-still 1 s endp_tx safe.is_open;
  one_side = λ h. or-keeps 5 s endp_tx refl ∙ no_rx;
  tx_agreed = λ h. or-still 6 s endp_tx (safe.tx_agreed (sym (or-keeps 3 s endp_tx refl) ∙ h));
  rx_agreed = λ h. or-still 7 s endp_tx (safe.rx_agreed (sym (or-keeps 3 s endp_tx refl) ∙ h));
}
Step-IsSafe _ _ (opens_rx s no_tx no_rx) safe = record {
  is_open = or-still 1 s endp_rx safe.is_open;
  one_side = λ h. absurd (false-true (sym no_tx ∙ sym (or-keeps 4 s endp_rx refl) ∙ h));
  tx_agreed = λ h. or-still 6 s endp_rx (safe.tx_agreed (sym (or-keeps 3 s endp_rx refl) ∙ h));
  rx_agreed = λ h. or-still 7 s endp_rx (safe.rx_agreed (sym (or-keeps 3 s endp_rx refl) ∙ h));
}
Step-IsSafe _ _ (refuses s) safe = IsSafe-and s 0xffff_fffb refl refl refl safe
Step-IsSafe _ _ (drops_tx s) safe = IsSafe-and s 0xffff_ffef refl refl refl safe
Step-IsSafe _ _ (drops_rx s) safe = IsSafe-and s 0xffff_ffdf refl refl refl safe
Step-IsSafe _ _ (disconnects s) safe = IsSafe-and s 0xffff_fff7 refl refl refl safe

pub Reach-IsSafe : (s t : ℕ) → Reach s t → IsSafe s → IsSafe t
Reach-IsSafe s _ (stay _) safe = safe
Reach-IsSafe s _ (follow _ t u p step) safe = Step-IsSafe t u step (Reach-IsSafe s t p safe)
