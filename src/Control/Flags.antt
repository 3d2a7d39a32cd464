-- ===== src/Control/Flags.antt =====
-- Flags of an endpoint's state under `state |= f` and `state &= ~f`.
use openmcapi_deprecated.Base.{
  ℕ, ◌^◌, ◌≡◌, refl, sym, ◌∙◌, Bool, true, false, ◌&&◌, ◌||◌, bit_and, bit_or,
}
use openmcapi_deprecated.Base.Bits.Flags.{has_flag-or, has_flag-and}
use openmcapi_deprecated.Endpoints.{has_flag}

or_false : (a b : Bool) → b ≡ false → (a || b) ≡ a
or_false true b h = refl
or_false false b h = h

or_true : (a b : Bool) → b ≡ true → (a || b) ≡ true
or_true true b h = refl
or_true false b h = h

or_left : (a b : Bool) → a ≡ true → (a || b) ≡ true
or_left true b h = refl
or_left false b h = cc

and_left : (a b : Bool) → (a && b) ≡ true → a ≡ true
and_left true b h = refl
and_left false b h = h

and_both : (a b : Bool) → a ≡ true → b ≡ true → (a && b) ≡ true
and_both true b h k = k
and_both false b h k = h

and_false : (a b : Bool) → a ≡ false → (a && b) ≡ false
and_false true b h = cc
and_false false b h = refl

module _ (j s f : ℕ) where
  pub or-keeps : has_flag f (2 ^ j) ≡ false → has_flag (bit_or s f) (2 ^ j) ≡ has_flag s (2 ^ j)
  or-keeps h = has_flag-or j s f ∙ or_false (has_flag s (2 ^ j)) (has_flag f (2 ^ j)) h

  pub or-sets : has_flag f (2 ^ j) ≡ true → has_flag (bit_or s f) (2 ^ j) ≡ true
  or-sets h = has_flag-or j s f ∙ or_true (has_flag s (2 ^ j)) (has_flag f (2 ^ j)) h

  pub or-still : has_flag s (2 ^ j) ≡ true → has_flag (bit_or s f) (2 ^ j) ≡ true
  or-still h = has_flag-or j s f ∙ or_left (has_flag s (2 ^ j)) (has_flag f (2 ^ j)) h

  pub and-was : has_flag (bit_and s f) (2 ^ j) ≡ true → has_flag s (2 ^ j) ≡ true
  and-was h = and_left (has_flag s (2 ^ j)) (has_flag f (2 ^ j)) (sym (has_flag-and j s f) ∙ h)

  pub and-still :
      has_flag s (2 ^ j) ≡ true → has_flag f (2 ^ j) ≡ true → has_flag (bit_and s f) (2 ^ j) ≡ true
  and-still h k = has_flag-and j s f ∙ and_both (has_flag s (2 ^ j)) (has_flag f (2 ^ j)) h k

  pub and-unset : has_flag s (2 ^ j) ≡ false → has_flag (bit_and s f) (2 ^ j) ≡ false
  and-unset h = has_flag-and j s f ∙ and_false (has_flag s (2 ^ j)) (has_flag f (2 ^ j)) h
