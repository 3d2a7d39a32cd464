-- ===== src/Shm/Poll.antt =====
-- The reception loop `shm_poll` (libmcapi/shm/shm.c).
use native.Mathlib.Decide.{dec_lt, ℕ_discrete}
use openmcapi_deprecated.Base.{
  ℕ, zero, suc, ◌<◌, ◌≡◌, refl, Bool, true, false, some, List, [], ◌∷◌, ◌++◌, arith, ltb, lt→ltb,
  ge→ltb, eq→==, ne→==, ◌≢◌, ◌⊎◌, inl, inr, if◌then◌else◌, length,
}
use openmcapi_deprecated.Shm.{Desc, DescQ, shm_desc_consume}
use openmcapi_deprecated.Shm.Driver.{msg_type, chan_pkt_type, chan_scal_type, delivery, shm_poll}
use openmcapi_deprecated.Shm.Ring.{contents, RingValid, shm_desc_consume-tail}

-- The types of descriptors that carry a packet.
abbrev CarriesPacket : Desc → Type 0
CarriesPacket d = (d.type ≡ msg_type) ⊎ ((d.type ≡ chan_pkt_type) ⊎ (d.type ≡ chan_scal_type))

-- What a list of descriptors must hand over: for each with a priority below 2 that carries a packet, the
-- priority and the offset; for the others, nothing.
pub data Handed : List Desc → List (ℕ × ℕ) → Type 0 where
  no_more : Handed [] []
  packet :
      {d : Desc} {ds : List Desc} {ps : List (ℕ × ℕ)}
      → d.priority < 2
      → CarriesPacket d
      → Handed ds ps
      → Handed (d ∷ ds) ((d.priority, d.value) ∷ ps)
  no_packet :
      {d : Desc} {ds : List Desc} {ps : List (ℕ × ℕ)}
      → ¬ CarriesPacket d
      → Handed ds ps
      → Handed (d ∷ ds) ps
  out_of_range :
      {d : Desc} {ds : List Desc} {ps : List (ℕ × ℕ)}
      → ¬ d.priority < 2
      → Handed ds ps
      → Handed (d ∷ ds) ps

-- Whether a descriptor has a priority below 2.
pub any_in_range : List Desc → Bool
any_in_range [] = false
any_in_range (d ∷ ds) = let rest = any_in_range ds in if ltb d.priority 2 then true else rest

-- What is handed over for a descriptor with a priority below 2.
Handed-delivery :
    (d : Desc) (ds : List Desc) (ps : List (ℕ × ℕ))
    → d.priority < 2
    → Handed ds ps
    → Handed (d ∷ ds) (delivery d ++ ps)
Handed-delivery d ds ps lt rest = elim (ℕ_discrete d.type msg_type) [
  | yes a ↦ rw (eq→== d.type msg_type a) (packet lt (inl a) rest)
  | no a ↦ elim (ℕ_discrete d.type chan_pkt_type) [
    | yes b ↦
        rw (ne→== d.type msg_type a, eq→== d.type chan_pkt_type b) (packet lt (inr (inl b)) rest)
    | no b ↦ elim (ℕ_discrete d.type chan_scal_type) [
      | yes c ↦
          rw (ne→== d.type msg_type a, ne→== d.type chan_pkt_type b, eq→== d.type chan_scal_type c)
            (packet lt (inr (inr c)) rest)
      | no c ↦
          rw (ne→== d.type msg_type a, ne→== d.type chan_pkt_type b, ne→== d.type chan_scal_type c)
            (no_packet (none_of a b c) rest)
    ]
  ]
]
  where
    none_of :
        d.type ≢ msg_type → d.type ≢ chan_pkt_type → d.type ≢ chan_scal_type → ¬ CarriesPacket d
    none_of a b c (inl e) = a e
    none_of a b c (inr (inl e)) = b e
    none_of a b c (inr (inr e)) = c e

-- With fuel for each descriptor held by a valid ring, `shm_poll` ends: for each descriptor with a priority below
-- 2 whose type is that of a message, a packet or a scalar, oldest first, it hands over the priority and the
-- offset, and for no other; it sets the event exactly if there was a descriptor with a priority below 2, and
-- leaves an empty valid ring.
pub shm_poll-Handed :
    (f : ℕ) (q : DescQ) (ds : List Desc)
    → RingValid q
    → contents q ≡ ds
    → length ds < f
    → (ps : List (ℕ × ℕ)) × (q' : DescQ) × (shm_poll f q ≡ some (ps, any_in_range ds, q'))
      × Handed ds ps
      × (contents q' ≡ [])
      × RingValid q'
unfolding shm_poll any_in_range
shm_poll-Handed zero q ds v e fuel = absurd (omega arith)
shm_poll-Handed (suc f) q [] v e fuel =
    ([], q, rw (shm_poll, (shm_desc_consume-tail q v).0 e) refl, no_more, e, v)
shm_poll-Handed (suc f) q (d ∷ ds) v e fuel =
    let (next, left, v') = (shm_desc_consume-tail q v).1 d ds e in
    let (ps, q', run, handed, empty, valid) =
      shm_poll-Handed f (shm_desc_consume q) ds v' left (omega arith) in
    elim (dec_lt d.priority 2) [
      | yes lt ↦ (
        delivery d ++ ps,
        q',
        rw (shm_poll, next, run, any_in_range, lt→ltb d.priority 2 lt) refl,
        Handed-delivery d ds ps lt handed,
        empty,
        valid,
      )
      | no ge ↦ (
        ps,
        q',
        rw (shm_poll, next, run, any_in_range, ge→ltb d.priority 2 ge) refl,
        out_of_range ge handed,
        empty,
        valid,
      )
    ]
