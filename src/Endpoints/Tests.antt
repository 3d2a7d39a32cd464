-- ===== src/Endpoints/Tests.antt =====
-- The search of libmcapi/mcapi/endpoint.c in a table of two slots with an endpoint on port 5.
use mathlib.Core.Logic.{◌↔◌}
use openmcapi_deprecated.Base.{ℕ, zero, suc, ◌<◌, ◌≡◌, refl, inl, none, some, [], ◌∷◌, arith, set}
use openmcapi_deprecated.Endpoints.{
  Endpoint, Table, blank, slot, endp_closed, endp_open, find_from, find_endpoint, free_from,
  find_slot,
}
use openmcapi_deprecated.Endpoints.Live.{Live, Clean}
use openmcapi_deprecated.Endpoints.Lookup.{find_endpoint_iff}
use openmcapi_deprecated.Endpoints.Slots.{find_slot-FirstFree}
use openmcapi_deprecated.Endpoints.Insert.{all_closed-Clean, Clean-set}

abbrev unused : Endpoint
unused = record blank { state = endp_closed }

abbrev two_slots : Table
two_slots = unused ∷ unused ∷ []

abbrev endpoint_5 : Endpoint
endpoint_5 = record blank { state = endp_open; port_id = 5 }

closed : (i : ℕ) → i < 2 → (slot two_slots i).state ≡ endp_closed
closed zero h = refl
closed (suc zero) h = refl
closed (suc (suc i)) h = absurd (omega arith)

slot_run : find_slot 2 5 two_slots ≡ some 1
unfolding find_slot free_from
slot_run = refl

missing_run : find_endpoint 2 5 two_slots ≡ none
unfolding find_endpoint find_from
missing_run = refl

table-Clean : Clean 2 (set two_slots 1 endpoint_5)
table-Clean =
    Clean-set 2 two_slots 5 1 endpoint_5
      (record {
        pos_n = omega arith;
        clean = all_closed-Clean 2 two_slots (omega arith) closed;
        settled = λ i h. inl (closed i h);
        in_table = omega arith;
        missing = missing_run;
        first = find_slot-FirstFree 2 (omega arith) two_slots 5 1 slot_run;
      })
      refl

find_endpoint_iff_example :
    (find_endpoint 2 5 (set two_slots 1 endpoint_5) ≡ some 1)
    ↔ Live 2 (set two_slots 1 endpoint_5) 5 1
find_endpoint_iff_example =
    find_endpoint_iff 2 (omega arith) (set two_slots 1 endpoint_5) 5 1 table-Clean
