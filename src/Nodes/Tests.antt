-- ===== src/Nodes/Tests.antt =====
-- The theorems on libmcapi/mcapi/create_endpoint.c and mcapi_delete_endp.c at a node of two slots.
use openmcapi_deprecated.Base.{
  ℕ, zero, suc, ◌%◌, ap, ◌^◌, ◌<◌, ◌≡◌, ◌≢◌, refl, inl, inr, none, some, List, [], ◌∷◌, arith,
}
use openmcapi_deprecated.Status
use openmcapi_deprecated.Handle.{encode_endpoint, decode_endpoint}
use openmcapi_deprecated.Endpoints.{
  Endpoint, blank, slot, endp_closed, find_from, find_endpoint, free_from, find_slot,
}
use openmcapi_deprecated.Endpoints.Insert.{all_closed-Clean}
use openmcapi_deprecated.Nodes.{
  Node, Call, blank_node, Created, check_foreign_resume, check_resume, fresh_endpoint, place,
  create_endpoint, port_any, req_created, find_node, find_node_from,
}
use openmcapi_deprecated.Nodes.Api.{decode_local_endpoint, delete_endpoint}
use openmcapi_deprecated.Nodes.Valid.{IsValid, count_used}
use openmcapi_deprecated.Endpoints.Insert.{Settled, closed_not-Live}
use openmcapi_deprecated.Endpoints.Live.{Clean, Live, pos}
use openmcapi_deprecated.Nodes.Place.{Opened}
use openmcapi_deprecated.Nodes.Create.{
  create_endpoint-opens, create_endpoint-any_port, create_endpoint-IsValid,
}
use openmcapi_deprecated.Nodes.Api.{ApiCreated, find_local_endpoint, mcapi_create_endpoint}
use openmcapi_deprecated.Nodes.Local.{mcapi_create_endpoint-decode_local_endpoint}
use openmcapi_deprecated.Nodes.Closed.{Closed, Ends}
use openmcapi_deprecated.Nodes.Delete.{Failure, delete_endpoint-closes, delete_endpoint-Failure}

abbrev unused : Endpoint
unused = record blank { state = endp_closed }

abbrev fresh : Node
fresh = record blank_node { node_id = 1; state = 1; endpoint_list = unused ∷ unused ∷ [] }

closed : (i : ℕ) → i < 2 → (slot fresh.endpoint_list i).state ≡ endp_closed
closed zero h = refl
closed (suc zero) h = refl
closed (suc (suc i)) h = absurd (omega arith)

fresh-IsValid : IsValid 2 fresh
unfolding count_used
fresh-IsValid = record {
  sized = refl;
  settled = λ i h. inl (closed i h);
  clean = all_closed-Clean 2 fresh.endpoint_list (omega arith) closed;
  counted = refl;
}

missing_run : find_endpoint 2 5 fresh.endpoint_list ≡ none
unfolding find_endpoint find_from
missing_run = refl

abbrev opened : Node
opened = record fresh { endpoint_count = 1; endpoint_list = unused ∷ fresh_endpoint 1 5 ∷ [] }

abbrev created : Created
created = record {
  status = Status.success;
  endpoint = encode_endpoint 1 5;
  node = opened;
  next_port = 10000;
  calls =
      check_foreign_resume req_created (encode_endpoint 1 5) Status.success
      ∷ check_resume req_created (encode_endpoint 1 5) 0 Status.success
      ∷ [];
}

create_run : create_endpoint 2 3 fresh 10000 5 ≡ some created
unfolding create_endpoint place find_endpoint find_from find_slot free_from
create_run = refl

create_endpoint-opens_example :
    (r : Created) × (create_endpoint 2 0 fresh 10000 5 ≡ some r)
    × (r.status ≡ Status.success)
    × (r.endpoint ≡ encode_endpoint 1 5)
    × Opened 2 fresh r.node 5
create_endpoint-opens_example =
    create_endpoint-opens 2 (omega arith) (omega arith) fresh 10000 fresh-IsValid 5 0 (omega arith)
      (omega arith) missing_run

create_endpoint-any_port_example :
    (p : ℕ) × (r : Created) × (create_endpoint 2 3 fresh 65535 port_any ≡ some r)
    × (p < 2 ^ 16)
    × (find_endpoint 2 p fresh.endpoint_list ≡ none)
    × (r.status ≡ Status.success)
    × (r.endpoint ≡ encode_endpoint 1 p)
    × Opened 2 fresh r.node p
create_endpoint-any_port_example =
    create_endpoint-any_port 2 (omega arith) (omega arith) fresh 65535 fresh-IsValid (omega arith)
      (omega arith)

create_endpoint-IsValid_example : IsValid 2 opened
create_endpoint-IsValid_example =
    create_endpoint-IsValid 2 (omega arith) (omega arith) fresh 10000 fresh-IsValid 5 3 created
      (omega arith) create_run

-- The same node with the endpoint, which a deletion finds.
abbrev nodes : List Node
nodes = opened ∷ []

opened-IsValid : IsValid 2 opened
opened-IsValid =
    create_endpoint-IsValid 2 (omega arith) (omega arith) fresh 10000 fresh-IsValid 5 3 created
      (omega arith) create_run

node_run : find_node (decode_endpoint 0x10005).0 nodes ≡ some 0
unfolding find_node find_node_from decode_endpoint
node_run = refl

endpoint_run : find_endpoint 2 (decode_endpoint 0x10005).1 opened.endpoint_list ≡ some 1
unfolding find_endpoint find_from decode_endpoint
endpoint_run = refl

-- The node with the endpoint half open and two buffers queued.
abbrev half_open : Endpoint
half_open = record (fresh_endpoint 1 5) { state = 0x6; rx_queue = 3 ∷ 4 ∷ [] }

abbrev busy : Node
busy = record opened { endpoint_list = unused ∷ half_open ∷ [] }

busy_Settled : (i : ℕ) → i < 2 → Settled (slot busy.endpoint_list i)
busy_Settled zero h = inl refl
busy_Settled (suc zero) h = inr refl
busy_Settled (suc (suc i)) h = absurd (omega arith)

only_half_open : (p j : ℕ) → Live 2 busy.endpoint_list p j → (j ≡ 1) × (5 ≡ p)
only_half_open p zero l = absurd (closed_not-Live 2 busy.endpoint_list p 0 refl l)
only_half_open p (suc zero) l = (refl, l.has_port)
only_half_open p (suc (suc j)) l = absurd (omega (arith, l.in_range))

busy_Clean : Clean 2 busy.endpoint_list
busy_Clean p d e lt l before same =
    let (at, port) = only_half_open p (pos 2 (p % 2) d) l in
    let odd : 1 ≡ p % 2 = ap (λ x. x % 2) port in omega (arith, at, odd)

busy-IsValid : IsValid 2 busy
unfolding count_used
busy-IsValid = record { sized = refl; settled = busy_Settled; clean = busy_Clean; counted = refl }

busy_run : find_endpoint 2 (decode_endpoint 0x10005).1 busy.endpoint_list ≡ some 1
unfolding find_endpoint find_from decode_endpoint
busy_run = refl

busy_node_run : find_node (decode_endpoint 0x10005).0 (busy ∷ []) ≡ some 0
unfolding find_node find_node_from decode_endpoint
busy_node_run = refl

delete_endpoint-closes_example :
    (after : Node) × (calls : List Call) × (delete_endpoint 2 (busy ∷ []) 0x10005
      ≡ record { status = Status.success; nodes = after ∷ []; calls = calls })
    × Ends 0x10005 half_open calls
    × ((slot after.endpoint_list 1).state ≡ endp_closed)
    × ((slot after.endpoint_list 1).rx_queue ≡ [])
    × Closed 2 busy after (decode_endpoint 0x10005).1
delete_endpoint-closes_example =
    delete_endpoint-closes 2 (busy ∷ []) 0x10005 0 1 busy_node_run (omega arith) (omega arith)
      busy-IsValid busy_run refl refl

refused_run : (delete_endpoint 2 nodes 0x20005).status ≢ Status.success
unfolding delete_endpoint decode_local_endpoint find_node find_node_from decode_endpoint
refused_run e = omega (arith, e)

delete_endpoint-Failure_example : Failure 2 nodes 0x20005
delete_endpoint-Failure_example = delete_endpoint-Failure 2 nodes 0x20005 refused_run

local_run : find_node 1 (fresh ∷ []) ≡ some 0
unfolding find_node find_node_from
local_run = refl

mcapi_create_endpoint-decode_local_endpoint_example :
    (r : ApiCreated) × (k : ℕ) × (mcapi_create_endpoint 2 0 1 (fresh ∷ []) 10000 5 ≡ some r)
    × (r.status ≡ Status.success)
    × (decode_local_endpoint 2 r.nodes r.endpoint ≡ inr (0, k))
    × (find_local_endpoint 2 r.nodes 1 5 ≡ some (0, k))
mcapi_create_endpoint-decode_local_endpoint_example =
    mcapi_create_endpoint-decode_local_endpoint 2 0 1 10000 5 0 (fresh ∷ []) (omega arith)
      (omega arith) (omega arith) (omega arith) local_run fresh-IsValid (omega arith) missing_run
