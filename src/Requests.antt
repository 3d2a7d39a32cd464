-- ===== src/Requests.antt =====
-- Request structures: libmcapi/mcapi/request.c on `struct _mcapi_request` of include/mcapi_impl_spec.h, and
-- the search for a request of libmcapi/mcapi/suspend.c. The links, the application's pointers and the
-- condition variable are left out: nothing here reads them. A type of 0 marks a structure as free.
pub mod Pool
mod Tests
use openmcapi_deprecated.Base.{
  ℕ, zero, suc, ◌+◌, Bool, ◌&&◌, Option, none, some, List, [], ◌∷◌, ◌==◌, if◌then◌else◌, get_or,
  set,
}
use openmcapi_deprecated.Status

-- `struct _mcapi_request`
pub record Request : Type 0 where
  pub status : ℕ
  pub type : ℕ
  pub chan_type : ℕ
  pub requesting_node_id : ℕ
  pub requesting_port_id : ℕ
  pub target_endp : ℕ
  pub target_node_id : ℕ
  pub target_port_id : ℕ
  pub byte_count : ℕ
  pub buf_size : ℕ
  pub pending_count : ℕ

-- `memset(request, 0, sizeof(mcapi_request_t))`
abbrev pub blank_request : Request
blank_request = record {
  status = 0;
  type = 0;
  chan_type = 0;
  requesting_node_id = 0;
  requesting_port_id = 0;
  target_endp = 0;
  target_node_id = 0;
  target_port_id = 0;
  byte_count = 0;
  buf_size = 0;
  pending_count = 0;
}

-- `mcapi_init_request`, on the node `here`.
pub init_request : ℕ → ℕ → Request
init_request here type = record blank_request {
  requesting_node_id = here;
  type = type;
  status = Status.pending;
}

-- The loop of `mcapi_get_free_request_struct` from entry i on: the entry, and the entries afterwards.
pub get_free_from : ℕ → List Request → Option (ℕ × List Request)
get_free_from i [] = none
get_free_from i (r ∷ rs) =
    let rest = get_free_from (i + 1) rs in
    if r.type == 0
    then some (i, blank_request ∷ rs)
    else elim rest [ none ↦ none | some (k, rs') ↦ some (k, r ∷ rs') ]

-- `mcapi_get_free_request_struct`
pub get_free_request_struct : List Request → Option (ℕ × List Request)
unfolding get_free_from
get_free_request_struct pool = get_free_from 0 pool

-- `mcapi_release_request_struct`, of entry i.
pub release_request_struct : ℕ → List Request → List Request
release_request_struct i pool = set pool i (record (get_or pool i blank_request) { type = 0 })

-- The test of `mcapi_find_request`.
abbrev pub same_request : Request → Request → Bool
same_request r target =
    (r.requesting_node_id == target.requesting_node_id)
    && (r.type == target.type)
    && (r.target_endp == target.target_endp)
    && (r.target_node_id == target.target_node_id)
    && (r.target_port_id == target.target_port_id)

-- `mcapi_find_request`, on the requests of a queue: the position of the one that is found.
pub find_request : Request → List Request → Option ℕ
find_request target [] = none
find_request target (r ∷ rs) =
    let rest = find_request target rs in
    if same_request r target then some 0 else elim rest [ none ↦ none | some i ↦ some (suc i) ]
