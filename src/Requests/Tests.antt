-- ===== src/Requests/Tests.antt =====
-- The theorems on libmcapi/mcapi/request.c at a pool of three structures.
use openmcapi_deprecated.Base.{ℕ, ◌≡◌, some, List, [], ◌∷◌, arith}
use openmcapi_deprecated.Requests.{
  Request, blank_request, init_request, get_free_request_struct, release_request_struct,
}
use openmcapi_deprecated.Requests.Pool.{GivenOut, get_free_request_struct-release_request_struct}

abbrev pool : List Request
pool = init_request 1 2 ∷ init_request 0 2 ∷ blank_request ∷ []

get_free_request_struct-release_request_struct_example :
    (k : ℕ) × (pool' : List Request) × (get_free_request_struct (release_request_struct 1 pool)
      ≡ some (k, pool'))
    × GivenOut (release_request_struct 1 pool) k pool'
get_free_request_struct-release_request_struct_example =
    get_free_request_struct-release_request_struct pool 1 (omega arith)
