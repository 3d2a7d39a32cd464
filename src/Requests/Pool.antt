-- ===== src/Requests/Pool.antt =====
-- The pool of request structures (libmcapi/mcapi/request.c).
use native.Mathlib.Decide.{ℕ_discrete}
use openmcapi_deprecated.Base.{
  ℕ, zero, suc, ◌+◌, ◌<◌, ◌≡◌, ◌≢◌, refl, ap, ◌∙◌, ◌⊎◌, inl, inr, none, some, List, [], ◌∷◌, arith,
  eq→==, ne→==, length, get_or, set, length-set, get_or-set_self,
}
use openmcapi_deprecated.Requests.{
  Request, blank_request, get_free_from, get_free_request_struct, release_request_struct,
}

abbrev pub entry : List Request → ℕ → Request
entry pool i = get_or pool i blank_request

-- Entry i of the pool was its first free one, and has been blanked.
pub record GivenOut (pool : List Request) (i : ℕ) (pool' : List Request) : Type 0 where
  pub in_pool : i < length pool
  pub was_free : (entry pool i).type ≡ 0
  pub first : (j : ℕ) → j < i → (entry pool j).type ≢ 0
  pub blanked : pool' ≡ set pool i blank_request

get-hit :
    (i : ℕ) (r : Request) (rs : List Request)
    → r.type ≡ 0
    → get_free_from i (r ∷ rs) ≡ some (i, blank_request ∷ rs)
unfolding get_free_from
get-hit i r rs e = rw (eq→== r.type 0 e) refl

get-miss :
    (i k : ℕ) (r : Request) (rs rs' : List Request)
    → r.type ≢ 0
    → get_free_from (i + 1) rs ≡ some (k, rs')
    → get_free_from i (r ∷ rs) ≡ some (k, r ∷ rs')
unfolding get_free_from
get-miss i k r rs rs' d e = rw (get_free_from, ne→== r.type 0 d, e) refl

get-none :
    (i : ℕ) (r : Request) (rs : List Request)
    → r.type ≢ 0
    → get_free_from (i + 1) rs ≡ none
    → get_free_from i (r ∷ rs) ≡ none
unfolding get_free_from
get-none i r rs d e = rw (get_free_from, ne→== r.type 0 d, e) refl

get_free_from-cases :
    (i : ℕ) (pool : List Request)
    → ((get_free_from i pool ≡ none) × ((j : ℕ) → j < length pool → (entry pool j).type ≢ 0))
      ⊎ ((k : ℕ) × (pool' : List Request) × (get_free_from i pool ≡ some (i + k, pool'))
          × GivenOut pool k pool')
unfolding get_free_from
get_free_from-cases i [] = inl (refl, λ j h. absurd (omega arith))
get_free_from-cases i (r ∷ rs) = elim (ℕ_discrete r.type 0) [
  | yes e ↦
      let zero_on : i ≡ i + 0 = omega arith in
      inr (
        0,
        blank_request ∷ rs,
        get-hit i r rs e ∙ ap (λ m. some (m, blank_request ∷ rs)) zero_on,
        record {
          in_pool = omega arith;
          was_free = e;
          first = λ j h. absurd (omega arith);
          blanked = refl;
        },
      )
  | no d ↦ elim (get_free_from-cases (i + 1) rs) [
    | inl (e, used) ↦ inl (get-none i r rs d e, extend d (length rs) used)
    | inr (k, rs', e, g) ↦
        let next : i + 1 + k ≡ i + suc k = omega arith in
        inr (
          suc k,
          r ∷ rs',
          get-miss i (i + 1 + k) r rs rs' d e ∙ ap (λ m. some (m, r ∷ rs')) next,
          record {
            in_pool = omega (arith, g.in_pool);
            was_free = g.was_free;
            first = extend d k g.first;
            blanked = ap (λ l. r ∷ l) g.blanked;
          },
        )
  ]
]
  where
    extend :
        r.type ≢ 0
        → (k : ℕ) → ((j : ℕ) → j < k → (entry rs j).type ≢ 0)
        → (j : ℕ) → j < suc k
        → (entry (r ∷ rs) j).type ≢ 0
    extend d k h zero lt = d
    extend d k h (suc j) lt = h j (omega arith)

-- `mcapi_get_free_request_struct` gives out the first free structure of the pool, blanked, and leaves the
-- others; or it gives out none and every structure is in use.
pub get_free_request_struct-first :
    (pool : List Request)
    → ((get_free_request_struct pool ≡ none)
        × ((j : ℕ) → j < length pool → (entry pool j).type ≢ 0))
      ⊎ ((k : ℕ) × (pool' : List Request) × (get_free_request_struct pool ≡ some (k, pool'))
          × GivenOut pool k pool')
unfolding get_free_request_struct
get_free_request_struct-first pool = elim (get_free_from-cases 0 pool) [
  | inl h ↦ inl h
  | inr (k, pool', e, g) ↦
      let same : 0 + k ≡ k = omega arith in inr (k, pool', e ∙ ap (λ m. some (m, pool')) same, g)
]

-- A structure of the pool that is released can be given out again: afterwards the pool is not empty of free
-- structures.
pub get_free_request_struct-release_request_struct :
    (pool : List Request) (i : ℕ)
    → i < length pool
    → (k : ℕ) × (pool' : List Request) × (get_free_request_struct (release_request_struct i pool)
        ≡ some (k, pool'))
      × GivenOut (release_request_struct i pool) k pool'
unfolding release_request_struct
get_free_request_struct-release_request_struct pool i h =
    elim (get_free_request_struct-first (release_request_struct i pool)) [
      | inr found ↦ found
      | inl (e, used) ↦
          let freed = record (get_or pool i blank_request) { type = 0 } in
          absurd (
            used i (omega (arith, length-set pool i freed))
              (ap (λ r. r.type) (get_or-set_self pool i freed blank_request h)))
    ]
