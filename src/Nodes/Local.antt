-- ===== src/Nodes/Local.antt =====
-- From a handle back to its endpoint: `mcapi_create_endpoint`, `mcapi_decode_local_endpoint` and
-- `mcapi_find_local_endpoint` (libmcapi/mcapi/mcapi_create_endp.c, endpoint.c, node.c).
use openmcapi_deprecated.Base.{
  ℕ, zero, suc, ◌+◌, ◌^◌, ◌<◌, ◌≡◌, refl, sym, ap, ◌∙◌, inl, inr, Bool, true, false, not, ◌&&◌,
  some, none, arith, some-eq, List, [], ◌∷◌, length, set, get_or, get_or-set_self, Bool-cases, ◌==◌,
  ==→eq, ne→==, le→leb,
}
use openmcapi_deprecated.Status
use openmcapi_deprecated.Handle.{encode_endpoint, decode_endpoint}
use openmcapi_deprecated.Handle.Codec.{decode_endpoint-encode_endpoint}
use openmcapi_deprecated.Endpoints.{find_endpoint}
use openmcapi_deprecated.Nodes.{
  Node, blank_node, Created, port_any, find_node, find_node_from, create_endpoint, node_unused,
}
use openmcapi_deprecated.Nodes.Api.{
  ApiCreated, decode_local_endpoint, find_local_endpoint, mcapi_create_endpoint,
}
use openmcapi_deprecated.Nodes.Valid.{IsValid}
use openmcapi_deprecated.Nodes.Create.{create_endpoint-opens}

-- The test of `mcapi_find_node`.
abbrev is_node : ℕ → Node → Bool
is_node t x = not (x.state == node_unused) && (x.node_id == t)

find_node_from-nil : (t i : ℕ) → find_node_from t i [] ≡ none
unfolding find_node_from
find_node_from-nil t i = refl

node-hit :
    (t i : ℕ) (x : Node) (ns : List Node)
    → is_node t x ≡ true
    → find_node_from t i (x ∷ ns) ≡ some i
unfolding find_node_from
node-hit t i x ns h = rw h refl

node-miss :
    (t i : ℕ) (x : Node) (ns : List Node)
    → is_node t x ≡ false
    → find_node_from t i (x ∷ ns) ≡ find_node_from t (i + 1) ns
unfolding find_node_from
node-miss t i x ns h = rw h refl

find_node_from-set :
    (t i j : ℕ) (ns : List Node) (x : Node)
    → x.node_id ≡ (get_or ns j blank_node).node_id
    → x.state ≡ (get_or ns j blank_node).state
    → find_node_from t i (set ns j x) ≡ find_node_from t i ns
find_node_from-set t i j [] x id st = refl
find_node_from-set t i zero (y ∷ ns) x id st =
    let same : is_node t x ≡ is_node t y =
      ap (λ s. not (s == node_unused) && (x.node_id == t)) st
      ∙ ap (λ d. not (y.state == node_unused) && (d == t)) id in
    elim (Bool-cases (is_node t y)) [
      | inl h ↦ node-hit t i x ns (same ∙ h) ∙ sym (node-hit t i y ns h)
      | inr h ↦ node-miss t i x ns (same ∙ h) ∙ sym (node-miss t i y ns h)
    ]
find_node_from-set t i (suc j) (y ∷ ns) x id st = elim (Bool-cases (is_node t y)) [
  | inl h ↦ node-hit t i y (set ns j x) h ∙ sym (node-hit t i y ns h)
  | inr h ↦
      node-miss t i y (set ns j x) h
      ∙ find_node_from-set t (i + 1) j ns x id st
      ∙ sym (node-miss t i y ns h)
]

-- The entry that is found has the identifier.
find_node_from-at :
    (t i r : ℕ) (ns : List Node)
    → find_node_from t i ns ≡ some r
    → (k : ℕ) × (r ≡ i + k) × (k < length ns) × ((get_or ns k blank_node).node_id ≡ t)
find_node_from-at t i r [] e = let stops = find_node_from-nil t i in cc
find_node_from-at t i r (y ∷ ns) e = elim (Bool-cases (is_node t y)) [
  | inl h ↦
      let here : i ≡ r = some-eq (sym (node-hit t i y ns h) ∙ e) in
      (0, omega arith, omega arith, has_id (y.state == node_unused) y.node_id h)
  | inr h ↦
      let (k, at, lt, id) = find_node_from-at t (i + 1) r ns (sym (node-miss t i y ns h) ∙ e) in
      (suc k, omega arith, omega arith, id)
]
  where
    has_id : (b : Bool) (d : ℕ) → (not b && (d == t)) ≡ true → d ≡ t
    has_id true d h = cc
    has_id false d h = ==→eq d t h

find_node-at :
    (t r : ℕ) (ns : List Node)
    → find_node t ns ≡ some r
    → (r < length ns) × ((get_or ns r blank_node).node_id ≡ t)
unfolding find_node
find_node-at t r ns e =
    let (k, at, lt, id) = find_node_from-at t 0 r ns e in
    let same : k ≡ r = omega arith in
    (omega arith, ap (λ m. (get_or ns m blank_node).node_id) (sym same) ∙ id)

find_node-set :
    (t j : ℕ) (ns : List Node) (x : Node)
    → x.node_id ≡ (get_or ns j blank_node).node_id
    → x.state ≡ (get_or ns j blank_node).state
    → find_node t (set ns j x) ≡ find_node t ns
unfolding find_node
find_node-set t j ns x id st = find_node_from-set t 0 j ns x id st

decode_found :
    (n i k h t p : ℕ) (nodes : List Node)
    → decode_endpoint h ≡ (t, p)
    → find_node t nodes ≡ some i
    → find_endpoint n p (get_or nodes i blank_node).endpoint_list ≡ some k
    → (decode_local_endpoint n nodes h ≡ inr (i, k))
      × (find_local_endpoint n nodes t p ≡ some (i, k))
unfolding decode_local_endpoint find_local_endpoint
decode_found n i k h t p nodes dec node endp =
    let node' : find_node (decode_endpoint h).0 nodes ≡ some i =
      ap (λ d. find_node d.0 nodes) dec ∙ node in
    let endp' : find_endpoint n (decode_endpoint h).1 (get_or nodes i blank_node).endpoint_list
        ≡ some k =
      ap (λ d. find_endpoint n d.1 (get_or nodes i blank_node).endpoint_list) dec ∙ endp in
    (rw (decode_local_endpoint, node', endp') refl, rw (find_local_endpoint, node, endp) refl)

create_run :
    (n fuel here next_port port i : ℕ) (nodes : List Node) (r : Created)
    → port < 2 ^ 16
    → find_node here nodes ≡ some i
    → create_endpoint n fuel (get_or nodes i blank_node) next_port port ≡ some r
    → mcapi_create_endpoint n fuel here nodes next_port port
      ≡ some (record {
        status = r.status;
        endpoint = r.endpoint;
        nodes = set nodes i r.node;
        next_port = r.next_port;
        calls = r.calls;
      })
unfolding mcapi_create_endpoint
create_run n fuel here next_port port i nodes r lt node run =
    rw
      (
        mcapi_create_endpoint,
        ne→== port port_any (omega arith),
        le→leb port 65535 (omega arith),
        node,
        run,
      )
      refl

-- On a local node with a 16-bit identifier that is valid and has room, for a 16-bit port that no open
-- endpoint has, `mcapi_create_endpoint` returns success and a handle by which `mcapi_decode_local_endpoint`
-- finds the new endpoint; `mcapi_find_local_endpoint` finds it by the node and the port.
pub mcapi_create_endpoint-decode_local_endpoint :
    (n fuel here next_port port i : ℕ) (nodes : List Node)
    → 0 < n
    → n < 2 ^ 16
    → here < 2 ^ 16
    → port < 2 ^ 16
    → find_node here nodes ≡ some i
    → IsValid n (get_or nodes i blank_node)
    → (get_or nodes i blank_node).endpoint_count < n
    → find_endpoint n port (get_or nodes i blank_node).endpoint_list ≡ none
    → (r : ApiCreated) × (k : ℕ) × (mcapi_create_endpoint n fuel here nodes next_port port ≡ some r)
      × (r.status ≡ Status.success)
      × (decode_local_endpoint n r.nodes r.endpoint ≡ inr (i, k))
      × (find_local_endpoint n r.nodes here port ≡ some (i, k))
mcapi_create_endpoint-decode_local_endpoint n fuel here next_port port i nodes pos_n small hh hp
      node v room missing =
    let (in_list, id) = find_node-at here i nodes node in
    let (r, run, ok, handle, o) =
      create_endpoint-opens n pos_n small (get_or nodes i blank_node) next_port v port fuel
        (omega arith) room missing in
    let decoded : decode_endpoint r.endpoint ≡ (here, port) =
      ap decode_endpoint (handle ∙ ap (λ d. encode_endpoint d port) id)
      ∙ decode_endpoint-encode_endpoint here port hh hp in
    let node' = find_node-set here i nodes r.node o.same_id o.same_state ∙ node in
    let endp' =
      ap (λ x. find_endpoint n port x.endpoint_list)
        (get_or-set_self nodes i r.node blank_node in_list)
      ∙ o.found in
    let (by_handle, by_port) =
      decode_found n i o.at r.endpoint here port (set nodes i r.node) decoded node' endp' in
    (
      record {
        status = r.status;
        endpoint = r.endpoint;
        nodes = set nodes i r.node;
        next_port = r.next_port;
        calls = r.calls;
      },
      o.at,
      create_run n fuel here next_port port i nodes r hp node run,
      ok,
      by_handle,
      by_port,
    )
