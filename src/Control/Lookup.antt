-- ===== src/Control/Lookup.antt =====
-- The control messages that ask for endpoints of other nodes: the cases MCAPI_GETENDP_REQUEST,
-- MCAPI_GETENDP_RESPONSE and MCAPI_CANCEL_MSG of `mcapi_process_ctrl_msg`, `mcapi_tx_response` (both in
-- libmcapi/mcapi/cntrl_msg.c), and `mcapi_check_foreign_resume` (create_endpoint.c of the same folder). The
-- requests of other nodes are entries of the pool of request structures.
use openmcapi_deprecated.Base.{
  ℕ, ◌+◌, ◌-◌, ◌%◌, ◌^◌, Bool, true, false, ◌&&◌, Option, none, some, List, [], ◌∷◌, ◌++◌, ◌==◌,
  if◌then◌else◌, get_or, set,
}
use openmcapi_deprecated.Status
use openmcapi_deprecated.Wire.{Buffer, get16, get32, put16, put32}
use openmcapi_deprecated.Handle.{encode_endpoint, decode_endpoint}
use openmcapi_deprecated.Nodes.{check_resume, req_created}
use openmcapi_deprecated.Nodes.Api.{find_local_endpoint, endpoint_at}
use openmcapi_deprecated.Requests.{
  Request, blank_request, get_free_request_struct, release_request_struct,
}
use openmcapi_deprecated.Messages.{Driver}
use openmcapi_deprecated.Control.{Store, prot_type, ctrl_send}

abbrev pub getendp_response : ℕ
getendp_response = 2

abbrev pub cancel_msg : ℕ
cancel_msg = 7

abbrev pub getendp_port : ℕ
getendp_port = 2

abbrev pub getendp_endp : ℕ
getendp_endp = 4

abbrev pub getendp_status : ℕ
getendp_status = 8

abbrev pub get_endp_len : ℕ
get_endp_len = 12

-- A request of another node for an endpoint of this one.
abbrev pub is_pending_for : ℕ → ℕ → ℕ → Request → Bool
is_pending_for here port node r =
    (r.type == req_created)
    && (r.target_node_id == here)
    && (r.target_port_id == port)
    && (r.requesting_node_id == node)

-- The first entry of a queue with a property.
unfoldable pub first_such : (Request → Bool) → List Request → List ℕ → Option ℕ
first_such f pool [] = none
first_such f pool (i ∷ is) =
    let rest = first_such f pool is in if f (get_or pool i blank_request) then some i else rest

-- `mcapi_remove` of an entry of a queue.
unfoldable pub without_entry : ℕ → List ℕ → List ℕ
without_entry i [] = []
without_entry i (k ∷ ks) = let rest = without_entry i ks in if k == i then ks else k ∷ rest

module _ {D : Type 0} (driver : Driver D) (max_endpoints here ctrl_tx : ℕ) where
  -- The answer to a request for an endpoint, with the status and the handle.
  unfoldable pub answer_getendp : Store D → Buffer → ℕ → ℕ → Store D
  answer_getendp s buffer status handle =
      let b₁ = put16 buffer prot_type getendp_response in
      let b₂ = put32 b₁ getendp_status status in
      (ctrl_send driver max_endpoints here ctrl_tx s (get32 buffer getendp_endp)
        (put32 b₂ getendp_endp handle) get_endp_len).1

  -- The part of the case MCAPI_GETENDP_REQUEST for an endpoint that does not exist.
  unfoldable pub reserve : Store D → Buffer → ℕ → ℕ → Store D
  reserve s buffer node port = elim (get_free_request_struct s.pool) [
    | none ↦ answer_getendp s buffer Status.err_request_limit (encode_endpoint here port)
    | some (i, pool) ↦ record s {
      pool = set pool i (record (get_or pool i blank_request) {
        type = req_created;
        target_port_id = get16 buffer getendp_port;
        target_node_id = here;
        requesting_node_id = node;
        requesting_port_id = port;
        status = Status.pending;
        pending_count = 1;
      });
      foreign = s.foreign ++ (i ∷ []);
    }
  ]

  -- The request with one more task that waits, and with one less; the count is 32 bits wide.
  abbrev pub count_up : List Request → ℕ → List Request
  count_up pool i =
      let r = get_or pool i blank_request in
      set pool i (record r { pending_count = (r.pending_count + 1) % 2 ^ 32 })

  abbrev pub count_down : List Request → ℕ → List Request
  count_down pool i =
      let r = get_or pool i blank_request in
      set pool i (record r { pending_count = (r.pending_count + (2 ^ 32 - 1)) % 2 ^ 32 })

  -- The case MCAPI_GETENDP_REQUEST.
  unfoldable pub on_getendp_request : Store D → Buffer → Store D
  on_getendp_request s buffer =
      let port = get16 buffer getendp_port in
      elim (find_local_endpoint max_endpoints s.nodes here port) [
        | some place ↦
            let endp = endpoint_at s.nodes place in
            answer_getendp s buffer Status.success (encode_endpoint endp.node_id endp.port_id)
        | none ↦
            let (node, from) = decode_endpoint (get32 buffer getendp_endp) in
            elim (first_such (is_pending_for here port node) s.pool s.foreign) [
              | some i ↦ record s { pool = count_up s.pool i }
              | none ↦ reserve s buffer node from
            ]
      ]

  -- The case MCAPI_GETENDP_RESPONSE.
  unfoldable pub on_getendp_response : Store D → Buffer → Store D
  on_getendp_response s buffer = record s {
    calls =
        s.calls
        ++ (check_resume req_created (get32 buffer getendp_endp) 0 (get32 buffer getendp_status)
            ∷ []);
  }

  -- The case MCAPI_CANCEL_MSG.
  unfoldable pub on_cancel : Store D → Buffer → Store D
  on_cancel s buffer =
      let node = (decode_endpoint (get32 buffer getendp_endp)).0 in
      let port = get16 buffer getendp_port in
      elim (first_such (is_pending_for here port node) s.pool s.foreign) [
        | none ↦ s
        | some i ↦
            let pool = count_down s.pool i in
            let left =
              if (get_or pool i blank_request).pending_count == 0
              then without_entry i s.foreign
              else s.foreign in
            record s { pool = pool; foreign = left }
      ]

  -- `mcapi_tx_response`, from a buffer that holds anything.
  unfoldable pub tx_response : Store D → Buffer → Request → Store D
  tx_response s buffer r =
      let b₁ =
        if r.status == Status.err_request_cancelled
        then put16 buffer prot_type cancel_msg
        else put32 (put16 buffer prot_type getendp_response) getendp_status r.status in
      let b₂ = put16 b₁ getendp_port r.target_port_id in
      (ctrl_send driver max_endpoints here ctrl_tx s
        (encode_endpoint r.requesting_node_id r.requesting_port_id)
        (put32 b₂ getendp_endp (encode_endpoint here r.target_port_id)) get_endp_len).1

  -- The body of the loop of `mcapi_check_foreign_resume` for an entry that waits for the endpoint.
  unfoldable pub resume_foreign : Store D → Buffer → ℕ → Store D
  unfolding tx_response without_entry
  resume_foreign s buffer i =
      let r = record (get_or s.pool i blank_request) { status = Status.success } in
      let s₁ = record s { foreign = without_entry i s.foreign; pool = set s.pool i r } in
      let s₂ = tx_response s₁ buffer r in record s₂ { pool = release_request_struct i s₂.pool }

  -- The loop, on the entries that are left.
  unfoldable pub foreign_from : ℕ → Buffer → List ℕ → Store D → Store D
  unfolding resume_foreign
  foreign_from endpoint buffer [] s = s
  foreign_from endpoint buffer (i ∷ is) s =
      let r = get_or s.pool i blank_request in
      elim ((r.type == req_created)
        && (encode_endpoint r.target_node_id r.target_port_id == endpoint)) [
          | true ↦ foreign_from endpoint buffer is (resume_foreign s buffer i)
          | false ↦ foreign_from endpoint buffer is s
        ]

  -- `mcapi_check_foreign_resume`
  unfoldable pub check_foreign_resume : ℕ → ℕ → Buffer → Store D → Store D
  unfolding foreign_from
  check_foreign_resume kind endpoint buffer s =
      if kind == req_created then foreign_from endpoint buffer s.foreign s else s
