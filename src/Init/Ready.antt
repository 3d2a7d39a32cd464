-- ===== src/Init/Ready.antt =====
-- What `mcapi_initialize` (libmcapi/mcapi/mcapi_init.c) leaves when the operating system and the interfaces come up.
use mathlib.Core.Path.{subst}
use openmcapi_deprecated.Base.{
  ℕ, zero, suc, ◌+◌, ◌^◌, ◌<◌, ◌≤◌, ◌≡◌, ◌≢◌, refl, sym, ap, ◌∙◌, inl, inr, true, false, some, none,
  List, [], ◌∷◌, arith, length, map, get_or, Option-cases, replicate,
}
use openmcapi_deprecated.Status
use openmcapi_deprecated.Handle.{encode_endpoint}
use openmcapi_deprecated.Endpoints.{Table, slot, endp_closed, find_endpoint}
use openmcapi_deprecated.Endpoints.Insert.{closed_not-Live}
use openmcapi_deprecated.Endpoints.Lookup.{find_endpoint-Live}
use openmcapi_deprecated.Nodes.{
  Node, Route, Created, blank_node, find_node, find_node_from, create_endpoint, place, port_any,
}
use openmcapi_deprecated.Nodes.Valid.{IsValid, count_used}
use openmcapi_deprecated.Nodes.Create.{create-named, create_endpoint-any_port}
use openmcapi_deprecated.Nodes.Place.{Opened, place-Opened, place-next_port}
use openmcapi_deprecated.Channels.{rx_control_port}
use openmcapi_deprecated.Requests.{blank_request}
use openmcapi_deprecated.Init.{
  Library, endp_port_init, closed_entry, unused_node, prepare_node, find_unused, add_routes,
  add_ctrl_tx, set_up, mcapi_initialize,
}

length-closed : (t : Table) → length (map closed_entry t) ≡ length t
length-closed [] = refl
length-closed (e ∷ t) = ap suc (length-closed t)

slot-closed : (t : Table) (i : ℕ) → i < length t → (slot (map closed_entry t) i).state ≡ endp_closed
slot-closed [] i h = absurd (omega arith)
slot-closed (e ∷ t) zero h = refl
slot-closed (e ∷ t) (suc i) h = slot-closed t i (omega arith)

count_used-closed_entry : (t : Table) → count_used (map closed_entry t) ≡ 0
unfolding count_used
count_used-closed_entry [] = refl
count_used-closed_entry (e ∷ t) = omega (arith, count_used-closed_entry t)

find_node-unused : (id i : ℕ) (ns : List Node) → find_node_from id i (map unused_node ns) ≡ none
unfolding find_node_from
find_node-unused id i [] = refl
find_node-unused id i (n ∷ ns) = find_node-unused id (i + 1) ns

module _ (n : ℕ) (pos_n : 0 < n) (node_id : ℕ) (node : Node)
    (sized : length node.endpoint_list ≡ n) where
  -- The table in which every endpoint is closed is valid.
  prepare_node-IsValid : IsValid n (prepare_node node_id node)
  unfolding prepare_node
  prepare_node-IsValid =
      let closed : (i : ℕ)
          → i < n
          → (slot (map closed_entry node.endpoint_list) i).state ≡ endp_closed =
        λ i h. slot-closed node.endpoint_list i (omega (arith, sized)) in
      record {
        sized = length-closed node.endpoint_list ∙ sized;
        settled = λ i h. inl (closed i h);
        clean = λ p d e lt l before.
            absurd
              (closed_not-Live n (map closed_entry node.endpoint_list) p _ (closed _ l.in_range) l);
        counted = sym (count_used-closed_entry node.endpoint_list);
      }

  prepared_count : (prepare_node node_id node).endpoint_count ≡ 0
  unfolding prepare_node
  prepared_count = refl

  prepared_id : (prepare_node node_id node).node_id ≡ node_id
  unfolding prepare_node
  prepared_id = refl

  prepared_empty : (p : ℕ) → find_endpoint n p (prepare_node node_id node).endpoint_list ≡ none
  unfolding prepare_node
  prepared_empty p = elim (Option-cases (find_endpoint n p (map closed_entry node.endpoint_list))) [
    | inl e ↦ e
    | inr (k, e) ↦
        let l = find_endpoint-Live n pos_n (map closed_entry node.endpoint_list) p k e in
        absurd (
          closed_not-Live n (map closed_entry node.endpoint_list) p k
            (slot-closed node.endpoint_list k (omega (arith, sized, l.in_range))) l)
  ]

-- A node that is ready: both control endpoints are there, at different ports, and nothing else is.
pub record IsReady (n node_id : ℕ) (l : Library) : Type 0 where
  pub initialized : l.initialized ≡ true
  pub here : l.here ≡ node_id
  pub valid : IsValid n (get_or l.nodes 0 blank_node)
  pub rx_slot : ℕ
  pub tx_slot : ℕ
  pub tx_port : ℕ
  pub rx_found :
      find_endpoint n rx_control_port (get_or l.nodes 0 blank_node).endpoint_list ≡ some rx_slot
  pub tx_found : find_endpoint n tx_port (get_or l.nodes 0 blank_node).endpoint_list ≡ some tx_slot
  pub apart : rx_control_port ≢ tx_port
  pub two : (get_or l.nodes 0 blank_node).endpoint_count ≡ 2
  pub rx_handle : l.ctrl_rx ≡ encode_endpoint node_id rx_control_port
  pub tx_handle : l.ctrl_tx ≡ encode_endpoint node_id tx_port
  pub unused : l.pool ≡ map (λ r. blank_request) l.pool

-- The invariant does not read the routes.
IsValid-routes :
    (n : ℕ) (node : Node) (rs : List Route)
    → IsValid n node
    → IsValid n (record node { route_list = rs })
IsValid-routes n node rs v = record {
  sized = v.sized;
  settled = v.settled;
  clean = v.clean;
  counted = v.counted;
}

blank_pool :
    (k : ℕ) → replicate k blank_request ≡ map (λ r. blank_request) (replicate k blank_request)
blank_pool zero = refl
blank_pool (suc k) = ap (λ rs. blank_request ∷ rs) (blank_pool k)

module _ (n : ℕ) (pos_n : 0 < n) (small : n < 2 ^ 16) (node : Node) (v : IsValid n node)
    (empty : (p : ℕ) → find_endpoint n p node.endpoint_list ≡ none)
    (none_used : node.endpoint_count ≡ 0) (two : 2 ≤ n) where
  -- The two control endpoints are created one after the other.
  record Controls : Type 0 where
    rx : Created
    tx : Created
    port : ℕ
    first : create_endpoint n (suc n) node endp_port_init rx_control_port ≡ some rx
    second : create_endpoint n (suc n) rx.node rx.next_port port_any ≡ some tx
    opened : Opened n node rx.node rx_control_port
    opened' : Opened n rx.node tx.node port
    missing : find_endpoint n port rx.node.endpoint_list ≡ none
    handle : rx.endpoint ≡ encode_endpoint node.node_id rx_control_port
    handle' : tx.endpoint ≡ encode_endpoint rx.node.node_id port

  controls : Controls
  controls =
      let rx = place n node rx_control_port endp_port_init in
      let (s, h, o) =
        place-Opened n pos_n (omega arith) node rx_control_port v (empty rx_control_port)
          endp_port_init (omega (arith, none_used)) in
      let start = place-next_port n node rx_control_port endp_port_init in
      let (p, tx, run, bits, missing, s', h', o') =
        create_endpoint-any_port n pos_n small rx.node rx.next_port o.valid (omega (arith, start))
          (omega (arith, o.count, none_used)) in
      record {
        rx = rx;
        tx = tx;
        port = p;
        first =
            create-named n (suc n) node endp_port_init rx_control_port (omega (arith, none_used))
              (omega arith) (empty rx_control_port);
        second = run;
        opened = o;
        opened' = o';
        missing = missing;
        handle = h;
        handle' = h';
      }

-- The library that `set_up` leaves, after the control endpoints were created.
abbrev ready : List Route → Library → ℕ → List Node → Created → Created → Library
ready routes l node_id nodes rx tx = record l {
  initialized = true;
  nodes = record (tx.node) { route_list = add_routes tx.node.route_list routes } ∷ nodes;
  node_count = 1;
  here = node_id;
  next_port = tx.next_port;
  ctrl_rx = rx.endpoint;
  ctrl_tx = tx.endpoint;
}

module _ (n : ℕ) (routes : List Route) (interfaces : ℕ → ℕ) (total node_id : ℕ) where
  set_up-run :
      (l : Library) (node : Node) (nodes : List Node) (rx tx : Created)
      → create_endpoint n (suc n) (prepare_node node_id node) endp_port_init rx_control_port
        ≡ some rx
      → create_endpoint n (suc n) rx.node rx.next_port port_any ≡ some tx
      → interfaces node_id ≡ Status.success
      → set_up n total
          (suc n)
          Status.success
          interfaces
          routes
          (record l { nodes = node ∷ nodes; node_count = 0 })
          0
          node_id
        ≡ some (Status.success, ready routes l node_id nodes rx tx)
  unfolding set_up add_ctrl_tx
  set_up-run l node nodes rx tx first second up = rw (set_up, first, second, up) refl

  -- Of a library that is not initialized yet, whose first node has at least 2 and fewer than 2 ^ 16 endpoint slots,
  -- when the operating system and the interfaces come up: with fuel for one round more than there are slots,
  -- `mcapi_initialize` returns success and leaves a valid node that has two endpoints at different ports, one of
  -- them the control port, with the handles of both, and all request structures unused.
  pub mcapi_initialize-IsReady :
      (l : Library) (node : Node) (nodes : List Node)
      → length node.endpoint_list ≡ n
      → 2 ≤ n
      → n < 2 ^ 16
      → interfaces node_id ≡ Status.success
      → (l' : Library) × (mcapi_initialize n total
            (suc n)
            Status.success
            interfaces
            routes
            (record l { initialized = false; nodes = node ∷ nodes })
            node_id
            true
          ≡ some (Status.success, l'))
        × IsReady n node_id l'
  unfolding mcapi_initialize find_unused find_node
  mcapi_initialize-IsReady l node nodes sized two small up =
      let pos_n : 0 < n = omega arith in
      let v = prepare_node-IsValid n pos_n node_id (unused_node node) sized in
      let free = prepared_empty n pos_n node_id (unused_node node) sized in
      let zero_used = prepared_count n pos_n node_id (unused_node node) sized in
      let id = prepared_id n pos_n node_id (unused_node node) sized in
      let c =
        controls n pos_n small (prepare_node node_id (unused_node node)) v free zero_used two in
      let found : find_node node_id (map unused_node (node ∷ nodes)) ≡ none =
        find_node-unused node_id 0 (node ∷ nodes) in
      let apart : rx_control_port ≢ c.port = λ e.
        let m = subst (λ q. find_endpoint n q c.rx.node.endpoint_list ≡ none) (sym e) c.missing in
        let f = c.opened.found in cc in
      let base : Library = record l {
        initialized = false;
        pool = replicate total blank_request;
        local = [];
        foreign = [];
        rx_queues = map (λ q. []) l.rx_queues;
        wait_list = [];
      } in
      (
        ready routes base node_id (map unused_node nodes) c.rx c.tx,
        rw (mcapi_initialize, found)
            (set_up-run base (unused_node node) (map unused_node nodes) c.rx c.tx c.first c.second
              up),
        record {
          initialized = refl;
          here = refl;
          valid =
              IsValid-routes n c.tx.node (add_routes c.tx.node.route_list routes) c.opened'.valid;
          rx_slot = c.opened.at;
          tx_slot = c.opened'.at;
          tx_port = c.port;
          rx_found = c.opened'.others rx_control_port (λ e. apart (sym e)) ∙ c.opened.found;
          tx_found = c.opened'.found;
          apart = apart;
          two = omega (arith, c.opened'.count, c.opened.count, zero_used);
          rx_handle = c.handle ∙ ap (λ i. encode_endpoint i rx_control_port) id;
          tx_handle = c.handle' ∙ ap (λ i. encode_endpoint i c.port) (c.opened.same_id ∙ id);
          unused = blank_pool total;
        },
      )
