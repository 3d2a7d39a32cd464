-- ===== src/Lib.antt =====
-- Models of OpenMCAPI, an implementation of the Multicore Communications API: nodes own endpoints, and
-- endpoints exchange messages through buffers and queues that all nodes of a system share.
--
-- The parts of the program, and the file that models each:
-- - libmcapi/mcapi/mcapi_tls.c: big-endian fields of packets, in Wire. A buffer is the list of its bytes.
-- - libmcapi/mcapi/handle.c and mcapi_encode_endpoint, mcapi_decode_endpoint of endpoint.c: handles, in
--   Handle.
-- - libmcapi/mcapi/queue.c: linked queues, in Queue. The heap maps an address to the two links that stand
--   there; a read through a null or dangling pointer is a fault, `none`. Queue/Chain says what list of
--   entries a queue stands for.
-- - mcapi_find_endpoint of endpoint.c and the probe loops of create_endpoint.c: the endpoint table, in
--   Endpoints. The table is the list of the slots; the index -1 is `none`.
-- - node.c, route.c, create_endpoint.c, mcapi_create_endp.c, mcapi_delete_endp.c, and the lookup of
--   local endpoints of endpoint.c: nodes and the life of endpoints, in Nodes. What they ask of other
--   parts (waking requests, sending a FIN, giving buffers back) is in their result, as the calls in
--   their order.
-- - libmcapi/shm/shm.c: the shared-memory driver, in Shm: the mask of the buffers in use, the rings
--   of packet descriptors, the routes, and (Shm/Driver) transmission, reception, initialization and
--   finalization. Each operation is one step here; Shm says which take a lock. The operating system layer of the
--   driver is in the parameters.
-- - libmcapi/mcapi/request.c and mcapi_find_request of suspend.c: request structures, in Requests.
-- - mcapi_check_resume and mcapi_resume of suspend.c: waking suspended requests, in Suspend. A pending
--   request is its structure with its address; what is written through the application's pointers is in the
--   result.
-- - msg_snd.c, msg_rcv.c, forward.c, and mcapi_rx_data of cntrl_msg.c: messages, in Messages, with the layout
--   of packets in Packet. The interface that a route leads to (MCAPI_INTERFACE) is a record of functions over
--   a state of the hardware, a parameter; buffers on queues are their addresses, and a function gives their
--   bytes. What `msg_send` leaves says whether its `memcpy` has overrun memory: the program then does what no
--   model says, and the rest of the result means nothing. A size_t has 32 bits.
-- - cntrl_msg.c, mcapi_check_foreign_resume of create_endpoint.c, and mcapi_connect, mcapi_open and
--   mcapi_tx_open of connect.c: the control messages between nodes and the handshake of a channel, in
--   Control. The handler is a function on the store (nodes, hardware, requests of other nodes) that sends
--   with the modelled msg_send; Control/Steps has the changes of an endpoint's state as a relation.
-- - mcapi_close and mcapi_tx_fin_msg of libmcapi/mcapi/connect.c: closing a side of a channel, in Channels.
--   What sending a message returns is a parameter.
-- - mcapi_init.c and mcapi_init_node_data of node_data.c: initialization, in Init. The interfaces, their start
--   and that of the operating system are parameters.
-- - mcapi_test.c and mcapi_cancel.c: testing and cancelling requests, in Completion. The pending requests are a
--   list; the pointers that are written through are in the result.
-- Status has the status codes of include/mcapi.h. Base has what the parts share.
--
-- Numbers are natural numbers; where the code's type can wrap, `% 2 ^ w` is written out, and a signed
-- shift copies the sign bit. MCAPI_MAX_ENDPOINTS is a parameter, positive and smaller than 2 ^ 16 (or
-- 2 ^ 32) where that matters.
--
-- Fuel: the search of `remove` takes fuel, and one more than the entries of the queue is enough. The
-- search for an unused port takes fuel, and one more than the slots of the table is enough.
-- `shm_poll` takes fuel, and one more than the descriptors of the ring is enough. `mcapi_cancel` takes fuel,
-- and one more than the pending requests is enough; `mcapi_initialize` passes fuel on to the search for a port.
--
-- Not modelled: waiting for requests, remote endpoint lookup by the application,
-- packets, scalars and attributes, finalization of the library, and the public wrappers, which the calls
-- above stand for where the modelled parts use them; the locks, threads and memory mappings of the operating
-- system; the kernel module; tests and demos.
pub mod Base
pub mod Status
pub mod Wire
pub mod Handle
pub mod Queue
pub mod Endpoints
pub mod Nodes
pub mod Shm
pub mod Requests
pub mod Channels
pub mod Packet
pub mod Suspend
pub mod Messages
pub mod Control
pub mod Completion
pub mod Init
