-- ===== src/Status.antt =====
-- The values of `mcapi_status_t`, an unsigned int: `enum mcapi_status_codes` of include/mcapi.h and
-- the extra code of include/mcapi_impl_spec.h.
use openmcapi_deprecated.Base.{ℕ}

abbrev pub success : ℕ
success = 1

abbrev pub pending : ℕ
pending = 2

abbrev pub err_parameter : ℕ
err_parameter = 4

abbrev pub err_node_invalid : ℕ
err_node_invalid = 6

abbrev pub err_node_initfailed : ℕ
err_node_initfailed = 7

abbrev pub err_node_initialized : ℕ
err_node_initialized = 8

abbrev pub err_node_notinit : ℕ
err_node_notinit = 9

abbrev pub err_port_invalid : ℕ
err_port_invalid = 11

abbrev pub err_endp_invalid : ℕ
err_endp_invalid = 12

abbrev pub err_endp_exists : ℕ
err_endp_exists = 13

abbrev pub err_endp_notowner : ℕ
err_endp_notowner = 16

abbrev pub err_msg_size : ℕ
err_msg_size = 24

abbrev pub err_msg_truncated : ℕ
err_msg_truncated = 25

abbrev pub err_chan_open : ℕ
err_chan_open = 26

abbrev pub err_chan_type : ℕ
err_chan_type = 27

abbrev pub err_chan_direction : ℕ
err_chan_direction = 28

abbrev pub err_chan_connected : ℕ
err_chan_connected = 29

abbrev pub err_chan_notopen : ℕ
err_chan_notopen = 32

abbrev pub err_transmission : ℕ
err_transmission = 35

abbrev pub err_priority : ℕ
err_priority = 36

abbrev pub err_request_invalid : ℕ
err_request_invalid = 39

abbrev pub err_request_limit : ℕ
err_request_limit = 40

abbrev pub err_request_cancelled : ℕ
err_request_cancelled = 41

abbrev pub err_general : ℕ
err_general = 43

abbrev pub err_not_connected : ℕ
err_not_connected = 45
