-- ===== src/Channels/Tests.antt =====
-- The theorems on `mcapi_close` (libmcapi/mcapi/connect.c) at a connected send side.
use openmcapi_deprecated.Base.{ℕ, ◌≡◌, ◌≢◌, ◌⊎◌, true, none, arith}
use openmcapi_deprecated.Status
use openmcapi_deprecated.Endpoints.{Endpoint, blank, endp_tx, endp_rx}
use openmcapi_deprecated.Channels.{mcapi_close, close_side, finish_close, close_refused}
use openmcapi_deprecated.Channels.Closing.{Detached, mcapi_close-Detached, mcapi_close-mcapi_close}

-- Open, connecting and sending packets.
abbrev sender : Endpoint
sender = record blank {
  node_id = 1;
  port_id = 5;
  state = 0x16;
  chan_type = 1;
  endp_handle = 0x10005;
}

abbrev sent_fin : Endpoint → ℕ
sent_fin e = 1

mcapi_close-Detached_example :
    (Detached sender (mcapi_close sent_fin 1 sender 1 true endp_tx).endp
      × ((mcapi_close sent_fin 1 sender 1 true endp_tx).request ≢ none))
    ⊎ ((status : ℕ) × (status ≢ Status.success)
        × (mcapi_close sent_fin 1 sender 1 true endp_tx ≡ close_refused status sender))
mcapi_close-Detached_example = mcapi_close-Detached sent_fin 1 sender 1 endp_tx true

done : (mcapi_close sent_fin 1 sender 1 true endp_tx).request ≢ none
unfolding mcapi_close close_side finish_close
done e = cc

mcapi_close-mcapi_close_example :
    mcapi_close sent_fin 1 (mcapi_close sent_fin 1 sender 1 true endp_tx).endp 1 true endp_rx
    ≡ close_refused Status.err_chan_type (mcapi_close sent_fin 1 sender 1 true endp_tx).endp
mcapi_close-mcapi_close_example =
    mcapi_close-mcapi_close sent_fin 1 sender 1 endp_tx endp_rx (omega arith) done
