-- ===== src/Control/Process.antt =====
-- The choice of the case in `mcapi_process_ctrl_msg` (libmcapi/mcapi/cntrl_msg.c), for one message that was
-- received; the loop and the reception around it are not modelled.
use openmcapi_deprecated.Base.{ℕ, ◌==◌, if◌then◌else◌}
use openmcapi_deprecated.Wire.{Buffer, get16}
use openmcapi_deprecated.Channels.{connect_fin}
use openmcapi_deprecated.Messages.{Driver}
use openmcapi_deprecated.Control.{Store, prot_type, connect_response, connect_syn}
use openmcapi_deprecated.Control.Connecting.{
  connect_ack, open_tx, open_rx, on_connect_request, on_connect_syn, on_connect_ack,
}
use openmcapi_deprecated.Control.Opened.{
  open_tx_ack, open_rx_ack, on_open_tx, on_open_rx, on_open_tx_ack, on_open_rx_ack,
  on_connect_response, on_connect_fin,
}
use openmcapi_deprecated.Control.Lookup.{
  getendp_response, cancel_msg, on_getendp_request, on_getendp_response, on_cancel,
}

abbrev pub getendp_request : ℕ
getendp_request = 1

abbrev pub connect_request : ℕ
connect_request = 3

-- The messages by their type.
pub data Message : Type 0 where
  get_endpoint : Message
  got_endpoint : Message
  cancel : Message
  connect : Message
  syn : Message
  ack : Message
  opens_tx : Message
  opens_rx : Message
  acks_rx : Message
  acks_tx : Message
  connected : Message
  fin : Message
  other : Message

-- The `switch` on the type field.
unfoldable pub message_of : ℕ → Message
message_of t =
    if t == getendp_request
    then get_endpoint
    else (if t == getendp_response
        then got_endpoint
        else (if t == cancel_msg
            then cancel
            else (if t == connect_request
                then connect
                else (if t == connect_syn
                    then syn
                    else (if t == connect_ack
                        then ack
                        else (if t == open_tx
                            then opens_tx
                            else (if t == open_rx
                                then opens_rx
                                else (if t == open_rx_ack
                                    then acks_rx
                                    else (if t == open_tx_ack
                                        then acks_tx
                                        else (if t == connect_response
                                            then connected
                                            else (if t == connect_fin then fin else other)))))))))))

module _ {D : Type 0} (driver : Driver D) (max_endpoints here ctrl_tx : ℕ) where
  -- The case of a message.
  unfoldable pub handle : Message → Store D → Buffer → Store D
  handle get_endpoint s buffer = on_getendp_request driver max_endpoints here ctrl_tx s buffer
  handle got_endpoint s buffer = on_getendp_response driver max_endpoints here ctrl_tx s buffer
  handle cancel s buffer = on_cancel driver max_endpoints here ctrl_tx s buffer
  handle connect s buffer = on_connect_request driver max_endpoints here ctrl_tx s buffer
  handle syn s buffer = on_connect_syn driver max_endpoints here ctrl_tx s buffer
  handle ack s buffer = on_connect_ack driver max_endpoints here ctrl_tx s buffer
  handle opens_tx s buffer = on_open_tx driver max_endpoints here ctrl_tx s buffer
  handle opens_rx s buffer = on_open_rx driver max_endpoints here ctrl_tx s buffer
  handle acks_rx s buffer = on_open_rx_ack driver max_endpoints here ctrl_tx s buffer
  handle acks_tx s buffer = on_open_tx_ack driver max_endpoints here ctrl_tx s buffer
  handle connected s buffer = on_connect_response driver max_endpoints here ctrl_tx s buffer
  handle fin s buffer = on_connect_fin driver max_endpoints here ctrl_tx s buffer
  handle other s buffer = s

  -- A control message, by its type field.
  unfoldable pub process : Store D → Buffer → Store D
  process s buffer = handle (message_of (get16 buffer prot_type)) s buffer
