-- ===== src/Control/Safety.antt =====
-- A control message, whatever it holds, keeps the states of all endpoints in order
-- (`mcapi_process_ctrl_msg` of libmcapi/mcapi/cntrl_msg.c).
use openmcapi_deprecated.Base.{ℕ, List, [], ◌∷◌}
use openmcapi_deprecated.Wire.{Buffer, get16}
use openmcapi_deprecated.Nodes.States.{state_at}
use openmcapi_deprecated.Messages.{Driver}
use openmcapi_deprecated.Control.{Store, prot_type}
use openmcapi_deprecated.Control.Process.{
  Message, get_endpoint, got_endpoint, cancel, connect, syn, ack, opens_tx, opens_rx, acks_rx,
  acks_tx, connected, fin, other, message_of, handle, process,
}
use openmcapi_deprecated.Control.Opened.{on_connect_response}
use openmcapi_deprecated.Control.Lookup.{on_getendp_response}
use openmcapi_deprecated.Control.Steps.{IsSafe, Reach-IsSafe}
use openmcapi_deprecated.Control.Updates.{Moves, Moves-refl, Moves-trans}
use openmcapi_deprecated.Control.Connected.{
  on_connect_request-Moves, on_connect_syn-Moves, on_connect_ack-Moves,
}
use openmcapi_deprecated.Control.Sides.{
  on_open_tx-Moves, on_open_rx-Moves, on_open_rx_ack-Moves, on_open_tx_ack-Moves,
  on_connect_fin-Moves, on_getendp_request-Moves, on_cancel-Moves,
}

module _ {D : Type 0} (driver : Driver D) (n here ctrl_tx : ℕ) where
  handle-Moves :
      (m : Message) (s : Store D) (buffer : Buffer)
      → Moves s.nodes (handle driver n here ctrl_tx m s buffer).nodes
  unfolding handle on_getendp_response on_connect_response
  handle-Moves get_endpoint s buffer = on_getendp_request-Moves driver n here ctrl_tx s buffer
  handle-Moves got_endpoint s buffer = Moves-refl s.nodes
  handle-Moves cancel s buffer = on_cancel-Moves driver n here ctrl_tx s buffer
  handle-Moves connect s buffer = on_connect_request-Moves driver n here ctrl_tx s buffer
  handle-Moves syn s buffer = on_connect_syn-Moves driver n here ctrl_tx s buffer
  handle-Moves ack s buffer = on_connect_ack-Moves driver n here ctrl_tx s buffer
  handle-Moves opens_tx s buffer = on_open_tx-Moves driver n here ctrl_tx s buffer
  handle-Moves opens_rx s buffer = on_open_rx-Moves driver n here ctrl_tx s buffer
  handle-Moves acks_rx s buffer = on_open_rx_ack-Moves driver n here ctrl_tx s buffer
  handle-Moves acks_tx s buffer = on_open_tx_ack-Moves driver n here ctrl_tx s buffer
  handle-Moves connected s buffer = Moves-refl s.nodes
  handle-Moves fin s buffer = on_connect_fin-Moves driver n here ctrl_tx s buffer
  handle-Moves other s buffer = Moves-refl s.nodes

  -- Messages one after the other.
  unfoldable pub process_all : Store D → List Buffer → Store D
  process_all s [] = s
  process_all s (b ∷ bs) = process_all (process driver n here ctrl_tx s b) bs

  -- Whatever control messages arrive, in whatever order, every endpoint's state goes only through the
  -- allowed changes.
  pub process_all-Moves : (s : Store D) (bs : List Buffer) → Moves s.nodes (process_all s bs).nodes
  unfolding process_all process
  process_all-Moves s [] = Moves-refl s.nodes
  process_all-Moves s (b ∷ bs) =
      let s' = process driver n here ctrl_tx s b in
      Moves-trans s.nodes s'.nodes _ (handle-Moves (message_of (get16 b prot_type)) s b)
        (process_all-Moves s' bs)

  -- Whatever control messages arrive, in whatever order, an endpoint that is open stays open, never sends
  -- and receives at once, and is connected only when both sides have acknowledged.
  pub process_all-IsSafe :
      (s : Store D) (bs : List Buffer) (q : ℕ × ℕ)
      → IsSafe (state_at s.nodes q)
      → IsSafe (state_at (process_all s bs).nodes q)
  unfolding Moves
  process_all-IsSafe s bs q safe =
      Reach-IsSafe (state_at s.nodes q) (state_at (process_all s bs).nodes q)
        (process_all-Moves s bs q) safe
