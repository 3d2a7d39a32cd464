-- ===== src/Channels/Closing.antt =====
-- The outcomes of `mcapi_close` (libmcapi/mcapi/connect.c).
use openmcapi_deprecated.Base.{
  ℕ, ◌≡◌, ◌≢◌, refl, sym, ap, ◌∙◌, ◌⊎◌, inl, inr, Bool, true, false, none, List, [], arith,
  Bool-cases, eq→==, ne→==,
}
use mathlib.Core.Path.{subst}
use native.Mathlib.Decide.{ℕ_discrete}
use openmcapi_deprecated.Status
use openmcapi_deprecated.Endpoints.{
  Endpoint, endp_open, endp_connecting, endp_tx, endp_rx, has_flag,
}
use openmcapi_deprecated.Nodes.{Call}
use openmcapi_deprecated.Channels.{
  tx_close_calls, rx_close_calls, close_side, finish_close, close_refused, mcapi_close,
}

-- The endpoint is open on its port, without a channel.
pub record Detached (before after : Endpoint) : Type 0 where
  pub is_open : has_flag after.state endp_open ≡ true
  pub no_tx : has_flag after.state endp_tx ≡ false
  pub no_rx : has_flag after.state endp_rx ≡ false
  pub not_connecting : has_flag after.state endp_connecting ≡ false
  pub no_type : after.chan_type ≡ 0
  pub same_port : after.port_id ≡ before.port_id
  pub same_handle : after.endp_handle ≡ before.endp_handle

-- What the checks of one side can give.
data Checked (endp : Endpoint) (flag : ℕ) : Type 0 where
  accepted :
      (after : Endpoint) (calls : List Call)
      → close_side endp flag ≡ (Status.success, after, calls)
      → after.port_id ≡ endp.port_id
      → after.endp_handle ≡ endp.endp_handle
      → Checked endp flag
  refused :
      (status : ℕ)
      → status ≢ Status.success
      → close_side endp flag ≡ (status, endp, [])
      → Checked endp flag

close_side-Checked : (endp : Endpoint) (flag : ℕ) → Checked endp flag
unfolding close_side
close_side-Checked endp flag = elim (ℕ_discrete flag endp_tx) [
  | yes f ↦ elim (Bool-cases (has_flag endp.state endp_tx)) [
    | inl tx ↦
        accepted endp (tx_close_calls endp) (rw (close_side, eq→== flag endp_tx f, tx) refl) refl
          refl
    | inr tx ↦ elim (Bool-cases (has_flag endp.state endp_rx)) [
      | inl rx ↦
          refused Status.err_chan_direction (omega arith)
            (rw (close_side, eq→== flag endp_tx f, tx, rx) refl)
      | inr rx ↦
          refused Status.err_chan_notopen (omega arith)
            (rw (close_side, eq→== flag endp_tx f, tx, rx) refl)
    ]
  ]
  | no f ↦ elim (Bool-cases (has_flag endp.state endp_rx)) [
    | inl rx ↦
        accepted (record endp { rx_queue = [] }) (rx_close_calls endp)
          (rw (close_side, ne→== flag endp_tx f, rx) refl) refl refl
    | inr rx ↦ elim (Bool-cases (has_flag endp.state endp_tx)) [
      | inl tx ↦
          refused Status.err_chan_direction (omega arith)
            (rw (close_side, ne→== flag endp_tx f, rx, tx) refl)
      | inr tx ↦
          refused Status.err_chan_notopen (omega arith)
            (rw (close_side, ne→== flag endp_tx f, rx, tx) refl)
    ]
  ]
]

module _ (fin : Endpoint → ℕ) (here : ℕ) (endp : Endpoint) (type flag : ℕ) where
  close-accepted :
      (after : Endpoint) (calls : List Call)
      → endp.chan_type ≡ type
      → close_side endp flag ≡ (Status.success, after, calls)
      → mcapi_close fin here endp type true flag ≡ finish_close fin here after calls
  unfolding mcapi_close
  close-accepted after calls t run = rw (mcapi_close, eq→== endp.chan_type type t, run) refl

  close-refused :
      (status : ℕ)
      → status ≢ Status.success
      → endp.chan_type ≡ type
      → close_side endp flag ≡ (status, endp, [])
      → mcapi_close fin here endp type true flag ≡ close_refused status endp
  unfolding mcapi_close
  close-refused status ne t run =
      rw (mcapi_close, eq→== endp.chan_type type t, run, ne→== status Status.success ne) refl

  close-other_type :
      endp.chan_type ≢ type
      → mcapi_close fin here endp type true flag ≡ close_refused Status.err_chan_type endp
  unfolding mcapi_close
  close-other_type t = rw (mcapi_close, ne→== endp.chan_type type t) refl

  -- Every call of `mcapi_close` either leaves the endpoint open and detached from its channel, on the same
  -- port, with the request set up; or it returns a status other than success, with the endpoint unchanged, no
  -- request and no call made.
  pub mcapi_close-Detached :
      (has_request : Bool)
      → (Detached endp (mcapi_close fin here endp type has_request flag).endp
          × ((mcapi_close fin here endp type has_request flag).request ≢ none))
        ⊎ ((status : ℕ) × (status ≢ Status.success)
            × (mcapi_close fin here endp type has_request flag ≡ close_refused status endp))
  unfolding mcapi_close
  mcapi_close-Detached false = inr (Status.err_parameter, omega arith, refl)
  mcapi_close-Detached true = elim (ℕ_discrete endp.chan_type type) [
    | no t ↦ inr (Status.err_chan_type, omega arith, close-other_type t)
    | yes t ↦ elim (close_side-Checked endp flag) [
      | refused status ne run ↦ inr (status, ne, close-refused status ne t run)
      | accepted after calls run port handle ↦ inl (
        subst (λ r. Detached endp r.endp) (sym (close-accepted after calls t run))
            (detached after calls port handle),
        subst (λ r. r.request ≢ none) (sym (close-accepted after calls t run)) (has after calls),
      )
    ]
  ]
    where
      detached :
          (after : Endpoint) (calls : List Call)
          → after.port_id ≡ endp.port_id
          → after.endp_handle ≡ endp.endp_handle
          → Detached endp (finish_close fin here after calls).endp
      detached after calls port handle = record {
        is_open = refl;
        no_tx = refl;
        no_rx = refl;
        not_connecting = refl;
        no_type = refl;
        same_port = port;
        same_handle = handle;
      }

      has :
          (after : Endpoint) (calls : List Call)
          → (finish_close fin here after calls).request ≢ none
      has after calls e = cc

  -- An endpoint of a packet or scalar channel that was closed is refused with MCAPI_ERR_CHAN_TYPE when either
  -- side of it is closed again, since its channel type is cleared; nothing changes then.
  pub mcapi_close-mcapi_close :
      (flag' : ℕ)
      → type ≢ 0
      → (mcapi_close fin here endp type true flag).request ≢ none
      → mcapi_close fin here (mcapi_close fin here endp type true flag).endp type true flag'
        ≡ close_refused Status.err_chan_type (mcapi_close fin here endp type true flag).endp
  unfolding mcapi_close
  mcapi_close-mcapi_close flag' nz done = elim (mcapi_close-Detached true) [
    | inl (d, has) ↦ again (mcapi_close fin here endp type true flag).endp d.no_type
    | inr (status, ne, e) ↦ absurd (done (ap (λ r. r.request) e))
  ]
    where
      again :
          (x : Endpoint)
          → x.chan_type ≡ 0
          → mcapi_close fin here x type true flag' ≡ close_refused Status.err_chan_type x
      again x z = rw (mcapi_close, ne→== x.chan_type type (λ e. nz (sym e ∙ z))) refl
