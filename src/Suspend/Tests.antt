-- ===== src/Suspend/Tests.antt =====
-- The theorems on `mcapi_check_resume` (libmcapi/mcapi/suspend.c) at queues of three requests.
use openmcapi_deprecated.Base.{
  ℕ, true, false, ◌≡◌, refl, some, List, [], ◌∷◌, ◌==◌, if◌then◌else◌, map, arith,
}
use openmcapi_deprecated.Status
use openmcapi_deprecated.Wire.{Buffer}
use openmcapi_deprecated.Endpoints.{Endpoint, blank}
use openmcapi_deprecated.Nodes.{req_deleted}
use openmcapi_deprecated.Requests.{blank_request}
use openmcapi_deprecated.Suspend.{Waiter, Woken, Resumed, req_rx_fin, wants, check_resume}
use openmcapi_deprecated.Suspend.Events.{Parted, check_resume-Parted}
use openmcapi_deprecated.Suspend.Walk.{taken, left}
use openmcapi_deprecated.Suspend.Resume.{
  Fits, TooSmall, Each, got_message, woken_status, check_resume-received, check_resume-TooSmall,
}

-- A message of four bytes in the buffer 7.
abbrev contents : ℕ → Buffer
contents a =
    if a == 7 then 0 ∷ 1 ∷ 0 ∷ 5 ∷ 0 ∷ 2 ∷ 0 ∷ 6 ∷ 0 ∷ 1 ∷ 0 ∷ 0 ∷ 65 ∷ 66 ∷ 67 ∷ 68 ∷ [] else []

abbrev receiver : Endpoint
receiver = record blank { state = 2; endp_handle = 0x20006; rx_queue = 7 ∷ [] }

-- A receive with a buffer of n bytes, at an address.
abbrev receive_with : ℕ → ℕ → Waiter
receive_with a n = record {
  address = a;
  request = record blank_request {
    status = Status.pending;
    type = req_rx_fin;
    target_endp = 0x20006;
    buf_size = n;
  };
  has_endp_ptr = false;
}

abbrev waits_creation : Waiter
waits_creation = record {
  address = 1;
  request = record blank_request {
    status = Status.pending;
    type = req_deleted;
    target_node_id = 2;
    target_port_id = 6;
  };
  has_endp_ptr = true;
}

abbrev roomy : List Waiter
roomy = waits_creation ∷ receive_with 2 4 ∷ receive_with 3 8 ∷ []

abbrev tight : List Waiter
tight = waits_creation ∷ receive_with 2 3 ∷ receive_with 3 8 ∷ []

takes_roomy : taken req_rx_fin 0x20006 roomy ≡ receive_with 2 4 ∷ receive_with 3 8 ∷ []
unfolding wants
takes_roomy = refl

takes_tight : taken req_rx_fin 0x20006 tight ≡ receive_with 2 3 ∷ receive_with 3 8 ∷ []
unfolding wants
takes_tight = refl

fit : Each (Fits 4) (receive_with 2 4 ∷ receive_with 3 8 ∷ [])
unfolding Each Fits
fit = ((refl, omega arith), ((refl, omega arith), tt))

small : TooSmall 4 (receive_with 2 3)
unfolding TooSmall
small = (refl, omega arith)

check_resume-Parted_example :
    (waiting : List Waiter) × (woken : List Woken) × (check_resume contents req_deleted 0x20006
        receiver 0 Status.err_port_invalid roomy
      ≡ some record {
        waiting = waiting;
        woken = woken;
        rx_queue = 7 ∷ [];
        wait_list = [];
        recovered = [];
      })
    × Parted req_deleted 0x20006 0 Status.err_port_invalid roomy waiting woken
check_resume-Parted_example =
    check_resume-Parted req_deleted 0x20006 0 Status.err_port_invalid contents receiver roomy
      (omega arith)

check_resume-received_example :
    check_resume contents req_rx_fin 0x20006 receiver 4 Status.success roomy
    ≡ some record {
      waiting = left req_rx_fin 0x20006 roomy;
      woken =
          map (got_message contents 7 4 Status.success) (receive_with 2 4 ∷ receive_with 3 8 ∷ []);
      rx_queue = [];
      wait_list = [];
      recovered = 7 ∷ [];
    }
check_resume-received_example =
    check_resume-received contents 0x20006 receiver 7 [] 4 Status.success roomy (receive_with 2 4)
      (receive_with 3 8 ∷ []) refl (omega arith) takes_roomy fit

check_resume-TooSmall_example :
    (r : Resumed) × (check_resume contents req_rx_fin 0x20006 receiver 4 Status.success tight
      ≡ some r)
    × (map woken_status r.woken ≡ Status.err_msg_truncated ∷ Status.err_msg_truncated ∷ [])
check_resume-TooSmall_example =
    check_resume-TooSmall contents 0x20006 receiver 7 [] 4 Status.success tight (receive_with 2 3)
      (receive_with 3 8 ∷ []) refl takes_tight small
