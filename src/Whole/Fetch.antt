-- ===== src/Whole/Fetch.antt =====
-- mobile.c: fetching the number of the adapter keeps the account of its socket.
use libmobile.Adapter.{Adapter, Callback, tcp, timer_command}
use libmobile.Sockets.Frame.{Frame}
use libmobile.Sockets.Ledger.{Idle, Ledger, audited}
use libmobile.Prelude.{arith, false, true, ◌-◌, ◌≡◌}
use libmobile.Callback.{cb_sock_close, cb_sock_open, cb_time_check_ms, cb_time_latch}
use libmobile.Mobile.Loop.{fetch_step, number_fetch_handle}
use libmobile.Relay.Exchange.{relay_init}
use libmobile.Sockets.Procedure.{proc_init_number-Keeps}

module _ {W : Type 0} (cb : Callback W) where
  -- The call that opens the socket of the fetching succeeds.
  abbrev pub FetchOpens : Adapter (Ledger W) → Type 0
  FetchOpens a =
      a.global.number_fetch_active ≡ false
      → (cb_sock_open (audited cb) (cb_time_latch (audited cb) a timer_command) 0 tcp
          a.config.relay.type 0).0
        ≡ true

  fetch_step-Idle :
      (a : Adapter (Ledger W))
      → Idle a
      → a.global.number_fetch_active ≡ true
      → Idle (fetch_step (audited cb) a) × Frame a (fetch_step (audited cb) a)
  unfolding fetch_step cb_sock_close
  fetch_step-Idle a i f = ground (arith, proc_init_number-Keeps cb a a.config.relay)

  -- Where the opening of its socket succeeds, a step of the fetching of the number, the first and
  -- the one that gives up included, opens a closed socket and uses and closes an open one, and
  -- whether the socket is open afterwards is what the adapter notes.
  pub number_fetch_handle-Idle :
      (a : Adapter (Ledger W))
      → Idle a
      → FetchOpens a
      → Idle (number_fetch_handle (audited cb) a) × Frame a (number_fetch_handle (audited cb) a)
  unfolding number_fetch_handle relay_init cb_time_latch cb_sock_open cb_time_check_ms cb_sock_close
  number_fetch_handle-Idle a i o =
      let a1 = record a {
        global = record a.global { number_fetch_retries = a.global.number_fetch_retries - 1 };
      } in
      let a2 = cb_time_latch (audited cb) (relay_init a1) timer_command in
      let a3 = (cb_sock_open (audited cb) a2 0 tcp a2.config.relay.type 0).1 in
      let a4 = record a3 { global = record a3.global { number_fetch_active = true } } in
      let a5 = (cb_time_check_ms (audited cb) a timer_command 3000).1 in
      ground (arith, fetch_step-Idle a4, fetch_step-Idle a5)
