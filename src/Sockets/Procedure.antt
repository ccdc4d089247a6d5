-- ===== src/Sockets/Procedure.antt =====
-- relay.c: the stateful procedures keep the account of the sockets.
use libmobile.Adapter.{Adapter, Addr, Callback}
use libmobile.Sockets.Relay.{
  Keeps, relay_call-Keeps, relay_connect-Keeps, relay_get_number-Keeps, relay_wait-Keeps,
}
use libmobile.Sockets.Ledger.{Ledger, audited}
use libmobile.Prelude.{List, arith, ℕ}
use libmobile.Callback.{cb_update_number}
use libmobile.Relay.Procedure.{
  keep_number, last_step, number_step, proc_call, proc_call_last, proc_call_number, proc_wait,
  proc_wait_last, proc_wait_number, put_step, proc_init_number,
}
use libmobile.Relay.Connect.{relay_connect, relay_get_number}

module _ {W : Type 0} (cb : Callback W) where
  keep_number-Keeps : (a : Adapter (Ledger W)) (n : List ℕ) → Keeps a (keep_number (audited cb) a n)
  unfolding keep_number cb_update_number
  keep_number-Keeps a n = ground arith

  proc_call_last-Keeps :
      (a : Adapter (Ledger W)) (n : List ℕ) → Keeps a (proc_call_last (audited cb) a 0 n).1
  unfolding proc_call_last cb_update_number
  proc_call_last-Keeps a n = ground (arith, relay_call-Keeps cb a n)

  proc_call_number-Keeps :
      (a : Adapter (Ledger W)) (n : List ℕ) → Keeps a (proc_call_number (audited cb) a 0 n).1
  unfolding proc_call_number
  proc_call_number-Keeps a n =
      let (rc, own, a1) = relay_get_number (audited cb) a 0 in
      let a2 = keep_number (audited cb) a1 own in
      ground (
        arith,
        relay_get_number-Keeps cb a,
        keep_number-Keeps a1 own,
        proc_call_last-Keeps (put_step a2 last_step) n,
      )

  pub proc_call-Keeps :
      (a : Adapter (Ledger W)) (server : Addr) (n : List ℕ)
      → Keeps a (proc_call (audited cb) a 0 server n).1
  unfolding proc_call
  proc_call-Keeps a server n =
      let a1 = (relay_connect (audited cb) a 0 server).1 in
      ground (
        arith,
        relay_connect-Keeps cb a server,
        proc_call_number-Keeps (put_step a1 number_step) n,
        proc_call_number-Keeps a n,
        proc_call_last-Keeps a n,
      )

  proc_wait_last-Keeps : (a : Adapter (Ledger W)) → Keeps a (proc_wait_last (audited cb) a 0).1
  unfolding proc_wait_last cb_update_number
  proc_wait_last-Keeps a = ground (arith, relay_wait-Keeps cb a)

  proc_wait_number-Keeps : (a : Adapter (Ledger W)) → Keeps a (proc_wait_number (audited cb) a 0).1
  unfolding proc_wait_number
  proc_wait_number-Keeps a =
      let (rc, own, a1) = relay_get_number (audited cb) a 0 in
      let a2 = keep_number (audited cb) a1 own in
      ground (
        arith,
        relay_get_number-Keeps cb a,
        keep_number-Keeps a1 own,
        proc_wait_last-Keeps (put_step a2 last_step),
      )

  pub proc_wait-Keeps :
      (a : Adapter (Ledger W)) (server : Addr) → Keeps a (proc_wait (audited cb) a 0 server).1
  unfolding proc_wait
  proc_wait-Keeps a server =
      let a1 = (relay_connect (audited cb) a 0 server).1 in
      ground (
        arith,
        relay_connect-Keeps cb a server,
        proc_wait_number-Keeps (put_step a1 number_step),
        proc_wait_number-Keeps a,
        proc_wait_last-Keeps a,
      )

  pub proc_init_number-Keeps :
      (a : Adapter (Ledger W)) (server : Addr)
      → Keeps a (proc_init_number (audited cb) a 0 server).1
  unfolding proc_init_number
  proc_init_number-Keeps a server =
      let a1 = (relay_connect (audited cb) a 0 server).1 in
      let (rc, own, a2) = relay_get_number (audited cb) a1 0 in
      ground (
        arith,
        relay_connect-Keeps cb a server,
        relay_get_number-Keeps cb a1,
        keep_number-Keeps a2 own,
      )
