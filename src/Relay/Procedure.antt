-- ===== src/Relay/Procedure.antt =====
-- relay.c: the stateful procedures. Each takes up the step at which the last call of it stopped.
use libmobile.Adapter.{Adapter, Addr, Callback, number_peer, number_user}
use libmobile.Prelude.{
  Bool, List, if◌then◌else◌, is_negative, is_zero, not, pos, some, to_ℕ, ℕ, ℤ, ◌&&◌, ◌==◌, ◌||◌,
}
use libmobile.Callback.{cb_update_number}
use libmobile.Relay.Exchange.{minus_one}
use libmobile.Relay.Connect.{relay_call, relay_connect, relay_get_number, relay_wait}

-- `enum process_call` and `enum process_wait`, which have the same steps
abbrev pub begin_step : ℕ
begin_step = 0

abbrev pub number_step : ℕ
number_step = 1

abbrev pub last_step : ℕ
last_step = 2

abbrev pub unfinished : ℤ → Bool
unfinished rc = is_zero rc || is_negative rc

module _ {W : Type 0} where
  abbrev pub put_step : Adapter W → ℕ → Adapter W
  put_step a step = record a { relay = record a.relay { processing = step } }

module _ {W : Type 0} (cb : Callback W) where
  -- The number of this adapter, once it has arrived.
  unfoldable pub keep_number : Adapter W → List ℕ → Adapter W
  keep_number a number =
      let a' = cb_update_number cb a number_user (some number) in
      record a' { global = record a'.global { number_fetch_retries = 0 } }

  unfoldable pub proc_call_last : Adapter W → ℕ → List ℕ → ℤ × Adapter W
  proc_call_last a conn number =
      let (rc, a') = relay_call cb a conn number in
      (
        rc,
        if not (is_negative rc) && to_ℕ rc == 1
            then cb_update_number cb a' number_peer (some number)
            else a',
      )

  unfoldable pub proc_call_number : Adapter W → ℕ → List ℕ → ℤ × Adapter W
  proc_call_number a conn number =
      let (rc, own, a') = relay_get_number cb a conn in
      if unfinished rc
      then (rc, a')
      else proc_call_last (put_step (keep_number a' own) last_step) conn number

  -- `mobile_relay_proc_call`
  unfoldable pub proc_call : Adapter W → ℕ → Addr → List ℕ → ℤ × Adapter W
  proc_call a conn server number =
      let (rc, a') = relay_connect cb a conn server in
      if a.relay.processing == begin_step
      then (if unfinished rc
          then (rc, a')
          else proc_call_number (put_step a' number_step) conn number)
      else if a.relay.processing == number_step
      then proc_call_number a conn number
      else if a.relay.processing == last_step
      then proc_call_last a conn number
      else (minus_one, a)

  unfoldable pub proc_wait_last : Adapter W → ℕ → ℤ × Adapter W
  proc_wait_last a conn =
      let (rc, number, a') = relay_wait cb a conn in
      (
        rc,
        if not (is_negative rc) && to_ℕ rc == 1
            then cb_update_number cb a' number_peer (some number)
            else a',
      )

  unfoldable pub proc_wait_number : Adapter W → ℕ → ℤ × Adapter W
  proc_wait_number a conn =
      let (rc, own, a') = relay_get_number cb a conn in
      if unfinished rc
      then (rc, a')
      else proc_wait_last (put_step (keep_number a' own) last_step) conn

  -- `mobile_relay_proc_wait`
  unfoldable pub proc_wait : Adapter W → ℕ → Addr → ℤ × Adapter W
  proc_wait a conn server =
      let (rc, a') = relay_connect cb a conn server in
      if a.relay.processing == begin_step
      then (if unfinished rc then (rc, a') else proc_wait_number (put_step a' number_step) conn)
      else if a.relay.processing == number_step
      then proc_wait_number a conn
      else if a.relay.processing == last_step
      then proc_wait_last a conn
      else (minus_one, a)

  -- `mobile_relay_proc_init_number`
  unfoldable pub proc_init_number : Adapter W → ℕ → Addr → ℤ × Adapter W
  proc_init_number a conn server =
      let (rc, a1) = relay_connect cb a conn server in
      let (rc2, own, a2) = relay_get_number cb a1 conn in
      if unfinished rc
      then (rc, a1)
      else if unfinished rc2
      then (rc2, a2)
      else (pos 1, keep_number a2 own)
