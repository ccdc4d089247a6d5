-- ===== src/Whole/Round.antt =====
-- mobile.c: a round of the main loop leaves the adapter sound.
use libmobile.Sockets.Ledger.{Accounted, Ledger, audited}
use libmobile.Mobile.Actions.{
  Action, is_waiting, actions_get, is_response_waiting, late_if, note_activity,
}
use libmobile.Adapter.{Adapter, Callback}
use libmobile.Whole.Sound.{Chosen, Sound, session-Accounted, IsTimely, actions_get-Chosen}
use libmobile.Whole.Fetch.{FetchOpens, number_fetch_handle-Idle}
use libmobile.Prelude.{
  arith, false, true, ◌≡◌, ◌≢◌, Bool-cases, IfSome, if_intro, inl, inr, not, ◌&&◌, refl, some,
}
use libmobile.Callback.{cb_serial_disable, cb_serial_enable, cb_time_latch, cb_time_check_ms}
use libmobile.Commands.Session.{commands_reset}
use libmobile.Whole.Session.{do_end_session-Apart}
use libmobile.Sockets.Session.{do_end_session-Idle, do_end_session_ended}
use libmobile.Mobile.Loop.{
  mobile_reset, mode_32bit_change, process_rest, restart_serial, actions_process, mobile_loop,
  process_packet, number_fetch_handle,
}
use libmobile.Serial.Types.{response_waiting}
use libmobile.Serial.Incoming.{serial_init}
use libmobile.Commands.Process.{Build}
use libmobile.Whole.Process.{StartsFirst, process_packet-Sound}
use libmobile.Mobile.Handle.{take_packet}
use libmobile.Whole.Kept.{config_saved-Sound}

module _ {W : Type 0} (cb : Callback W) where
  reset-Sound :
      (acts : Action) (a : Adapter (Ledger W))
      → Chosen acts a
      → a.commands.session_started ≡ true
      → Sound (
          restart_serial
            (audited cb)
            (mobile_reset (audited cb) (cb_serial_disable (audited cb) a)))
  unfolding mobile_reset commands_reset mode_32bit_change serial_init cb_serial_disable
      cb_serial_enable cb_time_latch
  reset-Sound acts a h o =
      let a1 = cb_serial_disable (audited cb) a in
      let account : Accounted a = session-Accounted a h.free h.busy o in
      ground
        (arith, do_end_session-Idle cb a1, do_end_session_ended cb a1, do_end_session-Apart cb a1)

  quiet_reset-Sound :
      (acts : Action) (a : Adapter (Ledger W))
      → Chosen acts a
      → acts.reset ≡ true
      → a.commands.session_started ≡ false
      → let a0 = cb_serial_disable (audited cb) a in
        Sound
          (restart_serial (audited cb) (record a0 { global = record a0.global { active = false } }))
  unfolding cb_serial_disable cb_serial_enable cb_time_latch
  quiet_reset-Sound acts a h r o = ground arith

  Chosen-Sound :
      (acts : Action) (a : Adapter (Ledger W))
      → Chosen acts a
      → a.serial.state ≢ response_waiting
      → Sound a
  Chosen-Sound acts a h w = record {
    room = h.room;
    in_use = h.in_use;
    free = h.free;
    busy = h.busy;
    outside = h.outside;
    heard = λ o e. absurd (w e);
  }

  resync-Sound :
      (a : Adapter (Ledger W))
      → Sound a
      → Sound (restart_serial (audited cb) (cb_serial_disable (audited cb) a))
  unfolding cb_serial_disable cb_serial_enable cb_time_latch
  resync-Sound a s = ground arith

  change_mode-Sound :
      (a : Adapter (Ledger W))
      → Sound a
      → Sound (cb_serial_enable (audited cb) (mode_32bit_change (cb_serial_disable (audited cb) a)))
  unfolding cb_serial_disable cb_serial_enable mode_32bit_change
  change_mode-Sound a s = ground arith

  fetch-Sound :
      (a : Adapter (Ledger W))
      → Sound a
      → a.serial.state ≢ response_waiting
      → a.commands.session_started ≡ false
      → FetchOpens cb a
      → Sound (number_fetch_handle (audited cb) a)
  fetch-Sound a s w n o =
      let (idle, f) = number_fetch_handle-Idle cb a (s.outside n) o in ground arith

  process_rest-Sound :
      (acts : Action) (a : Adapter (Ledger W))
      → Chosen acts a
      → a.serial.state ≢ response_waiting
      → (acts.init_number ≡ true → FetchOpens cb a)
      → Sound (process_rest (audited cb) a acts)
  unfolding process_rest
  process_rest-Sound acts a h w f =
      let s = Chosen-Sound acts a h w in
      if_intro Sound acts.reset_serial (λ _. resync-Sound a s)
        (λ _.
          if_intro Sound acts.change_32bit_mode
            (λ _. if_intro Sound (is_waiting a.serial.state) (λ _. change_mode-Sound a s) (λ _. s))
            (λ _.
              if_intro Sound acts.write_config (λ _. config_saved-Sound cb a s)
                (λ _.
                  if_intro Sound acts.init_number (λ e. fetch-Sound a s w (h.fetches e) (f e))
                    (λ _. s))))

  actions_get-StartsFirst :
      (a : Adapter (Ledger W)) → StartsFirst a → StartsFirst (actions_get (audited cb) a).1
  unfolding actions_get note_activity late_if cb_time_latch cb_time_check_ms take_packet
  actions_get-StartsFirst a f = ground arith

module _ {W : Type 0} (cb : Callback W) (env : Build) where
  waits :
      (a : Adapter (Ledger W))
      → is_response_waiting a.serial.state ≡ true
      → a.serial.state ≡ response_waiting
  unfolding is_response_waiting
  waits a e = ground arith

  not_waits :
      (a : Adapter (Ledger W))
      → is_response_waiting a.serial.state ≡ false
      → a.serial.state ≢ response_waiting
  unfolding is_response_waiting
  not_waits a e w = ground arith

  process_packet_or_wait :
      (acts : Action) (a : Adapter (Ledger W))
      → Chosen acts a
      → StartsFirst a
      → IfSome Sound (process_packet (audited cb) env a)
  unfolding process_packet
  process_packet_or_wait acts a h f = elim (Bool-cases (is_response_waiting a.serial.state)) [
    | inl e ↦ process_packet-Sound cb env acts a h (waits a e) f
    | inr e ↦ rw (e, process_packet, IfSome) (Chosen-Sound cb acts a h (not_waits a e))
  ]

  actions_process-Sound :
      (acts : Action) (a : Adapter (Ledger W))
      → Chosen acts a
      → StartsFirst a
      → (acts.init_number ≡ true → FetchOpens cb a)
      → IfSome Sound (actions_process (audited cb) env a acts)
  unfolding actions_process
  actions_process-Sound acts a h f o =
      if_intro (IfSome Sound) (acts.drop_connection && a.commands.session_started)
        (λ e. reset-Sound cb acts a h (ground arith))
        (λ _.
          if_intro (IfSome Sound) (acts.reset && not a.commands.session_started)
            (λ e. quiet_reset-Sound cb acts a h (ground arith) (ground arith))
            (λ _.
              if_intro (IfSome Sound) acts.process_command (λ _. process_packet_or_wait acts a h f)
                (λ e.
                  process_rest-Sound cb acts a h (λ w. absurd (ground (arith, h.processes w))) o)))

  stopped :
      (a : Adapter (Ledger W)) → a.global.start ≡ false → mobile_loop (audited cb) env a ≡ some a
  unfolding mobile_loop actions_get actions_process process_rest
  stopped a e = rw e refl

  -- A round of the main loop, whatever it finds to do and whatever the callbacks return, leaves the
  -- adapter sound, if outside of a session the packet to be processed begins one, if the
  -- socket for fetching the number opens, and if the serial timer is not late when it is latched.
  -- This holds of every result; without one the loop over a name of a DNS response has not ended.
  pub mobile_loop-Sound :
      (a : Adapter (Ledger W))
      → IsTimely cb
      → StartsFirst a
      → (let (acts, a') = actions_get (audited cb) a in acts.init_number ≡ true → FetchOpens cb a')
      → Sound a
      → IfSome Sound (mobile_loop (audited cb) env a)
  mobile_loop-Sound a t f o s =
      let (acts, a') = actions_get (audited cb) a in
      elim (Bool-cases a.global.start) [
        | inl r ↦
            unfold mobile_loop in
            actions_process-Sound acts a' (actions_get-Chosen cb a t r s)
              (actions_get-StartsFirst cb a f) o
        | inr r ↦ rw (stopped a r, IfSome) s
      ]
