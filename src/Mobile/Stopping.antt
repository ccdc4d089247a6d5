-- ===== src/Mobile/Stopping.antt =====
-- mobile.c: stopping the adapter.
use libmobile.Sockets.Ledger.{Accounted, Idle, Ledger, audited}
use libmobile.Adapter.{Adapter, Callback}
use libmobile.Prelude.{false, true, ◌≡◌, arith, if_intro}
use libmobile.Serial.Types.{init}
use libmobile.Mobile.Loop.{mobile_stop, mobile_reset, mode_32bit_change}
use libmobile.Callback.{cb_config_write, cb_serial_disable}
use libmobile.Commands.Session.{commands_reset}
use libmobile.Config.Settings.{config_save}
use libmobile.Sockets.Session.{do_end_session-Idle, do_end_session_ended}
use libmobile.Serial.Incoming.{serial_init}

-- No session, and no socket open but that of the fetching of the number
record Ended {W : Type 0} (a : Adapter (Ledger W)) : Type 0 where
  idle : Idle a
  no_session : a.commands.session_started ≡ false

module _ {W : Type 0} (cb : Callback W) where
  commands_reset-Idle :
      (a : Adapter (Ledger W))
      → (a.commands.session_started ≡ true → Accounted a)
      → (a.commands.session_started ≡ false → Idle a)
      → Ended (commands_reset (audited cb) a)
  unfolding commands_reset
  commands_reset-Idle a s n =
      if_intro Ended a.commands.session_started
        (λ e. ground (arith, do_end_session-Idle cb a (s e), do_end_session_ended cb a))
        (λ e. ground (arith, n e))

  config_save_lem :
      (a : Adapter (Ledger W))
      → let a' = config_save (audited cb) a in
        (a'.user.proper ≡ a.user.proper)
        × (a'.user.opened 0 ≡ a.user.opened 0)
        × (a'.user.opened 1 ≡ a.user.opened 1)
        × (a'.commands.session_started ≡ a.commands.session_started)
        × (a'.global.number_fetch_active ≡ a.global.number_fetch_active)
        × (a'.global.start ≡ a.global.start)
        × (a'.serial.state ≡ a.serial.state)
        × (a'.config.dirty ≡ false)
  unfolding config_save cb_config_write
  config_save_lem a = ground arith

  -- With the sockets accounted for, stopping an adapter that runs ends its session, if it has one,
  -- closes the sockets of the session, each once, resets the serial machine, and leaves nothing to
  -- be saved.
  pub mobile_stop-Idle :
      (a : Adapter (Ledger W))
      → a.global.start ≡ true
      → (a.commands.session_started ≡ true → Accounted a)
      → (a.commands.session_started ≡ false → Idle a)
      → let a' = mobile_stop (audited cb) a in
        Idle a'
        × (a'.commands.session_started ≡ false)
        × (a'.serial.state ≡ init)
        × (a'.config.dirty ≡ false)
  unfolding mobile_stop mobile_reset mode_32bit_change serial_init cb_serial_disable
  mobile_stop-Idle a r s n =
      let a1 = cb_serial_disable (audited cb) a in
      let a2 = record a1 { global = record a1.global { start = false } } in
      let ended =
        commands_reset-Idle a2 (λ e. let t = s e in ground arith)
          (λ e. let t = n e in ground arith) in
      rw r (ground (arith, ended, config_save_lem (mobile_reset (audited cb) a2)))
