-- ===== src/Whole/Kept.antt =====
-- mobile.c: a transfer, starting, stopping and changing the settings leave the adapter sound.
use libmobile.Adapter.{Adapter, Callback}
use libmobile.Prelude.{Bool-cases, arith, false, if_intro, if◌then◌else◌, inl, inr, ℕ, ◌≡◌}
use libmobile.Sockets.Ledger.{Ledger, audited}
use libmobile.Whole.Sound.{Sound, session-Accounted}
use libmobile.Callback.{
  cb_config_write, cb_serial_disable, cb_serial_enable, cb_time_latch, cb_update_number,
}
use libmobile.Commands.Session.{commands_reset, number_fetch_cancel}
use libmobile.Config.Settings.{
  config_load, config_save, internal_clear, internal_verify, load_library,
}
use libmobile.Whole.Session.{do_end_session-Apart}
use libmobile.Sockets.Session.{do_end_session-Idle, do_end_session_ended}
use libmobile.Mobile.Loop.{
  link_of, mobile_reset, mobile_start, mobile_stop, mobile_transfer, mobile_transfer_32bit,
  mode_32bit_change, number_fetch_reset, wake,
}
use libmobile.Serial.Incoming.{serial_init}
use libmobile.Serial.Diagram.{serial_transfer-Moves, serial_transfer_32bit-Travels}

module _ {W : Type 0} where
  -- What reading the configuration leaves alone.
  record Same (a b : Adapter (Ledger W)) : Type 0 where
    same_proper : b.user.proper ≡ a.user.proper
    same_opened0 : b.user.opened 0 ≡ a.user.opened 0
    same_opened1 : b.user.opened 1 ≡ a.user.opened 1
    same_commands : b.commands ≡ a.commands
    same_global : b.global ≡ a.global
    same_buffer : b.buffer_commands ≡ a.buffer_commands
    same_serial : b.serial ≡ a.serial

  pub transfer-Sound : (a : Adapter (Ledger W)) (c : ℕ) → Sound a → Sound (mobile_transfer a c).1
  unfolding mobile_transfer
  transfer-Sound a c s =
      let moved =
        serial_transfer-Moves (link_of (wake a)) (wake a).serial (wake a).buffer_serial c in
      ground arith

  pub transfer_32bit-Sound :
      (a : Adapter (Ledger W)) (c : ℕ) → Sound a → Sound (mobile_transfer_32bit a c).1
  unfolding mobile_transfer_32bit
  transfer_32bit-Sound a c s =
      let moved =
        serial_transfer_32bit-Travels (link_of (wake a)) (wake a).serial (wake a).buffer_serial c in
      ground arith

module _ {W : Type 0} (cb : Callback W) where
  internal_verify-Same : (a : Adapter (Ledger W)) → Same a (internal_verify (audited cb) a).1
  unfolding internal_verify
  internal_verify-Same a = ground arith

  internal_clear-Same : (a : Adapter (Ledger W)) → Same a (internal_clear (audited cb) a)
  unfolding internal_clear
  internal_clear-Same a = ground arith

  load_library-Same : (a : Adapter (Ledger W)) → Same a (load_library (audited cb) a).1
  unfolding load_library
  load_library-Same a = ground arith

  config_load-Same : (a : Adapter (Ledger W)) → Same a (config_load (audited cb) a)
  unfolding config_load
  config_load-Same a =
      let (valid, a1) = internal_verify (audited cb) a in
      let a2 = if valid then a1 else internal_clear (audited cb) a1 in
      ground (arith, internal_verify-Same a, internal_clear-Same a1, load_library-Same a2)

  pub start-Sound : (a : Adapter (Ledger W)) → Sound a → Sound (mobile_start (audited cb) a)
  unfolding mobile_start cb_time_latch cb_serial_enable
  start-Sound a s = ground (arith, config_load-Same a)

  stopped-Sound :
      (a : Adapter (Ledger W))
      → Sound a
      → let a1 = cb_serial_disable (audited cb) a in
        Sound
          (mobile_reset (audited cb) (record a1 { global = record a1.global { start = false } }))
  unfolding mobile_reset commands_reset mode_32bit_change serial_init cb_serial_disable
  stopped-Sound a s =
      let a1 = cb_serial_disable (audited cb) a in
      let a2 = record a1 { global = record a1.global { start = false } } in
      elim (Bool-cases a.commands.session_started) [
        | inl o ↦
            let account = session-Accounted a s.free s.busy o in
            ground (
              arith,
              do_end_session-Idle cb a2,
              do_end_session_ended cb a2,
              do_end_session-Apart cb a2,
            )
        | inr o ↦ rw o (ground arith)
      ]

  pub config_saved-Sound : (a : Adapter (Ledger W)) → Sound a → Sound (config_save (audited cb) a)
  unfolding config_save cb_config_write
  config_saved-Sound a s = ground arith

  pub stop-Sound : (a : Adapter (Ledger W)) → Sound a → Sound (mobile_stop (audited cb) a)
  unfolding mobile_stop
  stop-Sound a s =
      if_intro Sound a.global.start
        (λ _.
          let a1 = cb_serial_disable (audited cb) a in
          let a2 = record a1 { global = record a1.global { start = false } } in
          config_saved-Sound (mobile_reset (audited cb) a2) (stopped-Sound a s))
        (λ _. s)

  pub number_fetch_reset-Sound :
      (a : Adapter (Ledger W)) → Sound a → Sound (number_fetch_reset (audited cb) a)
  unfolding number_fetch_reset number_fetch_cancel cb_update_number
  number_fetch_reset-Sound a s = elim (Bool-cases a.commands.session_started) [
    | inl o ↦ let account = session-Accounted a s.free s.busy o in ground arith
    | inr o ↦ ground arith
  ]
