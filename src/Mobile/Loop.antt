-- ===== src/Mobile/Loop.antt =====
-- mobile.c: carrying out an action, the main loop, transfers, and starting and stopping.
use libmobile.Mobile.Actions.{Action, actions_get, differ, is_response_waiting, is_waiting}
use libmobile.Adapter.{Adapter, Addr, Callback, number_user, tcp, timer_command, timer_serial}
use libmobile.Prelude.{
  Bool, List, Option, false, if◌then◌else◌, is_zero, none, not, some, true, ℕ, ◌&&◌, ◌-◌, ◌==◌,
}
use libmobile.Commands.Process.{Build}
use libmobile.Serial.Types.{Link, SerialState, idle_byte, response_init}
use libmobile.Util.{addr_copy}
use libmobile.Config.Settings.{
  apply, config_init, config_load, config_save, set_relay_token_internal,
}
use libmobile.Callback.{
  cb_serial_disable, cb_serial_enable, cb_sock_close, cb_sock_open, cb_time_check_ms, cb_time_latch,
  cb_update_number,
}
use libmobile.Mobile.Handle.{command_handle}
use libmobile.Commands.Session.{commands_reset, number_fetch_cancel}
use libmobile.Relay.Procedure.{proc_init_number}
use libmobile.Relay.Exchange.{relay_init}
use libmobile.Serial.Incoming.{serial_init}
use libmobile.Serial.Transfer.{serial_transfer, serial_transfer_32bit}

abbrev pub idle_word : ℕ
idle_word = 0xd2d2d2d2

module _ {W : Type 0} where
  abbrev pub put_serial_state : Adapter W → SerialState → Adapter W
  put_serial_state a state = record a { serial = record a.serial { state = state } }

  -- `mode_32bit_change`
  unfoldable pub mode_32bit_change : Adapter W → Adapter W
  mode_32bit_change a = record a { serial = record a.serial { mode_32bit = a.commands.mode_32bit } }

  -- `mobile_global_init`, `mobile_config_init`, `mobile_commands_init`, `mobile_serial_init` and
  -- `mobile_dns_init`, as `mobile_init` calls them. What they leave alone is as it was.
  unfoldable pub mobile_init : Adapter W → Adapter W
  mobile_init a = record a {
    global = record {
      start = false;
      active = false;
      packet_parsed = false;
      number_fetch_active = false;
      number_fetch_retries = 3;
    };
    config = config_init a.config;
    commands = record a.commands { session_started = false; mode_32bit = false };
    serial = serial_init a.serial;
    dns_id = 0;
  }

  -- What the serial state machine reads of the adapter.
  abbrev pub link_of : Adapter W → Link
  link_of a = record { session_started = a.commands.session_started; device = a.config.device }

  -- The test that holds a transfer back while the serial mode has to change.
  unfoldable pub mode_pending : Adapter W → Bool
  mode_pending a = is_waiting a.serial.state && differ a.serial.mode_32bit a.commands.mode_32bit

  abbrev pub wake : Adapter W → Adapter W
  wake a = record a { serial = record a.serial { active = true } }

  unfoldable pub mobile_transfer : Adapter W → ℕ → ℕ × Adapter W
  mobile_transfer a c =
      let a1 = wake a in
      let (s, b, d) = serial_transfer (link_of a1) a1.serial a1.buffer_serial c in
      if mode_pending a1 then (idle_byte, a1) else (d, record a1 { serial = s; buffer_serial = b })

  unfoldable pub mobile_transfer_32bit : Adapter W → ℕ → ℕ × Adapter W
  mobile_transfer_32bit a c =
      let a1 = wake a in
      let (s, b, d) = serial_transfer_32bit (link_of a1) a1.serial a1.buffer_serial c in
      if mode_pending a1 then (idle_word, a1) else (d, record a1 { serial = s; buffer_serial = b })

module _ {W : Type 0} (cb : Callback W) where
  -- `mobile_reset`
  unfoldable pub mobile_reset : Adapter W → Adapter W
  mobile_reset a =
      let a1 = mode_32bit_change (commands_reset cb a) in
      record a1 {
        serial = serial_init a1.serial;
        global = record a1.global { active = false; packet_parsed = false };
      }

  -- `mobile_number_fetch_reset`
  unfoldable pub number_fetch_reset : Adapter W → Adapter W
  number_fetch_reset a =
      let a1 = number_fetch_cancel cb a in
      let a2 =
        if a1.global.number_fetch_retries == 0
        then cb_update_number cb a1 number_user none
        else a1 in
      record a2 { global = record a2.global { number_fetch_retries = 3 } }

  -- `mobile_config_set_relay` and `mobile_config_set_relay_token`
  unfoldable pub config_set_relay : Adapter W → Addr → Adapter W
  config_set_relay a relay =
      number_fetch_reset
        (record a { config = apply (record a.config { relay = addr_copy a.config.relay relay }) })

  unfoldable pub config_set_relay_token : Adapter W → Option (List ℕ) → Adapter W
  config_set_relay_token a token =
      number_fetch_reset (record a { config = set_relay_token_internal a.config token })

  abbrev pub close_fetch : Adapter W → Adapter W
  close_fetch a =
      let a' = cb_sock_close cb a 0 in
      record a' { global = record a'.global { number_fetch_active = false } }

  -- The end of `number_fetch_handle`: a step of the procedure, and closing when it is over.
  unfoldable pub fetch_step : Adapter W → Adapter W
  fetch_step a =
      let (rc, a') = proc_init_number cb a 0 a.config.relay in
      if is_zero rc then a' else close_fetch a'

  -- `number_fetch_handle`
  unfoldable pub number_fetch_handle : Adapter W → Adapter W
  number_fetch_handle a =
      let a1 = record a {
        global = record a.global { number_fetch_retries = a.global.number_fetch_retries - 1 };
      } in
      let a2 = cb_time_latch cb (relay_init a1) timer_command in
      let (opened, a3) = cb_sock_open cb a2 0 tcp a2.config.relay.type 0 in
      let a4 = record a3 { global = record a3.global { number_fetch_active = true } } in
      let (late, a5) = cb_time_check_ms cb a timer_command 3000 in
      if not a.global.number_fetch_active
      then fetch_step a4
      else if late
      then close_fetch a5
      else fetch_step a5

  -- `mobile_cb_serial_disable`, the timer, `mobile_cb_serial_enable`
  abbrev pub restart_serial : Adapter W → Adapter W
  restart_serial a = cb_serial_enable cb (cb_time_latch cb a timer_serial)

  -- `mobile_actions_process`, on the flags below the first three
  unfoldable pub process_rest : Adapter W → Action → Adapter W
  process_rest a acts =
      if acts.reset_serial
      then restart_serial (cb_serial_disable cb a)
      else if acts.change_32bit_mode
      then (if is_waiting a.serial.state
          then cb_serial_enable cb (mode_32bit_change (cb_serial_disable cb a))
          else a)
      else if acts.write_config
      then config_save cb a
      else if acts.init_number
      then number_fetch_handle a
      else a

module _ {W : Type 0} (cb : Callback W) (env : Build) where
  -- The action PROCESS_COMMAND; `none` hangs.
  unfoldable pub process_packet : Adapter W → Option (Adapter W)
  process_packet a =
      if is_response_waiting a.serial.state
      then elim (command_handle cb env a) [
        | none ↦ none
        | some (sent, a') ↦ some (if sent then put_serial_state a' response_init else a')
      ]
      else some a

  -- `mobile_actions_process`
  unfoldable pub actions_process : Adapter W → Action → Option (Adapter W)
  actions_process a acts =
      let a0 = cb_serial_disable cb a in
      if acts.drop_connection && a.commands.session_started
      then some (restart_serial cb (mobile_reset cb a0))
      else if acts.reset && not a.commands.session_started
      then some (restart_serial cb (record a0 { global = record a0.global { active = false } }))
      else if acts.process_command
      then process_packet a
      else some (process_rest cb a acts)

  -- `mobile_loop`
  unfoldable pub mobile_loop : Adapter W → Option (Adapter W)
  mobile_loop a = let (acts, a') = actions_get cb a in actions_process a' acts

module _ {W : Type 0} (cb : Callback W) where
  unfoldable pub mobile_start : Adapter W → Adapter W
  mobile_start a =
      let a1 = if a.config.loaded then a else config_load cb a in
      let a2 = record a1 { global = record a1.global { start = true } } in
      if a.global.start then a else restart_serial cb a2

  unfoldable pub mobile_stop : Adapter W → Adapter W
  mobile_stop a =
      let a1 = cb_serial_disable cb a in
      let a2 = record a1 { global = record a1.global { start = false } } in
      if a.global.start then config_save cb (mobile_reset cb a2) else a
