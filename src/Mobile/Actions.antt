-- ===== src/Mobile/Actions.antt =====
-- mobile.c: what the adapter has to do next. The flags of `enum mobile_action` are the fields.
use libmobile.Adapter.{Adapter, Callback, addrtype_none, timer_serial}
use libmobile.Prelude.{Bool, drop, false, if◌then◌else◌, not, true, ℕ, ◌&&◌, ◌==◌, ◌||◌}
use libmobile.Serial.Types.{SerialState, response_waiting, waiting}
use libmobile.Callback.{cb_time_check_ms, cb_time_latch}

pub record Action : Type 0 where
  pub process_command : Bool
  pub drop_connection : Bool
  pub reset : Bool
  pub reset_serial : Bool
  pub change_32bit_mode : Bool
  pub write_config : Bool
  pub init_number : Bool

abbrev pub no_action : Action
no_action = record {
  process_command = false;
  drop_connection = false;
  reset = false;
  reset_serial = false;
  change_32bit_mode = false;
  write_config = false;
  init_number = false;
}

unfoldable pub is_response_waiting : SerialState → Bool
is_response_waiting response_waiting = true
is_response_waiting _ = false

unfoldable pub is_waiting : SerialState → Bool
is_waiting waiting = true
is_waiting _ = false

-- `commands.mode_32bit != serial.mode_32bit`
unfoldable pub differ : Bool → Bool → Bool
differ true y = not y
differ false y = y

module _ {W : Type 0} (cb : Callback W) where
  -- The block that latches the timer, if the serial has been active.
  unfoldable pub note_activity : Adapter W → Adapter W
  note_activity a =
      if a.serial.active
      then cb_time_latch cb
          (record a {
            serial = record a.serial { active = false };
            global = record a.global { active = true };
          })
          timer_serial
      else a

  -- `test && mobile_cb_time_check_ms(...)`
  unfoldable pub late_if : Bool → Adapter W → ℕ → Bool × Adapter W
  late_if test a ms = if test then cb_time_check_ms cb a timer_serial ms else (false, a)

  -- `mobile_actions_get`
  unfoldable pub actions_get : Adapter W → Action × Adapter W
  actions_get a =
      let a1 = note_activity a in
      let started = a1.commands.session_started in
      let (drop, a2) = late_if started a1 3000 in
      let (reset, a3) = late_if (a2.global.active && not started) a2 3000 in
      let (resync, a4) = late_if (not a3.global.active && not started) a3 500 in
      if not a.global.start then (no_action, a) else (
        record {
          drop_connection = drop;
          reset = reset;
          process_command = is_response_waiting a4.serial.state;
          reset_serial = resync;
          change_32bit_mode =
              is_waiting a4.serial.state && differ a4.commands.mode_32bit a4.serial.mode_32bit;
          write_config = a4.config.dirty;
          init_number =
              a4.global.number_fetch_active
              || (not a4.global.active
                  && (not (a4.global.number_fetch_retries == 0)
                      && not (a4.config.relay.type == addrtype_none)));
        },
        a4,
      )
