-- ===== src/Whole/Sound.antt =====
-- mobile.c: what holds of the adapter between two calls of the embedding program.
use libmobile.Sockets.Ledger.{Accounted, Idle, Ledger, audited}
use libmobile.Mobile.Actions.{Action, actions_get, is_response_waiting, late_if, note_activity}
use libmobile.Adapter.{Adapter, Callback, timer_serial}
use libmobile.Prelude.{Bool-cases, arith, false, inl, inr, length, true, ◌<◌, ◌≡◌}
use libmobile.Whole.Pending.{Pending}
use libmobile.Sockets.Tel.{Settled}
use libmobile.Callback.{cb_time_check_ms, cb_time_latch}
use libmobile.Serial.Types.{response_waiting}

module _ {W : Type 0} where
  pub record Sound (a : Adapter (Ledger W)) : Type 0 where
    pub room : 0 < length a.buffer_commands.processing_data
    pub in_use : a.commands.session_started ≡ true → a.global.active ≡ true
    pub free : a.commands.session_started ≡ true → a.global.packet_parsed ≡ false → Settled a
    pub busy :
        a.commands.session_started ≡ true
        → a.global.packet_parsed ≡ true
        → Pending a.buffer_commands.packet.command a.buffer_commands.processing a
    pub outside : a.commands.session_started ≡ false → Idle a
    pub heard :
        a.commands.session_started ≡ false
        → a.serial.state ≡ response_waiting
        → a.serial.active ≡ true

  -- The same once the actions of a round have been chosen.
  pub record Chosen (acts : Action) (a : Adapter (Ledger W)) : Type 0 where
    pub room : 0 < length a.buffer_commands.processing_data
    pub in_use : a.commands.session_started ≡ true → a.global.active ≡ true
    pub free : a.commands.session_started ≡ true → a.global.packet_parsed ≡ false → Settled a
    pub busy :
        a.commands.session_started ≡ true
        → a.global.packet_parsed ≡ true
        → Pending a.buffer_commands.packet.command a.buffer_commands.processing a
    pub outside : a.commands.session_started ≡ false → Idle a
    pub now_in_use :
        a.commands.session_started ≡ false
        → a.serial.state ≡ response_waiting
        → a.global.active ≡ true
    pub no_reset :
        a.commands.session_started ≡ false → a.serial.state ≡ response_waiting → acts.reset ≡ false
    pub processes : a.serial.state ≡ response_waiting → acts.process_command ≡ true
    pub fetches : acts.init_number ≡ true → a.commands.session_started ≡ false

  -- Between two calls, whatever goes on, the sockets of a session are accounted for.
  pub session-Accounted :
      (a : Adapter (Ledger W))
      → (a.commands.session_started ≡ true → a.global.packet_parsed ≡ false → Settled a)
      → (a.commands.session_started ≡ true
          → a.global.packet_parsed ≡ true
          → Pending a.buffer_commands.packet.command a.buffer_commands.processing a)
      → a.commands.session_started ≡ true
      → Accounted a
  session-Accounted a f b o = elim (Bool-cases a.global.packet_parsed) [
    | inl e ↦ (b o e).account
    | inr e ↦ (f o e).account
  ]

  pub Sound-proper : (a : Adapter (Ledger W)) → Sound a → a.user.proper ≡ true
  Sound-proper a s = elim (Bool-cases a.commands.session_started) [
    | inl e ↦ (session-Accounted a s.free s.busy e).was_proper
    | inr e ↦ (s.outside e).was_proper
  ]

-- The serial timer has not run for three seconds at the moment at which it is latched.
abbrev pub IsTimely : {W : Type 0} → Callback W → Type 0
IsTimely {W} cb =
    (w : W) → (cb.time_check_ms (cb.time_latch w timer_serial) timer_serial 3000).0 ≡ false

module _ {W : Type 0} (cb : Callback W) where
  pub actions_get-Chosen :
      (a : Adapter (Ledger W))
      → IsTimely cb
      → a.global.start ≡ true
      → Sound a
      → let (acts, a') = actions_get (audited cb) a in Chosen acts a'
  unfolding actions_get note_activity late_if cb_time_latch cb_time_check_ms is_response_waiting
  actions_get-Chosen a t r s =
      let fresh = t a.user.inner in let account = session-Accounted a s.free s.busy in ground arith
