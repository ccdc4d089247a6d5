-- ===== src/Tests/Whole.antt =====
-- The adapter as a whole on concrete runs.
use libmobile.Adapter.{Adapter, addrtype_ipv4, wait}
use libmobile.Commands.Process.{Build}
use libmobile.Whole.Fetch.{FetchOpens, number_fetch_handle-Idle}
use libmobile.Whole.Sound.{IsTimely, Sound}
use libmobile.Sockets.Ledger.{Ledger, audited, Idle}
use libmobile.Prelude.{
  Option, arith, false, none, refl, replicate, some, true, ◌≡◌, IfSome, [], ◌∷◌,
}
use libmobile.Whole.Process.{StartsFirst}
use libmobile.Mobile.Actions.{actions_get, is_response_waiting, late_if, note_activity}
use libmobile.Callback.{
  cb_sock_open, cb_config_read, cb_config_write, cb_serial_enable, cb_time_latch, cb_time_check_ms,
}
use libmobile.Tests.Samples.{
  listening_adapter, program, listening-Settled, online-Accounted, online_adapter,
}
use libmobile.Mobile.Loop.{
  mobile_init, mobile_loop, mobile_start, actions_process, process_rest, number_fetch_handle,
}
use libmobile.Serial.Incoming.{serial_init}
use libmobile.Whole.Step.{Reach-proper, Reach, Step}
use libmobile.Config.Settings.{
  config_init, config_load, internal_clear, internal_verify, load_library,
}
use libmobile.Serial.Types.{init}
use libmobile.Sockets.Lookup.{AfterLookup, command_dns_request-AfterLookup}
use libmobile.Sockets.Frame.{Frame}
use libmobile.Sockets.Tel.{Settled}
use libmobile.Whole.Turn.{Turn}
use libmobile.Commands.Lookup.{command_dns_request}
use libmobile.Mobile.Handle.{command_handle, take_packet}
use libmobile.Whole.Refine.{command_handle-Turn}
use libmobile.Tests.Calls.{fetching_adapter}

abbrev env : Build
env = record { no32bit = false; pton = λ s. none; fuel = 9 }

-- An adapter that has not been initialised, with a relay server
abbrev new_adapter : Adapter (Ledger Unit)
new_adapter = record listening_adapter {
  user = record { inner = tt; opened = λ j. false; proper = true };
  config = record listening_adapter.config {
    relay = record { type = addrtype_ipv4; port = 31227; host = replicate 16 127 };
  };
}

abbrev started_adapter : Adapter (Ledger Unit)
started_adapter = mobile_start (audited program) (mobile_init new_adapter)

-- A round that begins to fetch the number
abbrev round : Option (Adapter (Ledger Unit))
round = mobile_loop (audited program) env started_adapter

timely : IsTimely program
timely w = refl

begins : started_adapter.serial.state ≡ init
unfolding mobile_start mobile_init serial_init config_init config_load cb_serial_enable
    cb_time_latch load_library internal_verify internal_clear cb_config_read cb_config_write
begins = refl

not_waiting : StartsFirst started_adapter
not_waiting e w = let now = begins in absurd (ground arith)

opens :
    let (acts, a') = actions_get (audited program) started_adapter in
    acts.init_number ≡ true → FetchOpens program a'
unfolding cb_sock_open
opens e f = refl

-- What the round leaves behind
abbrev fetching : Adapter (Ledger Unit)
fetching = elim round [ none ↦ started_adapter | some b ↦ b ]

round_ends : round ≡ some fetching
unfolding mobile_loop actions_get actions_process process_rest mobile_start mobile_init
    cb_serial_enable cb_time_latch late_if note_activity config_init config_load load_library
    internal_verify internal_clear serial_init is_response_waiting cb_time_check_ms
round_ends = refl

Reach-proper_example :
    (fetching.user.proper ≡ true)
    × (fetching.commands.session_started ≡ true
        → (fetching.user.opened 0 ≡ fetching.commands.connections 0)
          × (fetching.user.opened 1 ≡ fetching.commands.connections 1))
    × (fetching.commands.session_started ≡ false
        → (fetching.user.opened 0 ≡ fetching.global.number_fetch_active)
          × (fetching.user.opened 1 ≡ false))
Reach-proper_example =
    Reach-proper program env new_adapter fetching timely refl (λ j. refl) (omega arith)
      (Reach.next (Reach.next Reach.here (Step.start (mobile_init new_adapter)))
        (Step.loop started_adapter fetching not_waiting opens round_ends))

-- Within a session, with a call that is awaited, the game hangs up.
abbrev ready_adapter : Adapter (Ledger Unit)
ready_adapter = record listening_adapter {
  global = record listening_adapter.global { packet_parsed = false };
  buffer_serial = record listening_adapter.buffer_serial { header = 0x13 ∷ 0 ∷ 0 ∷ 0 ∷ [] };
}

ready-Sound : Sound ready_adapter
ready-Sound = record {
  room = omega arith;
  in_use = λ e. refl;
  free = λ e f. ready-Settled;
  busy = λ e f. absurd (ground arith);
  outside = λ e. absurd (ground arith);
  heard = λ e f. absurd (ground arith);
}
  where
    ready-Settled : Settled ready_adapter
    ready-Settled = ground (arith, listening-Settled)

command_handle-Turn_example :
    IfSome
      (λ x. Turn (take_packet ready_adapter).buffer_commands.packet.command wait x.1.commands.state)
      (command_handle (audited program) env ready_adapter)
command_handle-Turn_example = command_handle-Turn program env ready_adapter ready-Sound refl

fetching-Idle : Idle fetching_adapter
fetching-Idle = ground arith

number_fetch_handle-Idle_example :
    Idle (number_fetch_handle (audited program) fetching_adapter)
    × Frame fetching_adapter (number_fetch_handle (audited program) fetching_adapter)
number_fetch_handle-Idle_example =
    number_fetch_handle-Idle program fetching_adapter fetching-Idle (λ e. absurd (ground arith))

command_dns_request-AfterLookup_example : IfSome (AfterLookup online_adapter) (
    command_dns_request
      (audited program)
      (λ s. none)
      9
      online_adapter
      (record { command = 0x28; length = 3 }))
command_dns_request-AfterLookup_example =
    command_dns_request-AfterLookup program (λ s. none) 9 online_adapter
      (record { command = 0x28; length = 3 }) (λ e. online-Accounted) (λ e. absurd (e refl))
      (omega arith) (omega arith)
