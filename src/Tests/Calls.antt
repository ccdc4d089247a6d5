-- ===== src/Tests/Calls.antt =====
-- Runs of the handlers, and of stopping.
use libmobile.Sockets.Ledger.{Idle, Ledger, audited, AnswerAccounted}
use libmobile.Adapter.{Adapter, Callback}
use libmobile.Sockets.Tel.{AfterTel, Settled, command_tel-AfterTel}
use libmobile.Serial.Types.{init}
use libmobile.Prelude.{
  [], arith, false, length, refl, replicate, true, ◌≡◌, if◌then◌else◌, ltb, none, not, some, ◌+◌,
}
use libmobile.Commands.Session.{command_end, command_start, command_reinit}
use libmobile.Sockets.Session.{command_end-Idle}
use libmobile.Commands.Tel.{command_tel}
use libmobile.Sockets.Connect.{AfterConnect, command_tcp_connect-AfterConnect}
use libmobile.Commands.Confined.{
  AgreeOnReads, AgreeOnWrites, command_eeprom_read-confined, command_eeprom_write-confined,
}
use libmobile.Commands.Transfer.{command_data}
use libmobile.Sockets.Transfer.{command_data-Accounted}
use libmobile.Commands.Query.{command_eeprom_read, command_eeprom_write}
use libmobile.Commands.Internet.{command_tcp_connect}
use libmobile.Commands.WaitCall.{command_wait_call}
use libmobile.Sockets.WaitCall.{command_wait_call-Settled}
use libmobile.Commands.Process.{commands_process}
use libmobile.Commands.Base.{Answer}
use libmobile.Mobile.Loop.{mobile_stop}
use libmobile.Mobile.Stopping.{mobile_stop-Idle}
use libmobile.Sockets.Start.{InOrder, command_start-InOrder, command_reinit-InOrder}
use libmobile.Tests.Samples.{
  listening-Accounted, listening-Settled, listening_adapter, online-Accounted, online_adapter,
  program,
}
use libmobile.Sockets.Prompt.{commands_process-Replied, Replied}

command_end-Idle_example :
    let a' =
      (command_end (audited program) listening_adapter (record { command = 0x11; length = 0 })).1 in
    Idle a' × (a'.user.opened 0 ≡ false) × (a'.commands.session_started ≡ false)
command_end-Idle_example =
    command_end-Idle program listening_adapter (record { command = 0x11; length = 0 })
      listening-Accounted

command_tel-AfterTel_example :
    AfterTel
      (command_tel (audited program) listening_adapter (record { command = 0x12; length = 13 }))
command_tel-AfterTel_example =
    command_tel-AfterTel program listening_adapter (record { command = 0x12; length = 13 })
      (λ e. listening-Settled) (λ e. absurd (e refl)) (omega arith)

command_wait_call-Settled_example :
    Settled
      (command_wait_call
        (audited program)
        listening_adapter
        (record { command = 0x14; length = 0 })).1
command_wait_call-Settled_example =
    command_wait_call-Settled program listening_adapter (record { command = 0x14; length = 0 })
      listening-Settled

command_data-Accounted_example :
    AnswerAccounted
      (command_data (audited program) online_adapter (record { command = 0x15; length = 3 }))
command_data-Accounted_example =
    command_data-Accounted program online_adapter (record { command = 0x15; length = 3 })
      online-Accounted

command_tcp_connect-AfterConnect_example :
    AfterConnect
      (command_tcp_connect (audited program) online_adapter (record { command = 0x23; length = 6 }))
command_tcp_connect-AfterConnect_example =
    command_tcp_connect-AfterConnect program online_adapter (record { command = 0x23; length = 6 })
      (λ e. online-Accounted) (λ e. absurd (e refl)) (omega arith) (omega arith)

mobile_stop-Idle_example :
    let a' = mobile_stop (audited program) listening_adapter in
    Idle a'
    × (a'.commands.session_started ≡ false)
    × (a'.serial.state ≡ init)
    × (a'.config.dirty ≡ false)
mobile_stop-Idle_example =
    mobile_stop-Idle program listening_adapter refl (λ e. listening-Accounted) (λ e. ground arith)

-- A program that stores nothing outside the game's part
abbrev small_program : Callback (Ledger Unit)
small_program = record (audited program) {
  config_read = λ w offset size.
      if ltb 0x100 (offset + size) then (false, [], w) else (true, replicate size 0, w);
  config_write = λ w src offset. (not (ltb 0x100 (offset + length src)), w);
}

reads_agree : AgreeOnReads (audited program) small_program
reads_agree w offset size h k = ground arith

writes_agree : AgreeOnWrites (audited program) small_program
writes_agree w src offset h k = ground arith

command_eeprom_read-confined_example :
    command_eeprom_read (audited program) listening_adapter (record { command = 0x19; length = 2 })
    ≡ command_eeprom_read small_program listening_adapter (record { command = 0x19; length = 2 })
command_eeprom_read-confined_example =
    command_eeprom_read-confined (audited program) small_program listening_adapter
      (record { command = 0x19; length = 2 }) reads_agree

command_eeprom_write-confined_example :
    command_eeprom_write (audited program) listening_adapter (record { command = 0x1a; length = 3 })
    ≡ command_eeprom_write small_program listening_adapter (record { command = 0x1a; length = 3 })
command_eeprom_write-confined_example =
    command_eeprom_write-confined (audited program) small_program listening_adapter
      (record { command = 0x1a; length = 3 }) writes_agree

-- An adapter whose session has not begun, and which is fetching its number
abbrev pub fetching_adapter : Adapter (Ledger Unit)
fetching_adapter = record listening_adapter {
  commands = record listening_adapter.commands { session_started = false };
  global = record listening_adapter.global { number_fetch_active = true };
}

fetching-InOrder : InOrder fetching_adapter
fetching-InOrder = ground arith

command_start-InOrder_example :
    InOrder
      (command_start (audited program) fetching_adapter (record { command = 0x10; length = 8 })).1
command_start-InOrder_example =
    command_start-InOrder program fetching_adapter (record { command = 0x10; length = 8 })
      fetching-InOrder

commands_process-Replied_example :
    (r : Answer (Ledger Unit)) × ((commands_process
          (audited program)
          (record { no32bit = false; pton = λ s. none; fuel = 9 })
          listening_adapter
          (record { command = 0x17; length = 0 })
        ≡ some r)
      × Replied r)
commands_process-Replied_example =
    commands_process-Replied program (record { no32bit = false; pton = λ s. none; fuel = 9 })
      listening_adapter (record { command = 0x17; length = 0 }) listening-Settled refl

command_reinit-InOrder_example :
    let a' =
      (command_reinit
        (audited program)
        listening_adapter
        (record { command = 0x16; length = 0 })).1 in
    InOrder a' × (a'.user.opened 0 ≡ false) × (a'.user.opened 1 ≡ false)
command_reinit-InOrder_example =
    command_reinit-InOrder program listening_adapter (record { command = 0x16; length = 0 })
      listening-Settled
