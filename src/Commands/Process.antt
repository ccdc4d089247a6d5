-- ===== src/Commands/Process.antt =====
-- commands.c: `mobile_commands_process`, the table of the commands.
use libmobile.Adapter.{Adapter, Callback, Packet}
use libmobile.Commands.Base.{Answer, error_packet}
use libmobile.Prelude.{Bool, List, Option, if◌then◌else◌, some, ℕ, ◌==◌}
use libmobile.Commands.Query.{
  command_change_clock, command_check_status, command_eeprom_read, command_eeprom_write,
}
use libmobile.Commands.Transfer.{command_data}
use libmobile.Commands.Lookup.{command_dns_request}
use libmobile.Commands.Session.{
  command_end, command_offline, command_ppp_disconnect, command_reinit, command_start,
}
use libmobile.Commands.Internet.{command_ppp_connect, command_tcp_connect, command_tcp_disconnect}
use libmobile.Commands.Tel.{command_tel}
use libmobile.Commands.WaitCall.{command_wait_call}

-- What the build and the C library bring: whether MOBILE_ENABLE_NO32BIT is defined, the parser of
-- IPv4 addresses, and the rounds that a loop over a name in a DNS response may take.
pub record Build : Type 0 where
  pub no32bit : Bool
  pub pton : List ℕ → Option (List ℕ)
  pub fuel : ℕ

module _ {W : Type 0} (cb : Callback W) (env : Build) where
  -- Commands 0x21 and above
  unfoldable pub process_internet : Adapter W → Packet → Option (Answer W)
  process_internet a p =
      let c = p.command in
      if c == 0x21
      then some (command_ppp_connect a p)
      else if c == 0x22
      then some (command_ppp_disconnect cb a p)
      else if c == 0x23
      then some (command_tcp_connect cb a p)
      else if c == 0x24
      then some (command_tcp_disconnect cb a p)
      else if c == 0x28
      then command_dns_request cb env.pton env.fuel a p
      else some (error_packet p 1 a)

  -- `mobile_commands_process`; `none` hangs. 0x25, 0x26 and 0x3f have no implementation: like the
  -- commands that do not exist they end in error 1.
  unfoldable pub commands_process : Adapter W → Packet → Option (Answer W)
  commands_process a p =
      let c = p.command in
      if c == 0x10
      then some (command_start cb a p)
      else if c == 0x11
      then some (command_end cb a p)
      else if c == 0x12
      then some (command_tel cb a p)
      else if c == 0x13
      then some (command_offline cb a p)
      else if c == 0x14
      then some (command_wait_call cb a p)
      else if c == 0x15
      then some (command_data cb a p)
      else if c == 0x16
      then some (command_reinit cb a p)
      else if c == 0x17
      then some (command_check_status a p)
      else if c == 0x18
      then some (command_change_clock env.no32bit a p)
      else if c == 0x19
      then some (command_eeprom_read cb a p)
      else if c == 0x1a
      then some (command_eeprom_write cb a p)
      else process_internet a p
