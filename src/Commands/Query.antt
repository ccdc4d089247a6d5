-- ===== src/Commands/Query.antt =====
-- commands.c: the status, the serial mode, and the part of the configuration that the game sees.
use libmobile.Adapter.{
  Adapter, Callback, ConnectionState, Packet, call, call_isp, call_recv, internet,
}
use libmobile.Commands.Base.{Answer, data_at, error_packet, put_data, reply}
use libmobile.Prelude.{
  Bool, [], drop, false, if◌then◌else◌, ltb, not, take, ℕ, ◌&&◌, ◌+◌, ◌-◌, ◌==◌, ◌||◌, ◌∷◌,
}
use libmobile.Callback.{cb_config_read, cb_config_write}

-- MOBILE_CONFIG_SIZE_REAL, and the largest chunk of one command
abbrev pub config_size_real : ℕ
config_size_real = 0x100

abbrev pub command_reinit_code : ℕ
command_reinit_code = 0x16

abbrev pub max_chunk : ℕ
max_chunk = 0x80

unfoldable pub status_of : ConnectionState → ℕ
status_of call = 4
status_of call_isp = 4
status_of internet = 4
status_of call_recv = 5
status_of _ = 0

-- MOBILE_ADAPTER_RED and MOBILE_ADAPTER_YELLOW, or any other
unfoldable pub status_device : ℕ → ℕ
status_device device = if device == 11 || device == 9 then 0x48 else 0x4d

module _ {W : Type 0} where
  unfoldable pub command_check_status : Adapter W → Packet → Answer W
  command_check_status a p = reply p 3 (
      put_data a 0 (
        status_of a.commands.state
        ∷ status_device a.serial.device
        ∷ (if a.serial.device_unmetered then 0xf0 else 0x00)
        ∷ []))

  -- `no32bit` is whether MOBILE_ENABLE_NO32BIT is defined in the build.
  unfoldable pub command_change_clock : Bool → Adapter W → Packet → Answer W
  command_change_clock no32bit a p =
      if ltb p.length 1
      then error_packet p 2 a
      else if not (data_at a 0 == 0) && not (data_at a 0 == 1)
      then error_packet p 2 a
      else if no32bit
      then reply (record p { command = command_reinit_code }) 0
          (record a { commands = record a.commands { mode_32bit = false } })
      else reply p 0 (record a { commands = record a.commands { mode_32bit = data_at a 0 == 1 } })

module _ {W : Type 0} (cb : Callback W) where
  unfoldable pub command_eeprom_read : Adapter W → Packet → Answer W
  command_eeprom_read a p =
      let offset = data_at a 0 in
      let size = data_at a 1 in
      if ltb p.length 2
      then error_packet p 2 a
      else if ltb max_chunk size
      then error_packet p 2 a
      else if ltb config_size_real (offset + size)
      then error_packet p 2 a
      else if size == 0
      then reply p (size + 1) a
      else (let (ok, bytes, a') = cb_config_read cb a offset size in
          let a2 = put_data a' 1 bytes in
          if ok then reply p (size + 1) a2 else error_packet (record p { length = size + 1 }) 0 a2)

  unfoldable pub command_eeprom_write : Adapter W → Packet → Answer W
  command_eeprom_write a p =
      let offset = data_at a 0 in
      let size = p.length - 1 in
      if ltb p.length 1
      then error_packet p 2 a
      else if ltb max_chunk size
      then error_packet p 2 a
      else if ltb config_size_real (offset + size)
      then error_packet p 2 a
      else if size == 0
      then reply p 2 (put_data a 1 (size ∷ []))
      else (let (ok, a') = cb_config_write cb a (take size (drop 1 a.serial.buffer)) offset in
          if ok then reply p 2 (put_data a' 1 (size ∷ [])) else error_packet p 0 a')
