-- ===== src/Mobile/Handle.antt =====
-- mobile.c: taking a packet from the serial state machine, and giving it the response.
use libmobile.Adapter.{Adapter, Callback, Packet}
use libmobile.Serial.Types.{AdapterSerial, BufferSerial}
use libmobile.Prelude.{
  Bool, Option, [], bit_or, false, get_or, if◌then◌else◌, none, some, sum, take, true, u8, ◌+◌, ◌/◌,
  ◌∷◌,
}
use libmobile.Commands.Process.{Build, commands_process}

-- `packet_parse`
unfoldable pub packet_parse : BufferSerial → Packet
packet_parse b = record { command = get_or b.header 0 0; length = get_or b.header 3 0 }

-- `packet_create`. The packet's data are the serial buffer, so `memmove` leaves it alone.
unfoldable pub packet_create : AdapterSerial → BufferSerial → Packet → BufferSerial
packet_create s b p =
    let header = bit_or p.command 0x80 ∷ 0 ∷ 0 ∷ p.length ∷ [] in
    let checksum = sum header + sum (take p.length s.buffer) in
    record b { header = header; footer = u8 (checksum / 256) ∷ u8 checksum ∷ [] }

module _ {W : Type 0} where
  -- The packet that `command_handle` works on, parsed if it has not been.
  unfoldable pub take_packet : Adapter W → Adapter W
  take_packet a = if a.global.packet_parsed then a else record a {
    buffer_commands = record a.buffer_commands {
      packet = packet_parse a.buffer_serial;
      processing = 0;
    };
    global = record a.global { packet_parsed = true };
  }

module _ {W : Type 0} (cb : Callback W) (env : Build) where
  -- `command_handle`; `none` hangs.
  unfoldable pub command_handle : Adapter W → Option (Bool × Adapter W)
  command_handle a =
      let a1 = take_packet a in
      elim (commands_process cb env a1 a1.buffer_commands.packet) [
        | none ↦ none
        | some (sent, a2) ↦ elim sent [
          | none ↦ some (false, a2)
          | some p ↦ some (
            true,
            record a2 {
              buffer_serial = packet_create a2.serial a2.buffer_serial p;
              global = record a2.global { packet_parsed = false };
            },
          )
        ]
      ]
