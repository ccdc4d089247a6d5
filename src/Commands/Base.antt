-- ===== src/Commands/Base.antt =====
-- commands.c: packets, replies and connection slots. A handler returns the packet to be sent, or
-- `none` where it returns NULL because it is not done. The packet's data are the serial buffer.
use libmobile.Adapter.{
  Adapter, ConnectionState, Packet, call, call_isp, call_recv, internet, max_connections,
}
use libmobile.Prelude.{
  Bool, List, Option, [], copy, false, get_or, if◌then◌else◌, none, set, some, suc, true, u8, zero,
  ℕ, ◌+◌, ◌==◌, ◌∷◌,
}

abbrev pub command_error : ℕ
command_error = 0x6e

abbrev pub Answer : Type 0 → Type 0
Answer W = Option Packet × Adapter W

module _ {W : Type 0} where
  -- `packet->data[i]`
  abbrev pub data_at : Adapter W → ℕ → ℕ
  data_at a i = get_or a.serial.buffer i 0

  -- `memcpy(packet->data + i, bytes, ...)`
  abbrev pub put_data : Adapter W → ℕ → List ℕ → Adapter W
  put_data a i bytes = record a {
    serial = record a.serial { buffer = copy a.serial.buffer i bytes };
  }

  abbrev pub put_state : Adapter W → ConnectionState → Adapter W
  put_state a state = record a { commands = record a.commands { state = state } }

  -- `s->connections[conn] = open`
  abbrev pub put_connection : Adapter W → ℕ → Bool → Adapter W
  put_connection a conn open' = record a {
    commands = record a.commands {
      connections = λ j. if j == conn then open' else a.commands.connections j;
    };
  }

  abbrev pub put_processing : Adapter W → ℕ → Adapter W
  put_processing a step = record a {
    buffer_commands = record a.buffer_commands { processing = step };
  }

  abbrev pub put_processing_data : Adapter W → ℕ → ℕ → Adapter W
  put_processing_data a i v = record a {
    buffer_commands = record a.buffer_commands {
      processing_data = set a.buffer_commands.processing_data i v;
    };
  }

  -- `return packet;` after `packet->length = n`
  abbrev pub reply : Packet → ℕ → Adapter W → Answer W
  reply p n a = (some (record p { length = n }), a)

  unfoldable pub error_packet : Packet → ℕ → Adapter W → Answer W
  error_packet p error a = (
    some (record { command = command_error; length = 2 }),
    put_data a 0 (u8 p.command ∷ error ∷ []),
  )

  -- `connection_new`, from slot `conn` on, with `n` slots left to look at
  unfoldable pub connection_from : ℕ → ℕ → Adapter W → Option ℕ
  connection_from zero conn a = none
  connection_from (suc n) conn a =
      let rest = connection_from n (conn + 1) a in
      if a.commands.connections conn then rest else some conn

  unfoldable pub connection_new : Adapter W → Option ℕ
  unfolding connection_from
  connection_new a = connection_from max_connections 0 a

unfoldable pub in_call : ConnectionState → Bool
in_call call = true
in_call call_recv = true
in_call call_isp = true
in_call _ = false

unfoldable pub is_internet : ConnectionState → Bool
is_internet internet = true
is_internet _ = false
