-- ===== src/Tests/Serial.antt =====
-- Runs of the serial state machine on packets.
use libmobile.Serial.Types.{
  AdapterSerial, BufferSerial, Link, SerialState, idle_byte, response_acknowledge, checksum_recv,
  data_recv, error_unknown_command, header_recv, acknowledge, error_checksum,
}
use libmobile.Serial.Bounds.{IsValid, ReplyValid}
use libmobile.Prelude.{
  [], arith, bit_or, false, refl, replicate, true, ◌++◌, ◌∷◌, ◌≡◌, get_or, if◌then◌else◌, take,
  ◌==◌, set,
}
use libmobile.Serial.Packet.{heard, receive_packet, wire}
use libmobile.Serial.Transfer.{transfer_all, serial_transfer}
use libmobile.Serial.Safety.{InBounds, serial_transfer-IsValid, transfer_all-InBounds}
use libmobile.Serial.Response.{send_packet}
use libmobile.Serial.Incoming.{commands_exists}
use libmobile.Serial.Turns.{header_done-goes_on}
use libmobile.Mobile.Handle.{packet_create}
use libmobile.Mobile.Loopback.{packet_create-heard}
use libmobile.Serial.Diagram.{Follows, transfer_all-Follows}
use libmobile.Serial.Damage.{receive_packet-damaged}

abbrev link_off : Link
link_off = record { session_started = false; device = 8 }

abbrev idle_serial : AdapterSerial
idle_serial = record {
  state = SerialState.waiting;
  active = false;
  buffer = replicate 255 0;
  mode_32bit = true;
  device_unmetered = false;
  device = 8;
}

abbrev idle_buffer : BufferSerial
idle_buffer = record {
  error = 0;
  current = 0;
  data_size = 0;
  checksum = 0;
  header = 0 ∷ 0 ∷ 0 ∷ 0 ∷ [];
  footer = 0 ∷ 0 ∷ [];
}

idle-IsValid : IsValid idle_serial idle_buffer
idle-IsValid = ground arith

-- A packet of command 0x10 with the first two letters of its key
receive_packet_example :
    let (s', b') = heard link_off idle_serial idle_buffer 0x10 0 0 (0x4e ∷ 0x49 ∷ []) 0x00 0xa9 in
    transfer_all link_off idle_serial idle_buffer
      (wire 0x10 0 0 (0x4e ∷ 0x49 ∷ []) (0 ∷ 0 ∷ []) 0x00 0xa9)
    ≡ (
      s',
      b',
      replicate 6 idle_byte
          ++ ((replicate 2 idle_byte ++ replicate 2 idle_byte)
              ++ (idle_byte ∷ bit_or s'.device 0x80 ∷ [])),
    )
receive_packet_example =
    receive_packet link_off idle_serial idle_buffer 0x10 0 0 (0x4e ∷ 0x49 ∷ []) (0 ∷ 0 ∷ []) 0x00
      0xa9 idle-IsValid refl (omega arith) refl

serial_transfer-IsValid_example : ReplyValid (serial_transfer link_off idle_serial idle_buffer 0x99)
serial_transfer-IsValid_example =
    serial_transfer-IsValid link_off idle_serial idle_buffer 0x99 idle-IsValid (omega arith)

transfer_all-InBounds_example :
    let (s', b', out) = transfer_all link_off idle_serial idle_buffer (0x99 ∷ 0x66 ∷ 0x10 ∷ []) in
    InBounds s' b'
transfer_all-InBounds_example =
    transfer_all-InBounds link_off idle_serial idle_buffer (0x99 ∷ 0x66 ∷ 0x10 ∷ []) idle-IsValid
      (ground arith)

-- The answer to the session's start: one byte of payload
abbrev ready_serial : AdapterSerial
ready_serial = record idle_serial {
  state = SerialState.response_init;
  buffer = 0x4e ∷ replicate 254 0;
}

abbrev ready_buffer : BufferSerial
ready_buffer = record idle_buffer { header = 0x90 ∷ 0 ∷ 0 ∷ 1 ∷ []; footer = 0x00 ∷ 0xdf ∷ [] }

send_packet_example :
    transfer_all link_off ready_serial ready_buffer (
      (0x4b ∷ 0x4b ∷ [])
      ++ ((0x4b ∷ 0x4b ∷ 0x4b ∷ 0x4b ∷ [])
          ++ (((0x4b ∷ []) ++ (0x4b ∷ 0x4b ∷ 0x4b ∷ [])) ++ (0x4b ∷ 0x4b ∷ []))))
    ≡ (
      record ready_serial { state = response_acknowledge },
      record ready_buffer { data_size = 1; error = 0; current = 0 },
      wire 0x90 0 0 (0x4e ∷ []) (replicate 3 0) 0x00 0xdf,
    )
send_packet_example =
    send_packet link_off ready_serial ready_buffer 0x90 0 0 0x00 0xdf (0x4e ∷ []) (replicate 254 0)
      0x4b 0x4b 0x4b 0x4b 0x4b 0x4b 0x4b 0x4b (0x4b ∷ []) (0x4b ∷ 0x4b ∷ 0x4b ∷ []) refl refl refl
      refl (omega arith) refl refl

-- The last byte of a header with a size above 255, outside a session
abbrev long_header : BufferSerial
long_header = record idle_buffer { current = 3; header = 0x12 ∷ 0 ∷ 1 ∷ 0 ∷ [] }

header_done-goes_on_example :
    let (s', b', d) =
      serial_transfer link_off (record idle_serial { state = header_recv }) long_header 2 in
    (s'.state ≡ (if b'.data_size == 0 then checksum_recv else data_recv)) × (b'.current ≡ 0)
header_done-goes_on_example =
    header_done-goes_on link_off (record idle_serial { state = header_recv }) long_header 2 refl
      refl

-- The answer to the session's start, sent to an adapter that waits
packet_create-heard_example :
    let made = packet_create ready_serial ready_buffer (record { command = 0x10; length = 1 }) in
    let h0 = get_or made.header 0 0 in
    let (r', rb', out) = transfer_all link_off idle_serial idle_buffer (
      wire h0 0 0 (0x4e ∷ []) (0 ∷ 0 ∷ 0 ∷ []) (get_or made.footer 0 0) (get_or made.footer 1 0)) in
    (rb'.header ≡ made.header)
    × (take 1 r'.buffer ≡ 0x4e ∷ [])
    × (rb'.error ≡ (if commands_exists h0 then 0 else error_unknown_command))
packet_create-heard_example =
    packet_create-heard ready_serial ready_buffer (record { command = 0x10; length = 1 })
      (0x4e ∷ []) (replicate 254 0) (0 ∷ 0 ∷ 0 ∷ []) link_off idle_serial idle_buffer refl refl
      (omega arith) idle-IsValid refl refl

transfer_all-Follows_example : Follows link_off idle_serial idle_buffer (0x99 ∷ 0x66 ∷ 0x10 ∷ [])
transfer_all-Follows_example =
    transfer_all-Follows link_off idle_serial idle_buffer (0x99 ∷ 0x66 ∷ 0x10 ∷ [])

receive_packet-damaged_example :
    let (s', b', out) =
      transfer_all link_off idle_serial idle_buffer
        (wire 0x10 0 0 (set (0x4e ∷ 0x49 ∷ []) 1 0x59) (0 ∷ 0 ∷ []) 0x00 0xa9) in
    (s'.state ≡ acknowledge) × (b'.error ≡ error_checksum)
receive_packet-damaged_example =
    receive_packet-damaged link_off idle_serial idle_buffer 0x10 0 0 (0x4e ∷ 0x49 ∷ []) (0 ∷ 0 ∷ [])
      0x00 0xa9 1 0x59 idle-IsValid refl (omega arith) refl refl (omega arith) (omega arith)
      (omega arith) (λ e. absurd (omega arith))
