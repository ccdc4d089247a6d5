-- ===== src/Serial/Outgoing.antt =====
-- serial.c: the states that send the response.
use libmobile.Serial.Types.{
  AdapterSerial, BufferSerial, Reply, after_data, error_checksum, error_internal,
  error_unknown_command, footer_size, header_size, idle_byte, next, response_acknowledge,
  response_checksum, response_data, response_data_pad, response_header, response_start, waiting,
}
use libmobile.Prelude.{[], bit_or, get_or, if◌then◌else◌, ltb, one_of, ℕ, ◌&&◌, ◌==◌, ◌∷◌}

unfoldable pub on_response_start : AdapterSerial → BufferSerial → Reply
on_response_start s b =
    if b.current == 0 then (s, record b { current = next b.current }, 0x99) else (
      record s { state = response_header },
      record b { data_size = get_or b.header 3 0; error = 0; current = 0 },
      0x66,
    )

unfoldable pub on_response_header : AdapterSerial → BufferSerial → Reply
on_response_header s b =
    let c = get_or b.header b.current 0 in
    let b' = record b { current = next b.current } in
    if ltb b'.current header_size then (s, b', c) else (
      record s { state = if b'.data_size == 0 then response_checksum else response_data },
      record b' { current = 0 },
      c,
    )

unfoldable pub on_response_data : AdapterSerial → BufferSerial → Reply
unfolding after_data
on_response_data s b =
    let c = get_or s.buffer b.current 0 in
    let (s', b') =
      after_data response_data_pad response_checksum s (record b { current = next b.current }) in
    (s', b', c)

unfoldable pub on_response_checksum : AdapterSerial → BufferSerial → Reply
on_response_checksum s b =
    let c = get_or b.footer b.current 0 in
    let b' = record b { current = next b.current } in
    if ltb b'.current footer_size
    then (s, b', c)
    else (record s { state = response_acknowledge }, record b' { current = 0 }, c)

-- What follows the three `if`s on `b->current`.
unfoldable pub acknowledge_end : AdapterSerial → BufferSerial → Reply
acknowledge_end s b =
    if s.mode_32bit && ltb b.current 4
    then (s, record b { current = next b.current }, 0)
    else if one_of b.error (error_unknown_command ∷ error_checksum ∷ error_internal ∷ [])
    then (record s { state = response_start }, record b { current = 0 }, idle_byte)
    else (record s { state = waiting }, record b { current = 0 }, idle_byte)

unfoldable pub on_response_acknowledge : AdapterSerial → BufferSerial → ℕ → Reply
unfolding acknowledge_end
on_response_acknowledge s b c =
    if b.current == 0
    then (s, record b { current = next b.current }, bit_or s.device 0x80)
    else if b.current == 1
    then (s, record b { current = next b.current }, 0)
    else acknowledge_end s (if b.current == 2 then record b { error = c } else b)
