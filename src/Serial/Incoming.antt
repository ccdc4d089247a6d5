-- ===== src/Serial/Incoming.antt =====
-- serial.c: the states that receive a packet. A function that mutates `adapter->serial` (`s`) and
-- `adapter->buffer.serial` (`b`) returns both beside the byte that it sends.
use libmobile.Serial.Types.{
  AdapterSerial, BufferSerial, Link, Reply, acknowledge, acknowledge_pad, after_data, checksum_recv,
  null_command, start_command, data_pad, data_recv, device_blue, error_checksum,
  error_unknown_command, footer_size, header_size, idle_byte, idle_check, init, next, prev,
  response_waiting, waiting, header_recv,
}
use libmobile.Prelude.{
  Bool, [], bit_and, bit_or, bit_xor, false, get_or, if◌then◌else◌, ltb, not, one_of, set, u16, ℕ,
  ◌&&◌, ◌*◌, ◌+◌, ◌==◌, ◌||◌, ◌∷◌,
}

-- commands.c: the labels of `mobile_commands_exists`.
unfoldable pub commands_exists : ℕ → Bool
commands_exists c = one_of c (
    0x0f ∷ 0x10 ∷ 0x11 ∷ 0x12 ∷ 0x13 ∷ 0x14 ∷ 0x15 ∷ 0x16 ∷ 0x17 ∷ 0x18 ∷ 0x19 ∷ 0x1a ∷ 0x21 ∷ 0x22
    ∷ 0x23 ∷ 0x24 ∷ 0x25 ∷ 0x26 ∷ 0x28 ∷ 0x3f ∷ [])

unfoldable pub serial_init : AdapterSerial → AdapterSerial
serial_init s = record s { state = init; mode_32bit = false; active = false }

unfoldable pub on_waiting : AdapterSerial → BufferSerial → ℕ → Reply
on_waiting s b c =
    if c == 0x99
    then (s, record b { current = 1 }, idle_byte)
    else if c == 0x66 && b.current == 1
    then (
      record s { state = header_recv },
      record b { data_size = 0; checksum = 0; error = 0; current = 0 },
      idle_byte,
    )
    else (s, record b { current = 0 }, idle_byte)

-- `return b->error ? b->error : b->header[0] ^ 0x80`
unfoldable pub ack_byte : BufferSerial → ℕ
ack_byte b = if b.error == 0 then bit_xor (get_or b.header 0 0) 0x80 else b.error

-- `b->current = 0; s->state = MOBILE_SERIAL_WAITING;` under a test
unfoldable pub reset_if : Bool → AdapterSerial → BufferSerial → AdapterSerial × BufferSerial
reset_if test s b =
    if test then (record s { state = waiting }, record b { current = 0 }) else (s, b)

-- The block under `if (!adapter->commands.session_started)`.
unfoldable pub before_session : Link → AdapterSerial → BufferSerial → AdapterSerial × BufferSerial
unfolding reset_if
before_session l s b =
    if l.session_started
    then (s, b)
    else (let (s', b') = reset_if (not (get_or b.header 0 0 == start_command)) s b in
        (
          record s' {
            device = bit_and l.device 0x7f;
            device_unmetered = not (bit_and l.device 0x80 == 0);
          },
          b',
        ))

-- The header is complete. Each assignment to `s->state` and `b->current` stands in its order.
unfoldable pub header_done : Link → AdapterSerial → BufferSerial → Reply
unfolding reset_if before_session
header_done l s b =
    let b1 = record b { data_size = get_or b.header 3 0 } in
    let (s2, b2) = reset_if (not (get_or b1.header 2 0 == 0)) s b1 in
    let (s3, b3) = before_session l s2 b2 in
    let error' =
      if commands_exists (get_or b3.header 0 0) then b3.error else error_unknown_command in
    (
      record s3 { state = if b3.data_size == 0 then checksum_recv else data_recv },
      record b3 { error = error'; current = 0 },
      idle_byte,
    )

unfoldable pub on_header : Link → AdapterSerial → BufferSerial → ℕ → Reply
unfolding header_done
on_header l s b c =
    let b' = record b {
      header = set b.header b.current c;
      current = next b.current;
      checksum = u16 (b.checksum + c);
    } in
    if ltb b'.current header_size then (s, b', idle_byte) else header_done l s b'

unfoldable pub on_data : AdapterSerial → BufferSerial → ℕ → Reply
unfolding after_data
on_data s b c =
    let (s', b') =
      after_data data_pad checksum_recv (record s { buffer = set s.buffer b.current c })
        (record b { current = next b.current; checksum = u16 (b.checksum + c) }) in
    (s', b', idle_byte)

unfoldable pub on_checksum : AdapterSerial → BufferSerial → ℕ → Reply
on_checksum s b c =
    let b' = record b { footer = set b.footer b.current c; current = next b.current } in
    let in_checksum = get_or b'.footer 0 0 * 256 + get_or b'.footer 1 0 in
    if ltb b'.current footer_size then (s, b', idle_byte) else (
      record s { state = acknowledge },
      record b' {
        error = if b'.checksum == in_checksum then b'.error else error_checksum;
        current = 0;
      },
      bit_or s.device 0x80,
    )

-- A device byte that only the blue adapter lets pass.
unfoldable pub bad_device : AdapterSerial → ℕ → Bool
bad_device s c = not (s.device == device_blue) && not (c == 0x80) && not (c == 0x81)

unfoldable pub on_acknowledge : AdapterSerial → BufferSerial → ℕ → Reply
unfolding ack_byte bad_device
on_acknowledge s b c =
    if s.mode_32bit
    then (record s { state = acknowledge_pad }, record b { current = 2 }, ack_byte b)
    else if bad_device s c
    then (record s { state = waiting }, b, idle_byte)
    else (record s { state = idle_check }, record b { current = 1 }, ack_byte b)

unfoldable pub on_acknowledge_pad : AdapterSerial → BufferSerial → Reply
on_acknowledge_pad s b =
    let b' = record b { current = prev b.current } in
    if b'.current == 0
    then (record s { state = idle_check }, record b' { current = 1 }, 0)
    else (s, b', 0)

-- `s->state = MOBILE_SERIAL_WAITING; if (c == 0x99) b->current = 1;`
unfoldable pub restart : AdapterSerial → BufferSerial → ℕ → Reply
restart s b c = (
  record s { state = waiting },
  record b { current = if c == 0x99 then 1 else b.current },
  idle_byte,
)

unfoldable pub on_idle_check : AdapterSerial → BufferSerial → ℕ → Reply
unfolding restart
on_idle_check s b c =
    let b' = record b { current = prev b.current } in
    if not (b.current == 0)
    then (s, b', idle_byte)
    else if get_or b'.header 0 0 == null_command || not (b'.error == 0)
    then restart s b' c
    else if not (c == 0x4b)
    then restart s b' c
    else (record s { state = response_waiting }, b', idle_byte)
