-- ===== src/Serial/Types.antt =====
-- serial.h, and the steps of serial.c that both directions share.
use libmobile.Prelude.{Bool, List, if◌then◌else◌, ltb, not, u8, ℕ, ◌%◌, ◌&&◌, ◌+◌, ◌-◌, ◌==◌}

pub data SerialState : Type 0 where
  init waiting header_recv data_recv data_pad checksum_recv acknowledge acknowledge_pad idle_check :
      SerialState
  response_waiting response_init response_start response_header response_data : SerialState
  response_data_pad response_checksum response_acknowledge : SerialState

-- `struct mobile_buffer_serial`
pub record BufferSerial : Type 0 where
  pub error : ℕ
  pub current : ℕ  -- unsigned char
  pub data_size : ℕ  -- unsigned char
  pub checksum : ℕ  -- uint16_t
  pub header : List ℕ  -- unsigned char[4]
  pub footer : List ℕ  -- unsigned char[2]

-- `struct mobile_adapter_serial`
pub record AdapterSerial : Type 0 where
  pub state : SerialState
  pub active : Bool
  pub buffer : List ℕ  -- unsigned char[MOBILE_MAX_DATA_SIZE]
  pub mode_32bit : Bool
  pub device_unmetered : Bool
  pub device : ℕ

-- What the state machine reads of the rest of the adapter: `commands.session_started` and
-- `config.device`.
pub record Link : Type 0 where
  pub session_started : Bool
  pub device : ℕ

abbrev pub Reply : Type 0
Reply = AdapterSerial × BufferSerial × ℕ

abbrev pub idle_byte : ℕ
idle_byte = 0xd2

abbrev pub device_blue : ℕ
device_blue = 8

abbrev pub error_unknown_command : ℕ
error_unknown_command = 0xf0

abbrev pub error_checksum : ℕ
error_checksum = 0xf1

abbrev pub error_internal : ℕ
error_internal = 0xf2

abbrev pub null_command : ℕ
null_command = 0x0f

abbrev pub start_command : ℕ
start_command = 0x10

abbrev pub header_size : ℕ
header_size = 4

abbrev pub footer_size : ℕ
footer_size = 2

-- `b->current++` and `b->current--`
abbrev pub next : ℕ → ℕ
next n = u8 (n + 1)

abbrev pub prev : ℕ → ℕ
prev n = u8 (n + 255)

-- After a data byte, in either direction: go on, pad to a multiple of four, or go to the checksum.
unfoldable pub after_data :
    SerialState → SerialState → AdapterSerial → BufferSerial → AdapterSerial × BufferSerial
after_data pad checksum_state s b =
    if ltb b.current b.data_size
    then (s, b)
    else if s.mode_32bit && not (b.current % 4 == 0)
    then (record s { state = pad }, record b { current = 4 - b.current % 4 })
    else (record s { state = checksum_state }, record b { current = 0 })

-- `if (!--b->current) s->state = ...`
unfoldable pub on_pad : SerialState → AdapterSerial → BufferSerial → AdapterSerial × BufferSerial
on_pad to s b =
    let b' = record b { current = prev b.current } in
    (if b'.current == 0 then record s { state = to } else s, b')
