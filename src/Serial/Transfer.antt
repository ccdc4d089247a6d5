-- ===== src/Serial/Transfer.antt =====
-- serial.c: `mobile_serial_transfer` and `mobile_serial_transfer_32bit`.
use libmobile.Serial.Types.{
  AdapterSerial, BufferSerial, Link, Reply, SerialState, acknowledge, acknowledge_pad,
  checksum_recv, data_pad, data_recv, idle_byte, idle_check, init, on_pad, response_acknowledge,
  response_checksum, response_data, response_data_pad, response_header, response_init,
  response_start, response_waiting, waiting, header_recv,
}
use libmobile.Prelude.{List, [], bit_or, ℕ, ◌%◌, ◌*◌, ◌+◌, ◌/◌, ◌^◌, ◌∷◌}
use libmobile.Serial.Incoming.{
  ack_byte, on_acknowledge, on_acknowledge_pad, on_checksum, on_data, on_header, on_idle_check,
  on_waiting,
}
use libmobile.Serial.Outgoing.{
  on_response_acknowledge, on_response_checksum, on_response_data, on_response_header,
  on_response_start,
}

-- The `switch` of `mobile_serial_transfer`.
unfoldable pub dispatch : SerialState → Link → AdapterSerial → BufferSerial → ℕ → Reply
unfolding on_waiting on_header on_data on_pad on_checksum on_acknowledge on_acknowledge_pad
    on_idle_check on_response_start on_response_header on_response_data on_response_checksum
    on_response_acknowledge
dispatch init l s b c = on_waiting (record s { state = waiting }) (record b { current = 0 }) c
dispatch waiting l s b c = on_waiting s b c
dispatch header_recv l s b c = on_header l s b c
dispatch data_recv l s b c = on_data s b c
dispatch data_pad l s b c = let (s', b') = on_pad checksum_recv s b in (s', b', idle_byte)
dispatch checksum_recv l s b c = on_checksum s b c
dispatch acknowledge l s b c = on_acknowledge s b c
dispatch acknowledge_pad l s b c = on_acknowledge_pad s b
dispatch idle_check l s b c = on_idle_check s b c
dispatch response_waiting l s b c = (s, b, idle_byte)
dispatch response_init l s b c =
    on_response_start (record s { state = response_start }) (record b { current = 0 })
dispatch response_start l s b c = on_response_start s b
dispatch response_header l s b c = on_response_header s b
dispatch response_data l s b c = on_response_data s b
dispatch response_data_pad l s b c = let (s', b') = on_pad response_checksum s b in (s', b', 0)
dispatch response_checksum l s b c = on_response_checksum s b
dispatch response_acknowledge l s b c = on_response_acknowledge s b c

unfoldable pub serial_transfer : Link → AdapterSerial → BufferSerial → ℕ → Reply
unfolding dispatch
serial_transfer l s b c = dispatch s.state l s b c

-- The bytes of a word, in the order in which they are sent, and the word of four bytes.
abbrev pub byte_of : ℕ → ℕ → ℕ
byte_of w k = w / 256 ^ k % 256

abbrev pub pack_word : ℕ → ℕ → ℕ → ℕ → ℕ
pack_word d0 d1 d2 d3 = d0 * 256 ^ 3 + d1 * 256 ^ 2 + d2 * 256 + d3

-- The acknowledgement of `mobile_serial_transfer_32bit`, which stands in for the four bytes.
unfoldable pub finish_word :
    AdapterSerial → BufferSerial → ℕ → ℕ → ℕ → ℕ → AdapterSerial × BufferSerial × ℕ
unfolding ack_byte
finish_word s b d0 d1 d2 d3 = elim s.state [
  | acknowledge ↦ (
    record s { state = idle_check },
    record b { current = 4 },
    pack_word (bit_or s.device 0x80) (ack_byte b) 0 0,
  )
  | _ ↦ (s, b, pack_word d0 d1 d2 d3)
]

unfoldable pub serial_transfer_32bit :
    Link → AdapterSerial → BufferSerial → ℕ → AdapterSerial × BufferSerial × ℕ
unfolding serial_transfer finish_word
serial_transfer_32bit l s b c =
    let (s0, b0, d0) = serial_transfer l s b (byte_of c 3) in
    let (s1, b1, d1) = serial_transfer l s0 b0 (byte_of c 2) in
    let (s2, b2, d2) = serial_transfer l s1 b1 (byte_of c 1) in
    let (s3, b3, d3) = serial_transfer l s2 b2 (byte_of c 0) in finish_word s3 b3 d0 d1 d2 d3

-- A sequence of transfers, with the bytes that come back.
unfoldable pub transfer_all :
    Link → AdapterSerial → BufferSerial → List ℕ → AdapterSerial × BufferSerial × List ℕ
transfer_all l s b [] = (s, b, [])
transfer_all l s b (c ∷ cs) =
    let (s', b', d) = serial_transfer l s b c in
    let (s2, b2, ds) = transfer_all l s' b' cs in (s2, b2, d ∷ ds)
