-- ===== src/Serial/Send.antt =====
-- serial.c: sending a response, byte by byte. What the game sends meanwhile is not looked at.
use libmobile.Serial.Types.{
  AdapterSerial, BufferSerial, Link, SerialState, response_acknowledge, response_checksum,
  response_data, response_data_pad, response_header, response_init,
}
use libmobile.Prelude.{
  Bool, List, [], ap, arith, drop, get_or, if◌then◌else◌, length, length-append, replicate, suc,
  take, take-drop-suc, take_all-append, ℕ, ◌++◌, ◌+◌, ◌-◌, ◌<◌, ◌==◌, ◌∙◌, ◌∷◌, ◌≡◌, ◌≤◌,
}
use libmobile.Serial.Receive.{padding, transfer_all-cons, transfer_all_then}
use libmobile.Serial.Transfer.{serial_transfer, transfer_all}

send_data_byte_more :
    (l : Link) (s : AdapterSerial) (b : BufferSerial) (c : ℕ)
    → s.state ≡ response_data
    → b.current + 1 < b.data_size
    → b.data_size < 256
    → serial_transfer l s b c
      ≡ (s, record b { current = b.current + 1 }, get_or s.buffer b.current 0)
unfolding serial_transfer
send_data_byte_more l s b c e h k = ground arith

-- The state in which the payload of a response ends.
abbrev pub after_payload : Bool → ℕ → SerialState
after_payload mode n = if padding mode n == 0 then response_checksum else response_data_pad

send_data_byte_last :
    (l : Link) (s : AdapterSerial) (b : BufferSerial) (c : ℕ)
    → s.state ≡ response_data
    → b.current + 1 ≡ b.data_size
    → b.data_size < 256
    → serial_transfer l s b c ≡ (
      record s { state = after_payload s.mode_32bit b.data_size },
      record b { current = padding s.mode_32bit b.data_size },
      get_or s.buffer b.current 0,
    )
unfolding serial_transfer
send_data_byte_last l s b c e h k = ground arith

send_data :
    (l : Link) (s : AdapterSerial) (b : BufferSerial) (c : ℕ) (cs : List ℕ)
    → s.state ≡ response_data
    → b.current + suc (length cs) ≡ b.data_size
    → b.data_size < 256
    → b.data_size ≤ length s.buffer
    → transfer_all l s b (c ∷ cs) ≡ (
      record s { state = after_payload s.mode_32bit b.data_size },
      record b { current = padding s.mode_32bit b.data_size },
      take (suc (length cs)) (drop b.current s.buffer),
    )
unfolding transfer_all
send_data l s b c [] e h k n =
    ground (arith, send_data_byte_last l s b c e, take-drop-suc 0 b.current s.buffer (omega arith))
send_data l s b c (d ∷ cs) e h k n =
    transfer_all-cons l s b c (d ∷ cs) (send_data_byte_more l s b c e (omega arith) k)
      (send_data l s (record b { current = b.current + 1 }) d cs e (omega arith) k n)
    ∙ ground (arith, take-drop-suc (suc (length cs)) b.current s.buffer (omega arith))

send_pad_byte :
    (l : Link) (s : AdapterSerial) (b : BufferSerial) (c : ℕ)
    → s.state ≡ response_data_pad
    → 0 < b.current
    → b.current < 256
    → serial_transfer l s b c ≡ (
      (if b.current == 1 then record s { state = response_checksum } else s),
      record b { current = b.current - 1 },
      0,
    )
unfolding serial_transfer
send_pad_byte l s b c e h k = ground arith

pub send_pads :
    (l : Link) (s : AdapterSerial) (b : BufferSerial) (cs : List ℕ)
    → length cs ≡ b.current
    → b.current < 256
    → s.state ≡ (if b.current == 0 then response_checksum else response_data_pad)
    → transfer_all l s b cs
      ≡ (record s { state = response_checksum }, record b { current = 0 }, replicate (length cs) 0)
unfolding transfer_all
send_pads l s b [] h k e = ground arith
send_pads l s b (c ∷ cs) h k e =
    transfer_all-cons l s b c cs (send_pad_byte l s b c (ground arith) (omega arith) k) (
      send_pads l (if b.current == 1 then record s { state = response_checksum } else s)
        (record b { current = b.current - 1 }) cs (omega arith) (omega arith) (ground arith))
    ∙ ground arith

pub send_magic :
    (l : Link) (s : AdapterSerial) (b : BufferSerial) (c0 c1 : ℕ)
    → s.state ≡ response_init
    → transfer_all l s b (c0 ∷ c1 ∷ []) ≡ (
      record s { state = response_header },
      record b { data_size = get_or b.header 3 0; error = 0; current = 0 },
      0x99 ∷ 0x66 ∷ [],
    )
unfolding transfer_all serial_transfer
send_magic l s b c0 c1 e = ground arith

pub send_header :
    (l : Link) (s : AdapterSerial) (b : BufferSerial) (h0 h1 h2 h3 c0 c1 c2 c3 : ℕ)
    → s.state ≡ response_header
    → b.current ≡ 0
    → b.header ≡ h0 ∷ h1 ∷ h2 ∷ h3 ∷ []
    → transfer_all l s b (c0 ∷ c1 ∷ c2 ∷ c3 ∷ []) ≡ (
      record s { state = if b.data_size == 0 then response_checksum else response_data },
      record b { current = 0 },
      h0 ∷ h1 ∷ h2 ∷ h3 ∷ [],
    )
unfolding transfer_all serial_transfer
send_header l s b h0 h1 h2 h3 c0 c1 c2 c3 e k n = ground arith

pub send_footer :
    (l : Link) (s : AdapterSerial) (b : BufferSerial) (f0 f1 c0 c1 : ℕ)
    → s.state ≡ response_checksum
    → b.current ≡ 0
    → b.footer ≡ f0 ∷ f1 ∷ []
    → transfer_all l s b (c0 ∷ c1 ∷ [])
      ≡ (record s { state = response_acknowledge }, record b { current = 0 }, f0 ∷ f1 ∷ [])
unfolding transfer_all serial_transfer
send_footer l s b f0 f1 c0 c1 e k n = ground arith

-- Payload and padding, for any bytes that the game sends meanwhile.
pub send_body :
    (l : Link) (s : AdapterSerial) (b : BufferSerial) (cs ds payload rest : List ℕ)
    → s.state ≡ (if length payload == 0 then response_checksum else response_data)
    → b.current ≡ 0
    → b.data_size ≡ length payload
    → s.buffer ≡ payload ++ rest
    → length payload < 256
    → length cs ≡ length payload
    → length ds ≡ padding s.mode_32bit (length payload)
    → transfer_all l s b (cs ++ ds) ≡ (
      record s { state = response_checksum },
      record b { current = 0 },
      payload ++ replicate (length ds) 0,
    )
send_body l s b [] ds [] rest e z k w h m p =
    send_pads l s b ds (ground arith) (omega arith) (ground arith)
send_body l s b [] ds (x ∷ payload) rest e z k w h m p = absurd (omega arith)
send_body l s b (c ∷ cs) ds [] rest e z k w h m p = absurd (omega arith)
send_body l s b (c ∷ cs) ds (x ∷ payload) rest e z k w h m p =
    transfer_all_then l s b (c ∷ cs) ds
      (send_data l s b c cs (ground arith) (omega arith) (omega arith)
        (omega (arith, ap length w, length-append (x ∷ payload) rest)))
      (send_pads l (record s { state = after_payload s.mode_32bit b.data_size })
        (record b { current = padding s.mode_32bit b.data_size }) ds (ground arith) (ground arith)
        (ground arith))
    ∙ ground (arith, take_all-append (x ∷ payload) rest)
