-- ===== src/Serial/Word.antt =====
-- serial.c: a transfer of 32 bits.
use libmobile.Serial.Types.{AdapterSerial, BufferSerial, Link}
use libmobile.Serial.Bounds.{IsValid}
use libmobile.Prelude.{arith, ℕ}
use libmobile.Serial.Transfer.{byte_of, finish_word, serial_transfer, serial_transfer_32bit}
use libmobile.Serial.Safety.{serial_transfer-IsValid}

finish_word-IsValid :
    (s : AdapterSerial) (b : BufferSerial) (d0 d1 d2 d3 : ℕ)
    → IsValid s b
    → let (s', b', w) = finish_word s b d0 d1 d2 d3 in IsValid s' b'
unfolding finish_word
finish_word-IsValid s b d0 d1 d2 d3 v = ground arith

-- A transfer of a word, whatever it is and in whatever state, keeps the buffers' sizes and the
-- index where the next state may use it.
pub serial_transfer_32bit-IsValid :
    (l : Link) (s : AdapterSerial) (b : BufferSerial) (c : ℕ)
    → IsValid s b
    → let (s', b', w) = serial_transfer_32bit l s b c in IsValid s' b'
unfolding serial_transfer_32bit
serial_transfer_32bit-IsValid l s b c v =
    let (s0, b0, d0) = serial_transfer l s b (byte_of c 3) in
    let (s1, b1, d1) = serial_transfer l s0 b0 (byte_of c 2) in
    let (s2, b2, d2) = serial_transfer l s1 b1 (byte_of c 1) in
    let (s3, b3, d3) = serial_transfer l s2 b2 (byte_of c 0) in
    let v0 = serial_transfer-IsValid l s b (byte_of c 3) v (omega arith) in
    let v1 = serial_transfer-IsValid l s0 b0 (byte_of c 2) v0 (omega arith) in
    let v2 = serial_transfer-IsValid l s1 b1 (byte_of c 1) v1 (omega arith) in
    let v3 = serial_transfer-IsValid l s2 b2 (byte_of c 0) v2 (omega arith) in
    finish_word-IsValid s3 b3 d0 d1 d2 d3 v3
