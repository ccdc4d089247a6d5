-- ===== src/Serial/Turns.antt =====
-- serial.c: what a complete header leads to.
use libmobile.Serial.Types.{
  AdapterSerial, BufferSerial, Link, checksum_recv, data_recv, header_recv,
}
use libmobile.Prelude.{arith, if◌then◌else◌, ℕ, ◌==◌, ◌≡◌}
use libmobile.Serial.Transfer.{serial_transfer}

-- The last byte of a header always leads to the data, or to the checksum where there are none,
-- whatever its third byte is, whatever the command is, and whether or not a session has begun.
pub header_done-goes_on :
    (l : Link) (s : AdapterSerial) (b : BufferSerial) (c : ℕ)
    → s.state ≡ header_recv
    → b.current ≡ 3
    → let (s', b', d) = serial_transfer l s b c in
      (s'.state ≡ (if b'.data_size == 0 then checksum_recv else data_recv)) × (b'.current ≡ 0)
unfolding serial_transfer
header_done-goes_on l s b c e k = ground arith
