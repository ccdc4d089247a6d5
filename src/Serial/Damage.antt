-- ===== src/Serial/Damage.antt =====
-- serial.c: a damaged byte of a packet is noticed.

-- If one byte of the data of a packet changes on its way, whichever it is and however it changes, the
-- packet that arrives, in either serial mode, is refused for its checksum.
use libmobile.Serial.Types.{AdapterSerial, BufferSerial, Link, acknowledge, error_checksum, waiting}
use libmobile.Serial.Bounds.{IsValid}
use libmobile.Prelude.{
  List, arith, get_or, length, length-set, set, sum_changed, ℕ, ◌*◌, ◌+◌, ◌<◌, ◌≡◌, ◌≢◌,
}
use libmobile.Serial.Packet.{packet_sum, receive_packet, wire}
use libmobile.Serial.Receive.{padding}
use libmobile.Serial.Transfer.{transfer_all}

pub receive_packet-damaged :
    (l : Link) (s : AdapterSerial) (b : BufferSerial) (h0 h1 h2 : ℕ) (payload pads : List ℕ)
    (f0 f1 i v : ℕ)
    → IsValid s b
    → s.state ≡ waiting
    → length payload < 256
    → length pads ≡ padding s.mode_32bit (length payload)
    → packet_sum h0 h1 h2 payload ≡ f0 * 256 + f1
    → i < length payload
    → get_or payload i 0 < 256
    → v < 256
    → v ≢ get_or payload i 0
    → let (s', b', out) = transfer_all l s b (wire h0 h1 h2 (set payload i v) pads f0 f1) in
      (s'.state ≡ acknowledge) × (b'.error ≡ error_checksum)
receive_packet-damaged l s b h0 h1 h2 payload pads f0 f1 i v w e n p g m h k d =
    let same = length-set payload i v in
    let other = sum_changed (h0 + h1 + h2 + length payload) payload i v m h k d in
    rw
      (receive_packet l s b h0 h1 h2 (set payload i v) pads f0 f1 w e (ground arith) (ground arith))
      (ground arith)
