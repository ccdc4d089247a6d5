-- ===== src/Mobile/Loopback.antt =====
-- mobile.c and serial.c: what one adapter sends, another hears.
use libmobile.Serial.Types.{AdapterSerial, BufferSerial, Link, error_unknown_command, waiting}
use libmobile.Serial.Bounds.{IsValid}
use libmobile.Prelude.{
  List, arith, get_or, if◌then◌else◌, length, take, u16, u8, ℕ, ◌*◌, ◌++◌, ◌+◌, ◌/◌, ◌<◌, ◌≡◌, ap,
  bit_or, drop, refl, sum, take_all-append,
}
use libmobile.Adapter.{Packet}
use libmobile.Serial.Incoming.{commands_exists}
use libmobile.Mobile.Handle.{packet_create}
use libmobile.Serial.Receive.{padding}
use libmobile.Serial.Transfer.{transfer_all}
use libmobile.Serial.Packet.{wire, packet_sum, receive_packet}

footer_sum : (x : ℕ) → u8 (x / 256) * 256 + u8 x ≡ u16 x
footer_sum x = omega arith

-- The packet that `packet_create` makes has the sum that the receiving side computes: sent over the
-- cable to an adapter that waits for a packet, in either mode, it raises no checksum error, but
-- only that of a command that does not exist.
pub packet_create-heard :
    (s : AdapterSerial) (b : BufferSerial) (p : Packet) (payload rest pads : List ℕ) (l : Link)
    (r : AdapterSerial) (rb : BufferSerial)
    → s.buffer ≡ payload ++ rest
    → p.length ≡ length payload
    → length payload < 256
    → IsValid r rb
    → r.state ≡ waiting
    → length pads ≡ padding r.mode_32bit (length payload)
    → let made = packet_create s b p in
      let h0 = get_or made.header 0 0 in
      let (r', rb', out) =
        transfer_all l r rb
          (wire h0 0 0 payload pads (get_or made.footer 0 0) (get_or made.footer 1 0)) in
      (rb'.header ≡ made.header)
      × (take p.length r'.buffer ≡ payload)
      × (rb'.error ≡ (if commands_exists h0 then 0 else error_unknown_command))
unfolding packet_create
packet_create-heard s b p payload rest pads l r rb w n m v e k =
    let h0 = bit_or p.command 0x80 in
    let x = h0 + (0 + (0 + (p.length + 0))) + sum (take p.length s.buffer) in
    let taken : take p.length s.buffer ≡ payload = rw (w, n) (take_all-append payload rest) in
    let agree : packet_sum h0 0 0 payload ≡ u8 (x / 256) * 256 + u8 x =
      rw (footer_sum x, taken, n) (ap u16 (omega arith)) in
    rw (receive_packet l r rb h0 0 0 payload pads (u8 (x / 256)) (u8 x) v e m k) (
      rw n refl,
      rw n (take_all-append payload (drop (length payload) r.buffer)),
      ground (arith, agree),
    )
