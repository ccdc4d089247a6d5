-- ===== src/Serial/Packet.antt =====
-- serial.c: what a whole packet leaves behind.
use libmobile.Serial.Types.{
  AdapterSerial, BufferSerial, Link, checksum_recv, data_recv, idle_byte, acknowledge,
  error_checksum, error_unknown_command, header_recv, waiting,
}
use libmobile.Prelude.{
  List, [], arith, copy, if◌then◌else◌, length, replicate, sum, u16, ℕ, ◌++◌, ◌+◌, ◌<◌, ◌==◌, ◌∙◌,
  ◌∷◌, ◌≡◌, bit_or, drop, refl, ◌*◌, copy-zero,
}
use libmobile.Serial.Receive.{
  after_bytes, padding, transfer_all_then, listen, recv_data, recv_footer, recv_header, recv_magic,
  recv_pads,
}
use libmobile.Serial.Transfer.{transfer_all}
use libmobile.Serial.Bounds.{IsValid}
use libmobile.Serial.Incoming.{commands_exists}

-- The bytes of a packet on the cable.
abbrev pub wire : ℕ → ℕ → ℕ → List ℕ → List ℕ → ℕ → ℕ → List ℕ
wire h0 h1 h2 payload pads f0 f1 =
    (0x99 ∷ 0x66 ∷ [])
    ++ ((h0 ∷ h1 ∷ h2 ∷ length payload ∷ []) ++ ((payload ++ pads) ++ (f0 ∷ f1 ∷ [])))

-- The 16-bit sum over header and payload.
abbrev pub packet_sum : ℕ → ℕ → ℕ → List ℕ → ℕ
packet_sum h0 h1 h2 payload = u16 (h0 + h1 + h2 + length payload + sum payload)

recv_body :
    (l : Link) (s : AdapterSerial) (b : BufferSerial) (payload pads : List ℕ)
    → s.state ≡ (if length payload == 0 then checksum_recv else data_recv)
    → b.current ≡ 0
    → b.data_size ≡ length payload
    → length payload < 256
    → length pads ≡ padding s.mode_32bit (length payload)
    → b.checksum < 65536
    → transfer_all l s b (payload ++ pads) ≡ (
      record s { state = checksum_recv; buffer = copy s.buffer 0 payload },
      record b { current = 0; checksum = u16 (b.checksum + sum payload) },
      replicate (length payload) idle_byte ++ replicate (length pads) idle_byte,
    )
recv_body l s b [] pads e z k h p c =
    recv_pads l s b pads (ground arith) (omega arith) (ground arith) ∙ ground arith
recv_body l s b (x ∷ xs) pads e z k h p c =
    transfer_all_then l s b (x ∷ xs) pads
      (recv_data l s b x xs (ground arith) (omega arith) (omega arith))
      (recv_pads l
        (record s {
          buffer = copy s.buffer b.current (x ∷ xs);
          state = after_bytes s.mode_32bit b.data_size;
        })
        (record b {
          current = padding s.mode_32bit b.data_size;
          checksum = u16 (b.checksum + sum (x ∷ xs));
        })
        pads (ground arith) (ground arith) (ground arith))
    ∙ ground arith

-- The adapter after a packet that it has heard in full.
abbrev pub heard :
    Link → AdapterSerial → BufferSerial → ℕ → ℕ → ℕ → List ℕ → ℕ → ℕ → AdapterSerial × BufferSerial
heard l s b h0 h1 h2 payload f0 f1 = (
  record (listen l s) { state = acknowledge; buffer = payload ++ drop (length payload) s.buffer },
  record b {
    header = h0 ∷ h1 ∷ h2 ∷ length payload ∷ [];
    footer = f0 ∷ f1 ∷ [];
    data_size = length payload;
    checksum = packet_sum h0 h1 h2 payload;
    error =
        if packet_sum h0 h1 h2 payload == f0 * 256 + f1
        then (if commands_exists h0 then 0 else error_unknown_command)
        else error_checksum;
    current = 0;
  },
)

-- From the waiting state, in either serial mode, a whole packet arrives as it was sent: header,
-- payload and footer are stored, the error says whether the sum or the command is wrong, every
-- byte but the last is answered by the idle byte, and the last by the adapter's device.
pub receive_packet :
    (l : Link) (s : AdapterSerial) (b : BufferSerial) (h0 h1 h2 : ℕ) (payload pads : List ℕ)
    (f0 f1 : ℕ)
    → IsValid s b
    → s.state ≡ waiting
    → length payload < 256
    → length pads ≡ padding s.mode_32bit (length payload)
    → let (s', b') = heard l s b h0 h1 h2 payload f0 f1 in
      transfer_all l s b (wire h0 h1 h2 payload pads f0 f1) ≡ (
        s',
        b',
        replicate 6 idle_byte
            ++ ((replicate (length payload) idle_byte ++ replicate (length pads) idle_byte)
                ++ (idle_byte ∷ bit_or s'.device 0x80 ∷ [])),
      )
receive_packet l s b h0 h1 h2 payload pads f0 f1 v e h p =
    transfer_all_then l s b (0x99 ∷ 0x66 ∷ []) _ (recv_magic l s b e) (
      transfer_all_then l s1 b1 (h0 ∷ h1 ∷ h2 ∷ length payload ∷ []) _
        (recv_header l s1 b1 h0 h1 h2 (length payload) refl refl v.buffers.header_length)
        (transfer_all_then l s2 b2 (payload ++ pads) _
          (recv_body l s2 b2 payload pads refl refl refl h p2 (omega arith))
          (recv_footer l s3 b3 f0 f1 refl refl v.buffers.footer_length)))
    ∙ ground (arith, copy-zero s.buffer payload (omega arith))
  where
    s1 : AdapterSerial
    s1 = record s { state = header_recv }

    b1 : BufferSerial
    b1 = record b { data_size = 0; checksum = 0; error = 0; current = 0 }

    s2 : AdapterSerial
    s2 = record (listen l s1) { state = if length payload == 0 then checksum_recv else data_recv }

    b2 : BufferSerial
    b2 = record b1 {
      header = h0 ∷ h1 ∷ h2 ∷ length payload ∷ [];
      data_size = length payload;
      checksum = u16 (0 + h0 + h1 + h2 + length payload);
      error = if commands_exists h0 then 0 else error_unknown_command;
      current = 0;
    }

    s3 : AdapterSerial
    s3 = record s2 { state = checksum_recv; buffer = copy s2.buffer 0 payload }

    b3 : BufferSerial
    b3 = record b2 { current = 0; checksum = u16 (b2.checksum + sum payload) }

    p2 : length pads ≡ padding s2.mode_32bit (length payload)
    p2 = ground arith
