-- ===== src/Serial/Receive.antt =====
-- serial.c: receiving a whole packet, byte by byte.
use libmobile.Serial.Types.{
  AdapterSerial, BufferSerial, Link, SerialState, checksum_recv, data_pad, data_recv, idle_byte,
  acknowledge, error_checksum, error_unknown_command, header_recv, waiting, Reply,
}
use libmobile.Prelude.{
  Bool, List, [], arith, if◌then◌else◌, not, refl, set, u16, ℕ, ◌%◌, ◌&&◌, ◌++◌, ◌+◌, ◌-◌, ◌<◌,
  ◌==◌, ◌∷◌, ◌≡◌, bit_and, bit_or, copy, length, replicate, set_four, set_two, suc, sum, ◌*◌, ◌∙◌,
}
use libmobile.Serial.Transfer.{serial_transfer, transfer_all}
use libmobile.Serial.Incoming.{commands_exists}

abbrev pub Run : Type 0
Run = AdapterSerial × BufferSerial × List ℕ

pub transfer_all-cons :
    (l : Link) (s : AdapterSerial) (b : BufferSerial) (x : ℕ) (xs : List ℕ) {r : Reply} {t : Run}
    → serial_transfer l s b x ≡ r
    → transfer_all l r.0 r.1 xs ≡ t
    → transfer_all l s b (x ∷ xs) ≡ (t.0, t.1, r.2 ∷ t.2)
unfolding transfer_all
transfer_all-cons l s b x xs h k = rw (h, k)

transfer_all-append :
    (l : Link) (s : AdapterSerial) (b : BufferSerial) (xs ys : List ℕ)
    → transfer_all l s b (xs ++ ys) ≡ (
        let (s', b', out) = transfer_all l s b xs in
        let (s2, b2, out2) = transfer_all l s' b' ys in (s2, b2, out ++ out2))
unfolding transfer_all
transfer_all-append l s b [] ys = refl
transfer_all-append l s b (x ∷ xs) ys =
    let (s', b', d) = serial_transfer l s b x in rw (transfer_all-append l s' b' xs ys)

pub transfer_all_then :
    (l : Link) (s : AdapterSerial) (b : BufferSerial) (xs ys : List ℕ) {t u : Run}
    → transfer_all l s b xs ≡ t
    → transfer_all l t.0 t.1 ys ≡ u
    → transfer_all l s b (xs ++ ys) ≡ (u.0, u.1, t.2 ++ u.2)
transfer_all_then l s b xs ys h k = rw (transfer_all-append l s b xs ys) (rw (h, k))

-- The bytes that pad `n` bytes of data in 32-bit mode.
abbrev pub padding : Bool → ℕ → ℕ
padding mode n = if mode && not (n % 4 == 0) then 4 - n % 4 else 0

-- The state in which the data of a packet end.
abbrev pub after_bytes : Bool → ℕ → SerialState
after_bytes mode n = if padding mode n == 0 then checksum_recv else data_pad

recv_data_byte_more :
    (l : Link) (s : AdapterSerial) (b : BufferSerial) (c : ℕ)
    → s.state ≡ data_recv
    → b.current + 1 < b.data_size
    → b.data_size < 256
    → serial_transfer l s b c ≡ (
      record s { buffer = set s.buffer b.current c },
      record b { current = b.current + 1; checksum = u16 (b.checksum + c) },
      idle_byte,
    )
unfolding serial_transfer
recv_data_byte_more l s b c e h k = ground arith

recv_data_byte_last :
    (l : Link) (s : AdapterSerial) (b : BufferSerial) (c : ℕ)
    → s.state ≡ data_recv
    → b.current + 1 ≡ b.data_size
    → b.data_size < 256
    → serial_transfer l s b c ≡ (
      record s { buffer = set s.buffer b.current c; state = after_bytes s.mode_32bit b.data_size },
      record b { current = padding s.mode_32bit b.data_size; checksum = u16 (b.checksum + c) },
      idle_byte,
    )
unfolding serial_transfer
recv_data_byte_last l s b c e h k = ground arith

pub recv_data :
    (l : Link) (s : AdapterSerial) (b : BufferSerial) (x : ℕ) (xs : List ℕ)
    → s.state ≡ data_recv
    → b.current + suc (length xs) ≡ b.data_size
    → b.data_size < 256
    → transfer_all l s b (x ∷ xs) ≡ (
      record s {
        buffer = copy s.buffer b.current (x ∷ xs);
        state = after_bytes s.mode_32bit b.data_size;
      },
      record b {
        current = padding s.mode_32bit b.data_size;
        checksum = u16 (b.checksum + sum (x ∷ xs));
      },
      replicate (suc (length xs)) idle_byte,
    )
unfolding transfer_all
recv_data l s b x [] e h k = ground (arith, recv_data_byte_last l s b x)
recv_data l s b x (y ∷ xs) e h k =
    transfer_all-cons l s b x (y ∷ xs) (recv_data_byte_more l s b x e (omega arith) k) (
      recv_data l (record s { buffer = set s.buffer b.current x })
        (record b { current = b.current + 1; checksum = u16 (b.checksum + x) }) y xs e (omega arith)
        k)
    ∙ unfold transfer_all in ground arith

recv_pad_byte :
    (l : Link) (s : AdapterSerial) (b : BufferSerial) (c : ℕ)
    → s.state ≡ data_pad
    → 0 < b.current
    → b.current < 256
    → serial_transfer l s b c ≡ (
      (if b.current == 1 then record s { state = checksum_recv } else s),
      record b { current = b.current - 1 },
      idle_byte,
    )
unfolding serial_transfer
recv_pad_byte l s b c e h k = ground arith

pub recv_pads :
    (l : Link) (s : AdapterSerial) (b : BufferSerial) (ps : List ℕ)
    → length ps ≡ b.current
    → b.current < 256
    → s.state ≡ (if b.current == 0 then checksum_recv else data_pad)
    → transfer_all l s b ps ≡ (
      record s { state = checksum_recv },
      record b { current = 0 },
      replicate (length ps) idle_byte,
    )
unfolding transfer_all
recv_pads l s b [] h k e = ground arith
recv_pads l s b (p ∷ ps) h k e =
    transfer_all-cons l s b p ps (recv_pad_byte l s b p (ground arith) (omega arith) k) (
      recv_pads l (if b.current == 1 then record s { state = checksum_recv } else s)
        (record b { current = b.current - 1 }) ps (omega arith) (omega arith) (ground arith))
    ∙ ground arith

-- What the checksum makes of the error.
abbrev pub verdict : BufferSerial → ℕ → ℕ → ℕ
verdict b f0 f1 = if b.checksum == f0 * 256 + f1 then b.error else error_checksum

pub recv_footer :
    (l : Link) (s : AdapterSerial) (b : BufferSerial) (f0 f1 : ℕ)
    → s.state ≡ checksum_recv
    → b.current ≡ 0
    → length b.footer ≡ 2
    → transfer_all l s b (f0 ∷ f1 ∷ []) ≡ (
      record s { state = acknowledge },
      record b { footer = f0 ∷ f1 ∷ []; error = verdict b f0 f1; current = 0 },
      idle_byte ∷ bit_or s.device 0x80 ∷ [],
    )
unfolding transfer_all serial_transfer
recv_footer l s b f0 f1 e h k = ground (arith, set_two b.footer f0 f1)

-- The device that the adapter takes on when it hears a packet.
abbrev pub listen : Link → AdapterSerial → AdapterSerial
listen l s = if l.session_started then s else record s {
  device = bit_and l.device 0x7f;
  device_unmetered = not (bit_and l.device 0x80 == 0);
}

pub recv_magic :
    (l : Link) (s : AdapterSerial) (b : BufferSerial)
    → s.state ≡ waiting
    → transfer_all l s b (0x99 ∷ 0x66 ∷ []) ≡ (
      record s { state = header_recv },
      record b { data_size = 0; checksum = 0; error = 0; current = 0 },
      idle_byte ∷ idle_byte ∷ [],
    )
unfolding transfer_all serial_transfer
recv_magic l s b e = ground arith

pub recv_header :
    (l : Link) (s : AdapterSerial) (b : BufferSerial) (h0 h1 h2 h3 : ℕ)
    → s.state ≡ header_recv
    → b.current ≡ 0
    → length b.header ≡ 4
    → transfer_all l s b (h0 ∷ h1 ∷ h2 ∷ h3 ∷ []) ≡ (
      record (listen l s) { state = if h3 == 0 then checksum_recv else data_recv },
      record b {
        header = h0 ∷ h1 ∷ h2 ∷ h3 ∷ [];
        data_size = h3;
        checksum = u16 (b.checksum + h0 + h1 + h2 + h3);
        error = if commands_exists h0 then b.error else error_unknown_command;
        current = 0;
      },
      replicate 4 idle_byte,
    )
unfolding transfer_all serial_transfer
recv_header l s b h0 h1 h2 h3 e k n = ground (arith, set_four b.header h0 h1 h2 h3)
