-- ===== src/Serial/Bounds.antt =====
-- serial.c: the state machine stays inside its three buffers, whatever bytes arrive.
use libmobile.Serial.Types.{AdapterSerial, BufferSerial, Link, Reply, SerialState, on_pad}
use libmobile.Prelude.{
  Bytes, arith, get_or-lt, length, length-set, set, set-Bytes, ℕ, ◌%◌, ◌+◌, ◌<◌, ◌≡◌, ◌≤◌, ◌⊎◌,
}
use libmobile.Serial.Incoming.{
  header_done, on_acknowledge, on_acknowledge_pad, on_checksum, on_data, on_header, on_idle_check,
  on_waiting,
}
use libmobile.Serial.Outgoing.{
  on_response_acknowledge, on_response_checksum, on_response_data, on_response_header,
  on_response_start,
}

-- Where `b->current` may stand in each state.
abbrev pub CurrentFits : SerialState → BufferSerial → Type 0
CurrentFits SerialState.header_recv b = b.current < 4
CurrentFits SerialState.data_recv b = b.current < b.data_size
CurrentFits SerialState.data_pad b = (0 < b.current) × (b.current < 4)
CurrentFits SerialState.checksum_recv b = b.current < 2
CurrentFits SerialState.acknowledge_pad b = (0 < b.current) × (b.current ≤ 2)
CurrentFits SerialState.response_header b = b.current < 4
CurrentFits SerialState.response_data b = b.current < b.data_size
CurrentFits SerialState.response_data_pad b = (0 < b.current) × (b.current < 4)
CurrentFits SerialState.response_checksum b = b.current < 2
CurrentFits SerialState.response_acknowledge b = b.current ≤ 4
CurrentFits _ b = Unit

-- The buffers have their declared sizes and hold bytes.
pub record BuffersFit (s : AdapterSerial) (b : BufferSerial) : Type 0 where
  pub header_length : length b.header ≡ 4
  pub footer_length : length b.footer ≡ 2
  pub buffer_length : length s.buffer ≡ 255
  pub header_bytes : Bytes b.header
  pub footer_bytes : Bytes b.footer
  pub buffer_bytes : Bytes s.buffer
  pub size_fits : b.data_size < 256
  pub current_fits : b.current < 256
  pub checksum_fits : b.checksum < 65536

pub record IsValid (s : AdapterSerial) (b : BufferSerial) : Type 0 where
  pub buffers : BuffersFit s b
  pub current : CurrentFits s.state b

abbrev pub ReplyValid : Reply → Type 0
ReplyValid (s, b, c) = IsValid s b

pub on_waiting-IsValid :
    (s : AdapterSerial) (b : BufferSerial) (c : ℕ)
    → BuffersFit s b
    → s.state ≡ SerialState.waiting
    → ReplyValid (on_waiting s b c)
unfolding on_waiting
on_waiting-IsValid s b c f e = ground arith

pub header_done-IsValid :
    (l : Link) (s : AdapterSerial) (b : BufferSerial)
    → BuffersFit s b
    → ReplyValid (header_done l s b)
unfolding header_done
header_done-IsValid l s b f = ground (arith, get_or-lt b.header 3 f.header_bytes)

pub on_header-IsValid :
    (l : Link) (s : AdapterSerial) (b : BufferSerial) (c : ℕ)
    → BuffersFit s b
    → s.state ≡ SerialState.header_recv
    → b.current < 4
    → c < 256
    → ReplyValid (on_header l s b c)
unfolding on_header
on_header-IsValid l s b c f e h hc = ground (
  arith,
  length-set b.header b.current c,
  set-Bytes b.header b.current c f.header_bytes hc,
  header_done-IsValid l s (record b {
    header = set b.header b.current c;
    current = (b.current + 1) % 256;
    checksum = (b.checksum + c) % 65536;
  }),
)

pub on_data-IsValid :
    (s : AdapterSerial) (b : BufferSerial) (c : ℕ)
    → BuffersFit s b
    → s.state ≡ SerialState.data_recv
    → b.current < b.data_size
    → c < 256
    → ReplyValid (on_data s b c)
unfolding on_data
on_data-IsValid s b c f e h hc =
    ground
      (arith, length-set s.buffer b.current c, set-Bytes s.buffer b.current c f.buffer_bytes hc)

pub on_pad-IsValid :
    (to : SerialState) (s : AdapterSerial) (b : BufferSerial)
    → BuffersFit s b
    → 0 < b.current
    → ((s.state ≡ SerialState.data_pad) × (to ≡ SerialState.checksum_recv))
      ⊎ ((s.state ≡ SerialState.response_data_pad) × (to ≡ SerialState.response_checksum))
    → b.current < 4
    → let (s', b') = on_pad to s b in IsValid s' b'
unfolding on_pad
on_pad-IsValid to s b f p e h = ground arith

pub on_checksum-IsValid :
    (s : AdapterSerial) (b : BufferSerial) (c : ℕ)
    → BuffersFit s b
    → s.state ≡ SerialState.checksum_recv
    → b.current < 2
    → c < 256
    → ReplyValid (on_checksum s b c)
unfolding on_checksum
on_checksum-IsValid s b c f e h hc =
    ground
      (arith, length-set b.footer b.current c, set-Bytes b.footer b.current c f.footer_bytes hc)

pub on_acknowledge-IsValid :
    (s : AdapterSerial) (b : BufferSerial) (c : ℕ)
    → BuffersFit s b
    → ReplyValid (on_acknowledge s b c)
unfolding on_acknowledge
on_acknowledge-IsValid s b c f = ground arith

pub on_acknowledge_pad-IsValid :
    (s : AdapterSerial) (b : BufferSerial)
    → BuffersFit s b
    → s.state ≡ SerialState.acknowledge_pad
    → 0 < b.current
    → b.current ≤ 2
    → ReplyValid (on_acknowledge_pad s b)
unfolding on_acknowledge_pad
on_acknowledge_pad-IsValid s b f e p h = ground arith

pub on_idle_check-IsValid :
    (s : AdapterSerial) (b : BufferSerial) (c : ℕ)
    → BuffersFit s b
    → s.state ≡ SerialState.idle_check
    → ReplyValid (on_idle_check s b c)
unfolding on_idle_check
on_idle_check-IsValid s b c f e = ground arith

pub on_response_start-IsValid :
    (s : AdapterSerial) (b : BufferSerial)
    → BuffersFit s b
    → s.state ≡ SerialState.response_start
    → ReplyValid (on_response_start s b)
unfolding on_response_start
on_response_start-IsValid s b f e = ground (arith, get_or-lt b.header 3 f.header_bytes)

pub on_response_header-IsValid :
    (s : AdapterSerial) (b : BufferSerial)
    → BuffersFit s b
    → s.state ≡ SerialState.response_header
    → b.current < 4
    → ReplyValid (on_response_header s b)
unfolding on_response_header
on_response_header-IsValid s b f e h = ground arith

pub on_response_data-IsValid :
    (s : AdapterSerial) (b : BufferSerial)
    → BuffersFit s b
    → s.state ≡ SerialState.response_data
    → b.current < b.data_size
    → ReplyValid (on_response_data s b)
unfolding on_response_data
on_response_data-IsValid s b f e h = ground arith

pub on_response_checksum-IsValid :
    (s : AdapterSerial) (b : BufferSerial)
    → BuffersFit s b
    → s.state ≡ SerialState.response_checksum
    → b.current < 2
    → ReplyValid (on_response_checksum s b)
unfolding on_response_checksum
on_response_checksum-IsValid s b f e h = ground arith

pub on_response_acknowledge-IsValid :
    (s : AdapterSerial) (b : BufferSerial) (c : ℕ)
    → BuffersFit s b
    → s.state ≡ SerialState.response_acknowledge
    → b.current ≤ 4
    → ReplyValid (on_response_acknowledge s b c)
unfolding on_response_acknowledge
on_response_acknowledge-IsValid s b c f e h = ground arith
