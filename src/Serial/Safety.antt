-- ===== src/Serial/Safety.antt =====
-- serial.c: `mobile_serial_transfer` keeps its buffers and stays inside them.
use libmobile.Serial.Types.{AdapterSerial, BufferSerial, Link, SerialState}
use libmobile.Serial.Bounds.{
  BuffersFit, CurrentFits, IsValid, ReplyValid, on_acknowledge-IsValid, on_acknowledge_pad-IsValid,
  on_checksum-IsValid, on_data-IsValid, on_header-IsValid, on_idle_check-IsValid, on_pad-IsValid,
  on_response_acknowledge-IsValid, on_response_checksum-IsValid, on_response_data-IsValid,
  on_response_header-IsValid, on_response_start-IsValid, on_waiting-IsValid,
}
use libmobile.Prelude.{Bytes, List, [], arith, inl, inr, length, refl, sym, ℕ, ◌<◌, ◌∷◌, ◌≡◌}
use libmobile.Serial.Transfer.{dispatch, serial_transfer, transfer_all}

dispatch-IsValid :
    (st : SerialState) (l : Link) (s : AdapterSerial) (b : BufferSerial) (c : ℕ)
    → st ≡ s.state
    → BuffersFit s b
    → CurrentFits st b
    → c < 256
    → ReplyValid (dispatch st l s b c)
unfolding dispatch
dispatch-IsValid SerialState.init l s b c e f h hc =
    on_waiting-IsValid (record s { state = SerialState.waiting }) (record b { current = 0 }) c
      (ground arith) refl
dispatch-IsValid SerialState.waiting l s b c e f h hc = on_waiting-IsValid s b c f (sym e)
dispatch-IsValid SerialState.header_recv l s b c e f h hc = on_header-IsValid l s b c f (sym e) h hc
dispatch-IsValid SerialState.data_recv l s b c e f h hc = on_data-IsValid s b c f (sym e) h hc
dispatch-IsValid SerialState.data_pad l s b c e f h hc =
    on_pad-IsValid _ s b f h.0 (inl (sym e, refl)) h.1
dispatch-IsValid SerialState.checksum_recv l s b c e f h hc =
    on_checksum-IsValid s b c f (sym e) h hc
dispatch-IsValid SerialState.acknowledge l s b c e f h hc = on_acknowledge-IsValid s b c f
dispatch-IsValid SerialState.acknowledge_pad l s b c e f h hc =
    on_acknowledge_pad-IsValid s b f (sym e) h.0 h.1
dispatch-IsValid SerialState.idle_check l s b c e f h hc = on_idle_check-IsValid s b c f (sym e)
dispatch-IsValid SerialState.response_waiting l s b c e f h hc = record {
  buffers = f;
  current = rw (← e) tt;
}
dispatch-IsValid SerialState.response_init l s b c e f h hc =
    on_response_start-IsValid (record s { state = SerialState.response_start })
      (record b { current = 0 }) (ground arith) refl
dispatch-IsValid SerialState.response_start l s b c e f h hc =
    on_response_start-IsValid s b f (sym e)
dispatch-IsValid SerialState.response_header l s b c e f h hc =
    on_response_header-IsValid s b f (sym e) h
dispatch-IsValid SerialState.response_data l s b c e f h hc =
    on_response_data-IsValid s b f (sym e) h
dispatch-IsValid SerialState.response_data_pad l s b c e f h hc =
    on_pad-IsValid _ s b f h.0 (inr (sym e, refl)) h.1
dispatch-IsValid SerialState.response_checksum l s b c e f h hc =
    on_response_checksum-IsValid s b f (sym e) h
dispatch-IsValid SerialState.response_acknowledge l s b c e f h hc =
    on_response_acknowledge-IsValid s b c f (sym e) h

-- Whatever byte arrives, in whatever state, every buffer keeps its size and `current` stays at an
-- index that the state's handler may use.
pub serial_transfer-IsValid :
    (l : Link) (s : AdapterSerial) (b : BufferSerial) (c : ℕ)
    → IsValid s b
    → c < 256
    → ReplyValid (serial_transfer l s b c)
unfolding serial_transfer
serial_transfer-IsValid l s b c v hc = dispatch-IsValid s.state l s b c refl v.buffers v.current hc

-- The index at which each state's handler reads or writes one of the buffers lies inside it.
pub record InBounds (s : AdapterSerial) (b : BufferSerial) : Type 0 where
  pub receives_header : s.state ≡ SerialState.header_recv → b.current < length b.header
  pub receives_data : s.state ≡ SerialState.data_recv → b.current < length s.buffer
  pub receives_footer : s.state ≡ SerialState.checksum_recv → b.current < length b.footer
  pub sends_header : s.state ≡ SerialState.response_header → b.current < length b.header
  pub sends_data : s.state ≡ SerialState.response_data → b.current < length s.buffer
  pub sends_footer : s.state ≡ SerialState.response_checksum → b.current < length b.footer

IsValid-InBounds : {s : AdapterSerial} {b : BufferSerial} → IsValid s b → InBounds s b
IsValid-InBounds v = ground arith

transfer_all-IsValid :
    (l : Link) (s : AdapterSerial) (b : BufferSerial) (cs : List ℕ)
    → IsValid s b
    → Bytes cs
    → let (s', b', out) = transfer_all l s b cs in IsValid s' b'
unfolding transfer_all
transfer_all-IsValid l s b [] v h = v
transfer_all-IsValid l s b (c ∷ cs) v h =
    let (s', b', d) = serial_transfer l s b c in
    transfer_all-IsValid l s' b' cs (serial_transfer-IsValid l s b c v h.0) h.1

-- After any bytes at all, no access of the state machine leaves its buffers.
pub transfer_all-InBounds :
    (l : Link) (s : AdapterSerial) (b : BufferSerial) (cs : List ℕ)
    → IsValid s b
    → Bytes cs
    → let (s', b', out) = transfer_all l s b cs in InBounds s' b'
transfer_all-InBounds l s b cs v h = IsValid-InBounds (transfer_all-IsValid l s b cs v h)
