-- ===== src/Serial/Diagram.antt =====
-- serial.c: the diagram of the serial state machine, and that every transfer follows it.
use libmobile.Serial.Types.{
  AdapterSerial, BufferSerial, Link, SerialState, acknowledge, acknowledge_pad, checksum_recv,
  data_pad, data_recv, header_recv, idle_check, init, response_acknowledge, response_checksum,
  response_data, response_data_pad, response_header, response_init, response_start,
  response_waiting, waiting, next, prev,
}
use libmobile.Prelude.{arith, ℕ, ◌≡◌, List, [], refl, ◌∙◌, ◌∷◌, inr, ◌≤◌, ◌⊎◌}
use libmobile.Serial.Transfer.{
  serial_transfer, byte_of, finish_word, serial_transfer_32bit, dispatch,
}

infix 40 ◌⟶◌ ◌⟶*◌
-- The states in which the machine may stay: those that count bytes, and `response_waiting`, which
-- the main loop moves on from. A state that takes a single byte is left with it.
pub data Stays : SerialState → Type 0 where
  stay_waiting : Stays waiting
  stay_header : Stays header_recv
  stay_data : Stays data_recv
  stay_pad : Stays data_pad
  stay_checksum : Stays checksum_recv
  stay_acknowledge_pad : Stays acknowledge_pad
  stay_idle_check : Stays idle_check
  stay_response_waiting : Stays response_waiting
  stay_response_start : Stays response_start
  stay_response_header : Stays response_header
  stay_response_data : Stays response_data
  stay_response_pad : Stays response_data_pad
  stay_response_checksum : Stays response_checksum
  stay_response_acknowledge : Stays response_acknowledge

-- The moves of the machine when a byte is transferred.
pub data ◌⟶◌ : SerialState → SerialState → Type 0 where
  stay : {s : SerialState} → Stays s → s ⟶ s
  begin : init ⟶ waiting
  magic : waiting ⟶ header_recv
  header_data : header_recv ⟶ data_recv
  header_checksum : header_recv ⟶ checksum_recv
  data_padding : data_recv ⟶ data_pad
  data_checksum : data_recv ⟶ checksum_recv
  pad_checksum : data_pad ⟶ checksum_recv
  checksum_acknowledge : checksum_recv ⟶ acknowledge
  acknowledge_word : acknowledge ⟶ acknowledge_pad
  acknowledge_refused : acknowledge ⟶ waiting
  acknowledge_byte : acknowledge ⟶ idle_check
  acknowledge_padded : acknowledge_pad ⟶ idle_check
  idle_restart : idle_check ⟶ waiting
  idle_accept : idle_check ⟶ response_waiting
  response_begin : response_init ⟶ response_start
  response_magic : response_start ⟶ response_header
  response_has_data : response_header ⟶ response_data
  response_no_data : response_header ⟶ response_checksum
  response_padding : response_data ⟶ response_data_pad
  response_data_done : response_data ⟶ response_checksum
  response_pad_done : response_data_pad ⟶ response_checksum
  response_sent : response_checksum ⟶ response_acknowledge
  response_again : response_acknowledge ⟶ response_start
  response_done : response_acknowledge ⟶ waiting

pub data ◌⟶*◌ : SerialState → SerialState → Type 0 where
  here : {s : SerialState} → s ⟶* s
  then : {s t u : SerialState} → s ⟶ t → t ⟶* u → s ⟶* u

ruleset staying = (
  stay, stay_waiting, stay_header, stay_data, stay_pad, stay_checksum, stay_acknowledge_pad,
  stay_idle_check, stay_response_waiting, stay_response_start, stay_response_header,
  stay_response_data, stay_response_pad, stay_response_checksum, stay_response_acknowledge,
)

ruleset receiving = (
  begin, magic, header_data, header_checksum, data_padding, data_checksum, pad_checksum,
  checksum_acknowledge, acknowledge_word, acknowledge_refused, acknowledge_byte, acknowledge_padded,
  idle_restart, idle_accept,
)

ruleset sending = (
  response_begin, response_magic, response_has_data, response_no_data, response_padding,
  response_data_done, response_pad_done, response_sent, response_again, response_done,
)

-- What has been counted when a state is left: the byte that arrives is the last one of it. The
-- states that take a single byte count nothing.
abbrev pub Full : SerialState → BufferSerial → Type 0
Full waiting b = b.current ≡ 1
Full header_recv b = 3 ≤ b.current
Full data_recv b = b.data_size ≤ next b.current
Full data_pad b = prev b.current ≡ 0
Full checksum_recv b = 1 ≤ b.current
Full acknowledge_pad b = prev b.current ≡ 0
Full idle_check b = b.current ≡ 0
Full response_start b = 1 ≤ b.current
Full response_header b = 3 ≤ b.current
Full response_data b = b.data_size ≤ next b.current
Full response_data_pad b = prev b.current ≡ 0
Full response_checksum b = 1 ≤ b.current
Full response_acknowledge b = 2 ≤ b.current
Full _ b = Unit

-- What a transfer does to the state: it follows an edge, and a state that counts bytes is left only
-- when the count is full.
pub record Moves (s : AdapterSerial) (b : BufferSerial) (s' : AdapterSerial) : Type 0 where
  pub edge : s.state ⟶ s'.state
  pub full : (s'.state ≡ s.state) ⊎ Full s.state b
  pub same_active : s'.active ≡ s.active
  pub same_mode : s'.mode_32bit ≡ s.mode_32bit

serial_transfer-edge :
    (l : Link) (s : AdapterSerial) (b : BufferSerial) (c : ℕ)
    → let s' = (serial_transfer l s b c).0 in
      (s.state ⟶ s'.state) × (s'.active ≡ s.active) × (s'.mode_32bit ≡ s.mode_32bit)
unfolding serial_transfer
serial_transfer-edge l s b c = grind (arith, staying, receiving, sending)

dispatch-Full :
    (st : SerialState) (l : Link) (s : AdapterSerial) (b : BufferSerial) (c : ℕ)
    → s.state ≡ st
    → ((dispatch st l s b c).0.state ≡ st) ⊎ Full st b
unfolding dispatch
dispatch-Full init l s b c e = inr tt
dispatch-Full waiting l s b c e = ground arith
dispatch-Full header_recv l s b c e = ground arith
dispatch-Full data_recv l s b c e = ground arith
dispatch-Full data_pad l s b c e = ground arith
dispatch-Full checksum_recv l s b c e = ground arith
dispatch-Full acknowledge l s b c e = inr tt
dispatch-Full acknowledge_pad l s b c e = ground arith
dispatch-Full idle_check l s b c e = ground arith
dispatch-Full response_waiting l s b c e = inr tt
dispatch-Full response_init l s b c e = inr tt
dispatch-Full response_start l s b c e = ground arith
dispatch-Full response_header l s b c e = ground arith
dispatch-Full response_data l s b c e = ground arith
dispatch-Full response_data_pad l s b c e = ground arith
dispatch-Full response_checksum l s b c e = ground arith
dispatch-Full response_acknowledge l s b c e = ground arith

pub serial_transfer-Moves :
    (l : Link) (s : AdapterSerial) (b : BufferSerial) (c : ℕ)
    → Moves s b (serial_transfer l s b c).0
unfolding serial_transfer
serial_transfer-Moves l s b c =
    let (edge, active, mode) = serial_transfer-edge l s b c in
    record {
      edge = edge;
      full = dispatch-Full s.state l s b c refl;
      same_active = active;
      same_mode = mode;
    }

-- Every byte of a sequence moves the machine, from the state that the bytes before it have led to.
abbrev pub Follows : Link → AdapterSerial → BufferSerial → List ℕ → Type 0
Follows l s b [] = Unit
Follows l s b (c ∷ cs) =
    let (s', b', d) = serial_transfer l s b c in Moves s b s' × Follows l s' b' cs

-- Whatever bytes arrive in whatever state, each of them moves the serial machine along one edge of
-- its diagram, or leaves it in a state that counts bytes or waits for the main loop; a state that
-- counts bytes is left only with the last byte that it counts; and neither the serial mode nor the
-- note of activity changes.
pub transfer_all-Follows :
    (l : Link) (s : AdapterSerial) (b : BufferSerial) (cs : List ℕ) → Follows l s b cs
transfer_all-Follows l s b [] = tt
transfer_all-Follows l s b (c ∷ cs) =
    let (s', b', d) = serial_transfer l s b c in
    (serial_transfer-Moves l s b c, transfer_all-Follows l s' b' cs)

-- What a transfer of a word does to the state
pub record Travels (s s' : AdapterSerial) : Type 0 where
  pub path : s.state ⟶* s'.state
  pub same_active : s'.active ≡ s.active
  pub same_mode : s'.mode_32bit ≡ s.mode_32bit

Travels-cons : {s t u : AdapterSerial} {b : BufferSerial} → Moves s b t → Travels t u → Travels s u
Travels-cons m h = record {
  path = then m.edge h.path;
  same_active = h.same_active ∙ m.same_active;
  same_mode = h.same_mode ∙ m.same_mode;
}

acknowledged : acknowledge ⟶* idle_check
acknowledged = then acknowledge_byte here

finish_word-Travels :
    (s : AdapterSerial) (b : BufferSerial) (d0 d1 d2 d3 : ℕ)
    → Travels s (finish_word s b d0 d1 d2 d3).0
unfolding finish_word
finish_word-Travels s b d0 d1 d2 d3 = grind (arith, here, acknowledged)

-- A transfer of a word, whose acknowledgement is another, follows a path of the same diagram.
pub serial_transfer_32bit-Travels :
    (l : Link) (s : AdapterSerial) (b : BufferSerial) (w : ℕ)
    → Travels s (serial_transfer_32bit l s b w).0
unfolding serial_transfer_32bit
serial_transfer_32bit-Travels l s b w =
    let (s0, b0, d0) = serial_transfer l s b (byte_of w 3) in
    let (s1, b1, d1) = serial_transfer l s0 b0 (byte_of w 2) in
    let (s2, b2, d2) = serial_transfer l s1 b1 (byte_of w 1) in
    let (s3, b3, d3) = serial_transfer l s2 b2 (byte_of w 0) in
    Travels-cons (serial_transfer-Moves l s b (byte_of w 3)) (
      Travels-cons (serial_transfer-Moves l s0 b0 (byte_of w 2)) (
        Travels-cons (serial_transfer-Moves l s1 b1 (byte_of w 1)) (
          Travels-cons (serial_transfer-Moves l s2 b2 (byte_of w 0))
            (finish_word-Travels s3 b3 d0 d1 d2 d3))))
