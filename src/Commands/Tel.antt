-- ===== src/Commands/Tel.antt =====
-- commands.c: `command_tel`, which dials a number: an internet provider, another adapter behind the
-- relay, or the address of one.
use libmobile.Adapter.{
  Adapter, Addr, Callback, ConnectionState, Packet, addrtype_ipv4, addrtype_none, call, call_isp,
  disconnected, number_peer, p2p_conn, tcp, timer_command, wait, wait_relay, wait_timeout,
}
use libmobile.Commands.Base.{
  Answer, data_at, error_packet, put_connection, put_data, put_processing, put_state, reply,
}
use libmobile.Prelude.{
  Bool, List, Option, [], copy, drop, false, if◌then◌else◌, is_negative, is_zero, leb, length, ltb,
  min, none, not, some, take, to_ℕ, true, ℕ, ◌&&◌, ◌++◌, ◌+◌, ◌-◌, ◌==◌, ◌||◌, ◌∷◌,
}
use libmobile.Util.{addr_copy, parse_phoneaddr, same_bytes}
use libmobile.Callback.{
  cb_sock_connect, cb_sock_open, cb_time_check_ms, cb_time_latch, cb_update_number,
}
use libmobile.Commands.Internet.{close_kept}
use libmobile.Commands.Session.{drop_connection}
use libmobile.Relay.Procedure.{proc_call}
use libmobile.Relay.Exchange.{relay_init}

abbrev pub tel_begin_step : ℕ
tel_begin_step = 0

abbrev pub tel_ip_step : ℕ
tel_ip_step = 1

abbrev pub tel_relay_step : ℕ
tel_relay_step = 2

-- `isp_numbers`: "#9677", "#9477", "0077487751", "0077487752" and "0755311973"
abbrev pub isp_numbers : List (List ℕ)
isp_numbers =
    (b'#' ∷ b'9' ∷ b'6' ∷ b'7' ∷ b'7' ∷ [])
    ∷ (b'#' ∷ b'9' ∷ b'4' ∷ b'7' ∷ b'7' ∷ [])
    ∷ (b'0' ∷ b'0' ∷ b'7' ∷ b'7' ∷ b'4' ∷ b'8' ∷ b'7' ∷ b'7' ∷ b'5' ∷ b'1' ∷ [])
    ∷ (b'0' ∷ b'0' ∷ b'7' ∷ b'7' ∷ b'4' ∷ b'8' ∷ b'7' ∷ b'7' ∷ b'5' ∷ b'2' ∷ [])
    ∷ (b'0' ∷ b'7' ∷ b'5' ∷ b'5' ∷ b'3' ∷ b'1' ∷ b'1' ∷ b'9' ∷ b'7' ∷ b'3' ∷ [])
    ∷ []

unfoldable pub one_of_numbers : List ℕ → List (List ℕ) → Bool
unfolding same_bytes
one_of_numbers number [] = false
one_of_numbers number (n ∷ ns) = same_bytes number n || one_of_numbers number ns

unfoldable pub is_isp : List ℕ → Bool
unfolding one_of_numbers
is_isp number = one_of_numbers number isp_numbers

unfoldable pub dialable : ℕ → Bool
dialable c = leb b'0' c && leb c b'9' || (c == b'#' || c == b'*')

-- The characters that the loop over the packet keeps.
unfoldable pub keep_dialable : List ℕ → List ℕ
unfolding dialable
keep_dialable [] = []
keep_dialable (c ∷ cs) = let rest = keep_dialable cs in if dialable c then c ∷ rest else rest

-- The first byte of the packet, by the device: blue wants 0, green and red 1 or 9.
unfoldable pub first_byte_ok : ℕ → ℕ → Bool
first_byte_ok device c =
    if device == 8 then c == 0 else if device == 10 || device == 11 then c == 1 || c == 9 else true

unfoldable pub may_dial : ConnectionState → Bool
may_dial disconnected = true
may_dial wait = true
may_dial wait_relay = true
may_dial wait_timeout = true
may_dial _ = false

-- The error of a result of the relay: `none` for ACCEPTED.
unfoldable pub call_error : ℕ → Option ℕ
call_error rc = if rc == 1 then none else if rc == 3 || rc == 4 then some 0 else some 3

module _ {W : Type 0} where
  -- `&b->processing_addr`
  abbrev pub put_addr : Adapter W → Addr → Adapter W
  put_addr a addr = record a {
    buffer_commands = record a.buffer_commands { processing_addr = addr };
  }

  -- A packet that a later call takes up again is the one in the buffer.
  abbrev pub put_packet : Adapter W → Packet → Adapter W
  put_packet a p = record a { buffer_commands = record a.buffer_commands { packet = p } }

  -- The number that stands behind the first byte of the packet.
  abbrev pub number_in : Adapter W → Packet → List ℕ
  number_in a p = take (p.length - 1) (drop 1 a.serial.buffer)

module _ {W : Type 0} (cb : Callback W) where
  -- Opening the connection for the call.
  unfoldable pub open_call : Adapter W → Packet → ℕ → ℕ → Answer W
  open_call a p addrtype step =
      let (ok, a') = cb_sock_open cb a p2p_conn tcp addrtype 0 in
      if ok
      then (none, put_packet (put_processing (put_connection a' p2p_conn true) step) p)
      else error_packet p 3 a'

  -- Dialling the number that has been filtered out of the packet.
  unfoldable pub dial : Adapter W → Packet → List ℕ → Answer W
  dial a p number =
      if is_isp number
      then reply p 0 (put_state (cb_update_number cb a number_peer (some number)) call_isp)
      else if not (a.config.relay.type == addrtype_none)
      then (let addr = addr_copy a.buffer_commands.processing_addr a.config.relay in
          open_call (relay_init (put_addr a addr)) p addr.type tel_relay_step)
      else if p.length == 13
      then elim (parse_phoneaddr number) [
        | none ↦ error_packet p 3 a
        | some ip ↦
            let addr : Addr = record {
              type = addrtype_ipv4;
              port = a.config.p2p_port;
              host = copy a.buffer_commands.processing_addr.host 0 ip;
            } in
            open_call (put_addr a addr) p addr.type tel_ip_step
      ]
      else error_packet p 3 a

  unfoldable pub tel_begin : Adapter W → Packet → Answer W
  tel_begin a p =
      let a1 = put_state (drop_connection cb a p2p_conn) disconnected in
      let number = keep_dialable (take (min (p.length - 1) 0x20) (drop 1 a1.serial.buffer)) in
      let a2 = put_data a1 1 (number ++ (0 ∷ [])) in
      if not (may_dial a.commands.state)
      then error_packet p 1 a
      else if ltb p.length 1
      then error_packet p 2 a
      else if not (first_byte_ok a1.serial.device (data_at a1 0))
      then error_packet p 2 a1
      else dial a2 (record p { length = length number + 1 }) number

  -- `mobile_cb_sock_close(...); s->connections[p2p_conn] = false; return error_packet(...)`
  unfoldable pub hang_up : Adapter W → Packet → ℕ → Answer W
  hang_up a p error = error_packet p error (close_kept cb a p2p_conn)

  -- `if (packet->length - 1 <= MOBILE_MAX_NUMBER_SIZE)` and its block
  unfoldable pub report_number : Adapter W → Packet → Adapter W
  report_number a p =
      if leb (p.length - 1) 0x20
      then cb_update_number cb (put_data a p.length (0 ∷ [])) number_peer (some (number_in a p))
      else a

  unfoldable pub tel_ip : Adapter W → Packet → Answer W
  tel_ip a p =
      let (rc, a') = cb_sock_connect cb a p2p_conn a.buffer_commands.processing_addr in
      if is_zero rc
      then (none, a')
      else if is_negative rc
      then hang_up a' p 3
      else reply p 0 (put_state (report_number a' p) call)

  unfoldable pub tel_relay : Adapter W → Packet → Answer W
  tel_relay a p =
      let (rc, a') = proc_call cb a p2p_conn a.buffer_commands.processing_addr (number_in a p) in
      if is_zero rc
      then (none, a')
      else if is_negative rc
      then hang_up a' p 3
      else elim (call_error (to_ℕ rc)) [
        | some error ↦ hang_up a' p error
        | none ↦ reply p 0 (put_state a' call)
      ]

  unfoldable pub command_tel : Adapter W → Packet → Answer W
  command_tel a p =
      let step = a.buffer_commands.processing in
      let (late, a') = cb_time_check_ms cb a timer_command 60000 in
      if step == tel_begin_step
      then tel_begin (cb_time_latch cb a timer_command) p
      else if step == tel_ip_step
      then (if late then hang_up a' p 3 else tel_ip a' p)
      else if step == tel_relay_step
      then (if late then hang_up a' p 3 else tel_relay a' p)
      else error_packet p 3 a
