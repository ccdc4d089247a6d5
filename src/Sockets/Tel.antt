-- ===== src/Sockets/Tel.antt =====
-- commands.c: dialling and waiting keep the account of the sockets.
use libmobile.Sockets.Ledger.{Accounted, Ledger, audited}
use libmobile.Adapter.{
  Adapter, Callback, ConnectionState, Packet, disconnected, wait, wait_relay, wait_timeout, call,
  p2p_conn, Addr, addrtype_ipv4, addrtype_none, timer_command,
}
use libmobile.Commands.Base.{Answer, error_packet, put_state, reply, is_internet, data_at}
use libmobile.Prelude.{
  Bool, arith, false, none, some, true, ℕ, ◌≡◌, Option, if_intro, is_negative, is_zero, to_ℕ, List,
  copy, not, ◌==◌, ltb, refl, ◌≢◌, ◌≤◌,
}
use libmobile.Commands.Tel.{
  call_error, hang_up, number_in, open_call, tel_ip, tel_relay, dial, is_isp, put_addr, tel_ip_step,
  tel_relay_step, command_tel, may_dial, report_number, tel_begin, tel_begin_step, first_byte_ok,
}
use libmobile.Callback.{
  cb_sock_connect, cb_sock_open, cb_update_number, cb_time_check_ms, cb_time_latch,
}
use libmobile.Commands.Internet.{close_kept}
use libmobile.Relay.Procedure.{proc_call}
use libmobile.Sockets.Procedure.{proc_call-Keeps}
use libmobile.Util.{parse_phoneaddr}
use libmobile.Relay.Exchange.{relay_init}
use libmobile.Sockets.Relay.{Keeps}
use libmobile.Sockets.Session.{drop_connection-Accounted, drop_connection-state}
use libmobile.Commands.Session.{drop_connection}

-- Whether a handler sends an answer.
abbrev pub sends : Option Packet → Bool
sends none = false
sends (some p) = true

abbrev pub is_quiet : ConnectionState → Bool
is_quiet disconnected = true
is_quiet wait_timeout = true
is_quiet _ = false

abbrev pub is_listening : ConnectionState → Bool
is_listening wait = true
is_listening wait_relay = true
is_listening _ = false

module _ {W : Type 0} where
  -- Between two commands of a session: socket 0 is closed while nothing goes on, and open while a
  -- call is awaited.
  pub record Settled (a : Adapter (Ledger W)) : Type 0 where
    pub account : Accounted a
    pub quiet : is_quiet a.commands.state ≡ true → a.commands.connections 0 ≡ false
    pub listening : is_listening a.commands.state ≡ true → a.commands.connections 0 ≡ true

  -- While a number is being dialled.
  pub record Dialling (a : Adapter (Ledger W)) : Type 0 where
    pub account : Accounted a
    pub is_disconnected : a.commands.state ≡ disconnected
    pub connection0 : a.commands.connections 0 ≡ true

  -- A dialling that goes on, or an answer.
  pub record AfterTel (r : Answer (Ledger W)) : Type 0 where
    pub account : Accounted r.1
    pub goes_on : sends r.0 ≡ false → r.1.commands.state ≡ disconnected
    pub goes_on_open : sends r.0 ≡ false → r.1.commands.connections 0 ≡ true
    pub quiet :
        sends r.0 ≡ true → is_quiet r.1.commands.state ≡ true → r.1.commands.connections 0 ≡ false
    pub listening :
        sends r.0 ≡ true
        → is_listening r.1.commands.state ≡ true
        → r.1.commands.connections 0 ≡ true

module _ {W : Type 0} (cb : Callback W) where
  hang_up-AfterTel :
      (a : Adapter (Ledger W)) (p : Packet) (e : ℕ)
      → Dialling a
      → AfterTel (hang_up (audited cb) a p e)
  unfolding hang_up close_kept error_packet
  hang_up-AfterTel a p e d = ground arith

  report_number-Keeps :
      (a : Adapter (Ledger W)) (p : Packet) → Keeps a (report_number (audited cb) a p)
  unfolding report_number cb_update_number
  report_number-Keeps a p = ground arith

  tel_ip-AfterTel :
      (a : Adapter (Ledger W)) (p : Packet) → Dialling a → AfterTel (tel_ip (audited cb) a p)
  unfolding tel_ip cb_sock_connect is_internet
  tel_ip-AfterTel a p d =
      let (rc, a1) = cb_sock_connect (audited cb) a p2p_conn a.buffer_commands.processing_addr in
      if_intro AfterTel (is_zero rc) (λ e. ground arith)
        (λ e.
          if_intro AfterTel (is_negative rc) (λ e'. hang_up-AfterTel a1 p 3 (ground arith))
            (λ e'. let kept = report_number-Keeps a1 p in ground arith))

  answered-AfterTel :
      (a : Adapter (Ledger W)) (p : Packet) (error : Option ℕ)
      → Dialling a
      → AfterTel
          (elim error [ some e ↦ hang_up (audited cb) a p e | none ↦ reply p 0 (put_state a call) ])
  unfolding is_internet
  answered-AfterTel a p none d = ground arith
  answered-AfterTel a p (some e) d = hang_up-AfterTel a p e d

  tel_relay-AfterTel :
      (a : Adapter (Ledger W)) (p : Packet) → Dialling a → AfterTel (tel_relay (audited cb) a p)
  unfolding tel_relay
  tel_relay-AfterTel a p d =
      let addr = a.buffer_commands.processing_addr in
      let (rc, a1) = proc_call (audited cb) a 0 addr (number_in a p) in
      let kept = proc_call-Keeps cb a addr (number_in a p) in
      let still : Dialling a1 = ground arith in
      if_intro AfterTel (is_zero rc) (λ e. ground arith)
        (λ e.
          if_intro AfterTel (is_negative rc) (λ e'. hang_up-AfterTel a1 p 3 still)
            (λ e'. answered-AfterTel a1 p (call_error (to_ℕ rc)) still))

  open_call-AfterTel :
      (a : Adapter (Ledger W)) (p : Packet) (addrtype step : ℕ)
      → Settled a
      → a.commands.state ≡ disconnected
      → AfterTel (open_call (audited cb) a p addrtype step)
  unfolding open_call cb_sock_open error_packet
  open_call-AfterTel a p addrtype step s e = ground arith

  dial-AfterTel :
      (a : Adapter (Ledger W)) (p : Packet) (n : List ℕ)
      → Settled a
      → a.commands.state ≡ disconnected
      → AfterTel (dial (audited cb) a p n)
  unfolding dial cb_update_number error_packet relay_init is_internet
  dial-AfterTel a p n s e =
      if_intro AfterTel (is_isp n) (λ _. ground arith)
        (λ _.
          if_intro AfterTel (not (a.config.relay.type == addrtype_none))
            (λ _. open_call-AfterTel _ p _ tel_relay_step (ground arith) e)
            (λ _.
              if_intro AfterTel (p.length == 13) (λ _. dial_ip (parse_phoneaddr n))
                (λ _. ground arith)))
    where
      dial_ip :
          (ip : Option (List ℕ))
          → AfterTel (elim ip [
            | none ↦ error_packet p 3 a
            | some bytes ↦
                let addr : Addr = record {
                  type = addrtype_ipv4;
                  port = a.config.p2p_port;
                  host = copy a.buffer_commands.processing_addr.host 0 bytes;
                } in
                open_call (audited cb) (put_addr a addr) p addr.type tel_ip_step
          ])
      dial_ip none = ground arith
      dial_ip (some bytes) = open_call-AfterTel _ p 1 tel_ip_step (ground arith) e

  tel_begin-AfterTel :
      (a : Adapter (Ledger W)) (p : Packet) → Settled a → AfterTel (tel_begin (audited cb) a p)
  unfolding tel_begin error_packet may_dial is_internet
  tel_begin-AfterTel a p s =
      let dropped = drop_connection-Accounted cb a s.account in
      let state = drop_connection-state cb a 0 in
      let a1 = put_state (drop_connection (audited cb) a 0) disconnected in
      if_intro AfterTel (not (may_dial a.commands.state)) (λ _. ground arith)
        (λ free.
          if_intro AfterTel (ltb p.length 1) (λ _. ground arith)
            (λ _.
              if_intro AfterTel (not (first_byte_ok a1.serial.device (data_at a1 0)))
                (λ _. ground arith) (λ _. dial-AfterTel _ _ _ (ground arith) refl)))

  -- With the sockets in order before it, dialling, at each of its three steps and whatever the
  -- callbacks return, keeps account of the sockets: none is opened twice, or used or closed while
  -- it is not open. A dialling that goes on is disconnected with its socket open; after an answer
  -- the socket is closed in the states disconnected and wait-timeout, and open in the states that
  -- await a call.
  pub command_tel-AfterTel :
      (a : Adapter (Ledger W)) (p : Packet)
      → (a.buffer_commands.processing ≡ 0 → Settled a)
      → (a.buffer_commands.processing ≢ 0 → Dialling a)
      → a.buffer_commands.processing ≤ 2
      → AfterTel (command_tel (audited cb) a p)
  unfolding command_tel cb_time_latch cb_time_check_ms
  command_tel-AfterTel a p s d h =
      let step = a.buffer_commands.processing in
      let (late, a1) = cb_time_check_ms (audited cb) a timer_command 60000 in
      if_intro AfterTel (step == tel_begin_step)
        (λ e. let start : Settled a = s (ground arith) in tel_begin-AfterTel _ p (ground arith))
        (λ e.
          let before : Dialling a = d (ground arith) in
          let now : Dialling a1 = ground arith in
          if_intro AfterTel (step == tel_ip_step)
            (λ _.
              if_intro AfterTel late (λ _. hang_up-AfterTel a1 p 3 now)
                (λ _. tel_ip-AfterTel a1 p now))
            (λ e1.
              if_intro AfterTel (step == tel_relay_step)
                (λ _.
                  if_intro AfterTel late (λ _. hang_up-AfterTel a1 p 3 now)
                    (λ _. tel_relay-AfterTel a1 p now))
                (λ e2. absurd (ground arith))))
