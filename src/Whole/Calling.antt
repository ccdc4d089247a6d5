-- ===== src/Whole/Calling.antt =====
-- commands.c: dialling, and moving data, move the connection along the diagram.
use libmobile.Adapter.{
  Adapter, Addr, Callback, Packet, addrtype_ipv4, disconnected, ConnectionState, addrtype_none,
  timer_command, call,
}
use libmobile.Sockets.Ledger.{Ledger, audited}
use libmobile.Prelude.{
  List, Option, arith, copy, none, refl, some, ℕ, ◌≡◌, if_intro, is_negative, is_zero, ltb, not,
  true, ◌==◌, ◌∙◌, ◌≢◌, to_ℕ,
}
use libmobile.Whole.Course.{Turns, same-Turns}
use libmobile.Util.{addr_copy, parse_phoneaddr}
use libmobile.Callback.{
  cb_sock_connect, cb_sock_open, cb_update_number, cb_time_check_ms, cb_time_latch,
}
use libmobile.Commands.Internet.{close_kept}
use libmobile.Commands.Tel.{
  dial, hang_up, is_isp, open_call, put_addr, report_number, tel_begin, tel_ip, tel_ip_step,
  tel_relay_step, command_tel, first_byte_ok, may_dial, number_in, tel_begin_step, tel_relay,
  call_error,
}
use libmobile.Commands.Base.{error_packet, Answer, data_at, put_state, reply}
use libmobile.Relay.Exchange.{relay_init}
use libmobile.Whole.Turn.{same, tel_answered, Turn, tel_dropped, tel_isp}
use libmobile.Commands.Session.{drop_connection}
use libmobile.Relay.Procedure.{proc_call}
use libmobile.Sockets.Procedure.{proc_call-Keeps}

abbrev TurnsFrom : {W : Type 0} → ℕ → ConnectionState → Answer W → Type 0
TurnsFrom c s (p, a) = Turn c s a.commands.state

module _ {W : Type 0} (cb : Callback W) (c : ℕ) where
  open_call_state :
      (a : Adapter (Ledger W)) (p : Packet) (addrtype step : ℕ)
      → (open_call (audited cb) a p addrtype step).1.commands.state ≡ a.commands.state
  unfolding open_call error_packet cb_sock_open
  open_call_state a p addrtype step = ground arith

  dropped :
      (s : ConnectionState) (a b : Adapter (Ledger W))
      → c ≡ 0x12
      → may_dial s ≡ true
      → a.commands.state ≡ disconnected
      → b.commands.state ≡ a.commands.state
      → Turn c s b.commands.state
  dropped s a b e m d k = rw (k ∙ d) (tel_dropped e m)

  dial_ip-Turns :
      (s : ConnectionState) (a : Adapter (Ledger W)) (p : Packet) (ip : Option (List ℕ))
      → c ≡ 0x12
      → may_dial s ≡ true
      → a.commands.state ≡ disconnected
      → TurnsFrom c s (elim ip [
        | none ↦ error_packet p 3 a
        | some ip ↦
            let addr : Addr = record {
              type = addrtype_ipv4;
              port = a.config.p2p_port;
              host = copy a.buffer_commands.processing_addr.host 0 ip;
            } in
            open_call (audited cb) (put_addr a addr) p addr.type tel_ip_step
      ])
  unfolding error_packet
  dial_ip-Turns s a p none e m d = rw d (tel_dropped e m)
  dial_ip-Turns s a p (some ip) e m d =
      let addr : Addr = record {
        type = addrtype_ipv4;
        port = a.config.p2p_port;
        host = copy a.buffer_commands.processing_addr.host 0 ip;
      } in
      dropped s a (open_call (audited cb) (put_addr a addr) p addrtype_ipv4 tel_ip_step).1 e m d
        (open_call_state (put_addr a addr) p addrtype_ipv4 tel_ip_step)

  dial-Turns :
      (s : ConnectionState) (a : Adapter (Ledger W)) (p : Packet) (n : List ℕ)
      → c ≡ 0x12
      → may_dial s ≡ true
      → a.commands.state ≡ disconnected
      → Turn c s (dial (audited cb) a p n).1.commands.state
  unfolding dial cb_update_number error_packet relay_init
  dial-Turns s a p n e m d =
      let addr = addr_copy a.buffer_commands.processing_addr a.config.relay in
      let b = relay_init (put_addr a addr) in
      if_intro (TurnsFrom c s) (is_isp n) (λ _. tel_isp e m)
        (λ _.
          if_intro (TurnsFrom c s) (not (a.config.relay.type == addrtype_none))
            (λ _.
              dropped s a (open_call (audited cb) b p addr.type tel_relay_step).1 e m d
                (open_call_state b p addr.type tel_relay_step))
            (λ _.
              if_intro (TurnsFrom c s) (p.length == 13)
                (λ _. dial_ip-Turns s a p (parse_phoneaddr n) e m d) (λ _. rw d (tel_dropped e m))))

  tel_begin-Turns :
      (a : Adapter (Ledger W)) (p : Packet) → c ≡ 0x12 → Turns c a (tel_begin (audited cb) a p)
  unfolding tel_begin error_packet
  tel_begin-Turns a p e =
      if_intro (Turns c a) (not (may_dial a.commands.state)) (λ _. same)
        (λ free.
          if_intro (Turns c a) (ltb p.length 1) (λ _. same)
            (λ _.
              let a1 = put_state (drop_connection (audited cb) a 0) disconnected in
              if_intro (Turns c a) (not (first_byte_ok a1.serial.device (data_at a1 0)))
                (λ _. tel_dropped e (ground (arith, free)))
                (λ _. dial-Turns a.commands.state _ _ _ e (ground (arith, free)) refl)))

  hang_up-Turns :
      (a b : Adapter (Ledger W)) (p : Packet) (n : ℕ)
      → b.commands.state ≡ a.commands.state
      → Turns c a (hang_up (audited cb) b p n)
  unfolding hang_up error_packet close_kept
  hang_up-Turns a b p n k = rw k same

  tel_ip-Turns :
      (a : Adapter (Ledger W)) (p : Packet)
      → c ≡ 0x12
      → a.commands.state ≡ disconnected
      → Turns c a (tel_ip (audited cb) a p)
  unfolding tel_ip cb_sock_connect report_number cb_update_number
  tel_ip-Turns a p e d = grind (arith, same, tel_answered, hang_up-Turns)

  tel_relay-Turns :
      (a : Adapter (Ledger W)) (p : Packet)
      → c ≡ 0x12
      → a.commands.state ≡ disconnected
      → Turns c a (tel_relay (audited cb) a p)
  unfolding tel_relay
  tel_relay-Turns a p e d =
      let addr = a.buffer_commands.processing_addr in
      let (rc, a1) = proc_call (audited cb) a 0 addr (number_in a p) in
      let kept = (proc_call-Keeps cb a addr (number_in a p)).same_state in
      let drops : (n : ℕ) → Turns c a (hang_up (audited cb) a1 p n) =
        λ n. hang_up-Turns a a1 p n kept in
      if_intro (Turns c a) (is_zero rc) (λ _. same-Turns c a (none, a1) kept)
        (λ _.
          if_intro (Turns c a) (is_negative rc) (λ _. drops 3)
            (λ _. answered (call_error (to_ℕ rc)) a1 kept drops))
    where
      answered :
          (error : Option ℕ) (a1 : Adapter (Ledger W))
          → a1.commands.state ≡ a.commands.state
          → ((n : ℕ) → Turns c a (hang_up (audited cb) a1 p n))
          → Turns c a (elim error [
            | some error ↦ hang_up (audited cb) a1 p error
            | none ↦ reply p 0 (put_state a1 call)
          ])
      answered (some n) a1 k drops = drops n
      answered none a1 k drops = rw d (tel_answered e)

  pub tel-Turns :
      (a : Adapter (Ledger W)) (p : Packet)
      → c ≡ 0x12
      → (a.buffer_commands.processing ≢ 0 → a.commands.state ≡ disconnected)
      → Turns c a (command_tel (audited cb) a p)
  unfolding command_tel cb_time_latch cb_time_check_ms error_packet
  tel-Turns a p e d =
      let (late, a1) = cb_time_check_ms (audited cb) a timer_command 60000 in
      let step = a.buffer_commands.processing in
      if_intro (Turns c a) (step == tel_begin_step)
        (λ _. tel_begin-Turns (cb_time_latch (audited cb) a timer_command) p e)
        (λ n.
          let off : a1.commands.state ≡ disconnected = d (ground (arith, n)) in
          if_intro (Turns c a) (step == tel_ip_step)
            (λ _.
              if_intro (Turns c a) late (λ _. hang_up-Turns a a1 p 3 refl)
                (λ _. tel_ip-Turns a1 p e off))
            (λ _.
              if_intro (Turns c a) (step == tel_relay_step)
                (λ _.
                  if_intro (Turns c a) late (λ _. hang_up-Turns a a1 p 3 refl)
                    (λ _. tel_relay-Turns a1 p e off))
                (λ _. same)))
