-- ===== src/Frames/Tel.antt =====
-- commands.c: dialling.
use libmobile.Adapter.{
  Adapter, Callback, Packet, p2p_conn, Addr, addrtype_ipv4, addrtype_none, call, timer_command,
  disconnected,
}
use libmobile.Commands.Base.{Answer, error_packet, put_state, reply, data_at}
use libmobile.Sockets.Frame.{Frame, Frame-trans}
use libmobile.Sockets.Ledger.{Ledger, audited}
use libmobile.Prelude.{
  List, arith, false, ℕ, ◌≡◌, ◌⊎◌, Option, copy, if_intro, inl, inr, is_negative, is_zero, none,
  not, refl, some, to_ℕ, ◌==◌, ◌≤◌, ltb,
}
use libmobile.Callback.{
  cb_sock_connect, cb_sock_open, cb_update_number, cb_time_check_ms, cb_time_latch,
}
use libmobile.Commands.Internet.{close_kept}
use libmobile.Commands.Tel.{
  dial, hang_up, number_in, open_call, report_number, tel_ip, tel_ip_step, tel_relay,
  tel_relay_step, call_error, command_tel, is_isp, put_addr, tel_begin, first_byte_ok, may_dial,
  tel_begin_step,
}
use libmobile.Relay.Procedure.{proc_call}
use libmobile.Sockets.Procedure.{proc_call-Keeps}
use libmobile.Relay.Exchange.{relay_init}
use libmobile.Sockets.Tel.{sends}
use libmobile.Util.{addr_copy, parse_phoneaddr}
use libmobile.Commands.Session.{drop_connection}

module _ {W : Type 0} where
  abbrev pub InDial : Adapter W → Type 0
  InDial a =
      (a.buffer_commands.processing ≡ tel_ip_step) ⊎ (a.buffer_commands.processing ≡ tel_relay_step)

  -- What a dialling leaves alone, and the step that it goes on with.
  pub record Dials (a : Adapter W) (r : Answer W) : Type 0 where
    pub frame : Frame a r.1
    pub step : sends r.0 ≡ false → InDial r.1

  Dials-from : {a b : Adapter W} {r : Answer W} → Frame a b → Dials b r → Dials a r
  Dials-from f d = record { frame = Frame-trans f d.frame; step = d.step }

module _ {W : Type 0} (cb : Callback W) where
  hang_up-Dials :
      (a : Adapter (Ledger W)) (p : Packet) (e : ℕ) → Dials a (hang_up (audited cb) a p e)
  unfolding hang_up close_kept error_packet
  hang_up-Dials a p e = ground arith

  report_number-Frame :
      (a : Adapter (Ledger W)) (p : Packet) → Frame a (report_number (audited cb) a p)
  unfolding report_number cb_update_number
  report_number-Frame a p = ground arith

  tel_ip-Dials :
      (a : Adapter (Ledger W)) (p : Packet) → InDial a → Dials a (tel_ip (audited cb) a p)
  unfolding tel_ip cb_sock_connect
  tel_ip-Dials a p i =
      let (rc, a1) = cb_sock_connect (audited cb) a p2p_conn a.buffer_commands.processing_addr in
      let told = report_number-Frame a1 p in let dropped = hang_up-Dials a1 p 3 in ground arith

  tel_relay-Dials :
      (a : Adapter (Ledger W)) (p : Packet) → InDial a → Dials a (tel_relay (audited cb) a p)
  unfolding tel_relay
  tel_relay-Dials a p i =
      let addr = a.buffer_commands.processing_addr in
      let (rc, a1) = proc_call (audited cb) a 0 addr (number_in a p) in
      let kept = proc_call-Keeps cb a addr (number_in a p) in
      let dropped : (e : ℕ) → Dials a (hang_up (audited cb) a1 p e) =
        λ e. let d = hang_up-Dials a1 p e in ground arith in
      if_intro (Dials a) (is_zero rc) (λ e. ground arith)
        (λ e.
          if_intro (Dials a) (is_negative rc) (λ e'. dropped 3)
            (λ e'. answered (call_error (to_ℕ rc)) dropped))
    where
      answered :
          (error : Option ℕ)
          → ((e : ℕ)
              → Dials a (
                  hang_up
                    (audited cb)
                    (proc_call (audited cb) a 0 a.buffer_commands.processing_addr (number_in a p)).1
                    p
                    e))
          → Dials a (elim error [
            | some e ↦
                hang_up
                  (audited cb)
                  (proc_call (audited cb) a 0 a.buffer_commands.processing_addr (number_in a p)).1
                  p
                  e
            | none ↦ reply p 0 (
                put_state
                  (proc_call (audited cb) a 0 a.buffer_commands.processing_addr (number_in a p)).1
                  call)
          ])
      answered (some e) d = d e
      answered none d =
          let kept = proc_call-Keeps cb a a.buffer_commands.processing_addr (number_in a p) in
          ground arith

  open_call-Dials :
      (a : Adapter (Ledger W)) (p : Packet) (addrtype step : ℕ)
      → p.command ≡ a.buffer_commands.packet.command
      → (step ≡ tel_ip_step) ⊎ (step ≡ tel_relay_step)
      → Dials a (open_call (audited cb) a p addrtype step)
  unfolding open_call cb_sock_open error_packet
  open_call-Dials a p addrtype step c s = ground arith

  dial-Dials :
      (a : Adapter (Ledger W)) (p : Packet) (n : List ℕ)
      → p.command ≡ a.buffer_commands.packet.command
      → Dials a (dial (audited cb) a p n)
  unfolding dial cb_update_number error_packet relay_init
  dial-Dials a p n c =
      if_intro (Dials a) (is_isp n) (λ _. ground arith)
        (λ _.
          if_intro (Dials a) (not (a.config.relay.type == addrtype_none))
            (λ _.
              let d =
                open_call-Dials
                  (relay_init
                    (put_addr a (addr_copy a.buffer_commands.processing_addr a.config.relay)))
                  p (addr_copy a.buffer_commands.processing_addr a.config.relay).type tel_relay_step
                  c (inr refl) in
              ground arith)
            (λ _.
              if_intro (Dials a) (p.length == 13) (λ _. dial_ip (parse_phoneaddr n))
                (λ _. ground arith)))
    where
      dial_ip :
          (ip : Option (List ℕ))
          → Dials a (elim ip [
            | none ↦ error_packet p 3 a
            | some ip ↦
                let addr : Addr = record {
                  type = addrtype_ipv4;
                  port = a.config.p2p_port;
                  host = copy a.buffer_commands.processing_addr.host 0 ip;
                } in
                open_call (audited cb) (put_addr a addr) p addr.type tel_ip_step
          ])
      dial_ip none = ground arith
      dial_ip (some ip) =
          let addr : Addr = record {
            type = addrtype_ipv4;
            port = a.config.p2p_port;
            host = copy a.buffer_commands.processing_addr.host 0 ip;
          } in
          let d = open_call-Dials (put_addr a addr) p addr.type tel_ip_step c (inl refl) in
          ground arith

  drop_connection-Frame : (a : Adapter (Ledger W)) → Frame a (drop_connection (audited cb) a 0)
  unfolding drop_connection
  drop_connection-Frame a = ground arith

  tel_begin-Dials :
      (a : Adapter (Ledger W)) (p : Packet)
      → p.command ≡ a.buffer_commands.packet.command
      → Dials a (tel_begin (audited cb) a p)
  unfolding tel_begin error_packet
  tel_begin-Dials a p c =
      let f = drop_connection-Frame a in
      let a1 = put_state (drop_connection (audited cb) a 0) disconnected in
      if_intro (Dials a) (not (may_dial a.commands.state)) (λ _. ground arith)
        (λ _.
          if_intro (Dials a) (ltb p.length 1) (λ _. ground arith)
            (λ _.
              if_intro (Dials a) (not (first_byte_ok a1.serial.device (data_at a1 0)))
                (λ _. ground arith)
                (λ _. Dials-from (ground arith) (dial-Dials _ _ _ (ground arith)))))

  pub command_tel-Dials :
      (a : Adapter (Ledger W)) (p : Packet)
      → p.command ≡ a.buffer_commands.packet.command
      → a.buffer_commands.processing ≤ 2
      → Dials a (command_tel (audited cb) a p)
  unfolding command_tel cb_time_latch cb_time_check_ms error_packet
  command_tel-Dials a p c n =
      let step = a.buffer_commands.processing in
      let (late, a1) = cb_time_check_ms (audited cb) a timer_command 60000 in
      let f : Frame a a1 = ground arith in
      if_intro (Dials a) (step == tel_begin_step)
        (λ _.
          Dials-from (ground arith)
            (tel_begin-Dials (cb_time_latch (audited cb) a timer_command) p c))
        (λ e.
          let i : InDial a1 = ground arith in
          let ip = Dials-from f (tel_ip-Dials a1 p i) in
          let relay = Dials-from f (tel_relay-Dials a1 p i) in
          let dropped = Dials-from f (hang_up-Dials a1 p 3) in
          if_intro (Dials a) (step == tel_ip_step)
            (λ _. if_intro (Dials a) late (λ _. dropped) (λ _. ip))
            (λ _.
              if_intro (Dials a) (step == tel_relay_step)
                (λ _. if_intro (Dials a) late (λ _. dropped) (λ _. relay)) (λ _. ground arith)))
