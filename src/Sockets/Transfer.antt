-- ===== src/Sockets/Transfer.antt =====
-- commands.c: moving data and hanging up keep the account of the sockets.
use libmobile.Sockets.Ledger.{Accounted, AnswerAccounted, Ledger, audited}
use libmobile.Adapter.{Adapter, Callback, Packet, timer_command, max_connections, p2p_conn}
use libmobile.Prelude.{
  arith, Bool, inl, inr, true, ℕ, ◌≡◌, ◌⊎◌, drop, get_or, if_intro, is_negative, leb, ltb, none,
  take, to_ℕ, u8, ◌+◌, ◌-◌, if◌then◌else◌, not, ◌==◌, ◌||◌,
}
use libmobile.Commands.Internet.{close_kept, command_tcp_disconnect}
use libmobile.Commands.Transfer.{command_data, data_receive, data_send, may_transfer}
use libmobile.Commands.Session.{command_offline}
use libmobile.Sockets.Session.{do_offline-Accounted}
use libmobile.Commands.Base.{
  error_packet, is_internet, put_processing_data, data_at, put_processing,
}
use libmobile.Callback.{cb_sock_close, cb_sock_recv, cb_sock_send, cb_time_check_ms, cb_time_latch}

module _ {W : Type 0} (cb : Callback W) where
  data_receive-Accounted :
      (a : Adapter (Ledger W)) (p : Packet) (conn : ℕ) (on_internet : Bool)
      → Accounted a
      → ((conn ≡ 0) ⊎ (conn ≡ 1))
      → a.commands.connections conn ≡ true
      → AnswerAccounted (data_receive (audited cb) a p conn on_internet)
  unfolding data_receive cb_sock_recv cb_sock_close cb_time_check_ms error_packet
  data_receive-Accounted a p conn on_internet s (inl e) o = rw e (ground arith)
  data_receive-Accounted a p conn on_internet s (inr e) o = rw e (ground arith)

  data_send-Accounted :
      (a : Adapter (Ledger W)) (p : Packet) (conn : ℕ) (on_internet : Bool)
      → Accounted a
      → ((conn ≡ 0) ⊎ (conn ≡ 1))
      → a.commands.connections conn ≡ true
      → AnswerAccounted (data_send (audited cb) a p conn on_internet)
  unfolding data_send cb_sock_send cb_time_check_ms error_packet
  data_send-Accounted a p conn on_internet s c o =
      let sent = get_or a.buffer_commands.processing_data 0 0 in
      let size = p.length - 1 - sent in
      let (rc, a1) =
        cb_sock_send (audited cb) a conn (take size (drop (1 + sent) a.serial.buffer)) none in
      let used : a.user.opened conn ≡ true = elim c [
        | inl e ↦ rw e (ground arith)
        | inr e ↦ rw e (ground arith)
      ] in
      let after : Accounted a1 = ground arith in
      let a2 = put_processing_data a1 0 (u8 (sent + to_ℕ rc)) in
      let (late, a3) = cb_time_check_ms (audited cb) a2 timer_command 10000 in
      if_intro AnswerAccounted (leb (p.length - 1) sent)
        (λ _. data_receive-Accounted a p conn on_internet s c o)
        (λ _.
          if_intro AnswerAccounted (is_negative rc) (λ _. ground arith)
            (λ _.
              if_intro AnswerAccounted (ltb (sent + to_ℕ rc) (p.length - 1)) (λ _. ground arith)
                (λ _.
                  data_receive-Accounted a2 p conn on_internet (ground arith) c (ground arith))))

  -- With the sockets accounted for, moving data over a call or a connection, whatever the packet
  -- names and the callbacks return, uses and closes open sockets only, and the table says
  -- afterwards which ones are open.
  pub command_data-Accounted :
      (a : Adapter (Ledger W)) (p : Packet)
      → Accounted a
      → AnswerAccounted (command_data (audited cb) a p)
  unfolding command_data error_packet cb_time_latch
  command_data-Accounted a p s =
      let on_internet = is_internet a.commands.state in
      let conn = if on_internet then data_at a 0 else p2p_conn in
      let a1 =
        put_processing (cb_time_latch (audited cb) (put_processing_data a 0 0) timer_command) 1 in
      if_intro AnswerAccounted (not (may_transfer a.commands.state)) (λ _. ground arith)
        (λ _.
          if_intro AnswerAccounted (ltb p.length 1) (λ _. ground arith)
            (λ _.
              if_intro AnswerAccounted
                (leb max_connections conn || not (a.commands.connections conn)) (λ _. ground arith)
                (λ e.
                  let slot : (conn ≡ 0) ⊎ (conn ≡ 1) = ground (arith, e) in
                  let connected : a.commands.connections conn ≡ true = ground (arith, e) in
                  if_intro AnswerAccounted (a.buffer_commands.processing == 0)
                    (λ _. data_send-Accounted a1 p conn on_internet (ground arith) slot connected)
                    (λ _. data_send-Accounted a p conn on_internet s slot connected))))

  -- With the sockets accounted for, closing a connection closes one that is open, or none.
  pub command_tcp_disconnect-Accounted :
      (a : Adapter (Ledger W)) (p : Packet)
      → Accounted a
      → AnswerAccounted (command_tcp_disconnect (audited cb) a p)
  unfolding command_tcp_disconnect error_packet is_internet close_kept
  command_tcp_disconnect-Accounted a p s = ground arith

  -- With the sockets accounted for, hanging up closes the open connections, each once.
  pub command_offline-Accounted :
      (a : Adapter (Ledger W)) (p : Packet)
      → Accounted a
      → AnswerAccounted (command_offline (audited cb) a p)
  unfolding command_offline error_packet
  command_offline-Accounted a p s = ground (arith, do_offline-Accounted cb a s)
