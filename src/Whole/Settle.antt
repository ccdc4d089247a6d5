-- ===== src/Whole/Settle.antt =====
-- commands.c: the handlers that keep the state of the connection, or leave a call, keep the sockets
-- as they have to be between two commands.
use libmobile.Sockets.Ledger.{Accounted, Ledger, audited}
use libmobile.Adapter.{Adapter, Callback, Packet, p2p_conn, timer_command}
use libmobile.Commands.Base.{
  Answer, data_at, error_packet, is_internet, put_processing, put_processing_data,
}
use libmobile.Prelude.{
  Bool, arith, drop, get_or, if_intro, if◌then◌else◌, none, not, take, to_ℕ, u8, ℕ, ◌+◌, ◌-◌, ◌≡◌,
}
use libmobile.Sockets.Tel.{Settled}
use libmobile.Callback.{cb_sock_close, cb_sock_recv, cb_sock_send, cb_time_check_ms, cb_time_latch}
use libmobile.Commands.Internet.{close_kept, command_tcp_disconnect}
use libmobile.Commands.Transfer.{command_data, data_receive, data_send, may_transfer}
use libmobile.Sockets.Transfer.{command_data-Accounted}
use libmobile.Commands.Session.{command_offline, do_offline, do_ppp_disconnect, drop_connection}
use libmobile.Sockets.Session.{do_offline-Accounted}

module _ {W : Type 0} (cb : Callback W) where
  abbrev pub AnswerSettled : Answer (Ledger W) → Type 0
  AnswerSettled (p, a) = Settled a

  data_receive-state :
      (a : Adapter (Ledger W)) (p : Packet) (conn : ℕ) (on_internet : Bool)
      → (data_receive (audited cb) a p conn on_internet).1.commands.state ≡ a.commands.state
  unfolding data_receive cb_sock_recv cb_sock_close cb_time_check_ms error_packet
  data_receive-state a p conn on_internet = ground arith

  data_send-state :
      (a : Adapter (Ledger W)) (p : Packet) (conn : ℕ) (on_internet : Bool)
      → (data_send (audited cb) a p conn on_internet).1.commands.state ≡ a.commands.state
  unfolding data_send cb_sock_send cb_time_check_ms error_packet
  data_send-state a p conn on_internet =
      let sent = get_or a.buffer_commands.processing_data 0 0 in
      let size = p.length - 1 - sent in
      let (rc, a1) =
        cb_sock_send (audited cb) a conn (take size (drop (1 + sent) a.serial.buffer)) none in
      let a2 = put_processing_data a1 0 (u8 (sent + to_ℕ rc)) in
      ground
        (arith, data_receive-state a p conn on_internet, data_receive-state a2 p conn on_internet)

  pub command_data-state :
      (a : Adapter (Ledger W)) (p : Packet)
      → (command_data (audited cb) a p).1.commands.state ≡ a.commands.state
  unfolding command_data error_packet cb_time_latch
  command_data-state a p =
      let on_internet = is_internet a.commands.state in
      let conn = if on_internet then data_at a 0 else p2p_conn in
      let a1 =
        put_processing (cb_time_latch (audited cb) (put_processing_data a 0 0) timer_command) 1 in
      ground (arith, data_send-state a1 p conn on_internet, data_send-state a p conn on_internet)

  pub command_data-Settled :
      (a : Adapter (Ledger W)) (p : Packet)
      → Settled a
      → AnswerSettled (command_data (audited cb) a p)
  unfolding command_data error_packet cb_time_latch may_transfer
  command_data-Settled a p s =
      let on_internet = is_internet a.commands.state in
      let conn = if on_internet then data_at a 0 else p2p_conn in
      let a1 =
        put_processing (cb_time_latch (audited cb) (put_processing_data a 0 0) timer_command) 1 in
      let account = command_data-Accounted cb a p s.account in
      let first = data_send-state a1 p conn on_internet in
      let later = data_send-state a p conn on_internet in
      if_intro (λ r. Accounted r.1 → AnswerSettled r) (not (may_transfer a.commands.state))
        (λ _. ground arith) (λ e. ground arith) account

  pub command_tcp_disconnect-Settled :
      (a : Adapter (Ledger W)) (p : Packet)
      → Settled a
      → AnswerSettled (command_tcp_disconnect (audited cb) a p)
  unfolding command_tcp_disconnect error_packet is_internet close_kept
  command_tcp_disconnect-Settled a p s = ground arith

  do_offline-Settled : (a : Adapter (Ledger W)) → Settled a → Settled (do_offline (audited cb) a).1
  unfolding do_offline do_ppp_disconnect is_internet drop_connection
  do_offline-Settled a s = ground (arith, do_offline-Accounted cb a s.account)

  pub command_offline-Settled :
      (a : Adapter (Ledger W)) (p : Packet)
      → Settled a
      → AnswerSettled (command_offline (audited cb) a p)
  unfolding command_offline error_packet
  command_offline-Settled a p s = ground (arith, do_offline-Settled a s)
