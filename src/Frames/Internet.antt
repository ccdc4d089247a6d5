-- ===== src/Frames/Internet.antt =====
-- commands.c: moving data, and connections.
use libmobile.Adapter.{Adapter, Callback, Packet, p2p_conn, timer_command}
use libmobile.Commands.Base.{
  Answer, connection_new, data_at, error_packet, is_internet, put_processing, put_processing_data,
}
use libmobile.Frames.WaitCall.{AnswerFrame}
use libmobile.Prelude.{
  Bool, Option-cases, arith, drop, false, get_or, if_intro, if◌then◌else◌, inl, inr, is_negative,
  leb, length-set, ltb, none, not, take, to_ℕ, u8, ℕ, ◌+◌, ◌-◌, ◌==◌, ◌≡◌, ◌≤◌,
}
use libmobile.Sockets.Frame.{Frame, Frame-trans}
use libmobile.Sockets.Ledger.{Ledger, audited}
use libmobile.Callback.{
  cb_sock_close, cb_sock_connect, cb_sock_open, cb_sock_recv, cb_sock_send, cb_time_check_ms,
  cb_time_latch,
}
use libmobile.Commands.Internet.{
  close_kept, command_tcp_connect, command_tcp_disconnect, tcp_connect_begin,
  tcp_connect_begin_step, tcp_connect_connecting,
}
use libmobile.Commands.Transfer.{command_data, data_receive, data_send}
use libmobile.Sockets.Tel.{sends}

module _ {W : Type 0} (cb : Callback W) where
  data_receive-Frame :
      (a : Adapter (Ledger W)) (p : Packet) (conn : ℕ) (on_internet : Bool)
      → AnswerFrame a (data_receive (audited cb) a p conn on_internet)
  unfolding data_receive cb_sock_recv cb_sock_close cb_time_check_ms error_packet
  data_receive-Frame a p conn on_internet = ground arith

  data_send-Frame :
      (a : Adapter (Ledger W)) (p : Packet) (conn : ℕ) (on_internet : Bool)
      → AnswerFrame a (data_send (audited cb) a p conn on_internet)
  unfolding data_send cb_sock_send cb_time_check_ms error_packet
  data_send-Frame a p conn on_internet =
      let sent = get_or a.buffer_commands.processing_data 0 0 in
      let size = p.length - 1 - sent in
      let (rc, a1) =
        cb_sock_send (audited cb) a conn (take size (drop (1 + sent) a.serial.buffer)) none in
      let a2 = put_processing_data a1 0 (u8 (sent + to_ℕ rc)) in
      let (late, a3) = cb_time_check_ms (audited cb) a2 timer_command 10000 in
      let kept = length-set a.buffer_commands.processing_data 0 (u8 (sent + to_ℕ rc)) in
      let f : Frame a a2 = ground arith in
      if_intro (AnswerFrame a) (leb (p.length - 1) sent)
        (λ _. data_receive-Frame a p conn on_internet)
        (λ _.
          if_intro (AnswerFrame a) (is_negative rc) (λ _. ground arith)
            (λ _.
              if_intro (AnswerFrame a) (ltb (sent + to_ℕ rc) (p.length - 1)) (λ _. ground arith)
                (λ _. Frame-trans f (data_receive-Frame a2 p conn on_internet))))

  pub command_data-Frame :
      (a : Adapter (Ledger W)) (p : Packet) → AnswerFrame a (command_data (audited cb) a p)
  unfolding command_data error_packet cb_time_latch
  command_data-Frame a p =
      let on_internet = is_internet a.commands.state in
      let conn = if on_internet then data_at a 0 else p2p_conn in
      let a1 =
        put_processing (cb_time_latch (audited cb) (put_processing_data a 0 0) timer_command) 1 in
      let kept = length-set a.buffer_commands.processing_data 0 0 in
      let f : Frame a a1 = ground arith in
      let first = Frame-trans f (data_send-Frame a1 p conn on_internet) in
      let later = data_send-Frame a p conn on_internet in ground arith

  pub command_tcp_disconnect-Frame :
      (a : Adapter (Ledger W)) (p : Packet)
      → AnswerFrame a (command_tcp_disconnect (audited cb) a p)
  unfolding command_tcp_disconnect error_packet close_kept
  command_tcp_disconnect-Frame a p = ground arith

module _ {W : Type 0} where
  -- What connecting leaves alone, and the step that it goes on with.
  pub record Connects (a : Adapter W) (r : Answer W) : Type 0 where
    pub frame : Frame a r.1
    pub same_state : r.1.commands.state ≡ a.commands.state
    pub step : sends r.0 ≡ false → r.1.buffer_commands.processing ≡ 1

module _ {W : Type 0} (cb : Callback W) where
  tcp_connect_connecting-Connects :
      (a : Adapter (Ledger W)) (p : Packet)
      → a.buffer_commands.processing ≡ 1
      → Connects a (tcp_connect_connecting (audited cb) a p)
  unfolding tcp_connect_connecting cb_sock_connect error_packet close_kept
  tcp_connect_connecting-Connects a p c = ground arith

  tcp_connect_begin-Connects :
      (a : Adapter (Ledger W)) (p : Packet) → Connects a (tcp_connect_begin (audited cb) a p)
  unfolding tcp_connect_begin error_packet cb_sock_open
  tcp_connect_begin-Connects a p =
      if_intro (Connects a) (not (is_internet a.commands.state)) (λ _. ground arith)
        (λ i.
          if_intro (Connects a) (ltb p.length 6) (λ _. ground arith)
            (λ _. elim (Option-cases (connection_new a)) [
              | inl e ↦ rw e (ground arith)
              | inr (conn, e) ↦
                  let kept = length-set a.buffer_commands.processing_data 0 conn in
                  rw e (ground arith)
            ]))

  pub command_tcp_connect-Connects :
      (a : Adapter (Ledger W)) (p : Packet)
      → a.buffer_commands.processing ≤ 1
      → Connects a (command_tcp_connect (audited cb) a p)
  unfolding command_tcp_connect cb_time_latch cb_time_check_ms error_packet close_kept
  command_tcp_connect-Connects a p k =
      let (late, a1) = cb_time_check_ms (audited cb) a timer_command 60000 in
      if_intro (Connects a) (a.buffer_commands.processing == tcp_connect_begin_step)
        (λ _.
          let c = tcp_connect_begin-Connects (cb_time_latch (audited cb) a timer_command) p in
          ground arith)
        (λ e. let c = tcp_connect_connecting-Connects a1 p (ground arith) in ground arith)
