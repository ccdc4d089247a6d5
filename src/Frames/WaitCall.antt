-- ===== src/Frames/WaitCall.antt =====
-- commands.c: waiting for a call, and moving data.
use libmobile.Adapter.{
  Adapter, Callback, ConnectionState, Packet, disconnected, timer_command, wait, wait_relay,
  wait_timeout,
}
use libmobile.Commands.Base.{Answer, error_packet, put_processing, put_state}
use libmobile.Sockets.Frame.{Frame, Frame-trans}
use libmobile.Sockets.Ledger.{Ledger, audited}
use libmobile.Prelude.{arith, if_intro, if◌then◌else◌, not, ℕ, ◌&&◌, ◌==◌}
use libmobile.Callback.{
  cb_sock_accept, cb_sock_close, cb_sock_listen, cb_sock_open, cb_time_check_ms, cb_time_latch,
}
use libmobile.Commands.Internet.{close_kept}
use libmobile.Commands.WaitCall.{
  command_wait_call, is_wait_timeout, stop_wait, wait_call_begin, wait_call_in, wait_call_ip,
  wait_call_relay,
}
use libmobile.Commands.Tel.{may_dial}
use libmobile.Relay.Procedure.{proc_wait}
use libmobile.Sockets.Procedure.{proc_wait-Keeps}
use libmobile.Relay.Exchange.{relay_init}

abbrev pub AnswerFrame : {W : Type 0} → Adapter W → Answer W → Type 0
AnswerFrame a (p, b) = Frame a b

module _ {W : Type 0} (cb : Callback W) where
  stop_wait-Frame :
      (a : Adapter (Ledger W)) (p : Packet) (state : ConnectionState) (e : ℕ)
      → AnswerFrame a (stop_wait (audited cb) a p state e)
  unfolding stop_wait close_kept error_packet
  stop_wait-Frame a p state e = ground arith

  wait_call_begin-Frame :
      (a : Adapter (Ledger W)) (p : Packet) → AnswerFrame a (wait_call_begin (audited cb) a p)
  unfolding wait_call_begin error_packet cb_sock_open cb_sock_listen cb_sock_close relay_init
  wait_call_begin-Frame a p = ground arith

  wait_call_ip-Frame :
      (a : Adapter (Ledger W)) (p : Packet) → AnswerFrame a (wait_call_ip (audited cb) a p)
  unfolding wait_call_ip cb_sock_accept
  wait_call_ip-Frame a p = ground arith

  wait_call_relay-Frame :
      (a : Adapter (Ledger W)) (p : Packet) → AnswerFrame a (wait_call_relay (audited cb) a p)
  unfolding wait_call_relay
  wait_call_relay-Frame a p =
      let (rc, a1) = proc_wait (audited cb) a 0 a.buffer_commands.processing_addr in
      let kept = proc_wait-Keeps cb a a.buffer_commands.processing_addr in
      let stopped = stop_wait-Frame a1 p wait_timeout 3 in ground arith

  wait_call_in-Frame :
      (state : ConnectionState) (a : Adapter (Ledger W)) (p : Packet)
      → AnswerFrame a (wait_call_in (audited cb) state a p)
  unfolding wait_call_in cb_time_check_ms error_packet
  wait_call_in-Frame wait a p =
      let (late, a1) = cb_time_check_ms (audited cb) a timer_command 1000 in
      ground (arith, wait_call_ip-Frame a1 p)
  wait_call_in-Frame wait_relay a p =
      let (late, a1) = cb_time_check_ms (audited cb) a timer_command 1000 in
      ground (arith, wait_call_relay-Frame a1 p, stop_wait-Frame a1 p disconnected 3)
  wait_call_in-Frame _ a p = wait_call_begin-Frame a p

  pub command_wait_call-Frame :
      (a : Adapter (Ledger W)) (p : Packet) → AnswerFrame a (command_wait_call (audited cb) a p)
  unfolding command_wait_call error_packet cb_time_latch cb_time_check_ms
  command_wait_call-Frame a p =
      let timed_out = is_wait_timeout a.commands.state in
      let (over, a1) = cb_time_check_ms (audited cb) a timer_command 1000 in
      let a2 = if timed_out then put_state a1 disconnected else a in
      let a3 = put_processing (cb_time_latch (audited cb) a2 timer_command) 1 in
      let f : Frame a a3 = ground arith in
      if_intro (AnswerFrame a) (not (may_dial a.commands.state)) (λ _. ground arith)
        (λ free.
          if_intro (AnswerFrame a) (not (a.buffer_commands.processing == 0))
            (λ _. wait_call_in-Frame a.commands.state a p)
            (λ _.
              if_intro (AnswerFrame a) (timed_out && not over) (λ _. ground arith)
                (λ _. Frame-trans f (wait_call_in-Frame a3.commands.state a3 p))))
