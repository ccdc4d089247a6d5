-- ===== src/Sockets/WaitCall.antt =====
-- commands.c: waiting for a call keeps the account of the sockets.
use libmobile.Adapter.{
  Adapter, Callback, ConnectionState, Packet, wait, disconnected, timer_command, wait_relay,
  wait_timeout,
}
use libmobile.Sockets.Ledger.{Ledger, audited}
use libmobile.Sockets.Tel.{Settled, is_quiet}
use libmobile.Prelude.{arith, false, true, ℕ, ◌≡◌, if_intro, if◌then◌else◌, not, refl, ◌&&◌, ◌==◌}
use libmobile.Callback.{
  cb_sock_accept, cb_sock_close, cb_sock_listen, cb_sock_open, cb_time_check_ms, cb_time_latch,
}
use libmobile.Commands.Internet.{close_kept}
use libmobile.Commands.Base.{error_packet, is_internet, put_processing, put_state, Answer}
use libmobile.Relay.Exchange.{relay_init}
use libmobile.Commands.WaitCall.{
  stop_wait, wait_call_begin, wait_call_ip, command_wait_call, is_wait_timeout, wait_call_in,
  wait_call_relay,
}
use libmobile.Commands.Tel.{may_dial}
use libmobile.Relay.Procedure.{proc_wait}
use libmobile.Sockets.Procedure.{proc_wait-Keeps}

abbrev AnswerSettled : {W : Type 0} → Answer (Ledger W) → Type 0
AnswerSettled (p, a) = Settled a

module _ {W : Type 0} (cb : Callback W) where
  stop_wait-Settled :
      (a : Adapter (Ledger W)) (p : Packet) (state : ConnectionState) (e : ℕ)
      → Settled a
      → a.commands.connections 0 ≡ true
      → is_internet a.commands.state ≡ false
      → is_quiet state ≡ true
      → Settled (stop_wait (audited cb) a p state e).1
  unfolding stop_wait close_kept error_packet is_internet
  stop_wait-Settled a p state e s k i q = ground arith

  wait_call_begin-Settled :
      (a : Adapter (Ledger W)) (p : Packet)
      → Settled a
      → a.commands.connections 0 ≡ false
      → is_internet a.commands.state ≡ false
      → Settled (wait_call_begin (audited cb) a p).1
  unfolding wait_call_begin error_packet is_internet cb_sock_open cb_sock_listen cb_sock_close
      relay_init
  wait_call_begin-Settled a p s k i = ground arith

  wait_call_ip-Settled :
      (a : Adapter (Ledger W)) (p : Packet)
      → Settled a
      → a.commands.state ≡ wait
      → Settled (wait_call_ip (audited cb) a p).1
  unfolding wait_call_ip cb_sock_accept is_internet
  wait_call_ip-Settled a p s k = ground arith

  wait_call_relay-Settled :
      (a : Adapter (Ledger W)) (p : Packet)
      → Settled a
      → a.commands.state ≡ wait_relay
      → Settled (wait_call_relay (audited cb) a p).1
  unfolding wait_call_relay is_internet
  wait_call_relay-Settled a p s k =
      let (rc, a1) = proc_wait (audited cb) a 0 a.buffer_commands.processing_addr in
      let kept = proc_wait-Keeps cb a a.buffer_commands.processing_addr in
      let after : Settled a1 = ground arith in
      let stopped =
        stop_wait-Settled a1 p wait_timeout 3 after (ground arith) (ground arith) refl in
      ground arith

  wait_call_in-Settled :
      (state : ConnectionState) (a : Adapter (Ledger W)) (p : Packet)
      → state ≡ a.commands.state
      → Settled a
      → may_dial state ≡ true
      → Settled (wait_call_in (audited cb) state a p).1
  unfolding wait_call_in may_dial is_internet cb_time_check_ms error_packet
  wait_call_in-Settled wait a p e s m =
      let (late, a1) = cb_time_check_ms (audited cb) a timer_command 1000 in
      ground (arith, wait_call_ip-Settled a1 p)
  wait_call_in-Settled wait_relay a p e s m =
      let (late, a1) = cb_time_check_ms (audited cb) a timer_command 1000 in
      ground (arith, wait_call_relay-Settled a1 p, stop_wait-Settled a1 p disconnected 3)
  wait_call_in-Settled disconnected a p e s m =
      wait_call_begin-Settled a p s (ground arith) (ground arith)
  wait_call_in-Settled wait_timeout a p e s m =
      wait_call_begin-Settled a p s (ground arith) (ground arith)
  wait_call_in-Settled _ a p e s m = ground arith

  -- With the sockets in order before it, waiting for a call, at whatever point it is taken up and
  -- whatever the callbacks return, opens no open socket and uses and closes no closed one; between
  -- two such commands the table says which sockets are open, the socket is open while a call is
  -- awaited, and closed after a time-out.
  pub command_wait_call-Settled :
      (a : Adapter (Ledger W)) (p : Packet)
      → Settled a
      → Settled (command_wait_call (audited cb) a p).1
  unfolding command_wait_call error_packet cb_time_latch cb_time_check_ms is_internet
      is_wait_timeout may_dial
  command_wait_call-Settled a p s =
      let timed_out = is_wait_timeout a.commands.state in
      let (over, a1) = cb_time_check_ms (audited cb) a timer_command 1000 in
      let a2 = if timed_out then put_state a1 disconnected else a in
      let a3 = put_processing (cb_time_latch (audited cb) a2 timer_command) 1 in
      if_intro AnswerSettled (not (may_dial a.commands.state)) (λ _. ground arith)
        (λ free.
          if_intro AnswerSettled (not (a.buffer_commands.processing == 0))
            (λ _. wait_call_in-Settled a.commands.state a p refl s (ground arith))
            (λ _.
              if_intro AnswerSettled (timed_out && not over) (λ _. ground arith)
                (λ _.
                  wait_call_in-Settled a3.commands.state a3 p refl (ground arith) (ground arith))))
