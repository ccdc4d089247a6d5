-- ===== src/Commands/WaitCall.antt =====
-- commands.c: `command_wait_call`. The connection state outlives the command, so that the next one
-- takes up a wait that is under way.
use libmobile.Adapter.{
  Adapter, Callback, ConnectionState, Packet, RelayState, addrtype_ipv4, addrtype_none, call_recv,
  disconnected, p2p_conn, recv_wait, tcp, timer_command, wait, wait_relay, wait_timeout,
}
use libmobile.Commands.Base.{Answer, error_packet, put_connection, put_processing, put_state, reply}
use libmobile.Prelude.{
  Bool, false, if◌then◌else◌, is_negative, is_zero, none, not, to_ℕ, true, ℕ, ◌&&◌, ◌==◌,
}
use libmobile.Util.{addr_copy}
use libmobile.Callback.{
  cb_sock_accept, cb_sock_close, cb_sock_listen, cb_sock_open, cb_time_check_ms, cb_time_latch,
}
use libmobile.Commands.Internet.{close_kept}
use libmobile.Commands.Tel.{may_dial, put_addr}
use libmobile.Relay.Procedure.{proc_wait}
use libmobile.Relay.Exchange.{relay_init}

unfoldable pub is_recv_wait : RelayState → Bool
is_recv_wait recv_wait = true
is_recv_wait _ = false

unfoldable pub is_wait_timeout : ConnectionState → Bool
is_wait_timeout wait_timeout = true
is_wait_timeout _ = false

module _ {W : Type 0} (cb : Callback W) where
  -- Leaving the wait: the connection is closed, and an error goes back.
  unfoldable pub stop_wait : Adapter W → Packet → ConnectionState → ℕ → Answer W
  stop_wait a p state error = error_packet p error (put_state (close_kept cb a p2p_conn) state)

  unfoldable pub wait_call_begin : Adapter W → Packet → Answer W
  wait_call_begin a p =
      let a1 = put_state a wait_timeout in
      let addr = addr_copy a1.buffer_commands.processing_addr a1.config.relay in
      let (relay_ok, a2) =
        cb_sock_open cb (relay_init (put_addr a1 addr)) p2p_conn tcp addr.type 0 in
      let (ok, a3) = cb_sock_open cb a1 p2p_conn tcp addrtype_ipv4 a1.config.p2p_port in
      let (listening, a4) = cb_sock_listen cb a3 p2p_conn in
      if not (a1.config.relay.type == addrtype_none)
      then (if relay_ok
          then (none, put_state (put_connection a2 p2p_conn true) wait_relay)
          else error_packet p 0 a2)
      else if not ok
      then error_packet p 0 a3
      else if not listening
      then error_packet p 0 (cb_sock_close cb a4 p2p_conn)
      else (none, put_state (put_connection a4 p2p_conn true) wait)

  unfoldable pub wait_call_ip : Adapter W → Packet → Answer W
  wait_call_ip a p =
      let (ok, a') = cb_sock_accept cb a 0 in
      if ok then reply p 0 (put_state a' call_recv) else (none, a')

  unfoldable pub wait_call_relay : Adapter W → Packet → Answer W
  wait_call_relay a p =
      let (rc, a') = proc_wait cb a p2p_conn a.buffer_commands.processing_addr in
      if is_zero rc
      then (none, a')
      else if is_negative rc
      then stop_wait a' p wait_timeout 3
      else if to_ℕ rc == 1
      then reply p 0 (put_state a' call_recv)
      else stop_wait a' p wait_timeout 3

  -- The `switch` on the state that the wait has reached.
  unfoldable pub wait_call_in : ConnectionState → Adapter W → Packet → Answer W
  wait_call_in wait a p =
      let (late, a') = cb_time_check_ms cb a timer_command 1000 in
      if late then error_packet p 0 a' else wait_call_ip a' p
  wait_call_in wait_relay a p =
      let (late, a') = cb_time_check_ms cb a timer_command 1000 in
      if late
      then (if is_recv_wait a'.relay.state
          then error_packet p 0 a'
          else stop_wait a' p disconnected 3)
      else wait_call_relay a' p
  wait_call_in _ a p = wait_call_begin a p

  unfoldable pub command_wait_call : Adapter W → Packet → Answer W
  command_wait_call a p =
      let timed_out = is_wait_timeout a.commands.state in
      let (over, a1) = cb_time_check_ms cb a timer_command 1000 in
      let a2 = if timed_out then put_state a1 disconnected else a in
      let a3 = put_processing (cb_time_latch cb a2 timer_command) 1 in
      if not (may_dial a.commands.state)
      then error_packet p 1 a
      else if not (a.buffer_commands.processing == 0)
      then wait_call_in a.commands.state a p
      else if timed_out && not over
      then (none, a1)
      else wait_call_in a3.commands.state a3 p
