-- ===== src/Whole/Waiting.antt =====
-- commands.c: waiting for a call and dialling move the connection along the diagram.
use libmobile.Adapter.{
  Adapter, Callback, ConnectionState, Packet, disconnected, wait, wait_relay, wait_timeout,
  timer_command, call_recv,
}
use libmobile.Sockets.Ledger.{Ledger, audited}
use libmobile.Whole.Turn.{Turn, turns, same, wait_called, wait_refused}
use libmobile.Whole.Course.{Turns, same-Turns}
use libmobile.Prelude.{
  arith, true, ℕ, ◌≡◌, if_intro, if◌then◌else◌, sym, is_negative, is_zero, none, not, refl, to_ℕ,
  ◌&&◌, ◌==◌, inl, inr, ◌⊎◌,
}
use libmobile.Callback.{
  cb_sock_accept, cb_sock_close, cb_sock_listen, cb_sock_open, cb_time_check_ms, cb_time_latch,
}
use libmobile.Commands.Internet.{close_kept}
use libmobile.Commands.Base.{error_packet, put_processing, put_state}
use libmobile.Sockets.Tel.{is_quiet}
use libmobile.Commands.Tel.{may_dial}
use libmobile.Relay.Exchange.{relay_init}
use libmobile.Commands.WaitCall.{
  stop_wait, wait_call_begin, wait_call_in, wait_call_ip, command_wait_call, is_wait_timeout,
  wait_call_relay,
}
use libmobile.Sockets.Procedure.{proc_wait-Keeps}
use libmobile.Relay.Procedure.{proc_wait}

module _ {W : Type 0} (cb : Callback W) (c : ℕ) where
  wait_call_begin-Turns :
      (s : ConnectionState) (a : Adapter (Ledger W)) (p : Packet)
      → c ≡ 0x14
      → is_quiet s ≡ true
      → Turn c s (wait_call_begin (audited cb) a p).1.commands.state
  unfolding wait_call_begin error_packet cb_sock_open cb_sock_listen cb_sock_close relay_init
  wait_call_begin-Turns s a p e q = grind (arith, turns)

  wait_call_relay-Turns :
      (a : Adapter (Ledger W)) (p : Packet)
      → c ≡ 0x14
      → a.commands.state ≡ wait_relay
      → Turns c a (wait_call_relay (audited cb) a p)
  unfolding wait_call_relay stop_wait error_packet close_kept
  wait_call_relay-Turns a p e k =
      let kept = proc_wait-Keeps cb a a.buffer_commands.processing_addr in
      let (rc, a1) = proc_wait (audited cb) a 0 a.buffer_commands.processing_addr in
      let refused : Turn c a.commands.state wait_timeout = rw k (wait_refused e) in
      let called : Turn c a.commands.state call_recv = rw k (wait_called e refl) in
      if_intro (Turns c a) (is_zero rc) (λ _. same-Turns c a (none, a1) kept.same_state)
        (λ _.
          if_intro (Turns c a) (is_negative rc) (λ _. refused)
            (λ _. if_intro (Turns c a) (to_ℕ rc == 1) (λ _. called) (λ _. refused)))

  wait_call_in-Turns :
      (s : ConnectionState) (a : Adapter (Ledger W)) (p : Packet)
      → c ≡ 0x14
      → s ≡ a.commands.state
      → may_dial s ≡ true
      → Turns c a (wait_call_in (audited cb) s a p)
  unfolding wait_call_in cb_time_check_ms error_packet wait_call_ip cb_sock_accept may_dial
      stop_wait close_kept
  wait_call_in-Turns wait a p e k m = grind (arith, turns)
  wait_call_in-Turns wait_relay a p e k m =
      let (late, a1) = cb_time_check_ms (audited cb) a timer_command 1000 in
      if_intro (Turns c a) late (λ _. rw (sym k) (grind (arith, turns)))
        (λ _. wait_call_relay-Turns a1 p e (sym k))
  wait_call_in-Turns disconnected a p e k m =
      wait_call_begin-Turns a.commands.state a p e (ground arith)
  wait_call_in-Turns wait_timeout a p e k m =
      wait_call_begin-Turns a.commands.state a p e (ground arith)
  wait_call_in-Turns _ a p e k m = absurd (ground arith)

  wait_call_in_quiet :
      (s : ConnectionState) (a : Adapter (Ledger W)) (p : Packet)
      → is_quiet s ≡ true
      → wait_call_in (audited cb) s a p ≡ wait_call_begin (audited cb) a p
  unfolding wait_call_in
  wait_call_in_quiet s a p q = ground arith

  -- A wait goes on from where it was, or begins anew after a time-out.
  resumed_from :
      (a b : Adapter (Ledger W)) (p : Packet)
      → c ≡ 0x14
      → (b.commands.state ≡ a.commands.state)
        ⊎ ((b.commands.state ≡ disconnected) × (is_quiet a.commands.state ≡ true))
      → may_dial b.commands.state ≡ true
      → Turns c a (wait_call_in (audited cb) b.commands.state b p)
  resumed_from a b p e (inl k) m = rw (sym k) (wait_call_in-Turns b.commands.state b p e refl m)
  resumed_from a b p e (inr (k, q)) m =
      rw (wait_call_in_quiet b.commands.state b p (ground arith))
        (wait_call_begin-Turns a.commands.state b p e q)

  pub wait_call-Turns :
      (a : Adapter (Ledger W)) (p : Packet)
      → c ≡ 0x14
      → Turns c a (command_wait_call (audited cb) a p)
  unfolding command_wait_call error_packet cb_time_latch cb_time_check_ms is_wait_timeout may_dial
  wait_call-Turns a p e =
      let (over, a1) = cb_time_check_ms (audited cb) a timer_command 1000 in
      let timed_out = is_wait_timeout a.commands.state in
      let a2 = if timed_out then put_state a1 disconnected else a in
      let a3 = put_processing (cb_time_latch (audited cb) a2 timer_command) 1 in
      if_intro (Turns c a) (not (may_dial a.commands.state)) (λ _. same)
        (λ free.
          if_intro (Turns c a) (not (a.buffer_commands.processing == 0))
            (λ _. wait_call_in-Turns a.commands.state a p e refl (ground (arith, free)))
            (λ _.
              if_intro (Turns c a) (timed_out && not over) (λ _. same)
                (λ _. resumed_from a a3 p e (ground (arith, free)) (ground (arith, free)))))
