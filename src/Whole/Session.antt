-- ===== src/Whole/Session.antt =====
-- commands.c: beginning and ending a session keep what the main loop keeps of the packet.
use libmobile.Adapter.{Adapter, Callback, Packet}
use libmobile.Whole.Pending.{After}
use libmobile.Commands.Base.{Answer, error_packet}
use libmobile.Sockets.Start.{InOrder, command_reinit-InOrder, command_start-InOrder}
use libmobile.Sockets.Ledger.{Ledger, audited}
use libmobile.Sockets.Tel.{Settled, sends}
use libmobile.Prelude.{arith, length, true, ℕ, ◌≡◌}
use libmobile.Commands.Session.{
  command_end, command_reinit, command_start, do_end_session, do_start_session, number_fetch_cancel,
}
use libmobile.Sockets.Session.{do_end_session-Idle, do_end_session_ended}
use libmobile.Frames.Prompt.{do_offline-Frame}
use libmobile.Whole.Course.{Turns}

module _ {W : Type 0} where
  -- What these handlers leave alone.
  pub record Apart (a b : Adapter (Ledger W)) : Type 0 where
    pub same_active : b.global.active ≡ a.global.active
    pub same_serial : b.serial.state ≡ a.serial.state
    pub same_command : b.buffer_commands.packet.command ≡ a.buffer_commands.packet.command
    pub same_parsed : b.global.packet_parsed ≡ a.global.packet_parsed
    pub same_length :
        length b.buffer_commands.processing_data ≡ length a.buffer_commands.processing_data

  -- An answer after which the sockets are in order.
  pub record Orderly (a : Adapter (Ledger W)) (r : Answer (Ledger W)) : Type 0 where
    pub sent : sends r.0 ≡ true
    pub order : InOrder r.1
    pub apart : Apart a r.1

  pub Orderly-After :
      (c : ℕ) (a : Adapter (Ledger W)) (r : Answer (Ledger W))
      → (a.commands.session_started ≡ true → Turns c a r)
      → Orderly a r
      → After c a r
  Orderly-After c a r t o = record {
    answered = λ e _. o.order.within e;
    goes_on = λ e. absurd (ground (arith, o.sent));
    session_goes_on = λ e. absurd (ground (arith, o.sent));
    outside = o.order.outside;
    same_active = o.apart.same_active;
    same_serial = o.apart.same_serial;
    same_command = o.apart.same_command;
    same_parsed = o.apart.same_parsed;
    same_length = o.apart.same_length;
    turn = t;
  }

module _ {W : Type 0} (cb : Callback W) where
  pub do_end_session-Apart : (a : Adapter (Ledger W)) → Apart a (do_end_session (audited cb) a)
  unfolding do_end_session
  do_end_session-Apart a = ground (arith, do_offline-Frame cb a)

  do_start_session-Apart : (a : Adapter (Ledger W)) → Apart a (do_start_session (audited cb) a)
  unfolding do_start_session number_fetch_cancel
  do_start_session-Apart a = ground arith

  pub start-Orderly :
      (a : Adapter (Ledger W)) (p : Packet) → InOrder a → Orderly a (command_start (audited cb) a p)
  unfolding command_start error_packet
  start-Orderly a p s = ground (arith, command_start-InOrder cb a p s, do_start_session-Apart a)

  pub end-Orderly :
      (a : Adapter (Ledger W)) (p : Packet) → Settled a → Orderly a (command_end (audited cb) a p)
  unfolding command_end
  end-Orderly a p s =
      ground (
        arith,
        do_end_session-Idle cb a s.account,
        do_end_session_ended cb a,
        do_end_session-Apart a,
      )

  pub reinit-Orderly :
      (a : Adapter (Ledger W)) (p : Packet)
      → Settled a
      → Orderly a (command_reinit (audited cb) a p)
  unfolding command_reinit
  reinit-Orderly a p s =
      let a1 = do_end_session (audited cb) a in
      ground
        (arith, command_reinit-InOrder cb a p s, do_end_session-Apart a, do_start_session-Apart a1)
