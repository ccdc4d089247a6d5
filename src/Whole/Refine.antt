-- ===== src/Whole/Refine.antt =====
-- mobile.c and commands.c: processing a packet implements the diagram of the connection.
use libmobile.Adapter.{Adapter, Callback, ConnectionState}
use libmobile.Whole.Pending.{After}
use libmobile.Commands.Base.{Answer}
use libmobile.Commands.Process.{Build, commands_process}
use libmobile.Prelude.{
  IfSome, IfSome-at, Option-cases, ap, arith, inl, inr, none, refl, some, true, ℕ, ◌≡◌,
}
use libmobile.Sockets.Ledger.{Ledger, audited}
use libmobile.Whole.Sound.{Sound}
use libmobile.Whole.Turn.{Turn}
use libmobile.Mobile.Handle.{command_handle, take_packet}
use libmobile.Whole.Answers.{commands_process-After}
use libmobile.Whole.Process.{take_packet-Pending, take_packet_lem}

module _ {W : Type 0} (cb : Callback W) (env : Build) where
  handled-Turn :
      (c : ℕ) (s : ConnectionState) (a : Adapter (Ledger W)) (r : Answer (Ledger W))
      → (let b = take_packet a in commands_process (audited cb) env b b.buffer_commands.packet)
        ≡ some r
      → Turn c s r.1.commands.state
      → IfSome (λ x. Turn c s x.1.commands.state) (command_handle (audited cb) env a)
  unfolding command_handle
  handled-Turn c s a (none, b) e t = rw (e, command_handle, IfSome) t
  handled-Turn c s a (some p, b) e t = rw (e, command_handle, IfSome) t

  -- In a session of a sound adapter, the command of the packet at hand, whichever it is, whatever
  -- the callbacks return, and whether it is done with or goes on, leaves the state of the connection
  -- as it is, or takes it along an edge of the diagram for that command. This holds of every result;
  -- without one the loop over a name of a DNS response has not ended.
  pub command_handle-Turn :
      (a : Adapter (Ledger W))
      → Sound a
      → a.commands.session_started ≡ true
      → IfSome
          (λ x.
            Turn (take_packet a).buffer_commands.packet.command a.commands.state x.1.commands.state)
          (command_handle (audited cb) env a)
  unfolding command_handle
  command_handle-Turn a s o =
      let b = take_packet a in
      let p = b.buffer_commands.packet in
      let kept = take_packet_lem a in
      let t = commands_process-After cb env p.command b p (record {
        command = refl;
        current = refl;
        session = ground (arith, kept);
        room = ground (arith, kept, s.room);
        pending = take_packet-Pending a (s.free o) (s.busy o);
      }) in
      let result = commands_process (audited cb) env b p in
      let started : b.commands.session_started ≡ true = ground (arith, kept) in
      elim (Option-cases result) [
        | inl e ↦ rw (e, command_handle, IfSome) tt
        | inr (r, e) ↦
            let turned = (IfSome-at (After p.command b) result r e t).turn started in
            handled-Turn p.command a.commands.state a r e (rw (ap (λ k. k.state) kept.2) at turned)
      ]
