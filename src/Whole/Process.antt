-- ===== src/Whole/Process.antt =====
-- mobile.c: processing a packet leaves the adapter sound.
use libmobile.Adapter.{Adapter, Callback, Packet}
use libmobile.Whole.Pending.{After, Pending}
use libmobile.Commands.Base.{Answer}
use libmobile.Commands.Process.{Build, commands_process}
use libmobile.Prelude.{
  IfSome, arith, false, length, none, refl, some, true, ℕ, ◌<◌, ◌≡◌, Bool-cases, inl, inr,
  IfSome-at, Option-cases, ◌∙◌,
}
use libmobile.Sockets.Ledger.{Ledger, Idle, audited}
use libmobile.Sockets.Tel.{Settled}
use libmobile.Whole.Sound.{Sound, Chosen}
use libmobile.Mobile.Handle.{packet_create, take_packet, command_handle}
use libmobile.Mobile.Loop.{put_serial_state, process_packet}
use libmobile.Serial.Types.{response_init, response_waiting, start_command}
use libmobile.Sockets.Start.{InOrder}
use libmobile.Whole.Session.{Orderly-After, start-Orderly}
use libmobile.Commands.Session.{command_start}
use libmobile.Whole.Answers.{commands_process-After}
use libmobile.Mobile.Actions.{is_response_waiting, Action}

module _ {W : Type 0} where
  -- What `command_handle` and `process_packet` make of the answer of a handler.
  abbrev finish : Answer (Ledger W) → Adapter (Ledger W)
  finish (none, a) = a
  finish (some p, a) =
      put_serial_state
        (record a {
          buffer_serial = packet_create a.serial a.buffer_serial p;
          global = record a.global { packet_parsed = false };
        })
        response_init

  finish-Sound :
      (c : ℕ) (a : Adapter (Ledger W)) (r : Answer (Ledger W))
      → c ≡ a.buffer_commands.packet.command
      → a.global.packet_parsed ≡ true
      → a.global.active ≡ true
      → 0 < length a.buffer_commands.processing_data
      → After c a r
      → Sound (finish r)
  finish-Sound c a (none, b) e z o n h = ground (arith, h.goes_on refl)
  finish-Sound c a (some p, b) e z o n h = ground arith

  -- Outside of a session the game sends nothing but what begins one.
  abbrev pub StartsFirst : Adapter (Ledger W) → Type 0
  StartsFirst a =
      a.commands.session_started ≡ false
      → a.serial.state ≡ response_waiting
      → (take_packet a).buffer_commands.packet.command ≡ start_command

  pub take_packet-Pending :
      (a : Adapter (Ledger W))
      → (a.global.packet_parsed ≡ false → Settled a)
      → (a.global.packet_parsed ≡ true
          → Pending a.buffer_commands.packet.command a.buffer_commands.processing a)
      → let b = take_packet a in
        Pending b.buffer_commands.packet.command b.buffer_commands.processing b
  unfolding take_packet
  take_packet-Pending a f b = ground (arith, b, f)

  pub take_packet_lem :
      (a : Adapter (Ledger W))
      → let b = take_packet a in
        (b.global.packet_parsed ≡ true)
        × (b.global.active ≡ a.global.active)
        × (b.commands ≡ a.commands)
        × (b.user ≡ a.user)
        × (b.global.number_fetch_active ≡ a.global.number_fetch_active)
        × (b.buffer_commands.processing_data ≡ a.buffer_commands.processing_data)
  unfolding take_packet
  take_packet_lem a = ground arith

module _ {W : Type 0} (cb : Callback W) (env : Build) where
  is_response_waiting_lem :
      (a : Adapter (Ledger W))
      → a.serial.state ≡ response_waiting
      → is_response_waiting a.serial.state ≡ true
  unfolding is_response_waiting
  is_response_waiting_lem a w = rw w refl

  process_packet-some :
      (a : Adapter (Ledger W)) (r : Answer (Ledger W))
      → a.serial.state ≡ response_waiting
      → (let b = take_packet a in commands_process (audited cb) env b b.buffer_commands.packet)
        ≡ some r
      → process_packet (audited cb) env a ≡ some (finish r)
  unfolding process_packet command_handle
  process_packet-some a (none, b) w e = rw (is_response_waiting_lem a w, e)
  process_packet-some a (some p, b) w e = rw (is_response_waiting_lem a w, e)

  process_packet-none :
      (a : Adapter (Ledger W))
      → a.serial.state ≡ response_waiting
      → (let b = take_packet a in commands_process (audited cb) env b b.buffer_commands.packet)
        ≡ none
      → process_packet (audited cb) env a ≡ none
  unfolding process_packet command_handle
  process_packet-none a w e = rw (is_response_waiting_lem a w, e)

  -- A packet that begins a session.
  first_packet :
      (a : Adapter (Ledger W)) (p : Packet)
      → p.command ≡ start_command
      → commands_process (audited cb) env a p ≡ some (command_start (audited cb) a p)
  unfolding commands_process
  first_packet a p e = ground arith

  commands_process_now :
      (a : Adapter (Ledger W))
      → a.serial.state ≡ response_waiting
      → StartsFirst a
      → 0 < length a.buffer_commands.processing_data
      → (a.commands.session_started ≡ true → a.global.packet_parsed ≡ false → Settled a)
      → (a.commands.session_started ≡ true
          → a.global.packet_parsed ≡ true
          → Pending a.buffer_commands.packet.command a.buffer_commands.processing a)
      → (a.commands.session_started ≡ false → Idle a)
      → let b = take_packet a in
        IfSome
          (After b.buffer_commands.packet.command b)
          (commands_process (audited cb) env b b.buffer_commands.packet)
  commands_process_now a w f n free busy out =
      let b = take_packet a in
      let p = b.buffer_commands.packet in
      let kept = take_packet_lem a in
      elim (Bool-cases a.commands.session_started) [
        | inl o ↦ commands_process-After cb env p.command b p (record {
          command = refl;
          current = refl;
          session = ground (arith, kept);
          room = ground (arith, kept);
          pending = take_packet-Pending a (free o) (busy o);
        })
        | inr o ↦
            let idle : Idle b = let i = out o in ground (arith, kept) in
            let order : InOrder b = ground (arith, kept) in
            let e : p.command ≡ start_command = f o w in
            rw (first_packet b p e) (
              Orderly-After p.command b (command_start (audited cb) b p)
                (λ e. absurd (ground (arith, kept))) (start-Orderly cb b p order))
      ]

  finished :
      (acts : Action) (a : Adapter (Ledger W)) (r : Answer (Ledger W))
      → Chosen acts a
      → a.serial.state ≡ response_waiting
      → (let b = take_packet a in After b.buffer_commands.packet.command b r)
      → Sound (finish r)
  finished acts a r h w t =
      let b = take_packet a in
      let kept = take_packet_lem a in
      let active : b.global.active ≡ true = elim (Bool-cases a.commands.session_started) [
        | inl o ↦ kept.1 ∙ h.in_use o
        | inr o ↦ kept.1 ∙ h.now_in_use o w
      ] in
      finish-Sound b.buffer_commands.packet.command b r refl kept.0 active
        (ground (arith, kept, h.room)) t

  -- Processing a packet, whichever it is and whether or not the command is done with, leaves the
  -- adapter sound, if outside of a session it begins one.
  pub process_packet-Sound :
      (acts : Action) (a : Adapter (Ledger W))
      → Chosen acts a
      → a.serial.state ≡ response_waiting
      → StartsFirst a
      → IfSome Sound (process_packet (audited cb) env a)
  process_packet-Sound acts a h w f =
      let b = take_packet a in
      let o = commands_process (audited cb) env b b.buffer_commands.packet in
      let t = commands_process_now a w f h.room h.free h.busy h.outside in
      elim (Option-cases o) [
        | inl e ↦ rw (process_packet-none a w e, IfSome) tt
        | inr (r, e) ↦
            let after = IfSome-at (After b.buffer_commands.packet.command b) o r e t in
            rw (process_packet-some a r w e, IfSome) (finished acts a r h w after)
      ]
