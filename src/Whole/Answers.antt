-- ===== src/Whole/Answers.antt =====
-- commands.c: whichever command is processed, the sockets are afterwards as the next round of the
-- main loop needs them.
use libmobile.Adapter.{Adapter, Callback, Packet}
use libmobile.Whole.Pending.{After, Pending, Settled-After, is_connect, tel_code}
use libmobile.Commands.Base.{Answer, error_packet}
use libmobile.Commands.Process.{Build, commands_process, process_internet}
use libmobile.Sockets.Frame.{Frame}
use libmobile.Prelude.{
  IfSome, Option, arith, false, if_intro, inr, length, true, ℕ, ◌<◌, ◌==◌, ◌≡◌, ◌≢◌,
}
use libmobile.Sockets.Ledger.{Ledger, audited}
use libmobile.Whole.Session.{Orderly-After, end-Orderly, reinit-Orderly, start-Orderly}
use libmobile.Sockets.Tel.{Settled}
use libmobile.Frames.Prompt.{
  change_clock-Frame, check_status-Frame, eeprom_read-Frame, eeprom_write-Frame, offline-Frame,
  ppp_connect-Frame, ppp_disconnect-Frame,
}
use libmobile.Sockets.Prompt.{
  change_clock-Replied, check_status-Replied, eeprom_read-Replied, eeprom_write-Replied,
  ppp_connect-Replied, ppp_disconnect-Replied,
}
use libmobile.Commands.Query.{
  command_change_clock, command_check_status, command_eeprom_read, command_eeprom_write,
}
use libmobile.Commands.Transfer.{command_data}
use libmobile.Frames.Internet.{command_data-Frame, command_tcp_disconnect-Frame}
use libmobile.Whole.Settle.{
  command_data-Settled, command_offline-Settled, command_tcp_disconnect-Settled, command_data-state,
}
use libmobile.Commands.Session.{
  command_end, command_offline, command_ppp_disconnect, command_reinit, command_start,
}
use libmobile.Commands.Internet.{command_ppp_connect, command_tcp_disconnect}
use libmobile.Commands.WaitCall.{command_wait_call}
use libmobile.Frames.WaitCall.{command_wait_call-Frame}
use libmobile.Sockets.WaitCall.{command_wait_call-Settled}
use libmobile.Whole.Dialling.{dns_request-After, tcp_connect-After, tel-After}
use libmobile.Whole.Course.{
  Turns, change_clock-Turns, check_status-Turns, eeprom_read-Turns, eeprom_write-Turns, end-Turns,
  offline-Turns, ppp_connect-Turns, ppp_disconnect-Turns, reinit-Turns, same-Turns, start-Turns,
  tcp_disconnect-Turns,
}
use libmobile.Whole.Turn.{same}
use libmobile.Whole.Waiting.{wait_call-Turns}

-- The commands that keep no connection of their own while they go on.
abbrev IsPlain : ℕ → Type 0
IsPlain c = (c ≢ tel_code) × (is_connect c ≡ false)

module _ {W : Type 0} where
  -- Before a packet is processed in a session.
  pub record Ready (c : ℕ) (a : Adapter (Ledger W)) (p : Packet) : Type 0 where
    pub command : p.command ≡ c
    pub current : c ≡ a.buffer_commands.packet.command
    pub session : a.commands.session_started ≡ true
    pub room : 0 < length a.buffer_commands.processing_data
    pub pending : Pending c a.buffer_commands.processing a

  Ready-Settled :
      {c : ℕ} {a : Adapter (Ledger W)} {p : Packet} → Ready c a p → IsPlain c → Settled a
  Ready-Settled h q = h.pending.settled (inr q)

  abbrev Result : (c : ℕ) (a : Adapter (Ledger W)) → Option (Answer (Ledger W)) → Type 0
  Result c a = IfSome (After c a)

  -- A command that leaves the sockets as it found them.
  plain-After :
      (c : ℕ) (a : Adapter (Ledger W)) (p : Packet) (r : Answer (Ledger W))
      → Ready c a p
      → IsPlain c
      → Frame a r.1
      → Turns c a r
      → (Settled a → Settled r.1)
      → After c a r
  plain-After c a p r h q f t s = Settled-After c a r q h.session f t (s (Ready-Settled h q))

  error-After :
      (c : ℕ) (a : Adapter (Ledger W)) (p : Packet)
      → Ready c a p
      → IsPlain c
      → After c a (error_packet p 1 a)
  unfolding error_packet
  error-After c a p h q =
      plain-After c a p (error_packet p 1 a) h q (ground arith) same (λ s. ground arith)

module _ {W : Type 0} (cb : Callback W) (env : Build) (c : ℕ) (a : Adapter (Ledger W)) (p : Packet)
    (h : Ready c a p) where
  check_status-After : p.command ≡ 0x17 → After c a (command_check_status a p)
  check_status-After e =
      plain-After c a p (command_check_status a p) h (ground arith) (check_status-Frame cb a p)
        (check_status-Turns cb c a p) (λ s. (check_status-Replied cb a p s).settled)

  change_clock-After : p.command ≡ 0x18 → After c a (command_change_clock env.no32bit a p)
  change_clock-After e =
      plain-After c a p (command_change_clock env.no32bit a p) h (ground arith)
        (change_clock-Frame cb env.no32bit a p) (change_clock-Turns cb c a p env.no32bit)
        (λ s. (change_clock-Replied cb env.no32bit a p s).settled)

  eeprom_read-After : p.command ≡ 0x19 → After c a (command_eeprom_read (audited cb) a p)
  eeprom_read-After e =
      plain-After c a p (command_eeprom_read (audited cb) a p) h (ground arith)
        (eeprom_read-Frame cb a p) (eeprom_read-Turns cb c a p)
        (λ s. (eeprom_read-Replied cb a p s).settled)

  eeprom_write-After : p.command ≡ 0x1a → After c a (command_eeprom_write (audited cb) a p)
  eeprom_write-After e =
      plain-After c a p (command_eeprom_write (audited cb) a p) h (ground arith)
        (eeprom_write-Frame cb a p) (eeprom_write-Turns cb c a p)
        (λ s. (eeprom_write-Replied cb a p s).settled)

  ppp_connect-After : p.command ≡ 0x21 → After c a (command_ppp_connect a p)
  ppp_connect-After e =
      plain-After c a p (command_ppp_connect a p) h (ground arith) (ppp_connect-Frame cb a p)
        (ppp_connect-Turns cb c a p (ground arith)) (λ s. (ppp_connect-Replied cb a p s).settled)

  ppp_disconnect-After : p.command ≡ 0x22 → After c a (command_ppp_disconnect (audited cb) a p)
  ppp_disconnect-After e =
      plain-After c a p (command_ppp_disconnect (audited cb) a p) h (ground arith)
        (ppp_disconnect-Frame cb a p) (ppp_disconnect-Turns cb c a p (ground arith))
        (λ s. (ppp_disconnect-Replied cb a p s).settled)

  offline-After : p.command ≡ 0x13 → After c a (command_offline (audited cb) a p)
  offline-After e =
      plain-After c a p (command_offline (audited cb) a p) h (ground arith) (offline-Frame cb a p)
        (offline-Turns cb c a p (ground arith)) (λ s. command_offline-Settled cb a p s)

  wait_call-After : p.command ≡ 0x14 → After c a (command_wait_call (audited cb) a p)
  wait_call-After e =
      plain-After c a p (command_wait_call (audited cb) a p) h (ground arith)
        (command_wait_call-Frame cb a p) (wait_call-Turns cb c a p (ground arith))
        (λ s. command_wait_call-Settled cb a p s)

  transfer-After : p.command ≡ 0x15 → After c a (command_data (audited cb) a p)
  transfer-After e =
      plain-After c a p (command_data (audited cb) a p) h (ground arith) (command_data-Frame cb a p)
        (same-Turns c a (command_data (audited cb) a p) (command_data-state cb a p))
        (λ s. command_data-Settled cb a p s)

  tcp_disconnect-After : p.command ≡ 0x24 → After c a (command_tcp_disconnect (audited cb) a p)
  tcp_disconnect-After e =
      plain-After c a p (command_tcp_disconnect (audited cb) a p) h (ground arith)
        (command_tcp_disconnect-Frame cb a p) (tcp_disconnect-Turns cb c a p)
        (λ s. command_tcp_disconnect-Settled cb a p s)

  start-After : p.command ≡ 0x10 → After c a (command_start (audited cb) a p)
  start-After e = Orderly-After c a (command_start (audited cb) a p) (start-Turns cb c a p) (
      start-Orderly cb a p (
        let t = Ready-Settled h (ground arith) in
        record { within = λ z. t; outside = λ z. absurd (ground (arith, h.session)) }))

  end-After : p.command ≡ 0x11 → After c a (command_end (audited cb) a p)
  end-After e =
      Orderly-After c a (command_end (audited cb) a p) (λ _. end-Turns cb c a p (ground arith))
        (end-Orderly cb a p (Ready-Settled h (ground arith)))

  reinit-After : p.command ≡ 0x16 → After c a (command_reinit (audited cb) a p)
  reinit-After e =
      Orderly-After c a (command_reinit (audited cb) a p)
        (λ _. reinit-Turns cb c a p (ground arith))
        (reinit-Orderly cb a p (Ready-Settled h (ground arith)))

  internet-After : c ≢ tel_code → Result c a (process_internet (audited cb) env a p)
  unfolding process_internet
  internet-After t =
      if_intro (Result c a) (p.command == 0x21) (λ z. ppp_connect-After (ground arith))
        (λ z1.
          if_intro (Result c a) (p.command == 0x22) (λ z. ppp_disconnect-After (ground arith))
            (λ z2.
              if_intro (Result c a) (p.command == 0x23)
                (λ z. tcp_connect-After cb c a p (ground arith) h.session h.room h.pending)
                (λ z3.
                  if_intro (Result c a) (p.command == 0x24)
                    (λ z. tcp_disconnect-After (ground arith))
                    (λ z4.
                      if_intro (Result c a) (p.command == 0x28)
                        (λ z.
                          dns_request-After cb env.pton env.fuel c a p (ground arith) h.session
                            h.room h.pending)
                        (λ z5. error-After c a p h (ground arith))))))

  -- A command of a session that has begun.
  pub commands_process-After : Result c a (commands_process (audited cb) env a p)
  unfolding commands_process
  commands_process-After =
      if_intro (Result c a) (p.command == 0x10) (λ z. start-After (ground arith))
        (λ z0.
          if_intro (Result c a) (p.command == 0x11) (λ z. end-After (ground arith))
            (λ z1.
              if_intro (Result c a) (p.command == 0x12)
                (λ z. tel-After cb c a p (ground arith) (ground arith) h.session h.pending)
                (λ z2.
                  if_intro (Result c a) (p.command == 0x13) (λ z. offline-After (ground arith))
                    (λ z3.
                      if_intro (Result c a) (p.command == 0x14)
                        (λ z. wait_call-After (ground arith))
                        (λ z4.
                          if_intro (Result c a) (p.command == 0x15)
                            (λ z. transfer-After (ground arith))
                            (λ z5.
                              if_intro (Result c a) (p.command == 0x16)
                                (λ z. reinit-After (ground arith))
                                (λ z6.
                                  if_intro (Result c a) (p.command == 0x17)
                                    (λ z. check_status-After (ground arith))
                                    (λ z7.
                                      if_intro (Result c a) (p.command == 0x18)
                                        (λ z. change_clock-After (ground arith))
                                        (λ z8.
                                          if_intro (Result c a) (p.command == 0x19)
                                            (λ z. eeprom_read-After (ground arith))
                                            (λ z9.
                                              if_intro (Result c a) (p.command == 0x1a)
                                                (λ z. eeprom_write-After (ground arith))
                                                (λ z10. internet-After (ground arith))))))))))))
