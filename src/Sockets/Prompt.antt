-- ===== src/Sockets/Prompt.antt =====
-- commands.c: the commands that answer at once keep the account of the sockets: CHECK_STATUS,
-- CHANGE_CLOCK, the two on the stored configuration, and logging in and out.
use libmobile.Adapter.{Adapter, Callback, Packet}
use libmobile.Commands.Base.{Answer, data_at, error_packet, is_internet}
use libmobile.Prelude.{Bool, [], arith, one_of, true, ℕ, ◌+◌, ◌∷◌, ◌≡◌, inl, inr, some, ◌⊎◌}
use libmobile.Commands.Process.{Build, commands_process, process_internet}
use libmobile.Sockets.Ledger.{Ledger, audited}
use libmobile.Sockets.Tel.{Settled, sends}
use libmobile.Dns.Name.{at}
use libmobile.Callback.{cb_config_read, cb_config_write}
use libmobile.Commands.Query.{
  command_change_clock, command_check_status, command_eeprom_read, command_eeprom_write,
}
use libmobile.Commands.Internet.{command_ppp_connect, login, login_size}
use libmobile.Commands.Session.{command_ppp_disconnect, do_ppp_disconnect}
use libmobile.Sockets.Session.{do_ppp_disconnect-Accounted}

abbrev pub is_prompt : ℕ → Bool
is_prompt c = one_of c (0x17 ∷ 0x18 ∷ 0x19 ∷ 0x1a ∷ 0x21 ∷ 0x22 ∷ [])

module _ {W : Type 0} where
  -- An answer is sent, and the sockets are as they have to be between two commands.
  pub record Replied (r : Answer (Ledger W)) : Type 0 where
    pub sent : sends r.0 ≡ true
    pub settled : Settled r.1

module _ {W : Type 0} (cb : Callback W) where
  pub check_status-Replied :
      (a : Adapter (Ledger W)) (p : Packet) → Settled a → Replied (command_check_status a p)
  unfolding command_check_status is_internet
  check_status-Replied a p s = ground arith

  pub change_clock-Replied :
      (no32bit : Bool) (a : Adapter (Ledger W)) (p : Packet)
      → Settled a
      → Replied (command_change_clock no32bit a p)
  unfolding command_change_clock error_packet is_internet
  change_clock-Replied no32bit a p s = ground arith

  pub eeprom_read-Replied :
      (a : Adapter (Ledger W)) (p : Packet)
      → Settled a
      → Replied (command_eeprom_read (audited cb) a p)
  unfolding command_eeprom_read error_packet cb_config_read is_internet
  eeprom_read-Replied a p s = ground arith

  pub eeprom_write-Replied :
      (a : Adapter (Ledger W)) (p : Packet)
      → Settled a
      → Replied (command_eeprom_write (audited cb) a p)
  unfolding command_eeprom_write error_packet cb_config_write is_internet
  eeprom_write-Replied a p s = ground arith

  login-Replied :
      (a : Adapter (Ledger W)) (p : Packet) (at : ℕ) → Settled a → Replied (login a p at)
  unfolding login is_internet
  login-Replied a p at s = ground arith

  pub ppp_connect-Replied :
      (a : Adapter (Ledger W)) (p : Packet) → Settled a → Replied (command_ppp_connect a p)
  unfolding command_ppp_connect error_packet is_internet
  ppp_connect-Replied a p s =
      let size = login_size (data_at a 0) in
      let pass = login_size (data_at a (1 + size)) in
      ground (arith, login-Replied a p (2 + size + pass) s)

  pub ppp_disconnect-Replied :
      (a : Adapter (Ledger W)) (p : Packet)
      → Settled a
      → Replied (command_ppp_disconnect (audited cb) a p)
  unfolding command_ppp_disconnect do_ppp_disconnect error_packet is_internet
  ppp_disconnect-Replied a p s = ground (arith, do_ppp_disconnect-Accounted cb a s.account)

  is_prompt-cases :
      (c : ℕ)
      → is_prompt c ≡ true
      → (c ≡ 0x17) ⊎ ((c ≡ 0x18) ⊎ ((c ≡ 0x19) ⊎ ((c ≡ 0x1a) ⊎ ((c ≡ 0x21) ⊎ (c ≡ 0x22)))))
  is_prompt-cases c h = ground arith

  -- The status, the clock, the stored configuration, logging in and logging out: the handler sends an
  -- answer, an error included, without going on in a later call, and it leaves the sockets as they
  -- have to be between two commands.
  pub commands_process-Replied :
      (env : Build) (a : Adapter (Ledger W)) (p : Packet)
      → Settled a
      → is_prompt p.command ≡ true
      → (r : Answer (Ledger W)) × ((commands_process (audited cb) env a p ≡ some r) × Replied r)
  unfolding commands_process process_internet
  commands_process-Replied env a p s h = elim (is_prompt-cases p.command h) [
    | inl e ↦ (command_check_status a p, (ground arith, check_status-Replied a p s))
    | inr (inl e) ↦ (
      command_change_clock env.no32bit a p,
      (ground arith, change_clock-Replied env.no32bit a p s),
    )
    | inr (inr (inl e)) ↦
        (command_eeprom_read (audited cb) a p, (ground arith, eeprom_read-Replied a p s))
    | inr (inr (inr (inl e))) ↦
        (command_eeprom_write (audited cb) a p, (ground arith, eeprom_write-Replied a p s))
    | inr (inr (inr (inr (inl e)))) ↦
        (command_ppp_connect a p, (ground arith, ppp_connect-Replied a p s))
    | inr (inr (inr (inr (inr e)))) ↦
        (command_ppp_disconnect (audited cb) a p, (ground arith, ppp_disconnect-Replied a p s))
  ]
