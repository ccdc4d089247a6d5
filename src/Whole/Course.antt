-- ===== src/Whole/Course.antt =====
-- commands.c: every command moves the connection along the diagram.
use libmobile.Adapter.{Adapter, Callback, Packet, call_isp, disconnected}
use libmobile.Commands.Base.{Answer, error_packet, in_call, is_internet}
use libmobile.Prelude.{Bool, arith, if◌then◌else◌, true, ℕ, ◌≡◌}
use libmobile.Sockets.Ledger.{Ledger, audited}
use libmobile.Whole.Turn.{Turn, is_linked, same, turns}
use libmobile.Callback.{cb_config_read, cb_config_write}
use libmobile.Commands.Query.{
  command_change_clock, command_check_status, command_eeprom_read, command_eeprom_write,
}
use libmobile.Commands.Session.{
  command_end, command_offline, command_ppp_disconnect, command_reinit, command_start,
  do_end_session, do_offline, do_ppp_disconnect, do_start_session, drop_connection,
  drop_connections, number_fetch_cancel,
}
use libmobile.Commands.Internet.{
  command_ppp_connect, is_call_isp, login, close_kept, command_tcp_disconnect,
}

module _ {W : Type 0} where
  abbrev pub Turns : ℕ → Adapter W → Answer W → Type 0
  Turns c a (p, b) = Turn c a.commands.state b.commands.state

  pub same-Turns :
      (c : ℕ) (a : Adapter W) (r : Answer W) → r.1.commands.state ≡ a.commands.state → Turns c a r
  same-Turns c a r e = rw e same

module _ {W : Type 0} (cb : Callback W) (c : ℕ) (a : Adapter (Ledger W)) (p : Packet) where
  pub check_status-Turns : Turns c a (command_check_status a p)
  unfolding command_check_status
  check_status-Turns = same

  pub change_clock-Turns : (no32bit : Bool) → Turns c a (command_change_clock no32bit a p)
  unfolding command_change_clock error_packet
  change_clock-Turns no32bit = grind (arith, same)

  pub eeprom_read-Turns : Turns c a (command_eeprom_read (audited cb) a p)
  unfolding command_eeprom_read error_packet cb_config_read
  eeprom_read-Turns = grind (arith, same)

  pub eeprom_write-Turns : Turns c a (command_eeprom_write (audited cb) a p)
  unfolding command_eeprom_write error_packet cb_config_write
  eeprom_write-Turns = grind (arith, same)

  pub ppp_connect-Turns : c ≡ 0x21 → Turns c a (command_ppp_connect a p)
  unfolding command_ppp_connect error_packet login is_call_isp
  ppp_connect-Turns e = grind (arith, turns)

  do_ppp_disconnect_lem :
      (b : Adapter (Ledger W))
      → (do_ppp_disconnect (audited cb) b).1.commands.state
        ≡ (if is_internet b.commands.state then call_isp else b.commands.state)
  unfolding do_ppp_disconnect drop_connections drop_connection
  do_ppp_disconnect_lem b = ground arith

  pub ppp_disconnect-Turns : c ≡ 0x22 → Turns c a (command_ppp_disconnect (audited cb) a p)
  unfolding command_ppp_disconnect error_packet is_internet
  ppp_disconnect-Turns e = grind (arith, turns, do_ppp_disconnect_lem a)

  do_offline_lem :
      (b : Adapter (Ledger W))
      → (do_offline (audited cb) b).1.commands.state
        ≡ (if is_linked b.commands.state then disconnected else b.commands.state)
  unfolding do_offline drop_connection in_call is_internet
  do_offline_lem b = ground (arith, do_ppp_disconnect_lem b)

  pub offline-Turns : c ≡ 0x13 → Turns c a (command_offline (audited cb) a p)
  unfolding command_offline error_packet
  offline-Turns e = grind (arith, turns, do_offline_lem a)

  pub end-Turns : c ≡ 0x11 → Turns c a (command_end (audited cb) a p)
  unfolding command_end do_end_session
  end-Turns e = grind (arith, turns, do_offline_lem a)

  pub reinit-Turns : c ≡ 0x16 → Turns c a (command_reinit (audited cb) a p)
  unfolding command_reinit do_start_session number_fetch_cancel
  reinit-Turns e = grind (arith, turns)

  pub start-Turns : a.commands.session_started ≡ true → Turns c a (command_start (audited cb) a p)
  unfolding command_start error_packet
  start-Turns o = rw o (grind (arith, same))

  pub tcp_disconnect-Turns : Turns c a (command_tcp_disconnect (audited cb) a p)
  unfolding command_tcp_disconnect error_packet close_kept
  tcp_disconnect-Turns = grind (arith, same)
