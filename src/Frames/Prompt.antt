-- ===== src/Frames/Prompt.antt =====
-- commands.c: the commands that answer at once.
use libmobile.Adapter.{Adapter, Callback, Packet}
use libmobile.Frames.WaitCall.{AnswerFrame}
use libmobile.Sockets.Frame.{Frame}
use libmobile.Sockets.Ledger.{Ledger, audited}
use libmobile.Prelude.{arith, Bool}
use libmobile.Callback.{cb_config_read, cb_config_write}
use libmobile.Commands.Query.{
  command_change_clock, command_check_status, command_eeprom_read, command_eeprom_write,
}
use libmobile.Commands.Session.{
  command_offline, command_ppp_disconnect, do_offline, do_ppp_disconnect, drop_connection,
  drop_connections,
}
use libmobile.Commands.Internet.{command_ppp_connect, login}
use libmobile.Commands.Base.{error_packet}

module _ {W : Type 0} (cb : Callback W) where
  pub check_status-Frame :
      (a : Adapter (Ledger W)) (p : Packet) → AnswerFrame a (command_check_status a p)
  unfolding command_check_status
  check_status-Frame a p = ground arith

  pub change_clock-Frame :
      (no32bit : Bool) (a : Adapter (Ledger W)) (p : Packet)
      → AnswerFrame a (command_change_clock no32bit a p)
  unfolding command_change_clock error_packet
  change_clock-Frame no32bit a p = ground arith

  pub eeprom_read-Frame :
      (a : Adapter (Ledger W)) (p : Packet) → AnswerFrame a (command_eeprom_read (audited cb) a p)
  unfolding command_eeprom_read error_packet cb_config_read
  eeprom_read-Frame a p = ground arith

  pub eeprom_write-Frame :
      (a : Adapter (Ledger W)) (p : Packet) → AnswerFrame a (command_eeprom_write (audited cb) a p)
  unfolding command_eeprom_write error_packet cb_config_write
  eeprom_write-Frame a p = ground arith

  pub ppp_connect-Frame :
      (a : Adapter (Ledger W)) (p : Packet) → AnswerFrame a (command_ppp_connect a p)
  unfolding command_ppp_connect error_packet login
  ppp_connect-Frame a p = ground arith

  do_ppp_disconnect-Frame : (a : Adapter (Ledger W)) → Frame a (do_ppp_disconnect (audited cb) a).1
  unfolding do_ppp_disconnect drop_connections drop_connection
  do_ppp_disconnect-Frame a = ground arith

  pub ppp_disconnect-Frame :
      (a : Adapter (Ledger W)) (p : Packet)
      → AnswerFrame a (command_ppp_disconnect (audited cb) a p)
  unfolding command_ppp_disconnect error_packet
  ppp_disconnect-Frame a p = ground (arith, do_ppp_disconnect-Frame a)

  pub do_offline-Frame : (a : Adapter (Ledger W)) → Frame a (do_offline (audited cb) a).1
  unfolding do_offline drop_connection
  do_offline-Frame a = ground (arith, do_ppp_disconnect-Frame a)

  pub offline-Frame :
      (a : Adapter (Ledger W)) (p : Packet) → AnswerFrame a (command_offline (audited cb) a p)
  unfolding command_offline error_packet
  offline-Frame a p = ground (arith, do_offline-Frame a)
