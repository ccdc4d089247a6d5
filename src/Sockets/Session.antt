-- ===== src/Sockets/Session.antt =====
-- commands.c: ending, beginning and leaving keep the account of the sockets.
use libmobile.Sockets.Ledger.{Accounted, AnswerAccounted, Ledger, audited, Idle}
use libmobile.Adapter.{Adapter, Callback, Packet}
use libmobile.Prelude.{arith, false, ℕ, ◌≡◌, true, refl}
use libmobile.Commands.Session.{
  do_end_session, do_offline, do_ppp_disconnect, do_start_session, drop_connections,
  drop_connection, command_end,
}
use libmobile.Commands.Base.{error_packet, is_internet}

module _ {W : Type 0} (cb : Callback W) where
  pub error_packet-Accounted :
      (p : Packet) (e : ℕ) (a : Adapter (Ledger W))
      → Accounted a
      → AnswerAccounted (error_packet p e a)
  unfolding error_packet
  error_packet-Accounted p e a h = ground arith

  pub drop_connection-Accounted :
      (a : Adapter (Ledger W))
      → Accounted a
      → Accounted (drop_connection (audited cb) a 0)
        × ((drop_connection (audited cb) a 0).commands.connections 0 ≡ false)
  unfolding drop_connection
  drop_connection-Accounted a h = ground arith

  pub drop_connection-state :
      (a : Adapter (Ledger W)) (conn : ℕ)
      → (drop_connection (audited cb) a conn).commands.state ≡ a.commands.state
  unfolding drop_connection
  drop_connection-state a conn = ground arith

  drop_connections_lem :
      (a : Adapter (Ledger W))
      → Accounted a
      → let a' = drop_connections (audited cb) 2 0 a in
        (a'.user.proper ≡ true)
        × (a'.user.opened 0 ≡ false)
        × (a'.user.opened 1 ≡ false)
        × (a'.commands.connections 0 ≡ false)
        × (a'.commands.connections 1 ≡ false)
        × (a'.global.number_fetch_active ≡ false)
  unfolding drop_connections
  drop_connections_lem a h = ground arith

  pub do_ppp_disconnect-Accounted :
      (a : Adapter (Ledger W))
      → Accounted a
      → Accounted (do_ppp_disconnect (audited cb) a).1
        × (is_internet (do_ppp_disconnect (audited cb) a).1.commands.state ≡ false)
  unfolding do_ppp_disconnect
  do_ppp_disconnect-Accounted a h = ground (arith, drop_connections_lem a h)

  pub do_offline-Accounted :
      (a : Adapter (Ledger W))
      → Accounted a
      → Accounted (do_offline (audited cb) a).1
        × (is_internet (do_offline (audited cb) a).1.commands.state ≡ false)
  unfolding do_offline
  do_offline-Accounted a h = ground (arith, do_ppp_disconnect-Accounted a h)

  -- Ending a session closes every socket, each exactly once.
  pub do_end_session-Idle :
      (a : Adapter (Ledger W))
      → Accounted a
      → Idle (do_end_session (audited cb) a)
        × ((do_end_session (audited cb) a).user.opened 0 ≡ false)
        × ((do_end_session (audited cb) a).global.number_fetch_active ≡ false)
  unfolding do_end_session
  do_end_session-Idle a h = ground (arith, do_offline-Accounted a h)

  pub do_end_session_ended :
      (a : Adapter (Ledger W)) → (do_end_session (audited cb) a).commands.session_started ≡ false
  unfolding do_end_session
  do_end_session_ended a = refl

  pub do_start_session-Accounted :
      (a : Adapter (Ledger W)) → Idle a → Accounted (do_start_session (audited cb) a)
  unfolding do_start_session
  do_start_session-Accounted a h = ground arith

  -- Ending a session closes every socket that is open, and each once: afterwards none is open and
  -- every call was proper.
  pub command_end-Idle :
      (a : Adapter (Ledger W)) (p : Packet)
      → Accounted a
      → let a' = (command_end (audited cb) a p).1 in
        Idle a' × (a'.user.opened 0 ≡ false) × (a'.commands.session_started ≡ false)
  unfolding command_end
  command_end-Idle a p h = ground (arith, do_end_session-Idle a h, do_end_session_ended a)
