-- ===== src/Sockets/Query.antt =====
-- dns.c: asking a name server uses the socket of the query only.
use libmobile.Adapter.{Adapter, Addr, Callback}
use libmobile.Sockets.Frame.{Frame}
use libmobile.Sockets.Ledger.{Ledger, audited}
use libmobile.Prelude.{List, arith, get_or, some, true, ℕ, ◌≡◌}
use libmobile.Dns.Request.{Resolved, request_recv, request_send}
use libmobile.Callback.{cb_sock_recv, cb_sock_send}

module _ {W : Type 0} where
  -- What a use of socket `conn` leaves as it was, if that socket is open.
  pub record Uses (conn : ℕ) (a b : Adapter (Ledger W)) : Type 0 where
    pub same_opened0 : b.user.opened 0 ≡ a.user.opened 0
    pub same_opened1 : b.user.opened 1 ≡ a.user.opened 1
    pub same_proper : a.user.opened conn ≡ true → b.user.proper ≡ a.user.proper
    pub same_state : b.commands.state ≡ a.commands.state
    pub same_slot0 : b.commands.connections 0 ≡ a.commands.connections 0
    pub same_slot1 : b.commands.connections 1 ≡ a.commands.connections 1
    pub same_fetch : b.global.number_fetch_active ≡ a.global.number_fetch_active
    pub same_processing : b.buffer_commands.processing ≡ a.buffer_commands.processing
    pub same_number :
        get_or b.buffer_commands.processing_data 0 0 ≡ get_or a.buffer_commands.processing_data 0 0
    pub frame : Frame a b

module _ {W : Type 0} (cb : Callback W) where
  pub request_send-Uses :
      (a : Adapter (Ledger W)) (conn : ℕ) (addr : Addr) (host : List ℕ)
      → Uses conn a (request_send (audited cb) a conn addr host).1
  unfolding request_send cb_sock_send
  request_send-Uses a conn addr host = ground arith

  pub request_recv-Uses :
      (fuel : ℕ) (a : Adapter (Ledger W)) (conn : ℕ) (addr : Addr) (host : List ℕ) (n : ℕ)
      (r : Resolved (audited cb))
      → request_recv (audited cb) fuel a conn addr host n ≡ some r
      → Uses conn a r.2
  unfolding request_recv cb_sock_recv
  request_recv-Uses fuel a conn addr host n r e = ground arith
