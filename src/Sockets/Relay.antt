-- ===== src/Sockets/Relay.antt =====
-- relay.c: every step of the relay client uses its socket while it is open, and neither opens nor
-- closes one.
use libmobile.Adapter.{Adapter, Callback, Addr, recv_connect}
use libmobile.Sockets.Ledger.{Ledger, audited}
use libmobile.Prelude.{List, arith, true, ℕ, ◌+◌, ◌≡◌, [], length, take, ◌∷◌}
use libmobile.Dns.Name.{at}
use libmobile.Relay.Exchange.{
  call_recv_result, call_send, handshake_recv, handshake_send, number_recv, relay_recv, send_ok,
  command_send, get_number_recv, handshake_magic, put_bytes, relay_byte, wait_recv,
  command_get_number, command_wait, get_number_send, put_relay, relay_recv_reset, token_recv,
  wait_send,
}
use libmobile.Callback.{cb_sock_connect}
use libmobile.Relay.Connect.{
  connect_step, handshake_step, linked_if, relay_call, relay_connect, relay_get_number, relay_wait,
}
use libmobile.Sockets.Frame.{Frame}

module _ {W : Type 0} where
  -- What a step leaves as it was, if socket 0 is open.
  pub record Keeps (a b : Adapter (Ledger W)) : Type 0 where
    pub same_opened0 : b.user.opened 0 ≡ a.user.opened 0
    pub same_opened1 : b.user.opened 1 ≡ a.user.opened 1
    pub same_proper : a.user.opened 0 ≡ true → b.user.proper ≡ a.user.proper
    pub same_state : b.commands.state ≡ a.commands.state
    pub same_slot0 : b.commands.connections 0 ≡ a.commands.connections 0
    pub same_slot1 : b.commands.connections 1 ≡ a.commands.connections 1
    pub same_fetch : b.global.number_fetch_active ≡ a.global.number_fetch_active
    pub same_processing : b.buffer_commands.processing ≡ a.buffer_commands.processing
    pub frame : Frame a b

  pub Keeps-trans : (a b c : Adapter (Ledger W)) → Keeps a b → Keeps b c → Keeps a c
  Keeps-trans a b c h k = ground arith

module _ {W : Type 0} (cb : Callback W) where
  relay_recv-Keeps :
      (a : Adapter (Ledger W)) (size : ℕ) → Keeps a (relay_recv (audited cb) a 0 size).1
  unfolding relay_recv
  relay_recv-Keeps a size = ground arith

  send_ok-Keeps : (a : Adapter (Ledger W)) (size : ℕ) → Keeps a (send_ok (audited cb) a 0 size).1
  unfolding send_ok
  send_ok-Keeps a size = ground arith

  handshake_send-Keeps : (a : Adapter (Ledger W)) → Keeps a (handshake_send (audited cb) a 0).1
  unfolding handshake_send
  handshake_send-Keeps a = ground (
    arith,
    send_ok-Keeps (put_bytes (put_bytes a 0 handshake_magic) 7 (0 ∷ [])) 8,
    send_ok-Keeps (put_bytes (put_bytes a 0 handshake_magic) 7 (1 ∷ take 16 a.config.relay_token))
        24,
  )

  token_recv-Keeps : (a : Adapter (Ledger W)) → Keeps a (token_recv (audited cb) a 0).1
  unfolding token_recv
  token_recv-Keeps a = ground (arith, relay_recv-Keeps a 24)

  handshake_recv-Keeps : (a : Adapter (Ledger W)) → Keeps a (handshake_recv (audited cb) a 0).1
  unfolding handshake_recv
  handshake_recv-Keeps a =
      let a1 = (relay_recv (audited cb) a 0 8).1 in
      ground (arith, relay_recv-Keeps a 8, token_recv-Keeps a1)

  call_send-Keeps : (a : Adapter (Ledger W)) (n : List ℕ) → Keeps a (call_send (audited cb) a 0 n).1
  unfolding call_send
  call_send-Keeps a n =
      ground (arith, send_ok-Keeps (put_bytes a 0 (0 ∷ 0 ∷ length n ∷ n)) (3 + length n))

  command_send-Keeps :
      (a : Adapter (Ledger W)) (c : ℕ) → Keeps a (command_send (audited cb) a 0 c).1
  unfolding command_send
  command_send-Keeps a c = ground (arith, send_ok-Keeps (put_bytes a 0 (0 ∷ c ∷ [])) 2)

  call_recv_result-Keeps : (a : Adapter (Ledger W)) → Keeps a (call_recv_result (audited cb) a 0).1
  unfolding call_recv_result
  call_recv_result-Keeps a = ground (arith, relay_recv-Keeps a 3)

  number_recv-Keeps :
      (a : Adapter (Ledger W)) (at n result : ℕ)
      → Keeps a (number_recv (audited cb) a 0 at n result).2
  unfolding number_recv
  number_recv-Keeps a at n result = ground (arith, relay_recv-Keeps a (at + n))

  wait_recv-Keeps : (a : Adapter (Ledger W)) → Keeps a (wait_recv (audited cb) a 0).2
  unfolding wait_recv
  wait_recv-Keeps a =
      let a1 = (relay_recv (audited cb) a 0 4).1 in
      ground (
        arith,
        relay_recv-Keeps a 4,
        number_recv-Keeps a1 4 (relay_byte a1 3) (relay_byte a1 2 + 1),
      )

  get_number_recv-Keeps : (a : Adapter (Ledger W)) → Keeps a (get_number_recv (audited cb) a 0).2
  unfolding get_number_recv
  get_number_recv-Keeps a =
      let a1 = (relay_recv (audited cb) a 0 3).1 in
      ground (arith, relay_recv-Keeps a 3, number_recv-Keeps a1 3 (relay_byte a1 2) 1)

  connect_step-Keeps :
      (a : Adapter (Ledger W)) (server : Addr) → Keeps a (connect_step (audited cb) a 0 server).1
  unfolding connect_step cb_sock_connect relay_recv_reset
  connect_step-Keeps a server =
      let a1 = (cb_sock_connect (audited cb) a 0 server).1 in
      ground (arith, handshake_send-Keeps a1)

  handshake_step-Keeps : (a : Adapter (Ledger W)) → Keeps a (handshake_step (audited cb) a 0).1
  unfolding handshake_step
  handshake_step-Keeps a = ground (arith, handshake_recv-Keeps a)

  pub relay_connect-Keeps :
      (a : Adapter (Ledger W)) (server : Addr) → Keeps a (relay_connect (audited cb) a 0 server).1
  unfolding relay_connect
  relay_connect-Keeps a server = ground (
    arith,
    connect_step-Keeps a server,
    connect_step-Keeps (put_relay a recv_connect) server,
    handshake_step-Keeps a,
  )

  pub relay_call-Keeps :
      (a : Adapter (Ledger W)) (n : List ℕ) → Keeps a (relay_call (audited cb) a 0 n).1
  unfolding relay_call relay_recv_reset linked_if
  relay_call-Keeps a n = ground (arith, call_send-Keeps a n, call_recv_result-Keeps a)

  pub relay_wait-Keeps : (a : Adapter (Ledger W)) → Keeps a (relay_wait (audited cb) a 0).2
  unfolding relay_wait relay_recv_reset linked_if wait_send
  relay_wait-Keeps a = ground (arith, command_send-Keeps a command_wait, wait_recv-Keeps a)

  pub relay_get_number-Keeps :
      (a : Adapter (Ledger W)) → Keeps a (relay_get_number (audited cb) a 0).2
  unfolding relay_get_number relay_recv_reset get_number_send
  relay_get_number-Keeps a =
      ground (arith, command_send-Keeps a command_get_number, get_number_recv-Keeps a)
