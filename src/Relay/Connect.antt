-- ===== src/Relay/Connect.antt =====
-- relay.c: connecting, calling, waiting and asking for the number, one step at a time.
use libmobile.Adapter.{
  Adapter, Addr, Callback, recv_call, recv_connect, recv_get_number, recv_handshake, recv_wait,
  relay_connected, relay_disconnected, relay_linked,
}
use libmobile.Prelude.{
  List, [], if◌then◌else◌, is_negative, is_zero, not, pos, to_ℕ, ℕ, ℤ, ◌&&◌, ◌==◌,
}
use libmobile.Relay.Exchange.{
  call_recv_result, call_send, get_number_recv, get_number_send, handshake_recv, handshake_send,
  minus_one, put_relay, relay_recv_reset, wait_recv, wait_send,
}
use libmobile.Callback.{cb_sock_connect}

module _ {W : Type 0} (cb : Callback W) where
  -- The state MOBILE_RELAY_RECV_CONNECT, into which MOBILE_RELAY_DISCONNECTED falls.
  unfoldable pub connect_step : Adapter W → ℕ → Addr → ℤ × Adapter W
  connect_step a conn server =
      let (rc, a1) = cb_sock_connect cb a conn server in
      let (ok, a2) = handshake_send cb a1 conn in
      if is_zero rc
      then (pos 0, a1)
      else if is_negative rc
      then (minus_one, put_relay a1 relay_disconnected)
      else if ok
      then (pos 0, put_relay (relay_recv_reset a2) recv_handshake)
      else (minus_one, a2)

  unfoldable pub handshake_step : Adapter W → ℕ → ℤ × Adapter W
  handshake_step a conn =
      let (rc, a1) = handshake_recv cb a conn in
      if is_zero rc
      then (pos 0, a1)
      else if is_negative rc
      then (minus_one, put_relay a1 relay_disconnected)
      else (pos 1, put_relay a1 relay_connected)

  unfoldable pub relay_connect : Adapter W → ℕ → Addr → ℤ × Adapter W
  relay_connect a conn server = elim a.relay.state [
    | relay_disconnected ↦ connect_step (put_relay a recv_connect) conn server
    | recv_connect ↦ connect_step a conn server
    | recv_handshake ↦ handshake_step a conn
    | _ ↦ (pos 1, a)
  ]

  -- The state that an answered call or wait leads to; 1 is ACCEPTED.
  unfoldable pub linked_if : ℤ → Adapter W → Adapter W
  linked_if rc a =
      put_relay a (if not (is_negative rc) && to_ℕ rc == 1 then relay_linked else relay_connected)

  unfoldable pub relay_call : Adapter W → ℕ → List ℕ → ℤ × Adapter W
  relay_call a conn number =
      let (ok, a1) = call_send cb a conn number in
      let (rc, a2) = call_recv_result cb a conn in
      elim a.relay.state [
        | relay_connected ↦
            if ok then (pos 0, put_relay (relay_recv_reset a1) recv_call) else (minus_one, a1)
        | recv_call ↦
            if is_zero rc
            then (pos 0, a2)
            else if is_negative rc
            then (minus_one, put_relay a2 relay_connected)
            else (rc, linked_if rc a2)
        | relay_linked ↦ (pos 1, a)
        | _ ↦ (minus_one, a)
      ]

  unfoldable pub relay_wait : Adapter W → ℕ → ℤ × List ℕ × Adapter W
  relay_wait a conn =
      let (ok, a1) = wait_send cb a conn in
      let (rc, number, a2) = wait_recv cb a conn in
      elim a.relay.state [
        | relay_connected ↦
            if ok
            then (pos 0, [], put_relay (relay_recv_reset a1) recv_wait)
            else (minus_one, [], a1)
        | recv_wait ↦
            if is_zero rc
            then (pos 0, [], a2)
            else if is_negative rc
            then (minus_one, [], put_relay a2 relay_connected)
            else (rc, number, linked_if rc a2)
        | relay_linked ↦ (pos 1, [], a)
        | _ ↦ (minus_one, [], a)
      ]

  unfoldable pub relay_get_number : Adapter W → ℕ → ℤ × List ℕ × Adapter W
  relay_get_number a conn =
      let (ok, a1) = get_number_send cb a conn in
      let (rc, number, a2) = get_number_recv cb a conn in
      elim a.relay.state [
        | relay_connected ↦
            if ok
            then (pos 0, [], put_relay (relay_recv_reset a1) recv_get_number)
            else (minus_one, [], a1)
        | recv_get_number ↦
            if is_zero rc
            then (pos 0, [], a2)
            else (if is_negative rc then minus_one else pos 1, number, put_relay a2 relay_connected)
        | _ ↦ (minus_one, [], a)
      ]
