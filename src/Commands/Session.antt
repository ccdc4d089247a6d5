-- ===== src/Commands/Session.antt =====
-- commands.c: beginning and ending a session, hanging up, and leaving the internet.
use libmobile.Adapter.{
  Adapter, Callback, Packet, call_isp, disconnected, max_connections, number_peer, p2p_conn,
}
use libmobile.Commands.Base.{
  Answer, error_packet, in_call, is_internet, put_connection, put_state, reply,
}
use libmobile.Prelude.{
  Bool, List, [], false, if◌then◌else◌, length, ltb, none, not, some, suc, take, true, zero, ℕ,
  ◌&&◌, ◌+◌, ◌==◌, ◌∷◌,
}
use libmobile.Callback.{cb_sock_close, cb_update_number}
use libmobile.Util.{same_bytes}

abbrev pub nintendo : List ℕ
nintendo = b'N' ∷ b'I' ∷ b'N' ∷ b'T' ∷ b'E' ∷ b'N' ∷ b'D' ∷ b'O' ∷ []

abbrev pub happy : List ℕ
happy =
    0x45 ∷ 0x56 ∷ 0x45 ∷ 0x52 ∷ 0x59 ∷ 0x4f ∷ 0x4e ∷ 0x45 ∷ 0x20 ∷ 0x48 ∷ 0x41 ∷ 0x50 ∷ 0x50 ∷ 0x59
    ∷ 0x20 ∷ 0x4d ∷ 0x4f ∷ 0x42 ∷ 0x49 ∷ 0x4c ∷ 0x45 ∷ 0x20 ∷ 0x43 ∷ 0x4f ∷ 0x4e ∷ 0x4e ∷ 0x45
    ∷ 0x43 ∷ 0x54 ∷ 0x49 ∷ 0x4f ∷ 0x4e ∷ []

abbrev pub device_red : ℕ
device_red = 11

module _ {W : Type 0} where
  -- `memcmp_P(packet->data, key, sizeof(key)) == 0`
  unfoldable pub has_key : Adapter W → List ℕ → Bool
  unfolding same_bytes
  has_key a key = same_bytes (take (length key) a.serial.buffer) key

module _ {W : Type 0} (cb : Callback W) where
  -- `mobile_number_fetch_cancel` (mobile.c), on its connection 0
  unfoldable pub number_fetch_cancel : Adapter W → Adapter W
  unfolding cb_sock_close
  number_fetch_cancel a =
      if a.global.number_fetch_active
      then (let a' = cb_sock_close cb a 0 in
          record a' { global = record a'.global { number_fetch_active = false } })
      else a

  -- `if (s->connections[conn]) { mobile_cb_sock_close(...); s->connections[conn] = false; }`
  unfoldable pub drop_connection : Adapter W → ℕ → Adapter W
  unfolding cb_sock_close
  drop_connection a conn =
      if a.commands.connections conn then put_connection (cb_sock_close cb a conn) conn false else a

  -- The loop of `do_ppp_disconnect`, from slot `conn` on, over the `n` slots that are left.
  unfoldable pub drop_connections : ℕ → ℕ → Adapter W → Adapter W
  unfolding drop_connection
  drop_connections zero conn a = a
  drop_connections (suc n) conn a = drop_connections n (conn + 1) (drop_connection a conn)

  unfoldable pub do_ppp_disconnect : Adapter W → Bool × Adapter W
  unfolding drop_connections is_internet
  do_ppp_disconnect a =
      if is_internet a.commands.state
      then (true, put_state (drop_connections max_connections 0 a) call_isp)
      else (false, a)

  unfoldable pub do_offline : Adapter W → Bool × Adapter W
  unfolding do_ppp_disconnect drop_connection in_call cb_update_number
  do_offline a =
      let a1 = (do_ppp_disconnect a).1 in
      if in_call a1.commands.state
      then (let a2 = cb_update_number cb a1 number_peer none in
          (true, put_state (drop_connection a2 p2p_conn) disconnected))
      else (false, a1)

  unfoldable pub do_end_session : Adapter W → Adapter W
  unfolding do_offline cb_sock_close
  do_end_session a =
      let a1 = (do_offline a).1 in
      let a2 = if a1.commands.connections p2p_conn then cb_sock_close cb a1 p2p_conn else a1 in
      record a2 { commands = record a2.commands { session_started = false; mode_32bit = false } }

  unfoldable pub do_start_session : Adapter W → Adapter W
  unfolding number_fetch_cancel
  do_start_session a = number_fetch_cancel (record a {
    commands = record a.commands {
      session_started = true;
      state = disconnected;
      connections = λ j. false;
    };
  })

  -- `mobile_commands_reset`
  unfoldable pub commands_reset : Adapter W → Adapter W
  commands_reset a = if a.commands.session_started then do_end_session a else a

  unfoldable pub command_start : Adapter W → Packet → Answer W
  command_start a p =
      if a.commands.session_started
      then error_packet p 1 a
      else if p.length == 32 && has_key a happy
      then (some p, do_start_session a)
      else if (if a.serial.device == device_red then ltb p.length 8 else not (p.length == 8))
      then error_packet p 2 a
      else (let p' = if a.serial.device == device_red then record p { length = 8 } else p in
          if has_key a nintendo then (some p', do_start_session a) else error_packet p' 2 a)

  unfoldable pub command_end : Adapter W → Packet → Answer W
  command_end a p = reply p 0 (do_end_session a)

  unfoldable pub command_offline : Adapter W → Packet → Answer W
  command_offline a p =
      let (done, a') = do_offline a in if done then reply p 0 a' else error_packet p 1 a'

  unfoldable pub command_reinit : Adapter W → Packet → Answer W
  command_reinit a p = reply p 0 (do_start_session (do_end_session a))

  unfoldable pub command_ppp_disconnect : Adapter W → Packet → Answer W
  command_ppp_disconnect a p =
      let (done, a') = do_ppp_disconnect a in if done then reply p 0 a' else error_packet p 1 a'
