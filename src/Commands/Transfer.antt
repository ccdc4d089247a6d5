-- ===== src/Commands/Transfer.antt =====
-- commands.c: `command_data`, which sends the game's data and returns what has arrived.
use libmobile.Adapter.{
  Adapter, Callback, ConnectionState, Packet, call, call_recv, internet, max_connections, p2p_conn,
  timer_command,
}
use libmobile.Commands.Base.{
  Answer, data_at, error_packet, is_internet, put_connection, put_data, put_processing,
  put_processing_data, reply,
}
use libmobile.Prelude.{
  Bool, drop, false, get_or, if◌then◌else◌, is_code, is_negative, is_zero, leb, ltb, none, not,
  some, take, to_ℕ, true, u8, ℕ, ◌&&◌, ◌+◌, ◌-◌, ◌==◌, ◌||◌,
}
use libmobile.Callback.{cb_sock_close, cb_sock_recv, cb_sock_send, cb_time_check_ms, cb_time_latch}

abbrev pub command_data_end : ℕ
command_data_end = 0x1f

-- MOBILE_MAX_TRANSFER_SIZE
abbrev pub max_transfer_size : ℕ
max_transfer_size = 0xfe

unfoldable pub may_transfer : ConnectionState → Bool
may_transfer call = true
may_transfer call_recv = true
may_transfer internet = true
may_transfer _ = false

module _ {W : Type 0} (cb : Callback W) where
  -- The second half of `command_data`, once everything has been sent.
  unfoldable pub data_receive : Adapter W → Packet → ℕ → Bool → Answer W
  data_receive a p conn on_internet =
      let (r, a1) = cb_sock_recv cb a conn max_transfer_size in
      let a2 = put_data a1 1 (take max_transfer_size r.bytes) in
      let (late, a3) = cb_time_check_ms cb a2 timer_command 1000 in
      let finished : Answer W = reply p (u8 (to_ℕ r.count + 1)) a2 in
      let finished_late : Answer W = reply p (u8 (to_ℕ r.count + 1)) a3 in
      if is_code 2 r.count
      then (if on_internet
          then reply (record p { command = command_data_end }) 1
              (put_connection (cb_sock_close cb a2 conn) conn false)
          else reply p 1 a2)
      else if is_code 10 r.count
      then (some p, a2)
      else if is_negative r.count
      then error_packet p 0 a2
      else if on_internet && (p.length == 1 && is_zero r.count)
      then (if late then finished_late else (none, a3))
      else finished

  -- The first half: send what has not been sent yet.
  unfoldable pub data_send : Adapter W → Packet → ℕ → Bool → Answer W
  data_send a p conn on_internet =
      let sent = get_or a.buffer_commands.processing_data 0 0 in
      let send_size = p.length - 1 in
      let (rc, a1) =
        cb_sock_send cb a conn (take (send_size - sent) (drop (1 + sent) a.serial.buffer)) none in
      let total = sent + to_ℕ rc in
      let a2 = put_processing_data a1 0 (u8 total) in
      let (late, a3) = cb_time_check_ms cb a2 timer_command 10000 in
      if leb send_size sent
      then data_receive a p conn on_internet
      else if is_negative rc
      then error_packet p 0 a1
      else if ltb total send_size
      then (if late then error_packet p 0 a3 else (none, a3))
      else data_receive a2 p conn on_internet

  unfoldable pub command_data : Adapter W → Packet → Answer W
  command_data a p =
      let on_internet = is_internet a.commands.state in
      let conn = if on_internet then data_at a 0 else p2p_conn in
      if not (may_transfer a.commands.state)
      then error_packet p 1 a
      else if ltb p.length 1
      then error_packet p 0 a
      else if leb max_connections conn || not (a.commands.connections conn)
      then error_packet p 0 a
      else if a.buffer_commands.processing == 0
      then data_send (put_processing (cb_time_latch cb (put_processing_data a 0 0) timer_command) 1)
          p conn on_internet
      else data_send a p conn on_internet
