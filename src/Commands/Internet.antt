-- ===== src/Commands/Internet.antt =====
-- commands.c: logging in, and TCP connections.
use libmobile.Adapter.{
  Adapter, Addr, Callback, ConnectionState, Packet, addrtype_ipv4, addrtype_none, call_isp,
  internet, max_connections, p2p_conn, tcp, timer_command,
}
use libmobile.Commands.Base.{
  Answer, connection_new, data_at, error_packet, is_internet, put_connection, put_data,
  put_processing, put_processing_data, reply,
}
use libmobile.Prelude.{
  Bool, List, [], drop, false, get_or, if◌then◌else◌, is_negative, is_zero, leb, ltb, none, not,
  some, take, true, ℕ, ◌&&◌, ◌*◌, ◌+◌, ◌==◌, ◌||◌, ◌∷◌,
}
use libmobile.Callback.{
  cb_sock_close, cb_sock_connect, cb_sock_open, cb_time_check_ms, cb_time_latch,
}
use libmobile.Util.{same_bytes}

abbrev pub dns_port : ℕ
dns_port = 53

-- `if (size > 0x20) size = 0x20;`
abbrev pub login_size : ℕ → ℕ
login_size n = if ltb 0x20 n then 0x20 else n

abbrev pub no_host : List ℕ
no_host = 0 ∷ 0 ∷ 0 ∷ 0 ∷ []

unfoldable pub dns_setting : List ℕ → Addr
unfolding same_bytes
dns_setting host = record {
  type = if same_bytes host no_host then addrtype_none else addrtype_ipv4;
  port = dns_port;
  host = host;
}

-- The DNS address to return: that of the configuration, if the game gave none.
unfoldable pub dns_answer : List ℕ → Addr → List ℕ
unfolding same_bytes
dns_answer host config =
    if same_bytes host no_host && config.type == addrtype_ipv4 then take 4 config.host else no_host

unfoldable pub is_call_isp : ConnectionState → Bool
is_call_isp call_isp = true
is_call_isp _ = false

module _ {W : Type 0} where
  -- `command_ppp_connect` once the packet has been found long enough; the DNS addresses stand at
  -- `at`.
  unfoldable pub login : Adapter W → Packet → ℕ → Answer W
  unfolding dns_setting dns_answer
  login a p at =
      let host1 = take 4 (drop at a.serial.buffer) in
      let host2 = take 4 (drop (at + 4) a.serial.buffer) in
      let a1 = record a {
        commands = record a.commands {
          dns1 = dns_setting host1;
          dns2 = dns_setting host2;
          dns2_use = false;
          state = internet;
        };
      } in
      let a2 = put_data a1 0 (127 ∷ 0 ∷ 0 ∷ 1 ∷ []) in
      let a3 = put_data a2 4 (dns_answer host1 a.config.dns1) in
      reply p 12 (put_data a3 8 (dns_answer host2 a.config.dns2))

  unfoldable pub command_ppp_connect : Adapter W → Packet → Answer W
  command_ppp_connect a p =
      let id_size = login_size (data_at a 0) in
      let pass_size = login_size (data_at a (1 + id_size)) in
      if not (is_call_isp a.commands.state)
      then error_packet p 1 a
      else if a.commands.connections p2p_conn
      then error_packet p 3 a
      else if ltb p.length 1
      then error_packet p 2 a
      else if ltb p.length (1 + id_size + 1)
      then error_packet p 2 a
      else if ltb p.length (2 + id_size + pass_size + 8)
      then error_packet p 2 a
      else login a p (2 + id_size + pass_size)

-- The steps of `command_tcp_connect`.
abbrev pub tcp_connect_begin_step : ℕ
tcp_connect_begin_step = 0

abbrev pub tcp_connect_connecting_step : ℕ
tcp_connect_connecting_step = 1

module _ {W : Type 0} (cb : Callback W) where
  unfoldable pub tcp_connect_begin : Adapter W → Packet → Answer W
  tcp_connect_begin a p =
      if not (is_internet a.commands.state)
      then error_packet p 1 a
      else if ltb p.length 6
      then error_packet p 3 a
      else elim (connection_new a) [
        | none ↦ error_packet p 0 a
        | some conn ↦
            let (ok, a') = cb_sock_open cb a conn tcp addrtype_ipv4 0 in
            if ok
            then (
              none,
              put_processing (put_processing_data (put_connection a' conn true) 0 conn)
                  tcp_connect_connecting_step,
            )
            else error_packet p 3 a'
      ]

  -- Closing the connection whose number is kept with the command.
  unfoldable pub close_kept : Adapter W → ℕ → Adapter W
  unfolding cb_sock_close
  close_kept a conn = put_connection (cb_sock_close cb a conn) conn false

  unfoldable pub tcp_connect_connecting : Adapter W → Packet → Answer W
  tcp_connect_connecting a p =
      let conn = get_or a.buffer_commands.processing_data 0 0 in
      let addr : Addr = record {
        type = addrtype_ipv4;
        port = data_at a 4 * 256 + data_at a 5;
        host = take 4 a.serial.buffer;
      } in
      let (rc, a') = cb_sock_connect cb a conn addr in
      if is_zero rc
      then (none, a')
      else if is_negative rc
      then error_packet p 3 (close_kept a' conn)
      else reply p 1 (put_data a' 0 (conn ∷ []))

  unfoldable pub command_tcp_connect : Adapter W → Packet → Answer W
  command_tcp_connect a p =
      let step = a.buffer_commands.processing in
      if step == tcp_connect_begin_step
      then tcp_connect_begin (cb_time_latch cb a timer_command) p
      else if step == tcp_connect_connecting_step
      then (let (late, a') = cb_time_check_ms cb a timer_command 60000 in
          if late
          then error_packet p 3 (close_kept a' (get_or a'.buffer_commands.processing_data 0 0))
          else tcp_connect_connecting a' p)
      else error_packet p 3 a

  unfoldable pub command_tcp_disconnect : Adapter W → Packet → Answer W
  command_tcp_disconnect a p =
      let conn = data_at a 0 in
      if not (is_internet a.commands.state)
      then error_packet p 1 a
      else if ltb p.length 1
      then error_packet p 0 a
      else if leb max_connections conn || not (a.commands.connections conn)
      then error_packet p 0 a
      else reply p 1 (close_kept a conn)
