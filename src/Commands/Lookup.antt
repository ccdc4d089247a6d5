-- ===== src/Commands/Lookup.antt =====
-- commands.c: `command_dns_request`, which tries the name servers in turn.
use mathlib.Core.Option
use libmobile.Adapter.{Adapter, Addr, Callback, Packet, addrtype_none, timer_command, udp}
use libmobile.Commands.Base.{
  Answer, connection_new, error_packet, is_internet, put_connection, put_data, put_processing,
  put_processing_data, reply,
}
use libmobile.Prelude.{
  List, Option, [], get_or, if◌then◌else◌, is_negative, is_zero, leb, ltb, none, not, some, suc,
  take, true, zero, ℕ, ℤ, ◌%◌, ◌&&◌, ◌+◌, ◌-◌, ◌==◌, ◌||◌, ◌∷◌,
}
use libmobile.Util.{addr_copy, is_ipaddr, same_bytes}
use libmobile.Callback.{cb_sock_close, cb_sock_open, cb_time_check_ms, cb_time_latch}
use libmobile.Commands.Internet.{close_kept, no_host}
use libmobile.Commands.Tel.{put_addr}
use libmobile.Dns.Request.{request_recv, request_send}

abbrev pub dns_begin_step : ℕ
dns_begin_step = 0

abbrev pub dns_check_step : ℕ
dns_check_step = 1

abbrev pub ip_failed : List ℕ
ip_failed = 255 ∷ 255 ∷ 255 ∷ 255 ∷ []

module _ {W : Type 0} where
  -- `dns_get_addr`
  unfoldable pub dns_get_addr : Adapter W → ℕ → Addr
  dns_get_addr a id =
      let id' = (if a.commands.dns2_use then id + 2 else id) % 4 in
      if id' == 1
      then a.commands.dns1
      else if id' == 2
      then a.config.dns2
      else if id' == 3
      then a.commands.dns2
      else a.config.dns1

  -- The first address from `addr_id` on that can be used, with `n` of them left.
  unfoldable pub usable_from : ℕ → ℕ → Adapter W → Option ℕ
  usable_from zero addr_id a = none
  usable_from (suc n) addr_id a =
      let rest = usable_from n (addr_id + 1) a in
      if (dns_get_addr a addr_id).type == addrtype_none then rest else some addr_id

module _ {W : Type 0} (cb : Callback W) where
  -- `dns_request_start`: the number of the address that was used
  unfoldable pub dns_request_start : Adapter W → Packet → ℕ → ℕ → Option ℕ × Adapter W
  dns_request_start a p conn addr_id = elim (usable_from (4 - addr_id) addr_id a) [
    | none ↦ (none, a)
    | some id ↦
        let addr = addr_copy a.buffer_commands.processing_addr (dns_get_addr a id) in
        let (ok, a1) = cb_sock_open cb (put_addr a addr) conn udp addr.type 0 in
        let (sent, a2) = request_send cb a1 conn addr (take p.length a1.serial.buffer) in
        if not ok
        then (none, a1)
        else if not sent
        then (none, cb_sock_close cb a2 conn)
        else (some id, cb_time_latch cb (put_connection a2 conn true) timer_command)
  ]

  -- `pton` is `mobile_inet_pton_length` for an IPv4 address.
  unfoldable pub dns_request_begin : (List ℕ → Option (List ℕ)) → Adapter W → Packet → Answer W
  dns_request_begin pton a p =
      let text = take p.length a.serial.buffer in
      let ip = Option.get_or (pton text) ip_failed in
      if not (is_internet a.commands.state)
      then error_packet p 1 a
      else if is_ipaddr text
      then (if same_bytes ip no_host then error_packet p 2 a else reply p 4 (put_data a 0 ip))
      else elim (connection_new a) [
        | none ↦ error_packet p 2 a
        | some conn ↦
            let (used, a') = dns_request_start a p conn 0 in
            elim used [
              | none ↦ error_packet p 2 a'
              | some id ↦ (
                none,
                put_processing (put_processing_data (put_processing_data a' 0 conn) 1 id)
                    dns_check_step,
              )
            ]
      ]

  -- `command_dns_request_check` once the connection is closed: the next server, or none.
  unfoldable pub dns_next_server : Adapter W → Packet → ℕ → ℕ → Answer W
  dns_next_server a p conn addr_id =
      let (used, a') = dns_request_start a p conn 2 in
      if ltb addr_id 2
      then elim used [ none ↦ error_packet p 2 a' | some id ↦ (none, put_processing_data a' 1 id) ]
      else error_packet p 2 a

  -- `command_dns_request_check`, on what the response brought
  unfoldable pub dns_checked : Adapter W → Packet → ℤ → List ℕ → Answer W
  dns_checked a p rc ip =
      let conn = get_or a.buffer_commands.processing_data 0 0 in
      let addr_id = get_or a.buffer_commands.processing_data 1 0 in
      let (late, a1) = cb_time_check_ms cb a timer_command 3000 in
      let a2 = close_kept cb (if is_zero rc then a1 else a) conn in
      let use2 = if leb 2 addr_id then not a2.commands.dns2_use else a2.commands.dns2_use in
      let a3 = record a2 { commands = record a2.commands { dns2_use = use2 } } in
      if is_zero rc && not late
      then (none, a1)
      else if is_zero rc || is_negative rc
      then dns_next_server a2 p conn addr_id
      else reply p 4 (put_data a3 0 ip)

  unfoldable pub dns_request_check : ℕ → Adapter W → Packet → Option (Answer W)
  dns_request_check fuel a p =
      elim (request_recv cb fuel a (get_or a.buffer_commands.processing_data 0 0)
        a.buffer_commands.processing_addr a.serial.buffer p.length) [
          | none ↦ none
          | some (rc, ip, a') ↦ some (dns_checked a' p rc ip)
        ]

  unfoldable pub command_dns_request :
      (List ℕ → Option (List ℕ)) → ℕ → Adapter W → Packet → Option (Answer W)
  command_dns_request pton fuel a p =
      let step = a.buffer_commands.processing in
      if step == dns_begin_step
      then some (dns_request_begin pton a p)
      else if step == dns_check_step
      then dns_request_check fuel a p
      else some (error_packet p 2 a)
