-- ===== src/Sockets/Targets.antt =====
-- commands.c: a data command that goes on is about the same connection.
use libmobile.Adapter.{Adapter, Callback, Packet, max_connections, p2p_conn, timer_command}
use libmobile.Commands.Base.{Answer, data_at, error_packet, is_internet}
use libmobile.Prelude.{
  Bool, arith, drop, get_or, get_or-copy_before, if_intro, if◌then◌else◌, is_code, is_negative,
  is_zero, leb, ltb, none, not, refl, some, take, to_ℕ, true, ℕ, ◌&&◌, ◌+◌, ◌-◌, ◌<◌, ◌==◌, ◌||◌,
  ◌≡◌,
}
use libmobile.Callback.{cb_sock_close, cb_sock_recv, cb_sock_send, cb_time_check_ms, cb_time_latch}
use libmobile.Commands.Transfer.{
  command_data, data_receive, data_send, max_transfer_size, may_transfer,
}

module _ {W : Type 0} (cb : Callback W) (conn : ℕ) where
  -- The connection that the command is about
  abbrev pub Targets : Adapter W → Packet → Type 0
  Targets a p =
      (may_transfer a.commands.state ≡ true)
      × (a.commands.connections conn ≡ true)
      × (conn < max_connections)
      × ((if is_internet a.commands.state then data_at a 0 else p2p_conn) ≡ conn)

  -- A round that goes on leaves the connection that the command is about.
  abbrev pub Same : Adapter W → Answer W → Type 0
  Same a (none, b) = (b.commands ≡ a.commands) × (data_at b 0 ≡ data_at a 0)
  Same a (some q, b) = Unit

  data_receive-Same :
      (a : Adapter W) (p : Packet) (on_internet : Bool)
      → Same a (data_receive cb a p conn on_internet)
  unfolding data_receive cb_sock_recv cb_sock_close cb_time_check_ms error_packet
  data_receive-Same a p on_internet =
      let P = Same a in
      let r = (cb.sock_recv a.user conn max_transfer_size).0 in
      let w = (cb.sock_recv a.user conn max_transfer_size).1 in
      let late = (cb.time_check_ms w timer_command 1000).0 in
      let first =
        get_or-copy_before a.serial.buffer 1 (take max_transfer_size r.bytes) 0 (omega arith) in
      if_intro P (is_code 2 r.count) (λ _. if_intro P on_internet (λ _. tt) (λ _. tt))
        (λ _.
          if_intro P (is_code 10 r.count) (λ _. tt)
            (λ _.
              if_intro P (is_negative r.count) (λ _. tt)
                (λ _.
                  if_intro P (on_internet && (p.length == 1 && is_zero r.count))
                    (λ _. if_intro P late (λ _. tt) (λ _. (refl, first))) (λ _. tt))))

  data_send-Same :
      (a : Adapter W) (p : Packet) (on_internet : Bool) → Same a (data_send cb a p conn on_internet)
  unfolding data_send cb_sock_send cb_time_check_ms error_packet
  data_send-Same a p on_internet =
      let P = Same a in
      let sent = get_or a.buffer_commands.processing_data 0 0 in
      let bytes = take (p.length - 1 - sent) (drop (1 + sent) a.serial.buffer) in
      let (rc, w) = cb.sock_send a.user conn bytes none in
      let late = (cb.time_check_ms w timer_command 10000).0 in
      if_intro P (leb (p.length - 1) sent) (λ _. data_receive-Same a p on_internet)
        (λ _.
          if_intro P (is_negative rc) (λ _. tt)
            (λ _.
              if_intro P (ltb (sent + to_ℕ rc) (p.length - 1))
                (λ _. if_intro P late (λ _. tt) (λ _. (refl, refl)))
                (λ _. data_receive-Same _ p on_internet)))

  pub command_data-Same : (a : Adapter W) (p : Packet) → Targets a p → Same a (command_data cb a p)
  unfolding command_data cb_time_latch error_packet
  command_data-Same a p t =
      let P = Same a in
      let on_internet = is_internet a.commands.state in
      rw (t.0, t.3)
        (if_intro P (ltb p.length 1) (λ _. tt)
          (λ _.
            if_intro P (leb max_connections conn || not (a.commands.connections conn)) (λ _. tt)
              (λ _.
                if_intro P (a.buffer_commands.processing == 0) (λ _. data_send-Same _ p on_internet)
                  (λ _. data_send-Same a p on_internet))))
