-- ===== src/Sockets/Connect.antt =====
-- commands.c: TCP connections keep the account of the sockets.
use libmobile.Sockets.Ledger.{Accounted, Ledger, audited}
use libmobile.Adapter.{Adapter, Callback, Packet, Addr, addrtype_ipv4, timer_command, tcp}
use libmobile.Commands.Base.{
  Answer, connection_from, connection_new, error_packet, is_internet, data_at, put_connection,
  put_processing, put_processing_data,
}
use libmobile.Prelude.{
  arith, false, get_or, inl, inr, length, true, ◌<◌, ◌≡◌, ◌≢◌, ◌≤◌, ◌⊎◌, if_intro, take, ◌*◌, ◌+◌,
  ◌==◌, Option-cases, if◌then◌else◌, ltb, none, not, some, ℕ, List, [], refl, set, suc, zero, ◌∷◌,
}
use libmobile.Callback.{cb_sock_connect, cb_sock_open, cb_time_check_ms, cb_time_latch}
use libmobile.Commands.Internet.{
  close_kept, command_tcp_connect, tcp_connect_begin, tcp_connect_connecting,
  tcp_connect_begin_step, tcp_connect_connecting_step,
}
use libmobile.Sockets.Tel.{sends}

pub set_first : (xs : List ℕ) (x : ℕ) → 0 < length xs → get_or (set xs 0 x) 0 0 ≡ x
set_first [] x n = absurd (omega arith)
set_first (y ∷ ys) x n = refl

module _ {W : Type 0} where
  -- While a connection is made: its number is kept, and its socket is open.
  pub record Connecting (a : Adapter (Ledger W)) : Type 0 where
    pub account : Accounted a
    pub on_internet : is_internet a.commands.state ≡ true
    pub slot :
        (get_or a.buffer_commands.processing_data 0 0 ≡ 0)
        ⊎ (get_or a.buffer_commands.processing_data 0 0 ≡ 1)
    pub connected : a.commands.connections (get_or a.buffer_commands.processing_data 0 0) ≡ true

  -- A connecting that goes on, or an answer.
  pub record AfterConnect (r : Answer (Ledger W)) : Type 0 where
    pub account : Accounted r.1
    pub goes_on : sends r.0 ≡ false → Connecting r.1

module _ {W : Type 0} (cb : Callback W) where
  pub close_kept-Accounted :
      (a : Adapter (Ledger W))
      → Connecting a
      → Accounted (close_kept (audited cb) a (get_or a.buffer_commands.processing_data 0 0))
  unfolding close_kept
  close_kept-Accounted a c = elim c.slot [
    | inl e ↦ rw e (ground arith)
    | inr e ↦ rw e (ground arith)
  ]

  tcp_connect_connecting-AfterConnect :
      (a : Adapter (Ledger W)) (p : Packet)
      → Connecting a
      → AfterConnect (tcp_connect_connecting (audited cb) a p)
  unfolding tcp_connect_connecting cb_sock_connect error_packet
  tcp_connect_connecting-AfterConnect a p c =
      let conn = get_or a.buffer_commands.processing_data 0 0 in
      let addr : Addr = record {
        type = addrtype_ipv4;
        port = data_at a 4 * 256 + data_at a 5;
        host = take 4 a.serial.buffer;
      } in
      let (rc, a1) = cb_sock_connect (audited cb) a conn addr in
      let used : a.user.opened conn ≡ true = elim c.slot [
        | inl e ↦ rw e (ground arith)
        | inr e ↦ rw e (ground arith)
      ] in
      let after : Connecting a1 = ground arith in
      let closed = close_kept-Accounted a1 after in ground arith

  pub connection_new-some :
      (a : Adapter (Ledger W)) (conn : ℕ)
      → connection_new a ≡ some conn
      → (conn < 2) × (a.commands.connections conn ≡ false)
  unfolding connection_new connection_from
  connection_new-some a conn e = ground arith

  open_slot-AfterConnect :
      (a : Adapter (Ledger W)) (p : Packet) (conn : ℕ)
      → Accounted a
      → 0 < length a.buffer_commands.processing_data
      → is_internet a.commands.state ≡ true
      → conn < 2
      → a.commands.connections conn ≡ false
      → AfterConnect (
          let (ok, a1) = cb_sock_open (audited cb) a conn tcp addrtype_ipv4 0 in
          if ok
          then (
            none,
            put_processing
                (put_processing_data (put_connection a1 conn true) 0 conn)
                tcp_connect_connecting_step,
          )
          else error_packet p 3 a1)
  unfolding cb_sock_open error_packet
  open_slot-AfterConnect a p zero s n i e o =
      ground (arith, set_first a.buffer_commands.processing_data 0 n)
  open_slot-AfterConnect a p (suc zero) s n i e o =
      ground (arith, set_first a.buffer_commands.processing_data 1 n)
  open_slot-AfterConnect a p (suc (suc k)) s n i e o = absurd (omega arith)

  tcp_connect_begin-AfterConnect :
      (a : Adapter (Ledger W)) (p : Packet)
      → Accounted a
      → 0 < length a.buffer_commands.processing_data
      → AfterConnect (tcp_connect_begin (audited cb) a p)
  unfolding tcp_connect_begin error_packet is_internet
  tcp_connect_begin-AfterConnect a p s n =
      if_intro AfterConnect (not (is_internet a.commands.state)) (λ _. ground arith)
        (λ i.
          if_intro AfterConnect (ltb p.length 6) (λ _. ground arith)
            (λ _. elim (Option-cases (connection_new a)) [
              | inl e ↦ rw e (ground arith)
              | inr (conn, e) ↦
                  let free = connection_new-some a conn e in
                  rw e (open_slot-AfterConnect a p conn s n (ground (arith, i)) free.0 free.1)
            ]))

  -- With the sockets accounted for, and while it goes on its own socket open, connecting opens, at
  -- each of its steps and whatever the callbacks return, a closed socket and
  -- uses and closes open ones only; while it goes on, the number that it keeps is that of an open
  -- connection.
  pub command_tcp_connect-AfterConnect :
      (a : Adapter (Ledger W)) (p : Packet)
      → (a.buffer_commands.processing ≡ 0 → Accounted a)
      → (a.buffer_commands.processing ≢ 0 → Connecting a)
      → a.buffer_commands.processing ≤ 1
      → 0 < length a.buffer_commands.processing_data
      → AfterConnect (command_tcp_connect (audited cb) a p)
  unfolding command_tcp_connect cb_time_latch cb_time_check_ms error_packet
  command_tcp_connect-AfterConnect a p s c k n =
      let step = a.buffer_commands.processing in
      let (late, a1) = cb_time_check_ms (audited cb) a timer_command 60000 in
      if_intro AfterConnect (step == tcp_connect_begin_step)
        (λ e.
          let start : Accounted a = s (ground arith) in
          tcp_connect_begin-AfterConnect (cb_time_latch (audited cb) a timer_command) p
            (ground arith) n)
        (λ e.
          let before : Connecting a = c (ground arith) in
          let now : Connecting a1 = ground arith in
          let closed = close_kept-Accounted a1 now in
          let next = tcp_connect_connecting-AfterConnect a1 p now in ground arith)
