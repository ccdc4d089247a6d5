-- ===== src/Whole/Dialling.antt =====
-- commands.c: the three commands that keep a connection while they go on.
use libmobile.Sockets.Ledger.{Accounted, Ledger, audited}
use libmobile.Adapter.{Adapter, Callback, Packet}
use libmobile.Whole.Pending.{After, Frame-After, Pending, is_connect, tel_code}
use libmobile.Sockets.Tel.{AfterTel, Settled, command_tel-AfterTel, sends}
use libmobile.Commands.Base.{Answer, error_packet, is_internet}
use libmobile.Prelude.{
  Bool-cases, IfSome, List, Option, arith, false, inl, inr, length, true, ℕ, ◌<◌, ◌≡◌, IfSome-all,
  IfSome-map2, ◌==◌,
}
use libmobile.Sockets.Connect.{Connecting, command_tcp_connect-AfterConnect}
use libmobile.Frames.Tel.{Dials, command_tel-Dials}
use libmobile.Callback.{cb_time_latch}
use libmobile.Commands.Lookup.{command_dns_request, dns_request_begin}
use libmobile.Sockets.Lookup.{command_dns_request-AfterLookup, AfterLookup}
use libmobile.Commands.Internet.{command_tcp_connect, tcp_connect_begin}
use libmobile.Frames.Internet.{command_tcp_connect-Connects}
use libmobile.Commands.Tel.{command_tel}
use libmobile.Whole.Course.{same-Turns}
use libmobile.Whole.Calling.{tel-Turns}

module _ {W : Type 0} (cb : Callback W) where
  tel-Pending :
      (c : ℕ) (r : Answer (Ledger W)) (a : Adapter (Ledger W))
      → c ≡ tel_code
      → AfterTel r
      → Dials a r
      → sends r.0 ≡ false
      → Pending c r.1.buffer_commands.processing r.1
  tel-Pending c r a e t d z = ground (arith, d.step z)

  pub tel-After :
      (c : ℕ) (a : Adapter (Ledger W)) (p : Packet)
      → c ≡ tel_code
      → p.command ≡ a.buffer_commands.packet.command
      → a.commands.session_started ≡ true
      → Pending c a.buffer_commands.processing a
      → After c a (command_tel (audited cb) a p)
  tel-After c a p t e o h =
      let r = command_tel (audited cb) a p in
      let n = h.tel_steps t in
      let after = command_tel-AfterTel cb a p (λ z. h.settled (inl z)) (λ z. h.dialling t z) n in
      let d = command_tel-Dials cb a p e n in
      Frame-After c a r o d.frame (tel-Turns cb c a p t (λ z. (h.dialling t z).is_disconnected))
        (λ s. record {
          account = after.account;
          quiet = after.quiet s;
          listening = after.listening s;
        })
        (λ s. tel-Pending c r a t after d s)

  connect-Pending :
      (c : ℕ) (r : Answer (Ledger W))
      → is_connect c ≡ true
      → Connecting r.1
      → r.1.buffer_commands.processing ≡ 1
      → Pending c r.1.buffer_commands.processing r.1
  connect-Pending c r e h n = ground arith

  online-Settled :
      (a : Adapter (Ledger W)) → Accounted a → is_internet a.commands.state ≡ true → Settled a
  unfolding is_internet
  online-Settled a s i = ground arith

  refused-Settled :
      (a : Adapter (Ledger W)) (p : Packet)
      → Settled a
      → a.buffer_commands.processing ≡ 0
      → is_internet a.commands.state ≡ false
      → Settled (command_tcp_connect (audited cb) a p).1
  unfolding command_tcp_connect tcp_connect_begin error_packet cb_time_latch
  refused-Settled a p s n i = ground arith

  tcp_connect-Settled :
      (c : ℕ) (a : Adapter (Ledger W)) (p : Packet)
      → is_connect c ≡ true
      → Pending c a.buffer_commands.processing a
      → Accounted (command_tcp_connect (audited cb) a p).1
      → Settled (command_tcp_connect (audited cb) a p).1
  tcp_connect-Settled c a p e h s =
      let d = command_tcp_connect-Connects cb a p (h.connect_steps e) in
      elim (Bool-cases (is_internet a.commands.state)) [
        | inl i ↦ online-Settled (command_tcp_connect (audited cb) a p).1 s (ground arith)
        | inr i ↦ elim (Bool-cases (a.buffer_commands.processing == 0)) [
          | inl z ↦ refused-Settled a p (h.settled (inl (ground arith))) (ground arith) i
          | inr z ↦ let now = h.connecting e (ground arith) in absurd (ground arith)
        ]
      ]

  dns_request-Settled :
      (pton : List ℕ → Option (List ℕ)) (fuel c : ℕ) (a : Adapter (Ledger W)) (p : Packet)
      → is_connect c ≡ true
      → Pending c a.buffer_commands.processing a
      → IfSome (λ r. AfterLookup a r → Settled r.1) (command_dns_request (audited cb) pton fuel a p)
  unfolding command_dns_request dns_request_begin error_packet
  dns_request-Settled pton fuel c a p e h = elim (Bool-cases (is_internet a.commands.state)) [
    | inl i ↦
        IfSome-all (λ (r : Answer (Ledger W)). AfterLookup a r → Settled r.1)
          (λ r t. online-Settled r.1 t.account (rw t.same_state i))
          (command_dns_request (audited cb) pton fuel a p)
    | inr i ↦ elim (Bool-cases (a.buffer_commands.processing == 0)) [
      | inl z ↦ let s = h.settled (inl (ground arith)) in rw (z, i) (ground arith)
      | inr z ↦ let now = h.connecting e (ground arith) in absurd (ground arith)
    ]
  ]

  pub tcp_connect-After :
      (c : ℕ) (a : Adapter (Ledger W)) (p : Packet)
      → is_connect c ≡ true
      → a.commands.session_started ≡ true
      → 0 < length a.buffer_commands.processing_data
      → Pending c a.buffer_commands.processing a
      → After c a (command_tcp_connect (audited cb) a p)
  tcp_connect-After c a p e o n h =
      let r = command_tcp_connect (audited cb) a p in
      let k = h.connect_steps e in
      let t =
        command_tcp_connect-AfterConnect cb a p (λ z. (h.settled (inl z)).account)
          (λ z. h.connecting e z) k n in
      let d = command_tcp_connect-Connects cb a p k in
      Frame-After c a r o d.frame (same-Turns c a r d.same_state)
        (λ _. tcp_connect-Settled c a p e h t.account)
        (λ s. connect-Pending c r e (t.goes_on s) (d.step s))

  pub dns_request-After :
      (pton : List ℕ → Option (List ℕ)) (fuel : ℕ) (c : ℕ) (a : Adapter (Ledger W)) (p : Packet)
      → is_connect c ≡ true
      → a.commands.session_started ≡ true
      → 0 < length a.buffer_commands.processing_data
      → Pending c a.buffer_commands.processing a
      → IfSome (After c a) (command_dns_request (audited cb) pton fuel a p)
  dns_request-After pton fuel c a p e o n h =
      let k = h.connect_steps e in
      IfSome-map2
        (λ r t s.
          Frame-After c a r o t.frame (same-Turns c a r t.same_state) (λ _. s t)
            (λ s. connect-Pending c r e (t.goes_on s) (t.step s)))
        (command_dns_request (audited cb) pton fuel a p)
        (command_dns_request-AfterLookup cb pton fuel a p (λ z. (h.settled (inl z)).account)
          (λ z. h.connecting e z) k n)
        (dns_request-Settled pton fuel c a p e h)
