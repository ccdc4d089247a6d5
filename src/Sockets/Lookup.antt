-- ===== src/Sockets/Lookup.antt =====
-- commands.c: looking up a name keeps the account of the sockets.
use libmobile.Sockets.Ledger.{Accounted, Ledger, audited}
use libmobile.Adapter.{Adapter, Callback, Packet, timer_command}
use libmobile.Commands.Base.{
  Answer, connection_new, error_packet, is_internet, put_processing, put_processing_data,
}
use libmobile.Sockets.Connect.{Connecting, connection_new-some, set_first}
use libmobile.Sockets.Frame.{Frame, Frame-trans}
use libmobile.Prelude.{
  IfSome, List, Option, Option-cases, arith, false, get_or, if_intro, if◌then◌else◌, inl, inr,
  is_negative, is_zero, length, length-set, ltb, none, not, set, some, sym, take, true, ℕ, ℤ, ◌&&◌,
  ◌<◌, ◌==◌, ◌||◌, ◌∙◌, ◌≡◌, ◌≢◌, ◌≤◌, ◌⊎◌,
}
use libmobile.Sockets.Started.{Started, dns_request_start-Started, get_or-set_second}
use libmobile.Callback.{cb_time_check_ms}
use libmobile.Commands.Internet.{close_kept}
use libmobile.Commands.Lookup.{
  command_dns_request, dns_begin_step, dns_check_step, dns_checked, dns_next_server,
  dns_request_begin, dns_request_check, dns_request_start,
}
use libmobile.Util.{is_ipaddr}
use libmobile.Dns.Request.{request_recv}
use libmobile.Sockets.Query.{request_recv-Uses}
use libmobile.Sockets.Tel.{sends}

module _ {W : Type 0} where
  -- Looking a name up goes on with the number of its connection kept, or answers.
  pub record AfterLookup (a : Adapter (Ledger W)) (r : Answer (Ledger W)) : Type 0 where
    pub account : Accounted r.1
    pub goes_on : sends r.0 ≡ false → Connecting r.1
    pub step : sends r.0 ≡ false → r.1.buffer_commands.processing ≡ dns_check_step
    pub same_state : r.1.commands.state ≡ a.commands.state
    pub frame : Frame a r.1

  -- What closing the kept connection leaves behind.
  record Closed (conn : ℕ) (a b : Adapter (Ledger W)) : Type 0 where
    account : Accounted b
    closed : b.commands.connections conn ≡ false
    same_state : b.commands.state ≡ a.commands.state
    same_processing : b.buffer_commands.processing ≡ a.buffer_commands.processing
    same_number :
        get_or b.buffer_commands.processing_data 0 0 ≡ get_or a.buffer_commands.processing_data 0 0
    frame : Frame a b

module _ {W : Type 0} (cb : Callback W) where
  close_kept-Closed :
      (a : Adapter (Ledger W)) (conn : ℕ)
      → Connecting a
      → get_or a.buffer_commands.processing_data 0 0 ≡ conn
      → Closed conn a (close_kept (audited cb) a conn)
  unfolding close_kept
  close_kept-Closed a conn c e = elim c.slot [
    | inl z ↦ rw (sym e, z) (ground arith)
    | inr z ↦ rw (sym e, z) (ground arith)
  ]

  dns_request_begin-AfterLookup :
      (pton : List ℕ → Option (List ℕ)) (a : Adapter (Ledger W)) (p : Packet)
      → Accounted a
      → 0 < length a.buffer_commands.processing_data
      → AfterLookup a (dns_request_begin (audited cb) pton a p)
  unfolding dns_request_begin error_packet is_internet
  dns_request_begin-AfterLookup pton a p s n =
      let text = take p.length a.serial.buffer in
      if_intro (AfterLookup a) (not (is_internet a.commands.state)) (λ _. ground arith)
        (λ i.
          if_intro (AfterLookup a) (is_ipaddr text) (λ _. ground arith)
            (λ _. elim (Option-cases (connection_new a)) [
              | inl e ↦ rw e (ground arith)
              | inr (conn, e) ↦
                  let free = connection_new-some cb a conn e in
                  let online : is_internet a.commands.state ≡ true = ground (arith, i) in
                  rw e (
                    begun conn (dns_request_start (audited cb) a p conn 0) free.0
                      (dns_request_start-Started cb a p conn 0 s online free.0 free.1) online n)
            ]))
    where
      begun :
          (conn : ℕ) (r : Option ℕ × Adapter (Ledger W))
          → conn < 2
          → Started conn a r
          → is_internet a.commands.state ≡ true
          → 0 < length a.buffer_commands.processing_data
          → AfterLookup a (elim r.0 [
            | none ↦ error_packet p 2 r.1
            | some id ↦ (
              none,
              put_processing
                  (put_processing_data (put_processing_data r.1 0 conn) 1 id)
                  dns_check_step,
            )
          ])
      begun conn (none, b) c h i n = ground arith
      begun conn (some id, b) c h i n =
          let xs = b.buffer_commands.processing_data in
          let kept = set_first xs conn (rw h.frame.same_length n) in
          let same1 = length-set xs 0 conn in
          let same2 = length-set (set xs 0 conn) 1 id in
          let still = get_or-set_second (set xs 0 conn) id in ground arith

  -- An answer of the server that did not help: the next server, or none.
  dns_next_server-AfterLookup :
      (a : Adapter (Ledger W)) (p : Packet) (conn addr_id : ℕ)
      → Accounted a
      → is_internet a.commands.state ≡ true
      → conn < 2
      → a.commands.connections conn ≡ false
      → get_or a.buffer_commands.processing_data 0 0 ≡ conn
      → a.buffer_commands.processing ≡ dns_check_step
      → AfterLookup a (dns_next_server (audited cb) a p conn addr_id)
  unfolding dns_next_server error_packet
  dns_next_server-AfterLookup a p conn addr_id s i n o k q =
      if_intro (AfterLookup a) (ltb addr_id 2)
        (λ _.
          next (dns_request_start (audited cb) a p conn 2)
            (dns_request_start-Started cb a p conn 2 s i n o))
        (λ _. ground arith)
    where
      next :
          (r : Option ℕ × Adapter (Ledger W))
          → Started conn a r
          → AfterLookup a (elim r.0 [
            | none ↦ error_packet p 2 r.1
            | some id ↦ (none, put_processing_data r.1 1 id)
          ])
      next (none, b) h = ground arith
      next (some id, b) h =
          let same = length-set b.buffer_commands.processing_data 1 id in
          let still = get_or-set_second b.buffer_commands.processing_data id in
          let slot : (conn ≡ 0) ⊎ (conn ≡ 1) = omega arith in ground arith

  dns_checked-AfterLookup :
      (a : Adapter (Ledger W)) (p : Packet) (rc : ℤ) (ip : List ℕ)
      → Connecting a
      → a.buffer_commands.processing ≡ dns_check_step
      → AfterLookup a (dns_checked (audited cb) a p rc ip)
  unfolding dns_checked cb_time_check_ms
  dns_checked-AfterLookup a p rc ip c q =
      let conn = get_or a.buffer_commands.processing_data 0 0 in
      let addr_id = get_or a.buffer_commands.processing_data 1 0 in
      let (late, a1) = cb_time_check_ms (audited cb) a timer_command 3000 in
      let b = if is_zero rc then a1 else a in
      let now : Connecting b = ground arith in
      let same : get_or b.buffer_commands.processing_data 0 0 ≡ conn = ground arith in
      let closed = close_kept-Closed b conn now same in
      let a2 = close_kept (audited cb) b conn in
      let f : Frame a b = ground arith in
      let state : b.commands.state ≡ a.commands.state = ground arith in
      let small : conn < 2 = ground arith in
      let online : is_internet a2.commands.state ≡ true = ground arith in
      let step : a2.buffer_commands.processing ≡ dns_check_step = ground arith in
      let kept : get_or a2.buffer_commands.processing_data 0 0 ≡ conn = closed.same_number ∙ same in
      let next =
        dns_next_server-AfterLookup a2 p conn addr_id closed.account online small closed.closed kept
          step in
      if_intro (AfterLookup a) (is_zero rc && not late) (λ e. ground arith)
        (λ _.
          if_intro (AfterLookup a) (is_zero rc || is_negative rc)
            (λ _. record {
              account = next.account;
              goes_on = next.goes_on;
              step = next.step;
              same_state = next.same_state ∙ closed.same_state ∙ state;
              frame = Frame-trans f (Frame-trans closed.frame next.frame);
            })
            (λ _. ground arith))

  dns_request_check-AfterLookup :
      (fuel : ℕ) (a : Adapter (Ledger W)) (p : Packet)
      → Connecting a
      → a.buffer_commands.processing ≡ dns_check_step
      → IfSome (AfterLookup a) (dns_request_check (audited cb) fuel a p)
  unfolding dns_request_check
  dns_request_check-AfterLookup fuel a p c q =
      let conn = get_or a.buffer_commands.processing_data 0 0 in
      let addr = a.buffer_commands.processing_addr in
      elim (Option-cases (request_recv (audited cb) fuel a conn addr a.serial.buffer p.length)) [
        | inl e ↦ rw (e, dns_request_check, IfSome) tt
        | inr ((rc, ip, b), e) ↦
            let used =
              request_recv-Uses cb fuel a conn addr a.serial.buffer p.length (rc, ip, b) e in
            let open_now : a.user.opened conn ≡ true = elim c.slot [
              | inl z ↦ rw z (ground arith)
              | inr z ↦ rw z (ground arith)
            ] in
            let now : Connecting b = ground arith in
            let next = dns_checked-AfterLookup b p rc ip now (used.same_processing ∙ q) in
            rw (e, dns_request_check, IfSome)
              (record {
                account = next.account;
                goes_on = next.goes_on;
                step = next.step;
                same_state = next.same_state ∙ used.same_state;
                frame = Frame-trans used.frame next.frame;
              })
      ]

  -- With the sockets accounted for, and while it goes on the socket of its query open, looking up a
  -- name opens, at each of its steps and whatever the callbacks and the server return, a closed
  -- socket and uses and closes open ones only. While it goes on, the number that it keeps is that of
  -- an open connection. This holds of every result; without one the loop over names has not ended.
  pub command_dns_request-AfterLookup :
      (pton : List ℕ → Option (List ℕ)) (fuel : ℕ) (a : Adapter (Ledger W)) (p : Packet)
      → (a.buffer_commands.processing ≡ 0 → Accounted a)
      → (a.buffer_commands.processing ≢ 0 → Connecting a)
      → a.buffer_commands.processing ≤ 1
      → 0 < length a.buffer_commands.processing_data
      → IfSome (AfterLookup a) (command_dns_request (audited cb) pton fuel a p)
  unfolding command_dns_request
  command_dns_request-AfterLookup pton fuel a p s c k n =
      if_intro (IfSome (AfterLookup a)) (a.buffer_commands.processing == dns_begin_step)
        (λ e. dns_request_begin-AfterLookup pton a p (s (ground arith)) n)
        (λ e.
          if_intro (IfSome (AfterLookup a)) (a.buffer_commands.processing == dns_check_step)
            (λ e'. dns_request_check-AfterLookup fuel a p (c (ground arith)) (ground arith))
            (λ e'. absurd (ground arith)))
