-- ===== src/Sockets/Started.antt =====
-- commands.c: sending the query for a name keeps the account of the sockets.
use libmobile.Sockets.Ledger.{Accounted, Ledger, audited}
use libmobile.Adapter.{Adapter, Callback, Packet, timer_command, udp}
use libmobile.Prelude.{
  Bool, List, Option, Option-cases, [], arith, false, get_or, if◌then◌else◌, inl, inr, none, not,
  refl, set, some, suc, take, true, zero, ℕ, ◌-◌, ◌<◌, ◌∷◌, ◌≡◌,
}
use libmobile.Sockets.Frame.{Frame}
use libmobile.Util.{addr_copy}
use libmobile.Callback.{cb_sock_close, cb_sock_open, cb_time_latch}
use libmobile.Commands.Lookup.{dns_get_addr, dns_request_start, usable_from}
use libmobile.Commands.Base.{is_internet, put_connection}
use libmobile.Commands.Tel.{put_addr}
use libmobile.Dns.Request.{request_send}
use libmobile.Sockets.Query.{request_send-Uses}

pub get_or-set_second : (xs : List ℕ) (x : ℕ) → get_or (set xs 1 x) 0 0 ≡ get_or xs 0 0
get_or-set_second [] x = refl
get_or-set_second (y ∷ ys) x = refl

abbrev pub is_some : Option ℕ → Bool
is_some none = false
is_some (some n) = true

module _ {W : Type 0} where
  -- What starting a query leaves behind: its socket is open if the query has gone out, and closed
  -- if not.
  pub record Started (conn : ℕ) (a : Adapter (Ledger W)) (r : Option ℕ × Adapter (Ledger W))
      : Type 0 where
    pub account : Accounted r.1
    pub connected : is_some r.0 ≡ true → r.1.commands.connections conn ≡ true
    pub same_state : r.1.commands.state ≡ a.commands.state
    pub same_processing : r.1.buffer_commands.processing ≡ a.buffer_commands.processing
    pub same_number :
        get_or r.1.buffer_commands.processing_data 0 0
        ≡ get_or a.buffer_commands.processing_data 0 0
    pub frame : Frame a r.1

module _ {W : Type 0} (cb : Callback W) where
  started :
      (a : Adapter (Ledger W)) (p : Packet) (conn id : ℕ)
      → Accounted a
      → is_internet a.commands.state ≡ true
      → conn < 2
      → a.commands.connections conn ≡ false
      → Started conn a (
          let addr = addr_copy a.buffer_commands.processing_addr (dns_get_addr a id) in
          let (ok, a1) = cb_sock_open (audited cb) (put_addr a addr) conn udp addr.type 0 in
          let (sent, a2) =
            request_send (audited cb) a1 conn addr (take p.length a1.serial.buffer) in
          if not ok
          then (none, a1)
          else if not sent
          then (none, cb_sock_close (audited cb) a2 conn)
          else (some id, cb_time_latch (audited cb) (put_connection a2 conn true) timer_command))
  unfolding cb_sock_open cb_sock_close cb_time_latch
  started a p zero id s i n o =
      let addr = addr_copy a.buffer_commands.processing_addr (dns_get_addr a id) in
      let a1 = (cb_sock_open (audited cb) (put_addr a addr) 0 udp addr.type 0).1 in
      ground (arith, request_send-Uses cb a1 0 addr (take p.length a1.serial.buffer))
  started a p (suc zero) id s i n o =
      let addr = addr_copy a.buffer_commands.processing_addr (dns_get_addr a id) in
      let a1 = (cb_sock_open (audited cb) (put_addr a addr) 1 udp addr.type 0).1 in
      ground (arith, request_send-Uses cb a1 1 addr (take p.length a1.serial.buffer))
  started a p (suc (suc k)) id s i n o = absurd (omega arith)

  pub dns_request_start-Started :
      (a : Adapter (Ledger W)) (p : Packet) (conn addr_id : ℕ)
      → Accounted a
      → is_internet a.commands.state ≡ true
      → conn < 2
      → a.commands.connections conn ≡ false
      → Started conn a (dns_request_start (audited cb) a p conn addr_id)
  unfolding dns_request_start
  dns_request_start-Started a p conn addr_id s i n o =
      elim (Option-cases (usable_from (4 - addr_id) addr_id a)) [
        | inl e ↦ rw (e, dns_request_start) (ground arith)
        | inr (id, e) ↦ rw (e, dns_request_start) (started a p conn id s i n o)
      ]
