-- ===== src/Dns/Request.antt =====
-- dns.c: sending a query and receiving its response.
use libmobile.Adapter.{Adapter, Addr, Callback}
use libmobile.Prelude.{
  Bool, List, Option, [], copy, drop, false, if◌then◌else◌, is_negative, is_zero, negsuc, none, not,
  pos, some, take, to_ℕ, ℕ, ℤ, ◌%◌, ◌+◌, ◌^◌, ◌||◌,
}
use libmobile.Util.{addr_compare}
use libmobile.Dns.Query.{asked, find_answer, hangs, make_query, qtype_a, refused, verify_response}
use libmobile.Callback.{cb_sock_recv, cb_sock_send}
use libmobile.Dns.Name.{dns_packet_size}

module _ {W : Type 0} (cb : Callback W) where
  -- `mobile_dns_request_send`. The id is an unsigned of 32 bits.
  unfoldable pub request_send : Adapter W → ℕ → Addr → List ℕ → Bool × Adapter W
  request_send a conn addr host =
      let id = (a.dns_id + 1) % 2 ^ 32 in
      let a1 = record a { dns_id = id } in
      elim (make_query a1.buffer_dns id qtype_a host) [
        | none ↦ (false, a1)
        | some b ↦
            let a2 = record a1 { buffer_dns = b } in
            let (rc, a3) = cb_sock_send cb a2 conn (take b.size b.bytes) (some addr) in
            (not (is_zero rc), a3)
      ]

  -- The address that the response brings: 1 with the address, 0, or an error.
  abbrev pub Resolved : Type 0
  Resolved = ℤ × List ℕ × Adapter W

  -- `mobile_dns_request_recv`; `none` hangs in a loop over names.
  unfoldable pub request_recv : ℕ → Adapter W → ℕ → Addr → List ℕ → ℕ → Option Resolved
  request_recv fuel a conn addr host host_len =
      let (r, a1) = cb_sock_recv cb a conn dns_packet_size in
      let a2 = record a1 {
        buffer_dns = record a1.buffer_dns {
          bytes = copy a1.buffer_dns.bytes 0 (take dns_packet_size r.bytes);
        };
      } in
      let a3 = record a2 { buffer_dns = record a2.buffer_dns { size = to_ℕ r.count } } in
      if is_negative r.count || is_zero r.count
      then some (r.count, [], a2)
      else if not (addr_compare addr r.from)
      then some (pos 0, [], a3)
      else elim (verify_response fuel a3.buffer_dns host host_len) [
        | hangs ↦ none
        | refused code ↦ some (negsuc 0, [], a3)
        | asked ancount offset ↦
            elim (find_answer fuel ancount a3.buffer_dns offset host host_len) [
              | none ↦ none
              | some none ↦ some (negsuc 0, [], a3)
              | some (some rdata) ↦ some (pos 1, take 4 (drop rdata a3.buffer_dns.bytes), a3)
            ]
      ]
