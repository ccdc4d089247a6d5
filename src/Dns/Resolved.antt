-- ===== src/Dns/Resolved.antt =====
-- dns.c: a lookup that a name server answers.
use libmobile.Adapter.{Adapter, Addr, BufferDns, Callback}
use libmobile.Dns.Answer.{Answers, find_answer-Answers}
use libmobile.Dns.Labels.{AreLabels, join}
use libmobile.Prelude.{
  List, copy, drop, length, pos, some, suc, take, true, ℕ, ◌+◌, ◌<◌, ◌∷◌, ◌≡◌, arith, false, ◌==◌,
}
use libmobile.Dns.Request.{request_recv}
use libmobile.Util.{addr_compare}
use libmobile.Callback.{cb_sock_recv}
use libmobile.Dns.Name.{dns_packet_size}
use libmobile.Dns.Query.{make_query, qtype_a}

module _ {W : Type 0} (cb : Callback W) where
  -- A lookup of a name of at least one label, none of them empty and all of ASCII characters, that
  -- the server which was asked answers with an address, ends with success and with the four bytes
  -- of that address, in as many rounds of the comparison of names as the name has labels and two.
  pub request_recv-Answers :
      (fuel : ℕ) (a : Adapter W) (b : BufferDns) (id conn : ℕ) (addr : Addr) (l : List ℕ)
      (ls : List (List ℕ)) (n : ℕ)
      → AreLabels (l ∷ ls)
      → length b.bytes ≡ dns_packet_size
      → make_query b id qtype_a (join (l ∷ ls)) ≡ some a.buffer_dns
      → let r = (cb.sock_recv a.user conn dns_packet_size).0 in
        let received = record a.buffer_dns {
          bytes = copy a.buffer_dns.bytes 0 (take dns_packet_size r.bytes);
          size = n;
        } in
        r.count ≡ pos n
        → addr_compare addr r.from ≡ true
        → Answers a.buffer_dns received
        → length (l ∷ ls) < fuel
        → let name = join (l ∷ ls) in
          request_recv cb (suc fuel) a conn addr name (length name)
          ≡ some (
            pos 1,
            take 4 (drop (a.buffer_dns.size + 12) received.bytes),
            record a { user = (cb.sock_recv a.user conn dns_packet_size).1; buffer_dns = received },
          )
  unfolding request_recv cb_sock_recv
  request_recv-Answers fuel a b id conn addr l ls n v m e c f h k =
      let r = (cb.sock_recv a.user conn dns_packet_size).0 in
      let received = record a.buffer_dns {
        bytes = copy a.buffer_dns.bytes 0 (take dns_packet_size r.bytes);
        size = n;
      } in
      let (verified, answered) =
        find_answer-Answers fuel b a.buffer_dns received id l ls v m e h k in
      let fits = h.fits in
      let some_bytes : (n == 0) ≡ false = ground arith in ground (arith, c, f, verified, answered)
