-- ===== src/Dns/Wrapped.antt =====
-- dns.c: the id of a query after 65535 queries.
use libmobile.Adapter.{Adapter, Addr, BufferDns, Callback}
use libmobile.Prelude.{
  List, Option, arith, copy, is_negative, is_zero, none, some, take, to_ℕ, true, ℕ, ◌%◌, ◌+◌, ◌<◌,
  ◌^◌, ◌||◌, ◌≡◌, ◌≤◌, ℤ, Bytes, [], get_or-lt, if_intro, if◌then◌else◌, not, pos, refl, set,
  set-Bytes, suc, zero, ◌∷◌,
}
use libmobile.Dns.Request.{request_recv, request_send}
use libmobile.Callback.{cb_sock_recv, cb_sock_send}
use libmobile.Dns.Name.{dns_packet_size, word_at}
use libmobile.Dns.Query.{make_query, refused, verify_response}
use libmobile.Util.{addr_compare}

-- No address comes of it, and the loops over names end: the poll waits on, or is an error.
abbrev pub Fails : {W : Type 0} → Option (ℤ × List ℕ × Adapter W) → Type 0
Fails none = ⊥
Fails (some (rc, ip, a)) = (is_negative rc || is_zero rc ≡ true) × (ip ≡ [])

make_query-id :
    (b q : BufferDns) (id type : ℕ) (name : List ℕ) → make_query b id type name ≡ some q → q.id ≡ id
unfolding make_query
make_query-id b q id type name e = ground arith

take-Bytes : (n : ℕ) (xs : List ℕ) → Bytes xs → Bytes (take n xs)
take-Bytes zero xs h = tt
take-Bytes (suc n) [] h = tt
take-Bytes (suc n) (x ∷ xs) h = (h.0, take-Bytes n xs h.1)

copy-Bytes : (xs : List ℕ) (i : ℕ) (src : List ℕ) → Bytes xs → Bytes src → Bytes (copy xs i src)
copy-Bytes xs i [] h k = h
copy-Bytes xs i (y ∷ src) h k = copy-Bytes (set xs i y) (suc i) src (set-Bytes xs i y h k.0) k.1

module _ {W : Type 0} (cb : Callback W) where
  -- What is received are bytes: `data` of `mobile_func_sock_recv` is a buffer of them.
  abbrev pub ReceivesBytes : Type 0
  ReceivesBytes = (w : W) (conn size : ℕ) → Bytes (cb.sock_recv w conn size).0.bytes

  verify_response_late :
      (fuel : ℕ) (b : BufferDns) (name : List ℕ) (n : ℕ)
      → 65536 ≤ b.id
      → word_at b.bytes 0 < 65536
      → verify_response fuel b name n ≡ refused 1
  unfolding verify_response
  verify_response_late fuel b name n h k = ground arith

  -- What is received into the buffer of the query
  abbrev received : Adapter W → ℕ → BufferDns
  received a conn =
      let r = (cb.sock_recv a.user conn dns_packet_size).0 in
      record a.buffer_dns {
        bytes = copy a.buffer_dns.bytes 0 (take dns_packet_size r.bytes);
        size = to_ℕ r.count;
      }

  -- The number of the query does not fit two bytes, and the buffer is one of bytes.
  abbrev Late : Adapter W → Type 0
  Late a = (65536 ≤ a.buffer_dns.id) × Bytes a.buffer_dns.bytes

  -- A poll that brings nothing and leaves the next one as late
  abbrev FailsLate : Option (ℤ × List ℕ × Adapter W) → Type 0
  FailsLate none = ⊥
  FailsLate (some (rc, ip, a)) = (is_negative rc || is_zero rc ≡ true) × (ip ≡ []) × Late a

  request_recv-Late :
      (fuel : ℕ) (a : Adapter W) (conn : ℕ) (addr : Addr) (name : List ℕ) (n : ℕ)
      → ReceivesBytes
      → Late a
      → FailsLate (request_recv cb fuel a conn addr name n)
  unfolding request_recv cb_sock_recv
  request_recv-Late fuel a conn addr name n bytes h =
      let r = (cb.sock_recv a.user conn dns_packet_size).0 in
      let P = FailsLate in
      let kept =
        copy-Bytes a.buffer_dns.bytes 0 (take dns_packet_size r.bytes) h.1
          (take-Bytes dns_packet_size r.bytes (bytes a.user conn dns_packet_size)) in
      let b = received a conn in
      let high = get_or-lt b.bytes 0 kept in
      let low = get_or-lt b.bytes 1 kept in
      let refused_late = verify_response_late fuel b name n h.0 (omega arith) in
      if_intro P (is_negative r.count || is_zero r.count) (λ e. (e, refl, (h.0, kept)))
        (λ _.
          if_intro P (not (addr_compare addr r.from)) (λ _. (refl, refl, (h.0, kept)))
            (λ _. rw refused_late (refl, refl, (h.0, kept))))

  -- The polls of `command_dns_request_check` with what the program does before each: they end with
  -- the first one that does not return 0.
  abbrev pub polls :
      ℕ → ℕ → Addr → List ℕ → ℕ → List (W → W) → Adapter W → Option (ℤ × List ℕ × Adapter W)
  polls fuel conn addr name n [] a = some (pos 0, [], a)
  polls fuel conn addr name n (before ∷ rest) a =
      elim (request_recv cb fuel (record a { user = before a.user }) conn addr name n) [
        | none ↦ none
        | some (rc, ip, b) ↦
            if is_zero rc then polls fuel conn addr name n rest b else some (rc, ip, b)
      ]

  poll_next :
      (fuel conn : ℕ) (addr : Addr) (name : List ℕ) (n : ℕ) (rest : List (W → W))
      → ((b : Adapter W) → Late b → Fails (polls fuel conn addr name n rest b))
      → (r : Option (ℤ × List ℕ × Adapter W)) → FailsLate r
      → Fails (elim r as (λ _. Option (ℤ × List ℕ × Adapter W)) [
        | none ↦ none
        | some (rc, ip, b) ↦
            if is_zero rc then polls fuel conn addr name n rest b else some (rc, ip, b)
      ])
  poll_next fuel conn addr name n rest goes_on none h = h
  poll_next fuel conn addr name n rest goes_on (some (rc, ip, b)) h =
      if_intro Fails (is_zero rc) (λ _. goes_on b h.2) (λ _. (h.0, h.1))

  polls-Late :
      (fuel conn : ℕ) (addr : Addr) (name : List ℕ) (n : ℕ) (fs : List (W → W)) (a : Adapter W)
      → ReceivesBytes
      → Late a
      → Fails (polls fuel conn addr name n fs a)
  polls-Late fuel conn addr name n [] a bytes h = (refl, refl)
  polls-Late fuel conn addr name n (before ∷ rest) a bytes h =
      poll_next fuel conn addr name n rest (λ b k. polls-Late fuel conn addr name n rest b bytes k)
        (request_recv cb fuel (record a { user = before a.user }) conn addr name n)
        (request_recv-Late fuel (record a { user = before a.user }) conn addr name n bytes h)

  sent_id :
      (a : Adapter W) (conn : ℕ) (addr : Addr) (name : List ℕ)
      → (request_send cb a conn addr name).0 ≡ true
      → (request_send cb a conn addr name).1.buffer_dns.id ≡ (a.dns_id + 1) % 2 ^ 32
  unfolding request_send cb_sock_send
  sent_id a conn addr name h = grind (arith, make_query-id)

  -- From the 65536th query on, up to the one at which the 32-bit number of the query starts again
  -- at 0, no lookup succeeds: of a query that has been sent from a buffer of bytes, on a program
  -- that receives bytes, no poll brings an address, however many there are, whatever the program
  -- does before each and whatever any server sends in answer, and none hangs in the loops over names.
  pub polls-request_send :
      (fuel : ℕ) (a : Adapter W) (conn : ℕ) (addr : Addr) (name : List ℕ) (n : ℕ)
      (fs : List (W → W))
      → 65535 ≤ a.dns_id
      → a.dns_id + 1 < 2 ^ 32
      → (request_send cb a conn addr name).0 ≡ true
      → Bytes (request_send cb a conn addr name).1.buffer_dns.bytes
      → ReceivesBytes
      → Fails (polls fuel conn addr name n fs (request_send cb a conn addr name).1)
  polls-request_send fuel a conn addr name n fs h k s bytes receives =
      polls-Late fuel conn addr name n fs (request_send cb a conn addr name).1 receives
        (omega (arith, sent_id a conn addr name s), bytes)
