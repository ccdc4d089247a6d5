-- ===== src/Dns/Answer.antt =====
-- dns.c: the response that a name server gives to a query is understood.
use libmobile.Dns.Labels.{AreLabels, join, wire_size}
use libmobile.Adapter.{BufferDns}
use libmobile.Prelude.{
  List, arith, bit_and, length, some, ℕ, ◌+◌, ◌<◌, ◌∙◌, ◌∷◌, ◌≡◌, ◌≤◌, refl, suc, ap, sym, zero,
  ◌-◌,
}
use libmobile.Dns.Name.{
  at, dns_packet_size, word_at, name_compare, name_len, same_name, name_len_from,
}
use libmobile.Dns.Query.{
  dns_header_size, make_query, qd_size, qtype_a, asked, find_answer, verify_response, check_record,
  found, get_answer, rr_size, verify_question,
}
use libmobile.Dns.Echo.{name_compare-Wire, name_compare-pointer}
use libmobile.Dns.Asked.{Wire-same, make_query-Asks}

-- What a response needs to answer a query for an IPv4 address: it repeats the id and the question,
-- has no error, and its first answer, whose name is the usual compression pointer to the question,
-- is an address.
pub record Answers (q r : BufferDns) : Type 0 where
  pub id : r.id ≡ q.id
  pub type : r.type ≡ q.type
  pub repeats_id : word_at r.bytes 0 ≡ q.id
  pub flags : bit_and (word_at r.bytes 2) 0xfb0f ≡ 0x8100
  pub questions : word_at r.bytes 4 ≡ 1
  pub answers : 0 < word_at r.bytes 6
  pub repeats : (j : ℕ) → dns_header_size ≤ j → j < q.size → at r.bytes j ≡ at q.bytes j
  pub pointer : at r.bytes q.size ≡ 0xc0
  pub pointer_low : at r.bytes (q.size + 1) ≡ dns_header_size
  pub answer_type : word_at r.bytes (q.size + 2) ≡ qtype_a
  pub answer_class : word_at r.bytes (q.size + 4) ≡ 1
  pub answer_length : word_at r.bytes (q.size + 10) ≡ 4
  pub fits : q.size + 16 ≤ r.size

verify_response-asked :
    (fuel : ℕ) (r : BufferDns) (name : List ℕ) (offset : ℕ)
    → dns_header_size ≤ r.size
    → word_at r.bytes 0 ≡ r.id
    → bit_and (word_at r.bytes 2) 0xfb0f ≡ 0x8100
    → word_at r.bytes 4 ≡ 1
    → 0 < word_at r.bytes 6
    → name_compare fuel r.bytes r.size name (length name) dns_header_size ≡ same_name offset
    → verify_response fuel r name (length name) ≡ verify_question r offset
unfolding verify_response
verify_response-asked fuel r name offset s i f q n h = rw (i, f, q, h) (ground arith)

verify_question-asked :
    (r : BufferDns) (offset : ℕ)
    → offset + qd_size ≤ r.size
    → word_at r.bytes offset ≡ r.type
    → word_at r.bytes (offset + 2) ≡ 1
    → verify_question r offset ≡ asked (word_at r.bytes 6) (offset + qd_size)
unfolding verify_question
verify_question-asked r offset s t c = rw (t, c) (ground arith)

-- Two bytes of the question are as they were asked.
word_repeated :
    (q r : BufferDns) (i : ℕ)
    → Answers q r
    → dns_header_size ≤ i
    → i + 1 < q.size
    → word_at r.bytes i ≡ word_at q.bytes i
word_repeated q r i h m n =
    let high = h.repeats i m (omega arith) in
    let low = h.repeats (i + 1) (omega arith) n in rw (high, low) refl

get_answer-found_at :
    (fuel : ℕ) (r : BufferDns) (name : List ℕ) (offset rname_len offset' : ℕ)
    → name_len r.bytes r.size offset ≡ some rname_len
    → offset + rname_len + rr_size + 4 ≤ r.size
    → name_compare fuel r.bytes r.size name (length name) offset ≡ same_name offset'
    → r.type ≡ qtype_a
    → word_at r.bytes (offset + rname_len) ≡ qtype_a
    → word_at r.bytes (offset + rname_len + 2) ≡ 1
    → word_at r.bytes (offset + rname_len + 8) ≡ 4
    → get_answer fuel r offset name (length name) ≡ found (offset + rname_len + rr_size)
unfolding get_answer check_record
get_answer-found_at fuel r name offset rname_len offset' e s h t u c d =
    ground (arith, e, h, t, u, c, d)

name_len_from-pointer :
    (fuel : ℕ) (bytes : List ℕ) (size offset : ℕ)
    → at bytes offset ≡ 0xc0
    → offset + 2 ≤ size
    → name_len_from (suc fuel) bytes size offset offset ≡ some 2
unfolding name_len_from
name_len_from-pointer fuel bytes size offset p h =
    let left : offset + 2 - offset ≡ 2 = omega arith in rw (p, left) (ground arith)

name_len-pointer :
    (bytes : List ℕ) (size offset : ℕ)
    → at bytes offset ≡ 0xc0
    → offset + 2 ≤ size
    → name_len bytes size offset ≡ some 2
unfolding name_len
name_len-pointer bytes size offset p h =
    let rounds : size + 1 ≡ suc size = omega arith in
    let found_two = name_len_from-pointer size bytes size offset p h in
    rw (rounds, found_two) (ground arith)

find_answer-first :
    (fuel ancount : ℕ) (r : BufferDns) (offset : ℕ) (name : List ℕ) (rdata : ℕ)
    → 0 < ancount
    → get_answer fuel r offset name (length name) ≡ found rdata
    → find_answer fuel ancount r offset name (length name) ≡ some (some rdata)
unfolding find_answer
find_answer-first fuel zero r offset name rdata n h = absurd (omega arith)
find_answer-first fuel (suc ancount) r offset name rdata n h = rw (h, find_answer) refl

-- A response that answers the query is accepted, and the address is found behind the head of its
-- first answer: the name of the host, of at least one label, none of them empty and all of ASCII
-- characters, is read through the compression pointer, in as many rounds as it has labels and two.
pub find_answer-Answers :
    (fuel : ℕ) (b q r : BufferDns) (id : ℕ) (l : List ℕ) (ls : List (List ℕ))
    → AreLabels (l ∷ ls)
    → length b.bytes ≡ dns_packet_size
    → make_query b id qtype_a (join (l ∷ ls)) ≡ some q
    → Answers q r
    → length (l ∷ ls) < fuel
    → let name = join (l ∷ ls) in
      let ancount = word_at r.bytes 6 in
      (verify_response (suc fuel) r name (length name) ≡ asked ancount q.size)
      × (find_answer (suc fuel) ancount r q.size name (length name) ≡ some (some (q.size + 12)))
find_answer-Answers fuel b q r id l ls a n e h f =
    let asks = make_query-Asks b q id l ls a n e in
    let stands =
      Wire-same q.bytes r.bytes dns_header_size (l ∷ ls)
        (λ j m k. h.repeats j m (omega (arith, asks.size))) asks.wire in
    let name_end = dns_header_size + wire_size (l ∷ ls) in
    let size = asks.size in
    let fits = h.fits in
    let name_found =
      name_compare-Wire (suc fuel) r.bytes r.size dns_header_size l ls a stands (omega arith)
        (omega arith) in
    let pointed =
      name_compare-pointer fuel r.bytes r.size q.size dns_header_size l ls a stands (omega arith)
        (omega arith) (λ z. absurd (omega (arith, h.pointer, z))) (rw h.pointer refl)
        (rw (h.pointer, h.pointer_low) refl) f in
    let four : q.size + 2 + 2 ≡ q.size + 4 = omega arith in
    let ten : q.size + 2 + 8 ≡ q.size + 10 = omega arith in
    let twelve : q.size + 2 + 10 ≡ q.size + 12 = omega arith in
    let behind : dns_header_size + wire_size (l ∷ ls) + qd_size ≡ q.size = omega (arith, size) in
    (
      verify_response-asked (suc fuel) r (join (l ∷ ls)) name_end (omega arith)
            (h.repeats_id ∙ sym h.id) h.flags h.questions h.answers name_found
          ∙ verify_question-asked r name_end (omega arith)
              (word_repeated q r name_end h (omega arith) (omega arith)
                ∙ asks.asks_type
                ∙ sym asks.type
                ∙ sym h.type)
              (word_repeated q r (name_end + 2) h (omega arith) (omega arith) ∙ asks.asks_class)
          ∙ ap (asked (word_at r.bytes 6)) behind,
      find_answer-first (suc fuel) (word_at r.bytes 6) r q.size (join (l ∷ ls)) (q.size + 12)
          h.answers
          (get_answer-found_at (suc fuel) r (join (l ∷ ls)) q.size 2 (q.size + 2)
              (name_len-pointer r.bytes r.size q.size h.pointer (omega arith)) (omega arith) pointed
              (h.type ∙ asks.type) h.answer_type
              (ap (λ (k : ℕ). word_at r.bytes k) four ∙ h.answer_class)
              (ap (λ (k : ℕ). word_at r.bytes k) ten ∙ h.answer_length)
            ∙ ap found twelve),
    )
