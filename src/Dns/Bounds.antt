-- ===== src/Dns/Bounds.antt =====
-- dns.c: what is read and written lies inside the packet.
use libmobile.Adapter.{BufferDns}
use libmobile.Prelude.{
  List, [], arith, length, length-set, set, some, suc, zero, ℕ, ◌+◌, ◌<◌, ◌∷◌, ◌≡◌, ◌≤◌, copy, u8,
  ◌/◌, Option-cases, inl, inr,
}
use libmobile.Dns.Name.{at, dns_packet_size, make_labels, make_name, name_len, name_len_from}
use libmobile.Dns.Query.{
  check_record, dns_header_size, found, get_answer, make_query, qd_size, qtype_a, qtype_aaaa,
}

name_len_from_bound :
    (fuel : ℕ) (bytes : List ℕ) (size offset pcmp n : ℕ)
    → pcmp < size
    → offset ≤ pcmp
    → name_len_from fuel bytes size offset pcmp ≡ some n
    → offset + n ≤ size
unfolding name_len_from
name_len_from_bound zero bytes size offset pcmp n h k e = ground arith
name_len_from_bound (suc fuel) bytes size offset pcmp n h k e =
    ground (arith, name_len_from_bound fuel bytes size offset (pcmp + 1 + at bytes pcmp) n)

-- The length that is measured for a name never reaches behind the packet.
pub name_len-bound :
    (bytes : List ℕ) (size offset n : ℕ) → name_len bytes size offset ≡ some n → offset + n ≤ size
unfolding name_len
name_len-bound bytes size offset n e =
    ground (arith, name_len_from_bound (size + 1) bytes size offset offset n)

-- An answer that is found has its whole address inside the packet, and the address is of the size
-- that was asked for: four bytes for an A record and sixteen for an AAAA record.
pub get_answer-found :
    (fuel : ℕ) (b : BufferDns) (offset : ℕ) (name : List ℕ) (nlen rdata : ℕ)
    → get_answer fuel b offset name nlen ≡ found rdata
    → ((b.type ≡ qtype_a → rdata + 4 ≤ b.size) × (b.type ≡ qtype_aaaa → rdata + 16 ≤ b.size))
unfolding get_answer check_record
get_answer-found fuel b offset name nlen rdata e = ground arith

make_labels_bound :
    (bytes : List ℕ) (plen pdat count : ℕ) (name bytes' : List ℕ) (o : ℕ)
    → make_labels bytes plen pdat count name ≡ some (bytes', o)
    → (o ≤ dns_packet_size) × (o ≡ pdat + length name + 1) × (length bytes' ≡ length bytes)
unfolding make_labels
make_labels_bound bytes plen pdat count [] bytes' o e =
    ground (arith, length-set bytes plen count, length-set (set bytes plen count) pdat 0)
make_labels_bound bytes plen pdat count (c ∷ cs) bytes' o e = ground (
  arith,
  length-set bytes plen count,
  length-set bytes pdat c,
  make_labels_bound (set bytes plen count) pdat (pdat + 1) 0 cs bytes' o,
  make_labels_bound (set bytes pdat c) plen (pdat + 1) (count + 1) cs bytes' o,
)

-- A query that is made fits in the packet, and its size is that of its header, of a name one byte
-- longer at each end, and of the question.
pub make_query-size :
    (b : BufferDns) (id type : ℕ) (name : List ℕ) (b' : BufferDns)
    → make_query b id type name ≡ some b'
    → (b'.size ≤ dns_packet_size) × (b'.size ≡ dns_header_size + length name + 2 + qd_size)
unfolding make_query make_name
make_query-size b id type name b' e =
    let head =
      copy b.bytes 0 (u8 (id / 256) ∷ u8 id ∷ 1 ∷ 0 ∷ 0 ∷ 1 ∷ 0 ∷ 0 ∷ 0 ∷ 0 ∷ 0 ∷ 0 ∷ []) in
    elim (Option-cases (make_name head dns_header_size name)) [
      | inl h ↦ ground (arith, h)
      | inr (r, h) ↦
          ground (
            arith,
            h,
            make_labels_bound head dns_header_size (dns_header_size + 1) 0 name r.0 r.1 h,
          )
    ]
