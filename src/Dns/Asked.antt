-- ===== src/Dns/Asked.antt =====
-- dns.c: the query that `dns_make_query` makes.
use libmobile.Dns.Labels.{AreLabels, Wire, join, make_name-Wire, wire_size}
use libmobile.Adapter.{BufferDns}
use libmobile.Prelude.{
  List, Option, [], ap, arith, copy, get_or-copy_before, get_or-copy_self, if◌then◌else◌, length,
  length-copy, ltb, none, refl, some, u8, ℕ, ◌+◌, ◌/◌, ◌<◌, ◌∙◌, ◌∷◌, ◌≡◌, ◌≤◌,
}
use libmobile.Dns.Query.{dns_header_size, make_query, qd_size, qtype_a}
use libmobile.Dns.Name.{at, dns_packet_size, make_name, word_at}
use libmobile.Dns.Echo.{wire_size_pos}

pub Wire-same :
    (xs ys : List ℕ) (p : ℕ) (ls : List (List ℕ))
    → ((j : ℕ) → p ≤ j → j < p + wire_size ls → at ys j ≡ at xs j)
    → Wire xs p ls
    → Wire ys p ls
Wire-same xs ys p [] h w = h p (omega arith) (omega arith) ∙ w
Wire-same xs ys p (l ∷ ls) h w =
    let pos = wire_size_pos ls in
    (
      h p (omega arith) (omega arith) ∙ w.0,
      w.1,
      λ k m. h (p + 1 + k) (omega arith) (omega arith) ∙ w.2 k m,
      Wire-same xs ys (p + 1 + length l) ls (λ j m n. h j (omega arith) (omega arith)) w.3,
    )

-- What `dns_make_query` has made: the name and, behind it, what is asked for
pub record Asks (q : BufferDns) (number : ℕ) (ls : List (List ℕ)) : Type 0 where
  pub id : q.id ≡ number
  pub type : q.type ≡ qtype_a
  pub size : q.size ≡ dns_header_size + wire_size ls + qd_size
  pub wire : Wire q.bytes dns_header_size ls
  pub asks_type : word_at q.bytes (dns_header_size + wire_size ls) ≡ qtype_a
  pub asks_class : word_at q.bytes (dns_header_size + wire_size ls + 2) ≡ 1

-- Where `make_query` succeeds, so did `make_name`, and the question is behind the name.
query_made :
    (made : Option (List ℕ × ℕ)) (id : ℕ) (q : BufferDns)
    → (elim made as (λ _. Option BufferDns) [
      | none ↦ none
      | some (bytes, offset) ↦
          if ltb dns_packet_size (offset + qd_size)
          then none
          else some (record {
            id = id;
            type = qtype_a;
            size = offset + qd_size;
            bytes = copy bytes offset (u8 (qtype_a / 256) ∷ u8 qtype_a ∷ 0 ∷ 1 ∷ []);
          })
    ])
      ≡ some q
    → (bytes : List ℕ) × (offset : ℕ) × (made ≡ some (bytes, offset))
      × (offset + qd_size ≤ dns_packet_size)
      × (q ≡ record {
        id = id;
        type = qtype_a;
        size = offset + qd_size;
        bytes = copy bytes offset (u8 (qtype_a / 256) ∷ u8 qtype_a ∷ 0 ∷ 1 ∷ []);
      })
query_made none id q e = cc
query_made (some (bytes, offset)) id q e = (bytes, offset, refl, ground arith, ground arith)

abbrev question : List ℕ
question = u8 (qtype_a / 256) ∷ u8 qtype_a ∷ 0 ∷ 1 ∷ []

question_word :
    (bytes : List ℕ) (offset k : ℕ)
    → k < 3
    → offset + 4 ≤ length bytes
    → word_at (copy bytes offset question) (offset + k) ≡ word_at question k
question_word bytes offset k h n =
    let index : offset + k + 1 ≡ offset + (k + 1) = omega arith in
    let high = get_or-copy_self bytes offset question k (omega arith) n in
    let low = get_or-copy_self bytes offset question (k + 1) (omega arith) n in
    rw (index, high, low) refl

made-Asks :
    (id : ℕ) (bytes : List ℕ) (offset : ℕ) (ls : List (List ℕ))
    → Wire bytes dns_header_size ls
    → offset ≡ dns_header_size + wire_size ls
    → offset + qd_size ≤ length bytes
    → Asks
        (record {
          id = id;
          type = qtype_a;
          size = offset + qd_size;
          bytes = copy bytes offset question;
        })
        id
        ls
made-Asks id bytes offset ls stands ends room =
    let first : dns_header_size + wire_size ls ≡ offset + 0 = omega (arith, ends) in
    let second : dns_header_size + wire_size ls + 2 ≡ offset + 2 = omega (arith, ends) in
    let asked = copy bytes offset question in
    let asks = question_word bytes offset 0 (omega arith) room in
    let class = question_word bytes offset 2 (omega arith) room in
    record {
      id = refl;
      type = refl;
      size = omega (arith, ends);
      wire =
          Wire-same bytes (copy bytes offset question) dns_header_size ls
            (λ j m k. get_or-copy_before bytes offset question j (omega (arith, ends))) stands;
      asks_type = ap (λ (k : ℕ). word_at asked k) first ∙ asks;
      asks_class = ap (λ (k : ℕ). word_at asked k) second ∙ class;
    }

pub make_query-Asks :
    (b q : BufferDns) (id : ℕ) (l : List ℕ) (ls : List (List ℕ))
    → AreLabels (l ∷ ls)
    → length b.bytes ≡ dns_packet_size
    → make_query b id qtype_a (join (l ∷ ls)) ≡ some q
    → Asks q id (l ∷ ls)
unfolding make_query
make_query-Asks b q id l ls a n e =
    let head =
      copy b.bytes 0 (u8 (id / 256) ∷ u8 id ∷ 1 ∷ 0 ∷ 0 ∷ 1 ∷ 0 ∷ 0 ∷ 0 ∷ 0 ∷ 0 ∷ 0 ∷ []) in
    let (bytes, offset, made, fits, whole) =
      query_made (make_name head dns_header_size (join (l ∷ ls))) id q e in
    let size =
      length-copy b.bytes 0 (u8 (id / 256) ∷ u8 id ∷ 1 ∷ 0 ∷ 0 ∷ 1 ∷ 0 ∷ 0 ∷ 0 ∷ 0 ∷ 0 ∷ 0 ∷ []) in
    let (stands, ends, inside, room) =
      make_name-Wire head dns_header_size l ls bytes offset a (size ∙ n) made in
    rw whole (made-Asks id bytes offset (l ∷ ls) stands ends (omega (arith, room)))
