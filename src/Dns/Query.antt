-- ===== src/Dns/Query.antt =====
-- dns.c: making a query, and reading the response to it.
use libmobile.Adapter.{BufferDns}
use libmobile.Prelude.{
  List, Option, [], bit_and, copy, if◌then◌else◌, ltb, none, not, some, suc, u8, zero, ℕ, ◌&&◌, ◌+◌,
  ◌/◌, ◌==◌, ◌∷◌,
}
use libmobile.Dns.Name.{
  differs, dns_packet_size, looping, make_name, name_compare, name_len, same_name, word_at,
}

abbrev pub dns_header_size : ℕ
dns_header_size = 12

abbrev pub qd_size : ℕ
qd_size = 4

abbrev pub rr_size : ℕ
rr_size = 10

abbrev pub qtype_a : ℕ
qtype_a = 1

abbrev pub qtype_aaaa : ℕ
qtype_aaaa = 28

-- `dns_make_query`: whether it fits, and the buffer as far as it was written
unfoldable pub make_query : BufferDns → ℕ → ℕ → List ℕ → Option BufferDns
unfolding make_name
make_query b id type name =
    let head =
      copy b.bytes 0 (u8 (id / 256) ∷ u8 id ∷ 1 ∷ 0 ∷ 0 ∷ 1 ∷ 0 ∷ 0 ∷ 0 ∷ 0 ∷ 0 ∷ 0 ∷ []) in
    elim (make_name head dns_header_size name) [
      | none ↦ none
      | some (bytes, offset) ↦
          if ltb dns_packet_size (offset + qd_size)
          then none
          else some (record {
            id = id;
            type = type;
            size = offset + qd_size;
            bytes = copy bytes offset (u8 (type / 256) ∷ u8 type ∷ 0 ∷ 1 ∷ []);
          })
    ]

-- A response that is refused has a code for the log; `asked` has the number of answers and where
-- they begin.
pub data Verified : Type 0 where
  hangs : Verified
  refused : ℕ → Verified
  asked : ℕ → ℕ → Verified

-- The question behind the name, at `offset`
unfoldable pub verify_question : BufferDns → ℕ → Verified
verify_question b offset =
    if ltb b.size (offset + qd_size)
    then refused 19
    else if not (word_at b.bytes offset == b.type)
    then refused 19
    else if not (word_at b.bytes (offset + 2) == 1)
    then refused 19
    else asked (word_at b.bytes 6) (offset + qd_size)

-- `dns_verify_response`; the codes are without their sign.
unfoldable pub verify_response : ℕ → BufferDns → List ℕ → ℕ → Verified
unfolding name_compare verify_question
verify_response fuel b name name_len =
    let flags = word_at b.bytes 2 in
    if ltb b.size dns_header_size
    then refused 1
    else if not (word_at b.bytes 0 == b.id)
    then refused 1
    else if not (bit_and flags 0xfb0f == 0x8100)
    then refused (2 + bit_and flags 0xf)
    else if not (word_at b.bytes 4 == 1)
    then refused 18
    else if ltb (word_at b.bytes 6) 1
    then refused 18
    else elim (name_compare fuel b.bytes b.size name name_len dns_header_size) [
      | looping ↦ hangs
      | differs ↦ refused 19
      | same_name offset ↦ verify_question b offset
    ]

-- An answer: broken off (-1), not the one asked for (-2, with the offset as it then is), or found.
pub data Answered : Type 0 where
  stuck : Answered
  broken : Answered
  passed : ℕ → Answered
  found : ℕ → Answered

-- The checks of `dns_get_answer` behind the name: `info` is where the record begins, and `offset`
-- where the name ends.
unfoldable pub check_record : BufferDns → ℕ → ℕ → Answered
check_record b info offset =
    let rdlength = word_at b.bytes (info + 8) in
    if not (word_at b.bytes info == b.type)
    then passed offset
    else if not (word_at b.bytes (info + 2) == 1)
    then passed offset
    else if b.type == qtype_a && not (rdlength == 4)
    then passed offset
    else if b.type == qtype_aaaa && not (rdlength == 16)
    then passed offset
    else found (info + rr_size)

-- `dns_get_answer`
unfoldable pub get_answer : ℕ → BufferDns → ℕ → List ℕ → ℕ → Answered
unfolding name_len name_compare check_record
get_answer fuel b offset name nlen = elim (name_len b.bytes b.size offset) [
  | none ↦ broken
  | some rname_len ↦
      let info = offset + rname_len in
      if ltb b.size (info + rr_size)
      then broken
      else if ltb b.size (info + rr_size + word_at b.bytes (info + 8))
      then broken
      else elim (name_compare fuel b.bytes b.size name nlen offset) [
        | looping ↦ stuck
        | differs ↦ passed offset
        | same_name offset' ↦ check_record b info offset'
      ]
]

-- The loop of `mobile_dns_request_recv` over the answers that are left; `none` hangs.
unfoldable pub find_answer : ℕ → ℕ → BufferDns → ℕ → List ℕ → ℕ → Option (Option ℕ)
unfolding get_answer
find_answer fuel zero b offset name nlen = some none
find_answer fuel (suc ancount) b offset name nlen = elim (get_answer fuel b offset name nlen) [
  | stuck ↦ none
  | broken ↦ some none
  | passed offset' ↦ find_answer fuel ancount b offset' name nlen
  | found rdata ↦ some (some rdata)
]
