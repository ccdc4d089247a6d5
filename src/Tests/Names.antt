-- ===== src/Tests/Names.antt =====
-- Runs of the readers of addresses and names.
use libmobile.Adapter.{BufferDns, Addr}
use libmobile.Prelude.{
  [], arith, none, refl, some, ◌++◌, ◌+◌, ◌∷◌, ◌≡◌, length, replicate, ◌≤◌, List, ℕ,
}
use libmobile.Dns.Name.{
  compare_from, looping, name_len_from, name_compare, dns_packet_size, name_len,
}
use libmobile.Dns.Defects.{compare_from-self_pointer, find_answer-NameDiffers, name_len_from_enough}
use libmobile.Dns.Query.{
  find_answer, check_record, dns_header_size, get_answer, make_query, qd_size, qtype_a, qtype_aaaa,
}
use libmobile.Util.{parse_phoneaddr}
use libmobile.Util.Phone.{parse_phoneaddr-print, print_phoneaddr}
use libmobile.Dns.Bounds.{get_answer-found, make_query-size}

-- The number 127000000001
parse_phoneaddr-print_example :
    parse_phoneaddr (print_phoneaddr (127 ∷ 0 ∷ 0 ∷ 1 ∷ []) ++ []) ≡ some (127 ∷ 0 ∷ 0 ∷ 1 ∷ [])
parse_phoneaddr-print_example = parse_phoneaddr-print (127 ∷ 0 ∷ 0 ∷ 1 ∷ []) [] refl (ground arith)

compare_from-self_pointer_example :
    compare_from 3 (0xc0 ∷ 0x00 ∷ []) 2 (b'a' ∷ []) 1 0 0 none ≡ looping
compare_from-self_pointer_example =
    compare_from-self_pointer 3 (0xc0 ∷ 0x00 ∷ []) 2 (b'a' ∷ []) 1 0 0 none (ground arith)

-- A packet with an answer for the name `b`, when `a` was asked for
abbrev other_answer : BufferDns
other_answer = record {
  id = 1;
  type = 1;
  size = 17;
  bytes = 1 ∷ b'b' ∷ 0 ∷ 0 ∷ 1 ∷ 0 ∷ 1 ∷ 0 ∷ 0 ∷ 0 ∷ 0 ∷ 0 ∷ 4 ∷ 10 ∷ 0 ∷ 0 ∷ 1 ∷ [];
}

find_answer-NameDiffers_example : find_answer 9 2 other_answer 0 (b'a' ∷ []) 1 ≡ some none
unfolding name_compare
find_answer-NameDiffers_example = find_answer-NameDiffers 9 2 other_answer 0 (b'a' ∷ []) 1 refl

name_len_from_enough_example :
    name_len_from 4 (1 ∷ b'b' ∷ 0 ∷ []) 3 0 0 ≡ name_len_from (4 + 7) (1 ∷ b'b' ∷ 0 ∷ []) 3 0 0
name_len_from_enough_example =
    name_len_from_enough 4 7 (1 ∷ b'b' ∷ 0 ∷ []) 3 0 0 (omega arith) (omega arith)

-- An answer with an address for the name `b`
abbrev answer_packet : BufferDns
answer_packet = record other_answer {
  bytes = 1 ∷ b'b' ∷ 0 ∷ 0 ∷ 1 ∷ 0 ∷ 1 ∷ 0 ∷ 0 ∷ 0 ∷ 0 ∷ 0 ∷ 4 ∷ 10 ∷ 0 ∷ 0 ∷ 1 ∷ [];
}

get_answer-found_example :
    (answer_packet.type ≡ qtype_a → 13 + 4 ≤ answer_packet.size)
    × (answer_packet.type ≡ qtype_aaaa → 13 + 16 ≤ answer_packet.size)
unfolding get_answer name_len name_compare check_record
get_answer-found_example = get_answer-found 9 answer_packet 0 (b'b' ∷ []) 1 13 refl

abbrev asked_name : List ℕ
asked_name = b'a' ∷ []

abbrev query_for_a : BufferDns
query_for_a = record {
  id = 7;
  type = 1;
  size = 19;
  bytes = 0 ∷ 7 ∷ 1 ∷ 0 ∷ 0 ∷ 1 ∷ 0 ∷ 0 ∷ 0 ∷ 0 ∷ 0 ∷ 0 ∷ 1 ∷ b'a' ∷ 0 ∷ 0 ∷ 1 ∷ 0 ∷ 1 ∷ 0 ∷ [];
}

make_query-size_example :
    (query_for_a.size ≤ dns_packet_size)
    × (query_for_a.size ≡ dns_header_size + length asked_name + 2 + qd_size)
unfolding make_query
make_query-size_example =
    make_query-size (record query_for_a { bytes = replicate 20 0 }) 7 1 asked_name query_for_a refl

abbrev server_addr : Addr
server_addr = record { type = 1; port = 53; host = 8 ∷ 8 ∷ 8 ∷ 8 ∷ replicate 12 0 }
