-- ===== src/Dns/Name.antt =====
-- dns.c: names in a packet. Pointers into the packet and the name are indices.
use libmobile.Prelude.{
  Bool, List, Option, [], bit_and, get_or, if◌then◌else◌, leb, ltb, none, not, set, some, suc, true,
  zero, ℕ, ◌&&◌, ◌*◌, ◌+◌, ◌-◌, ◌==◌, ◌||◌, ◌∷◌,
}

-- MOBILE_DNS_PACKET_SIZE
abbrev pub dns_packet_size : ℕ
dns_packet_size = 512

abbrev pub at : List ℕ → ℕ → ℕ
at bytes i = get_or bytes i 0

-- Two bytes in network order
abbrev pub word_at : List ℕ → ℕ → ℕ
word_at bytes i = at bytes i * 256 + at bytes (i + 1)

-- The loop of `dns_make_name`, over the characters that are left: where the length of the label
-- goes, where the next character goes, and how long the label is.
unfoldable pub make_labels : List ℕ → ℕ → ℕ → ℕ → List ℕ → Option (List ℕ × ℕ)
make_labels bytes plen pdat count [] =
    if ltb dns_packet_size (pdat + 1)
    then none
    else some (set (set bytes plen count) pdat 0, pdat + 1)
make_labels bytes plen pdat count (c ∷ cs) =
    let label_ends = make_labels (set bytes plen count) pdat (pdat + 1) 0 cs in
    let label_goes_on = make_labels (set bytes pdat c) plen (pdat + 1) (count + 1) cs in
    if ltb dns_packet_size (pdat + 1)
    then none
    else if c == b'.'
    then label_ends
    else if leb 63 count
    then none
    else label_goes_on

-- `dns_make_name`: the packet, and the offset behind the name
unfoldable pub make_name : List ℕ → ℕ → List ℕ → Option (List ℕ × ℕ)
unfolding make_labels
make_name bytes offset name = make_labels bytes offset (offset + 1) 0 name

-- What comparing a name comes to; `looping` is a loop that has not ended when the fuel has.
pub data Compared : Type 0 where
  looping differs : Compared
  same_name : ℕ → Compared

-- `end` of `dns_name_compare`: the byte behind which the name ends in the packet
abbrev pub end_or : Option ℕ → ℕ → ℕ
end_or none pcmp = pcmp
end_or (some e) pcmp = e

-- `*pcmp++ != *pname++`, negated: a byte of the packet is unsigned, but one of the name is a plain
-- `char`. That is signed here, as on x86 and AVR, so that a byte of 0x80 or more is negative in the
-- name and equals none in the packet.
abbrev pub same_char : ℕ → ℕ → Bool
same_char b c = ltb c 0x80 && b == c

-- `while (len--) if (*pcmp++ != *pname++) return false;`
unfoldable pub label_matches : ℕ → List ℕ → ℕ → List ℕ → ℕ → Bool
label_matches zero bytes pcmp name pname = true
label_matches (suc len) bytes pcmp name pname =
    same_char (at bytes pcmp) (at name pname) && label_matches len bytes (pcmp + 1) name (pname + 1)

-- The loop of `dns_name_compare`. One round of fuel is one label or one compression pointer.
unfoldable pub compare_from : ℕ → List ℕ → ℕ → List ℕ → ℕ → ℕ → ℕ → Option ℕ → Compared
unfolding label_matches
compare_from zero bytes size name name_len pcmp pname end = looping
compare_from (suc fuel) bytes size name name_len pcmp pname end =
    let head = at bytes pcmp in
    let off = bit_and head 0x3f * 256 + at bytes (pcmp + 1) in
    let followed =
      compare_from fuel bytes size name name_len off pname (some (end_or end (pcmp + 1))) in
    let start = if pname == 0 then 0 else pname + 1 in
    let next_label =
      compare_from fuel bytes size name name_len (pcmp + 1 + head) (start + head) end in
    if head == 0
    then (if pname == name_len then same_name (end_or end pcmp + 1) else differs)
    else if bit_and head 0xc0 == 0xc0
    then (if ltb size (pcmp + 2) || ltb size (off + 1) then differs else followed)
    else if not (bit_and head 0xc0 == 0)
    then differs
    else if ltb size (pcmp + 1 + head + 1)
    then differs
    else if not (pname == 0) && not (at name pname == b'.')
    then differs
    else if ltb name_len (start + head)
    then differs
    else if label_matches head bytes (pcmp + 1) name start
    then next_label
    else differs

-- `dns_name_compare`
unfoldable pub name_compare : ℕ → List ℕ → ℕ → List ℕ → ℕ → ℕ → Compared
unfolding compare_from
name_compare fuel bytes size name name_len offset =
    if ltb size (offset + 1) || name_len == 0
    then differs
    else compare_from fuel bytes size name name_len offset 0 none

-- `dns_name_len`: each label takes the loop forward in the packet.
unfoldable pub name_len_from : ℕ → List ℕ → ℕ → ℕ → ℕ → Option ℕ
name_len_from zero bytes size offset pcmp = none
name_len_from (suc fuel) bytes size offset pcmp =
    let head = at bytes pcmp in
    let rest = name_len_from fuel bytes size offset (pcmp + 1 + head) in
    if head == 0
    then some (pcmp + 1 - offset)
    else if bit_and head 0xc0 == 0xc0
    then (if ltb size (pcmp + 2) then none else some (pcmp + 2 - offset))
    else if not (bit_and head 0xc0 == 0)
    then none
    else if ltb size (pcmp + 1 + head + 1)
    then none
    else rest

-- The fuel is enough: a round moves on by a byte at least, and stops at the end of the packet.
unfoldable pub name_len : List ℕ → ℕ → ℕ → Option ℕ
unfolding name_len_from
name_len bytes size offset =
    if ltb size (offset + 1) then none else name_len_from (size + 1) bytes size offset offset
