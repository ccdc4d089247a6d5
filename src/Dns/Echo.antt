-- ===== src/Dns/Echo.antt =====
-- dns.c: a name that has been laid out in a packet is the one that is compared with.
use libmobile.Prelude.{
  List, arith, bit_and, if◌then◌else◌, none, refl, suc, true, zero, ℕ, ◌+◌, ◌<◌, ◌==◌, ◌≡◌, ◌≢◌,
  ◌≤◌, [], ap, drop, length, length-drop, sym, ◌++◌, ◌∙◌, ◌∷◌, length-append, some, Option, ◌*◌,
  ◌-◌, drop-add, drop-append,
}
use libmobile.Dns.Name.{
  at, compare_from, label_matches, same_name, dns_packet_size, make_name, name_compare, end_or,
}
use libmobile.Dns.Labels.{AreLabels, IsText, Wire, tail_of, wire_size, join, make_name-Wire}
use libmobile.Dns.Text.{at-append, at-drop, label_bits}

-- One label: it has to stand in the name too, from `start` on.
compare_label :
    (fuel : ℕ) (bytes : List ℕ) (size : ℕ) (name : List ℕ) (nlen pcmp pname len start : ℕ)
    (end : Option ℕ)
    → (start ≡ (if pname == 0 then 0 else pname + 1))
    → (pname ≢ 0 → at name pname ≡ b'.')
    → 0 < len
    → len < 64
    → at bytes pcmp ≡ len
    → label_matches len bytes (pcmp + 1) name start ≡ true
    → pcmp + len + 2 ≤ size
    → start + len ≤ nlen
    → compare_from (suc fuel) bytes size name nlen pcmp pname end
      ≡ compare_from fuel bytes size name nlen (pcmp + 1 + len) (start + len) end
unfolding compare_from
compare_label fuel bytes size name nlen pcmp pname len start end s d z n e m h k =
    let bits = label_bits len n in rw (e, bits, ← s, m) (ground arith)

label_matches_lem :
    (len : ℕ) (bytes : List ℕ) (pcmp : ℕ) (name : List ℕ) (pname : ℕ)
    → ((k : ℕ)
        → k < len
        → (at bytes (pcmp + k) ≡ at name (pname + k)) × (at name (pname + k) < 0x80))
    → label_matches len bytes pcmp name pname ≡ true
unfolding label_matches
label_matches_lem zero bytes pcmp name pname h = refl
label_matches_lem (suc len) bytes pcmp name pname h =
    let here : (i : ℕ) → i + 0 ≡ i = λ i. omega arith in
    let there : (i k : ℕ) → i + suc k ≡ i + 1 + k = λ i k. omega arith in
    let first = rw (here pcmp, here pname) at (h 0 (omega arith)) in
    let rest =
      label_matches_lem len bytes (pcmp + 1) name (pname + 1)
        (λ k m. rw (there pcmp k, there pname k) at (h (suc k) (omega arith))) in
    let (alike, ascii) = first in rw rest (ground arith)

-- The characters of a label are ASCII.
IsText-ascii : (l : List ℕ) (k : ℕ) → IsText l → k < length l → at l k < 0x80
IsText-ascii [] k h m = absurd (omega arith)
IsText-ascii (c ∷ l) zero h m = h.1
IsText-ascii (c ∷ l) (suc k) h m = IsText-ascii l k h.2 (omega arith)

pub wire_size_pos : (ls : List (List ℕ)) → 0 < wire_size ls
wire_size_pos [] = omega arith
wire_size_pos (l ∷ ls) = omega (arith, wire_size_pos ls)

-- What is left of the name at `start` begins with the label.
label_found :
    (l rest name bytes : List ℕ) (p start : ℕ)
    → IsText l
    → drop start name ≡ l ++ rest
    → ((k : ℕ) → k < length l → at bytes (p + k) ≡ at l k)
    → label_matches (length l) bytes p name start ≡ true
label_found l rest name bytes p start a d h =
    label_matches_lem (length l) bytes p name start (λ k m.
      let in_name : at l k ≡ at name (start + k) =
        sym (at-append l rest k m)
        ∙ ap (λ (xs : List ℕ). at xs k) (sym d)
        ∙ sym (at-drop start name k) in
      (h k m ∙ in_name, rw (← in_name) (IsText-ascii l k a m)))

-- A label is found, and the comparison goes on behind it.
compare_next :
    (fuel : ℕ) (bytes : List ℕ) (size : ℕ) (name : List ℕ) (pcmp pname start : ℕ) (l : List ℕ)
    (ls : List (List ℕ)) (end : Option ℕ)
    → (start ≡ (if pname == 0 then 0 else pname + 1))
    → (pname ≢ 0 → at name pname ≡ b'.')
    → AreLabels (l ∷ ls)
    → Wire bytes pcmp (l ∷ ls)
    → pcmp + wire_size (l ∷ ls) ≤ size
    → drop start name ≡ l ++ tail_of ls
    → (compare_from (suc fuel) bytes size name (length name) pcmp pname end
        ≡ compare_from fuel bytes size name
            (length name)
            (pcmp + 1 + length l)
            (start + length l)
            end)
      × (drop (start + length l) name ≡ tail_of ls)
      × (start + length l ≤ length name)
compare_next fuel bytes size name pcmp pname start l ls end s d a w n e =
    let left = length-drop start name in
    let lengths = ap length e ∙ length-append l (tail_of ls) in
    let fits : start + length l ≤ length name = omega (arith, left, lengths) in
    (
      compare_label fuel bytes size name (length name) pcmp pname (length l) start end s d a.0 w.1
          w.0 (label_found l (tail_of ls) name bytes (pcmp + 1) start a.1 e w.2)
          (omega (arith, wire_size_pos ls)) fits,
      drop-add start (length l) name ∙ ap (drop (length l)) e ∙ drop-append l (tail_of ls),
      fits,
    )

-- The labels behind the first one. The comparison ends at `end`, if it has followed a pointer.
compare-Wire :
    (fuel : ℕ) (bytes : List ℕ) (size : ℕ) (name : List ℕ) (pcmp pname : ℕ) (ls : List (List ℕ))
    (end : Option ℕ)
    → AreLabels ls
    → Wire bytes pcmp ls
    → pcmp + wire_size ls ≤ size
    → length ls < fuel
    → 0 < pname
    → pname ≤ length name
    → drop pname name ≡ tail_of ls
    → compare_from fuel bytes size name (length name) pcmp pname end
      ≡ same_name (end_or end (pcmp + wire_size ls - 1) + 1)
unfolding compare_from
compare-Wire zero bytes size name pcmp pname ls end a w n f p q d = absurd (omega arith)
compare-Wire (suc fuel) bytes size name pcmp pname [] end a w n f p q d =
    let left = length-drop pname name in
    let none_left = ap length d in
    let here : pcmp + 1 - 1 ≡ pcmp = omega arith in
    let ends : pname ≡ length name = omega (arith, left, none_left) in
    rw (w, ends, here) (ground arith)
compare-Wire (suc fuel) bytes size name pcmp pname (l ∷ ls) end a w n f p q d =
    let same : pname ≡ pname + 0 = omega arith in
    let dot : at name pname ≡ b'.' =
      ap (at name) same ∙ at-drop pname name 0 ∙ ap (λ (xs : List ℕ). at xs 0) d in
    let (onward, left, fits) =
      compare_next fuel bytes size name pcmp pname (pname + 1) l ls end (ground arith) (λ _. dot) a
        w n (drop-add pname 1 name ∙ ap (drop 1) d) in
    let total : pcmp + 1 + length l + wire_size ls - 1 ≡ pcmp + wire_size (l ∷ ls) - 1 =
      omega arith in
    onward
    ∙ compare-Wire fuel bytes size name (pcmp + 1 + length l) (pname + 1 + length l) ls end a.2 w.3
        (omega arith) (omega arith) (omega arith) fits left
    ∙ ap (λ k. same_name (end_or end k + 1)) total

-- A whole name
compare_whole :
    (fuel : ℕ) (bytes : List ℕ) (size pcmp : ℕ) (l : List ℕ) (ls : List (List ℕ)) (end : Option ℕ)
    → AreLabels (l ∷ ls)
    → Wire bytes pcmp (l ∷ ls)
    → pcmp + wire_size (l ∷ ls) ≤ size
    → length (l ∷ ls) < fuel
    → compare_from fuel bytes size (join (l ∷ ls)) (length (join (l ∷ ls))) pcmp 0 end
      ≡ same_name (end_or end (pcmp + wire_size (l ∷ ls) - 1) + 1)
compare_whole zero bytes size pcmp l ls end a w n f = absurd (omega arith)
compare_whole (suc fuel) bytes size pcmp l ls end a w n f =
    let (onward, left, fits) =
      compare_next fuel bytes size (join (l ∷ ls)) pcmp 0 0 l ls end refl (λ h. absurd (h refl)) a w
        n refl in
    let total : pcmp + 1 + length l + wire_size ls - 1 ≡ pcmp + wire_size (l ∷ ls) - 1 =
      omega arith in
    onward
    ∙ compare-Wire fuel bytes size (join (l ∷ ls)) (pcmp + 1 + length l) (0 + length l) ls end a.2
        w.3 (omega arith) (omega arith) (omega arith) fits left
    ∙ ap (λ k. same_name (end_or end k + 1)) total

name_pos : (l : List ℕ) (ls : List (List ℕ)) → 0 < length l → 0 < length (join (l ∷ ls))
name_pos l ls h = omega (arith, length-append l (tail_of ls))

-- A name that stands in the packet
pub name_compare-Wire :
    (fuel : ℕ) (bytes : List ℕ) (size offset : ℕ) (l : List ℕ) (ls : List (List ℕ))
    → AreLabels (l ∷ ls)
    → Wire bytes offset (l ∷ ls)
    → offset + wire_size (l ∷ ls) ≤ size
    → length (l ∷ ls) < fuel
    → name_compare fuel bytes size (join (l ∷ ls)) (length (join (l ∷ ls))) offset
      ≡ same_name (offset + wire_size (l ∷ ls))
unfolding name_compare
name_compare-Wire fuel bytes size offset l ls a w n f =
    let pos = name_pos l ls a.0 in
    let back : offset + wire_size (l ∷ ls) - 1 + 1 ≡ offset + wire_size (l ∷ ls) = omega arith in
    let whole = compare_whole fuel bytes size offset l ls none a w n f ∙ ap same_name back in
    ground (arith, whole)

-- A compression pointer to a name that stands in the packet
pub name_compare-pointer :
    (fuel : ℕ) (bytes : List ℕ) (size offset to : ℕ) (l : List ℕ) (ls : List (List ℕ))
    → AreLabels (l ∷ ls)
    → Wire bytes to (l ∷ ls)
    → to + wire_size (l ∷ ls) ≤ size
    → offset + 2 ≤ size
    → at bytes offset ≢ 0
    → bit_and (at bytes offset) 0xc0 ≡ 0xc0
    → bit_and (at bytes offset) 0x3f * 256 + at bytes (offset + 1) ≡ to
    → length (l ∷ ls) < fuel
    → name_compare (suc fuel) bytes size (join (l ∷ ls)) (length (join (l ∷ ls))) offset
      ≡ same_name (offset + 2)
unfolding name_compare compare_from
name_compare-pointer fuel bytes size offset to l ls a w n m z b o f =
    let pos = name_pos l ls a.0 in
    let back : offset + 1 + 1 ≡ offset + 2 = omega arith in
    let whole =
      compare_whole fuel bytes size to l ls (some (offset + 1)) a w n f ∙ ap same_name back in
    rw (b, o) (ground (arith, whole))

-- A name that `dns_make_name` has laid out in a packet, of at least one label, none of them empty and
-- all of ASCII characters, is found again by `dns_name_compare`, which ends behind the same byte, in as many rounds as there
-- are labels and one, whatever stands before the name or behind it.
pub name_compare-make_name :
    (fuel : ℕ) (bytes : List ℕ) (offset : ℕ) (l : List ℕ) (ls : List (List ℕ)) (bytes' : List ℕ)
    (end size : ℕ)
    → AreLabels (l ∷ ls)
    → length bytes ≡ dns_packet_size
    → make_name bytes offset (join (l ∷ ls)) ≡ some (bytes', end)
    → end ≤ size
    → length (l ∷ ls) < fuel
    → name_compare fuel bytes' size (join (l ∷ ls)) (length (join (l ∷ ls))) offset ≡ same_name end
name_compare-make_name fuel bytes offset l ls bytes' end size a n e m f =
    let (stands, ends, fits, size') = make_name-Wire bytes offset l ls bytes' end a n e in
    name_compare-Wire fuel bytes' size offset l ls a stands (omega (arith, ends)) f
    ∙ ap same_name (sym ends)
