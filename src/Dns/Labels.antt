-- ===== src/Dns/Labels.antt =====
-- dns.c: names as sequences of labels, and how `dns_make_name` lays them out in a packet.
use libmobile.Prelude.{
  List, [], length, some, ℕ, ◌++◌, ◌+◌, ◌<◌, ◌∷◌, ◌≡◌, ◌≢◌, arith, copy, get_or-set_other,
  length-set, refl, set, ◌∙◌, ◌≤◌, Bool-cases, get_or-copy_self, get_or-set_self, inl, inr,
  length-copy, suc, ◌==◌,
}
use libmobile.Dns.Name.{at, make_labels, dns_packet_size, make_name}

-- What follows the first label in the text of a name
abbrev pub tail_of : List (List ℕ) → List ℕ
tail_of [] = []
tail_of (l ∷ ls) = b'.' ∷ (l ++ tail_of ls)

-- The text of a name
abbrev pub join : List (List ℕ) → List ℕ
join [] = []
join (l ∷ ls) = l ++ tail_of ls

-- The characters of a label: ASCII, and no dot
abbrev pub IsText : List ℕ → Type 0
IsText [] = Unit
IsText (c ∷ cs) = (c ≢ b'.') × (c < 0x80) × IsText cs

-- No label is empty or has a dot in it or a character that is not ASCII.
abbrev pub AreLabels : List (List ℕ) → Type 0
AreLabels [] = Unit
AreLabels (l ∷ ls) = (0 < length l) × IsText l × AreLabels ls

-- The labels as they stand in a packet from `p` on: each behind its length, and a zero at the end
abbrev pub Wire : List ℕ → ℕ → List (List ℕ) → Type 0
Wire bytes p [] = at bytes p ≡ 0
Wire bytes p (l ∷ ls) =
    (at bytes p ≡ length l)
    × (length l < 64)
    × ((k : ℕ) → k < length l → at bytes (p + 1 + k) ≡ at l k)
    × Wire bytes (p + 1 + length l) ls

-- How many bytes they take
abbrev pub wire_size : List (List ℕ) → ℕ
wire_size [] = 1
wire_size (l ∷ ls) = 1 + length l + wire_size ls

-- The steps of `make_labels`, where it succeeds
made_end :
    (bytes : List ℕ) (plen pdat count : ℕ) (bytes' : List ℕ) (end : ℕ)
    → make_labels bytes plen pdat count [] ≡ some (bytes', end)
    → (bytes' ≡ set (set bytes plen count) pdat 0) × (end ≡ pdat + 1) × (pdat < dns_packet_size)
unfolding make_labels
made_end bytes plen pdat count bytes' end e = ground arith

made_dot :
    (bytes : List ℕ) (plen pdat count : ℕ) (cs : List ℕ) (r : List ℕ × ℕ)
    → make_labels bytes plen pdat count (b'.' ∷ cs) ≡ some r
    → make_labels (set bytes plen count) pdat (pdat + 1) 0 cs ≡ some r
unfolding make_labels
made_dot bytes plen pdat count cs r e = ground arith

made_character :
    (bytes : List ℕ) (plen pdat count c : ℕ) (cs : List ℕ) (r : List ℕ × ℕ)
    → c ≢ b'.'
    → make_labels bytes plen pdat count (c ∷ cs) ≡ some r
    → (make_labels (set bytes pdat c) plen (pdat + 1) (count + 1) cs ≡ some r) × (count < 63)
unfolding make_labels
made_character bytes plen pdat count c cs r h e = ground arith

-- The bytes before the length of the label are left, and no byte is added.
record Keeps (bytes bytes' : List ℕ) (plen : ℕ) : Type 0 where
  size : length bytes' ≡ length bytes
  front : (j : ℕ) → j < plen → at bytes' j ≡ at bytes j

set-Keeps :
    (bytes bytes' : List ℕ) (i v plen plen' : ℕ)
    → plen ≤ i
    → plen ≤ plen'
    → Keeps (set bytes i v) bytes' plen'
    → Keeps bytes bytes' plen
set-Keeps bytes bytes' i v plen plen' h k m = record {
  size = m.size ∙ length-set bytes i v;
  front = λ j l. m.front j (omega arith) ∙ get_or-set_other bytes i j v (λ e. absurd (omega arith));
}

made-Keeps :
    (bytes : List ℕ) (plen pdat count : ℕ) (cs bytes' : List ℕ) (end : ℕ)
    → plen < pdat
    → make_labels bytes plen pdat count cs ≡ some (bytes', end)
    → Keeps bytes bytes' plen
made-Keeps bytes plen pdat count [] bytes' end h e =
    let same = (made_end bytes plen pdat count bytes' end e).0 in
    set-Keeps bytes bytes' plen count plen plen (omega arith) (omega arith) (
      set-Keeps (set bytes plen count) bytes' pdat 0 plen plen (omega arith) (omega arith)
        (rw same (record { size = refl; front = λ j l. refl })))
made-Keeps bytes plen pdat count (c ∷ cs) bytes' end h e = elim (Bool-cases (c == b'.')) [
  | inl t ↦
      let d : c ≡ b'.' = ground arith in
      set-Keeps bytes bytes' plen count plen pdat (omega arith) (omega arith) (
        made-Keeps (set bytes plen count) pdat (pdat + 1) 0 cs bytes' end (omega arith)
          (made_dot bytes plen pdat count cs _ (rw (← d) e)))
  | inr t ↦
      let d : c ≢ b'.' = ground arith in
      set-Keeps bytes bytes' pdat c plen plen (omega arith) (omega arith) (
        made-Keeps (set bytes pdat c) plen (pdat + 1) (count + 1) cs bytes' end (omega arith)
          (made_character bytes plen pdat count c cs _ d e).0)
]

-- A label is copied behind its length.
made_label :
    (bytes : List ℕ) (plen pdat count : ℕ) (l cs : List ℕ) (r : List ℕ × ℕ)
    → IsText l
    → count < 64
    → make_labels bytes plen pdat count (l ++ cs) ≡ some r
    → (make_labels (copy bytes pdat l) plen (pdat + length l) (count + length l) cs ≡ some r)
      × (count + length l < 64)
made_label bytes plen pdat count [] cs r h n e =
    let p : pdat + 0 ≡ pdat = omega arith in
    let q : count + 0 ≡ count = omega arith in rw (p, q) (e, n)
made_label bytes plen pdat count (c ∷ l) cs r h n e =
    let (next, m) = made_character bytes plen pdat count c (l ++ cs) r h.0 e in
    let rest =
      made_label (set bytes pdat c) plen (pdat + 1) (count + 1) l cs r h.2 (omega arith) next in
    let p : pdat + suc (length l) ≡ pdat + 1 + length l = omega arith in
    let q : count + suc (length l) ≡ count + 1 + length l = omega arith in
    let next_index : suc pdat ≡ pdat + 1 = omega arith in rw (p, q, next_index) rest

-- A label that has been laid out, and its length before it, which is written when it ends
label_laid :
    (bytes : List ℕ) (plen : ℕ) (l : List ℕ)
    → plen + 1 + length l ≤ length bytes
    → let laid = set (copy bytes (plen + 1) l) plen (length l) in
      (at laid plen ≡ length l) × ((k : ℕ) → k < length l → at laid (plen + 1 + k) ≡ at l k)
label_laid bytes plen l h =
    let copied = copy bytes (plen + 1) l in
    (
      get_or-set_self copied plen (length l) 0 (omega (arith, length-copy bytes (plen + 1) l)),
      λ k m.
          get_or-set_other copied plen (plen + 1 + k) (length l) (λ e. absurd (omega arith))
          ∙ get_or-copy_self bytes (plen + 1) l k m h,
    )

-- It stays when the rest of the name is laid out behind it.
label_kept :
    (bytes : List ℕ) (plen : ℕ) (l bytes' : List ℕ)
    → plen + 1 + length l ≤ length bytes
    → Keeps (set (copy bytes (plen + 1) l) plen (length l)) bytes' (plen + 1 + length l)
    → (at bytes' plen ≡ length l) × ((k : ℕ) → k < length l → at bytes' (plen + 1 + k) ≡ at l k)
label_kept bytes plen l bytes' h keeps =
    let laid = label_laid bytes plen l h in
    (
      keeps.front plen (omega arith) ∙ laid.0,
      λ k m. keeps.front (plen + 1 + k) (omega arith) ∙ laid.1 k m,
    )

-- The labels of a name, in the packet that `dns_make_name` makes
make_labels-Wire :
    (bytes : List ℕ) (plen : ℕ) (l : List ℕ) (ls : List (List ℕ)) (bytes' : List ℕ) (end : ℕ)
    → AreLabels (l ∷ ls)
    → length bytes ≡ dns_packet_size
    → make_labels bytes plen (plen + 1) 0 (l ++ tail_of ls) ≡ some (bytes', end)
    → Wire bytes' plen (l ∷ ls) × (end ≡ plen + wire_size (l ∷ ls)) × (end ≤ dns_packet_size)
make_labels-Wire bytes plen l [] bytes' end h n e =
    let zero_add : 0 + length l ≡ length l = omega arith in
    let (goes_on, short) =
      made_label bytes plen (plen + 1) 0 l [] (bytes', end) h.1 (omega arith) e in
    let behind = plen + 1 + length l in
    let laid = set (copy bytes (plen + 1) l) plen (length l) in
    let size =
      length-set (copy bytes (plen + 1) l) plen (length l) ∙ length-copy bytes (plen + 1) l in
    let finished =
      made_end (copy bytes (plen + 1) l) plen behind (length l) bytes' end
        (rw zero_add at goes_on) in
    let keeps : Keeps laid bytes' behind =
      set-Keeps laid bytes' behind 0 behind behind (omega arith) (omega arith)
        (rw finished.0 (record { size = refl; front = λ j k. refl })) in
    let label = label_kept bytes plen l bytes' (omega (arith, finished.2)) keeps in
    (
      (
        label.0,
        omega arith,
        label.1,
        rw finished.0 (get_or-set_self laid behind 0 0 (omega (arith, size, finished.2))),
      ),
      omega (arith, finished.1),
      omega (arith, finished.1, finished.2),
    )
make_labels-Wire bytes plen l (m ∷ ms) bytes' end h n e =
    let zero_add : 0 + length l ≡ length l = omega arith in
    let (goes_on, short) =
      made_label bytes plen (plen + 1) 0 l (tail_of (m ∷ ms)) (bytes', end) h.1 (omega arith) e in
    let behind = plen + 1 + length l in
    let copied = copy bytes (plen + 1) l in
    let laid = set copied plen (length l) in
    let size = length-set copied plen (length l) ∙ length-copy bytes (plen + 1) l in
    let next =
      made_dot copied plen behind (length l) (m ++ tail_of ms) (bytes', end)
        (rw zero_add at goes_on) in
    let (wire, ends, fits) = make_labels-Wire laid behind m ms bytes' end h.2 (size ∙ n) next in
    let keeps =
      made-Keeps laid behind (behind + 1) 0 (m ++ tail_of ms) bytes' end (omega arith) next in
    let label = label_kept bytes plen l bytes' (omega (arith, ends, fits)) keeps in
    ((label.0, omega arith, label.1, wire), omega (arith, ends), fits)

pub make_name-Wire :
    (bytes : List ℕ) (offset : ℕ) (l : List ℕ) (ls : List (List ℕ)) (bytes' : List ℕ) (end : ℕ)
    → AreLabels (l ∷ ls)
    → length bytes ≡ dns_packet_size
    → make_name bytes offset (join (l ∷ ls)) ≡ some (bytes', end)
    → Wire bytes' offset (l ∷ ls)
      × (end ≡ offset + wire_size (l ∷ ls))
      × (end ≤ dns_packet_size)
      × (length bytes' ≡ dns_packet_size)
unfolding make_name
make_name-Wire bytes offset l ls bytes' end a n e =
    let (wire, ends, fits) = make_labels-Wire bytes offset l ls bytes' end a n e in
    let keeps = made-Keeps bytes offset (offset + 1) 0 (join (l ∷ ls)) bytes' end (omega arith) e in
    (wire, ends, fits, keeps.size ∙ n)
