-- ===== src/Dns/Defects.antt =====
-- dns.c: what a response can do to the loops over it.
use native.Mathlib.Nat.{suc-add}
use libmobile.Adapter.{BufferDns}
use libmobile.Prelude.{
  List, Option, arith, bit_and, inl, inr, none, refl, some, suc, zero, ℕ, ◌*◌, ◌+◌, ◌<◌, ◌≡◌, ◌≢◌,
  ◌≤◌, ◌⊎◌,
}
use libmobile.Dns.Name.{
  at, compare_from, differs, end_or, looping, name_compare, name_len, name_len_from,
}
use libmobile.Dns.Query.{broken, find_answer, get_answer, passed}

-- A compression pointer at `offset` that points to itself
abbrev pub PointsToItself : List ℕ → ℕ → ℕ → Type 0
PointsToItself bytes size offset =
    (at bytes offset ≢ 0)
    × (bit_and (at bytes offset) 0xc0 ≡ 0xc0)
    × (bit_and (at bytes offset) 0x3f * 256 + at bytes (offset + 1) ≡ offset)
    × (offset + 2 ≤ size)

-- On a name that is a compression pointer to itself the loop of `dns_name_compare` never ends: no
-- number of rounds is enough, whatever the name it is compared with.
pub compare_from-self_pointer :
    (fuel : ℕ) (bytes : List ℕ) (size : ℕ) (name : List ℕ) (name_len offset pname : ℕ)
    (end : Option ℕ)
    → PointsToItself bytes size offset
    → compare_from fuel bytes size name name_len offset pname end ≡ looping
unfolding compare_from
compare_from-self_pointer zero bytes size name name_len offset pname end h = refl
compare_from-self_pointer (suc fuel) bytes size name name_len offset pname end h = ground (
  arith,
  compare_from-self_pointer fuel bytes size name name_len offset pname
      (some (end_or end (offset + 1))) h,
)

-- The name of the answer at `offset` is another one.
abbrev pub NameDiffers : ℕ → BufferDns → ℕ → List ℕ → ℕ → Type 0
NameDiffers fuel b offset name nlen = name_compare fuel b.bytes b.size name nlen offset ≡ differs

get_answer_differs :
    (fuel : ℕ) (b : BufferDns) (offset : ℕ) (name : List ℕ) (nlen : ℕ)
    → NameDiffers fuel b offset name nlen
    → (get_answer fuel b offset name nlen ≡ broken)
      ⊎ (get_answer fuel b offset name nlen ≡ passed offset)
unfolding get_answer
get_answer_differs fuel b offset name nlen h = ground arith

-- An answer for another name is not skipped: the loop reads it again in every round, so that the
-- answers behind it are never reached, however many the response has.
pub find_answer-NameDiffers :
    (fuel ancount : ℕ) (b : BufferDns) (offset : ℕ) (name : List ℕ) (nlen : ℕ)
    → NameDiffers fuel b offset name nlen
    → find_answer fuel ancount b offset name nlen ≡ some none
unfolding find_answer
find_answer-NameDiffers fuel zero b offset name nlen h = refl
find_answer-NameDiffers fuel (suc n) b offset name nlen h =
    elim (get_answer_differs fuel b offset name nlen h) [
      | inl e ↦ rw (e, find_answer)
      | inr e ↦ rw (e, find_answer) (find_answer-NameDiffers fuel n b offset name nlen h)
    ]

-- `dns_name_len` ends for every packet: with the fuel it is given its loop never runs out, so
-- that more fuel changes nothing.
pub name_len_from_enough :
    (fuel more : ℕ) (bytes : List ℕ) (size offset pcmp : ℕ)
    → size < fuel + pcmp
    → pcmp < size
    → name_len_from fuel bytes size offset pcmp ≡ name_len_from (fuel + more) bytes size offset pcmp
unfolding name_len_from
name_len_from_enough zero more bytes size offset pcmp h k = absurd (omega arith)
name_len_from_enough (suc fuel) more bytes size offset pcmp h k =
    let ih = name_len_from_enough fuel more bytes size offset (pcmp + 1 + at bytes pcmp) in
    rw suc-add (ground (arith, ih))
