-- ===== src/Dns/Text.antt =====
-- dns.c: the bytes of a name, and the bits that tell a label from a pointer.
use libmobile.Prelude.{
  List, [], ap, arith, bit_and, drop, length, refl, suc, zero, ℕ, ◌++◌, ◌+◌, ◌<◌, ◌∙◌, ◌∷◌, ◌≡◌,
  ◌≤◌,
}
use libmobile.Dns.Name.{at}

-- The sum, over the numbers below `n`, of the bits that mark a compression pointer
pointer_bits : ℕ → ℕ
pointer_bits zero = 0
pointer_bits (suc n) = bit_and n 0xc0 + pointer_bits n

bit_and-pointer_bits : (x n : ℕ) → x < n → bit_and x 0xc0 ≤ pointer_bits n
unfolding pointer_bits
bit_and-pointer_bits x zero m = absurd (omega arith)
bit_and-pointer_bits x (suc n) m = ground (arith, bit_and-pointer_bits x n)

-- The length of a label is none of a compression pointer.
pub label_bits : (x : ℕ) → x < 64 → bit_and x 0xc0 ≡ 0
unfolding pointer_bits
label_bits x h = omega (arith, bit_and-pointer_bits x 64 h, the_sum)
  where
    the_sum : pointer_bits 64 ≡ 0
    the_sum = refl

pub at-drop : (i : ℕ) (xs : List ℕ) (k : ℕ) → at xs (i + k) ≡ at (drop i xs) k
at-drop zero xs k = ap (at xs) zero_add
  where
    zero_add : 0 + k ≡ k
    zero_add = omega arith
at-drop (suc i) [] k = refl
at-drop (suc i) (x ∷ xs) k = ap (at (x ∷ xs)) next_index ∙ at-drop i xs k
  where
    next_index : suc i + k ≡ suc (i + k)
    next_index = omega arith

pub at-append : (xs ys : List ℕ) (k : ℕ) → k < length xs → at (xs ++ ys) k ≡ at xs k
at-append [] ys k h = absurd (omega arith)
at-append (x ∷ xs) ys zero h = refl
at-append (x ∷ xs) ys (suc k) h = at-append xs ys k (omega arith)
