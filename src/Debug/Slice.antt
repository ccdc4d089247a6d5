-- ===== src/Debug/Slice.antt =====
-- debug.c: the bytes of a packet, and the buffer that they are part of.
use libmobile.Prelude.{
  List, [], arith, get_or, refl, suc, take, zero, ℕ, ◌+◌, ◌<◌, ◌∷◌, ◌≡◌, ◌≤◌, slice, take-take,
}

pub get_or-take : (n : ℕ) (xs : List ℕ) (i : ℕ) → i < n → get_or (take n xs) i 0 ≡ get_or xs i 0
get_or-take zero xs i h = absurd (omega arith)
get_or-take (suc n) [] i h = refl
get_or-take (suc n) (x ∷ xs) zero h = refl
get_or-take (suc n) (x ∷ xs) (suc i) h = get_or-take n xs i (omega arith)

pub slice-take :
    (n : ℕ) (xs : List ℕ) (from size : ℕ)
    → from + size ≤ n
    → slice (take n xs) from size ≡ slice xs from size
slice-take n xs zero size h = take-take size n xs (omega arith)
slice-take zero xs (suc from) size h = absurd (omega arith)
slice-take (suc n) [] (suc from) size h = refl
slice-take (suc n) (x ∷ xs) (suc from) size h = slice-take n xs from size (omega arith)
