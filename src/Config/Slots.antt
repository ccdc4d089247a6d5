-- ===== src/Config/Slots.antt =====
-- config.c: the stretches of the stored bytes, and what writing leaves of them.
use libmobile.Prelude.{
  List, [], ap, arith, copy, copy-suc, copy-zero, drop, length, refl, set, suc, take, zero, ℕ, ◌+◌,
  ◌<◌, ◌∙◌, ◌∷◌, ◌≡◌, ◌≤◌, take_all-append, slice,
}

set_apart_drop : (xs : List ℕ) (i v from : ℕ) → i < from → drop from (set xs i v) ≡ drop from xs
set_apart_drop [] i v from h = refl
set_apart_drop (x ∷ xs) zero v (suc from) h = refl
set_apart_drop (x ∷ xs) (suc i) v (suc from) h = set_apart_drop xs i v from (omega arith)
set_apart_drop (x ∷ xs) i v zero h = absurd (omega arith)

set_apart_take : (xs : List ℕ) (i v size : ℕ) → size ≤ i → take size (set xs i v) ≡ take size xs
set_apart_take [] i v size h = refl
set_apart_take (x ∷ xs) i v zero h = refl
set_apart_take (x ∷ xs) (suc i) v (suc size) h =
    ap (λ l. x ∷ l) (set_apart_take xs i v size (omega arith))
set_apart_take (x ∷ xs) zero v (suc size) h = absurd (omega arith)

set_beyond :
    (xs : List ℕ) (i v from size : ℕ)
    → from + size ≤ i
    → slice (set xs i v) from size ≡ slice xs from size
set_beyond xs i v zero size h = set_apart_take xs i v size (omega arith)
set_beyond [] i v (suc from) size h = refl
set_beyond (x ∷ xs) (suc i) v (suc from) size h = set_beyond xs i v from size (omega arith)
set_beyond (x ∷ xs) zero v (suc from) size h = absurd (omega arith)

-- Writing before or behind a stretch leaves it.
pub set_before :
    (xs : List ℕ) (i v from size : ℕ) → i < from → slice (set xs i v) from size ≡ slice xs from size
set_before xs i v from size h = ap (take size) (set_apart_drop xs i v from h)

pub copy_before :
    (xs : List ℕ) (i : ℕ) (src : List ℕ) (from size : ℕ)
    → i + length src ≤ from
    → slice (copy xs i src) from size ≡ slice xs from size
copy_before xs i [] from size h = refl
copy_before xs i (y ∷ src) from size h =
    copy_before (set xs i y) (suc i) src from size (omega arith)
    ∙ set_before xs i y from size (omega arith)

pub copy_beyond :
    (xs : List ℕ) (i : ℕ) (src : List ℕ) (from size : ℕ)
    → from + size ≤ i
    → slice (copy xs i src) from size ≡ slice xs from size
copy_beyond xs i [] from size h = refl
copy_beyond xs i (y ∷ src) from size h =
    copy_beyond (set xs i y) (suc i) src from size (omega arith) ∙ set_beyond xs i y from size h

-- What has been written is read.
pub copy_self :
    (xs : List ℕ) (i : ℕ) (src : List ℕ)
    → i + length src ≤ length xs
    → slice (copy xs i src) i (length src) ≡ src
copy_self xs zero src h =
    ap (take (length src)) (copy-zero xs src (omega arith))
    ∙ take_all-append src (drop (length src) xs)
copy_self [] (suc i) [] h = refl
copy_self [] (suc i) (y ∷ src) h = absurd (omega arith)
copy_self (x ∷ xs) (suc i) src h =
    ap (λ l. take (length src) (drop (suc i) l)) (copy-suc x xs i src)
    ∙ copy_self xs i src (omega arith)
