-- ===== src/Prelude/Lists.antt =====
-- Lists measured and indexed by native numbers, and lists of bytes.
use Prim.Native.Nat.{ℕ, zero, suc, ◌+◌, ◌-◌, ◌%◌, ◌^◌, ◌≤◌, ◌<◌, min}
use mathlib.Core.Path.{◌≡◌, refl, ap, ◌∙◌}
use mathlib.Core.List.{List, [], ◌∷◌, ◌++◌}
use mathlib.Core.Logic.{◌≢◌}
use native.Mathlib.Omega.{arith}

module _ {ℓ} {A : Type ℓ} where
  abbrev pub length : List A → ℕ
  length [] = 0
  length (x ∷ xs) = suc (length xs)

  -- A write out of bounds changes nothing.
  abbrev pub set : List A → ℕ → A → List A
  set [] i v = []
  set (x ∷ xs) zero v = v ∷ xs
  set (x ∷ xs) (suc i) v = x ∷ set xs i v

  abbrev pub get_or : List A → ℕ → A → A
  get_or [] i d = d
  get_or (x ∷ xs) zero d = x
  get_or (x ∷ xs) (suc i) d = get_or xs i d

  abbrev pub take : ℕ → List A → List A
  take zero xs = []
  take (suc n) [] = []
  take (suc n) (x ∷ xs) = x ∷ take n xs

  abbrev pub drop : ℕ → List A → List A
  drop zero xs = xs
  drop (suc n) [] = []
  drop (suc n) (x ∷ xs) = drop n xs

  abbrev pub replicate : ℕ → A → List A
  replicate zero a = []
  replicate (suc n) a = a ∷ replicate n a

  pub length-append : (xs ys : List A) → length (xs ++ ys) ≡ length xs + length ys
  length-append [] ys = omega arith
  length-append (x ∷ xs) ys = omega (arith, length-append xs ys)

  pub length-set : (xs : List A) (i : ℕ) (v : A) → length (set xs i v) ≡ length xs
  length-set [] i v = refl
  length-set (x ∷ xs) zero v = refl
  length-set (x ∷ xs) (suc i) v = ap suc (length-set xs i v)

  pub get_or-set_self :
      (xs : List A) (i : ℕ) (v d : A) → i < length xs → get_or (set xs i v) i d ≡ v
  get_or-set_self [] i v d h = absurd (omega arith)
  get_or-set_self (x ∷ xs) zero v d h = refl
  get_or-set_self (x ∷ xs) (suc i) v d h = get_or-set_self xs i v d (omega arith)

  pub length-take : (n : ℕ) (xs : List A) → length (take n xs) ≡ min n (length xs)
  length-take zero xs = omega arith
  length-take (suc n) [] = omega arith
  length-take (suc n) (x ∷ xs) = omega (arith, length-take n xs)

  pub length-drop : (n : ℕ) (xs : List A) → length (drop n xs) ≡ length xs - n
  length-drop zero xs = omega arith
  length-drop (suc n) [] = omega arith
  length-drop (suc n) (x ∷ xs) = omega (arith, length-drop n xs)

  pub length-replicate : (n : ℕ) (a : A) → length (replicate n a) ≡ n
  length-replicate zero a = refl
  length-replicate (suc n) a = ap suc (length-replicate n a)

  -- `memcpy(dest + i, src, length src)`: what does not fit is dropped.
  abbrev pub copy : List A → ℕ → List A → List A
  copy dest i [] = dest
  copy dest i (x ∷ xs) = copy (set dest i x) (suc i) xs

-- `size` bytes from `from` on
abbrev pub slice : List ℕ → ℕ → ℕ → List ℕ
slice data' from size = take size (drop from data')

pub take-take : (m n : ℕ) (xs : List ℕ) → m ≤ n → take m (take n xs) ≡ take m xs
take-take zero n xs h = refl
take-take (suc m) zero xs h = absurd (omega arith)
take-take (suc m) (suc n) [] h = refl
take-take (suc m) (suc n) (x ∷ xs) h = ap (λ l. x ∷ l) (take-take m n xs (omega arith))

-- Every element is a byte.
abbrev pub Bytes : List ℕ → Type 0
Bytes [] = Unit
Bytes (x ∷ xs) = (x < 256) × Bytes xs

pub set-Bytes : (xs : List ℕ) (i v : ℕ) → Bytes xs → v < 256 → Bytes (set xs i v)
set-Bytes [] i v h hv = h
set-Bytes (x ∷ xs) zero v h hv = (hv, h.1)
set-Bytes (x ∷ xs) (suc i) v h hv = (h.0, set-Bytes xs i v h.1 hv)

pub get_or-lt : (xs : List ℕ) (i : ℕ) → Bytes xs → get_or xs i 0 < 256
get_or-lt [] i h = omega arith
get_or-lt (x ∷ xs) zero h = h.0
get_or-lt (x ∷ xs) (suc i) h = get_or-lt xs i h.1

abbrev pub sum : List ℕ → ℕ
sum [] = 0
sum (x ∷ xs) = x + sum xs

pub sum-append : (xs ys : List ℕ) → sum (xs ++ ys) ≡ sum xs + sum ys
sum-append [] ys = omega arith
sum-append (x ∷ xs) ys = omega (arith, sum-append xs ys)

module _ {ℓ} {A : Type ℓ} where
  pub copy-suc :
      (x : A) (dest : List A) (i : ℕ) (src : List A)
      → copy (x ∷ dest) (suc i) src ≡ x ∷ copy dest i src
  copy-suc x dest i [] = refl
  copy-suc x dest i (y ∷ src) = copy-suc x (set dest i y) (suc i) src

  -- Writing a list to the front replaces just its stretch.
  pub copy-zero :
      (dest src : List A)
      → length src ≤ length dest
      → copy dest 0 src ≡ src ++ drop (length src) dest
  copy-zero dest [] h = refl
  copy-zero [] (y ∷ src) h = absurd (omega arith)
  copy-zero (x ∷ dest) (y ∷ src) h =
      copy-suc y dest 0 src ∙ ap (λ l. y ∷ l) (copy-zero dest src (omega arith))

  pub set_four :
      (xs : List A) (a b c d : A)
      → length xs ≡ 4
      → set (set (set (set xs 0 a) 1 b) 2 c) 3 d ≡ a ∷ b ∷ c ∷ d ∷ []
  set_four [] a b c d h = absurd (omega arith)
  set_four (x ∷ []) a b c d h = absurd (omega arith)
  set_four (x ∷ y ∷ []) a b c d h = absurd (omega arith)
  set_four (x ∷ y ∷ z ∷ []) a b c d h = absurd (omega arith)
  set_four (x ∷ y ∷ z ∷ w ∷ []) a b c d h = refl
  set_four (x ∷ y ∷ z ∷ w ∷ v ∷ xs) a b c d h = absurd (omega arith)

  pub set_two : (xs : List A) (a b : A) → length xs ≡ 2 → set (set xs 0 a) 1 b ≡ a ∷ b ∷ []
  set_two [] a b h = absurd (omega arith)
  set_two (x ∷ []) a b h = absurd (omega arith)
  set_two (x ∷ y ∷ []) a b h = refl
  set_two (x ∷ y ∷ z ∷ xs) a b h = absurd (omega arith)

pub take-drop-suc :
    (n i : ℕ) (xs : List ℕ)
    → i < length xs
    → take (suc n) (drop i xs) ≡ get_or xs i 0 ∷ take n (drop (i + 1) xs)
take-drop-suc n i [] h = absurd (omega arith)
take-drop-suc n zero (x ∷ xs) h = refl
take-drop-suc n (suc i) (x ∷ xs) h =
    take-drop-suc n i xs (omega arith)
    ∙ ap (λ k. get_or xs i 0 ∷ take n (drop k (x ∷ xs))) drop_index
  where
    drop_index : suc (i + 1) ≡ suc i + 1
    drop_index = omega arith

module _ {ℓ} {A : Type ℓ} where
  pub take_all-append : (xs ys : List A) → take (length xs) (xs ++ ys) ≡ xs
  take_all-append [] ys = refl
  take_all-append (x ∷ xs) ys = ap (λ l. x ∷ l) (take_all-append xs ys)

sum-set : (xs : List ℕ) (i v : ℕ) → i < length xs → sum (set xs i v) + get_or xs i 0 ≡ sum xs + v
sum-set [] i v h = absurd (omega arith)
sum-set (x ∷ xs) zero v h = omega arith
sum-set (x ∷ xs) (suc i) v h = let rest = sum-set xs i v (omega arith) in omega arith

-- Changing one byte changes the 16-bit sum.
pub sum_changed :
    (k : ℕ) (xs : List ℕ) (i v : ℕ)
    → i < length xs
    → get_or xs i 0 < 256
    → v < 256
    → v ≢ get_or xs i 0
    → (k + sum (set xs i v)) % 2 ^ 16 ≢ (k + sum xs) % 2 ^ 16
sum_changed k xs i v n h m d e = let moved = sum-set xs i v n in absurd (omega arith)

pub length-copy : (xs : List ℕ) (i : ℕ) (src : List ℕ) → length (copy xs i src) ≡ length xs
length-copy xs i [] = refl
length-copy xs i (y ∷ src) = length-copy (set xs i y) (suc i) src ∙ length-set xs i y

pub get_or-set_other : (xs : List ℕ) (i j v : ℕ) → i ≢ j → get_or (set xs i v) j 0 ≡ get_or xs j 0
get_or-set_other [] i j v h = refl
get_or-set_other (x ∷ xs) zero zero v h = absurd (h refl)
get_or-set_other (x ∷ xs) zero (suc j) v h = refl
get_or-set_other (x ∷ xs) (suc i) zero v h = refl
get_or-set_other (x ∷ xs) (suc i) (suc j) v h = get_or-set_other xs i j v (λ e. h (ap suc e))

-- Writing at `i` leaves what stands before it.
pub get_or-copy_before :
    (xs : List ℕ) (i : ℕ) (src : List ℕ) (j : ℕ)
    → j < i
    → get_or (copy xs i src) j 0 ≡ get_or xs j 0
get_or-copy_before xs i [] j h = refl
get_or-copy_before xs i (y ∷ src) j h =
    get_or-copy_before (set xs i y) (suc i) src j (omega arith)
    ∙ get_or-set_other xs i j y (λ e. absurd (omega arith))

-- What is written at `i` is read there.
pub get_or-copy_self :
    (xs : List ℕ) (i : ℕ) (src : List ℕ) (k : ℕ)
    → k < length src
    → i + length src ≤ length xs
    → get_or (copy xs i src) (i + k) 0 ≡ get_or src k 0
get_or-copy_self xs i [] k h n = absurd (omega arith)
get_or-copy_self xs i (y ∷ src) zero h n =
    ap (λ j. get_or (copy (set xs i y) (suc i) src) j 0) same_index
    ∙ get_or-copy_before (set xs i y) (suc i) src i (omega arith)
    ∙ get_or-set_self xs i y 0 (omega arith)
  where
    same_index : i + 0 ≡ i
    same_index = omega arith
get_or-copy_self xs i (y ∷ src) (suc k) h n =
    ap (λ j. get_or (copy (set xs i y) (suc i) src) j 0) next_index
    ∙ get_or-copy_self (set xs i y) (suc i) src k (omega arith) (omega (arith, length-set xs i y))
  where
    next_index : i + suc k ≡ suc i + k
    next_index = omega arith

pub drop_nil : (k : ℕ) → drop {A = ℕ} k [] ≡ []
drop_nil zero = refl
drop_nil (suc k) = refl
