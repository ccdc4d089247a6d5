-- ===== src/Prelude/Stretches.antt =====
-- Lists that are cut into stretches.
use Prim.Native.Nat.{ℕ, zero, suc, ◌+◌, ◌-◌, ◌≤◌}
use mathlib.Core.Path.{◌≡◌, refl, sym, ap, ◌∙◌}
use mathlib.Core.List.{List, [], ◌∷◌, ◌++◌}
use native.Mathlib.Omega.{arith}
use libmobile.Prelude.Lists.{drop, drop_nil, length, take}

pub drop-add : (i j : ℕ) (xs : List ℕ) → drop (i + j) xs ≡ drop j (drop i xs)
drop-add zero j xs = ap (λ k. drop k xs) zero_add
  where
    zero_add : 0 + j ≡ j
    zero_add = omega arith
drop-add (suc i) j [] = drop_nil (suc i + j) ∙ sym (drop_nil j)
drop-add (suc i) j (x ∷ xs) = ap (λ k. drop k (x ∷ xs)) next_index ∙ drop-add i j xs
  where
    next_index : suc i + j ≡ suc (i + j)
    next_index = omega arith

pub drop-append : (xs ys : List ℕ) → drop (length xs) (xs ++ ys) ≡ ys
drop-append [] ys = refl
drop-append (x ∷ xs) ys = drop-append xs ys

pub take_nil : (k : ℕ) → take {A = ℕ} k [] ≡ []
take_nil zero = refl
take_nil (suc k) = refl

pub take_whole : (xs : List ℕ) → take (length xs) xs ≡ xs
take_whole [] = refl
take_whole (x ∷ xs) = ap (λ l. x ∷ l) (take_whole xs)

pub no_bytes : (xs : List ℕ) → length xs ≡ 0 → xs ≡ []
no_bytes [] h = refl
no_bytes (x ∷ xs) h = absurd (omega arith)

-- Two stretches, one behind the other
pub take-add : (m n : ℕ) (xs : List ℕ) → take m xs ++ take n (drop m xs) ≡ take (m + n) xs
take-add zero n xs = ap (λ k. take k xs) zero_add
  where
    zero_add : n ≡ 0 + n
    zero_add = omega arith
take-add (suc m) n [] = take_nil n ∙ sym (take_nil (suc m + n))
take-add (suc m) n (x ∷ xs) =
    ap (λ l. x ∷ l) (take-add m n xs) ∙ ap (λ k. take k (x ∷ xs)) next_size
  where
    next_size : suc (m + n) ≡ suc m + n
    next_size = omega arith

pub drop-take : (m n : ℕ) (xs : List ℕ) → m ≤ n → drop m (take n xs) ≡ take (n - m) (drop m xs)
drop-take zero n xs h = ap (λ k. take k xs) same_size
  where
    same_size : n ≡ n - 0
    same_size = omega arith
drop-take (suc m) zero xs h = absurd (omega arith)
drop-take (suc m) (suc n) [] h = sym (take_nil (suc n - suc m))
drop-take (suc m) (suc n) (x ∷ xs) h =
    drop-take m n xs (omega arith) ∙ ap (λ k. take k (drop m xs)) same_size
  where
    same_size : n - m ≡ suc n - suc m
    same_size = omega arith
