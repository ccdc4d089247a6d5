-- ===== src/Debug/Text.antt =====
-- debug.c: what the buffer of a line holds.
use libmobile.Debug.Line.{Debug, debug_buffer_size, put_text}
use libmobile.Prelude.{
  List, [], ap, append-nil, append_assoc, arith, copy, get_or, get_or-set_self, length,
  length-append, length-set, length-take, min, refl, set, suc, sym, take, zero, ℕ, ◌++◌, ◌+◌, ◌-◌,
  ◌<◌, ◌∙◌, ◌∷◌, ◌≡◌, ◌≤◌, length-copy,
}

take-set_after : (xs : List ℕ) (n j v : ℕ) → n ≤ j → take n (set xs j v) ≡ take n xs
take-set_after xs zero j v h = refl
take-set_after [] (suc n) j v h = refl
take-set_after (x ∷ xs) (suc n) zero v h = absurd (omega arith)
take-set_after (x ∷ xs) (suc n) (suc j) v h =
    ap (λ l. x ∷ l) (take-set_after xs n j v (omega arith))

take-set :
    (xs : List ℕ) (i v : ℕ) → i < length xs → take (suc i) (set xs i v) ≡ take i xs ++ (v ∷ [])
take-set [] i v h = absurd (omega arith)
take-set (x ∷ xs) zero v h = refl
take-set (x ∷ xs) (suc i) v h = ap (λ l. x ∷ l) (take-set xs i v (omega arith))

-- What has been copied stands behind what was there before.
take-copy :
    (dest : List ℕ) (i : ℕ) (src : List ℕ)
    → i + length src ≤ length dest
    → take (i + length src) (copy dest i src) ≡ take i dest ++ src
take-copy dest i [] h = rw (append-nil (take i dest)) (ap (λ n. take n dest) (omega arith))
take-copy dest i (x ∷ src) h =
    let same = length-set dest i x in
    ap (λ n. take n (copy (set dest i x) (suc i) src)) (omega arith)
    ∙ take-copy (set dest i x) (suc i) src (omega arith)
    ∙ ap (λ l. l ++ src) (take-set dest i x (omega arith))
    ∙ append_assoc (take i dest) (x ∷ []) src

take_long : (n : ℕ) (xs ys : List ℕ) → n ≤ length xs → take n (xs ++ ys) ≡ take n xs
take_long zero xs ys h = refl
take_long (suc n) [] ys h = absurd (omega arith)
take_long (suc n) (x ∷ xs) ys h = ap (λ l. x ∷ l) (take_long n xs ys (omega arith))

take_short :
    (n : ℕ) (xs ys : List ℕ) → length xs ≤ n → take n (xs ++ ys) ≡ xs ++ take (n - length xs) ys
take_short n [] ys h = ap (λ m. take m ys) (omega arith)
take_short zero (x ∷ xs) ys h = absurd (omega arith)
take_short (suc n) (x ∷ xs) ys h =
    ap (λ l. x ∷ l) (take_short n xs ys (omega arith) ∙ ap (λ m. xs ++ take m ys) (omega arith))

take_enough : (n : ℕ) (xs : List ℕ) → length xs ≤ n → take n xs ≡ xs
take_enough zero [] h = refl
take_enough (suc n) [] h = refl
take_enough zero (x ∷ xs) h = absurd (omega arith)
take_enough (suc n) (x ∷ xs) h = ap (λ l. x ∷ l) (take_enough n xs (omega arith))

-- The buffer holds the first 79 bytes of `text`, and the zero that ends them.
pub record Holds {W : Type 0} (s : Debug W) (text : List ℕ) : Type 0 where
  pub size : length s.buffer ≡ debug_buffer_size
  pub current : s.current ≡ min 79 (length text)
  pub bytes : take s.current s.buffer ≡ take 79 text
  pub ended : 0 < s.current → get_or s.buffer s.current 0 ≡ 0

module _ {W : Type 0} where
  -- A line that is full takes up nothing more.
  pub full-Holds :
      (s : Debug W) (text more : List ℕ) → Holds s text → 79 ≤ length text → Holds s (text ++ more)
  full-Holds s text more h n =
      let joined = length-append text more in
      record {
        size = h.size;
        current = omega (arith, h.current);
        bytes = h.bytes ∙ sym (take_long 79 text more n);
        ended = h.ended;
      }

  -- What `put_text` puts behind a line that is not full.
  pub put-Holds :
      (s : Debug W) (text more : List ℕ)
      → Holds s text
      → length text < 79
      → Holds
          (record s {
            buffer = put_text s more;
            current = s.current + length (take (debug_buffer_size - s.current - 1) more);
          })
          (text ++ more)
  put-Holds s text more h n =
      let written = take (debug_buffer_size - s.current - 1) more in
      let wide = length-take (debug_buffer_size - s.current - 1) more in
      let joined = length-append text more in
      let c = h.current in
      let here : s.current ≡ length text = omega arith in
      let size = length-copy s.buffer s.current written in
      let end = s.current + length written in
      record {
        size = length-set (copy s.buffer s.current written) end 0 ∙ size ∙ h.size;
        current = omega arith;
        bytes =
            take-set_after (copy s.buffer s.current written) end end 0 (omega arith)
            ∙ take-copy s.buffer s.current written (omega (arith, h.size))
            ∙ ap (λ l. l ++ written) (h.bytes ∙ take_enough 79 text (omega arith))
            ∙ ap (λ m. text ++ take m more) (omega (arith, here))
            ∙ sym (take_short 79 text more (omega arith));
        ended =
            λ _. get_or-set_self (copy s.buffer s.current written) end 0 0 (omega (arith, h.size));
      }
