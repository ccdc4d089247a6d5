-- ===== src/Debug/Log.antt =====
-- debug.c: the log shows the text that has been printed, line by line.
use Prim.Native.String.{String}
use libmobile.Debug.Line.{
  Call, Debug, Log, call_debug, debug_endl, debug_print, debug_write, endl, print, run_debug, write,
  debug_buffer_size, put_text,
}
use libmobile.Debug.Text.{Holds, full-Holds, put-Holds}
use libmobile.Prelude.{
  List, [], arith, get_or, if◌then◌else◌, length, refl, suc, take, zero, ℕ, ◌++◌, ◌<◌, ◌==◌, ◌∷◌,
  ◌≡◌, ap, if_intro, leb, length-take, ◌-◌, ◌∙◌, ltb, min, sym, u8, ◌+◌, ◌≤◌, false, true,
}

-- A C string: the bytes before the first zero
abbrev pub until_zero : List ℕ → List ℕ
until_zero [] = []
until_zero (x ∷ xs) = let rest = until_zero xs in if x == 0 then [] else x ∷ rest

-- An embedding program that keeps the lines of the log
abbrev pub collecting : (String → List ℕ → List ℕ) → Log (List (List ℕ))
collecting vsnprintf = record {
  vsnprintf = vsnprintf;
  debug_log = λ lines line. until_zero line ∷ lines;
}

-- The log as it is meant: the text of the line that is put together, and the lines that are done,
-- the last one first. A line shows at most 79 bytes.
pub record Written : Type 0 where
  pub text : List ℕ
  pub lines : List (List ℕ)

module _ (vsnprintf : String → List ℕ → List ℕ) where
  abbrev pub written_call : Written → Call → Written
  written_call t (print fmt args) = record t { text = t.text ++ vsnprintf fmt args }
  written_call t (write bytes) = record t { text = t.text ++ bytes }
  written_call t endl = record { text = []; lines = until_zero (take 79 t.text) ∷ t.lines }

  abbrev pub written_by : Written → List Call → Written
  written_by t [] = t
  written_by t (c ∷ cs) = written_by (written_call t c) cs

  pub record Shows (s : Debug (List (List ℕ))) (t : Written) : Type 0 where
    pub holds : Holds s t.text
    pub logged : s.user ≡ t.lines

  -- No format makes a text so long that the index wraps.
  abbrev pub IsShort : Call → Type 0
  IsShort (print fmt args) = length (vsnprintf fmt args) < 177
  IsShort (write bytes) = Unit
  IsShort endl = Unit

  abbrev pub AllShort : List Call → Type 0
  AllShort [] = Unit
  AllShort (c ∷ cs) = IsShort c × AllShort cs

until_zero_at :
    (xs : List ℕ) (n : ℕ)
    → n < length xs
    → get_or xs n 0 ≡ 0
    → until_zero xs ≡ until_zero (take n xs)
until_zero_at [] n h e = absurd (omega arith)
until_zero_at (x ∷ xs) zero h e = ground arith
until_zero_at (x ∷ xs) (suc n) h e = rw (until_zero_at xs n (omega arith) e) refl

room_left : (c : ℕ) → leb (debug_buffer_size - c) 1 ≡ false → c < 79
room_left c e = ground arith

no_room : (c n : ℕ) → leb (debug_buffer_size - c) 1 ≡ true → c ≡ min 79 n → 79 ≤ n
no_room c n e k = let full : debug_buffer_size - c ≤ 1 = ground arith in omega arith

write_current :
    (c k n : ℕ)
    → c < 79
    → k ≡ min (debug_buffer_size - c - 1) n
    → u8 (c + (if ltb (debug_buffer_size - c - 1) n then debug_buffer_size - c - 1 else n)) ≡ c + k
write_current c k n h e =
    if_intro (λ w. u8 (c + w) ≡ c + k) (ltb (debug_buffer_size - c - 1) n)
      (λ z. let less : debug_buffer_size - c - 1 < n = ground arith in omega arith)
      (λ z. let more : n ≤ debug_buffer_size - c - 1 = ground arith in omega arith)

print_current :
    (c k n : ℕ)
    → c < 79
    → n < 177
    → k ≡ min (debug_buffer_size - c - 1) n
    → (if leb debug_buffer_size (u8 (c + n)) then debug_buffer_size - 1 else u8 (c + n)) ≡ c + k
print_current c k n h m e =
    if_intro (λ w. w ≡ c + k) (leb debug_buffer_size (u8 (c + n)))
      (λ z. let less : debug_buffer_size ≤ u8 (c + n) = ground arith in omega arith)
      (λ z. let more : u8 (c + n) < debug_buffer_size = ground arith in omega arith)

module _ {W : Type 0} where
  Holds-at :
      (s : Debug W) (bytes : List ℕ) (m n : ℕ) (text : List ℕ)
      → m ≡ n
      → Holds (record s { buffer = bytes; current = n }) text
      → Holds (record s { buffer = bytes; current = m }) text
  Holds-at s bytes m n text e h = rw e h

  write-Holds :
      (s : Debug W) (text more : List ℕ) → Holds s text → Holds (debug_write s more) (text ++ more)
  unfolding debug_write
  write-Holds s text more h =
      let wide = length-take (debug_buffer_size - s.current - 1) more in
      let c = h.current in
      if_intro (λ (r : Debug W). Holds r (text ++ more)) (leb (debug_buffer_size - s.current) 1)
        (λ e. full-Holds s text more h (no_room s.current (length text) e c))
        (λ e.
          let room = room_left s.current e in
          Holds-at s (put_text s more) _ _ (text ++ more)
            (write_current s.current _ (length more) room wide)
            (put-Holds s text more h (omega arith)))

  print-Holds :
      (s : Debug W) (text more : List ℕ)
      → Holds s text
      → length more < 177
      → Holds (debug_print s more) (text ++ more)
  unfolding debug_print
  print-Holds s text more h n =
      let wide = length-take (debug_buffer_size - s.current - 1) more in
      let c = h.current in
      if_intro (λ (r : Debug W). Holds r (text ++ more)) (leb (debug_buffer_size - s.current) 1)
        (λ e. full-Holds s text more h (no_room s.current (length text) e c))
        (λ e.
          let room = room_left s.current e in
          let put = put-Holds s text more h (omega arith) in
          if_intro (λ (r : Debug W). Holds r (text ++ more)) (length more == 0)
            (λ z.
              let none : length more ≡ 0 = ground arith in
              Holds-at s (put_text s more) _ _ (text ++ more) (omega arith) put)
            (λ _.
              Holds-at s (put_text s more) _ _ (text ++ more)
                (print_current s.current _ (length more) room n wide) put))

module _ (vsnprintf : String → List ℕ → List ℕ) where
  endl-Shows :
      (s : Debug (List (List ℕ))) (t : Written)
      → Shows vsnprintf s t
      → Shows vsnprintf (debug_endl (collecting vsnprintf) s) (written_call vsnprintf t endl)
  unfolding debug_endl
  endl-Shows s t h =
      let held = h.holds in
      let here = held.current in
      let shown : until_zero (if s.current == 0 then 0 ∷ [] else s.buffer)
          ≡ until_zero (take 79 t.text) =
        if_intro (λ l. until_zero l ≡ until_zero (take 79 t.text)) (s.current == 0)
          (λ e.
            let start : s.current ≡ 0 = ground arith in
            ap until_zero (sym (ap (λ n. take n s.buffer) start) ∙ held.bytes))
          (λ e.
            until_zero_at s.buffer s.current (ground (arith, held.size)) (held.ended (ground arith))
            ∙ ap until_zero held.bytes) in
      record {
        holds = record {
          size = held.size;
          current = refl;
          bytes = refl;
          ended = λ e. absurd (omega arith);
        };
        logged = rw (shown, h.logged) refl;
      }

  write_user : (s : Debug (List (List ℕ))) (bytes : List ℕ) → (debug_write s bytes).user ≡ s.user
  unfolding debug_write
  write_user s bytes = ground arith

  print_user : (s : Debug (List (List ℕ))) (text : List ℕ) → (debug_print s text).user ≡ s.user
  unfolding debug_print
  print_user s text = ground arith

  call_debug-Shows :
      (s : Debug (List (List ℕ))) (t : Written) (c : Call)
      → Shows vsnprintf s t
      → IsShort vsnprintf c
      → Shows vsnprintf (call_debug (collecting vsnprintf) s c) (written_call vsnprintf t c)
  unfolding call_debug
  call_debug-Shows s t (print fmt args) h n = record {
    holds = print-Holds s t.text (vsnprintf fmt args) h.holds n;
    logged = print_user s (vsnprintf fmt args) ∙ h.logged;
  }
  call_debug-Shows s t (write bytes) h n = record {
    holds = write-Holds s t.text bytes h.holds;
    logged = write_user s bytes ∙ h.logged;
  }
  call_debug-Shows s t endl h n = endl-Shows s t h

  pub run_debug-Shows :
      (s : Debug (List (List ℕ))) (t : Written) (cs : List Call)
      → Shows vsnprintf s t
      → AllShort vsnprintf cs
      → Shows vsnprintf (run_debug (collecting vsnprintf) s cs) (written_by vsnprintf t cs)
  unfolding run_debug
  run_debug-Shows s t [] h n = h
  run_debug-Shows s t (c ∷ cs) h n =
      run_debug-Shows (call_debug (collecting vsnprintf) s c) (written_call vsnprintf t c) cs
        (call_debug-Shows s t c h n.0) n.1
