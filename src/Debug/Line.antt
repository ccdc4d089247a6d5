-- ===== src/Debug/Line.antt =====
-- debug.c: the buffer in which a line of the log is put together.
use Prim.Native.String.{String}
use libmobile.Prelude.{
  List, [], copy, if◌then◌else◌, leb, length, ltb, set, take, u8, ℕ, ◌+◌, ◌-◌, ◌==◌, ◌∷◌,
}

-- MOBILE_DEBUG_BUFFER_SIZE
abbrev pub debug_buffer_size : ℕ
debug_buffer_size = 80

-- `struct mobile_adapter_debug`, and the state of the embedding program
pub record Debug (W : Type 0) : Type 0 where
  pub current : ℕ  -- unsigned char
  pub buffer : List ℕ  -- char[MOBILE_DEBUG_BUFFER_SIZE]
  pub user : W

-- What is not in the source: `vsnprintf`, as the whole text that a format and its arguments make
-- (it is taken not to fail),
-- and the `debug_log` of the embedding program, which is given the buffer.
pub record Log (W : Type 0) : Type 0 where
  pub vsnprintf : String → List ℕ → List ℕ
  pub debug_log : W → List ℕ → W

module _ {W : Type 0} where
  unfoldable pub debug_init : Debug W → Debug W
  debug_init s = record s { current = 0 }

  -- `memcpy(s->buffer + s->current, data, written); s->buffer[s->current + written] = 0;`, which
  -- is what `vsnprintf` does too
  abbrev pub put_text : Debug W → List ℕ → List ℕ
  put_text s text =
      let written = take (debug_buffer_size - s.current - 1) text in
      set (copy s.buffer s.current written) (s.current + length written) 0

  -- `mobile_debug_write`
  unfoldable pub debug_write : Debug W → List ℕ → Debug W
  debug_write s bytes =
      let remaining = debug_buffer_size - s.current in
      let written = if ltb (remaining - 1) (length bytes) then remaining - 1 else length bytes in
      if leb remaining 1
      then s
      else record s { buffer = put_text s bytes; current = u8 (s.current + written) }

  -- `mobile_debug_print`, on the text that the format makes
  unfoldable pub debug_print : Debug W → List ℕ → Debug W
  debug_print s text =
      let remaining = debug_buffer_size - s.current in
      let current' = u8 (s.current + length text) in
      if leb remaining 1
      then s
      else if length text == 0
      then record s { buffer = put_text s text }
      else record s {
        buffer = put_text s text;
        current = if leb debug_buffer_size current' then debug_buffer_size - 1 else current';
      }

module _ {W : Type 0} (log : Log W) where
  -- `mobile_debug_endl`
  unfoldable pub debug_endl : Debug W → Debug W
  debug_endl s = record s {
    user = log.debug_log s.user (if s.current == 0 then 0 ∷ [] else s.buffer);
    current = 0;
  }

-- A call of one of the three. What is printed does not depend on the buffer, so a function that
-- prints is the list of its calls.
pub data Call : Type 0 where
  print : String → List ℕ → Call
  write : List ℕ → Call
  endl : Call

module _ {W : Type 0} (log : Log W) where
  unfoldable pub call_debug : Debug W → Call → Debug W
  call_debug s (print fmt args) = debug_print s (log.vsnprintf fmt args)
  call_debug s (write bytes) = debug_write s bytes
  call_debug s endl = debug_endl log s

  unfoldable pub run_debug : Debug W → List Call → Debug W
  run_debug s [] = s
  run_debug s (c ∷ cs) = run_debug (call_debug s c) cs
