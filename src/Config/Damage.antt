-- ===== src/Config/Damage.antt =====
-- config.c: a damaged byte of the stored configuration is noticed.

-- The checksum is the sum of the bytes, to 16 bits.
use libmobile.Adapter.{AdapterConfig}
use libmobile.Prelude.{
  List, [], ap, arith, false, length, set, suc, sum, true, u16, ℕ, ◌+◌, ◌<◌, ◌∙◌, ◌∷◌, ◌≡◌, ◌≢◌,
  sum_changed,
}
use libmobile.Config.Library.{byte_at, checksum, checksum_from, library_load, library_valid}

checksum_from-sum : (n : ℕ) (bytes : List ℕ) → checksum_from (u16 n) bytes ≡ u16 (n + sum bytes)
unfolding checksum_from
checksum_from-sum n [] = ap u16 (omega arith)
checksum_from-sum n (x ∷ xs) =
    rw (u16_absorb n x) (checksum_from-sum (n + x) xs ∙ ap u16 (omega arith))
  where
    u16_absorb : (n x : ℕ) → u16 (u16 n + x) ≡ u16 (n + x)
    u16_absorb n x = omega arith

-- The checksum that the loop adds up, wrapping at each byte, is the sum of all the bytes, wrapped
-- once.
pub checksum-sum : (bytes : List ℕ) → checksum bytes ≡ u16 (sum bytes)
unfolding checksum
checksum-sum bytes = checksum_from-sum 0 bytes ∙ ap u16 (omega arith)

-- One byte of the stored settings that is another than what was saved: whatever it was and whatever
-- it is now, the settings do not pass the check when they are loaded, and none of them is taken over.
pub library_load-damaged :
    (bytes : List ℕ) (i v : ℕ) (old : AdapterConfig)
    → library_valid bytes ≡ true
    → 4 < i
    → i < length bytes
    → byte_at bytes i < 256
    → v < 256
    → v ≢ byte_at bytes i
    → library_load old (set bytes i v) ≡ (false, old)
unfolding library_load library_valid
library_load-damaged (x0 ∷ x1 ∷ x2 ∷ x3 ∷ x4 ∷ rest) (suc (suc (suc (suc (suc i))))) v old ok m n h
      k d =
    let other = sum_changed 0 rest i v (omega arith) h k d in
    let before = checksum-sum rest in let after = checksum-sum (set rest i v) in ground arith
library_load-damaged (x0 ∷ x1 ∷ x2 ∷ x3 ∷ x4 ∷ rest) i v old ok m n h k d = absurd (omega arith)
library_load-damaged _ i v old ok m n h k d = absurd (omega arith)
