-- ===== src/Util/Phone.antt =====
-- util.c: an address dialled as a number of twelve digits.
use mathlib.Core.Option
use libmobile.Prelude.{
  Bytes, List, [], arith, length, refl, some, suc, ℕ, ◌%◌, ◌++◌, ◌+◌, ◌/◌, ◌<◌, ◌∙◌, ◌∷◌, ◌≡◌,
}
use libmobile.Util.{parse_octet, parse_octets, parse_phoneaddr}

-- Three digits for each byte of the address
abbrev pub digits3 : ℕ → List ℕ
digits3 n = (b'0' + n / 100) ∷ (b'0' + n / 10 % 10) ∷ (b'0' + n % 10) ∷ []

abbrev pub print_phoneaddr : List ℕ → List ℕ
print_phoneaddr [] = []
print_phoneaddr (n ∷ ns) = digits3 n ++ print_phoneaddr ns

parse_octet-digits3 :
    (n : ℕ) (rest : List ℕ) → n < 256 → parse_octet 3 0 (digits3 n ++ rest) ≡ some (n, rest)
unfolding parse_octet
parse_octet-digits3 n rest h = ground arith

parse_octets_next :
    (y : ℕ) (cs : List ℕ) (n : ℕ) (rest : List ℕ)
    → parse_octet 3 0 cs ≡ some (n, rest)
    → n < 256
    → parse_octets (suc y) cs ≡ Option.map (λ l. n ∷ l) (parse_octets y rest)
unfolding parse_octets
parse_octets_next y cs n rest h k = rw (h, parse_octets) (ground arith)

parse_octets-print :
    (ip rest : List ℕ) → Bytes ip → parse_octets (length ip) (print_phoneaddr ip ++ rest) ≡ some ip
parse_octets-print [] rest h = unfold parse_octets in refl
parse_octets-print (n ∷ ns) rest h =
    parse_octets_next (length ns) (digits3 n ++ print_phoneaddr ns ++ rest) n _
      (parse_octet-digits3 n (print_phoneaddr ns ++ rest) h.0) (omega arith)
    ∙ rw (parse_octets-print ns rest h.1)

-- The digits of an address, whatever follows them, are read back as that address.
pub parse_phoneaddr-print :
    (ip rest : List ℕ)
    → length ip ≡ 4
    → Bytes ip
    → parse_phoneaddr (print_phoneaddr ip ++ rest) ≡ some ip
unfolding parse_phoneaddr
parse_phoneaddr-print ip rest h b = rw h at (parse_octets-print ip rest b)
