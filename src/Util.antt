-- ===== src/Util.antt =====
-- util.c: addresses, and numbers dialled in place of an address.
pub mod Phone
pub mod Address
use mathlib.Core.Option
use libmobile.Adapter.{Addr, addrtype_ipv4, addrtype_ipv6, addrtype_none}
use libmobile.Prelude.{
  Bool, List, Option, [], copy, false, if◌then◌else◌, leb, ltb, none, not, some, suc, take, true,
  zero, ℕ, ◌&&◌, ◌*◌, ◌+◌, ◌-◌, ◌==◌, ◌||◌, ◌∷◌,
}

-- `mobile_addr_size`, as how much of `host` the copied or compared bytes reach; `none` for size 0.
unfoldable pub host_size : ℕ → Option ℕ
host_size type =
    if type == addrtype_ipv4 then some 4 else if type == addrtype_ipv6 then some 16 else none

-- `memcpy` of the first bytes of an address: type, port, and as much of the host.
unfoldable pub addr_copy : Addr → Addr → Addr
unfolding host_size
addr_copy dest src = elim (host_size src.type) [
  | none ↦ record dest { type = addrtype_none }
  | some n ↦ record { type = src.type; port = src.port; host = copy dest.host 0 (take n src.host) }
]

-- `memcmp` of two stretches of bytes for equality
unfoldable pub same_bytes : List ℕ → List ℕ → Bool
same_bytes [] [] = true
same_bytes (x ∷ xs) (y ∷ ys) = x == y && same_bytes xs ys
same_bytes _ _ = false

unfoldable pub addr_compare : Addr → Addr → Bool
unfolding host_size same_bytes
addr_compare a b = if not (a.type == b.type) then false else elim (host_size b.type) [
  | none ↦ false
  | some n ↦ a.port == b.port && same_bytes (take n a.host) (take n b.host)
]

unfoldable pub is_digit : ℕ → Bool
is_digit c = leb b'0' c && leb c b'9'

-- The inner loop of `mobile_parse_phoneaddr`: three digits, and what follows them.
unfoldable pub parse_octet : ℕ → ℕ → List ℕ → Option (ℕ × List ℕ)
unfolding is_digit
parse_octet zero num cs = some (num, cs)
parse_octet (suc x) num [] = none
parse_octet (suc x) num (c ∷ cs) =
    let rest = parse_octet x (num * 10 + (c - b'0')) cs in if is_digit c then rest else none

-- The outer loop, over the octets that are left. A string ends by a NUL, which is no digit.
unfoldable pub parse_octets : ℕ → List ℕ → Option (List ℕ)
parse_octets zero cs = some []
parse_octets (suc y) cs = elim (parse_octet 3 0 cs) [
  | none ↦ none
  | some (num, rest) ↦ if ltb 255 num then none else Option.map (λ l. num ∷ l) (parse_octets y rest)
]

unfoldable pub parse_phoneaddr : List ℕ → Option (List ℕ)
unfolding parse_octets
parse_phoneaddr cs = parse_octets 4 cs

unfoldable pub has_colon : List ℕ → Bool
has_colon [] = false
has_colon (c ∷ cs) = c == b':' || has_colon cs

unfoldable pub all_dotted : List ℕ → Bool
unfolding is_digit
all_dotted [] = true
all_dotted (c ∷ cs) = (is_digit c || c == b'.') && all_dotted cs

unfoldable pub is_ipaddr : List ℕ → Bool
unfolding has_colon all_dotted
is_ipaddr cs = has_colon cs || all_dotted cs
