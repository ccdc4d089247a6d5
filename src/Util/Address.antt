-- ===== src/Util/Address.antt =====
-- util.c: copying and comparing addresses.
use libmobile.Adapter.{Addr, addrtype_ipv4, addrtype_ipv6}
use libmobile.Prelude.{
  List, [], arith, copy, length, refl, take, true, ℕ, ◌==◌, ◌||◌, ◌∷◌, ◌≡◌, ◌≤◌, ap, copy-zero,
  drop, suc, take_all-append, zero,
}
use libmobile.Util.{addr_compare, addr_copy, host_size, same_bytes}

same_bytes_refl : (xs : List ℕ) → same_bytes xs xs ≡ true
unfolding same_bytes
same_bytes_refl [] = refl
same_bytes_refl (x ∷ xs) = ground (arith, same_bytes_refl xs)

length-take_within : (n : ℕ) (ys : List ℕ) → n ≤ length ys → length (take n ys) ≡ n
length-take_within zero ys h = refl
length-take_within (suc n) [] h = absurd (omega arith)
length-take_within (suc n) (y ∷ ys) h = ap suc (length-take_within n ys (omega arith))

take-copy :
    (n : ℕ) (xs ys : List ℕ)
    → n ≤ length xs
    → n ≤ length ys
    → take n (copy xs 0 (take n ys)) ≡ take n ys
take-copy n xs ys h k =
    let short = length-take_within n ys k in
    let front = take_all-append (take n ys) (drop (length (take n ys)) xs) in
    rw (copy-zero xs (take n ys) (ground (arith, short)), short) (rw short at front)

-- A copied address compares equal to its source, whatever was there before, unless its type is none
-- of the two that have an address.
pub addr_compare-addr_copy :
    (dest src : Addr)
    → length dest.host ≡ 16
    → length src.host ≡ 16
    → addr_compare (addr_copy dest src) src
      ≡ (src.type == addrtype_ipv4 || src.type == addrtype_ipv6)
unfolding addr_compare addr_copy host_size
addr_compare-addr_copy dest src h k = ground (
  arith,
  take-copy 4 dest.host src.host (omega arith) (omega arith),
  take-copy 16 dest.host src.host (omega arith) (omega arith),
  same_bytes_refl (take 4 src.host),
  same_bytes_refl (take 16 src.host),
)
