-- ===== src/Config/Loading.antt =====
-- config.c: a host that has been stored is loaded.
use libmobile.Adapter.{Addr, addrtype_ipv4, addrtype_ipv6}
use libmobile.Prelude.{
  Bool-cases, List, [], ap, arith, copy, get_or, if◌then◌else◌, inl, inr, length, refl, slice, suc,
  sym, take, u8, zero, ℕ, ◌*◌, ◌+◌, ◌/◌, ◌<◌, ◌==◌, ◌∙◌, ◌∷◌, ◌≡◌, drop_nil,
}
use libmobile.Config.Hosts.{StoresHost, known_addr, known_size, length-take_host}
use libmobile.Config.Library.{byte_at, load_host}
use libmobile.Config.Slots.{copy_self}

load_host-size :
    (addr : Addr) (bytes : List ℕ) (host port : ℕ)
    → load_host addr bytes host port ≡ (
        if known_size addr.type == 0 then addr else record addr {
          port = byte_at bytes port + 256 * byte_at bytes (port + 1);
          host = copy addr.host 0 (slice bytes host (known_size addr.type));
        })
unfolding load_host
load_host-size addr bytes host port = elim (Bool-cases (addr.type == addrtype_ipv4)) [
  | inl e ↦ rw e refl
  | inr e ↦ elim (Bool-cases (addr.type == addrtype_ipv6)) [
    | inl k ↦ rw (e, k) refl
    | inr k ↦ rw (e, k) refl
  ]
]

get_or-slice : (xs : List ℕ) (from : ℕ) → get_or (slice xs from 2) 0 0 ≡ get_or xs from 0
get_or-slice [] from = ap (λ l. get_or (take 2 l) 0 0) (drop_nil from)
get_or-slice (x ∷ xs) zero = refl
get_or-slice (x ∷ xs) (suc from) = get_or-slice xs from

get_or-slice_second :
    (xs : List ℕ) (from : ℕ) → get_or (slice xs from 2) 1 0 ≡ get_or xs (from + 1) 0
get_or-slice_second [] from = ap (λ l. get_or (take 2 l) 1 0) (drop_nil from)
get_or-slice_second (x ∷ []) zero = refl
get_or-slice_second (x ∷ y ∷ xs) zero = refl
get_or-slice_second (x ∷ xs) (suc from) =
    get_or-slice_second xs from ∙ ap (λ k. get_or (x ∷ xs) k 0) next_index
  where
    next_index : suc (from + 1) ≡ suc from + 1
    next_index = omega arith

load_port :
    (bytes : List ℕ) (port p : ℕ)
    → p < 65536
    → slice bytes port 2 ≡ u8 p ∷ u8 (p / 256) ∷ []
    → byte_at bytes port + 256 * byte_at bytes (port + 1) ≡ p
load_port bytes port p h s =
    rw (sym (get_or-slice bytes port), sym (get_or-slice_second bytes port), s) (omega arith)

load_bytes :
    (dest bytes : List ℕ) (host : ℕ) (addr : Addr)
    → length dest ≡ 16
    → length addr.host ≡ 16
    → slice bytes host (known_size addr.type) ≡ take (known_size addr.type) addr.host
    → take (known_size addr.type) (copy dest 0 (slice bytes host (known_size addr.type)))
      ≡ take (known_size addr.type) addr.host
load_bytes dest bytes host addr n m s =
    let own = take (known_size addr.type) addr.host in
    let size = length-take_host addr m in
    ap (λ src. take (known_size addr.type) (copy dest 0 src)) s
    ∙ ap (λ k. take k (copy dest 0 own)) (sym size)
    ∙ copy_self dest 0 own (ground (arith, size))

-- A host that is stored is loaded.
pub load_host-known :
    (addr old : Addr) (bytes : List ℕ) (host port : ℕ)
    → old.type ≡ addr.type
    → length old.host ≡ 16
    → length addr.host ≡ 16
    → addr.port < 65536
    → StoresHost bytes addr host port
    → known_addr (load_host old bytes host port) ≡ known_addr addr
load_host-known addr old bytes host port t n m p s =
    rw (load_host-size old bytes host port, t)
      (elim (Bool-cases (known_size addr.type == 0)) [
        | inl e ↦ rw e (rw e refl)
        | inr e ↦
            let ported = load_port bytes port addr.port p (s.ported (ground arith)) in
            let hosted = load_bytes old.host bytes host addr n m s.hosted in
            rw e (rw (e, ported, hosted) refl)
      ])
