-- ===== src/Config/Hosts.antt =====
-- config.c: the address of a server in the stored bytes.
use libmobile.Adapter.{Addr, addrtype_ipv4, addrtype_ipv6}
use libmobile.Prelude.{
  List, [], arith, copy, if_intro, if◌then◌else◌, inl, inr, length, slice, take, u8, ℕ, ◌+◌, ◌/◌,
  ◌==◌, ◌∙◌, ◌∷◌, ◌≡◌, ◌≢◌, ◌≤◌, ◌⊎◌, ap, length-copy, length-take, sym, ◌<◌, Bool-cases, drop,
  refl, true,
}
use libmobile.Config.Slots.{copy_before, copy_beyond, copy_self}
use libmobile.Config.Library.{save_host, check_addrtype}

-- How many bytes of the host belong to an address of a kind
abbrev pub known_size : ℕ → ℕ
known_size type = if type == addrtype_ipv4 then 4 else if type == addrtype_ipv6 then 16 else 0

-- What is known of an address: of one of no kind, nothing else
abbrev pub known_addr : Addr → ℕ × ℕ × List ℕ
known_addr addr =
    if known_size addr.type == 0
    then (addr.type, 0, [])
    else (addr.type, addr.port, take (known_size addr.type) addr.host)

pub record StoresHost (bytes : List ℕ) (addr : Addr) (host port : ℕ) : Type 0 where
  pub ported :
      known_size addr.type ≢ 0 → slice bytes port 2 ≡ u8 addr.port ∷ u8 (addr.port / 256) ∷ []
  pub hosted : slice bytes host (known_size addr.type) ≡ take (known_size addr.type) addr.host

-- The bytes of the port and of the host are all that is read.
pub same-StoresHost :
    (xs ys : List ℕ) (addr : Addr) (host port : ℕ)
    → slice ys port 2 ≡ slice xs port 2
    → slice ys host (known_size addr.type) ≡ slice xs host (known_size addr.type)
    → StoresHost xs addr host port
    → StoresHost ys addr host port
same-StoresHost xs ys addr host port p h s = record {
  ported = λ k. p ∙ s.ported k;
  hosted = h ∙ s.hosted;
}

pub copy-StoresHost :
    (xs src : List ℕ) (i : ℕ) (addr : Addr) (host port : ℕ)
    → (i + length src ≤ host) ⊎ (host + 16 ≤ i)
    → port + 2 ≤ i
    → StoresHost xs addr host port
    → StoresHost (copy xs i src) addr host port
copy-StoresHost xs src i addr host port h p s =
    same-StoresHost xs (copy xs i src) addr host port (copy_beyond xs i src port 2 p)
      (elim h [
        | inl e ↦ copy_before xs i src host (known_size addr.type) e
        | inr e ↦ copy_beyond xs i src host (known_size addr.type) (ground arith)
      ])
      s

-- A host that is saved behind another leaves it.
pub save_host-StoresHost :
    (other : Addr) (xs : List ℕ) (host' port' : ℕ) (addr : Addr) (host port : ℕ)
    → host + 16 ≤ host'
    → port + 2 ≤ port'
    → port' + 2 ≤ host
    → StoresHost xs addr host port
    → StoresHost (save_host other xs host' port') addr host port
unfolding save_host
save_host-StoresHost other xs host' port' addr host port h p q s =
    let ported = copy xs port' (u8 other.port ∷ u8 (other.port / 256) ∷ []) in
    let P = λ (zs : List ℕ). StoresHost zs addr host port in
    let s' =
      copy-StoresHost xs (u8 other.port ∷ u8 (other.port / 256) ∷ []) port' addr host port
        (inl (omega arith)) p s in
    if_intro P (other.type == addrtype_ipv4)
      (λ _.
        copy-StoresHost ported (take 4 other.host) host' addr host port (inr h) (omega arith) s')
      (λ _.
        if_intro P (other.type == addrtype_ipv6)
          (λ _.
            copy-StoresHost ported (take 16 other.host) host' addr host port (inr h) (omega arith)
              s')
          (λ _. s))

-- The host that is saved is there.
written-StoresHost :
    (xs : List ℕ) (addr : Addr) (host port : ℕ)
    → length (take (known_size addr.type) addr.host) ≡ known_size addr.type
    → port + 2 ≤ host
    → host + known_size addr.type ≤ length xs
    → StoresHost
        (copy
          (copy xs port (u8 addr.port ∷ u8 (addr.port / 256) ∷ []))
          host
          (take (known_size addr.type) addr.host))
        addr
        host
        port
written-StoresHost xs addr host port n p h =
    let stored = u8 addr.port ∷ u8 (addr.port / 256) ∷ [] in
    let ported = copy xs port stored in
    let own = take (known_size addr.type) addr.host in
    record {
      ported = λ _. copy_beyond ported host own port 2 p ∙ copy_self xs port stored (omega arith);
      hosted =
          ap (λ k. slice (copy ported host own) host k) (sym n)
          ∙ copy_self ported host own (omega (arith, n, length-copy xs port stored));
    }

pub length-take_host :
    (addr : Addr)
    → length addr.host ≡ 16
    → length (take (known_size addr.type) addr.host) ≡ known_size addr.type
length-take_host addr h = ground (arith, length-take (known_size addr.type) addr.host)

save_host-size :
    (addr : Addr) (xs : List ℕ) (host port : ℕ)
    → save_host addr xs host port ≡ (
        if known_size addr.type == 0
        then xs
        else copy
            (copy xs port (u8 addr.port ∷ u8 (addr.port / 256) ∷ []))
            host
            (take (known_size addr.type) addr.host))
unfolding save_host
save_host-size addr xs host port = elim (Bool-cases (addr.type == addrtype_ipv4)) [
  | inl e ↦ rw e refl
  | inr e ↦ elim (Bool-cases (addr.type == addrtype_ipv6)) [
    | inl k ↦ rw (e, k) refl
    | inr k ↦ rw (e, k) refl
  ]
]

pub saved-StoresHost :
    (addr : Addr) (xs : List ℕ) (host port : ℕ)
    → length addr.host ≡ 16
    → port + 2 ≤ host
    → host + 16 ≤ length xs
    → StoresHost (save_host addr xs host port) addr host port
saved-StoresHost addr xs host port n p h =
    let own = take (known_size addr.type) addr.host in
    rw (save_host-size addr xs host port) (
      if_intro (λ zs. StoresHost zs addr host port) (known_size addr.type == 0)
        (λ e. record {
          ported = λ k. absurd (k (ground arith));
          hosted = no_bytes (known_size addr.type) (drop host xs) addr.host (ground arith);
        })
        (λ _. written-StoresHost xs addr host port (length-take_host addr n) p (ground arith)))
  where
    no_bytes : (k : ℕ) (ys zs : List ℕ) → k ≡ 0 → take k ys ≡ take k zs
    no_bytes k ys zs e = rw e refl

pub length-save_host :
    (addr : Addr) (xs : List ℕ) (host port : ℕ) → length (save_host addr xs host port) ≡ length xs
length-save_host addr xs host port =
    let stored = u8 addr.port ∷ u8 (addr.port / 256) ∷ [] in
    let own = take (known_size addr.type) addr.host in
    rw (save_host-size addr xs host port) (
      if_intro (λ zs. length zs ≡ length xs) (known_size addr.type == 0) (λ _. refl)
        (λ _. length-copy (copy xs port stored) host own ∙ length-copy xs port stored))

-- An address whose fields have values that fit their C types
pub record StorableAddr (addr : Addr) : Type 0 where
  pub type : check_addrtype addr.type ≡ true
  pub port : addr.port < 65536
  pub host : length addr.host ≡ 16
