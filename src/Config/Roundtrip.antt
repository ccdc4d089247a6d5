-- ===== src/Config/Roundtrip.antt =====
-- config.c: what has been saved is loaded again.
use libmobile.Adapter.{AdapterConfig, Addr, addrtype_ipv4, addrtype_ipv6}
use libmobile.Prelude.{
  List, [], arith, copy, get_or, if_intro, if◌then◌else◌, length, refl, replicate, set, take, u8, ℕ,
  ◌/◌, ◌<◌, ◌==◌, ◌∙◌, ◌∷◌, ◌≡◌, ◌≤◌, drop, true, ◌*◌, ◌+◌, length-copy, get_or-copy_before,
  get_or-set_other,
}
use libmobile.Config.Library.{
  library_size, save_fields, save_host, byte_at, check_addrtype, checksum, library_load,
  library_save, library_valid, load_fields, load_host, load_hosts,
}

-- Two buffers of the same size that agree before the ports of the addresses.
pub record SameFront (xs ys : List ℕ) : Type 0 where
  pub size : length xs ≡ length ys
  front : (j : ℕ) → j < 0x1a → get_or xs j 0 ≡ get_or ys j 0

copy-SameFront :
    (xs ys : List ℕ) (i : ℕ) (src : List ℕ)
    → 0x1a ≤ i
    → SameFront xs ys
    → SameFront (copy xs i src) ys
copy-SameFront xs ys i src h s = record {
  size = length-copy xs i src ∙ s.size;
  front = λ j k. get_or-copy_before xs i src j (omega arith) ∙ s.front j k;
}

pub save_host-SameFront :
    (addr : Addr) (xs ys : List ℕ) (host port : ℕ)
    → 0x1a ≤ host
    → 0x1a ≤ port
    → SameFront xs ys
    → SameFront (save_host addr xs host port) ys
unfolding save_host
save_host-SameFront addr xs ys host port h k s =
    let P = λ (zs : List ℕ). SameFront zs ys in
    let ported = copy xs port (u8 addr.port ∷ u8 (addr.port / 256) ∷ []) in
    let kept = copy-SameFront xs ys port (u8 addr.port ∷ u8 (addr.port / 256) ∷ []) k s in
    if_intro P (addr.type == addrtype_ipv4)
      (λ _. copy-SameFront ported ys host (take 4 addr.host) h kept)
      (λ _.
        if_intro P (addr.type == addrtype_ipv6)
          (λ _. copy-SameFront ported ys host (take 16 addr.host) h kept) (λ _. s))

abbrev pub plain_fields : AdapterConfig → List ℕ
plain_fields c = copy (replicate library_size 0) 0 (
    b'L'
    ∷ b'M'
    ∷ 0
    ∷ 0
    ∷ 0
    ∷ u8 c.device
    ∷ u8 c.dns1.type
    ∷ u8 c.dns2.type
    ∷ u8 c.p2p_port
    ∷ u8 (c.p2p_port / 256)
    ∷ u8 c.relay.type
    ∷ (if c.relay_token_init then 1 else 0)
    ∷ [])

pub save_fields-SameFront : (c : AdapterConfig) → SameFront (save_fields c) (plain_fields c)
unfolding save_fields
save_fields-SameFront c =
    let s1 =
      save_host-SameFront c.dns1 (plain_fields c) (plain_fields c) 0x20 0x1a (omega arith)
        (omega arith) (record { size = refl; front = λ j k. refl }) in
    let s2 =
      save_host-SameFront c.dns2 _ (plain_fields c) 0x30 0x1c (omega arith) (omega arith) s1 in
    let s3 =
      save_host-SameFront c.relay _ (plain_fields c) 0x40 0x1e (omega arith) (omega arith) s2 in
    if_intro (λ zs. SameFront zs (plain_fields c)) c.relay_token_init
      (λ _. copy-SameFront _ (plain_fields c) 0x50 (take 16 c.relay_token) (omega arith) s3)
      (λ _. s3)

pub u8_high : (x : ℕ) → x ≡ u8 x + 256 * (x / 256)
u8_high x = omega arith

stamp_valid :
    (bytes : List ℕ)
    → 5 ≤ length bytes
    → get_or bytes 0 0 ≡ b'L'
    → get_or bytes 1 0 ≡ b'M'
    → get_or bytes 2 0 ≡ 0
    → let sum = checksum (drop 5 bytes) in
      library_valid (set (set bytes 3 (u8 sum)) 4 (sum / 256)) ≡ true
unfolding library_valid
stamp_valid (x0 ∷ x1 ∷ x2 ∷ x3 ∷ x4 ∷ rest) n h k m = ground (arith, u8_high (checksum rest))
stamp_valid _ n h k m = absurd (omega arith)

saved_byte :
    (c : AdapterConfig) (j : ℕ)
    → 4 < j
    → j < 0x1a
    → byte_at (library_save c) j ≡ byte_at (plain_fields c) j
unfolding library_save
saved_byte c j h k =
    let bytes = save_fields c in
    let sum = checksum (drop 5 bytes) in
    get_or-set_other (set bytes 3 (u8 sum)) 4 j (sum / 256) (λ e. absurd (omega arith))
    ∙ get_or-set_other bytes 3 j (u8 sum) (λ e. absurd (omega arith))
    ∙ (save_fields-SameFront c).front j k

pub library_save-valid : (c : AdapterConfig) → library_valid (library_save c) ≡ true
unfolding library_save
library_save-valid c =
    let same = save_fields-SameFront c in
    stamp_valid (save_fields c) (rw same.size (omega arith)) (same.front 0 (omega arith))
      (same.front 1 (omega arith)) (same.front 2 (omega arith))

-- The fields of a configuration, as they stand in the stored bytes.
pub record Stores (bytes : List ℕ) (c : AdapterConfig) : Type 0 where
  pub device : byte_at bytes 5 ≡ c.device
  pub dns1 : byte_at bytes 6 ≡ c.dns1.type
  pub dns2 : byte_at bytes 7 ≡ c.dns2.type
  pub p2p_port : byte_at bytes 8 + 256 * byte_at bytes 9 ≡ c.p2p_port
  pub relay : byte_at bytes 10 ≡ c.relay.type
  pub token : byte_at bytes 11 ≡ (if c.relay_token_init then 1 else 0)

u8_addrtype : (n : ℕ) → check_addrtype n ≡ true → u8 n ≡ n
unfolding check_addrtype
u8_addrtype n h = ground arith

pub library_save-Stores :
    (c : AdapterConfig)
    → c.device < 256
    → c.p2p_port < 65536
    → check_addrtype c.dns1.type ≡ true
    → check_addrtype c.dns2.type ≡ true
    → check_addrtype c.relay.type ≡ true
    → Stores (library_save c) c
library_save-Stores c d p t1 t2 t3 = record {
  device = saved_byte c 5 (omega arith) (omega arith) ∙ omega arith;
  dns1 = saved_byte c 6 (omega arith) (omega arith) ∙ u8_addrtype c.dns1.type t1;
  dns2 = saved_byte c 7 (omega arith) (omega arith) ∙ u8_addrtype c.dns2.type t2;
  p2p_port =
      rw (saved_byte c 8 (omega arith) (omega arith), saved_byte c 9 (omega arith) (omega arith))
        (omega arith);
  relay = saved_byte c 10 (omega arith) (omega arith) ∙ u8_addrtype c.relay.type t3;
  token = saved_byte c 11 (omega arith) (omega arith);
}

load_stored :
    (bytes : List ℕ) (c old : AdapterConfig)
    → library_valid bytes ≡ true
    → check_addrtype c.dns1.type ≡ true
    → check_addrtype c.dns2.type ≡ true
    → check_addrtype c.relay.type ≡ true
    → Stores bytes c
    → let (ok, c') = library_load old bytes in
      (ok ≡ true)
      × (c'.device ≡ c.device)
      × (c'.p2p_port ≡ c.p2p_port)
      × (c'.dns1.type ≡ c.dns1.type)
      × (c'.dns2.type ≡ c.dns2.type)
      × (c'.relay.type ≡ c.relay.type)
      × (c'.relay_token_init ≡ c.relay_token_init)
unfolding library_load load_fields load_hosts load_host
load_stored bytes c old v t1 t2 t3 s = ground arith

-- A saved configuration passes the check of its magic bytes and of its sum when it is loaded, and
-- the device, the port, the kinds of the three addresses and whether there is a relay token are
-- those that were saved, whatever the configuration was before.
pub library_load-library_save :
    (c old : AdapterConfig)
    → c.device < 256
    → c.p2p_port < 65536
    → check_addrtype c.dns1.type ≡ true
    → check_addrtype c.dns2.type ≡ true
    → check_addrtype c.relay.type ≡ true
    → let (ok, c') = library_load old (library_save c) in
      (ok ≡ true)
      × (c'.device ≡ c.device)
      × (c'.p2p_port ≡ c.p2p_port)
      × (c'.dns1.type ≡ c.dns1.type)
      × (c'.dns2.type ≡ c.dns2.type)
      × (c'.relay.type ≡ c.relay.type)
      × (c'.relay_token_init ≡ c.relay_token_init)
library_load-library_save c old d p t1 t2 t3 =
    load_stored (library_save c) c old (library_save-valid c) t1 t2 t3
      (library_save-Stores c d p t1 t2 t3)
