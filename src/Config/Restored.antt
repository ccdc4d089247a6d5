-- ===== src/Config/Restored.antt =====
-- config.c: what has been saved is restored.
use libmobile.Adapter.{AdapterConfig, Addr}
use libmobile.Prelude.{
  List, arith, length, ℕ, ◌<◌, ◌≡◌, copy, drop, if_intro, inr, refl, set, slice, take, true, u8,
  ◌/◌, ◌∙◌, ap, length-take, sym, Bool-cases, inl, some, take-take,
}
use libmobile.Config.Hosts.{
  StorableAddr, StoresHost, length-save_host, save_host-StoresHost, saved-StoresHost,
  copy-StoresHost, same-StoresHost, known_size, known_addr,
}
use libmobile.Config.Roundtrip.{plain_fields, Stores, library_save-Stores, library_save-valid}
use libmobile.Config.Library.{
  save_fields, save_host, checksum, library_load, library_save, library_valid, load_fields,
  load_hosts, byte_at,
}
use libmobile.Relay.Exchange.{token_size}
use libmobile.Config.Slots.{set_before, copy_self}
use libmobile.Config.Settings.{get_relay_token}
use libmobile.Config.Loading.{load_host-known}

-- A configuration in which every field has a value that fits its C type
pub record Storable (c : AdapterConfig) : Type 0 where
  pub device : c.device < 256
  pub p2p_port : c.p2p_port < 65536
  pub dns1 : StorableAddr c.dns1
  pub dns2 : StorableAddr c.dns2
  pub relay : StorableAddr c.relay
  pub token : length c.relay_token ≡ token_size

-- The three hosts are in the buffer before its sum is stored.
record StoresHosts (bytes : List ℕ) (c : AdapterConfig) : Type 0 where
  dns1 : StoresHost bytes c.dns1 0x20 0x1a
  dns2 : StoresHost bytes c.dns2 0x30 0x1c
  relay : StoresHost bytes c.relay 0x40 0x1e

-- The token is written behind them.
copy-StoresHosts :
    (xs src : List ℕ) (c : AdapterConfig) → StoresHosts xs c → StoresHosts (copy xs 0x50 src) c
copy-StoresHosts xs src c s = record {
  dns1 = copy-StoresHost xs src 0x50 c.dns1 0x20 0x1a (inr (omega arith)) (omega arith) s.dns1;
  dns2 = copy-StoresHost xs src 0x50 c.dns2 0x30 0x1c (inr (omega arith)) (omega arith) s.dns2;
  relay = copy-StoresHost xs src 0x50 c.relay 0x40 0x1e (inr (omega arith)) (omega arith) s.relay;
}

save_fields-StoresHosts : (c : AdapterConfig) → Storable c → StoresHosts (save_fields c) c
unfolding save_fields
save_fields-StoresHosts c h =
    let fields = plain_fields c in
    let with_dns1 = save_host c.dns1 fields 0x20 0x1a in
    let with_dns2 = save_host c.dns2 with_dns1 0x30 0x1c in
    let size1 = length-save_host c.dns1 fields 0x20 0x1a in
    let size2 = length-save_host c.dns2 with_dns1 0x30 0x1c in
    let w1 = saved-StoresHost c.dns1 fields 0x20 0x1a h.dns1.host (omega arith) (omega arith) in
    let w2 =
      saved-StoresHost c.dns2 with_dns1 0x30 0x1c h.dns2.host (omega arith)
        (omega (arith, size1)) in
    let w3 =
      saved-StoresHost c.relay with_dns2 0x40 0x1e h.relay.host (omega arith)
        (omega (arith, size1, size2)) in
    let hosts : StoresHosts (save_host c.relay with_dns2 0x40 0x1e) c = record {
      dns1 =
          save_host-StoresHost c.relay with_dns2 0x40 0x1e c.dns1 0x20 0x1a (omega arith)
            (omega arith) (omega arith)
            (save_host-StoresHost c.dns2 with_dns1 0x30 0x1c c.dns1 0x20 0x1a (omega arith)
              (omega arith) (omega arith) w1);
      dns2 =
          save_host-StoresHost c.relay with_dns2 0x40 0x1e c.dns2 0x30 0x1c (omega arith)
            (omega arith) (omega arith) w2;
      relay = w3;
    } in
    let written =
      copy-StoresHosts (save_host c.relay with_dns2 0x40 0x1e) (take 16 c.relay_token) c hosts in
    if_intro (λ zs. StoresHosts zs c) c.relay_token_init (λ _. written) (λ _. hosts)

-- The sum is stored before every one of the stretches.
stamp_slice :
    (xs : List ℕ) (v w from size : ℕ)
    → 4 < from
    → slice (set (set xs 3 v) 4 w) from size ≡ slice xs from size
stamp_slice xs v w from size h =
    set_before (set xs 3 v) 4 w from size h ∙ set_before xs 3 v from size (omega arith)

library_save-StoresHosts : (c : AdapterConfig) → Storable c → StoresHosts (library_save c) c
unfolding library_save
library_save-StoresHosts c h =
    let xs = save_fields c in
    let total = checksum (drop 5 xs) in
    let s = save_fields-StoresHosts c h in
    let stamped : (addr : Addr) (host port : ℕ)
        → 4 < host
        → 4 < port
        → StoresHost xs addr host port
        → StoresHost (library_save c) addr host port =
      λ addr host port k l.
        same-StoresHost xs (library_save c) addr host port
          (stamp_slice xs (u8 total) (total / 256) port 2 l)
          (stamp_slice xs (u8 total) (total / 256) host (known_size addr.type) k) in
    record {
      dns1 = stamped c.dns1 0x20 0x1a (omega arith) (omega arith) s.dns1;
      dns2 = stamped c.dns2 0x30 0x1c (omega arith) (omega arith) s.dns2;
      relay = stamped c.relay 0x40 0x1e (omega arith) (omega arith) s.relay;
    }

token_written :
    (xs token : List ℕ)
    → length xs ≡ 0x60
    → length token ≡ 16
    → slice (copy xs 0x50 (take 16 token)) 0x50 16 ≡ take 16 token
token_written xs token n h =
    let size : length (take 16 token) ≡ 16 = omega (arith, length-take 16 token, h) in
    ap (λ k. slice (copy xs 0x50 (take 16 token)) 0x50 k) (sym size)
    ∙ copy_self xs 0x50 (take 16 token) (omega (arith, size, n))

library_save-token :
    (c : AdapterConfig)
    → Storable c
    → c.relay_token_init ≡ true
    → slice (library_save c) 0x50 16 ≡ take 16 c.relay_token
unfolding library_save save_fields
library_save-token c h e =
    let fields = plain_fields c in
    let with_dns1 = save_host c.dns1 fields 0x20 0x1a in
    let with_dns2 = save_host c.dns2 with_dns1 0x30 0x1c in
    let with_relay = save_host c.relay with_dns2 0x40 0x1e in
    let size =
      length-save_host c.relay with_dns2 0x40 0x1e
      ∙ length-save_host c.dns2 with_dns1 0x30 0x1c
      ∙ length-save_host c.dns1 fields 0x20 0x1a in
    let xs = save_fields c in
    let total = checksum (drop 5 xs) in
    stamp_slice xs (u8 total) (total / 256) 0x50 16 (omega arith)
    ∙ if_intro (λ zs. slice zs 0x50 16 ≡ take 16 c.relay_token) c.relay_token_init
        (λ _. token_written with_relay c.relay_token size h.token) (λ d. ground (arith, e, d))

-- What loading does where the stored bytes are valid
library_load-loads :
    (bytes : List ℕ) (c old : AdapterConfig)
    → library_valid bytes ≡ true
    → Storable c
    → Stores bytes c
    → library_load old bytes ≡ (true, load_hosts (load_fields old bytes) bytes)
unfolding library_load load_fields
library_load-loads bytes c old v h s =
    rw (v, s.dns1, s.dns2, s.relay, h.dns1.type, h.dns2.type, h.relay.type) refl

library_save-StoresFields : (c : AdapterConfig) → Storable c → Stores (library_save c) c
library_save-StoresFields c h =
    library_save-Stores c h.device h.p2p_port h.dns1.type h.dns2.type h.relay.type

-- A configuration that another can be loaded over: its hosts have the size of their C type.
pub record HasHosts (c : AdapterConfig) : Type 0 where
  pub dns1 : length c.dns1.host ≡ 16
  pub dns2 : length c.dns2.host ≡ 16
  pub relay : length c.relay.host ≡ 16

token_loaded :
    (bytes : List ℕ) (c old : AdapterConfig)
    → Stores bytes c
    → (c.relay_token_init ≡ true → take 16 (slice bytes 0x50 16) ≡ take 16 c.relay_token)
    → get_relay_token (load_hosts (load_fields old bytes) bytes) ≡ get_relay_token c
unfolding load_hosts load_fields get_relay_token
token_loaded bytes c old s h = elim (Bool-cases c.relay_token_init) [
  | inl e ↦ let same = h e in rw (s.token, e) (ap some same)
  | inr e ↦ rw (s.token, e) refl
]

pub library_load-restores :
    (c old : AdapterConfig)
    → Storable c
    → HasHosts old
    → let (ok, c') = library_load old (library_save c) in
      (ok ≡ true)
      × (c'.device ≡ c.device)
      × (c'.p2p_port ≡ c.p2p_port)
      × (known_addr c'.dns1 ≡ known_addr c.dns1)
      × (known_addr c'.dns2 ≡ known_addr c.dns2)
      × (known_addr c'.relay ≡ known_addr c.relay)
      × (get_relay_token c' ≡ get_relay_token c)
unfolding load_hosts load_fields
library_load-restores c old h n =
    let bytes = library_save c in
    let s = library_save-StoresFields c h in
    let hosts = library_save-StoresHosts c h in
    rw (library_load-loads bytes c old (library_save-valid c) h s) (
      refl,
      s.device,
      s.p2p_port,
      load_host-known c.dns1 (record old.dns1 { type = byte_at bytes 6 }) bytes 0x20 0x1a s.dns1
          n.dns1 h.dns1.host h.dns1.port hosts.dns1,
      load_host-known c.dns2 (record old.dns2 { type = byte_at bytes 7 }) bytes 0x30 0x1c s.dns2
          n.dns2 h.dns2.host h.dns2.port hosts.dns2,
      load_host-known c.relay (record old.relay { type = byte_at bytes 10 }) bytes 0x40 0x1e s.relay
          n.relay h.relay.host h.relay.port hosts.relay,
      token_loaded bytes c old s (λ e.
          ap (take 16) (library_save-token c h e) ∙ take-take 16 16 c.relay_token (omega arith)),
    )
