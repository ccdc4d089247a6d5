-- ===== src/Config/Library.antt =====
-- config.c: the area of the library itself, and the check of the area of the game.
use libmobile.Adapter.{AdapterConfig, Addr, addrtype_ipv4, addrtype_ipv6, addrtype_none}
use libmobile.Prelude.{
  Bool, List, [], copy, drop, false, get_or, if◌then◌else◌, not, one_of, replicate, set, take, true,
  u16, u8, ℕ, ◌&&◌, ◌*◌, ◌+◌, ◌/◌, ◌==◌, ◌∷◌, sum,
}

abbrev pub internal_half : ℕ
internal_half = 0x60

abbrev pub library_offset : ℕ
library_offset = 0x100

abbrev pub library_size : ℕ
library_size = 0x60

-- `checksum(buf, len)`
unfoldable pub checksum_from : ℕ → List ℕ → ℕ
checksum_from sum [] = sum
checksum_from sum (x ∷ xs) = checksum_from (u16 (sum + x)) xs

unfoldable pub checksum : List ℕ → ℕ
unfolding checksum_from
checksum bytes = checksum_from 0 bytes

abbrev pub byte_at : List ℕ → ℕ → ℕ
byte_at bytes i = get_or bytes i 0

unfoldable pub check_addrtype : ℕ → Bool
check_addrtype val = one_of val (addrtype_none ∷ addrtype_ipv4 ∷ addrtype_ipv6 ∷ [])

-- `config_library_load_host`: `host` and `port` are offsets into the buffer.
unfoldable pub load_host : Addr → List ℕ → ℕ → ℕ → Addr
load_host addr bytes host port =
    let port' = byte_at bytes port + 256 * byte_at bytes (port + 1) in
    if addr.type == addrtype_ipv4
    then record addr { port = port'; host = copy addr.host 0 (take 4 (drop host bytes)) }
    else if addr.type == addrtype_ipv6
    then record addr { port = port'; host = copy addr.host 0 (take 16 (drop host bytes)) }
    else addr

-- The magic bytes and the sum of the stored bytes.
unfoldable pub library_valid : List ℕ → Bool
library_valid bytes =
    byte_at bytes 0 == b'L'
    && (byte_at bytes 1 == b'M'
        && (byte_at bytes 2 == 0
            && checksum (drop 5 bytes) == byte_at bytes 3 + 256 * byte_at bytes 4))

-- The fields that are loaded before the address types are checked.
unfoldable pub load_fields : AdapterConfig → List ℕ → AdapterConfig
load_fields c bytes = record c {
  device = byte_at bytes 0x05;
  dns1 = record c.dns1 { type = byte_at bytes 0x06 };
  dns2 = record c.dns2 { type = byte_at bytes 0x07 };
  p2p_port = byte_at bytes 0x08 + 256 * byte_at bytes 0x09;
  relay = record c.relay { type = byte_at bytes 0x0a };
  relay_token_init = not (byte_at bytes 0x0b == 0);
}

unfoldable pub load_hosts : AdapterConfig → List ℕ → AdapterConfig
load_hosts c bytes = record c {
  dns1 = load_host c.dns1 bytes 0x20 0x1a;
  dns2 = load_host c.dns2 bytes 0x30 0x1c;
  relay = load_host c.relay bytes 0x40 0x1e;
  relay_token = if c.relay_token_init then take 16 (drop 0x50 bytes) else c.relay_token;
}

-- `config_library_load`, on the bytes that were read.
unfoldable pub library_load : AdapterConfig → List ℕ → Bool × AdapterConfig
library_load c bytes =
    if not (library_valid bytes)
    then (false, c)
    else (let c' = load_fields c bytes in
        if check_addrtype c'.dns1.type
          && (check_addrtype c'.dns2.type && check_addrtype c'.relay.type)
        then (true, load_hosts c' bytes)
        else (false, c'))

-- `config_library_save_host`
unfoldable pub save_host : Addr → List ℕ → ℕ → ℕ → List ℕ
save_host addr bytes host port =
    let ported = copy bytes port (u8 addr.port ∷ u8 (addr.port / 256) ∷ []) in
    if addr.type == addrtype_ipv4
    then copy ported host (take 4 addr.host)
    else if addr.type == addrtype_ipv6
    then copy ported host (take 16 addr.host)
    else bytes

-- The buffer of `config_library_save` before its checksum is stored.
unfoldable pub save_fields : AdapterConfig → List ℕ
save_fields c =
    let fields = copy (replicate library_size 0) 0 (
      b'L'
      ∷ b'M'
      ∷ 0
      ∷ 0
      ∷ 0
      ∷ u8 c.device
      ∷ u8 c.dns1.type
      ∷ u8 c.dns2.type
      ∷ u8 c.p2p_port
      ∷ u8 (c.p2p_port / 256)
      ∷ u8 c.relay.type
      ∷ (if c.relay_token_init then 1 else 0)
      ∷ []) in
    let with_dns1 = save_host c.dns1 fields 0x20 0x1a in
    let with_dns2 = save_host c.dns2 with_dns1 0x30 0x1c in
    let with_relay = save_host c.relay with_dns2 0x40 0x1e in
    if c.relay_token_init then copy with_relay 0x50 (take 16 c.relay_token) else with_relay

-- What `config_library_save` writes at `library_offset`.
unfoldable pub library_save : AdapterConfig → List ℕ
library_save c =
    let bytes = save_fields c in
    let sum = checksum (drop 5 bytes) in set (set bytes 3 (u8 sum)) 4 (sum / 256)
