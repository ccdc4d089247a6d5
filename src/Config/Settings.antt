-- ===== src/Config/Settings.antt =====
-- config.c: loading, saving and changing the configuration of an adapter.
use libmobile.Adapter.{Adapter, AdapterConfig, Addr, Callback, no_addr}
use libmobile.Prelude.{
  Bool, List, Option, bit_and, bit_or, false, if◌then◌else◌, none, not, replicate, some, take, true,
  u16, u8, ℕ, ◌*◌, ◌+◌, ◌==◌, ◌||◌,
}
use libmobile.Util.{addr_copy}
use libmobile.Config.Library.{
  byte_at, checksum, internal_half, library_load, library_offset, library_save, library_size,
}
use libmobile.Callback.{cb_config_read, cb_config_write}
use libmobile.Serial.Types.{device_blue}

abbrev pub device_unmetered_flag : ℕ
device_unmetered_flag = 0x80

unfoldable pub config_init : AdapterConfig → AdapterConfig
config_init c = record c {
  loaded = false;
  dirty = true;
  device = device_blue;
  dns1 = no_addr;
  dns2 = no_addr;
  p2p_port = 1027;
  relay = no_addr;
  relay_token_init = false;
  relay_token = replicate 16 0;
}

unfoldable pub apply : AdapterConfig → AdapterConfig
apply c = record c { dirty = true; loaded = true }

unfoldable pub set_device : AdapterConfig → ℕ → Bool → AdapterConfig
unfolding apply
set_device c device unmetered =
    apply
      (record c { device = u8 (bit_or device (if unmetered then device_unmetered_flag else 0)) })

unfoldable pub get_device : AdapterConfig → ℕ × Bool
get_device c = (bit_and c.device 0x7f, not (bit_and c.device device_unmetered_flag == 0))

-- `enum mobile_dns`; any other number selects nothing.
unfoldable pub set_dns : AdapterConfig → Addr → ℕ → AdapterConfig
unfolding apply addr_copy
set_dns c dns num =
    if num == 0
    then apply (record c { dns1 = addr_copy c.dns1 dns })
    else if num == 1
    then apply (record c { dns2 = addr_copy c.dns2 dns })
    else c

unfoldable pub get_dns : AdapterConfig → Addr → ℕ → Addr
unfolding addr_copy
get_dns c dest num =
    if num == 0 then addr_copy dest c.dns1 else if num == 1 then addr_copy dest c.dns2 else dest

unfoldable pub set_p2p_port : AdapterConfig → ℕ → AdapterConfig
unfolding apply
set_p2p_port c port = if port == 0 then c else apply (record c { p2p_port = port })

unfoldable pub set_relay_token_internal : AdapterConfig → Option (List ℕ) → AdapterConfig
unfolding apply
set_relay_token_internal c token = elim token [
  | none ↦ apply (record c { relay_token_init = false })
  | some bytes ↦ apply (record c { relay_token_init = true; relay_token = take 16 bytes })
]

unfoldable pub get_relay_token : AdapterConfig → Option (List ℕ)
get_relay_token c = if c.relay_token_init then some (take 16 c.relay_token) else none

module _ {W : Type 0} (cb : Callback W) where
  -- `config_internal_clear`
  unfoldable pub internal_clear : Adapter W → Adapter W
  unfolding cb_config_write
  internal_clear a =
      let (ok0, a0) = cb_config_write cb a (replicate internal_half 0) 0 in
      let (ok1, a1) = cb_config_write cb a0 (replicate internal_half 0) internal_half in a1

  -- `config_internal_verify`: the second half ends in the sum of all that stands before it.
  unfoldable pub internal_verify : Adapter W → Bool × Adapter W
  unfolding cb_config_read checksum
  internal_verify a =
      let (ok0, first, a0) = cb_config_read cb a 0 internal_half in
      let (ok1, second, a1) = cb_config_read cb a0 internal_half internal_half in
      let sum = u16 (checksum first + checksum (take 0x5e second)) in
      if not ok0
      then (false, a0)
      else if not (byte_at first 0 == b'M') || not (byte_at first 1 == b'A')
      then (false, a0)
      else if not ok1
      then (false, a1)
      else (sum == byte_at second 0x5e * 256 + byte_at second 0x5f, a1)

  -- `config_library_load`
  unfoldable pub load_library : Adapter W → Bool × Adapter W
  unfolding cb_config_read library_load
  load_library a =
      let (ok, bytes, a') = cb_config_read cb a library_offset library_size in
      let (loaded, c) = library_load a'.config bytes in
      if ok then (loaded, record a' { config = c }) else (false, a')

  unfoldable pub config_load : Adapter W → Adapter W
  config_load a =
      let (valid, a1) = internal_verify a in
      let a2 = if valid then a1 else internal_clear a1 in
      let (loaded, a3) = load_library a2 in
      if a.global.start then a else record a3 {
        config = record a3.config {
          dirty = if loaded then false else a3.config.dirty;
          loaded = true;
        };
      }

  unfoldable pub config_save : Adapter W → Adapter W
  config_save a =
      let (ok, a') = cb_config_write cb a (library_save a.config) library_offset in
      if a.config.dirty then record a' { config = record a'.config { dirty = false } } else a
