-- ===== src/Config/Storage.antt =====
-- config.c: the stored configuration, on a program whose storage keeps what is written to it.
use libmobile.Adapter.{Adapter, AdapterConfig, Callback}
use libmobile.Prelude.{
  List, copy, length, slice, true, ℕ, ◌+◌, ◌≡◌, ◌≤◌, ap, arith, drop, length-set, replicate, set,
  sym, u8, ◌/◌, ◌∙◌, false, if_intro, refl, take-take, if◌then◌else◌,
}
use libmobile.Callback.{cb_config_read, cb_config_write}
use libmobile.Config.Settings.{
  config_save, get_relay_token, internal_clear, internal_verify, load_library, config_load,
}
use libmobile.Config.Hosts.{known_addr}
use libmobile.Config.Library.{
  library_offset, library_save, library_size, checksum, internal_half, library_load, save_fields,
}
use libmobile.Config.Slots.{copy_before, copy_self}
use libmobile.Config.Roundtrip.{save_fields-SameFront}
use libmobile.Config.Restored.{HasHosts, Storable, library_load-restores}

-- What is not in the source: the storage behind `mobile_func_config_read` and
-- `mobile_func_config_write`, as mobile.h describes the two. It is of MOBILE_CONFIG_SIZE bytes.
abbrev pub config_size : ℕ
config_size = 0x200

pub record Storage {W : Type 0} (cb : Callback W) : Type 0 where
  pub stored : W → List ℕ
  pub stored_size : (w : W) → length (stored w) ≡ config_size
  pub reads :
      (w : W) (offset size : ℕ)
      → offset + size ≤ config_size
      → let (ok, bytes, w') = cb.config_read w offset size in
        (ok ≡ true) × (bytes ≡ slice (stored w) offset size) × (stored w' ≡ stored w)
  pub writes :
      (w : W) (src : List ℕ) (offset : ℕ)
      → offset + length src ≤ config_size
      → let (ok, w') = cb.config_write w src offset in
        (ok ≡ true) × (stored w' ≡ copy (stored w) offset src)

-- The settings that are kept are those of `c`.
pub record Restores (c' c : AdapterConfig) : Type 0 where
  pub device : c'.device ≡ c.device
  pub p2p_port : c'.p2p_port ≡ c.p2p_port
  pub dns1 : known_addr c'.dns1 ≡ known_addr c.dns1
  pub dns2 : known_addr c'.dns2 ≡ known_addr c.dns2
  pub relay : known_addr c'.relay ≡ known_addr c.relay
  pub token : get_relay_token c' ≡ get_relay_token c

length-library_save : (c : AdapterConfig) → length (library_save c) ≡ library_size
unfolding library_save
length-library_save c =
    let bytes = save_fields c in
    let total = checksum (drop 5 bytes) in
    length-set (set bytes 3 (u8 total)) 4 (total / 256)
    ∙ length-set bytes 3 (u8 total)
    ∙ (save_fields-SameFront c).size

module _ {W : Type 0} (cb : Callback W) (s : Storage cb) where
  -- The area of the library in the storage
  abbrev pub library_area : W → List ℕ
  library_area w = slice (s.stored w) library_offset library_size

  config_save-stored :
      (a : Adapter W)
      → a.config.dirty ≡ true
      → library_area (config_save cb a).user ≡ library_save a.config
  unfolding config_save cb_config_write
  config_save-stored a d =
      let src = library_save a.config in
      let size = length-library_save a.config in
      let wrote = s.writes a.user src library_offset (omega (arith, size)) in
      if_intro (λ (z : Adapter W). library_area z.user ≡ src) a.config.dirty
        (λ _. rw (wrote.1) (
          ap (λ k. slice (copy (s.stored a.user) library_offset src) library_offset k) (sym size)
          ∙ copy_self (s.stored a.user) library_offset src
              (omega (arith, size, s.stored_size a.user))))
        (λ e. ground (arith, d, e))

  internal_verify-area :
      (a : Adapter W) → library_area (internal_verify cb a).1.user ≡ library_area a.user
  unfolding internal_verify cb_config_read
  internal_verify-area a =
      let r0 = s.reads a.user 0 internal_half (omega arith) in
      let w0 = (cb.config_read a.user 0 internal_half).2 in
      let r1 = s.reads w0 internal_half internal_half (omega arith) in
      let kept0 = ap (λ (l : List ℕ). slice l library_offset library_size) r0.2 in
      let kept1 = ap (λ (l : List ℕ). slice l library_offset library_size) r1.2 in
      ground (arith, kept0, kept1)

  internal_clear-area :
      (a : Adapter W) → library_area (internal_clear cb a).user ≡ library_area a.user
  unfolding internal_clear cb_config_write
  internal_clear-area a =
      let zeros = replicate internal_half 0 in
      let r0 = s.writes a.user zeros 0 (omega arith) in
      let w0 = (cb.config_write a.user zeros 0).1 in
      let r1 = s.writes w0 zeros internal_half (omega arith) in
      rw (r1.1, r0.1)
        (copy_before (copy (s.stored a.user) 0 zeros) internal_half zeros library_offset
            library_size (omega arith)
          ∙ copy_before (s.stored a.user) 0 zeros library_offset library_size (omega arith))

  load_library-loads :
      (a : Adapter W)
      → let (ok, a') = load_library cb a in
        (ok ≡ (library_load a.config (library_area a.user)).0)
        × (a'.config ≡ (library_load a.config (library_area a.user)).1)
  unfolding load_library cb_config_read
  load_library-loads a =
      let r = s.reads a.user library_offset library_size (omega arith) in
      rw
        (
          r.0,
          r.1,
          take-take library_size library_size (drop library_offset (s.stored a.user)) (omega arith),
        )
        (refl, refl)

  -- The adapter after the game's area has been checked, and cleared where it is not valid
  abbrev checked : Adapter W → Adapter W
  checked b = let (valid, b') = internal_verify cb b in if valid then b' else internal_clear cb b'

  checked-area : (b : Adapter W) → library_area (checked b).user ≡ library_area b.user
  checked-area b =
      let b' = (internal_verify cb b).1 in
      if_intro (λ (z : Adapter W). library_area z.user ≡ library_area b.user)
        (internal_verify cb b).0 (λ _. internal_verify-area b)
        (λ _. internal_clear-area b' ∙ internal_verify-area b)

  checked-config : (b : Adapter W) → (checked b).config ≡ b.config
  unfolding internal_verify internal_clear cb_config_read cb_config_write
  checked-config b = ground arith

  config_load-loads :
      (b : Adapter W)
      → b.global.start ≡ false
      → let (ok, c) = library_load b.config (library_area b.user) in
        let c' = (config_load cb b).config in
        c' ≡ record c { dirty = if ok then false else c.dirty; loaded = true }
  unfolding config_load
  config_load-loads b e =
      let loads = load_library-loads (checked b) in
      let (ok, c) = library_load b.config (library_area b.user) in
      if_intro
        (λ (z : Adapter W).
          z.config ≡ record c { dirty = if ok then false else c.dirty; loaded = true })
        b.global.start (λ started. ground (arith, e, started))
        (λ _. rw (loads.0, loads.1, checked-config b, checked-area b) refl)

  -- A configuration that has changed is written, and a load that finds it in the area of the
  -- library restores it, is not to be written again, and is done, whatever the game's area holds.
  pub config_load-config_save :
      (a b : Adapter W)
      → Storable a.config
      → a.config.dirty ≡ true
      → HasHosts b.config
      → b.global.start ≡ false
      → library_area b.user ≡ library_area (config_save cb a).user
      → let c' = (config_load cb b).config in
        Restores c' a.config × (c'.loaded ≡ true) × (c'.dirty ≡ false)
  unfolding get_relay_token
  config_load-config_save a b h d n e k =
      let back = library_load-restores a.config b.config h n in
      rw (config_load-loads b e, k, config_save-stored a d)
        (
          record {
            device = back.1;
            p2p_port = back.2;
            dns1 = back.3;
            dns2 = back.4;
            relay = back.5;
            token = back.6;
          },
          refl,
          rw back.0 refl,
        )
