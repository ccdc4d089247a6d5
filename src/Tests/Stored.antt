-- ===== src/Tests/Stored.antt =====
-- Saving and loading a configuration.
use libmobile.Adapter.{AdapterConfig, no_addr, Adapter, Callback}
use libmobile.Prelude.{
  arith, refl, replicate, true, ◌≡◌, false, set, List, [], copy, length, length-copy, pos, slice, ℕ,
  ◌∙◌, ◌∷◌,
}
use libmobile.Config.Library.{
  library_load, library_save, checksum, library_valid, save_fields, save_host,
}
use libmobile.Config.Damage.{library_load-damaged}
use libmobile.Config.Settings.{config_save}
use libmobile.Config.Storage.{Storage, config_size}
use libmobile.Config.Survival.{Write, game_writes}
use libmobile.Tests.Samples.{listening_adapter, with_user}

abbrev some_config : AdapterConfig
some_config = record {
  loaded = true;
  dirty = true;
  relay_token_init = true;
  device = 0x88;
  dns1 = record no_addr { type = 1 };
  dns2 = no_addr;
  p2p_port = 1027;
  relay = record no_addr { type = 2; port = 31227 };
  relay_token = replicate 16 7;
}

-- A configuration that another one is loaded over
abbrev other_config : AdapterConfig
other_config = record some_config {
  device = 9;
  p2p_port = 5;
  relay_token = replicate 16 1;
  relay = no_addr;
}

library_load-damaged_example :
    library_load some_config (set (library_save some_config) 5 0x89) ≡ (false, some_config)
unfolding library_save save_fields save_host library_valid checksum
library_load-damaged_example =
    library_load-damaged (library_save some_config) 5 0x89 some_config refl (omega arith)
      (omega arith) (omega arith) (omega arith) (λ e. absurd (omega arith))

-- A storage that keeps what is written to it
abbrev Kept : Type 0
Kept = (bytes : List ℕ) × (length bytes ≡ config_size)

abbrev keeping_program : Callback Kept
keeping_program = record {
  serial_disable = λ w. w;
  serial_enable = λ w mode. w;
  config_read = λ w offset size. (true, slice w.0 offset size, w);
  config_write = λ w src offset. (true, (copy w.0 offset src, length-copy w.0 offset src ∙ w.1));
  time_latch = λ w timer. w;
  time_check_ms = λ w timer ms. (false, w);
  sock_open = λ w conn type addrtype port. (false, w);
  sock_close = λ w conn. w;
  sock_connect = λ w conn addr. (pos 0, w);
  sock_listen = λ w conn. (false, w);
  sock_accept = λ w conn. (false, w);
  sock_send = λ w conn bytes addr. (pos 0, w);
  sock_recv = λ w conn size. (record { count = pos 0; bytes = []; from = no_addr }, w);
  update_number = λ w kind number. w;
}

abbrev saving_adapter : Adapter Kept
saving_adapter = record (with_user (replicate config_size 0, refl) listening_adapter) {
  config = some_config;
}

-- The game writes two bytes at 0x10.
abbrev played_adapter : Adapter Kept
played_adapter = with_user (config_save keeping_program saving_adapter).user listening_adapter

abbrev one_write : List Write
one_write = (0x10 ∷ 7 ∷ 8 ∷ [], record { command = 0x1a; length = 3 }) ∷ []

abbrev restarted_adapter : Adapter Kept
restarted_adapter =
    let w = (game_writes keeping_program played_adapter one_write).user in
    record (with_user w listening_adapter) {
      config = other_config;
      global = record listening_adapter.global { start = false };
    }
