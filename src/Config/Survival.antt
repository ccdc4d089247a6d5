-- ===== src/Config/Survival.antt =====
-- commands.c and config.c: the settings of the library outlast what a game stores.
use libmobile.Adapter.{Adapter, Callback, Packet}
use libmobile.Prelude.{List, [], ℕ, ◌∷◌}
use libmobile.Config.Storage.{Storage}
use libmobile.Commands.Query.{command_eeprom_write}

-- What the game sends to write its own area: the bytes in the serial buffer, and the packet
abbrev pub Write : Type 0
Write = List ℕ × Packet

module _ {W : Type 0} (cb : Callback W) where
  -- The commands to write, one after another
  abbrev pub game_writes : Adapter W → List Write → Adapter W
  game_writes a [] = a
  game_writes a ((bytes, p) ∷ rest) =
      game_writes
        (command_eeprom_write cb (record a { serial = record a.serial { buffer = bytes } }) p).1
        rest
