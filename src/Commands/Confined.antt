-- ===== src/Commands/Confined.antt =====
-- commands.c: what the game can reach, and the commands that do not exist.

-- The part of the stored configuration that is the game's, in the chunks that it may use.
use libmobile.Adapter.{Adapter, Callback, Packet}
use libmobile.Commands.Process.{Build, commands_process, process_internet}
use libmobile.Prelude.{
  List, [], arith, drop, false, length, some, suc, take, zero, ℕ, ◌+◌, ◌-◌, ◌∷◌, ◌≡◌, ◌≤◌,
}
use libmobile.Callback.{cb_config_read, cb_config_write}
use libmobile.Commands.Query.{
  command_eeprom_read, command_eeprom_write, config_size_real, max_chunk,
}
use libmobile.Serial.Incoming.{commands_exists}
use libmobile.Commands.Base.{data_at, error_packet}

abbrev pub AgreeOnReads : {W : Type 0} → Callback W → Callback W → Type 0
AgreeOnReads {W} cb cb' =
    (w : W) (offset size : ℕ)
    → offset + size ≤ config_size_real
    → size ≤ max_chunk
    → cb.config_read w offset size ≡ cb'.config_read w offset size

-- The game reads its own part of the stored configuration only, in chunks of 128 bytes at most: two
-- programs that read alike there give the same answer to every packet.
pub command_eeprom_read-confined :
    {W : Type 0} (cb cb' : Callback W) (a : Adapter W) (p : Packet)
    → AgreeOnReads cb cb'
    → command_eeprom_read cb a p ≡ command_eeprom_read cb' a p
unfolding command_eeprom_read cb_config_read
command_eeprom_read-confined cb cb' a p h = ground (arith, h a.user (data_at a 0) (data_at a 1))

abbrev pub AgreeOnWrites : {W : Type 0} → Callback W → Callback W → Type 0
AgreeOnWrites {W} cb cb' =
    (w : W) (src : List ℕ) (offset : ℕ)
    → offset + length src ≤ config_size_real
    → length src ≤ max_chunk
    → cb.config_write w src offset ≡ cb'.config_write w src offset

length-take_bound : (n : ℕ) (xs : List ℕ) → length (take n xs) ≤ n
length-take_bound zero xs = omega arith
length-take_bound (suc n) [] = omega arith
length-take_bound (suc n) (x ∷ xs) = ground (arith, length-take_bound n xs)

-- The game writes its own part of the stored configuration only, in chunks of 128 bytes at most: two
-- programs that write alike there give the same answer to every packet, so that what the library
-- stores behind it is out of the game's reach.
pub command_eeprom_write-confined :
    {W : Type 0} (cb cb' : Callback W) (a : Adapter W) (p : Packet)
    → AgreeOnWrites cb cb'
    → command_eeprom_write cb a p ≡ command_eeprom_write cb' a p
unfolding command_eeprom_write cb_config_write
command_eeprom_write-confined cb cb' a p h =
    let src = take (p.length - 1) (drop 1 a.serial.buffer) in
    ground
      (arith, h a.user src (data_at a 0), length-take_bound (p.length - 1) (drop 1 a.serial.buffer))

-- A command that the serial state machine does not know is an error for the handlers too, and
-- changes the adapter no further.
pub commands_process-unknown :
    {W : Type 0} (cb : Callback W) (env : Build) (a : Adapter W) (p : Packet)
    → commands_exists p.command ≡ false
    → commands_process cb env a p ≡ some (error_packet p 1 a)
unfolding commands_process process_internet commands_exists
commands_process-unknown cb env a p h = ground arith
