-- ===== src/Whole/Pending.antt =====
-- commands.c and mobile.c: the sockets between two rounds of the main loop.

-- The commands that go on over several rounds and keep more than the packet: dialling, opening a
-- connection, and looking a name up.
use libmobile.Sockets.Ledger.{Accounted, Idle, Ledger}
use libmobile.Adapter.{Adapter}
use libmobile.Commands.Base.{Answer}
use libmobile.Prelude.{Bool, arith, false, length, true, ℕ, ◌==◌, ◌||◌, ◌≡◌, ◌≢◌, ◌≤◌, ◌⊎◌, ◌∙◌}
use libmobile.Sockets.Connect.{Connecting}
use libmobile.Sockets.Tel.{Dialling, Settled, sends}
use libmobile.Sockets.Frame.{Frame}
use libmobile.Whole.Course.{Turns}

abbrev pub tel_code : ℕ
tel_code = 0x12

abbrev pub is_connect : ℕ → Bool
is_connect c = c == 0x23 || c == 0x28

module _ {W : Type 0} where
  -- Before the handler of command `c` is called at step `n`.
  pub record Pending (c n : ℕ) (a : Adapter (Ledger W)) : Type 0 where
    pub account : Accounted a
    pub settled : (n ≡ 0) ⊎ ((c ≢ tel_code) × (is_connect c ≡ false)) → Settled a
    pub dialling : c ≡ tel_code → n ≢ 0 → Dialling a
    pub connecting : is_connect c ≡ true → n ≢ 0 → Connecting a
    pub tel_steps : c ≡ tel_code → n ≤ 2
    pub connect_steps : is_connect c ≡ true → n ≤ 1

  Settled-Pending :
      (c : ℕ) (a : Adapter (Ledger W))
      → Settled a
      → (c ≢ tel_code) × (is_connect c ≡ false)
      → (n : ℕ) → Pending c n a
  Settled-Pending c a s e n = ground arith

  Settled-fresh : (c : ℕ) (a : Adapter (Ledger W)) → Settled a → Pending c 0 a
  Settled-fresh c a s = ground arith

  -- What the handler of command `c` leaves behind.
  pub record After (c : ℕ) (a : Adapter (Ledger W)) (r : Answer (Ledger W)) : Type 0 where
    pub answered : r.1.commands.session_started ≡ true → sends r.0 ≡ true → Settled r.1
    pub goes_on : sends r.0 ≡ false → Pending c r.1.buffer_commands.processing r.1
    pub session_goes_on : sends r.0 ≡ false → r.1.commands.session_started ≡ true
    pub outside : r.1.commands.session_started ≡ false → Idle r.1
    pub same_active : r.1.global.active ≡ a.global.active
    pub same_serial : r.1.serial.state ≡ a.serial.state
    pub same_command : r.1.buffer_commands.packet.command ≡ a.buffer_commands.packet.command
    pub same_parsed : r.1.global.packet_parsed ≡ a.global.packet_parsed
    pub same_length :
        length r.1.buffer_commands.processing_data ≡ length a.buffer_commands.processing_data
    pub turn : a.commands.session_started ≡ true → Turns c a r

  -- A handler that stays within the session.
  pub Frame-After :
      (c : ℕ) (a : Adapter (Ledger W)) (r : Answer (Ledger W))
      → a.commands.session_started ≡ true
      → Frame a r.1
      → Turns c a r
      → (sends r.0 ≡ true → Settled r.1)
      → (sends r.0 ≡ false → Pending c r.1.buffer_commands.processing r.1)
      → After c a r
  Frame-After c a r o f t s g = record {
    answered = λ _. s;
    goes_on = g;
    session_goes_on = λ _. f.same_session ∙ o;
    outside = λ e. absurd (ground (arith, f));
    same_active = f.same_active;
    same_serial = f.same_serial;
    same_command = f.same_command;
    same_parsed = f.same_parsed;
    same_length = f.same_length;
    turn = λ _. t;
  }

  -- A handler that, whether it goes on or not, leaves the sockets as between two commands.
  pub Settled-After :
      (c : ℕ) (a : Adapter (Ledger W)) (r : Answer (Ledger W))
      → (c ≢ tel_code) × (is_connect c ≡ false)
      → a.commands.session_started ≡ true
      → Frame a r.1
      → Turns c a r
      → Settled r.1
      → After c a r
  Settled-After c a r e o f t s =
      Frame-After c a r o f t (λ _. s)
        (λ _. Settled-Pending c r.1 s e r.1.buffer_commands.processing)
