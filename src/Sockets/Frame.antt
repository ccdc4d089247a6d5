-- ===== src/Sockets/Frame.antt =====
-- What the handlers of the commands leave alone: the session, and what the main loop keeps of the
-- packet that is being processed.
use libmobile.Adapter.{Adapter}
use libmobile.Prelude.{length, ◌≡◌, arith}

module _ {W : Type 0} where
  pub record Frame (a b : Adapter W) : Type 0 where
    pub same_serial : b.serial.state ≡ a.serial.state
    pub same_session : b.commands.session_started ≡ a.commands.session_started
    pub same_active : b.global.active ≡ a.global.active
    pub same_parsed : b.global.packet_parsed ≡ a.global.packet_parsed
    pub same_command : b.buffer_commands.packet.command ≡ a.buffer_commands.packet.command
    pub same_length :
        length b.buffer_commands.processing_data ≡ length a.buffer_commands.processing_data

  pub Frame-trans : {a b c : Adapter W} → Frame a b → Frame b c → Frame a c
  Frame-trans h k = ground arith
