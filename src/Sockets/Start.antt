-- ===== src/Sockets/Start.antt =====
-- commands.c: beginning a session takes over the account of the sockets.
use libmobile.Adapter.{Adapter, Callback, Packet}
use libmobile.Sockets.Ledger.{Idle, Ledger, audited}
use libmobile.Sockets.Tel.{Settled}
use libmobile.Prelude.{arith, false, true, ◌≡◌, if_intro, if◌then◌else◌, ltb, not, ◌&&◌, ◌==◌}
use libmobile.Commands.Session.{
  command_reinit, command_start, do_end_session, do_start_session, device_red, happy, has_key,
  nintendo,
}
use libmobile.Sockets.Session.{do_end_session-Idle, do_start_session-Accounted}
use libmobile.Commands.Base.{error_packet, is_internet, Answer}

module _ {W : Type 0} where
  -- The sockets are accounted for, within a session and outside of one.
  pub record InOrder (a : Adapter (Ledger W)) : Type 0 where
    pub within : a.commands.session_started ≡ true → Settled a
    pub outside : a.commands.session_started ≡ false → Idle a

  abbrev AnswerInOrder : Answer (Ledger W) → Type 0
  AnswerInOrder (p, a) = InOrder a

module _ {W : Type 0} (cb : Callback W) where
  do_start_session-Settled :
      (a : Adapter (Ledger W))
      → Idle a
      → Settled (do_start_session (audited cb) a)
        × ((do_start_session (audited cb) a).commands.session_started ≡ true)
        × ((do_start_session (audited cb) a).user.opened 0 ≡ false)
        × ((do_start_session (audited cb) a).user.opened 1 ≡ false)
  unfolding do_start_session
  do_start_session-Settled a h = ground (arith, do_start_session-Accounted cb a h)

  -- With the sockets in order before it, beginning a session, whether it is granted or refused,
  -- leaves the sockets in order: the socket of an unfinished fetching of the number is closed
  -- before the session's own are counted.
  pub command_start-InOrder :
      (a : Adapter (Ledger W)) (p : Packet) → InOrder a → InOrder (command_start (audited cb) a p).1
  unfolding command_start error_packet is_internet
  command_start-InOrder a p h =
      if_intro AnswerInOrder a.commands.session_started (λ _. ground arith)
        (λ e.
          let begun = do_start_session-Settled a (h.outside e) in
          let started : InOrder (do_start_session (audited cb) a) = ground (arith, begun) in
          if_intro AnswerInOrder (p.length == 32 && has_key a happy) (λ _. started)
            (λ _.
              if_intro AnswerInOrder
                (if a.serial.device == device_red then ltb p.length 8 else not (p.length == 8))
                (λ _. ground arith)
                (λ _.
                  if_intro AnswerInOrder (has_key a nintendo) (λ _. started) (λ _. ground arith))))

  -- Beginning a session anew closes every socket of the old one, and leaves the sockets in order.
  pub command_reinit-InOrder :
      (a : Adapter (Ledger W)) (p : Packet)
      → Settled a
      → let a' = (command_reinit (audited cb) a p).1 in
        InOrder a' × (a'.user.opened 0 ≡ false) × (a'.user.opened 1 ≡ false)
  unfolding command_reinit
  command_reinit-InOrder a p h =
      let a1 = do_end_session (audited cb) a in
      let ended = do_end_session-Idle cb a h.account in
      ground (arith, ended, do_start_session-Settled a1 ended.0)
