-- ===== src/Sockets/Rounds.antt =====
-- commands.c: the rounds of a data command, until it is answered.
use libmobile.Adapter.{Adapter, Callback, Packet, max_connections, timer_command}
use libmobile.Commands.Base.{
  Answer, command_error, is_internet, put_processing, put_processing_data,
}
use libmobile.Sockets.Stream.{Connection, Progress, Round, data_send-Round}
use libmobile.Prelude.{
  List, [], append-nil, arith, false, get_or, get_or-set_self, inl, inr, leb, length, length-set,
  ltb, none, slice, some, sym, take, ℕ, ◌++◌, ◌+◌, ◌<◌, ◌==◌, ◌∙◌, ◌∷◌, ◌≡◌, ◌≢◌, ◌⊎◌,
  if◌then◌else◌, refl,
}
use libmobile.Sockets.Targets.{Same, Targets, command_data-Same}
use libmobile.Callback.{cb_time_latch}
use libmobile.Commands.Transfer.{command_data, data_send}

module _ {W : Type 0} (cb : Callback W) (conn : ℕ) where
  -- What the program does between two rounds, and the rounds
  abbrev pub rounds : List (W → W) → Adapter W → Packet → Answer W
  rounds [] a p = (none, a)
  rounds (between ∷ rest) a p =
      let (answer, b) = command_data cb (record a { user = between a.user }) p in
      elim answer [ none ↦ rounds rest b p | some q ↦ (some q, b) ]

module _ {W : Type 0} (cb : Callback W) (conn : ℕ) (s : Connection cb conn)
    (base payload : List ℕ) where
  -- A command that has not begun
  pub record Begins (a : Adapter W) (p : Packet) : Type 0 where
    pub fresh : a.buffer_commands.processing ≡ 0
    pub counts : 0 < length a.buffer_commands.processing_data
    pub size : p.length ≡ length payload + 1
    pub nothing_sent : s.stream a.user ≡ base
    pub whole : slice a.serial.buffer 1 (length payload) ≡ payload

  abbrev pub begun : Adapter W → Adapter W
  begun a = put_processing (cb_time_latch cb (put_processing_data a 0 0) timer_command) 1

  pub begun-Progress :
      (a : Adapter W) (p : Packet) → Begins a p → Progress cb conn s base payload (begun a) p
  unfolding cb_time_latch
  begun-Progress a p g =
      let counter = a.buffer_commands.processing_data in
      let now = get_or-set_self counter 0 0 0 g.counts in
      record {
        begun = λ e. absurd (omega arith);
        counts = omega (arith, length-set counter 0 0, g.counts);
        size = g.size;
        within = rw now (omega arith);
        sent = rw now (s.latches a.user timer_command ∙ g.nothing_sent ∙ sym (append-nil base));
        left = g.whole;
      }

  -- A round comes down to sending, from the start or from where the last one ended.
  command_data-data_send :
      (a : Adapter W) (p : Packet)
      → 0 < p.length
      → Targets cb conn a p
      → command_data cb a p ≡ (
          let on_internet = is_internet a.commands.state in
          if a.buffer_commands.processing == 0
          then data_send cb (begun a) p conn on_internet
          else data_send cb a p conn on_internet)
  unfolding command_data
  command_data-data_send a p n t =
      let long : ltb p.length 1 ≡ false = ground arith in
      let near : leb max_connections conn ≡ false = let m = t.2 in ground arith in
      rw (t.0, long, t.3, near, t.1) refl

  Begins-length : (a : Adapter W) (p : Packet) → Begins a p → 0 < p.length
  Begins-length a p g = omega (arith, g.size)

  Progress-length :
      (a : Adapter W) (p : Packet) → Progress cb conn s base payload a p → 0 < p.length
  Progress-length a p g = omega (arith, g.size)

  -- A round of a command that begins, and one of a command that goes on
  pub command_data-Begins :
      (a : Adapter W) (p : Packet)
      → Targets cb conn a p
      → Begins a p
      → command_data cb a p ≡ data_send cb (begun a) p conn (is_internet a.commands.state)
  command_data-Begins a p t g =
      let fresh = g.fresh in command_data-data_send a p (Begins-length a p g) t ∙ ground arith

  pub command_data-Progress :
      (a : Adapter W) (p : Packet)
      → Targets cb conn a p
      → Progress cb conn s base payload a p
      → command_data cb a p ≡ data_send cb a p conn (is_internet a.commands.state)
  command_data-Progress a p t g =
      let begun = g.begun in command_data-data_send a p (Progress-length a p g) t ∙ ground arith

  pub command_data-Round :
      (a : Adapter W) (p : Packet)
      → p.length < 256
      → Targets cb conn a p
      → Begins a p ⊎ Progress cb conn s base payload a p
      → Round cb conn s base payload p (command_data cb a p)
  command_data-Round a p m t (inl g) = rw (command_data-Begins a p t g) (
      data_send-Round cb conn s base payload (begun a) p (is_internet a.commands.state) m
        (begun-Progress a p g))
  command_data-Round a p m t (inr g) =
      rw (command_data-Progress a p t g)
        (data_send-Round cb conn s base payload a p (is_internet a.commands.state) m g)

  -- What the program does between the rounds sends nothing on the connection.
  abbrev pub Quiet : List (W → W) → Type 0
  Quiet [] = Unit
  Quiet (between ∷ rest) = ((w : W) → s.stream (between w) ≡ s.stream w) × Quiet rest

  -- What has gone out: a part of the payload while the command goes on, and all of it when it has
  -- been answered without an error
  abbrev pub Sent : Answer W → Type 0
  Sent (none, a) = (k : ℕ) × (s.stream a.user ≡ base ++ take k payload)
  Sent (some q, a) = q.command ≢ command_error → s.stream a.user ≡ base ++ payload

  -- A round, and what the rounds after it do if it goes on
  Round-Sent :
      (rest : List (W → W)) (a : Adapter W) (p : Packet)
      → ((b : Adapter W)
          → Targets cb conn b p
          → Progress cb conn s base payload b p
          → Sent (rounds cb conn rest b p))
      → Targets cb conn a p
      → (r : Answer W) → Round cb conn s base payload p r
      → Same cb conn a r
      → Sent (elim r.0 [ none ↦ rounds cb conn rest r.1 p | some q ↦ (some q, r.1) ])
  Round-Sent rest a p goes_on t (none, b) g alike = goes_on b (rw (alike.0, alike.1) t) g
  Round-Sent rest a p goes_on t (some q, b) g alike = g

  pub between-Begins :
      (between : W → W) (a : Adapter W) (p : Packet)
      → ((w : W) → s.stream (between w) ≡ s.stream w)
      → Begins a p
      → Begins (record a { user = between a.user }) p
  between-Begins between a p quiet g = record {
    fresh = g.fresh;
    counts = g.counts;
    size = g.size;
    nothing_sent = quiet a.user ∙ g.nothing_sent;
    whole = g.whole;
  }

  pub between-Progress :
      (between : W → W) (a : Adapter W) (p : Packet)
      → ((w : W) → s.stream (between w) ≡ s.stream w)
      → Progress cb conn s base payload a p
      → Progress cb conn s base payload (record a { user = between a.user }) p
  between-Progress between a p quiet g = record {
    begun = g.begun;
    counts = g.counts;
    size = g.size;
    within = g.within;
    sent = quiet a.user ∙ g.sent;
    left = g.left;
  }

  rounds-Sent_from :
      (fs : List (W → W)) (a : Adapter W) (p : Packet)
      → p.length < 256
      → Quiet fs
      → Targets cb conn a p
      → Begins a p ⊎ Progress cb conn s base payload a p
      → Sent (rounds cb conn fs a p)
  rounds-Sent_from [] a p m q t (inl g) = (0, g.nothing_sent ∙ sym (append-nil base))
  rounds-Sent_from [] a p m q t (inr g) = (get_or a.buffer_commands.processing_data 0 0, g.sent)
  rounds-Sent_from (between ∷ rest) a p m q t g =
      let a1 = record a { user = between a.user } in
      Round-Sent rest a1 p (λ b u h. rounds-Sent_from rest b p m q.1 u (inr h)) t
        (command_data cb a1 p)
        (command_data-Round a1 p m t (elim g [
          | inl h ↦ inl (between-Begins between a p q.0 h)
          | inr h ↦ inr (between-Progress between a p q.0 h)
        ]))
        (command_data-Same cb conn a1 p t)

  -- Where a data command begins with a payload of less than 255 bytes on an open connection, and
  -- whatever the program does between the rounds that sends nothing on the connection: after any
  -- number of rounds of `command_data`, what has gone out on the connection is what had before
  -- and then, while the command is unanswered, the start of the payload, and once it is answered
  -- without an error, the payload, whole, in order and once, however the program took it apart.
  pub rounds-Sent :
      (fs : List (W → W)) (a : Adapter W) (p : Packet)
      → p.length < 256
      → Quiet fs
      → Targets cb conn a p
      → Begins a p
      → Sent (rounds cb conn fs a p)
  rounds-Sent fs a p m q t g = rounds-Sent_from fs a p m q t (inl g)
