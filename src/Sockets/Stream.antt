-- ===== src/Sockets/Stream.antt =====
-- commands.c: what `command_data` sends on a connection, over as many rounds as it takes.
use libmobile.Adapter.{Adapter, Callback, Packet, Timer, timer_command}
use libmobile.Commands.Base.{Answer, command_error, error_packet, put_processing_data}
use libmobile.Prelude.{
  Bool, List, get_or, length, none, slice, some, take, to_ℕ, ℕ, ◌++◌, ◌+◌, ◌<◌, ◌≡◌, ◌≢◌, ◌≤◌, [],
  ap, arith, if_intro, is_code, is_negative, is_zero, refl, ◌&&◌, ◌==◌, ◌∙◌, append_assoc, drop,
  length-drop, sym, ◌-◌, drop-add, drop-take, no_bytes, take-add, take_whole, get_or-set_self, leb,
  length-set, ltb, set, u8,
}
use libmobile.Callback.{cb_sock_close, cb_sock_recv, cb_time_check_ms, cb_sock_send}
use libmobile.Commands.Transfer.{data_receive, max_transfer_size, data_send}

-- What the data command needs of the embedding program, as mobile.h describes the functions: the
-- data that a connection has taken so far, to which a `mobile_func_sock_send` that returns `n` has
-- added the first `n` bytes, and to which no other function adds anything.
pub record Connection {W : Type 0} (cb : Callback W) (conn : ℕ) : Type 0 where
  pub stream : W → List ℕ
  pub sends :
      (w : W) (bytes : List ℕ)
      → let (rc, w') = cb.sock_send w conn bytes none in
        (to_ℕ rc ≤ length bytes) × (stream w' ≡ stream w ++ take (to_ℕ rc) bytes)
  pub receives : (w : W) (size : ℕ) → stream (cb.sock_recv w conn size).1 ≡ stream w
  pub closes : (w : W) → stream (cb.sock_close w conn) ≡ stream w
  pub checks : (w : W) (timer : Timer) (ms : ℕ) → stream (cb.time_check_ms w timer ms).1 ≡ stream w
  pub latches : (w : W) (timer : Timer) → stream (cb.time_latch w timer) ≡ stream w

module _ {W : Type 0} (cb : Callback W) (conn : ℕ) (s : Connection cb conn)
    (base payload : List ℕ) where
  -- How far the sending of the payload of the packet has got
  pub record Progress (a : Adapter W) (p : Packet) : Type 0 where
    pub begun : a.buffer_commands.processing ≢ 0
    pub counts : 0 < length a.buffer_commands.processing_data
    pub size : p.length ≡ length payload + 1
    pub within : get_or a.buffer_commands.processing_data 0 0 ≤ length payload
    pub sent : s.stream a.user ≡ base ++ take (get_or a.buffer_commands.processing_data 0 0) payload
    pub left : slice a.serial.buffer 1 (length payload) ≡ payload

  -- A round that goes on has made progress, and one that ends without an error has sent all.
  abbrev pub Round : Packet → Answer W → Type 0
  Round p (none, a) = Progress a p
  Round p (some q, a) = q.command ≢ command_error → s.stream a.user ≡ base ++ payload

  -- Nothing is sent while data are received.
  all_sent :
      (a : Adapter W) (p : Packet)
      → Progress a p
      → get_or a.buffer_commands.processing_data 0 0 ≡ length payload
      → s.stream a.user ≡ base ++ payload
  all_sent a p g e =
      g.sent ∙ ap (λ (k : ℕ). base ++ take k payload) e ∙ ap (λ l. base ++ l) (take_whole payload)

  waits-Progress :
      (a b : Adapter W) (p : Packet)
      → Progress a p
      → p.length ≡ 1
      → b.buffer_commands ≡ a.buffer_commands
      → s.stream b.user ≡ s.stream a.user
      → Progress b p
  waits-Progress a b p g n kept st =
      let none_left : payload ≡ [] = no_bytes payload (omega (arith, g.size)) in
      record {
        begun = rw kept g.begun;
        counts = rw kept g.counts;
        size = g.size;
        within = rw kept g.within;
        sent = rw kept (st ∙ g.sent);
        left = rw none_left refl;
      }

  data_receive-Round :
      (a : Adapter W) (p : Packet) (on_internet : Bool)
      → Progress a p
      → get_or a.buffer_commands.processing_data 0 0 ≡ length payload
      → Round p (data_receive cb a p conn on_internet)
  unfolding data_receive cb_sock_recv cb_sock_close cb_time_check_ms error_packet
  data_receive-Round a p on_internet g e =
      let r = (cb.sock_recv a.user conn max_transfer_size).0 in
      let w = (cb.sock_recv a.user conn max_transfer_size).1 in
      let late = (cb.time_check_ms w timer_command 1000).0 in
      let same = s.receives a.user max_transfer_size in
      let done = same ∙ all_sent a p g e in
      let checked = s.checks w timer_command 1000 in
      if_intro (Round p) (is_code 2 r.count)
        (λ _. if_intro (Round p) on_internet (λ _ _. s.closes w ∙ done) (λ _ _. done))
        (λ _.
          if_intro (Round p) (is_code 10 r.count) (λ _ _. done)
            (λ _.
              if_intro (Round p) (is_negative r.count) (λ _ _. done)
                (λ _.
                  if_intro (Round p) (on_internet && (p.length == 1 && is_zero r.count))
                    (λ h.
                      if_intro (Round p) late (λ _ _. checked ∙ done)
                        (λ _. waits-Progress a _ p g (ground arith) refl (checked ∙ same)))
                    (λ _ _. done))))

  -- What is handed over is what is left of the payload.
  pub chunk_lem :
      (a : Adapter W) (p : Packet)
      → Progress a p
      → let sent = get_or a.buffer_commands.processing_data 0 0 in
        take (p.length - 1 - sent) (drop (1 + sent) a.serial.buffer) ≡ drop sent payload
  chunk_lem a p g =
      let sent = get_or a.buffer_commands.processing_data 0 0 in
      let n : p.length - 1 ≡ length payload = omega (arith, g.size) in
      rw (n) (
        ap (take (length payload - sent)) (drop-add 1 sent a.serial.buffer)
        ∙ sym (drop-take sent (length payload) (drop 1 a.serial.buffer) g.within)
        ∙ ap (drop sent) g.left)

  -- The stream after a part has been taken
  sent_more :
      (a : Adapter W) (p : Packet)
      → Progress a p
      → let sent = get_or a.buffer_commands.processing_data 0 0 in
        let bytes = take (p.length - 1 - sent) (drop (1 + sent) a.serial.buffer) in
        let (rc, w) = cb.sock_send a.user conn bytes none in
        (sent + to_ℕ rc ≤ length payload) × (s.stream w ≡ base ++ take (sent + to_ℕ rc) payload)
  sent_more a p g =
      let sent = get_or a.buffer_commands.processing_data 0 0 in
      let bytes = take (p.length - 1 - sent) (drop (1 + sent) a.serial.buffer) in
      let rc = (cb.sock_send a.user conn bytes none).0 in
      let chunk = chunk_lem a p g in
      let taken = s.sends a.user bytes in
      let left = length-drop sent payload in
      (
        omega (arith, taken.0, ap length chunk, left, g.within),
        taken.1
            ∙ ap (λ (l : List ℕ). l ++ take (to_ℕ rc) bytes) g.sent
            ∙ append_assoc base (take sent payload) (take (to_ℕ rc) bytes)
            ∙ ap (λ (l : List ℕ). base ++ (take sent payload ++ take (to_ℕ rc) l)) chunk
            ∙ ap (λ l. base ++ l) (take-add sent (to_ℕ rc) payload),
      )

  -- The adapter once a part has been taken and counted
  pub counted-Progress :
      (a : Adapter W) (p : Packet)
      → p.length < 256
      → Progress a p
      → let sent = get_or a.buffer_commands.processing_data 0 0 in
        let bytes = take (p.length - 1 - sent) (drop (1 + sent) a.serial.buffer) in
        let (rc, a1) = cb_sock_send cb a conn bytes none in
        let a2 = put_processing_data a1 0 (u8 (sent + to_ℕ rc)) in
        Progress a2 p × (get_or a2.buffer_commands.processing_data 0 0 ≡ sent + to_ℕ rc)
  unfolding cb_sock_send
  counted-Progress a p m g =
      let counter = a.buffer_commands.processing_data in
      let sent = get_or counter 0 0 in
      let bytes = take (p.length - 1 - sent) (drop (1 + sent) a.serial.buffer) in
      let rc = (cb.sock_send a.user conn bytes none).0 in
      let (fits, streamed) = sent_more a p g in
      let narrow : u8 (sent + to_ℕ rc) ≡ sent + to_ℕ rc = omega (arith, g.size, fits) in
      let now : get_or (set counter 0 (u8 (sent + to_ℕ rc))) 0 0 ≡ sent + to_ℕ rc =
        get_or-set_self counter 0 (u8 (sent + to_ℕ rc)) 0 g.counts ∙ narrow in
      (
        record {
          begun = g.begun;
          counts = omega (arith, length-set counter 0 (u8 (sent + to_ℕ rc)), g.counts);
          size = g.size;
          within = rw now fits;
          sent = streamed ∙ ap (λ (k : ℕ). base ++ take k payload) (sym now);
          left = g.left;
        },
        now,
      )

  pub data_send-Round :
      (a : Adapter W) (p : Packet) (on_internet : Bool)
      → p.length < 256
      → Progress a p
      → Round p (data_send cb a p conn on_internet)
  unfolding data_send cb_sock_send cb_time_check_ms error_packet
  data_send-Round a p on_internet m g =
      let sent = get_or a.buffer_commands.processing_data 0 0 in
      let bytes = take (p.length - 1 - sent) (drop (1 + sent) a.serial.buffer) in
      let (rc, w) = cb.sock_send a.user conn bytes none in
      let (counted, now) = counted-Progress a p m g in
      let fits = (sent_more a p g).0 in
      let late = (cb.time_check_ms w timer_command 10000).0 in
      let checked = s.checks w timer_command 10000 in
      let size = g.size in
      let within = g.within in
      if_intro (Round p) (leb (p.length - 1) sent)
        (λ h. data_receive-Round a p on_internet g (ground arith))
        (λ _.
          if_intro (Round p) (is_negative rc) (λ _ k. absurd (k refl))
            (λ _.
              if_intro (Round p) (ltb (sent + to_ℕ rc) (p.length - 1))
                (λ _.
                  if_intro (Round p) late (λ _ k. absurd (k refl))
                    (λ _. record {
                      begun = counted.begun;
                      counts = counted.counts;
                      size = counted.size;
                      within = counted.within;
                      sent = checked ∙ counted.sent;
                      left = counted.left;
                    }))
                (λ h. data_receive-Round _ p on_internet counted (now ∙ ground arith))))
