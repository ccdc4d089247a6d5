-- ===== src/Sockets/Finished.antt =====
-- commands.c: the rounds of a data command come to an end.
use libmobile.Adapter.{Adapter, Callback, Packet, timer_command}
use libmobile.Commands.Base.{Answer, command_error, error_packet, is_internet}
use libmobile.Prelude.{
  Bool, List, ap, arith, drop, false, get_or, if_intro, is_code, is_negative, is_zero, leb, length,
  length-drop, ltb, none, some, take, to_ℕ, true, ℕ, ℤ, ◌&&◌, ◌++◌, ◌+◌, ◌-◌, ◌<◌, ◌==◌, ◌≡◌, ◌≢◌,
  [], inl, inr, negsuc, pos, ◌∷◌,
}
use libmobile.Sockets.Stream.{Connection, Progress, chunk_lem, counted-Progress, Round}
use libmobile.Callback.{cb_sock_close, cb_sock_recv, cb_sock_send, cb_time_check_ms}
use libmobile.Commands.Transfer.{data_receive, data_send, max_transfer_size, command_data}
use libmobile.Sockets.Rounds.{
  Begins, Quiet, begun, begun-Progress, between-Begins, between-Progress, command_data-Begins,
  command_data-Progress, command_data-Round, rounds,
}
use libmobile.Sockets.Targets.{Same, Targets, command_data-Same}

alone :
    (on_internet : Bool) (n : ℕ) (nothing : Bool)
    → on_internet && (n == 1 && nothing) ≡ true
    → 1 < n
    → ⊥
alone on_internet n nothing h m = ground arith

some_taken : (rc : ℤ) → is_zero rc ≡ false → is_negative rc ≡ false → 0 < to_ℕ rc
some_taken (pos n) h k = ground arith
some_taken (negsuc n) h k = ground arith

module _ {W : Type 0} (cb : Callback W) (conn : ℕ) where
  -- The program takes some of what it is given to send, or fails.
  abbrev pub Takes : Type 0
  Takes =
      (w : W) (bytes : List ℕ)
      → 0 < length bytes
      → is_zero (cb.sock_send w conn bytes none).0 ≡ false

  -- How much has been sent
  abbrev pub sent_of : Adapter W → ℕ
  sent_of a = get_or a.buffer_commands.processing_data 0 0

  -- A round that goes on has sent more than the ones before it.
  abbrev pub SendsMore : ℕ → Answer W → Type 0
  SendsMore sent (none, b) = sent < sent_of b
  SendsMore sent (some q, b) = Unit

  data_receive-SendsMore :
      (a : Adapter W) (p : Packet) (on_internet : Bool) (n : ℕ)
      → 1 < p.length
      → SendsMore n (data_receive cb a p conn on_internet)
  unfolding data_receive cb_sock_recv cb_sock_close cb_time_check_ms error_packet
  data_receive-SendsMore a p on_internet n m =
      let P = SendsMore n in
      let r = (cb.sock_recv a.user conn max_transfer_size).0 in
      let w = (cb.sock_recv a.user conn max_transfer_size).1 in
      let late = (cb.time_check_ms w timer_command 1000).0 in
      if_intro P (is_code 2 r.count) (λ _. if_intro P on_internet (λ _. tt) (λ _. tt))
        (λ _.
          if_intro P (is_code 10 r.count) (λ _. tt)
            (λ _.
              if_intro P (is_negative r.count) (λ _. tt)
                (λ _.
                  if_intro P (on_internet && (p.length == 1 && is_zero r.count))
                    (λ h. absurd (alone on_internet p.length (is_zero r.count) h m)) (λ _. tt))))

  data_send-SendsMore :
      (s : Connection cb conn) (base payload : List ℕ) (a : Adapter W) (p : Packet)
      (on_internet : Bool)
      → Takes
      → 1 < p.length
      → p.length < 256
      → Progress cb conn s base payload a p
      → SendsMore (sent_of a) (data_send cb a p conn on_internet)
  unfolding data_send cb_sock_send cb_time_check_ms error_packet
  data_send-SendsMore s base payload a p on_internet takes n m g =
      let P = SendsMore (sent_of a) in
      let sent = sent_of a in
      let bytes = take (p.length - 1 - sent) (drop (1 + sent) a.serial.buffer) in
      let (rc, w) = cb.sock_send a.user conn bytes none in
      let late = (cb.time_check_ms w timer_command 10000).0 in
      let now = (counted-Progress cb conn s base payload a p m g).1 in
      let chunk = chunk_lem cb conn s base payload a p g in
      let left = length-drop sent payload in
      if_intro P (leb (p.length - 1) sent) (λ _. data_receive-SendsMore a p on_internet sent n)
        (λ h.
          let some_left : sent < p.length - 1 = ground arith in
          let taken =
            takes a.user bytes (omega (arith, ap length chunk, left, g.size, some_left)) in
          if_intro P (is_negative rc) (λ _. tt)
            (λ k.
              if_intro P (ltb (sent + to_ℕ rc) (p.length - 1))
                (λ _. if_intro P late (λ _. tt) (λ _. omega (arith, now, some_taken rc taken k)))
                (λ _. data_receive-SendsMore _ p on_internet sent n)))

module _ {W : Type 0} (cb : Callback W) (conn : ℕ) (s : Connection cb conn)
    (base payload : List ℕ) where
  -- The command has been answered, and all has been sent unless the answer is an error.
  abbrev pub Delivered : Answer W → Type 0
  Delivered (none, a) = ⊥
  Delivered (some q, a) = q.command ≢ command_error → s.stream a.user ≡ base ++ payload

  Round-Delivered :
      (rest : List (W → W)) (a : Adapter W) (p : Packet) (sent : ℕ)
      → ((b : Adapter W)
          → Targets cb conn b p
          → Progress cb conn s base payload b p
          → sent < sent_of cb conn b
          → Delivered (rounds cb conn rest b p))
      → Targets cb conn a p
      → (r : Answer W) → Round cb conn s base payload p r
      → Same cb conn a r
      → SendsMore cb conn sent r
      → Delivered (elim r.0 [ none ↦ rounds cb conn rest r.1 p | some q ↦ (some q, r.1) ])
  Round-Delivered rest a p sent goes_on t (none, b) g alike more =
      goes_on b (rw (alike.0, alike.1) t) g more
  Round-Delivered rest a p sent goes_on t (some q, b) g alike more = g

  -- From a command that goes on
  rounds-Delivered_from :
      (fs : List (W → W)) (a : Adapter W) (p : Packet)
      → Takes cb conn
      → 0 < length payload
      → p.length < 256
      → Quiet cb conn s base payload fs
      → Targets cb conn a p
      → Progress cb conn s base payload a p
      → length payload - sent_of cb conn a < length fs
      → Delivered (rounds cb conn fs a p)
  rounds-Delivered_from [] a p takes n m q t g k = absurd (omega arith)
  rounds-Delivered_from (between ∷ rest) a p takes n m q t g k =
      let a1 = record a { user = between a.user } in
      let g1 = between-Progress cb conn s base payload between a p q.0 g in
      Round-Delivered rest a1 p (sent_of cb conn a1)
        (λ b u h more.
          rounds-Delivered_from rest b p takes n m q.1 u h (omega (arith, h.within, more, k)))
        t (command_data cb a1 p) (command_data-Round cb conn s base payload a1 p m t (inr g1))
        (command_data-Same cb conn a1 p t)
        (rw (command_data-Progress cb conn s base payload a1 p t g1) (
          data_send-SendsMore cb conn s base payload a1 p (is_internet a.commands.state) takes
            (omega (arith, g.size)) m g1))

  -- Where a data command begins with a payload of 1 to 254 bytes on an open connection, on a
  -- program that takes at least one byte whenever it is given some, or fails, and that sends nothing
  -- else on the connection between the rounds: it is answered within one round more than there are
  -- bytes, and unless the answer is an error, the payload has then gone out, whole, in order and
  -- once.
  pub rounds-Delivered :
      (fs : List (W → W)) (a : Adapter W) (p : Packet)
      → Takes cb conn
      → 0 < length payload
      → p.length < 256
      → Quiet cb conn s base payload fs
      → Targets cb conn a p
      → Begins cb conn s base payload a p
      → length payload < length fs
      → Delivered (rounds cb conn fs a p)
  rounds-Delivered [] a p takes n m q t g k = absurd (omega arith)
  rounds-Delivered (between ∷ rest) a p takes n m q t g k =
      let a1 = record a { user = between a.user } in
      let g1 = between-Begins cb conn s base payload between a p q.0 g in
      Round-Delivered rest a1 p (sent_of cb conn (begun cb conn s base payload a1))
        (λ b u h more.
          rounds-Delivered_from rest b p takes n m q.1 u h (omega (arith, h.within, more, n, k)))
        t (command_data cb a1 p) (command_data-Round cb conn s base payload a1 p m t (inl g1))
        (command_data-Same cb conn a1 p t)
        (rw (command_data-Begins cb conn s base payload a1 p t g1) (
          data_send-SendsMore cb conn s base payload (begun cb conn s base payload a1) p
            (is_internet a.commands.state) takes (omega (arith, g.size)) m
            (begun-Progress cb conn s base payload a1 p g1)))
