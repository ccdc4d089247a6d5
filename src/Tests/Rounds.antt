-- ===== src/Tests/Rounds.antt =====
-- A run of the data command over several rounds.
use libmobile.Adapter.{Adapter, Callback, internet, no_addr}
use libmobile.Sockets.Rounds.{Begins, Sent, rounds, rounds-Sent}
use libmobile.Sockets.Stream.{Connection}
use libmobile.Prelude.{
  List, [], arith, false, length, min, pos, refl, replicate, take, true, ℕ, ◌++◌, ◌∷◌,
}
use libmobile.Sockets.Targets.{Targets}
use libmobile.Tests.Samples.{listening_adapter, with_user}
use libmobile.Commands.Transfer.{may_transfer}
use libmobile.Sockets.Finished.{Delivered, Takes, rounds-Delivered}

-- A program whose connections take up to two bytes at a time
abbrev narrow_program : Callback (List ℕ)
narrow_program = record {
  serial_disable = λ w. w;
  serial_enable = λ w mode. w;
  config_read = λ w offset size. (false, [], w);
  config_write = λ w src offset. (false, w);
  time_latch = λ w timer. w;
  time_check_ms = λ w timer ms. (false, w);
  sock_open = λ w conn type addrtype port. (true, w);
  sock_close = λ w conn. w;
  sock_connect = λ w conn addr. (pos 1, w);
  sock_listen = λ w conn. (true, w);
  sock_accept = λ w conn. (true, w);
  sock_send =
      λ w conn bytes addr. (pos (min 2 (length bytes)), w ++ take (min 2 (length bytes)) bytes);
  sock_recv = λ w conn size. (record { count = pos 0; bytes = []; from = no_addr }, w);
  update_number = λ w kind number. w;
}

narrow_program-Connection : Connection narrow_program 0
narrow_program-Connection = record {
  stream = λ w. w;
  sends = λ w bytes. (omega arith, refl);
  receives = λ w size. refl;
  closes = λ w. refl;
  checks = λ w timer ms. refl;
  latches = λ w timer. refl;
}

abbrev sending_adapter : Adapter (List ℕ)
sending_adapter = record (with_user (9 ∷ []) listening_adapter) {
  commands = record listening_adapter.commands { state = internet };
  serial = record listening_adapter.serial { buffer = 0 ∷ 1 ∷ 2 ∷ 3 ∷ replicate 251 0 };
}

sending_adapter-Targets :
    Targets narrow_program 0 sending_adapter (record { command = 0x15; length = 4 })
unfolding may_transfer
sending_adapter-Targets = ground arith

sending_adapter-Begins :
    Begins narrow_program 0 narrow_program-Connection
      (9 ∷ [])
      (1 ∷ 2 ∷ 3 ∷ [])
      sending_adapter
      (record { command = 0x15; length = 4 })
unfolding narrow_program-Connection
sending_adapter-Begins = record {
  fresh = refl;
  counts = omega arith;
  size = refl;
  nothing_sent = refl;
  whole = refl;
}

rounds-Sent_example : Sent narrow_program 0 narrow_program-Connection (9 ∷ []) (1 ∷ 2 ∷ 3 ∷ []) (
    rounds narrow_program 0
      ((λ w. w) ∷ (λ w. w) ∷ [])
      sending_adapter
      (record { command = 0x15; length = 4 }))
rounds-Sent_example =
    rounds-Sent narrow_program 0 narrow_program-Connection (9 ∷ []) (1 ∷ 2 ∷ 3 ∷ [])
      ((λ w. w) ∷ (λ w. w) ∷ []) sending_adapter (record { command = 0x15; length = 4 })
      (omega arith) (λ w. refl, (λ w. refl, tt)) sending_adapter-Targets sending_adapter-Begins

narrow_program-Takes : Takes narrow_program 0
narrow_program-Takes w bytes h = ground arith

rounds-Delivered_example :
    Delivered narrow_program 0 narrow_program-Connection (9 ∷ []) (1 ∷ 2 ∷ 3 ∷ []) (
      rounds narrow_program 0
        ((λ w. w) ∷ (λ w. w) ∷ (λ w. w) ∷ (λ w. w) ∷ [])
        sending_adapter
        (record { command = 0x15; length = 4 }))
rounds-Delivered_example =
    rounds-Delivered narrow_program 0 narrow_program-Connection (9 ∷ []) (1 ∷ 2 ∷ 3 ∷ [])
      ((λ w. w) ∷ (λ w. w) ∷ (λ w. w) ∷ (λ w. w) ∷ []) sending_adapter
      (record { command = 0x15; length = 4 }) narrow_program-Takes (omega arith) (omega arith)
      (λ w. refl, (λ w. refl, (λ w. refl, (λ w. refl, tt)))) sending_adapter-Targets
      sending_adapter-Begins (omega arith)
