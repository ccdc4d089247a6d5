-- ===== src/Tests/Log.antt =====
-- Runs of the debug log.
use Prim.Native.String.{String}
use libmobile.Debug.Line.{Call, Debug, endl, print, run_debug, write}
use libmobile.Prelude.{List, [], arith, refl, replicate, take, true, ℕ, ◌∷◌, ◌≡◌, ◌++◌}
use libmobile.Debug.Log.{Shows, Written, collecting, run_debug-Shows, written_by}
use libmobile.Debug.Command.{debug_command}
use libmobile.Debug.Inside.{debug_command_inside}
use libmobile.Adapter.{Adapter}
use libmobile.Sockets.Ledger.{Ledger, audited}
use libmobile.Tests.Samples.{online_adapter, program}
use libmobile.Debug.Relay.{prefix, wait_recv_debug, wait_result}
use libmobile.Relay.Exchange.{wait_recv, number_recv, relay_recv}
use libmobile.Debug.Heard.{wait_recv-logged}

-- A `vsnprintf` that makes three bytes of every format
abbrev plain : String → List ℕ → List ℕ
plain fmt args = replicate 3 b'x'

abbrev empty_debug : Debug (List (List ℕ))
empty_debug = record { current = 0; buffer = replicate 80 0; user = [] }

abbrev nothing : Written
nothing = record { text = []; lines = [] }

empty-Shows : Shows plain empty_debug nothing
empty-Shows = record {
  holds = record { size = refl; current = refl; bytes = refl; ended = λ e. absurd (omega arith) };
  logged = refl;
}

abbrev some_calls : List Call
some_calls = print "%02X " (0x10 ∷ []) ∷ write (replicate 90 b'y') ∷ endl ∷ []

run_debug-Shows_example :
    Shows plain
      (run_debug (collecting plain) empty_debug some_calls)
      (written_by plain nothing some_calls)
run_debug-Shows_example =
    run_debug-Shows plain empty_debug nothing some_calls empty-Shows (ground arith)

debug_command_inside_example :
    debug_command (take 3 (0 ∷ 4 ∷ 9 ∷ 7 ∷ [])) (record { command = 0x17; length = 3 }) true
    ≡ debug_command (0 ∷ 4 ∷ 9 ∷ 7 ∷ []) (record { command = 0x17; length = 3 }) true
debug_command_inside_example =
    debug_command_inside (0 ∷ 4 ∷ 9 ∷ 7 ∷ []) (record { command = 0x17; length = 3 }) true
      (λ e. absurd (omega arith))

-- An adapter that has received the whole answer to a wait: accepted, from the number 21
abbrev answered_adapter : Adapter (Ledger Unit)
answered_adapter = record online_adapter {
  relay = record online_adapter.relay {
    size = 6;
    bytes = 0 ∷ 1 ∷ 0 ∷ 2 ∷ b'2' ∷ b'1' ∷ replicate 26 0;
  };
}

wait_recv-logged_example :
    wait_recv_debug (wait_recv (audited program) answered_adapter 0).2
    ≡ prefix ∷ (wait_result 1 (b'2' ∷ b'1' ∷ []) ++ (endl ∷ []))
unfolding wait_recv relay_recv number_recv
wait_recv-logged_example = wait_recv-logged (audited program) answered_adapter 0 refl refl
