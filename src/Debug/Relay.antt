-- ===== src/Debug/Relay.antt =====
-- relay.c: what is printed of the messages to the relay server and of its answers.
use Prim.Native.String.{String}
use libmobile.Adapter.{Adapter}
use libmobile.Debug.Line.{Call, endl, print, write}
use libmobile.Prelude.{List, [], if◌then◌else◌, none, some, take, ℕ, ◌++◌, ◌+◌, ◌==◌, ◌∷◌, slice}
use libmobile.Config.Settings.{get_relay_token}
use libmobile.Debug.Command.{print_hex}
use libmobile.Relay.Exchange.{relay_byte}

-- `debug_prefix`, the call that each of the functions begins with
abbrev pub prefix : Call
prefix = print "<RELAY> " []

-- A token is printed by its first four bytes; the build has no NDEBUG.
abbrev pub token_start : String → List ℕ → List Call
token_start text token = print text [] ∷ (print_hex (take 4 token) ++ (print "...)" [] ∷ []))

unfoldable pub call_send_debug : List ℕ → List Call
call_send_debug number = prefix ∷ print "Command: CALL " [] ∷ write number ∷ endl ∷ []

-- The text of a result of a call
unfoldable pub call_result : ℕ → List Call
call_result result =
    if result == 1
    then print "ACCEPTED" [] ∷ []
    else if result == 2
    then print "Error: INTERNAL" [] ∷ []
    else if result == 3
    then print "Error: BUSY" [] ∷ []
    else if result == 4
    then print "Error: UNAVAILABLE" [] ∷ []
    else []

unfoldable pub wait_send_debug : List Call
wait_send_debug = prefix ∷ print "Command: WAIT" [] ∷ endl ∷ []

-- The text of a result of waiting, with the number that calls
unfoldable pub wait_result : ℕ → List ℕ → List Call
wait_result result number =
    if result == 1
    then print "ACCEPTED " [] ∷ write number ∷ []
    else if result == 2
    then print "Error: INTERNAL" [] ∷ []
    else []

unfoldable pub get_number_send_debug : List Call
get_number_send_debug = prefix ∷ print "Command: GET_NUMBER" [] ∷ endl ∷ []

module _ {W : Type 0} where
  unfoldable pub handshake_send_debug : Adapter W → List Call
  unfolding get_relay_token
  handshake_send_debug a =
      prefix
      ∷ print "Authenticating" []
      ∷ (elim (get_relay_token a.config) [
        | none ↦ print " (without token)" [] ∷ []
        | some token ↦ token_start " (with token: " token
      ]
          ++ (endl ∷ []))

  unfoldable pub handshake_recv_debug : Adapter W → List Call
  handshake_recv_debug a =
      prefix
      ∷ print "Logged in" []
      ∷ ((if relay_byte a 7 == 1 then token_start " (new token: " (slice a.relay.bytes 8 4) else [])
          ++ (endl ∷ []))

  unfoldable pub call_recv_debug : Adapter W → List Call
  call_recv_debug a = prefix ∷ (call_result (relay_byte a 2 + 1) ++ (endl ∷ []))

  unfoldable pub wait_recv_debug : Adapter W → List Call
  wait_recv_debug a =
      let number = slice a.relay.bytes 4 (relay_byte a 3) in
      prefix ∷ (wait_result (relay_byte a 2 + 1) number ++ (endl ∷ []))

  unfoldable pub get_number_recv_debug : Adapter W → List Call
  get_number_recv_debug a =
      prefix ∷ print "Number: " [] ∷ write (slice a.relay.bytes 3 (relay_byte a 2)) ∷ endl ∷ []
