-- ===== src/Relay/Exchange.antt =====
-- relay.c: the messages to the relay server and its answers. An `int` result is -1 for an error, 0
-- while more has to arrive, and above 0 when done.
use libmobile.Adapter.{Adapter, Callback, RelayState, relay_disconnected}
use libmobile.Prelude.{
  Bool, List, [], copy, drop, false, get_or, if◌then◌else◌, is_negative, is_zero, leb, length, ltb,
  negsuc, none, not, pos, some, take, to_ℕ, u8, ℕ, ℤ, ◌+◌, ◌-◌, ◌==◌, ◌||◌, ◌∷◌,
}
use libmobile.Callback.{cb_sock_recv, cb_sock_send}
use libmobile.Config.Settings.{get_relay_token, set_relay_token_internal}
use libmobile.Util.{same_bytes}
use libmobile.Dns.Name.{at}

-- MOBILE_RELAY_PACKET_SIZE, MOBILE_RELAY_TOKEN_SIZE and MOBILE_RELAY_MAX_NUMBER_SIZE
abbrev pub packet_size : ℕ
packet_size = 0x20

abbrev pub token_size : ℕ
token_size = 0x10

abbrev pub max_number_size : ℕ
max_number_size = 16

abbrev pub protocol_version : ℕ
protocol_version = 0

-- `enum mobile_relay_command`
abbrev pub command_call : ℕ
command_call = 0

abbrev pub command_wait : ℕ
command_wait = 1

abbrev pub command_get_number : ℕ
command_get_number = 2

-- MOBILE_RELAY_MAX_CALL_RESULT and MOBILE_RELAY_MAX_WAIT_RESULT
abbrev pub max_call_result : ℕ
max_call_result = 5

abbrev pub max_wait_result : ℕ
max_wait_result = 3

abbrev pub minus_one : ℤ
minus_one = negsuc 0

abbrev pub handshake_magic : List ℕ
handshake_magic = protocol_version ∷ b'M' ∷ b'O' ∷ b'B' ∷ b'I' ∷ b'L' ∷ b'E' ∷ []

module _ {W : Type 0} where
  abbrev pub put_relay : Adapter W → RelayState → Adapter W
  put_relay a state = record a { relay = record a.relay { state = state } }

  abbrev pub relay_byte : Adapter W → ℕ → ℕ
  relay_byte a i = get_or a.relay.bytes i 0

  abbrev pub put_bytes : Adapter W → ℕ → List ℕ → Adapter W
  put_bytes a i bytes = record a { relay = record a.relay { bytes = copy a.relay.bytes i bytes } }

  -- `mobile_relay_init`
  unfoldable pub relay_init : Adapter W → Adapter W
  relay_init a = record a { relay = record a.relay { state = relay_disconnected; processing = 0 } }

  unfoldable pub relay_recv_reset : Adapter W → Adapter W
  relay_recv_reset a = record a { relay = record a.relay { size = 0 } }

module _ {W : Type 0} (cb : Callback W) where
  -- A `bool` function that returns what `mobile_cb_sock_send` returns.
  unfoldable pub send_ok : Adapter W → ℕ → ℕ → Bool × Adapter W
  unfolding cb_sock_send
  send_ok a conn size =
      let (rc, a') = cb_sock_send cb a conn (take size a.relay.bytes) none in (not (is_zero rc), a')

  unfoldable pub relay_recv : Adapter W → ℕ → ℕ → ℤ × Adapter W
  unfolding cb_sock_recv
  relay_recv a conn size =
      let have = a.relay.size in
      let (r, a1) = cb_sock_recv cb a conn (size - have) in
      let a2 = record a1 {
        relay = record a1.relay {
          bytes = copy a1.relay.bytes have (take (size - have) r.bytes);
          size = u8 (have + to_ℕ r.count);
        };
      } in
      if ltb packet_size size
      then (minus_one, a)
      else if leb size have
      then (pos size, a)
      else if is_negative r.count
      then (minus_one, a1)
      else if ltb a2.relay.size size
      then (pos 0, a2)
      else (pos size, a2)

  unfoldable pub handshake_send : Adapter W → ℕ → Bool × Adapter W
  unfolding get_relay_token
  handshake_send a conn =
      let a1 = put_bytes a 0 handshake_magic in
      elim (get_relay_token a1.config) [
        | none ↦ send_ok (put_bytes a1 7 (0 ∷ [])) conn 8
        | some token ↦ send_ok (put_bytes a1 7 (1 ∷ token)) conn (8 + token_size)
      ]

  -- The branch of `relay_handshake_recv` that receives a new token.
  unfoldable pub token_recv : Adapter W → ℕ → ℤ × Adapter W
  token_recv a conn =
      let (rc, a') = relay_recv a conn (8 + token_size) in
      let token = take token_size (drop 8 a'.relay.bytes) in
      if is_zero rc || is_negative rc
      then (rc, a')
      else (pos 2, record a' { config = set_relay_token_internal a'.config (some token) })

  unfoldable pub handshake_recv : Adapter W → ℕ → ℤ × Adapter W
  handshake_recv a conn =
      let (rc, a') = relay_recv a conn 8 in
      if is_zero rc || is_negative rc
      then (rc, a')
      else if not (same_bytes (take 7 a'.relay.bytes) handshake_magic)
      then (minus_one, a')
      else if relay_byte a' 7 == 0
      then (pos 1, a')
      else if relay_byte a' 7 == 1
      then token_recv a' conn
      else (minus_one, a')

  unfoldable pub call_send : Adapter W → ℕ → List ℕ → Bool × Adapter W
  call_send a conn number =
      if ltb max_number_size (length number)
      then (false, a)
      else send_ok (put_bytes a 0 (protocol_version ∷ command_call ∷ length number ∷ number)) conn
          (3 + length number)

  unfoldable pub call_recv_result : Adapter W → ℕ → ℤ × Adapter W
  call_recv_result a conn =
      let (rc, a1) = relay_recv a conn 3 in
      if is_zero rc || is_negative rc
      then (rc, a1)
      else if not (relay_byte a1 0 == protocol_version) || not (relay_byte a1 1 == command_call)
      then (minus_one, a1)
      else if leb max_call_result (relay_byte a1 2 + 1)
      then (minus_one, a1)
      else (pos (relay_byte a1 2 + 1), a1)

  -- The messages of two bytes.
  unfoldable pub command_send : Adapter W → ℕ → ℕ → Bool × Adapter W
  command_send a conn command = send_ok (put_bytes a 0 (protocol_version ∷ command ∷ [])) conn 2

  unfoldable pub wait_send : Adapter W → ℕ → Bool × Adapter W
  wait_send a conn = command_send a conn command_wait

  unfoldable pub get_number_send : Adapter W → ℕ → Bool × Adapter W
  get_number_send a conn = command_send a conn command_get_number

  -- A number of `n` characters that stands behind a head of `at` bytes; `result` is returned.
  unfoldable pub number_recv : Adapter W → ℕ → ℕ → ℕ → ℕ → ℤ × List ℕ × Adapter W
  number_recv a conn at n result =
      let (rc, a') = relay_recv a conn (at + n) in
      if n == 0 || ltb max_number_size n
      then (minus_one, [], a)
      else if is_zero rc || is_negative rc
      then (rc, [], a')
      else (pos result, take n (drop at a'.relay.bytes), a')

  unfoldable pub wait_recv : Adapter W → ℕ → ℤ × List ℕ × Adapter W
  wait_recv a conn =
      let (rc, a1) = relay_recv a conn 4 in
      if is_zero rc || is_negative rc
      then (rc, [], a1)
      else if not (relay_byte a1 0 == protocol_version) || not (relay_byte a1 1 == command_wait)
      then (minus_one, [], a1)
      else if leb max_wait_result (relay_byte a1 2 + 1)
      then (minus_one, [], a1)
      else number_recv a1 conn 4 (relay_byte a1 3) (relay_byte a1 2 + 1)

  unfoldable pub get_number_recv : Adapter W → ℕ → ℤ × List ℕ × Adapter W
  get_number_recv a conn =
      let (rc, a1) = relay_recv a conn 3 in
      if is_zero rc || is_negative rc
      then (rc, [], a1)
      else if not (relay_byte a1 0 == protocol_version)
          || not (relay_byte a1 1 == command_get_number)
      then (minus_one, [], a1)
      else number_recv a1 conn 3 (relay_byte a1 2) 1
