-- ===== src/Whole/Turn.antt =====
-- commands.c: how each command moves the connection of a session, as a diagram.
use libmobile.Prelude.{Bool, true, ℕ, ◌||◌, ◌≡◌}
use libmobile.Adapter.{
  ConnectionState, call, call_isp, call_recv, disconnected, internet, wait, wait_relay,
  wait_timeout,
}
use libmobile.Commands.Base.{in_call, is_internet}
use libmobile.Sockets.Tel.{is_listening, is_quiet}
use libmobile.Commands.Tel.{may_dial}

abbrev pub is_linked : ConnectionState → Bool
is_linked s = in_call s || is_internet s

-- `Turn c s t`: command `c` may take the connection from the state `s` to `t`.
pub data Turn (c : ℕ) : ConnectionState → ConnectionState → Type 0 where
  same : {s : ConnectionState} → Turn c s s
  tel_dropped : {s : ConnectionState} → c ≡ 0x12 → may_dial s ≡ true → Turn c s disconnected
  tel_isp : {s : ConnectionState} → c ≡ 0x12 → may_dial s ≡ true → Turn c s call_isp
  tel_answered : c ≡ 0x12 → Turn c disconnected call
  ended : {s : ConnectionState} → c ≡ 0x11 → is_linked s ≡ true → Turn c s disconnected
  hung_up : {s : ConnectionState} → c ≡ 0x13 → is_linked s ≡ true → Turn c s disconnected
  reset : {s : ConnectionState} → c ≡ 0x16 → Turn c s disconnected
  wait_begun : {s : ConnectionState} → c ≡ 0x14 → is_quiet s ≡ true → Turn c s wait
  wait_begun_relay : {s : ConnectionState} → c ≡ 0x14 → is_quiet s ≡ true → Turn c s wait_relay
  wait_failed : {s : ConnectionState} → c ≡ 0x14 → is_quiet s ≡ true → Turn c s wait_timeout
  wait_called : {s : ConnectionState} → c ≡ 0x14 → is_listening s ≡ true → Turn c s call_recv
  wait_refused : c ≡ 0x14 → Turn c wait_relay wait_timeout
  wait_dropped : c ≡ 0x14 → Turn c wait_relay disconnected
  logged_in : c ≡ 0x21 → Turn c call_isp internet
  logged_out : c ≡ 0x22 → Turn c internet call_isp

pub ruleset turns = (
  same, tel_dropped, tel_isp, tel_answered, ended, hung_up, reset, wait_begun, wait_begun_relay,
  wait_failed, wait_called, wait_refused, wait_dropped, logged_in, logged_out,
)
