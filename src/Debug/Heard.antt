-- ===== src/Debug/Heard.antt =====
-- relay.c: the log names what the relay functions return.
use libmobile.Adapter.{Adapter, Callback}
use libmobile.Prelude.{
  arith, false, is_negative, is_zero, ℕ, ◌<◌, ◌≡◌, ◌≤◌, List, [], pos, take, to_ℕ, ℤ, ◌++◌, ◌+◌,
  ◌-◌, ◌∷◌, refl, slice, get_or-copy_before,
}
use libmobile.Callback.{cb_sock_recv}
use libmobile.Relay.Exchange.{
  relay_byte, relay_recv, number_recv, wait_recv, call_recv_result, get_number_recv,
}
use libmobile.Debug.Line.{endl, print, write}
use libmobile.Debug.Relay.{
  prefix, wait_recv_debug, wait_result, call_recv_debug, call_result, get_number_recv_debug,
}
use libmobile.Dns.Name.{at}

module _ {W : Type 0} (cb : Callback W) where
  -- More is received behind what has been received.
  relay_recv-front :
      (a : Adapter W) (conn n i : ℕ)
      → i < a.relay.size
      → relay_byte (relay_recv cb a conn n).1 i ≡ relay_byte a i
  unfolding relay_recv cb_sock_recv
  relay_recv-front a conn n i h =
      let have = a.relay.size in
      let r = (cb.sock_recv a.user conn (n - have)).0 in
      let same = get_or-copy_before a.relay.bytes have (take (n - have) r.bytes) i h in
      ground (arith, same)

  -- Where the call succeeds, the bytes asked for are there.
  relay_recv-arrived :
      (a : Adapter W) (conn n : ℕ)
      → is_zero (relay_recv cb a conn n).0 ≡ false
      → is_negative (relay_recv cb a conn n).0 ≡ false
      → n ≤ (relay_recv cb a conn n).1.relay.size
  unfolding relay_recv cb_sock_recv
  relay_recv-arrived a conn n = ground arith

  -- A number that has been received, its result and what stands before it in the buffer
  record Heard (a : Adapter W) (at n value : ℕ) (r : ℤ × List ℕ × Adapter W) : Type 0 where
    pub result : r.0 ≡ pos value
    pub number : r.1 ≡ slice r.2.relay.bytes at n
    pub front : (i : ℕ) → i < at → relay_byte r.2 i ≡ relay_byte a i

  number_recv-Heard :
      (a : Adapter W) (conn at n result : ℕ)
      → at ≤ a.relay.size
      → is_zero (number_recv cb a conn at n result).0 ≡ false
      → is_negative (number_recv cb a conn at n result).0 ≡ false
      → Heard a at n result (number_recv cb a conn at n result)
  unfolding number_recv
  number_recv-Heard a conn at n result h z m = record {
    result = ground arith;
    number = ground arith;
    front = λ i k. ground (arith, relay_recv-front a conn (at + n) i (omega arith));
  }

  wait_recv-Heard :
      (a : Adapter W) (conn : ℕ)
      → is_zero (wait_recv cb a conn).0 ≡ false
      → is_negative (wait_recv cb a conn).0 ≡ false
      → let a1 = (relay_recv cb a conn 4).1 in
        Heard a1 4 (relay_byte a1 3) (relay_byte a1 2 + 1) (wait_recv cb a conn)
  unfolding wait_recv
  wait_recv-Heard a conn z m =
      let a1 = (relay_recv cb a conn 4).1 in
      ground (
        arith,
        relay_recv-arrived a conn 4,
        number_recv-Heard a1 conn 4 (relay_byte a1 3) (relay_byte a1 2 + 1),
      )

  -- Where `relay_wait_recv` succeeds, the line that is printed of the buffer names the result and
  -- the number that it returns.
  pub wait_recv-logged :
      (a : Adapter W) (conn : ℕ)
      → let (rc, number, a') = wait_recv cb a conn in
        is_zero rc ≡ false
        → is_negative rc ≡ false
        → wait_recv_debug a' ≡ prefix ∷ (wait_result (to_ℕ rc) number ++ (endl ∷ []))
  unfolding wait_recv_debug
  wait_recv-logged a conn z m =
      let heard = wait_recv-Heard a conn z m in
      rw (heard.result, heard.number, heard.front 2 (omega arith), heard.front 3 (omega arith)) refl

  get_number_recv-Heard :
      (a : Adapter W) (conn : ℕ)
      → is_zero (get_number_recv cb a conn).0 ≡ false
      → is_negative (get_number_recv cb a conn).0 ≡ false
      → let a1 = (relay_recv cb a conn 3).1 in
        Heard a1 3 (relay_byte a1 2) 1 (get_number_recv cb a conn)
  unfolding get_number_recv
  get_number_recv-Heard a conn z m =
      let a1 = (relay_recv cb a conn 3).1 in
      ground (arith, relay_recv-arrived a conn 3, number_recv-Heard a1 conn 3 (relay_byte a1 2) 1)

  -- Where `relay_get_number_recv` succeeds, the line that is printed of the buffer names the number
  -- that it returns.
  pub get_number_recv-logged :
      (a : Adapter W) (conn : ℕ)
      → let (rc, number, a') = get_number_recv cb a conn in
        is_zero rc ≡ false
        → is_negative rc ≡ false
        → get_number_recv_debug a' ≡ prefix ∷ print "Number: " [] ∷ write number ∷ endl ∷ []
  unfolding get_number_recv_debug
  get_number_recv-logged a conn z m =
      let heard = get_number_recv-Heard a conn z m in
      rw (heard.number, heard.front 2 (omega arith)) refl

  -- Where `relay_call_recv` succeeds, the line that is printed of the buffer names the result that it
  -- returns.
  pub call_recv-logged :
      (a : Adapter W) (conn : ℕ)
      → let (rc, a') = call_recv_result cb a conn in
        is_zero rc ≡ false
        → is_negative rc ≡ false
        → call_recv_debug a' ≡ prefix ∷ (call_result (to_ℕ rc) ++ (endl ∷ []))
  unfolding call_recv_debug call_recv_result
  call_recv-logged a conn = ground arith
