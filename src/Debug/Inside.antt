-- ===== src/Debug/Inside.antt =====
-- debug.c: what is printed of a packet is read inside the packet.
use libmobile.Prelude.{
  Bool, Bool-cases, List, [], arith, false, get_or, if◌then◌else◌, inl, inr, ltb, refl, slice, take,
  true, ℕ, ◌+◌, ◌<◌, ◌==◌, ◌∷◌, ◌≡◌, ◌≢◌, ◌≤◌,
}
use libmobile.Adapter.{Packet}
use libmobile.Debug.Parts.{
  after, all_same, byte_same, clock_same, conn_end_same, connect_same, data_same, disconnect_same,
  dns_same, eeprom_read_same, eeprom_write_same, inside, or_break_same, or_end_same,
  packet_end_same, status_same, tel_same,
}
use libmobile.Dns.Name.{at}
use libmobile.Debug.Command.{
  byte, debug_command, debug_internet, debug_kind, debug_login, debug_ppp_connect, or_end,
  packet_end,
}
use libmobile.Debug.Line.{print, write}
use libmobile.Debug.Slice.{slice-take}

module _ (data' : List ℕ) (p : Packet) where
  login_end_same :
      (at dns : ℕ)
      → (if ltb p.length (dns + 8)
          then print ")" [] ∷ packet_end (inside data' p) p at
          else print "; dns1: %u.%u.%u.%u; dns2: %u.%u.%u.%u)" (slice (inside data' p) dns 8)
            ∷ packet_end (inside data' p) p (dns + 8))
        ≡ (if ltb p.length (dns + 8)
            then print ")" [] ∷ packet_end data' p at
            else print "; dns1: %u.%u.%u.%u; dns2: %u.%u.%u.%u)" (slice data' dns 8)
              ∷ packet_end data' p (dns + 8))
  login_end_same at dns = elim (Bool-cases (ltb p.length (dns + 8))) [
    | inl e ↦ rw e (after data' p (print ")" []) (packet_end_same data' p at))
    | inr e ↦
        rw (e, slice-take p.length data' dns 8 (ground arith), packet_end_same data' p (dns + 8))
          refl
  ]

  login_same :
      get_or data' 0 0 + 1 ≢ p.length → debug_login (inside data' p) p ≡ debug_login data' p
  unfolding debug_login
  login_same d = or_break_same data' p 1 _ _ (λ h.
      let id = get_or data' 0 0 in
      let at = 1 + id in
      rw (byte_same data' p 0 (omega arith)) (elim (Bool-cases (ltb p.length (1 + id))) [
        | inl e ↦ rw e (packet_end_same data' p 0)
        | inr e ↦
            let m : 1 + id ≤ p.length = ground arith in
            let k : 1 + id < p.length = omega arith in
            let n : 1 + id ≤ p.length = m in
            rw (e, slice-take p.length data' 1 id n, byte_same data' p at k)
              (after data' p (print " (id: " []) (
                after data' p (write (slice data' 1 id))
                  (login_end_same at (at + 1 + get_or data' at 0))))
      ]))

  ppp_connect_same :
      (send : Bool)
      → (send ≡ false → get_or data' 0 0 + 1 ≢ p.length)
      → debug_ppp_connect (inside data' p) p send ≡ debug_ppp_connect data' p send
  unfolding debug_ppp_connect
  ppp_connect_same false d = after data' p (print "PPP connect" []) (login_same (d refl))
  ppp_connect_same true d = after data' p (print "PPP connect" []) (
      or_end_same data' p 12 _ _
        (λ h. rw (slice-take p.length data' 0 12 h, packet_end_same data' p 12) refl))

  error_same :
      or_end
        (inside data' p)
        p
        2
        (print ": %02X" (byte (inside data' p) p 1 ∷ []) ∷ packet_end (inside data' p) p 2)
      ≡ or_end data' p 2 (print ": %02X" (byte data' p 1 ∷ []) ∷ packet_end data' p 2)
  error_same =
      or_end_same data' p 2 _ _
        (λ h. rw (byte_same data' p 1 (omega arith), packet_end_same data' p 2) refl)

  internet_same :
      (send : Bool)
      → (p.command ≡ 0x21 → send ≡ false → get_or data' 0 0 + 1 ≢ p.length)
      → debug_internet (inside data' p) p send ≡ debug_internet data' p send
  unfolding debug_internet
  internet_same send d = elim (Bool-cases (p.command == 0x21)) [
    | inl e ↦ rw e (ppp_connect_same send (d (ground arith)))
    | inr e ↦
        rw
          (
            e,
            connect_same data' p send,
            disconnect_same data' p,
            dns_same data' p send,
            error_same,
            packet_end_same data' p 0,
            all_same data' p,
          )
          refl
  ]

  kind_same :
      (send : Bool)
      → (p.command ≡ 0x21 → send ≡ false → get_or data' 0 0 + 1 ≢ p.length)
      → debug_kind (inside data' p) p send ≡ debug_kind data' p send
  unfolding debug_kind
  kind_same send d =
      rw
        (
          conn_end_same data' p,
          all_same data' p,
          packet_end_same data' p 0,
          tel_same data' p send,
          data_same data' p,
          status_same data' p send,
          clock_same data' p send,
          eeprom_read_same data' p send,
          eeprom_write_same data' p send,
          internet_same send d,
        )
        refl

  -- What is printed of a packet, in either direction and whatever the command is, depends on the
  -- bytes of the packet alone, with one exception: in a log-in of the game whose first text ends
  -- where the packet ends, the byte behind the packet is read too.
  pub debug_command_inside :
      (send : Bool)
      → (p.command ≡ 0x21 → send ≡ false → get_or data' 0 0 + 1 ≢ p.length)
      → debug_command (take p.length data') p send ≡ debug_command data' p send
  unfolding debug_command
  debug_command_inside send d = rw (kind_same send d) refl
