-- ===== src/Debug/Parts.antt =====
-- debug.c: what is printed of a packet other than a log-in is read inside the packet.
use libmobile.Prelude.{
  Bool, Bool-cases, List, [], ap, arith, false, get_or, if◌then◌else◌, inl, inr, ltb, refl, slice,
  take, true, ℕ, ◌-◌, ◌<◌, ◌==◌, ◌∷◌, ◌≡◌, ◌≤◌,
}
use libmobile.Debug.Line.{Call, print}
use libmobile.Adapter.{Packet}
use libmobile.Debug.Command.{
  conn_end, debug_clock, debug_connect, debug_data, debug_disconnect, debug_dns, debug_eeprom_read,
  debug_eeprom_write, debug_status, debug_tel, offset_and_dump, offset_and_size, or_break, or_end,
  packet_end,
}
use libmobile.Debug.Slice.{get_or-take, slice-take}

module _ (data' : List ℕ) (p : Packet) where
  abbrev pub inside : List ℕ
  inside = take p.length data'

  pub byte_same : (i : ℕ) → i < p.length → get_or inside i 0 ≡ get_or data' i 0
  byte_same i h = get_or-take p.length data' i h

  pub packet_end_same : (n : ℕ) → packet_end inside p n ≡ packet_end data' p n
  unfolding packet_end
  packet_end_same n = elim (Bool-cases (ltb n p.length)) [
    | inl e ↦ rw (e, slice-take p.length data' n (p.length - n) (ground arith)) refl
    | inr e ↦ rw e refl
  ]

  pub or_break_same :
      (n : ℕ) (r r' : List Call)
      → (n ≤ p.length → r ≡ r')
      → or_break inside p n r ≡ or_break data' p n r'
  or_break_same n r r' h = elim (Bool-cases (ltb p.length n)) [
    | inl e ↦ rw e refl
    | inr e ↦ rw e (h (ground arith))
  ]

  pub or_end_same :
      (n : ℕ) (r r' : List Call)
      → (n ≤ p.length → r ≡ r')
      → or_end inside p n r ≡ or_end data' p n r'
  or_end_same n r r' h = elim (Bool-cases (ltb p.length n)) [
    | inl e ↦ rw e (packet_end_same 0)
    | inr e ↦ rw e (h (ground arith))
  ]

  pub after : (c : Call) {r r' : List Call} → r ≡ r' → c ∷ r ≡ c ∷ r'
  after c h = ap (λ l. c ∷ l) h

  pub tel_same : (send : Bool) → debug_tel inside p send ≡ debug_tel data' p send
  unfolding debug_tel
  tel_same true = after (print "Call" []) (packet_end_same 0)
  tel_same false = after (print "Call" []) (
      or_end_same 2 _ _ (λ h.
        rw (byte_same 0 (omega arith), slice-take p.length data' 1 (p.length - 1) (omega arith))
          refl))

  pub data_same : debug_data inside p ≡ debug_data data' p
  unfolding debug_data
  data_same = after (print "Transfer data" []) (
      or_break_same 1 _ _ (λ h.
        rw (byte_same 0 (omega arith), slice-take p.length data' 1 (p.length - 1) (omega arith))
          refl))

  pub status_same : (send : Bool) → debug_status inside p send ≡ debug_status data' p send
  unfolding debug_status
  status_same false = after (print "Status" []) (packet_end_same 0)
  status_same true = after (print "Status" []) (
      or_end_same 3 _ _ (λ h.
        rw
          (
            byte_same 0 (omega arith),
            byte_same 1 (omega arith),
            byte_same 2 (omega arith),
            packet_end_same 3,
          )
          refl))

  pub clock_same : (send : Bool) → debug_clock inside p send ≡ debug_clock data' p send
  unfolding debug_clock
  clock_same true = after (print "Change serial clock" []) (packet_end_same 0)
  clock_same false =
      after (print "Change serial clock" [])
        (or_break_same 1 _ _ (λ h. rw (byte_same 0 (omega arith), packet_end_same 1) refl))

  offset_and_size_same : 2 ≤ p.length → offset_and_size inside p ≡ offset_and_size data' p
  offset_and_size_same h =
      rw (byte_same 0 (omega arith), byte_same 1 (omega arith), packet_end_same 2) refl

  offset_and_dump_same : offset_and_dump inside p ≡ offset_and_dump data' p
  offset_and_dump_same = or_break_same 1 _ _ (λ h.
      rw (byte_same 0 (omega arith), slice-take p.length data' 1 (p.length - 1) (omega arith)) refl)

  pub eeprom_read_same :
      (send : Bool) → debug_eeprom_read inside p send ≡ debug_eeprom_read data' p send
  unfolding debug_eeprom_read
  eeprom_read_same false = after (print "Read EEPROM" []) (or_end_same 2 _ _ offset_and_size_same)
  eeprom_read_same true = after (print "Read EEPROM" []) offset_and_dump_same

  pub eeprom_write_same :
      (send : Bool) → debug_eeprom_write inside p send ≡ debug_eeprom_write data' p send
  unfolding debug_eeprom_write
  eeprom_write_same false = after (print "Write EEPROM" []) offset_and_dump_same
  eeprom_write_same true =
      after (print "Write EEPROM" []) (or_break_same 2 _ _ offset_and_size_same)

  pub conn_end_same : conn_end inside p ≡ conn_end data' p
  conn_end_same = or_break_same 1 _ _ (λ h. rw (byte_same 0 (omega arith), packet_end_same 1) refl)

  pub connect_same : (send : Bool) → debug_connect inside p send ≡ debug_connect data' p send
  unfolding debug_connect
  connect_same true =
      after (print (if p.command == 0x23 then "TCP connect" else "UDP connect") []) conn_end_same
  connect_same false =
      after (print (if p.command == 0x23 then "TCP connect" else "UDP connect") []) (
        or_end_same 6 _ _ (λ h.
          rw
            (
              byte_same 0 (omega arith),
              byte_same 1 (omega arith),
              byte_same 2 (omega arith),
              byte_same 3 (omega arith),
              byte_same 4 (omega arith),
              byte_same 5 (omega arith),
              packet_end_same 6,
            )
            refl))

  pub disconnect_same : debug_disconnect inside p ≡ debug_disconnect data' p
  unfolding debug_disconnect
  disconnect_same =
      after (print (if p.command == 0x24 then "TCP disconnect" else "UDP disconnect") [])
        conn_end_same

  pub all_same : slice inside 0 p.length ≡ slice data' 0 p.length
  all_same = slice-take p.length data' 0 p.length (omega arith)

  pub dns_same : (send : Bool) → debug_dns inside p send ≡ debug_dns data' p send
  unfolding debug_dns
  dns_same false = rw all_same refl
  dns_same true = after (print "DNS request" []) (
      or_end_same 4 _ _ (λ h.
        rw
          (
            byte_same 0 (omega arith),
            byte_same 1 (omega arith),
            byte_same 2 (omega arith),
            byte_same 3 (omega arith),
            packet_end_same 4,
          )
          refl))
