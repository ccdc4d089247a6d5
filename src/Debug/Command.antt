-- ===== src/Debug/Command.antt =====
-- debug.c: what is printed of a packet. Its data are the serial buffer, `data`.
use libmobile.Prelude.{
  Bool, List, [], drop, get_or, if◌then◌else◌, leb, length, ltb, not, suc, take, true, zero, ℕ,
  ◌&&◌, ◌*◌, ◌++◌, ◌+◌, ◌-◌, ◌==◌, ◌||◌, ◌∷◌, slice,
}
use libmobile.Debug.Line.{Call, endl, print, write}
use libmobile.Adapter.{Packet, Addr, addrtype_ipv4, addrtype_ipv6}

-- `mobile_debug_print_hex`
unfoldable pub print_hex : List ℕ → List Call
print_hex [] = []
print_hex (d ∷ ds) = print "%02X " (d ∷ []) ∷ print_hex ds

-- `mobile_debug_print_addr`
unfoldable pub print_addr : Addr → List Call
print_addr addr =
    if addr.type == addrtype_ipv4
    then print "%u.%u.%u.%u" (take 4 addr.host) ∷ print ":%u" (addr.port ∷ []) ∷ []
    else if addr.type == addrtype_ipv6
    then print "<IPv6 address>" [] ∷ print ":%u" (addr.port ∷ []) ∷ []
    else []

-- The loop of `dump_hex`, with as many rounds as there are bytes at most
unfoldable pub dump_lines : ℕ → List ℕ → List Call
dump_lines zero bytes = []
dump_lines (suc n) [] = []
dump_lines (suc n) (d ∷ ds) =
    print "    " [] ∷ (print_hex (take 16 (d ∷ ds)) ++ (endl ∷ dump_lines n (drop 16 (d ∷ ds))))

unfoldable pub dump_hex : List ℕ → List Call
dump_hex bytes = endl ∷ dump_lines (length bytes) bytes

-- The test of the loop of `dump`
unfoldable pub is_ascii : List ℕ → Bool
is_ascii [] = true
is_ascii (d ∷ ds) =
    let rest = is_ascii ds in
    not (leb 0x80 d) && ((not (ltb d 0x20) || (d == 13 || d == 10)) && rest)

unfoldable pub dump : List ℕ → List Call
dump bytes =
    if length bytes == 0
    then endl ∷ []
    else if not (is_ascii bytes)
    then dump_hex bytes
    else endl ∷ write bytes ∷ endl ∷ []

module _ (data' : List ℕ) (p : Packet) where
  abbrev pub byte : ℕ → ℕ
  byte i = get_or data' i 0

  unfoldable pub packet_end : ℕ → List Call
  packet_end n =
      if ltb n p.length
      then print " !!parsing failed!!" [] ∷ dump_hex (slice data' n (p.length - n))
      else endl ∷ []

  -- `if (packet->length < n) break;`
  abbrev pub or_break : ℕ → List Call → List Call
  or_break n rest = if ltb p.length n then [] else rest

  -- `if (packet->length < n) { packet_end(adapter, packet, 0); break; }`
  abbrev pub or_end : ℕ → List Call → List Call
  or_end n rest = if ltb p.length n then packet_end 0 else rest

  unfoldable pub debug_tel : Bool → List Call
  debug_tel send =
      print "Call" []
      ∷ (if send
          then packet_end 0
          else or_end 2 (
              print " (prot %d): " (byte 0 ∷ [])
              ∷ write (slice data' 1 (p.length - 1))
              ∷ endl
              ∷ []))

  unfoldable pub debug_data : List Call
  debug_data =
      print "Transfer data" []
      ∷ or_break 1 (
          (if byte 0 == 0xff then print " (p2p)" [] else print " (conn %u)" (byte 0 ∷ []))
          ∷ dump (slice data' 1 (p.length - 1)))

  unfoldable pub debug_status : Bool → List Call
  debug_status send =
      print "Status" []
      ∷ (if not send
          then packet_end 0
          else or_end 3 (print ": %02X %02X %02X" (byte 0 ∷ byte 1 ∷ byte 2 ∷ []) ∷ packet_end 3))

  unfoldable pub debug_clock : Bool → List Call
  debug_clock send =
      print "Change serial clock" []
      ∷ (if not send
          then or_break 1
              ((if byte 0 == 0 then print ": 8 bit" [] else print ": 32 bit" []) ∷ packet_end 1)
          else packet_end 0)

  abbrev pub offset_and_size : List Call
  offset_and_size = print " (offset: %02X; size: %02X)" (byte 0 ∷ byte 1 ∷ []) ∷ packet_end 2

  abbrev pub offset_and_dump : List Call
  offset_and_dump =
      or_break 1 (print " (offset: %02X)" (byte 0 ∷ []) ∷ dump_hex (slice data' 1 (p.length - 1)))

  unfoldable pub debug_eeprom_read : Bool → List Call
  debug_eeprom_read send =
      print "Read EEPROM" [] ∷ (if not send then or_end 2 offset_and_size else offset_and_dump)

  unfoldable pub debug_eeprom_write : Bool → List Call
  debug_eeprom_write send =
      print "Write EEPROM" [] ∷ (if not send then offset_and_dump else or_break 2 offset_and_size)

  -- ` (conn %u)`, in the replies of several commands
  abbrev pub conn_end : List Call
  conn_end = or_break 1 (print " (conn %u)" (byte 0 ∷ []) ∷ packet_end 1)

  -- Logging in, from the packet of the game. The second size byte is read at `1 + byte 0`.
  unfoldable pub debug_login : List Call
  debug_login =
      let id = byte 0 in
      let at = 1 + id in
      let dns = at + 1 + byte at in
      or_break 1 (
        if ltb p.length (1 + id)
        then packet_end 0
        else print " (id: " []
          ∷ write (slice data' 1 id)
          ∷ (if ltb p.length (at + 1 + byte at + 8)
              then print ")" [] ∷ packet_end at
              else print "; dns1: %u.%u.%u.%u; dns2: %u.%u.%u.%u)" (slice data' dns 8)
                ∷ packet_end (dns + 8)))

  unfoldable pub debug_ppp_connect : Bool → List Call
  debug_ppp_connect send =
      print "PPP connect" []
      ∷ (if not send
          then debug_login
          else or_end 12 (
              print " (ip: %u.%u.%u.%u; dns1: %u.%u.%u.%u; dns2: %u.%u.%u.%u)" (slice data' 0 12)
              ∷ packet_end 12))

  unfoldable pub debug_connect : Bool → List Call
  debug_connect send =
      print (if p.command == 0x23 then "TCP connect" else "UDP connect") []
      ∷ (if not send
          then or_end 6 (
              print ": %u.%u.%u.%u:%u"
                (byte 0 ∷ byte 1 ∷ byte 2 ∷ byte 3 ∷ (byte 4 * 256 + byte 5) ∷ [])
              ∷ packet_end 6)
          else conn_end)

  unfoldable pub debug_disconnect : List Call
  debug_disconnect =
      print (if p.command == 0x24 then "TCP disconnect" else "UDP disconnect") [] ∷ conn_end

  unfoldable pub debug_dns : Bool → List Call
  debug_dns send =
      print "DNS request" []
      ∷ (if not send
          then print ": " [] ∷ write (slice data' 0 p.length) ∷ endl ∷ []
          else or_end 4
              (print ": %u.%u.%u.%u" (byte 0 ∷ byte 1 ∷ byte 2 ∷ byte 3 ∷ []) ∷ packet_end 4))

  -- The `switch` of `mobile_debug_command`, from PPP_CONNECT on
  unfoldable pub debug_internet : Bool → List Call
  debug_internet send =
      let c = p.command in
      if c == 0x21
      then debug_ppp_connect send
      else if c == 0x22
      then print "PPP disconnect" [] ∷ packet_end 0
      else if c == 0x23 || c == 0x25
      then debug_connect send
      else if c == 0x24 || c == 0x26
      then debug_disconnect
      else if c == 0x28
      then debug_dns send
      else if c == 0x6e
      then print "Error" [] ∷ or_end 2 (print ": %02X" (byte 1 ∷ []) ∷ packet_end 2)
      else print "Unknown" [] ∷ dump_hex (slice data' 0 p.length)

  unfoldable pub debug_kind : Bool → List Call
  debug_kind send =
      let c = p.command in
      if c == 0x10
      then print "Start session: " [] ∷ write (slice data' 0 p.length) ∷ endl ∷ []
      else if c == 0x11
      then print "End session" [] ∷ (packet_end 0 ++ (if send then endl ∷ [] else []))
      else if c == 0x12
      then debug_tel send
      else if c == 0x13
      then print "Disconnect" [] ∷ packet_end 0
      else if c == 0x14
      then print "Wait for call" [] ∷ packet_end 0
      else if c == 0x15
      then debug_data
      else if c == 0x16
      then print "Reinitialize" [] ∷ packet_end 0
      else if c == 0x17
      then debug_status send
      else if c == 0x18
      then debug_clock send
      else if c == 0x19
      then debug_eeprom_read send
      else if c == 0x1a
      then debug_eeprom_write send
      else if c == 0x1f
      then print "Transfer data end" [] ∷ conn_end
      else debug_internet send

  -- `mobile_debug_command`
  unfoldable pub debug_command : Bool → List Call
  debug_command send =
      print (if send then "<<< " else ">>> ") [] ∷ print "%02X " (p.command ∷ []) ∷ debug_kind send
