-- ===== src/Serial/Response.antt =====
-- serial.c: the bytes of a whole response.
use libmobile.Serial.Types.{
  AdapterSerial, BufferSerial, Link, response_acknowledge, response_checksum, response_data,
  response_header, response_init,
}
use libmobile.Prelude.{
  List, [], arith, get_or, if◌then◌else◌, length, refl, replicate, ℕ, ◌++◌, ◌<◌, ◌==◌, ◌∙◌, ◌∷◌,
  ◌≡◌,
}
use libmobile.Serial.Receive.{padding, transfer_all_then}
use libmobile.Serial.Send.{send_body, send_footer, send_header, send_magic}
use libmobile.Serial.Transfer.{transfer_all}
use libmobile.Serial.Packet.{wire}

-- From the start of a response, in either serial mode and whatever the game sends meanwhile, the
-- adapter sends the magic bytes, the header, the payload, zeros for padding and the footer, and
-- then awaits the acknowledgement.
pub send_packet :
    (l : Link) (s : AdapterSerial) (b : BufferSerial) (h0 h1 h2 f0 f1 : ℕ) (payload rest : List ℕ)
    (c0 c1 c2 c3 c4 c5 c6 c7 : ℕ) (cs ds : List ℕ)
    → s.state ≡ response_init
    → b.header ≡ h0 ∷ h1 ∷ h2 ∷ length payload ∷ []
    → b.footer ≡ f0 ∷ f1 ∷ []
    → s.buffer ≡ payload ++ rest
    → length payload < 256
    → length cs ≡ length payload
    → length ds ≡ padding s.mode_32bit (length payload)
    → transfer_all l s b
        ((c0 ∷ c1 ∷ []) ++ ((c2 ∷ c3 ∷ c4 ∷ c5 ∷ []) ++ ((cs ++ ds) ++ (c6 ∷ c7 ∷ []))))
      ≡ (
        record s { state = response_acknowledge },
        record b { data_size = length payload; error = 0; current = 0 },
        wire h0 h1 h2 payload (replicate (length ds) 0) f0 f1,
      )
send_packet l s b h0 h1 h2 f0 f1 payload rest c0 c1 c2 c3 c4 c5 c6 c7 cs ds e hd ft w n m p =
    transfer_all_then l s b (c0 ∷ c1 ∷ []) _ (send_magic l s b c0 c1 e) (
      transfer_all_then l s1 b1 (c2 ∷ c3 ∷ c4 ∷ c5 ∷ []) _
        (send_header l s1 b1 h0 h1 h2 (length payload) c2 c3 c4 c5 refl refl hd)
        (transfer_all_then l s2 b2 (cs ++ ds) _
          (send_body l s2 b2 cs ds payload rest state2 refl size w n m p)
          (send_footer l s3 b3 f0 f1 c6 c7 refl refl ft)))
    ∙ ground arith
  where
    size : get_or b.header 3 0 ≡ length payload
    size = ground arith

    s1 : AdapterSerial
    s1 = record s { state = response_header }

    b1 : BufferSerial
    b1 = record b { data_size = get_or b.header 3 0; error = 0; current = 0 }

    s2 : AdapterSerial
    s2 = record s1 { state = if b1.data_size == 0 then response_checksum else response_data }

    b2 : BufferSerial
    b2 = record b1 { current = 0 }

    state2 : s2.state ≡ (if length payload == 0 then response_checksum else response_data)
    state2 = rw size

    s3 : AdapterSerial
    s3 = record s2 { state = response_checksum }

    b3 : BufferSerial
    b3 = record b2 { current = 0 }
