-- ===== src/Mobile/Transfers.antt =====
-- mobile.c: the transfers of the embedding program.

-- A transfer of a byte, held back or not, keeps the serial machine within its buffers, notes that
-- the cable is active, and changes nothing else of the adapter's state.
use libmobile.Adapter.{Adapter}
use libmobile.Serial.Bounds.{IsValid}
use libmobile.Mobile.Loop.{mobile_transfer, link_of, mode_pending, wake}
use libmobile.Prelude.{ℕ, ◌<◌, ◌≡◌, Bool-cases, arith, inl, inr, refl}
use libmobile.Serial.Safety.{serial_transfer-IsValid}

pub mobile_transfer-IsValid :
    {W : Type 0} (a : Adapter W) (c : ℕ)
    → IsValid a.serial a.buffer_serial
    → c < 256
    → let a' = (mobile_transfer a c).1 in
      IsValid a'.serial a'.buffer_serial × (a'.commands ≡ a.commands) × (a'.config ≡ a.config)
unfolding mobile_transfer
mobile_transfer-IsValid a c v h =
    let moved =
      serial_transfer-IsValid (link_of a) (wake a).serial a.buffer_serial c (ground arith) h in
    elim (Bool-cases (mode_pending (wake a))) [
      | inl e ↦ rw e (ground arith)
      | inr e ↦ rw e (moved, refl, refl)
    ]
