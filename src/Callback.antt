-- ===== src/Callback.antt =====
-- callback.h: the calls of the embedding program's functions (`mobile_cb_...`), which pass it its
-- state and keep what it makes of it.
pub mod Default
use libmobile.Adapter.{Adapter, Addr, Callback, NumberKind, Received, SockType, Timer}
use libmobile.Prelude.{Bool, List, Option, take, ℕ, ℤ}

module _ {W : Type 0} (cb : Callback W) where
  unfoldable pub cb_serial_disable : Adapter W → Adapter W
  cb_serial_disable a = record a { user = cb.serial_disable a.user }

  unfoldable pub cb_serial_enable : Adapter W → Adapter W
  cb_serial_enable a = record a { user = cb.serial_enable a.user a.serial.mode_32bit }

  -- The bytes that a successful read stores are cut to the size that was asked for.
  unfoldable pub cb_config_read : Adapter W → ℕ → ℕ → Bool × List ℕ × Adapter W
  cb_config_read a offset size =
      let (ok, bytes, w) = cb.config_read a.user offset size in
      (ok, take size bytes, record a { user = w })

  unfoldable pub cb_config_write : Adapter W → List ℕ → ℕ → Bool × Adapter W
  cb_config_write a src offset =
      let (ok, w) = cb.config_write a.user src offset in (ok, record a { user = w })

  unfoldable pub cb_time_latch : Adapter W → Timer → Adapter W
  cb_time_latch a timer = record a { user = cb.time_latch a.user timer }

  unfoldable pub cb_time_check_ms : Adapter W → Timer → ℕ → Bool × Adapter W
  cb_time_check_ms a timer ms =
      let (late, w) = cb.time_check_ms a.user timer ms in (late, record a { user = w })

  unfoldable pub cb_sock_open : Adapter W → ℕ → SockType → ℕ → ℕ → Bool × Adapter W
  cb_sock_open a conn type addrtype port =
      let (ok, w) = cb.sock_open a.user conn type addrtype port in (ok, record a { user = w })

  unfoldable pub cb_sock_close : Adapter W → ℕ → Adapter W
  cb_sock_close a conn = record a { user = cb.sock_close a.user conn }

  unfoldable pub cb_sock_connect : Adapter W → ℕ → Addr → ℤ × Adapter W
  cb_sock_connect a conn addr =
      let (rc, w) = cb.sock_connect a.user conn addr in (rc, record a { user = w })

  unfoldable pub cb_sock_listen : Adapter W → ℕ → Bool × Adapter W
  cb_sock_listen a conn = let (ok, w) = cb.sock_listen a.user conn in (ok, record a { user = w })

  unfoldable pub cb_sock_accept : Adapter W → ℕ → Bool × Adapter W
  cb_sock_accept a conn = let (ok, w) = cb.sock_accept a.user conn in (ok, record a { user = w })

  unfoldable pub cb_sock_send : Adapter W → ℕ → List ℕ → Option Addr → ℤ × Adapter W
  cb_sock_send a conn bytes addr =
      let (rc, w) = cb.sock_send a.user conn bytes addr in (rc, record a { user = w })

  unfoldable pub cb_sock_recv : Adapter W → ℕ → ℕ → Received × Adapter W
  cb_sock_recv a conn size =
      let (r, w) = cb.sock_recv a.user conn size in (r, record a { user = w })

  unfoldable pub cb_update_number : Adapter W → NumberKind → Option (List ℕ) → Adapter W
  cb_update_number a kind number = record a { user = cb.update_number a.user kind number }
