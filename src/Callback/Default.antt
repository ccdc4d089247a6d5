-- ===== src/Callback/Default.antt =====
-- callback.c: the functions that the library calls where the embedding program sets none, and the
-- setters.
use libmobile.Adapter.{Addr, Callback, NumberKind, Received, SockType, Timer, no_addr}
use libmobile.Prelude.{Bool, List, Option, [], false, length, negsuc, pos, replicate, true, ℕ, ℤ}

module _ {W : Type 0} where
  unfoldable pub impl_serial_disable : W → W
  impl_serial_disable w = w

  unfoldable pub impl_serial_enable : W → Bool → W
  impl_serial_enable w mode = w

  -- A storage that is blank
  unfoldable pub impl_config_read : W → ℕ → ℕ → Bool × List ℕ × W
  impl_config_read w offset size = (true, replicate size 0xff, w)

  unfoldable pub impl_config_write : W → List ℕ → ℕ → Bool × W
  impl_config_write w src offset = (true, w)

  unfoldable pub impl_time_latch : W → Timer → W
  impl_time_latch w timer = w

  unfoldable pub impl_time_check_ms : W → Timer → ℕ → Bool × W
  impl_time_check_ms w timer ms = (false, w)

  unfoldable pub impl_sock_open : W → ℕ → SockType → ℕ → ℕ → Bool × W
  impl_sock_open w conn type addrtype port = (true, w)

  unfoldable pub impl_sock_close : W → ℕ → W
  impl_sock_close w conn = w

  unfoldable pub impl_sock_connect : W → ℕ → Addr → ℤ × W
  impl_sock_connect w conn addr = (pos 1, w)

  unfoldable pub impl_sock_listen : W → ℕ → Bool × W
  impl_sock_listen w conn = (true, w)

  unfoldable pub impl_sock_accept : W → ℕ → Bool × W
  impl_sock_accept w conn = (true, w)

  unfoldable pub impl_sock_send : W → ℕ → List ℕ → Option Addr → ℤ × W
  impl_sock_send w conn bytes addr = (pos (length bytes), w)

  -- -10, an error
  unfoldable pub impl_sock_recv : W → ℕ → ℕ → Received × W
  impl_sock_recv w conn size = (record { count = negsuc 9; bytes = []; from = no_addr }, w)

  unfoldable pub impl_update_number : W → NumberKind → Option (List ℕ) → W
  impl_update_number w kind number = w

  -- `mobile_callback_init`
  unfoldable pub callback_init : Callback W
  unfolding impl_serial_disable impl_serial_enable impl_config_read impl_config_write
      impl_time_latch impl_time_check_ms impl_sock_open impl_sock_close impl_sock_connect
      impl_sock_listen impl_sock_accept impl_sock_send impl_sock_recv impl_update_number
  callback_init = record {
    serial_disable = impl_serial_disable;
    serial_enable = impl_serial_enable;
    config_read = impl_config_read;
    config_write = impl_config_write;
    time_latch = impl_time_latch;
    time_check_ms = impl_time_check_ms;
    sock_open = impl_sock_open;
    sock_close = impl_sock_close;
    sock_connect = impl_sock_connect;
    sock_listen = impl_sock_listen;
    sock_accept = impl_sock_accept;
    sock_send = impl_sock_send;
    sock_recv = impl_sock_recv;
    update_number = impl_update_number;
  }

  -- `mobile_def_...`
  unfoldable pub def_serial_disable : Callback W → (W → W) → Callback W
  def_serial_disable cb func = record cb { serial_disable = func }

  unfoldable pub def_serial_enable : Callback W → (W → Bool → W) → Callback W
  def_serial_enable cb func = record cb { serial_enable = func }

  unfoldable pub def_config_read : Callback W → (W → ℕ → ℕ → Bool × List ℕ × W) → Callback W
  def_config_read cb func = record cb { config_read = func }

  unfoldable pub def_config_write : Callback W → (W → List ℕ → ℕ → Bool × W) → Callback W
  def_config_write cb func = record cb { config_write = func }

  unfoldable pub def_time_latch : Callback W → (W → Timer → W) → Callback W
  def_time_latch cb func = record cb { time_latch = func }

  unfoldable pub def_time_check_ms : Callback W → (W → Timer → ℕ → Bool × W) → Callback W
  def_time_check_ms cb func = record cb { time_check_ms = func }

  unfoldable pub def_sock_open : Callback W → (W → ℕ → SockType → ℕ → ℕ → Bool × W) → Callback W
  def_sock_open cb func = record cb { sock_open = func }

  unfoldable pub def_sock_close : Callback W → (W → ℕ → W) → Callback W
  def_sock_close cb func = record cb { sock_close = func }

  unfoldable pub def_sock_connect : Callback W → (W → ℕ → Addr → ℤ × W) → Callback W
  def_sock_connect cb func = record cb { sock_connect = func }

  unfoldable pub def_sock_listen : Callback W → (W → ℕ → Bool × W) → Callback W
  def_sock_listen cb func = record cb { sock_listen = func }

  unfoldable pub def_sock_accept : Callback W → (W → ℕ → Bool × W) → Callback W
  def_sock_accept cb func = record cb { sock_accept = func }

  unfoldable pub def_sock_send : Callback W → (W → ℕ → List ℕ → Option Addr → ℤ × W) → Callback W
  def_sock_send cb func = record cb { sock_send = func }

  unfoldable pub def_sock_recv : Callback W → (W → ℕ → ℕ → Received × W) → Callback W
  def_sock_recv cb func = record cb { sock_recv = func }

  unfoldable pub def_update_number :
      Callback W → (W → NumberKind → Option (List ℕ) → W) → Callback W
  def_update_number cb func = record cb { update_number = func }
