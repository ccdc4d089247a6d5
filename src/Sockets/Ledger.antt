-- ===== src/Sockets/Ledger.antt =====
-- An embedding program that notes which sockets are open, and whether each call was proper: a
-- socket is opened only while it is closed, and closed or used only while it is open.
use libmobile.Adapter.{Adapter, Callback}
use libmobile.Commands.Base.{Answer, is_internet}
use libmobile.Prelude.{Bool, false, if◌then◌else◌, not, true, ℕ, ◌&&◌, ◌==◌, ◌||◌, ◌≡◌}

pub record Ledger (W : Type 0) : Type 0 where
  pub inner : W
  pub opened : ℕ → Bool
  pub proper : Bool

module _ {W : Type 0} where
  abbrev pub mark : Ledger W → ℕ → Bool → Ledger W
  mark t conn now = record t { opened = λ j. if j == conn then now else t.opened j }

  -- A call that needs the socket open.
  abbrev pub use_open : Ledger W → ℕ → W → Ledger W
  use_open t conn w = record t { inner = w; proper = t.proper && t.opened conn }

  abbrev pub keep : Ledger W → W → Ledger W
  keep t w = record t { inner = w }

  -- The functions of a program, with the account kept beside them.
  abbrev pub audited : Callback W → Callback (Ledger W)
  audited cb = record {
    serial_disable = λ t. keep t (cb.serial_disable t.inner);
    serial_enable = λ t mode. keep t (cb.serial_enable t.inner mode);
    config_read = λ t offset size.
        let (ok, bytes, w) = cb.config_read t.inner offset size in (ok, bytes, keep t w);
    config_write =
        λ t src offset. let (ok, w) = cb.config_write t.inner src offset in (ok, keep t w);
    time_latch = λ t timer. keep t (cb.time_latch t.inner timer);
    time_check_ms =
        λ t timer ms. let (late, w) = cb.time_check_ms t.inner timer ms in (late, keep t w);
    sock_open = λ t conn type addrtype port.
        let (ok, w) = cb.sock_open t.inner conn type addrtype port in
        (
          ok,
          record t {
            inner = w;
            opened = λ j. if j == conn then ok || t.opened j else t.opened j;
            proper = t.proper && not (t.opened conn);
          },
        );
    sock_close = λ t conn. mark (use_open t conn (cb.sock_close t.inner conn)) conn false;
    sock_connect =
        λ t conn addr. let (rc, w) = cb.sock_connect t.inner conn addr in (rc, use_open t conn w);
    sock_listen = λ t conn. let (ok, w) = cb.sock_listen t.inner conn in (ok, use_open t conn w);
    sock_accept = λ t conn. let (ok, w) = cb.sock_accept t.inner conn in (ok, use_open t conn w);
    sock_send = λ t conn bytes addr.
        let (rc, w) = cb.sock_send t.inner conn bytes addr in (rc, use_open t conn w);
    sock_recv =
        λ t conn size. let (r, w) = cb.sock_recv t.inner conn size in (r, use_open t conn w);
    update_number = λ t kind number. keep t (cb.update_number t.inner kind number);
  }

  -- Within a session: every call was proper, the two slots say which sockets are open, and the
  -- second is used on the internet only.
  pub record Accounted (a : Adapter (Ledger W)) : Type 0 where
    pub was_proper : a.user.proper ≡ true
    pub slot0 : a.user.opened 0 ≡ a.commands.connections 0
    pub slot1 : a.user.opened 1 ≡ a.commands.connections 1
    pub slot1_internet : is_internet a.commands.state ≡ false → a.commands.connections 1 ≡ false
    pub no_fetch : a.global.number_fetch_active ≡ false

  -- Outside of one: every call was proper, and only the fetching of the number has a socket.
  pub record Idle (a : Adapter (Ledger W)) : Type 0 where
    pub was_proper : a.user.proper ≡ true
    pub fetch_socket : a.user.opened 0 ≡ a.global.number_fetch_active
    pub no_socket : a.user.opened 1 ≡ false

  abbrev pub AnswerAccounted : Answer (Ledger W) → Type 0
  AnswerAccounted (p, a) = Accounted a
