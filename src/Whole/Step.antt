-- ===== src/Whole/Step.antt =====
-- mobile.c: everything that the embedding program can do with an adapter, as a step relation, and
-- what holds of whatever it does.
use libmobile.Adapter.{Adapter, Addr, Callback, AdapterConfig}
use libmobile.Commands.Process.{Build}
use libmobile.Whole.Fetch.{FetchOpens}
use libmobile.Sockets.Ledger.{Ledger, audited}
use libmobile.Prelude.{List, Option, arith, some, true, ℕ, ◌≡◌, false, IfSome-at, length, ◌<◌}
use libmobile.Whole.Sound.{Sound, session-Accounted, IsTimely, Sound-proper}
use libmobile.Whole.Process.{StartsFirst}
use libmobile.Mobile.Actions.{actions_get}
use libmobile.Config.Settings.{apply, set_relay_token_internal}
use libmobile.Mobile.Loop.{
  config_set_relay, config_set_relay_token, mobile_loop, mobile_start, mobile_stop, mobile_transfer,
  mobile_transfer_32bit, mobile_init,
}
use libmobile.Serial.Incoming.{serial_init}
use libmobile.Util.{addr_copy}
use libmobile.Whole.Round.{mobile_loop-Sound}
use libmobile.Whole.Kept.{
  number_fetch_reset-Sound, start-Sound, stop-Sound, transfer-Sound, transfer_32bit-Sound,
}

module _ {W : Type 0} (cb : Callback W) (env : Build) where
  -- A call of one function of the library. A round of the main loop is one that returns.
  pub data Step : Adapter (Ledger W) → Adapter (Ledger W) → Type 0 where
    transfer : (a : Adapter (Ledger W)) (c : ℕ) → Step a (mobile_transfer a c).1
    transfer_32bit : (a : Adapter (Ledger W)) (c : ℕ) → Step a (mobile_transfer_32bit a c).1
    loop :
        (a b : Adapter (Ledger W))
        → StartsFirst a
        → (let (acts, a') = actions_get (audited cb) a in
            acts.init_number ≡ true → FetchOpens cb a')
        → mobile_loop (audited cb) env a ≡ some b
        → Step a b
    start : (a : Adapter (Ledger W)) → Step a (mobile_start (audited cb) a)
    stop : (a : Adapter (Ledger W)) → Step a (mobile_stop (audited cb) a)
    set_relay :
        (a : Adapter (Ledger W)) (relay : Addr) → Step a (config_set_relay (audited cb) a relay)
    set_relay_token :
        (a : Adapter (Ledger W)) (token : Option (List ℕ))
        → Step a (config_set_relay_token (audited cb) a token)
    -- mobile_config_set_device, mobile_config_set_dns and mobile_config_set_p2p_port, whatever they
    -- make of the configuration
    configure : (a : Adapter (Ledger W)) (c : AdapterConfig) → Step a (record a { config = c })

  -- What a sequence of calls leads to.
  pub data Reach (a : Adapter (Ledger W)) : Adapter (Ledger W) → Type 0 where
    here : Reach a a
    next : {b c : Adapter (Ledger W)} → Reach a b → Step b c → Reach a c

module _ {W : Type 0} (cb : Callback W) (env : Build) where
  set_relay-Sound :
      (a : Adapter (Ledger W)) (relay : Addr)
      → Sound a
      → Sound (config_set_relay (audited cb) a relay)
  unfolding config_set_relay apply
  set_relay-Sound a relay s =
      number_fetch_reset-Sound cb
        (record a { config = apply (record a.config { relay = addr_copy a.config.relay relay }) })
        (ground arith)

  set_relay_token-Sound :
      (a : Adapter (Ledger W)) (token : Option (List ℕ))
      → Sound a
      → Sound (config_set_relay_token (audited cb) a token)
  unfolding config_set_relay_token
  set_relay_token-Sound a token s =
      number_fetch_reset-Sound cb (record a { config = set_relay_token_internal a.config token })
        (ground arith)

  Step-Sound : {a b : Adapter (Ledger W)} → IsTimely cb → Step cb env a b → Sound a → Sound b
  Step-Sound t (transfer a c) s = transfer-Sound a c s
  Step-Sound t (transfer_32bit a c) s = transfer_32bit-Sound a c s
  Step-Sound t (loop a b f o e) s =
      IfSome-at Sound (mobile_loop (audited cb) env a) b e (mobile_loop-Sound cb env a t f o s)
  Step-Sound t (start a) s = start-Sound cb a s
  Step-Sound t (stop a) s = stop-Sound cb a s
  Step-Sound t (set_relay a relay) s = set_relay-Sound a relay s
  Step-Sound t (set_relay_token a token) s = set_relay_token-Sound a token s
  Step-Sound t (configure a c) s = ground arith

  pub Reach-Sound : {a b : Adapter (Ledger W)} → IsTimely cb → Reach cb env a b → Sound a → Sound b
  Reach-Sound t here s = s
  Reach-Sound t (next r m) s = Step-Sound t m (Reach-Sound t r s)

  mobile_init-Sound :
      (a : Adapter (Ledger W))
      → a.user.proper ≡ true
      → ((j : ℕ) → a.user.opened j ≡ false)
      → 0 < length a.buffer_commands.processing_data
      → Sound (mobile_init a)
  unfolding mobile_init serial_init
  mobile_init-Sound a p o n = let c0 = o 0 in let c1 = o 1 in ground arith

  -- From `mobile_init` on, with no socket open before it, whatever sequence of calls the embedding
  -- program makes: no socket is opened while it is open, or used or closed while it is closed.
  -- While a session goes on the table of the connections says which sockets are open, and outside
  -- of one only the fetching of the number has a socket. The conditions are on each round of the
  -- main loop: outside of a session a packet to be processed begins one, the socket for fetching
  -- the number opens, and the serial timer is not late right after it is latched.
  pub Reach-proper :
      (a b : Adapter (Ledger W))
      → IsTimely cb
      → a.user.proper ≡ true
      → ((j : ℕ) → a.user.opened j ≡ false)
      → 0 < length a.buffer_commands.processing_data
      → Reach cb env (mobile_init a) b
      → (b.user.proper ≡ true)
        × (b.commands.session_started ≡ true
            → (b.user.opened 0 ≡ b.commands.connections 0)
              × (b.user.opened 1 ≡ b.commands.connections 1))
        × (b.commands.session_started ≡ false
            → (b.user.opened 0 ≡ b.global.number_fetch_active) × (b.user.opened 1 ≡ false))
  Reach-proper a b t p o n r =
      let s = Reach-Sound t r (mobile_init-Sound a p o n) in
      (
        Sound-proper b s,
        λ e. let h = session-Accounted b s.free s.busy e in (h.slot0, h.slot1),
        λ e. let h = s.outside e in (h.fetch_socket, h.no_socket),
      )
