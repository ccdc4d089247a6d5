-- ===== src/Adapter.antt =====
-- mobile.h, mobile_data.h, callback.h and the state records of the other headers.
-- `W` is what the `void *user` pointer leads to: the state of the program that embeds the library.
use libmobile.Serial.Types.{AdapterSerial, BufferSerial}
use libmobile.Prelude.{Bool, List, Option, replicate, ℕ, ℤ}

-- `struct mobile_addr` and its views: an IPv4 address uses the first four bytes of `host`. The type
-- is a number, since it is also loaded from the stored configuration.
pub record Addr : Type 0 where
  pub type : ℕ
  pub port : ℕ
  pub host : List ℕ

abbrev pub addrtype_none : ℕ
addrtype_none = 0

abbrev pub addrtype_ipv4 : ℕ
addrtype_ipv4 = 1

abbrev pub addrtype_ipv6 : ℕ
addrtype_ipv6 = 2

abbrev pub no_addr : Addr
no_addr = record { type = 0; port = 0; host = replicate 16 0 }

pub data SockType : Type 0 where
  tcp udp : SockType

pub data NumberKind : Type 0 where
  number_user number_peer : NumberKind

pub data Timer : Type 0 where
  timer_serial timer_command : Timer

-- What `mobile_func_sock_recv` returns, and what it stores through its two pointers.
pub record Received : Type 0 where
  pub count : ℤ
  pub bytes : List ℕ
  pub from : Addr

-- The functions that the embedding program supplies.
pub record Callback (W : Type 0) : Type 0 where
  pub serial_disable : W → W
  pub serial_enable : W → Bool → W
  pub config_read : W → ℕ → ℕ → Bool × List ℕ × W
  pub config_write : W → List ℕ → ℕ → Bool × W
  pub time_latch : W → Timer → W
  pub time_check_ms : W → Timer → ℕ → Bool × W
  pub sock_open : W → ℕ → SockType → ℕ → ℕ → Bool × W
  pub sock_close : W → ℕ → W
  pub sock_connect : W → ℕ → Addr → ℤ × W
  pub sock_listen : W → ℕ → Bool × W
  pub sock_accept : W → ℕ → Bool × W
  pub sock_send : W → ℕ → List ℕ → Option Addr → ℤ × W
  pub sock_recv : W → ℕ → ℕ → Received × W
  pub update_number : W → NumberKind → Option (List ℕ) → W

-- `struct mobile_adapter_global`
pub record AdapterGlobal : Type 0 where
  pub start : Bool
  pub active : Bool
  pub packet_parsed : Bool
  pub number_fetch_active : Bool
  pub number_fetch_retries : ℕ

-- `struct mobile_adapter_config`
pub record AdapterConfig : Type 0 where
  pub loaded : Bool
  pub dirty : Bool
  pub relay_token_init : Bool
  pub device : ℕ
  pub dns1 : Addr
  pub dns2 : Addr
  pub p2p_port : ℕ
  pub relay : Addr
  pub relay_token : List ℕ

pub data ConnectionState : Type 0 where
  disconnected wait wait_relay wait_timeout call call_recv call_isp internet : ConnectionState

-- `struct mobile_packet`. Its `data` always points to the serial buffer, so handlers write there.
pub record Packet : Type 0 where
  pub command : ℕ
  pub length : ℕ

-- `struct mobile_adapter_commands`; `connections` is read and written at the two slots only.
pub record AdapterCommands : Type 0 where
  pub session_started : Bool
  pub mode_32bit : Bool
  pub state : ConnectionState
  pub connections : ℕ → Bool
  pub dns2_use : Bool
  pub dns1 : Addr
  pub dns2 : Addr

-- `struct mobile_buffer_commands`
pub record BufferCommands : Type 0 where
  pub packet : Packet
  pub processing : ℕ
  pub processing_data : List ℕ
  pub processing_addr : Addr

pub data RelayState : Type 0 where
  relay_disconnected relay_connected relay_linked recv_connect recv_handshake : RelayState
  recv_call recv_wait recv_get_number : RelayState

-- `struct mobile_adapter_relay` and `struct mobile_buffer_relay`
pub record AdapterRelay : Type 0 where
  pub state : RelayState
  pub processing : ℕ
  pub size : ℕ
  pub bytes : List ℕ

-- `struct mobile_buffer_dns`
pub record BufferDns : Type 0 where
  pub id : ℕ
  pub type : ℕ
  pub size : ℕ
  pub bytes : List ℕ  -- unsigned char[MOBILE_DNS_PACKET_SIZE]

pub record Adapter (W : Type 0) : Type 0 where
  pub user : W
  pub global : AdapterGlobal
  pub config : AdapterConfig
  pub serial : AdapterSerial
  pub commands : AdapterCommands
  pub dns_id : ℕ
  pub relay : AdapterRelay
  pub buffer_dns : BufferDns
  pub buffer_serial : BufferSerial
  pub buffer_commands : BufferCommands

-- MOBILE_MAX_CONNECTIONS
abbrev pub max_connections : ℕ
max_connections = 2

-- The connection for calls between two adapters.
abbrev pub p2p_conn : ℕ
p2p_conn = 0
