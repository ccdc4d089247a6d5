-- ===== src/Tests/Samples.antt =====
-- A program whose sockets always work, and adapters in a session.
use libmobile.Sockets.Ledger.{Accounted, Ledger}
use libmobile.Adapter.{Adapter, Callback, internet, no_addr, relay_disconnected, wait}
use libmobile.Serial.Types.{SerialState}
use libmobile.Sockets.Tel.{Settled}
use libmobile.Prelude.{[], arith, false, length, pos, replicate, true, ◌==◌}

abbrev pub program : Callback Unit
program = record {
  serial_disable = λ w. w;
  serial_enable = λ w mode. w;
  config_read = λ w offset size. (true, replicate size 0, w);
  config_write = λ w src offset. (true, w);
  time_latch = λ w timer. w;
  time_check_ms = λ w timer ms. (false, w);
  sock_open = λ w conn type addrtype port. (true, w);
  sock_close = λ w conn. w;
  sock_connect = λ w conn addr. (pos 1, w);
  sock_listen = λ w conn. (true, w);
  sock_accept = λ w conn. (true, w);
  sock_send = λ w conn bytes addr. (pos (length bytes), w);
  sock_recv = λ w conn size. (record { count = pos 0; bytes = []; from = no_addr }, w);
  update_number = λ w kind number. w;
}

-- An adapter within a session, with a call that is awaited
abbrev pub listening_adapter : Adapter (Ledger Unit)
listening_adapter = record {
  user = record { inner = tt; opened = λ j. j == 0; proper = true };
  global = record {
    start = true;
    active = true;
    packet_parsed = true;
    number_fetch_active = false;
    number_fetch_retries = 0;
  };
  config = record {
    loaded = true;
    dirty = false;
    relay_token_init = false;
    device = 8;
    dns1 = no_addr;
    dns2 = no_addr;
    p2p_port = 1027;
    relay = no_addr;
    relay_token = replicate 16 0;
  };
  serial = record {
    state = SerialState.response_waiting;
    active = false;
    buffer = replicate 255 0;
    mode_32bit = false;
    device_unmetered = false;
    device = 8;
  };
  commands = record {
    session_started = true;
    mode_32bit = false;
    state = wait;
    connections = λ j. j == 0;
    dns2_use = false;
    dns1 = no_addr;
    dns2 = no_addr;
  };
  dns_id = 0;
  relay = record { state = relay_disconnected; processing = 0; size = 0; bytes = replicate 32 0 };
  buffer_dns = record { id = 0; type = 0; size = 0; bytes = replicate 512 0 };
  buffer_serial = record {
    error = 0;
    current = 0;
    data_size = 0;
    checksum = 0;
    header = replicate 4 0;
    footer = replicate 2 0;
  };
  buffer_commands = record {
    packet = record { command = 0x12; length = 13 };
    processing = 0;
    processing_data = replicate 4 0;
    processing_addr = no_addr;
  };
}

pub listening-Accounted : Accounted listening_adapter
listening-Accounted = ground arith

pub listening-Settled : Settled listening_adapter
listening-Settled = ground (arith, listening-Accounted)

-- An adapter that is logged in, with one TCP connection
abbrev pub online_adapter : Adapter (Ledger Unit)
online_adapter = record listening_adapter {
  commands = record listening_adapter.commands { state = internet };
}

pub online-Accounted : Accounted online_adapter
online-Accounted = ground arith

-- The same adapter of another program
abbrev pub with_user : {W V : Type 0} → V → Adapter W → Adapter V
with_user w a = record {
  user = w;
  global = a.global;
  config = a.config;
  serial = a.serial;
  commands = a.commands;
  dns_id = a.dns_id;
  relay = a.relay;
  buffer_dns = a.buffer_dns;
  buffer_serial = a.buffer_serial;
  buffer_commands = a.buffer_commands;
}
