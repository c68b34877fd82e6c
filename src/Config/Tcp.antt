-- ===== src/Config/Tcp.antt =====
-- src/tcpd_config.c: the settings that TCP and UDP endpoints share, and reading them from a Lua table.
use luafan.Common.{ℕ, ◌-◌, ◌^◌, Bool, false, List, ltb, if◌then◌else◌}
use luafan.Common.Int.{ℤ, pos, negsuc}
use luafan.StreamLua.Calls.{to_unsigned}

-- `tcpd_config_t`; a timeout is the bit pattern of a double.
pub record TcpConfig : Type 0 where
  pub send_buffer_size : ℤ
  pub receive_buffer_size : ℤ
  pub keepalive_enabled : Bool
  pub keepalive_idle : ℤ
  pub keepalive_interval : ℤ
  pub keepalive_count : ℤ
  pub read_timeout : ℕ
  pub write_timeout : ℕ
  pub interface : ℕ
  pub ssl_enabled : Bool
  pub ssl_verifyhost : ℤ
  pub ssl_verifypeer : ℤ
  pub callback_self_first : Bool

-- What the Lua interface says of the value of one key.
pub record Setting : Type 0 where
  pub is_number : Bool
  pub is_boolean : Bool
  pub is_string : Bool
  pub to_integer : ℤ
  pub to_number : ℕ
  pub to_boolean : Bool
  pub to_text : List ℕ

pub data Key : Type 0 where
  send_buffer_size_key receive_buffer_size_key keepalive_key keepalive_idle_key : Key
  keepalive_interval_key keepalive_count_key read_timeout_key write_timeout_key : Key
  interface_key ssl_key ssl_verifyhost_key ssl_verifypeer_key callback_self_first_key : Key
  broadcast_key multicast_key multicast_group_key multicast_ttl_key : Key
  reuse_addr_key reuse_port_key : Key

abbrev pub LuaTable : Type 0
LuaTable = Key → Setting

-- `(int)` of a lua_Integer
unfoldable pub to_int : ℤ → ℤ
to_int z = let u = to_unsigned 32 z in if ltb u (2 ^ 31) then pos u else negsuc (2 ^ 32 - 1 - u)

-- `if (lua_isnumber(L, -1)) { config->… = (int)lua_tointeger(L, -1); }`
abbrev pub int_or : Setting → ℤ → ℤ
int_or s d = if s.is_number then to_int s.to_integer else d

abbrev pub double_or : Setting → ℕ → ℕ
double_or s d = if s.is_number then s.to_number else d

unfoldable pub tcpd_config_init : TcpConfig
tcpd_config_init = record {
  send_buffer_size = pos 0;
  receive_buffer_size = pos 0;
  keepalive_enabled = false;
  keepalive_idle = pos 0;
  keepalive_interval = pos 0;
  keepalive_count = pos 0;
  read_timeout = 0;
  write_timeout = 0;
  interface = 0;
  ssl_enabled = false;
  ssl_verifyhost = pos 0;
  ssl_verifypeer = pos 0;
  callback_self_first = false;
}

-- Every field is set, whatever `config` was.
unfoldable pub tcpd_config_set_defaults : TcpConfig
tcpd_config_set_defaults = record {
  send_buffer_size = pos 0;
  receive_buffer_size = pos 0;
  keepalive_enabled = false;
  keepalive_idle = pos 7200;
  keepalive_interval = pos 75;
  keepalive_count = pos 9;
  read_timeout = 0;
  write_timeout = 0;
  interface = 0;
  ssl_enabled = false;
  ssl_verifyhost = pos 1;
  ssl_verifypeer = pos 1;
  callback_self_first = false;
}

-- `if_nametoindex` is the operating system's.
unfoldable pub tcpd_config_from_lua_table : (List ℕ → ℕ) → LuaTable → TcpConfig
tcpd_config_from_lua_table if_nametoindex table =
    let config = tcpd_config_set_defaults in
    let keepalive = (table keepalive_key).to_boolean in
    let ssl = (table ssl_key).to_boolean in
    let interface_name = table interface_key in
    record {
      send_buffer_size = int_or (table send_buffer_size_key) config.send_buffer_size;
      receive_buffer_size = int_or (table receive_buffer_size_key) config.receive_buffer_size;
      keepalive_enabled = keepalive;
      keepalive_idle =
          if keepalive
          then int_or (table keepalive_idle_key) config.keepalive_idle
          else config.keepalive_idle;
      keepalive_interval =
          if keepalive
          then int_or (table keepalive_interval_key) config.keepalive_interval
          else config.keepalive_interval;
      keepalive_count =
          if keepalive
          then int_or (table keepalive_count_key) config.keepalive_count
          else config.keepalive_count;
      read_timeout = double_or (table read_timeout_key) config.read_timeout;
      write_timeout = double_or (table write_timeout_key) config.write_timeout;
      interface =
          if interface_name.is_string
          then if_nametoindex interface_name.to_text
          else config.interface;
      ssl_enabled = ssl;
      ssl_verifyhost =
          if ssl
          then int_or (table ssl_verifyhost_key) config.ssl_verifyhost
          else config.ssl_verifyhost;
      ssl_verifypeer =
          if ssl
          then int_or (table ssl_verifypeer_key) config.ssl_verifypeer
          else config.ssl_verifypeer;
      callback_self_first = (table callback_self_first_key).to_boolean;
    }
