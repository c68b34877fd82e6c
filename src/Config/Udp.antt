-- ===== src/Config/Udp.antt =====
-- src/udpd_config.c: the settings of a UDP endpoint.
use luafan.Common.{
  ℕ, ◌+◌, bit_and, Bool, true, false, Option, none, some, List, length, ltb, ◌==◌, if◌then◌else◌,
}
use luafan.Common.Int.{ℤ, pos, negsuc}
use luafan.ByteArray.State.{Heap}
use luafan.Config.Tcp.{
  TcpConfig, LuaTable, Setting, broadcast_key, multicast_key, multicast_group_key,
  multicast_ttl_key, reuse_addr_key, reuse_port_key, to_int, tcpd_config_init,
  tcpd_config_set_defaults, tcpd_config_from_lua_table,
}

-- `udpd_config_t`; a string is its characters without the terminator.
pub record UdpConfig : Type 0 where
  pub base : TcpConfig
  pub broadcast_enabled : Bool
  pub multicast_enabled : Bool
  pub multicast_group : Option (List ℕ)
  pub multicast_ttl : ℤ
  pub reuse_addr : Bool
  pub reuse_port : Bool

abbrev pub default_buffer_size : ℤ
default_buffer_size = pos 262144

-- strdup
abbrev pub duplicate : Heap → List ℕ → Option (List ℕ)
duplicate h text = if h.grants (length text + 1) then some text else none

abbrev pub is_zero : ℤ → Bool
is_zero (pos n) = n == 0
is_zero (negsuc n) = false

abbrev pub size_or_default : ℤ → ℤ
size_or_default size = if is_zero size then default_buffer_size else size

abbrev pub with_buffers : TcpConfig → TcpConfig
with_buffers base = record base {
  send_buffer_size = size_or_default base.send_buffer_size;
  receive_buffer_size = size_or_default base.receive_buffer_size;
}

unfoldable pub udpd_config_set_defaults : UdpConfig
udpd_config_set_defaults = record {
  base = with_buffers tcpd_config_set_defaults;
  broadcast_enabled = false;
  multicast_enabled = false;
  multicast_group = none;
  multicast_ttl = pos 1;
  reuse_addr = true;
  reuse_port = false;
}

-- What is cleared first is all set by the defaults.
unfoldable pub udpd_config_init : UdpConfig
udpd_config_init = udpd_config_set_defaults

abbrev pub bool_or : Setting → Bool → Bool
bool_or s d = if s.is_boolean then s.to_boolean else d

-- `is_number` of the time to live is Lua's type test; `if_nametoindex` is the operating system's.
unfoldable pub udpd_config_from_lua_table : Heap → (List ℕ → ℕ) → LuaTable → UdpConfig
udpd_config_from_lua_table h if_nametoindex table =
    let group = table multicast_group_key in
    let ttl = table multicast_ttl_key in
    record {
      base = with_buffers (tcpd_config_from_lua_table if_nametoindex table);
      broadcast_enabled = bool_or (table broadcast_key) false;
      multicast_enabled = bool_or (table multicast_key) false;
      multicast_group = if group.is_string then duplicate h group.to_text else none;
      multicast_ttl = if ttl.is_number then to_int ttl.to_integer else pos 1;
      reuse_addr = bool_or (table reuse_addr_key) true;
      reuse_port = bool_or (table reuse_port_key) false;
    }

abbrev pub not_positive : ℤ → Bool
not_positive (pos n) = n == 0
not_positive (negsuc n) = true

abbrev pub outside_byte : ℤ → Bool
outside_byte (pos n) = ltb 255 n
outside_byte (negsuc n) = true

-- `aton` is `inet_aton` and `ntohl`: the address, if the text is one.
abbrev pub address_ok : Option ℕ → Bool
address_ok none = false
address_ok (some ip) = bit_and ip 0xf0000000 == 0xe0000000

abbrev pub group_ok : (List ℕ → Option ℕ) → Option (List ℕ) → ℤ → Bool
group_ok aton none ttl = false
group_ok aton (some group) ttl = if outside_byte ttl then false else address_ok (aton group)

-- 0 is true and -1 is false.
unfoldable pub udpd_config_validate : (List ℕ → Option ℕ) → UdpConfig → Bool
udpd_config_validate aton config =
    if not_positive config.base.receive_buffer_size
    then false
    else if not_positive config.base.send_buffer_size
    then false
    else if config.multicast_enabled
    then group_ok aton config.multicast_group config.multicast_ttl
    else true

abbrev pub copied_group : Heap → Option (List ℕ) → Option (List ℕ)
copied_group h none = none
copied_group h (some group) = duplicate h group

abbrev pub copied_ok : Option (List ℕ) → Option (List ℕ) → Bool
copied_ok none copy = true
copied_ok (some group) none = false
copied_ok (some group) (some copy) = true

-- The status, and what `dest` becomes: every field of it is set.
unfoldable pub udpd_config_copy : Heap → UdpConfig → Bool × UdpConfig
udpd_config_copy h src =
    let group = copied_group h src.multicast_group in
    (copied_ok src.multicast_group group, record src { multicast_group = group })

-- All bytes are cleared.
unfoldable pub udpd_config_cleanup : UdpConfig
udpd_config_cleanup = record {
  base = tcpd_config_init;
  broadcast_enabled = false;
  multicast_enabled = false;
  multicast_group = none;
  multicast_ttl = pos 0;
  reuse_addr = false;
  reuse_port = false;
}
