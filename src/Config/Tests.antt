-- ===== src/Config/Tests.antt =====
-- UDP settings at concrete values.
use luafan.Common.{ℕ, ◌^◌, ◌<◌, ◌≡◌, ◌≢◌, refl, true, false, Option, some, List, [], ◌∷◌, arith}
use luafan.Common.Int.{pos}
use luafan.ByteArray.Samples.{roomy}
use luafan.Config.Tcp.{LuaTable, tcpd_config_set_defaults}
use luafan.Config.Udp.{
  UdpConfig, udpd_config_set_defaults, udpd_config_validate, udpd_config_from_lua_table,
}
use luafan.Config.Copies.{IsMulticast, from_lua_table_nonzero, udpd_config_validate_lem}

-- The group 224.0.0.1, written "g".
abbrev group_config : UdpConfig
unfolding udpd_config_set_defaults
group_config = record udpd_config_set_defaults {
  multicast_enabled = true;
  multicast_group = some (103 ∷ []);
}

abbrev one_group : List ℕ → Option ℕ
one_group text = some 3758096385

abbrev empty_table : LuaTable
empty_table key = record {
  is_number = false;
  is_boolean = false;
  is_string = false;
  to_integer = pos 0;
  to_number = 0;
  to_boolean = false;
  to_text = [];
}

from_lua_table_nonzero_example :
    ((udpd_config_from_lua_table roomy (λ name. 0) empty_table).base.send_buffer_size ≢ pos 0)
    × ((udpd_config_from_lua_table roomy (λ name. 0) empty_table).base.receive_buffer_size ≢ pos 0)
from_lua_table_nonzero_example = from_lua_table_nonzero roomy (λ name. 0) empty_table

ip_bound : (text : List ℕ) (ip : ℕ) → one_group text ≡ some ip → ip < 2 ^ 32
ip_bound text ip q = let e : 3758096385 ≡ ip = cc in omega (arith, e)

udpd_config_validate_lem_example : IsMulticast one_group (some (103 ∷ []))
unfolding udpd_config_validate group_config tcpd_config_set_defaults
udpd_config_validate_lem_example =
    udpd_config_validate_lem one_group group_config ip_bound refl refl
