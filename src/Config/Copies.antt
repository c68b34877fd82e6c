-- ===== src/Config/Copies.antt =====
-- src/udpd_config.c: copied and read configurations.
use luafan.Common.{
  ℕ, ◌*◌, ◌^◌, ◌≤◌, ◌<◌, ◌≡◌, ◌≢◌, refl, ap, Bool, true, false, Option, none, some, List, ◌==◌,
  arith, if_both, Bool-cases, Option-cases, ◌/◌, inl, inr, length, ◌+◌,
}
use luafan.Common.Int.{ℤ, pos, negsuc}
use luafan.ByteArray.State.{Heap}
use luafan.Common.Bits.{bit_and_high, bit_and_mask}
use luafan.WebSocket.Life.{if_left}
use luafan.Config.Tcp.{LuaTable, tcpd_config_from_lua_table}
use luafan.Config.Udp.{
  UdpConfig, size_or_default, duplicate, copied_group, copied_ok, udpd_config_copy, address_ok,
  group_ok, outside_byte, not_positive, udpd_config_validate, udpd_config_from_lua_table,
}

-- From 224.0.0.0 up to 239.255.255.255.
abbrev pub IsMulticast : (List ℕ → Option ℕ) → Option (List ℕ) → Type 0
IsMulticast aton group =
    (text : List ℕ) × (ip : ℕ) × (group ≡ some text)
    × (aton text ≡ some ip)
    × (224 * 2 ^ 24 ≤ ip)
    × (ip < 240 * 2 ^ 24)

duplicate_lem :
    (h : Heap) (group : List ℕ)
    → copied_ok (some group) (duplicate h group) ≡ true
    → duplicate h group ≡ some group
duplicate_lem h group =
    if_both (λ o. copied_ok (some group) o ≡ true → o ≡ some group) (h.grants (length group + 1))
      (λ q. refl) (λ q. absurd (impossible q))
  where
    impossible : false ≡ true → ⊥
    impossible p = cc

copied_group_lem :
    (h : Heap) (group : Option (List ℕ))
    → copied_ok group (copied_group h group) ≡ true
    → copied_group h group ≡ group
copied_group_lem h none q = refl
copied_group_lem h (some group) q = duplicate_lem h group q

-- A copy that succeeds is equal to the configuration that is copied.
pub udpd_config_copy_lem :
    (h : Heap) (src : UdpConfig)
    → (udpd_config_copy h src).0 ≡ true
    → (udpd_config_copy h src).1 ≡ src
unfolding udpd_config_copy
udpd_config_copy_lem h src q =
    ap (λ o. record src { multicast_group = o }) (copied_group_lem h src.multicast_group q)

abbrev magnitude : ℤ → ℕ
magnitude (pos n) = n
magnitude (negsuc n) = 0

size_or_default-nonzero : (size : ℤ) → size_or_default size ≢ pos 0
size_or_default-nonzero (pos n) = λ q. elim (Bool-cases (n == 0)) [
  | inl z ↦ large (rw z at q)
  | inr z ↦ let e : pos n ≡ pos 0 = rw z at q in let e' : n ≡ 0 = cc in absurd (ground arith)
]
  where
    large : pos 262144 ≡ pos 0 → ⊥
    large p = omega (arith, ap magnitude p)
size_or_default-nonzero (negsuc n) = λ q. negative q
  where
    negative : {m : ℕ} → negsuc m ≡ pos 0 → ⊥
    negative p = cc

-- Whatever a Lua table gives, neither buffer size of the configuration read from it is 0.
pub from_lua_table_nonzero :
    (h : Heap) (if_nametoindex : List ℕ → ℕ) (table : LuaTable)
    → ((udpd_config_from_lua_table h if_nametoindex table).base.send_buffer_size ≢ pos 0)
      × ((udpd_config_from_lua_table h if_nametoindex table).base.receive_buffer_size ≢ pos 0)
unfolding udpd_config_from_lua_table
from_lua_table_nonzero h if_nametoindex table =
    let base = tcpd_config_from_lua_table if_nametoindex table in
    (
      size_or_default-nonzero base.send_buffer_size,
      size_or_default-nonzero base.receive_buffer_size,
    )

-- A group that passes is a multicast address.
group_ok_lem :
    (aton : List ℕ → Option ℕ) (group : Option (List ℕ)) (ttl : ℤ)
    → ((text : List ℕ) (ip : ℕ) → aton text ≡ some ip → ip < 2 ^ 32)
    → group_ok aton group ttl ≡ true
    → IsMulticast aton group
group_ok_lem aton none ttl small q = absurd (impossible q)
  where
    impossible : false ≡ true → ⊥
    impossible p = cc
group_ok_lem aton (some text) ttl small q = elim (Bool-cases (outside_byte ttl)) [
  | inl out ↦ absurd (impossible (rw out at q))
  | inr fine ↦
      let passes_test : address_ok (aton text) ≡ true = rw fine at q in
      elim (Option-cases (aton text)) [
        | inl gone ↦ absurd (impossible (rw gone at passes_test))
        | inr (ip, found) ↦
            let test : address_ok (some ip) ≡ true = rw found at passes_test in
            let bound = small text ip found in
            let high = bit_and_high 28 ip 15 in
            let mask = bit_and_mask 4 (ip / 2 ^ 28) in
            (text, ip, refl, found, ground arith, ground arith)
      ]
]
  where
    impossible : false ≡ true → ⊥
    impossible p = cc

-- Where the address function gives addresses of 32 bits, a configuration with multicast enabled
-- that passes the validation has a group whose address is from 224.0.0.0 up to 239.255.255.255.
pub udpd_config_validate_lem :
    (aton : List ℕ → Option ℕ) (config : UdpConfig)
    → ((text : List ℕ) (ip : ℕ) → aton text ≡ some ip → ip < 2 ^ 32)
    → config.multicast_enabled ≡ true
    → udpd_config_validate aton config ≡ true
    → IsMulticast aton config.multicast_group
unfolding udpd_config_validate
udpd_config_validate_lem aton config small enabled =
    let P : Bool → Type 0 = λ b. b ≡ true → IsMulticast aton config.multicast_group in
    let refuses : P false = λ q. absurd (impossible q) in
    if_both P (not_positive config.base.receive_buffer_size) refuses (
      if_both P (not_positive config.base.send_buffer_size) refuses (
        if_left P config.multicast_enabled _ _ enabled
          (group_ok_lem aton config.multicast_group config.multicast_ttl small)))
  where
    impossible : false ≡ true → ⊥
    impossible p = cc
