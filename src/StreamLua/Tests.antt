-- ===== src/StreamLua/Tests.antt =====
-- fan.stream as Lua calls it, at concrete values.
use luafan.Common.{◌≡◌, refl, map, [], ◌∷◌, List, arith}
use luafan.Common.Int.{pos, negsuc}
use luafan.ByteArray.Samples.{roomy, blank, blank-IsWriting}
use luafan.Stream.Add.{prepare_get}
use luafan.Stream.Varint.{encode}
use luafan.StreamLua.Calls.{to_unsigned, integer, string}
use luafan.StreamLua.Message.{
  LuaField, lua_u8, lua_u24, lua_s24, lua_text, lua_adds, lua_gets, value_of,
}
use luafan.StreamLua.RoundTrip.{lua_gets-lua_adds}

abbrev values : List LuaField
values = lua_u8 (pos 300) ∷ lua_u24 (negsuc 0) ∷ lua_s24 (negsuc 4) ∷ lua_text (104 ∷ 105 ∷ []) ∷ []

lua_gets-lua_adds_example :
    lua_gets values (prepare_get (lua_adds roomy blank values)).1
    ≡ map (λ f. value_of f ∷ []) values
lua_gets-lua_adds_example =
    lua_gets-lua_adds roomy (λ n. refl) values blank (tt, (tt, (omega arith, (omega arith, tt))))
      blank-IsWriting refl refl (unfold encode in omega arith)

-- The unsigned values are cut to their fields.
low_bits :
    map value_of values
    ≡ integer (pos 44) ∷ integer (pos 16777215) ∷ integer (negsuc 4) ∷ string (104 ∷ 105 ∷ []) ∷ []
unfolding to_unsigned
low_bits = refl
