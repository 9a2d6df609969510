-- ===== src/Tests/Globals.antt =====
-- Examples of the globals of Lua.
use dgsw_class_pg_proxy.Prelude.{
  ℕ, ◌*◌, ◌%◌, ◌^◌, ◌<◌, ◌≤◌, ◌≡◌, ◌↔◌, refl, some, [], ◌∷◌, length, arith,
}
use dgsw_class_pg_proxy.Prelude.Text.{Bytes, codes}
use dgsw_class_pg_proxy.Lua.Base64.{utf8_from}
use dgsw_class_pg_proxy.Lua.Uuid.{u64_mod, multiplier, uuid_v4}
use dgsw_class_pg_proxy.Lua.Uuid.Shape.{length-uuid_v4}
use dgsw_class_pg_proxy.Lua.Json.{
  LuaValue, integer, string, table, no_pairs, pair, pos, negsuc, lua_value_to_json,
}
use dgsw_class_pg_proxy.Lua.Json.Reader.{read_json}
use dgsw_class_pg_proxy.Lua.Json.RoundTrip.{IsPlain, meaning, read_json-lua_value_to_json}

abbrev now : ℕ
now = 123456789

length-uuid_v4_example :
    (36 ≤ length (uuid_v4 now))
    × (length (uuid_v4 now) ≤ 40)
    × ((length (uuid_v4 now) ≡ 36) ↔ (now * multiplier % u64_mod < 2 ^ 48))
length-uuid_v4_example = length-uuid_v4 now (omega arith)

abbrev no_hash : Bytes → Bytes → Bytes
no_hash secret msg = 0xc3 ∷ 0x41 ∷ []

-- A table with a text and an array of two numbers, the last of which stands first.
abbrev numbers : LuaValue
numbers = table 2 (
    pair (integer (pos 2)) (integer (negsuc 4)) (pair (integer (pos 1)) (integer (pos 7)) no_pairs))

abbrev object : LuaValue
object = table 0 (
    pair (string (codes "name")) (string (codes "a\"b"))
      (pair (string (codes "list")) numbers no_pairs))

object-IsPlain : IsPlain object
unfolding IsPlain utf8_from
object-IsPlain = (
  ((refl, (refl, (refl, (refl, (refl, tt))))), ((refl, (refl, (refl, (refl, (refl, tt))))), tt)),
  ((refl, (refl, (refl, tt))), ((tt, (tt, tt)), tt)),
)

read_json-lua_value_to_json_example : read_json (lua_value_to_json object) ≡ some (meaning object)
read_json-lua_value_to_json_example = read_json-lua_value_to_json object object-IsPlain
