-- ===== src/Lua/Globals.antt =====
-- src/lua/engine.rs, `setup_globals`: what a new engine puts into the globals of its machine, and
-- what the functions do. The globals that every machine has, the environment, the HMAC, the clock
-- and the conversion of an argument to a text are parameters.
pub mod Laws
use dgsw_class_pg_proxy.Prelude.{ℕ, zero, suc, String, Option, none, some, List, [], ◌∷◌}
use dgsw_class_pg_proxy.Prelude.Maps.{StrMap, lookup, insert}
use dgsw_class_pg_proxy.Prelude.Run.{Run, returned, panicked, ◌>>=◌}
use dgsw_class_pg_proxy.Prelude.Text.{Bytes}
use dgsw_class_pg_proxy.Lua.Base64.{base64_encode, lua_base64_decode}
use dgsw_class_pg_proxy.Lua.Hmac.{hmac_sha256_raw}
use dgsw_class_pg_proxy.Lua.Json.{LuaValue, nil, string, lua_value_to_json}
use dgsw_class_pg_proxy.Lua.Uuid.{uuid_v4}

-- The functions that are registered, by the table and the name under which they stand.
pub data Builtin : Type 0 where
  json_encode log_info log_warn base64_encode_fn base64_decode_fn hmac_sha256 uuid_v4_fn : Builtin

-- A global: a table of functions, the table of the environment, or one that the machine has anyway.
pub data Global : Type 0 where
  functions : StrMap Builtin → Global
  texts : StrMap String → Global
  standard : Global

-- `std::env::vars()`: `none` is a variable that is no Unicode, at which the iterator panics.
abbrev pub Vars : Type 0
Vars = List (Option (String × String))

unfoldable pub env_table : Vars → StrMap String → Run (StrMap String)
env_table [] env_tbl = returned env_tbl
env_table (none ∷ vars) env_tbl = panicked
env_table (some (k, v) ∷ vars) env_tbl = env_table vars (insert k v env_tbl)

-- The tables that are set, in their order, before that of the environment.
abbrev pub tables : StrMap Global → StrMap Global
tables globals = insert "uuid" (functions (("v4", uuid_v4_fn) ∷ [])) (
    insert "hmac" (functions (("sha256", hmac_sha256) ∷ [])) (
      insert "base64" (functions (("encode", base64_encode_fn) ∷ ("decode", base64_decode_fn) ∷ []))
        (insert "log" (functions (("info", log_info) ∷ ("warn", log_warn) ∷ []))
          (insert "json" (functions (("encode", json_encode) ∷ [])) globals))))

unfoldable pub setup_globals : Vars → StrMap Global → Run (StrMap Global)
unfolding env_table
setup_globals vars globals = do
  env_tbl ← env_table vars []
  returned (insert "ENV" (texts env_tbl) (tables globals))

-- The arguments of a call: `none` where one is no text.
module _ (to_text : LuaValue → Option Bytes) (hmac : Bytes → Bytes → Bytes) where
  abbrev with_text : (Bytes → LuaValue) → Option Bytes → Option LuaValue
  with_text f none = none
  with_text f (some s) = some (f s)

  abbrev with_texts : Option Bytes → Option Bytes → Option LuaValue
  with_texts none secret = none
  with_texts (some msg) none = none
  with_texts (some msg) (some secret) = some (string (hmac_sha256_raw hmac msg secret))

  -- A missing argument is `nil`, and further ones are left out.
  abbrev argument : ℕ → List LuaValue → LuaValue
  argument i [] = nil
  argument zero (v ∷ vs) = v
  argument (suc i) (v ∷ vs) = argument i vs

  -- A call of one of the functions at a time; `none` is an error that the script gets.
  unfoldable pub call_builtin : ℕ → Builtin → List LuaValue → Option LuaValue
  call_builtin ns json_encode args = some (string (lua_value_to_json (argument 0 args)))
  call_builtin ns log_info args = with_text (λ msg. nil) (to_text (argument 0 args))
  call_builtin ns log_warn args = with_text (λ msg. nil) (to_text (argument 0 args))
  call_builtin ns base64_encode_fn args =
      with_text (λ s. string (base64_encode s)) (to_text (argument 0 args))
  call_builtin ns base64_decode_fn args =
      with_text (λ s. string (lua_base64_decode s)) (to_text (argument 0 args))
  call_builtin ns hmac_sha256 args =
      with_texts (to_text (argument 0 args)) (to_text (argument 1 args))
  call_builtin ns uuid_v4_fn args = some (string (uuid_v4 ns))
