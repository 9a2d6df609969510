-- ===== src/Lua/Globals/Laws.antt =====
-- engine.rs: the globals of a new engine.
use dgsw_class_pg_proxy.Prelude.{
  ◌≡◌, refl, ap, ◌∙◌, ◌⊎◌, inl, inr, String, Option, none, some, [], ◌∷◌, In, arith, str_eq,
  if◌then◌else◌,
}
use dgsw_class_pg_proxy.Prelude.Maps.{StrMap, lookup, insert, lookup-insert}
use dgsw_class_pg_proxy.Prelude.Run.{Run, returned, panicked, ◌>>=◌}
use dgsw_class_pg_proxy.Lua.Globals.{
  Global, functions, texts, Vars, env_table, tables, setup_globals, json_encode, log_info, log_warn,
  base64_encode_fn, base64_decode_fn, hmac_sha256, uuid_v4_fn,
}

-- The value of the last variable of a name.
pub last_value : String → Vars → Option String → Option String
last_value k [] old = old
last_value k (none ∷ vars) old = last_value k vars old
last_value k (some (j, v) ∷ vars) old = last_value k vars (if str_eq j k then some v else old)

-- The environment has a variable that is no Unicode, or its table can be made.
env_table_lem :
    (vars : Vars) (env_tbl : StrMap String)
    → (In none vars × (env_table vars env_tbl ≡ panicked))
      ⊎ ((¬ In none vars)
          × ((made : StrMap String) × (env_table vars env_tbl ≡ returned made)
              × ((k : String) → lookup k made ≡ last_value k vars (lookup k env_tbl))))
unfolding env_table last_value
env_table_lem [] env_tbl = inr ((λ m. m), (env_tbl, refl, λ k. refl))
env_table_lem (none ∷ vars) env_tbl = inl (inl refl, refl)
env_table_lem (some (j, v) ∷ vars) env_tbl = elim (env_table_lem vars (insert j v env_tbl)) [
  | inl (m, e) ↦ inl (inr m, e)
  | inr (m, (made, e, reads)) ↦ inr (
    (λ z. elim z [ inl bad ↦ absurd (ground arith) | inr later ↦ m later ]),
    (made, e, λ k. reads k ∙ ap (last_value k vars) (lookup-insert j k v env_tbl)),
  )
]

-- What a name stands for in a new engine.
abbrev pub global_of : StrMap String → StrMap Global → String → Option Global
global_of env globals k =
    if str_eq "ENV" k
    then some (texts env)
    else if str_eq "uuid" k
    then some (functions (("v4", uuid_v4_fn) ∷ []))
    else if str_eq "hmac" k
    then some (functions (("sha256", hmac_sha256) ∷ []))
    else if str_eq "base64" k
    then some (functions (("encode", base64_encode_fn) ∷ ("decode", base64_decode_fn) ∷ []))
    else if str_eq "log" k
    then some (functions (("info", log_info) ∷ ("warn", log_warn) ∷ []))
    else if str_eq "json" k
    then some (functions (("encode", json_encode) ∷ []))
    else lookup k globals

lookup-tables :
    (env : StrMap String) (globals : StrMap Global) (k : String)
    → lookup k (insert "ENV" (texts env) (tables globals)) ≡ global_of env globals k
lookup-tables env globals k = simp lookup-insert

-- A new engine cannot be made exactly if a variable of the environment is no Unicode: setting up
-- its globals panics. Otherwise they are those of the machine with six tables put in their place:
-- that of the environment, which has the last value of each variable, and those of the seven
-- functions.
pub setup_globals_lem :
    (vars : Vars) (globals : StrMap Global)
    → (In none vars × (setup_globals vars globals ≡ panicked))
      ⊎ ((¬ In none vars)
          × ((made : StrMap Global) × (env : StrMap String) × (setup_globals vars globals
                ≡ returned made)
              × ((k : String) → lookup k env ≡ last_value k vars none)
              × ((k : String) → lookup k made ≡ global_of env globals k)))
unfolding setup_globals lookup
setup_globals_lem vars globals = elim (env_table_lem vars []) [
  | inl (m, e) ↦ inl (m, rw e)
  | inr (m, (env, e, reads)) ↦ inr (
    m,
    (
      insert "ENV" (texts env) (tables globals),
      env,
      ap {B = Run (StrMap Global)}
          (λ t. t >>= (λ env. returned (insert "ENV" (texts env) (tables globals)))) e,
      reads,
      lookup-tables env globals,
    ),
  )
]
