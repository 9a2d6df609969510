-- ===== src/Lua/Engine.antt =====
-- src/lua/engine.rs, `LuaEngine`: running the hooks of a pipeline. The Lua virtual machine is a
-- parameter: its state, what loading a source does, which global functions there are, and what a
-- call does. A script that does not end is outside the model, and so is a metatable on the globals.
pub mod Frame
pub mod Pipeline
pub mod Loading
pub mod Rejections
use mathlib.Core.Option
use dgsw_class_pg_proxy.Prelude.{String, Bool, true, false, Option, none, some, List, [], ◌∷◌}
use dgsw_class_pg_proxy.Prelude.Maps.{StrMap, lookup}
use dgsw_class_pg_proxy.Lua.Context.{RequestCtx, is_rejected, upstream_var, Script, run_script}
use dgsw_class_pg_proxy.Lua.Sources.{PluginSources}

-- How a call of a Lua function ends: with an error, or with a first result.
pub data Outcome : Type 0 where
  raised nothing other : Outcome
  text : String → Outcome

pub record Vm : Type 1 where
  pub State : Type 0
  pub Function : Type 0
  -- `lua.load(src).set_name(name).exec()`; `false` is an error.
  pub exec : String → String → State → Script (State × Bool)
  -- `globals.get::<LuaFunction>(name)`.
  pub get_function : String → State → Option Function
  pub call : Function → State → Script (State × Outcome)

-- `func.call::<Option<String>>`: `none` is an error of the call or of the conversion.
abbrev pub as_text : Outcome → Option (Option String)
as_text raised = none
as_text nothing = some none
as_text other = none
as_text (text s) = some (some s)

module _ (to_lowercase : String → String) (vm : Vm) where
  open vm use {State, Function, exec, get_function, call}

  -- The machine and the context of the request that it works on.
  abbrev pub Session : Type 0
  Session = State × RequestCtx

  unfoldable pub load_plugin : String → String → Session → Bool × Session
  load_plugin name src (s, c) =
      let (r, c') = run_script to_lowercase (exec name src s) c in (r.1, (r.0, c'))

  unfoldable pub call_function : Function → Session → Outcome × Session
  call_function f (s, c) = let (r, c') = run_script to_lowercase (call f s) c in (r.1, (r.0, c'))

  call_found : Option Function → Session → Option Outcome × Session
  unfolding call_function
  call_found none st = (none, st)
  call_found (some f) st = let (o, st') = call_function f st in (some o, st')

  call_loaded : String → Bool × Session → Option Outcome × Session
  unfolding call_found
  call_loaded hook (true, st) = call_found (get_function hook st.0) st
  call_loaded hook (false, st) = (none, st)

  -- The body that the four loops share: `none` if the plugin has no source, does not load, or
  -- leaves no global function of the hook's name.
  unfoldable pub attempt : String → String → StrMap String → Session → Option Outcome × Session
  unfolding load_plugin call_loaded
  attempt hook name sources st = elim (lookup name sources) [
    | none ↦ (none, st)
    | some src ↦ call_loaded hook (load_plugin name src st)
  ]

  -- The check after a call of `on_request`: `break` if the request is rejected.
  unfoldable pub stops : Option Outcome × Session → Bool
  stops (none, st) = false
  stops (some o, (s, c)) = is_rejected c

  on_request_loop : List String → StrMap String → Session → Session
  on_request_loop [] sources st = st
  on_request_loop (name ∷ names) sources st =
      let r = attempt "on_request" name sources st in
      elim (stops r) [ true ↦ r.1 | false ↦ on_request_loop names sources r.1 ]

  unfoldable pub run_on_request : PluginSources → Session → Session
  unfolding on_request_loop
  run_on_request srcs st = on_request_loop srcs.pipeline srcs.sources st

  -- The upstream that a call of `on_route` has chosen.
  abbrev pub chosen : Option Outcome → Option String
  chosen none = none
  chosen (some o) = Option.get_or (as_text o) none

  on_route_loop : List String → StrMap String → Session → Option String × Session
  on_route_loop [] sources st = (lookup upstream_var st.1.vars, st)
  on_route_loop (name ∷ names) sources st =
      let r = attempt "on_route" name sources st in
      elim (chosen r.0) [
        | some upstream ↦ (some upstream, r.1)
        | none ↦ on_route_loop names sources r.1
      ]

  unfoldable pub run_on_route : PluginSources → Session → Option String × Session
  unfolding on_route_loop
  run_on_route srcs st = on_route_loop srcs.pipeline srcs.sources st

  unfoldable pub every_plugin : String → List String → StrMap String → Session → Session
  every_plugin hook [] sources st = st
  every_plugin hook (name ∷ names) sources st =
      every_plugin hook names sources (attempt hook name sources st).1

  unfoldable pub run_on_transform : PluginSources → Session → Session
  unfolding every_plugin
  run_on_transform srcs st = every_plugin "on_transform" srcs.pipeline srcs.sources st

  unfoldable pub run_on_response : PluginSources → Session → Session
  unfolding every_plugin
  run_on_response srcs st = every_plugin "on_response" srcs.pipeline srcs.sources st
