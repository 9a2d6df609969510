-- ===== src/Lua/Engine/Frame.antt =====
-- engine.rs: what every hook keeps of the context.
use dgsw_class_pg_proxy.Prelude.{
  String, Bool, true, false, inl, inr, Option, none, some, List, [], ◌∷◌, Option-cases, Bool-cases,
}
use dgsw_class_pg_proxy.Prelude.Maps.{StrMap, lookup}
use dgsw_class_pg_proxy.Lua.Context.{RequestCtx, Script, run_script}
use dgsw_class_pg_proxy.Lua.Context.Laws.{Extends, Extends-refl, Extends-trans, run_script-Extends}
use dgsw_class_pg_proxy.Lua.Context.Valid.{IsValid, Idempotent, run_script-IsValid}
use dgsw_class_pg_proxy.Lua.Sources.{PluginSources}
use dgsw_class_pg_proxy.Lua.Engine.{
  Vm, Session, load_plugin, call_found, call_loaded, attempt, stops, on_request_loop,
  run_on_request, chosen, on_route_loop, run_on_route, every_plugin, run_on_transform,
  run_on_response,
}

module _ (lower : String → String) (vm : Vm) where
  -- A relation between contexts that is reflexive and transitive, and that every script keeps.
  module _ (R : RequestCtx → RequestCtx → Type 0) (R_refl : (c : RequestCtx) → R c c)
      (R_trans : (c d e : RequestCtx) → R c d → R d e → R c e)
      (script : (A : Type 0) (p : Script A) (c : RequestCtx) → R c (run_script lower p c).1) where
    call_found_keeps :
        (f : Option vm.Function) (st : Session lower vm) → R st.1 (call_found lower vm f st).1.1
    unfolding call_found
    call_found_keeps none (s, c) = R_refl c
    call_found_keeps (some f) (s, c) = script _ (vm.call f s) c

    call_loaded_keeps :
        (hook : String) (r : Bool × Session lower vm) → R r.1.1 (call_loaded lower vm hook r).1.1
    unfolding call_loaded
    call_loaded_keeps hook (true, st) = call_found_keeps (vm.get_function hook st.0) st
    call_loaded_keeps hook (false, st) = R_refl st.1

    attempt_keeps :
        (hook name : String) (sources : StrMap String) (st : Session lower vm)
        → R st.1 (attempt lower vm hook name sources st).1.1
    unfolding attempt
    attempt_keeps hook name sources (s, c) = elim (Option-cases (lookup name sources)) [
      | inl e ↦ rw (e, attempt) (R_refl c)
      | inr (src, e) ↦
          rw (e, attempt)
            (R_trans _ _ _ (script _ (vm.exec name src s) c)
              (call_loaded_keeps hook (load_plugin lower vm name src (s, c))))
    ]

    on_request_loop_keeps :
        (names : List String) (sources : StrMap String) (st : Session lower vm)
        → R st.1 (on_request_loop lower vm names sources st).1
    unfolding on_request_loop
    on_request_loop_keeps [] sources st = R_refl st.1
    on_request_loop_keeps (name ∷ names) sources st =
        let r = attempt lower vm "on_request" name sources st in
        let first = attempt_keeps "on_request" name sources st in
        elim (Bool-cases (stops lower vm r)) [
          | inl e ↦ rw (e, on_request_loop) first
          | inr e ↦
              rw (e, on_request_loop)
                (R_trans _ _ _ first (on_request_loop_keeps names sources r.1))
        ]

    on_route_loop_keeps :
        (names : List String) (sources : StrMap String) (st : Session lower vm)
        → R st.1 (on_route_loop lower vm names sources st).1.1
    unfolding on_route_loop
    on_route_loop_keeps [] sources st = R_refl st.1
    on_route_loop_keeps (name ∷ names) sources st =
        let r = attempt lower vm "on_route" name sources st in
        let first = attempt_keeps "on_route" name sources st in
        elim (Option-cases (chosen lower vm r.0)) [
          | inr (up, e) ↦ rw (e, on_route_loop) first
          | inl e ↦
              rw (e, on_route_loop) (R_trans _ _ _ first (on_route_loop_keeps names sources r.1))
        ]

    every_plugin_keeps :
        (hook : String) (names : List String) (sources : StrMap String) (st : Session lower vm)
        → R st.1 (every_plugin lower vm hook names sources st).1
    unfolding every_plugin
    every_plugin_keeps hook [] sources st = R_refl st.1
    every_plugin_keeps hook (name ∷ names) sources st =
        R_trans _ _ _ (attempt_keeps hook name sources st)
          (every_plugin_keeps hook names sources (attempt lower vm hook name sources st).1)

    -- All four hooks.
    pub hooks_keep :
        (srcs : PluginSources) (st : Session lower vm)
        → R st.1 (run_on_request lower vm srcs st).1
          × R st.1 (run_on_route lower vm srcs st).1.1
          × R st.1 (run_on_transform lower vm srcs st).1
          × R st.1 (run_on_response lower vm srcs st).1
    unfolding run_on_request run_on_route run_on_transform run_on_response
    hooks_keep srcs st = (
      on_request_loop_keeps srcs.pipeline srcs.sources st,
      on_route_loop_keeps srcs.pipeline srcs.sources st,
      every_plugin_keeps "on_transform" srcs.pipeline srcs.sources st,
      every_plugin_keeps "on_response" srcs.pipeline srcs.sources st,
    )

  pub attempt-Extends :
      (hook name : String) (sources : StrMap String) (st : Session lower vm)
      → Extends st.1 (attempt lower vm hook name sources st).1.1
  attempt-Extends =
      attempt_keeps Extends Extends-refl (λ c d e. Extends-trans)
        (λ A p c. run_script-Extends lower p c)

  -- Whatever plugins a pipeline holds and whatever they do, each of the four hooks keeps the
  -- method, the path, the body and the address of the request and the body of the response, and
  -- takes no rejection back.
  pub hooks-Extends :
      (srcs : PluginSources) (st : Session lower vm)
      → Extends st.1 (run_on_request lower vm srcs st).1
        × Extends st.1 (run_on_route lower vm srcs st).1.1
        × Extends st.1 (run_on_transform lower vm srcs st).1
        × Extends st.1 (run_on_response lower vm srcs st).1
  hooks-Extends =
      hooks_keep Extends Extends-refl (λ c d e. Extends-trans)
        (λ A p c. run_script-Extends lower p c)

  -- Each of the four hooks keeps a context valid: header names distinct and in lower case, and
  -- statuses within a `u16`.
  pub hooks-IsValid :
      Idempotent lower
      → (srcs : PluginSources) (st : Session lower vm) → IsValid lower st.1
      → IsValid lower (run_on_request lower vm srcs st).1
        × IsValid lower (run_on_route lower vm srcs st).1.1
        × IsValid lower (run_on_transform lower vm srcs st).1
        × IsValid lower (run_on_response lower vm srcs st).1
  hooks-IsValid idem srcs st v =
      let (a, b, c, d) =
        hooks_keep (λ c d. IsValid lower c → IsValid lower d) (λ c v. v) (λ c d e f g v. g (f v))
          (λ A p c. run_script-IsValid lower idem p c) srcs st in
      (a v, b v, c v, d v)
