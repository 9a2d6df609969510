-- ===== src/Lua/Engine/Rejections.antt =====
-- engine.rs: the hooks never read whether the request is rejected, except for the check after
-- `on_request`.
use dgsw_class_pg_proxy.Prelude.{
  ℕ, ◌≡◌, refl, ap, ◌∙◌, String, Bool, true, false, inl, inr, Option, none, some, List, [], ◌∷◌,
  Option-cases, Bool-cases, ltb,
}
use dgsw_class_pg_proxy.Prelude.Maps.{StrMap, lookup}
use dgsw_class_pg_proxy.Lua.Context.{
  RequestCtx, Method, req, res, vars, reject, set_var, get_var, set_req_header, set_res_header,
  set_res_status, get_req_header, upstream, u16_mod, apply, Script, finish, access, run_script,
}
use dgsw_class_pg_proxy.Lua.Sources.{PluginSources}
use dgsw_class_pg_proxy.Lua.Engine.{
  Vm, Outcome, Session, load_plugin, call_function, call_found, call_loaded, attempt, chosen,
  on_route_loop, run_on_route, every_plugin, run_on_transform, run_on_response,
}

abbrev pub Rejection : Type 0
Rejection = Option (ℕ × String)

-- The context with another rejection.
abbrev pub mark : Rejection → RequestCtx → RequestCtx
mark r c = record c { rejected = r }

module _ (lower : String → String) where
  apply-mark :
      (m : Method) (c : RequestCtx) (r : Rejection)
      → (r' : Rejection) × (apply lower m (mark r c)
          ≡ ((apply lower m c).0, mark r' (apply lower m c).1))
  unfolding apply
  apply-mark req c r = (r, refl)
  apply-mark res c r = (r, refl)
  apply-mark vars c r = (r, refl)
  apply-mark (reject status msg) c r = elim (Bool-cases (ltb status u16_mod)) [
    | inl e ↦ (some (status, msg), rw e)
    | inr e ↦ (r, rw e)
  ]
  apply-mark (set_var k v) c r = (r, refl)
  apply-mark (get_var k) c r = (r, refl)
  apply-mark (set_req_header k v) c r = (r, refl)
  apply-mark (set_res_header k v) c r = (r, refl)
  apply-mark (set_res_status status) c r = elim (Bool-cases (ltb status u16_mod)) [
    | inl e ↦ (r, rw e)
    | inr e ↦ (r, rw e)
  ]
  apply-mark (get_req_header k) c r = (r, refl)
  apply-mark (upstream name) c r = (r, refl)

  run_script-mark :
      {A : Type 0} (p : Script A) (c : RequestCtx) (r : Rejection)
      → (r' : Rejection) × (run_script lower p (mark r c)
          ≡ ((run_script lower p c).0, mark r' (run_script lower p c).1))
  unfolding run_script
  run_script-mark (finish a) c r = (r, refl)
  run_script-mark (access m k) c r =
      let (r', e) = apply-mark m c r in
      let (r'', e') = run_script-mark (k (apply lower m c).0) (apply lower m c).1 r' in
      (r'', rw e e')

module _ (lower : String → String) (vm : Vm) where
  abbrev marked : Rejection → Session lower vm → Session lower vm
  marked r (s, c) = (s, mark r c)

  -- Two results that differ in the rejection only.
  abbrev Marks : {A : Type 0} → A × Session lower vm → A × Session lower vm → Type 0
  Marks x y = (r : Rejection) × (x ≡ (y.0, marked r y.1))

  call_found-mark :
      (f : Option vm.Function) (st : Session lower vm) (r : Rejection)
      → Marks (call_found lower vm f (marked r st)) (call_found lower vm f st)
  unfolding call_found call_function
  call_found-mark none (s, c) r = (r, refl)
  call_found-mark (some f) (s, c) r =
      let (r', e) = run_script-mark lower (vm.call f s) c r in
      (r', ap {B = Option Outcome × Session lower vm} (λ x. (some x.0.1, (x.0.0, x.1))) e)

  attempt-mark :
      (hook name : String) (sources : StrMap String) (st : Session lower vm) (r : Rejection)
      → Marks
          (attempt lower vm hook name sources (marked r st))
          (attempt lower vm hook name sources st)
  unfolding attempt load_plugin call_loaded
  attempt-mark hook name sources (s, c) r = elim (Option-cases (lookup name sources)) [
    | inl e ↦ (r, rw (e, attempt))
    | inr (src, e) ↦
        let (r', e') = run_script-mark lower (vm.exec name src s) c r in
        let (r'', e'') = loaded (load_plugin lower vm name src (s, c)) r' in
        (
          r'',
          rw (e, attempt)
              (ap {B = Option Outcome × Session lower vm}
                  (λ x. call_loaded lower vm hook (x.0.1, (x.0.0, x.1))) e'
                ∙ e''),
        )
  ]
    where
      loaded :
          (x : Bool × Session lower vm) (r : Rejection)
          → Marks (call_loaded lower vm hook (x.0, marked r x.1)) (call_loaded lower vm hook x)
      loaded (true, st) r = call_found-mark (vm.get_function hook st.0) st r
      loaded (false, st) r = (r, refl)

  every_plugin-mark :
      (hook : String) (names : List String) (sources : StrMap String) (st : Session lower vm)
      (r : Rejection)
      → (r' : Rejection) × (every_plugin lower vm hook names sources (marked r st)
          ≡ marked r' (every_plugin lower vm hook names sources st))
  unfolding every_plugin
  every_plugin-mark hook [] sources st r = (r, refl)
  every_plugin-mark hook (name ∷ names) sources st r =
      let (r', e) = attempt-mark hook name sources st r in
      let (r'', e') =
        every_plugin-mark hook names sources (attempt lower vm hook name sources st).1 r' in
      (r'', rw e e')

  on_route_loop-mark :
      (names : List String) (sources : StrMap String) (st : Session lower vm) (r : Rejection)
      → Marks
          (on_route_loop lower vm names sources (marked r st))
          (on_route_loop lower vm names sources st)
  unfolding on_route_loop
  on_route_loop-mark [] sources st r = (r, refl)
  on_route_loop-mark (name ∷ names) sources st r =
      let t = attempt lower vm "on_route" name sources st in
      let (r', e) = attempt-mark "on_route" name sources st r in
      let rest = on_route_loop-mark names sources t.1 r' in
      let (r'', e') = stepped t.1 r' rest (chosen lower vm t.0) in
      (r'', ap {B = Option String × Session lower vm} (λ t. pick (chosen lower vm t.0) t.1) e ∙ e')
    where
      pick : Option String → Session lower vm → Option String × Session lower vm
      pick o t = elim o [ some up ↦ (some up, t) | none ↦ on_route_loop lower vm names sources t ]

      stepped :
          (t : Session lower vm) (r : Rejection)
          → Marks
              (on_route_loop lower vm names sources (marked r t))
              (on_route_loop lower vm names sources t)
          → (o : Option String) → Marks (pick o (marked r t)) (pick o t)
      stepped t r rest none = rest
      stepped t r rest (some up) = (r, refl)

  -- The three hooks that follow `on_request`.
  pub hooks-mark :
      (srcs : PluginSources) (st : Session lower vm) (r : Rejection)
      → Marks (run_on_route lower vm srcs (marked r st)) (run_on_route lower vm srcs st)
        × ((r' : Rejection) × (run_on_transform lower vm srcs (marked r st)
              ≡ marked r' (run_on_transform lower vm srcs st)))
        × ((r' : Rejection) × (run_on_response lower vm srcs (marked r st)
              ≡ marked r' (run_on_response lower vm srcs st)))
  unfolding run_on_route run_on_transform run_on_response
  hooks-mark srcs st r = (
    on_route_loop-mark srcs.pipeline srcs.sources st r,
    every_plugin-mark "on_transform" srcs.pipeline srcs.sources st r,
    every_plugin-mark "on_response" srcs.pipeline srcs.sources st r,
  )
