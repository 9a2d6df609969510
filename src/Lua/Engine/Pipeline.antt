-- ===== src/Lua/Engine/Pipeline.antt =====
-- engine.rs: the order in which the plugins of a pipeline run, and where the loops end.
use mathlib.Core.List.{append-nil}
use dgsw_class_pg_proxy.Prelude.{
  ◌≡◌, refl, sym, ap, ◌∙◌, subst, String, true, false, inl, inr, Option, none, some, List, [], ◌∷◌,
  ◌++◌, arith, Bool-cases,
}
use dgsw_class_pg_proxy.Prelude.Maps.{StrMap, lookup}
use dgsw_class_pg_proxy.Lua.Context.{is_rejected, upstream_var}
use dgsw_class_pg_proxy.Lua.Sources.{PluginSources}
use dgsw_class_pg_proxy.Lua.Engine.{
  Vm, Outcome, Session, attempt, stops, on_request_loop, run_on_request, chosen, on_route_loop,
  run_on_route, every_plugin,
}
use dgsw_class_pg_proxy.Lua.Engine.Frame.{hooks-Extends}

abbrev pub with_pipeline : List String → StrMap String → PluginSources
with_pipeline names sources = record { pipeline = names; sources = sources }

module _ (lower : String → String) (vm : Vm) (sources : StrMap String) where
  abbrev pub runs : List String → Session lower vm → Session lower vm
  runs names = run_on_request lower vm (with_pipeline names sources)

  abbrev pub tries : String → String → Session lower vm → Option Outcome × Session lower vm
  tries hook name = attempt lower vm hook name sources

  pub rejected_later :
      (names : List String) (st : Session lower vm)
      → is_rejected st.1 ≡ true
      → is_rejected (runs names st).1 ≡ true
  rejected_later names st h =
      ground (arith, (hooks-Extends lower vm (with_pipeline names sources) st).0.rejection)

  stops-rejected :
      (r : Option Outcome × Session lower vm) → stops lower vm r ≡ true → is_rejected r.1.1 ≡ true
  unfolding stops
  stops-rejected (none, st) h = cc
  stops-rejected (some o, st) h = h

  pub runs_nil : (st : Session lower vm) → runs [] st ≡ st
  unfolding run_on_request on_request_loop
  runs_nil st = refl

  pub runs_stop :
      (x : String) (xs : List String) (st : Session lower vm)
      → stops lower vm (tries "on_request" x st) ≡ true
      → runs (x ∷ xs) st ≡ (tries "on_request" x st).1
  unfolding run_on_request on_request_loop
  runs_stop x xs st e = rw (e, on_request_loop)

  pub runs_go :
      (x : String) (xs : List String) (st : Session lower vm)
      → stops lower vm (tries "on_request" x st) ≡ false
      → runs (x ∷ xs) st ≡ runs xs (tries "on_request" x st).1
  unfolding run_on_request on_request_loop
  runs_go x xs st e = rw (e, on_request_loop)

  -- A pipeline of one plugin.
  pub run_on_request_one :
      (x : String) (st : Session lower vm)
      → run_on_request lower vm (with_pipeline (x ∷ []) sources) st
        ≡ (attempt lower vm "on_request" x sources st).1
  run_on_request_one x st = elim (Bool-cases (stops lower vm (tries "on_request" x st))) [
    | inl e ↦ runs_stop x [] st e
    | inr e ↦ runs_go x [] st e ∙ runs_nil (tries "on_request" x st).1
  ]

  pub goes_on :
      (x : String) (xs : List String) (st : Session lower vm)
      → is_rejected (runs (x ∷ xs) st).1 ≡ false
      → stops lower vm (tries "on_request" x st) ≡ false
  goes_on x xs st h = elim (Bool-cases (stops lower vm (tries "on_request" x st))) [
    | inl e ↦
        let rejected = stops-rejected (tries "on_request" x st) e in
        let passed : is_rejected (tries "on_request" x st).1.1 ≡ false =
          subst (λ (t : Session lower vm). is_rejected t.1 ≡ false) (runs_stop x xs st e) h in
        cc
    | inr e ↦ e
  ]

  pub passes_on :
      (x : String) (xs : List String) (st : Session lower vm)
      → is_rejected (runs (x ∷ xs) st).1 ≡ false
      → is_rejected (runs xs (tries "on_request" x st).1).1 ≡ false
  passes_on x xs st h =
      subst (λ (t : Session lower vm). is_rejected t.1 ≡ false)
        (runs_go x xs st (goes_on x xs st h)) h

  -- While the request is not rejected, the pipeline goes on with the next plugins.
  on_request-append :
      (xs ys : List String) (st : Session lower vm)
      → is_rejected (runs xs st).1 ≡ false
      → runs (xs ++ ys) st ≡ runs ys (runs xs st)
  on_request-append [] ys st h = ap (runs ys) (sym (runs_nil st))
  on_request-append (x ∷ xs) ys st h =
      let e = goes_on x xs st h in
      runs_go x (xs ++ ys) st e
      ∙ on_request-append xs ys (tries "on_request" x st).1 (passes_on x xs st h)
      ∙ ap (runs ys) (sym (runs_go x xs st e))

  -- The plugins before one let the request pass, and its own `on_request` rejects: then that is the
  -- end of the pipeline, whatever plugins follow. None of them is loaded or called.
  pub on_request-rejects :
      (xs ys : List String) (x : String) (st : Session lower vm) (o : Outcome)
      (final : Session lower vm)
      → is_rejected (runs xs st).1 ≡ false
      → tries "on_request" x (runs xs st) ≡ (some o, final)
      → is_rejected final.1 ≡ true
      → runs (xs ++ x ∷ ys) st ≡ final
  unfolding stops
  on_request-rejects xs ys x st o final passed called rejected =
      on_request-append xs (x ∷ ys) st passed
      ∙ runs_stop x ys (runs xs st) (rw called rejected)
      ∙ ap (λ (r : Option Outcome × Session lower vm). r.1) called

  -- A request that the pipeline does not reject has been through every plugin, each in its turn.
  on_request-all :
      (xs : List String) (st : Session lower vm)
      → is_rejected (runs xs st).1 ≡ false
      → runs xs st ≡ every_plugin lower vm "on_request" xs sources st
  unfolding every_plugin
  on_request-all [] st h = runs_nil st
  on_request-all (x ∷ xs) st h =
      runs_go x xs st (goes_on x xs st h)
      ∙ on_request-all xs (tries "on_request" x st).1 (passes_on x xs st h)

  abbrev pub routes : List String → Session lower vm → Option String × Session lower vm
  routes names = run_on_route lower vm (with_pipeline names sources)

  abbrev every : String → List String → Session lower vm → Session lower vm
  every hook names = every_plugin lower vm hook names sources

  -- None of the plugins, run in turn, chooses an upstream.
  abbrev pub Silent : List String → Session lower vm → Type 0
  Silent [] st = Unit {0}
  Silent (x ∷ xs) st =
      (chosen lower vm (tries "on_route" x st).0 ≡ none) × Silent xs (tries "on_route" x st).1

  pub routes_cons :
      (x : String) (xs : List String) (st : Session lower vm)
      → routes (x ∷ xs) st ≡ elim (chosen lower vm (tries "on_route" x st).0) [
        | some upstream ↦ (some upstream, (tries "on_route" x st).1)
        | none ↦ routes xs (tries "on_route" x st).1
      ]
  unfolding run_on_route on_route_loop
  routes_cons x xs st = refl

  on_route-append :
      (xs ys : List String) (st : Session lower vm)
      → Silent xs st
      → routes (xs ++ ys) st ≡ routes ys (every "on_route" xs st)
  unfolding every_plugin
  on_route-append [] ys st h = refl
  on_route-append (x ∷ xs) ys st h =
      routes_cons x (xs ++ ys) st ∙ rw h.0 (on_route-append xs ys (tries "on_route" x st).1 h.1)

  -- No plugin before one chooses an upstream, and its own `on_route` returns a name: then that is
  -- the upstream, and no later plugin is loaded or called.
  pub on_route-first :
      (xs ys : List String) (x up : String) (st : Session lower vm)
      → Silent xs st
      → chosen lower vm (tries "on_route" x (every "on_route" xs st)).0 ≡ some up
      → routes (xs ++ x ∷ ys) st ≡ (some up, (tries "on_route" x (every "on_route" xs st)).1)
  on_route-first xs ys x up st h e =
      on_route-append xs (x ∷ ys) st h ∙ routes_cons x ys (every "on_route" xs st) ∙ rw e

  -- Where no plugin returns a name, every plugin has run, and the variable "__upstream__" decides,
  -- as the plugins have left it.
  on_route-Silent :
      (xs : List String) (st : Session lower vm)
      → Silent xs st
      → routes xs st ≡ (lookup upstream_var (every "on_route" xs st).1.vars, every "on_route" xs st)
  unfolding run_on_route on_route_loop
  on_route-Silent xs st h =
      ap (λ zs. routes zs st) (sym (append-nil xs)) ∙ on_route-append xs [] st h
