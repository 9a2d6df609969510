-- ===== src/Lua/Engine/Loading.antt =====
-- engine.rs: plugins that are not there, and plugins that define no hook.
use dgsw_class_pg_proxy.Prelude.{
  ℕ, zero, suc, ◌≡◌, refl, ap, ◌∙◌, String, Bool, true, false, Option, none, some, List, [], ◌∷◌,
  In, length, filter, arith, Option-cases, Bool-cases, inl, inr,
}
use dgsw_class_pg_proxy.Prelude.Maps.{StrMap, lookup}
use dgsw_class_pg_proxy.Lua.Context.{is_some}
use dgsw_class_pg_proxy.Lua.Engine.{
  Vm, Session, load_plugin, call_function, call_found, call_loaded, attempt, stops, on_request_loop,
  run_on_request, chosen, on_route_loop, run_on_route, every_plugin, run_on_transform,
  run_on_response,
}
use dgsw_class_pg_proxy.Lua.Engine.Pipeline.{with_pipeline}

module _ (lower : String → String) (vm : Vm) (sources : StrMap String) where
  attempt_missing :
      (hook x : String) (st : Session lower vm)
      → lookup x sources ≡ none
      → attempt lower vm hook x sources st ≡ (none, st)
  unfolding attempt
  attempt_missing hook x st e = rw (e, attempt)

  abbrev pub has_source : String → Bool
  has_source x = is_some (lookup x sources)

  no_source : (x : String) → has_source x ≡ false → lookup x sources ≡ none
  no_source x e = ground arith

  present : List String → List String
  present = filter has_source

  every_present :
      (hook : String) (names : List String) (st : Session lower vm)
      → every_plugin lower vm hook names sources st
        ≡ every_plugin lower vm hook (filter has_source names) sources st
  unfolding every_plugin
  every_present hook [] st = refl
  every_present hook (x ∷ names) st = elim (Option-cases (lookup x sources)) [
    | inr (src, e) ↦ rw e (every_present hook names (attempt lower vm hook x sources st).1)
    | inl e ↦ rw e (rw (attempt_missing hook x st e) (every_present hook names st))
  ]

  request_cons :
      (x : String) (names names' : List String) (st : Session lower vm)
      → ((st' : Session lower vm)
          → on_request_loop lower vm names sources st'
            ≡ on_request_loop lower vm names' sources st')
      → on_request_loop lower vm (x ∷ names) sources st
        ≡ on_request_loop lower vm (x ∷ names') sources st
  unfolding on_request_loop
  request_cons x names names' st h =
      let r = attempt lower vm "on_request" x sources st in
      elim (Bool-cases (stops lower vm r)) [
        | inl e ↦ rw (e, on_request_loop)
        | inr e ↦ rw (e, on_request_loop) (h r.1)
      ]

  request_skip :
      (x : String) (names : List String) (st : Session lower vm)
      → lookup x sources ≡ none
      → on_request_loop lower vm (x ∷ names) sources st ≡ on_request_loop lower vm names sources st
  unfolding on_request_loop stops
  request_skip x names st e =
      ap {B = Session lower vm}
        (λ r. elim (stops lower vm r) [
          | true ↦ r.1
          | false ↦ on_request_loop lower vm names sources r.1
        ])
        (attempt_missing "on_request" x st e)

  request_present :
      (names : List String) (st : Session lower vm)
      → on_request_loop lower vm names sources st
        ≡ on_request_loop lower vm (filter has_source names) sources st
  request_present [] st = refl
  request_present (x ∷ names) st = elim (Option-cases (lookup x sources)) [
    | inr (src, e) ↦
        rw e (request_cons x names (filter has_source names) st (request_present names))
    | inl e ↦ rw e (request_skip x names st e ∙ request_present names st)
  ]

  route_cons :
      (x : String) (names names' : List String) (st : Session lower vm)
      → ((st' : Session lower vm)
          → on_route_loop lower vm names sources st' ≡ on_route_loop lower vm names' sources st')
      → on_route_loop lower vm (x ∷ names) sources st
        ≡ on_route_loop lower vm (x ∷ names') sources st
  unfolding on_route_loop
  route_cons x names names' st h =
      let r = attempt lower vm "on_route" x sources st in
      elim (Option-cases (chosen lower vm r.0)) [
        | inr (up, e) ↦ rw (e, on_route_loop)
        | inl e ↦ rw (e, on_route_loop) (h r.1)
      ]

  route_skip :
      (x : String) (names : List String) (st : Session lower vm)
      → lookup x sources ≡ none
      → on_route_loop lower vm (x ∷ names) sources st ≡ on_route_loop lower vm names sources st
  unfolding on_route_loop
  route_skip x names st e =
      ap {B = Option String × Session lower vm}
        (λ r. elim (chosen lower vm r.0) [
          | some upstream ↦ (some upstream, r.1)
          | none ↦ on_route_loop lower vm names sources r.1
        ])
        (attempt_missing "on_route" x st e)

  route_present :
      (names : List String) (st : Session lower vm)
      → on_route_loop lower vm names sources st
        ≡ on_route_loop lower vm (filter has_source names) sources st
  unfolding on_route_loop
  route_present [] st = refl
  route_present (x ∷ names) st = elim (Option-cases (lookup x sources)) [
    | inr (src, e) ↦ rw e (route_cons x names (filter has_source names) st (route_present names))
    | inl e ↦ rw e (route_skip x names st e ∙ route_present names st)
  ]

  -- A plugin whose source is not there, as after a failed read, is as if it were not in the
  -- pipeline: none of the four hooks fails or stops on its account.
  pub hooks-missing :
      (names : List String) (st : Session lower vm)
      → let full = with_pipeline names sources in
        let rest = with_pipeline (filter has_source names) sources in
        (run_on_request lower vm full st ≡ run_on_request lower vm rest st)
        × (run_on_route lower vm full st ≡ run_on_route lower vm rest st)
        × (run_on_transform lower vm full st ≡ run_on_transform lower vm rest st)
        × (run_on_response lower vm full st ≡ run_on_response lower vm rest st)
  unfolding run_on_request run_on_route run_on_transform run_on_response
  hooks-missing names st = (
    request_present names st,
    route_present names st,
    every_present "on_transform" names st,
    every_present "on_response" names st,
  )

  unfoldable pub iterate : {A : Type 0} → ℕ → (A → A) → A → A
  iterate zero f a = a
  iterate (suc n) f a = iterate n f (f a)

  -- A plugin that is there and whose code, when it is loaded, changes nothing.
  abbrev pub DefinesNothing : String → Type 0
  DefinesNothing x =
      (src : String) × (lookup x sources ≡ some src)
      × ((st : Session lower vm) → load_plugin lower vm x src st ≡ (true, st))

  stale_attempt :
      (hook x : String) (f : vm.Function) (st : Session lower vm)
      → DefinesNothing x
      → vm.get_function hook st.0 ≡ some f
      → (attempt lower vm hook x sources st).1 ≡ (call_function lower vm f st).1
  unfolding attempt call_loaded call_found
  stale_attempt hook x f st (src, found, silent) e = rw (found, attempt) (rw (silent st) (rw e))

  -- The plugins of a pipeline share their global functions, and a plugin that defines no hook does
  -- not clear them. While a function `f` stands under the hook's name, each plugin that defines
  -- nothing calls `f` once more: `n` of them call it `n` times.
  pub every_plugin-stale :
      (hook : String) (f : vm.Function) (names : List String) (st : Session lower vm)
      → ((x : String) → In x names → DefinesNothing x)
      → ((st' : Session lower vm)
          → vm.get_function hook st'.0 ≡ some f
          → vm.get_function hook (call_function lower vm f st').1.0 ≡ some f)
      → vm.get_function hook st.0 ≡ some f
      → every_plugin lower vm hook names sources st
        ≡ iterate (length names) (λ s. (call_function lower vm f s).1) st
  unfolding every_plugin iterate
  every_plugin-stale hook f [] st silent stays e = refl
  every_plugin-stale hook f (x ∷ names) st silent stays e =
      rw (stale_attempt hook x f st (silent x (inl refl)) e)
        (every_plugin-stale hook f names _ (λ y m. silent y (inr m)) stays (stays st e))
