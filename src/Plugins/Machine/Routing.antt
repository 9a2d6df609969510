-- ===== src/Plugins/Machine/Routing.antt =====
-- The five plugins on the machine: which upstream they choose.
use dgsw_class_pg_proxy.Prelude.{
  ◌≡◌, refl, ap, ◌∙◌, inl, inr, String, true, false, Option, none, some, List, [], ◌∷◌, All, str_eq,
  Bool-cases, if◌then◌else◌, arith,
}
use dgsw_class_pg_proxy.Prelude.Maps.{StrMap}
use dgsw_class_pg_proxy.Prelude.Text.{codes, as_bytes}
use dgsw_class_pg_proxy.Plugins.Patterns.{starts_with}
use dgsw_class_pg_proxy.Lua.Context.{RequestCtx, run_script}
use dgsw_class_pg_proxy.Lua.Engine
use dgsw_class_pg_proxy.Lua.Engine.{
  Session, Outcome, chosen, attempt, load_plugin, call_function, run_on_route,
}
use dgsw_class_pg_proxy.Lua.Engine.Pipeline.{with_pipeline, routes, routes_cons}
use dgsw_class_pg_proxy.Plugins.Transform
use dgsw_class_pg_proxy.Plugins.Transform.{route_of}
use dgsw_class_pg_proxy.Plugins.Transform.Responses.{on_route_run}
use dgsw_class_pg_proxy.Plugins.Machine.{
  Plugin, ip_filter, rate_limit, auth, authz, transform, Globals, Outside, sample_pipeline,
  plugin_of, define, route, global, call_of, sample_vm,
}
use dgsw_class_pg_proxy.Plugins.Machine.Steps.{There, run_script-map}

module _ (lower : String → String) (outside : Outside) (sources : StrMap String) where
  abbrev Answers : Type 0
  Answers = Option Outcome × Session lower (sample_vm outside)

  abbrev tried : String → Globals → RequestCtx → Answers
  tried name g c = attempt lower (sample_vm outside) "on_route" name sources (g, c)

  abbrev silent : Globals → RequestCtx → Answers
  silent g c = (none, (g, c))

  attempt_silent :
      (name : String) (p : Plugin) (g : Globals) (c : RequestCtx)
      → plugin_of name ≡ some p
      → There sources name
      → (define p g).transforms ≡ false
      → tried name g c ≡ silent (define p g) c
  unfolding attempt load_plugin run_script str_eq global
  attempt_silent name p g c known (src, at) e = rw (at, attempt, known, e) refl

  global_route :
      (p : Plugin) (g : Globals)
      → (define p g).transforms ≡ true
      → global "on_route" (define p g) ≡ some route
  unfolding global str_eq
  global_route p g e = rw e refl

  attempt_route :
      (name : String) (p : Plugin) (g : Globals) (c : RequestCtx)
      → plugin_of name ≡ some p
      → There sources name
      → (define p g).transforms ≡ true
      → (tried name g c).0 ≡ some (Engine.text (route_of c.req_path))
  unfolding attempt load_plugin call_function run_script call_of
  attempt_route name p g c known (src, at) e =
      rw (at, attempt, known, global_route p g e)
        (ap (λ (r : (Globals × Outcome) × RequestCtx). some r.0.1)
            (run_script-map lower (λ o. (define p g, o)) Transform.on_route c)
          ∙ ap (λ (r : Outcome × RequestCtx). some r.0) (on_route_run lower c))

  abbrev answer : List String → Globals → RequestCtx → Option String
  answer names g c = (routes lower (sample_vm outside) sources names (g, c)).0

  -- The end of the loop, or the plugins behind.
  abbrev follow : List String → Answers → Option String
  follow names r =
      let later : Option String × Session lower (sample_vm outside) =
        elim (chosen lower (sample_vm outside) r.0) [
          | some upstream ↦ (some upstream, r.1)
          | none ↦ routes lower (sample_vm outside) sources names r.1
        ] in
      later.0

  first :
      (name : String) (names : List String) (g : Globals) (c : RequestCtx)
      → answer (name ∷ names) g c ≡ follow names (tried name g c)
  first name names g c =
      ap (λ (r : Option String × Session lower (sample_vm outside)). r.0)
        (routes_cons lower (sample_vm outside) sources name names (g, c))

  chosen_follow :
      (names : List String) (r : Answers) (up : String)
      → r.0 ≡ some (Engine.text up)
      → follow names r ≡ some up
  chosen_follow names (o, st) up e = rw e refl

  -- A plugin chooses by the path, if transform.lua has defined the hook by then, or leaves the
  -- choice to the plugins behind it.
  one :
      (name : String) (names : List String) (p : Plugin) (g : Globals) (c : RequestCtx)
      → plugin_of name ≡ some p
      → There sources name
      → ((define p g).transforms ≡ false → answer names (define p g) c ≡ some (route_of c.req_path))
      → answer (name ∷ names) g c ≡ some (route_of c.req_path)
  unfolding str_eq
  one name names p g c known there later = elim (Bool-cases (define p g).transforms) [
    | inl e ↦
        first name names g c
        ∙ chosen_follow names (tried name g c) (route_of c.req_path)
            (attempt_route name p g c known there e)
    | inr e ↦
        first name names g c ∙ ap (follow names) (attempt_silent name p g c known there e) ∙ later e
  ]

  -- Where their files have been read, the five plugins choose the upstream by the path alone,
  -- whatever requests the machine has handled before: "api_v2" below "/api/v2/", and "default" for
  -- every other path.
  pub run_on_route-sample :
      (g : Globals) (c : RequestCtx)
      → All (There sources) sample_pipeline
      → (run_on_route lower (sample_vm outside) (with_pipeline sample_pipeline sources) (g, c)).0
        ≡ some
            (if starts_with (codes "/api/v2/") (as_bytes c.req_path) then "api_v2" else "default")
  unfolding plugin_of str_eq
  run_on_route-sample g c (t, (t₁, (t₂, (t₃, (t₄, rest))))) =
      one "ip_filter.lua" _ ip_filter g c refl t (λ e.
        one "rate_limit.lua" _ rate_limit _ c refl t₁ (λ e₁.
          one "auth.lua" _ auth _ c refl t₂ (λ e₂.
            one "authz.lua" _ authz _ c refl t₃
              (λ e₃. one "transform.lua" [] transform _ c refl t₄ (λ e₄. absurd (ground arith))))))
