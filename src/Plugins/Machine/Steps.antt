-- ===== src/Plugins/Machine/Steps.antt =====
-- The five plugins on the machine: one of them in the pipeline of `on_request`.
use dgsw_class_pg_proxy.Prelude.{
  ◌≡◌, refl, ap, ◌∙◌, String, true, false, Option, some, List, [], ◌∷◌, str_eq,
}
use dgsw_class_pg_proxy.Prelude.Maps.{StrMap, lookup}
use dgsw_class_pg_proxy.Lua.Context.{
  RequestCtx, is_rejected, Script, finish, access, run_script, apply,
}
use dgsw_class_pg_proxy.Lua.Engine.{Session, Outcome, attempt, stops, load_plugin, call_function}
use dgsw_class_pg_proxy.Lua.Engine.Pipeline.{runs, runs_stop, runs_go}
use dgsw_class_pg_proxy.Plugins.IpFilter
use dgsw_class_pg_proxy.Plugins.RateLimit
use dgsw_class_pg_proxy.Plugins.RateLimit.{Bucket}
use dgsw_class_pg_proxy.Plugins.Auth
use dgsw_class_pg_proxy.Plugins.Authz
use dgsw_class_pg_proxy.Plugins.Transform
use dgsw_class_pg_proxy.Plugins.Machine.{
  Plugin, ip_filter, rate_limit, auth, authz, transform, Globals, Outside, plugin_of, define,
  map_script, request, global, call_of, sample_vm,
}

-- The file of a plugin has been read.
abbrev pub There : StrMap String → String → Type 0
There sources name = (src : String) × (lookup name sources ≡ some src)

pub run_script-map :
    {A B : Type 0} (lower : String → String) (f : A → B) (s : Script A) (c : RequestCtx)
    → run_script lower (map_script f s) c ≡ (f (run_script lower s c).0, (run_script lower s c).1)
unfolding run_script map_script
run_script-map lower f (finish a) c = refl
run_script-map lower f (access m k) c =
    run_script-map lower f (k (apply lower m c).0) (apply lower m c).1

module _ (lower : String → String) (outside : Outside) (sources : StrMap String) where
  open outside use {blocklist, allowlist, tostring, now, later, settings, req_id}

  -- What a plugin's `on_request` makes of a context. The limit has a new table of buckets.
  abbrev pub result : Plugin → RequestCtx → RequestCtx
  result ip_filter c = (run_script lower (IpFilter.on_request blocklist allowlist) c).1
  result rate_limit c = (run_script lower (RateLimit.on_request tostring now later []) c).1
  result auth c = (run_script lower (Auth.on_request settings) c).1
  result authz c = (run_script lower Authz.on_request c).1
  result transform c = (run_script lower (Transform.on_request req_id) c).1

  called :
      (p : Plugin) (g : Globals) (c : RequestCtx)
      → (run_script lower (call_of outside (request p) (define p g)) c).1 ≡ result p c
  unfolding call_of
  called ip_filter g c =
      ap (λ r. r.1) (run_script-map lower _ (IpFilter.on_request blocklist allowlist) c)
  called rate_limit g c =
      ap (λ r. r.1) (run_script-map lower _ (RateLimit.on_request tostring now later []) c)
  called auth g c = ap (λ r. r.1) (run_script-map lower _ (Auth.on_request settings) c)
  called authz g c = ap (λ r. r.1) (run_script-map lower _ Authz.on_request c)
  called transform g c = ap (λ r. r.1) (run_script-map lower _ (Transform.on_request req_id) c)

  abbrev answer :
      Outcome → Globals → RequestCtx → Option Outcome × Session lower (sample_vm outside)
  answer o g c = (some o, (g, c))

  attempt_run :
      (name : String) (p : Plugin) (g : Globals) (c : RequestCtx)
      → plugin_of name ≡ some p
      → There sources name
      → (o : Outcome) × (g' : Globals) × (attempt lower
            (sample_vm outside)
            "on_request"
            name
            sources
            (g, c)
          ≡ (some o, (g', result p c)))
  unfolding attempt load_plugin call_function run_script str_eq global
  attempt_run name p g c known (src, at) =
      let r = run_script lower (call_of outside (request p) (define p g)) c in
      (
        r.0.1,
        r.0.0,
        rw (at, attempt, known) (ap (λ (d : RequestCtx). answer r.0.1 r.0.0 d) (called p g c)),
      )

  abbrev pub pass : List String → Globals × RequestCtx → Globals × RequestCtx
  pass names st = runs lower (sample_vm outside) sources names st

  -- A plugin that rejects ends the pipeline.
  pub pass-rejected :
      (name : String) (names : List String) (p : Plugin) (g : Globals) (c : RequestCtx)
      → plugin_of name ≡ some p
      → There sources name
      → is_rejected (result p c) ≡ true
      → (pass (name ∷ names) (g, c)).1 ≡ result p c
  unfolding stops
  pass-rejected name names p g c known there e =
      let (o, g', run) = attempt_run name p g c known there in
      ap (λ (st : Globals × RequestCtx). st.1)
        (runs_stop lower (sample_vm outside) sources name names (g, c) (rw run e)
          ∙ ap (λ r. r.1) run)

  -- One that does not goes on with its result.
  pub pass-on :
      (name : String) (names : List String) (p : Plugin) (g : Globals) (c : RequestCtx)
      → plugin_of name ≡ some p
      → There sources name
      → is_rejected (result p c) ≡ false
      → (g' : Globals) × (pass (name ∷ names) (g, c) ≡ pass names (g', result p c))
  unfolding stops
  pass-on name names p g c known there e =
      let (o, g', run) = attempt_run name p g c known there in
      (
        g',
        runs_go lower (sample_vm outside) sources name names (g, c) (rw run e)
            ∙ ap (λ r. pass names r.1) run,
      )
