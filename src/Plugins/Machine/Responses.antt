-- ===== src/Plugins/Machine/Responses.antt =====
-- The five plugins on the machine: the headers of a response.
use dgsw_class_pg_proxy.Prelude.{
  ◌≡◌, refl, ap, ◌∙◌, inl, inr, String, true, false, Option, none, some, List, [], ◌∷◌, str_eq,
  Bool-cases,
}
use dgsw_class_pg_proxy.Prelude.Maps.{StrMap, lookup}
use dgsw_class_pg_proxy.Lua.Context.{RequestCtx, run_script}
use dgsw_class_pg_proxy.Lua.Engine.{
  Session, Outcome, attempt, load_plugin, call_function, every_plugin, run_on_response,
}
use dgsw_class_pg_proxy.Lua.Engine.Pipeline.{with_pipeline}
use dgsw_class_pg_proxy.Plugins.Transform
use dgsw_class_pg_proxy.Plugins.Transform.Headers.{Fixes}
use dgsw_class_pg_proxy.Plugins.Transform.Responses.{
  response_headers, on_response_run, on_response-headers,
}
use dgsw_class_pg_proxy.Plugins.Machine.{
  Plugin, ip_filter, rate_limit, auth, authz, transform, Globals, Outside, sample_pipeline,
  plugin_of, define, response, global, call_of, sample_vm,
}
use dgsw_class_pg_proxy.Plugins.Machine.Steps.{There, run_script-map}
use dgsw_class_pg_proxy.Plugins.Machine.Access.{AllThere, known}

module _ (lower : String → String) (outside : Outside) (sources : StrMap String) where
  abbrev State : Type 0
  State = Session lower (sample_vm outside)

  abbrev hardened : RequestCtx → RequestCtx
  hardened c = (run_script lower Transform.on_response c).1

  abbrev tried : String → Globals → RequestCtx → Option Outcome × State
  tried name g c = attempt lower (sample_vm outside) "on_response" name sources (g, c)

  tried_silent :
      (name : String) (p : Plugin) (g : Globals) (c : RequestCtx)
      → plugin_of name ≡ some p
      → There sources name
      → (define p g).transforms ≡ false
      → (tried name g c).1 ≡ (define p g, c)
  unfolding attempt load_plugin run_script str_eq global
  tried_silent name p g c ours (src, at) e =
      let same : tried name g c ≡ (none, (define p g, c)) = rw (at, attempt, ours, e) refl in
      ap (λ (r : Option Outcome × State). r.1) same

  global_response :
      (p : Plugin) (g : Globals)
      → (define p g).transforms ≡ true
      → global "on_response" (define p g) ≡ some response
  unfolding global str_eq
  global_response p g e = rw e refl

  tried_response :
      (name : String) (p : Plugin) (g : Globals) (c : RequestCtx)
      → plugin_of name ≡ some p
      → There sources name
      → (define p g).transforms ≡ true
      → (tried name g c).1 ≡ (define p g, hardened c)
  unfolding attempt load_plugin call_function run_script call_of
  tried_response name p g c ours (src, at) e =
      let same : tried name g c
          ≡ (some (run_script lower Transform.on_response c).0, (define p g, hardened c)) =
        rw (at, attempt, ours, global_response p g e)
          (ap (λ (r : (Globals × Outcome) × RequestCtx). (some r.0.1, (r.0.0, r.1)))
            (run_script-map lower (λ o. (define p g, o)) Transform.on_response c)) in
      ap (λ (r : Option Outcome × State). r.1) same

  module _ (fixes : Fixes lower response_headers) where
    -- What the hook keeps of a context, however often it is called.
    record Kept (c d : RequestCtx) : Type 0 where
      vars : d.vars ≡ c.vars
      headers : d.req_headers ≡ c.req_headers
      status : d.res_status ≡ c.res_status

    hardened-Kept : (c : RequestCtx) → Kept c (hardened c)
    hardened-Kept c =
        let run = on_response_run lower fixes c in
        record {
          vars = ap (λ (d : RequestCtx). d.vars) run;
          headers = ap (λ (d : RequestCtx). d.req_headers) run;
          status = ap (λ (d : RequestCtx). d.res_status) run;
        }

    Kept_trans : (a b c : RequestCtx) → Kept a b → Kept b c → Kept a c
    Kept_trans a b c h k = record {
      vars = k.vars ∙ h.vars;
      headers = k.headers ∙ h.headers;
      status = k.status ∙ h.status;
    }

    abbrev after : List String → State → State
    after names st = every_plugin lower (sample_vm outside) "on_response" names sources st

    -- One plugin calls the hook, if transform.lua has defined it by then, or does nothing.
    one :
        (name : String) (names : List String) (p : Plugin) (g : Globals) (c : RequestCtx)
        → plugin_of name ≡ some p
        → There sources name
        → (g' : Globals) × (d : RequestCtx) × Kept c d
          × (after (name ∷ names) (g, c) ≡ after names (g', d))
    unfolding every_plugin
    one name names p g c ours there = elim (Bool-cases (define p g).transforms) [
      | inl e ↦ (
        define p g,
        hardened c,
        hardened-Kept c,
        ap (after names) (tried_response name p g c ours there e),
      )
      | inr e ↦ (
        define p g,
        c,
        record { vars = refl; headers = refl; status = refl },
        ap (after names) (tried_silent name p g c ours there e),
      )
    ]

    -- Where the files of the five plugins have been read, and whatever requests the machine has
    -- handled before: the last call of `on_response` is that of transform.lua.
    ends_hardened :
        (g : Globals) (c : RequestCtx)
        → AllThere lower outside sources
        → (d : RequestCtx) × Kept c d × ((after sample_pipeline (g, c)).1 ≡ hardened d)
    unfolding every_plugin
    ends_hardened g c (t, (t₁, (t₂, (t₃, (t₄, rest))))) =
        let ours = known lower outside sources in
        let last : List String = "transform.lua" ∷ [] in
        let last_two : List String = "authz.lua" ∷ last in
        let last_three : List String = "auth.lua" ∷ last_two in
        let (g₁, c₁, k₁, run₁) =
          one "ip_filter.lua" ("rate_limit.lua" ∷ last_three) ip_filter g c ours.0 t in
        let (g₂, c₂, k₂, run₂) = one "rate_limit.lua" last_three rate_limit g₁ c₁ ours.1 t₁ in
        let (g₃, c₃, k₃, run₃) = one "auth.lua" last_two auth g₂ c₂ ours.2 t₂ in
        let (g₄, c₄, k₄, run₄) = one "authz.lua" last authz g₃ c₃ ours.3 t₃ in
        let end = tried_response "transform.lua" transform g₄ c₄ ours.4 t₄ refl in
        (
          c₄,
          Kept_trans c c₁ c₄ k₁ (Kept_trans c₁ c₂ c₄ k₂ (Kept_trans c₂ c₃ c₄ k₃ k₄)),
          ap (λ (st : State). st.1) (run₁ ∙ run₂ ∙ run₃ ∙ run₄ ∙ end),
        )

    -- If lower case keeps the names of the headers that transform.lua sets, and where the files of
    -- the five plugins have been read: whatever requests the machine has handled before, and
    -- whatever the upstream answered, a response says "proxy" for the server, forbids frames and
    -- has the id that the request was given; its status stays.
    pub run_on_response-hardens :
        (g : Globals) (c : RequestCtx) (req_id : String)
        → AllThere lower outside sources
        → lookup "request_id" c.vars ≡ some req_id
        → let d =
            (run_on_response lower
              (sample_vm outside)
              (with_pipeline sample_pipeline sources)
              (g, c)).1 in
          (lookup "server" d.res_headers ≡ some "proxy")
          × (lookup "x-frame-options" d.res_headers ≡ some "DENY")
          × (lookup "x-request-id" d.res_headers ≡ some req_id)
          × (d.res_status ≡ c.res_status)
    unfolding run_on_response every_plugin
    run_on_response-hardens g c req_id there given =
        let (d, kept, run) = ends_hardened g c there in
        let (server, frames, id, origin, status) = on_response-headers lower fixes d in
        let at = λ (name : String). ap (λ (e : RequestCtx). lookup name e.res_headers) run in
        let named = ap (lookup "request_id") kept.vars ∙ given in
        (
          at "server" ∙ server,
          at "x-frame-options" ∙ frames,
          at "x-request-id" ∙ id ∙ rw named refl,
          ap (λ (e : RequestCtx). e.res_status) run ∙ status ∙ kept.status,
        )
