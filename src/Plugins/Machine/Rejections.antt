-- ===== src/Plugins/Machine/Rejections.antt =====
-- The five plugins on the machine: with which statuses they reject a request.
use dgsw_class_pg_proxy.Prelude.{
  ℕ, ◌≡◌, ◌⊎◌, refl, ap, ◌∙◌, subst, sym, inl, inr, String, none, some, Option, List, [], ◌∷◌, All,
  concat, Bool-cases,
}
use dgsw_class_pg_proxy.Prelude.Maps.{StrMap}
use dgsw_class_pg_proxy.Lua.Context.{RequestCtx, is_some, Script, run_script, apply, req_field}
use dgsw_class_pg_proxy.Lua.Engine.{Outcome, run_on_request}
use dgsw_class_pg_proxy.Lua.Engine.Pipeline.{with_pipeline, runs_nil}
use dgsw_class_pg_proxy.Plugins.Auth
use dgsw_class_pg_proxy.Plugins.Auth.{
  Settings, Login, fails, refuses, logged_in, is_public, login, by_login,
}
use dgsw_class_pg_proxy.Plugins.Auth.Access.{var, on_request_run as auth_run}
use dgsw_class_pg_proxy.Plugins.Authz
use dgsw_class_pg_proxy.Plugins.Authz.{Rule, rules, find_rule, has_role, by_rule, forbid}
use dgsw_class_pg_proxy.Plugins.Authz.Access.{forbid_lem, on_request_run as authz_run}
use dgsw_class_pg_proxy.Plugins.Transform.Headers.{on_request-rejected}
use dgsw_class_pg_proxy.Plugins.Machine.{
  Plugin, ip_filter, rate_limit, auth, authz, transform, Globals, Outside, sample_pipeline,
  sample_vm, plugin_of,
}
use dgsw_class_pg_proxy.Plugins.Machine.Stages.{final, filter_lem, limit_lem}
use dgsw_class_pg_proxy.Plugins.Machine.Steps.{There, result, pass-on, pass-rejected}
use dgsw_class_pg_proxy.Plugins.Machine.Access.{AllThere, known}

abbrev pub Rejection : Type 0
Rejection = Option (ℕ × String)

-- A rejection with 401 or 403.
abbrev pub Denied : Rejection → Type 0
Denied r =
    (status : ℕ) × (msg : String) × (r ≡ some (status, msg)) × ((status ≡ 401) ⊎ (status ≡ 403))

abbrev pub Sound : Rejection → Type 0
Sound r = (r ≡ none) ⊎ Denied r

module _ (lower : String → String) where
  abbrev left : Script Outcome → RequestCtx → Rejection
  left script c = (run_script lower script c).1.rejected

  by_login-Sound :
      (settings : Settings) (l : Login settings) (c : RequestCtx)
      → c.rejected ≡ none
      → Sound (left (by_login settings l) c)
  unfolding run_script apply
  by_login-Sound settings fails c h = inl h
  by_login-Sound settings (logged_in none r m) c h = inl h
  by_login-Sound settings (logged_in (some u) none m) c h = inl h
  by_login-Sound settings (logged_in (some u) (some r) m) c h = inl h
  by_login-Sound settings (refuses message) c h =
      inr (401, concat "Unauthorized: " message, refl, inl refl)

  auth-Sound :
      (settings : Settings) (c : RequestCtx)
      → c.rejected ≡ none
      → Sound (left (Auth.on_request settings) c)
  unfolding run_script apply
  auth-Sound settings c h =
      let same = ap (λ (r : Outcome × RequestCtx). r.1.rejected) (auth_run lower settings c) in
      subst Sound (sym same) (elim (Bool-cases (is_public c.req_path)) [
        | inl e ↦ rw e (inl h)
        | inr e ↦ rw e (by_login-Sound settings (login settings (req_field lower c).headers) c h)
      ])

  forbid-Sound : (msg : String) (c : RequestCtx) → Sound (left (forbid msg) c)
  forbid-Sound msg c = inr (403, msg, forbid_lem lower msg c, inr refl)

  by_rule-Sound :
      (role : Option String) (o : Option Rule) (c : RequestCtx)
      → c.rejected ≡ none
      → Sound (left (by_rule role o) c)
  unfolding run_script
  by_rule-Sound none none c h = forbid-Sound "Forbidden: authentication required" c
  by_rule-Sound (some r) none c h = inl h
  by_rule-Sound role (some rule) c h = elim (Bool-cases (has_role role rule.roles)) [
    | inl e ↦ rw e (inl h)
    | inr e ↦ rw e (forbid-Sound "Forbidden: insufficient privileges" c)
  ]

  authz-Sound : (c : RequestCtx) → c.rejected ≡ none → Sound (left Authz.on_request c)
  unfolding run_script
  authz-Sound c h =
      let same = ap (λ (r : Outcome × RequestCtx). r.1.rejected) (authz_run lower c) in
      subst Sound (sym same) (elim (Bool-cases (Authz.is_public (var "auth_method" c))) [
        | inl e ↦ rw e (inl h)
        | inr e ↦ rw e (by_rule-Sound (var "role" c) (find_rule rules c.req_path) c h)
      ])

module _ (lower : String → String) (outside : Outside) (sources : StrMap String) where
  -- No plugin denies a request otherwise than with 401 or 403.
  result-Sound :
      (p : Plugin) (c : RequestCtx)
      → c.rejected ≡ none
      → Sound (result lower outside sources p c).rejected
  result-Sound ip_filter c h = elim (filter_lem lower outside sources c h).1 [
    | inl e ↦ inl e
    | inr (msg, e) ↦ inr (403, msg, e, inr refl)
  ]
  result-Sound rate_limit c h = inl (limit_lem lower outside sources c h).1
  result-Sound auth c h = auth-Sound lower outside.settings c h
  result-Sound authz c h = authz-Sound lower c h
  result-Sound transform c h = inl (on_request-rejected lower outside.req_id c ∙ h)

  -- A file of the pipeline that has been read is one of the five plugins.
  abbrev Ours : String → Type 0
  Ours name = There sources name × ((p : Plugin) × (plugin_of name ≡ some p))

  final-Sound :
      (names : List String) (g : Globals) (c : RequestCtx)
      → All Ours names
      → c.rejected ≡ none
      → Sound (final lower outside sources names g c).rejected
  final-Sound [] g c ours h =
      subst Sound
        (sym (
          ap (λ (st : Globals × RequestCtx). st.1.rejected)
            (runs_nil lower (sample_vm outside) sources (g, c))))
        (inl h)
  final-Sound (name ∷ names) g c ((there, (p, at)), ours) h =
      let d = result lower outside sources p c in
      elim (result-Sound p c h) [
        | inl e ↦
            let (g', run) =
              pass-on lower outside sources name names p g c at there (ap is_some e) in
            subst Sound (sym (ap (λ (st : Globals × RequestCtx). st.1.rejected) run))
              (final-Sound names g' d ours e)
        | inr (status, msg, e, code) ↦
            subst Sound
              (sym (
                ap (λ (d : RequestCtx). d.rejected)
                  (pass-rejected lower outside sources name names p g c at there (ap is_some e))))
              (inr (status, msg, e, code))
      ]

  -- The plugins of the configuration let a request pass, or reject it with 401 or 403.
  pub run_on_request-Sound :
      (g : Globals) (c : RequestCtx)
      → AllThere lower outside sources
      → c.rejected ≡ none
      → Sound
          (run_on_request lower
            (sample_vm outside)
            (with_pipeline sample_pipeline sources)
            (g, c)).1.rejected
  run_on_request-Sound g c (t, (t₁, (t₂, (t₃, (t₄, rest))))) h =
      let ours = known lower outside sources in
      final-Sound sample_pipeline g c
        (
          (t, (ip_filter, ours.0)),
          (
            (t₁, (rate_limit, ours.1)),
            ((t₂, (auth, ours.2)), ((t₃, (authz, ours.3)), ((t₄, (transform, ours.4)), rest))),
          ),
        )
        h
