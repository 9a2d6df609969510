-- ===== src/Plugins/Machine/Access.antt =====
-- The five plugins on the machine: whom they let pass together.
use dgsw_class_pg_proxy.Prelude.{
  ◌≡◌, refl, ap, ◌∙◌, inl, inr, List, [], ◌∷◌, String, true, none, some, All, str_eq,
}
use dgsw_class_pg_proxy.Prelude.Maps.{StrMap, lookup}
use dgsw_class_pg_proxy.Lua.Context.{RequestCtx, is_rejected, is_some}
use dgsw_class_pg_proxy.Lua.Engine.{run_on_request}
use dgsw_class_pg_proxy.Lua.Engine.Pipeline.{with_pipeline, runs_nil}
use dgsw_class_pg_proxy.Plugins.Auth.Logins.{Proves}
use dgsw_class_pg_proxy.Plugins.Authz.{rules, find_rule}
use dgsw_class_pg_proxy.Plugins.Authz.Access.{allowed}
use dgsw_class_pg_proxy.Plugins.Machine.{
  ip_filter, rate_limit, auth, authz, transform, Globals, Outside, sample_pipeline, sample_vm,
  plugin_of,
}
use dgsw_class_pg_proxy.Plugins.Machine.Stages.{
  final, Same-headers, Forbidden, Fresh, Same-Fresh, Same-Allows, headers_of, filter_lem, limit_lem,
  goes_on,
}
use dgsw_class_pg_proxy.Plugins.Machine.Roles.{unproved, authorised}
use dgsw_class_pg_proxy.Plugins.Machine.Steps.{There, result, pass-on, pass-rejected}

module _ (lower : String → String) (outside : Outside) (sources : StrMap String) where
  open outside use {blocklist, allowlist, tostring, now, later, settings, req_id}

  abbrev pub AllThere : Type 0
  AllThere = All (There sources) sample_pipeline

  pub known :
      (plugin_of "ip_filter.lua" ≡ some ip_filter)
      × (plugin_of "rate_limit.lua" ≡ some rate_limit)
      × (plugin_of "auth.lua" ≡ some auth)
      × (plugin_of "authz.lua" ≡ some authz)
      × (plugin_of "transform.lua" ≡ some transform)
  unfolding plugin_of str_eq
  known = (refl, refl, refl, refl, refl)

  abbrev pub start : Globals → RequestCtx → RequestCtx
  start g c =
      (run_on_request lower (sample_vm outside) (with_pipeline sample_pipeline sources) (g, c)).1

  -- A request that passes has passed each of the first four plugins, and ends as transform.lua leaves
  -- what they have made of it.
  pub goes_through :
      (g : Globals) (c : RequestCtx)
      → AllThere
      → (start g c).rejected ≡ none
      → let c₁ = result lower outside sources ip_filter c in
        let c₂ = result lower outside sources rate_limit c₁ in
        let c₃ = result lower outside sources auth c₂ in
        let c₄ = result lower outside sources authz c₃ in
        (c₁.rejected ≡ none)
        × (c₂.rejected ≡ none)
        × (c₃.rejected ≡ none)
        × (c₄.rejected ≡ none)
        × (start g c ≡ result lower outside sources transform c₄)
  goes_through g c (t, (t₁, (t₂, (t₃, (t₄, rest))))) passes =
      let c₁ = result lower outside sources ip_filter c in
      let c₂ = result lower outside sources rate_limit c₁ in
      let c₃ = result lower outside sources auth c₂ in
      let c₄ = result lower outside sources authz c₃ in
      let (h₁, (g₁, run₁, p₁)) =
        goes_on lower outside sources "ip_filter.lua" _ ip_filter g c known.0 t passes in
      let (h₂, (g₂, run₂, p₂)) =
        goes_on lower outside sources "rate_limit.lua" _ rate_limit g₁ c₁ known.1 t₁ p₁ in
      let (h₃, (g₃, run₃, p₃)) =
        goes_on lower outside sources "auth.lua" _ auth g₂ c₂ known.2 t₂ p₂ in
      let (h₄, (g₄, run₄, p₄)) =
        goes_on lower outside sources "authz.lua" _ authz g₃ c₃ known.3 t₃ p₃ in
      let (h₅, (g₅, run₅, p₅)) =
        goes_on lower outside sources "transform.lua" [] transform g₄ c₄ known.4 t₄ p₄ in
      let last =
        ap (λ (st : Globals × RequestCtx). st.1)
          (runs_nil lower (sample_vm outside) sources
            (g₅, result lower outside sources transform c₄)) in
      (h₁, h₂, h₃, h₄, run₁ ∙ run₂ ∙ run₃ ∙ run₄ ∙ run₅ ∙ last)

  -- Where their files have been read: a request that the five plugins of the configuration let
  -- pass, whatever requests the machine has handled before, for a path that auth.lua does not hold
  -- public: it proves a role, by a key or by a token that holds, and the rule of authz.lua for its
  -- path, if there is one, permits that role.
  pub run_on_request-Proves :
      (g : Globals) (c : RequestCtx)
      → AllThere
      → Fresh lower outside sources c
      → (run_on_request lower
          (sample_vm outside)
          (with_pipeline sample_pipeline sources)
          (g, c)).1.rejected
        ≡ none
      → (r : String) × Proves settings (headers_of lower outside sources c) r
        × (allowed (some r) (find_rule rules c.req_path) ≡ true)
  run_on_request-Proves g c there fresh passes =
      let c₁ = result lower outside sources ip_filter c in
      let c₂ = result lower outside sources rate_limit c₁ in
      let (h₁, h₂, h₃, h₄, run) = goes_through g c there passes in
      let same₁ = (filter_lem lower outside sources c fresh.0).0 in
      let same₂ = (limit_lem lower outside sources c₁ h₁).0 in
      let fresh₂ =
        Same-Fresh lower outside sources c₁ c₂ same₂ h₂
          (Same-Fresh lower outside sources c c₁ same₁ h₁ fresh) in
      let (r, by) = authorised lower outside sources c₂ fresh₂ h₃ h₄ in
      let (proof, rule) =
        Same-Allows lower outside sources c c₁ r same₁
          (Same-Allows lower outside sources c₁ c₂ r same₂ by) in
      (r, proof, rule)

  abbrev passed : List String → Globals → RequestCtx → RequestCtx
  passed names g c = final lower outside sources names g c

  -- What the plugins after the first two leave of a request without the two headers.
  unproved_later :
      (g : Globals) (c : RequestCtx)
      → AllThere
      → Fresh lower outside sources c
      → lookup "x-api-key" (headers_of lower outside sources c) ≡ none
      → lookup "authorization" (headers_of lower outside sources c) ≡ none
      → Forbidden (passed ("auth.lua" ∷ "authz.lua" ∷ "transform.lua" ∷ []) g c)
  unproved_later g c (t, (t₁, (t₂, (t₃, rest)))) fresh no_key no_auth =
      let (same, forbidden) = unproved lower outside sources c fresh no_key no_auth in
      let untouched = ap is_rejected same ∙ ap is_some fresh.0 in
      let (g', run) =
        pass-on lower outside sources "auth.lua" ("authz.lua" ∷ "transform.lua" ∷ []) auth g c
          known.2 t₂ untouched in
      let ended =
        pass-rejected lower outside sources "authz.lua" ("transform.lua" ∷ []) authz g' c known.3 t₃
          (ap is_some forbidden.1) in
      (
        forbidden.0,
        ap (λ (st : Globals × RequestCtx). st.1.rejected) run
            ∙ ap (λ (d : RequestCtx). (passed ("authz.lua" ∷ "transform.lua" ∷ []) g' d).rejected)
                same
            ∙ ap (λ (d : RequestCtx). d.rejected) ended
            ∙ forbidden.1,
      )

  -- A request without the headers "x-api-key" and "authorization", for a path that auth.lua does
  -- not hold public, is rejected by the five plugins with 403, never with 401.
  pub run_on_request-forbids :
      (g : Globals) (c : RequestCtx)
      → AllThere
      → Fresh lower outside sources c
      → lookup "x-api-key" (headers_of lower outside sources c) ≡ none
      → lookup "authorization" (headers_of lower outside sources c) ≡ none
      → (msg : String) × ((run_on_request lower
            (sample_vm outside)
            (with_pipeline sample_pipeline sources)
            (g, c)).1.rejected
          ≡ some (403, msg))
  run_on_request-forbids g c there fresh no_key no_auth =
      let c₁ = result lower outside sources ip_filter c in
      let c₂ = result lower outside sources rate_limit c₁ in
      let (same₁, filtered) = filter_lem lower outside sources c fresh.0 in
      elim filtered [
        | inr (msg, e) ↦ (
          msg,
          ap (λ (d : RequestCtx). d.rejected)
                (pass-rejected lower outside sources "ip_filter.lua" _ ip_filter g c known.0 there.0
                  (ap is_some e))
              ∙ e,
        )
        | inl h₁ ↦
            let (same₂, h₂) = limit_lem lower outside sources c₁ h₁ in
            let (g₁, run₁) =
              pass-on lower outside sources "ip_filter.lua" _ ip_filter g c known.0 there.0
                (ap is_some h₁) in
            let (g₂, run₂) =
              pass-on lower outside sources "rate_limit.lua" _ rate_limit g₁ c₁ known.1 there.1.0
                (ap is_some h₂) in
            let fresh₂ =
              Same-Fresh lower outside sources c₁ c₂ same₂ h₂
                (Same-Fresh lower outside sources c c₁ same₁ h₁ fresh) in
            let headers = Same-headers lower outside sources c c₁ same₁ in
            let headers' = Same-headers lower outside sources c₁ c₂ same₂ in
            let (msg, e) =
              unproved_later g₂ c₂ there fresh₂
                (ap (lookup "x-api-key") (headers' ∙ headers) ∙ no_key)
                (ap (lookup "authorization") (headers' ∙ headers) ∙ no_auth) in
            (msg, ap (λ (st : Globals × RequestCtx). st.1.rejected) (run₁ ∙ run₂) ∙ e)
      ]
