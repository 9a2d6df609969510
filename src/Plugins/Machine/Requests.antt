-- ===== src/Plugins/Machine/Requests.antt =====
-- The five plugins on the machine: a request that goes through all of them.
use dgsw_class_pg_proxy.Prelude.{
  ◌≡◌, sym, ap, ◌∙◌, subst, inr, String, true, false, none, some, List, [], ◌∷◌,
}
use dgsw_class_pg_proxy.Prelude.Maps.{StrMap, lookup}
use dgsw_class_pg_proxy.Lua.Context.{RequestCtx, is_some}
use dgsw_class_pg_proxy.Lua.Engine.Pipeline.{runs_nil}
use dgsw_class_pg_proxy.Plugins.Auth.{is_public}
use dgsw_class_pg_proxy.Plugins.Auth.Logins.{KeyRole}
use dgsw_class_pg_proxy.Plugins.Auth.Keys.{on_request-key}
use dgsw_class_pg_proxy.Plugins.Authz.{rules, find_rule}
use dgsw_class_pg_proxy.Plugins.Authz.Access.{allowed, passes_iff}
use dgsw_class_pg_proxy.Plugins.Transform.Headers.{
  Fixes, request_headers, on_request-hides, on_request-rejected,
}
use dgsw_class_pg_proxy.Plugins.IpFilter.Lists.{Passes, on_request-Passes_iff}
use dgsw_class_pg_proxy.Plugins.Machine.{
  ip_filter, rate_limit, auth, authz, transform, Globals, Outside, sample_vm,
}
use dgsw_class_pg_proxy.Plugins.Machine.Stages.{
  Same-headers, headers_of, final, filter_lem, limit_lem,
}
use dgsw_class_pg_proxy.Plugins.Machine.Steps.{result, pass-on}
use dgsw_class_pg_proxy.Plugins.Machine.Access.{AllThere, known, start, goes_through}

module _ (lower : String → String) (outside : Outside) (sources : StrMap String) where
  abbrev passed : List String → Globals → RequestCtx → RequestCtx
  passed names g c = final lower outside sources names g c

  -- A request that the five plugins let pass, on whatever path, is forwarded with an empty
  -- "authorization" and an empty "x-api-key", and with the id that the machine has made.
  pub run_on_request-hides :
      (g : Globals) (c : RequestCtx)
      → Fixes lower request_headers
      → AllThere lower outside sources
      → (start lower outside sources g c).rejected ≡ none
      → (lookup "authorization" (start lower outside sources g c).req_headers ≡ some "")
        × (lookup "x-api-key" (start lower outside sources g c).req_headers ≡ some "")
        × (lookup "x-request-id" (start lower outside sources g c).req_headers
            ≡ some outside.req_id)
  run_on_request-hides g c fixes there passes =
      let (h₁, h₂, h₃, h₄, run) = goes_through lower outside sources g c there passes in
      let c₁ = result lower outside sources ip_filter c in
      let c₂ = result lower outside sources rate_limit c₁ in
      let d = result lower outside sources authz (result lower outside sources auth c₂) in
      let (auth_, key, id, user, request, rejection) =
        on_request-hides lower fixes outside.req_id d in
      let at = λ (name : String). ap (λ (e : RequestCtx). lookup name e.req_headers) run in
      (at "authorization" ∙ auth_, at "x-api-key" ∙ key, at "x-request-id" ∙ id)

  -- The four plugins behind the filter, with a key of the list whose role the rule allows.
  admitted :
      (g : Globals) (c : RequestCtx) (r : String)
      → AllThere lower outside sources
      → c.rejected ≡ none
      → is_public c.req_path ≡ false
      → KeyRole (headers_of lower outside sources c) r
      → allowed (some r) (find_rule rules c.req_path) ≡ true
      → (passed ("auth.lua" ∷ "authz.lua" ∷ "transform.lua" ∷ []) g c).rejected ≡ none
  admitted g c r (t, (t₁, (t₂, (t₃, (t₄, rest))))) h closed proof rule =
      let ours = known lower outside sources in
      let c₃ = result lower outside sources auth c in
      let c₄ = result lower outside sources authz c₃ in
      let (role, kept, path) = on_request-key outside.settings lower c r closed proof in
      let h₃ : c₃.rejected ≡ none = kept ∙ h in
      let h₄ = (passes_iff lower c₃ h₃).1 (inr (rw (role, path) rule)) in
      let h₅ = on_request-rejected lower outside.req_id c₄ ∙ h₄ in
      let (g₃, run₃) =
        pass-on lower outside sources "auth.lua" _ auth g c ours.2 t₂ (ap is_some h₃) in
      let (g₄, run₄) =
        pass-on lower outside sources "authz.lua" _ authz g₃ c₃ ours.3 t₃ (ap is_some h₄) in
      let (g₅, run₅) =
        pass-on lower outside sources "transform.lua" [] transform g₄ c₄ ours.4 t₄
          (ap is_some h₅) in
      let last =
        runs_nil lower (sample_vm outside) sources
          (g₅, result lower outside sources transform c₄) in
      ap (λ (st : Globals × RequestCtx). st.1.rejected) (run₃ ∙ run₄ ∙ run₅ ∙ last) ∙ h₅

  -- Where the files of all five plugins have been read: a request that is not rejected yet and
  -- whose address the lists let pass, for a path that auth.lua does not hold public, with a key of
  -- the list whose role the rule for its path allows, passes all five.
  pub run_on_request-admits :
      (g : Globals) (c : RequestCtx) (r : String)
      → AllThere lower outside sources
      → c.rejected ≡ none
      → Passes outside.blocklist outside.allowlist c.client_ip
      → is_public c.req_path ≡ false
      → KeyRole (headers_of lower outside sources c) r
      → allowed (some r) (find_rule rules c.req_path) ≡ true
      → (start lower outside sources g c).rejected ≡ none
  run_on_request-admits g c r there h listed closed proof rule =
      let ours = known lower outside sources in
      let c₁ = result lower outside sources ip_filter c in
      let c₂ = result lower outside sources rate_limit c₁ in
      let h₁ = (on_request-Passes_iff outside.blocklist outside.allowlist lower c h).1 listed in
      let (same₁, kept₁) = filter_lem lower outside sources c h in
      let (same₂, h₂) = limit_lem lower outside sources c₁ h₁ in
      let (g₁, run₁) =
        pass-on lower outside sources "ip_filter.lua" _ ip_filter g c ours.0 there.0
          (ap is_some h₁) in
      let (g₂, run₂) =
        pass-on lower outside sources "rate_limit.lua" _ rate_limit g₁ c₁ ours.1 there.1.0
          (ap is_some h₂) in
      let headers =
        Same-headers lower outside sources c₁ c₂ same₂
        ∙ Same-headers lower outside sources c c₁ same₁ in
      let path = same₂.path ∙ same₁.path in
      ap (λ (st : Globals × RequestCtx). st.1.rejected) (run₁ ∙ run₂)
      ∙ admitted g₂ c₂ r there h₂ (ap is_public path ∙ closed)
          (subst (λ hs. KeyRole hs r) (sym headers) proof)
          (ap (λ p. allowed (some r) (find_rule rules p)) path ∙ rule)
