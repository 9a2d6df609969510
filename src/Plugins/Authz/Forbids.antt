-- ===== src/Plugins/Authz/Forbids.antt =====
-- authz.lua: with what it rejects, and what it keeps.
use dgsw_class_pg_proxy.Prelude.{
  ◌≡◌, ◌≢◌, refl, ap, ◌∙◌, inl, inr, String, false, Option, none, some, arith, Bool-cases,
}
use dgsw_class_pg_proxy.Prelude.Maps.{lookup}
use dgsw_class_pg_proxy.Lua.Context.{RequestCtx, run_script, apply}
use dgsw_class_pg_proxy.Plugins.Authz.{Rule, rules, find_rule, by_rule, is_public, on_request}
use dgsw_class_pg_proxy.Plugins.Authz.Access.{allowed, on_request_run, public_iff}

module _ (lower : String → String) where
  by_rule_forbids :
      (role : Option String) (o : Option Rule) (c : RequestCtx)
      → allowed role o ≡ false
      → (msg : String) × ((run_script lower (by_rule role o) c).1.rejected ≡ some (403, msg))
  unfolding run_script apply
  by_rule_forbids none none c h = ("Forbidden: authentication required", refl)
  by_rule_forbids (some user_role) none c h = absurd (ground arith)
  by_rule_forbids role (some rule) c h = ("Forbidden: insufficient privileges", rw h refl)

  -- A request that is not marked public, and whose role is not allowed, is rejected with 403.
  pub on_request-forbids :
      (c : RequestCtx)
      → lookup "auth_method" c.vars ≢ some "public"
      → allowed (lookup "role" c.vars) (find_rule rules c.req_path) ≡ false
      → (msg : String) × ((run_script lower on_request c).1.rejected ≡ some (403, msg))
  on_request-forbids c unmarked h = elim (Bool-cases (is_public (lookup "auth_method" c.vars))) [
    | inl e ↦ absurd (unmarked ((public_iff (lookup "auth_method" c.vars)).0 e))
    | inr e ↦
        let (msg, rejected) =
          by_rule_forbids (lookup "role" c.vars) (find_rule rules c.req_path) c h in
        let same : run_script lower on_request c
            ≡ run_script lower (by_rule (lookup "role" c.vars) (find_rule rules c.req_path)) c =
          on_request_run lower c ∙ rw e refl in
        (msg, ap (λ r. r.1.rejected) same ∙ rejected)
  ]
