-- ===== src/Plugins/Machine/Roles.antt =====
-- The five plugins on the machine: auth.lua and authz.lua one after the other.
use dgsw_class_pg_proxy.Prelude.{
  ◌≡◌, ◌⊎◌, refl, sym, ap, ◌∙◌, inl, inr, String, true, none, arith, str_eq, Bool-cases,
  Option-cases,
}
use dgsw_class_pg_proxy.Prelude.Maps.{StrMap, lookup}
use dgsw_class_pg_proxy.Prelude.Text.{codes, as_bytes}
use dgsw_class_pg_proxy.Lua.Context.{RequestCtx}
use dgsw_class_pg_proxy.Lua.Context.Laws.{run_script-Extends}
use dgsw_class_pg_proxy.Plugins.Patterns.{starts_with}
use dgsw_class_pg_proxy.Plugins.Auth
use dgsw_class_pg_proxy.Plugins.Auth.{is_public}
use dgsw_class_pg_proxy.Plugins.Auth.Access.{on_request-bare, on_request-role, on_request-marks}
use dgsw_class_pg_proxy.Plugins.Authz.{rules, find_rule}
use dgsw_class_pg_proxy.Plugins.Authz.Access.{allowed, allowed_iff, passes_iff}
use dgsw_class_pg_proxy.Plugins.Authz.Forbids.{on_request-forbids}
use dgsw_class_pg_proxy.Plugins.Machine.{auth, authz, Outside}
use dgsw_class_pg_proxy.Plugins.Machine.Steps.{result}
use dgsw_class_pg_proxy.Plugins.Machine.Stages.{Forbidden, Fresh, Allows, headers_of}

-- What authz.lua holds public, auth.lua does too.
open_paths :
    (path : String)
    → (path ≡ "/health") ⊎ (starts_with (codes "/public/") (as_bytes path) ≡ true)
    → is_public path ≡ true
unfolding str_eq
open_paths path (inl e) = rw e refl
open_paths path (inr e) = rw e (ground arith)

module _ (lower : String → String) (outside : Outside) (sources : StrMap String) where
  open outside use {settings}

  -- The two plugins that look at roles.
  pub authorised :
      (c : RequestCtx)
      → Fresh lower outside sources c
      → let d = result lower outside sources auth c in
        (d.rejected ≡ none)
        → ((result lower outside sources authz d).rejected ≡ none)
        → (r : String) × Allows lower outside sources c r
  authorised c (h, role, unmarked, closed) h' passes =
      let d = result lower outside sources auth c in
      let path = (run_script-Extends lower (Auth.on_request settings) c).request.path in
      elim ((passes_iff lower d h').0 passes) [
        | inl marked ↦ elim (on_request-marks lower settings c marked) [
          | inl before ↦ absurd (unmarked before)
          | inr open_path ↦ absurd (let e = sym closed ∙ open_path in cc)
        ]
        | inr by ↦ elim (Option-cases (lookup "role" d.vars)) [
          | inl k ↦ absurd (
              let e =
                sym closed
                ∙ open_paths c.req_path ((allowed_iff c.req_path).0 (rw (k, path) at by)) in
              cc)
          | inr (r, k) ↦ elim (on_request-role lower settings c r k) [
            | inl before ↦ absurd (let e = sym role ∙ before in ground arith)
            | inr proof ↦ (r, (proof, rw (k, path) at by))
          ]
        ]
      ]

  -- Without the two headers nothing is left of a request but a rejection.
  pub unproved :
      (c : RequestCtx)
      → Fresh lower outside sources c
      → lookup "x-api-key" (headers_of lower outside sources c) ≡ none
      → lookup "authorization" (headers_of lower outside sources c) ≡ none
      → (result lower outside sources auth c ≡ c) × Forbidden (result lower outside sources authz c)
  unproved c (h, role, unmarked, closed) no_key no_auth = (
    ap (λ r. r.1) (on_request-bare lower settings c closed no_key no_auth),
    on_request-forbids lower c unmarked
        (elim (Bool-cases (allowed none (find_rule rules c.req_path))) [
          | inl e ↦
              absurd
                (let k = sym closed ∙ open_paths c.req_path ((allowed_iff c.req_path).0 e) in cc)
          | inr e ↦ rw role e
        ]),
  )
