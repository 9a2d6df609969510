-- ===== src/Tests/Scripts.antt =====
-- Examples of the plugins in Lua.
use dgsw_class_pg_proxy.Prelude.{
  ℕ, ◌≡◌, ◌≢◌, ◌↔◌, ◌⊎◌, refl, String, true, none, some, [], ◌∷◌, str_eq,
}
use dgsw_class_pg_proxy.Prelude.Maps.{StrMap, lookup}
use dgsw_class_pg_proxy.Prelude.Text.{codes, as_bytes}
use dgsw_class_pg_proxy.Lua.Context.{RequestCtx, run_script, apply}
use dgsw_class_pg_proxy.Lua.Engine.{run_on_request}
use dgsw_class_pg_proxy.Plugins.Authz
use dgsw_class_pg_proxy.Plugins.Authz.{has_role, find_rule}
use dgsw_class_pg_proxy.Plugins.Patterns.{starts_with}
use dgsw_class_pg_proxy.Plugins.Authz.Access.{on_request-no_role, on_request-guards}
use dgsw_class_pg_proxy.Plugins.RateLimit.{Bucket, rate_limit_vm}
use dgsw_class_pg_proxy.Plugins.RateLimit.Limits.{run_on_request-unlimited}
use dgsw_class_pg_proxy.Tests.{same_text}

abbrev pub by_admin : RequestCtx
by_admin = record {
  req_method = "GET";
  req_path = "/admin/users";
  req_headers = [];
  req_body = [];
  client_ip = "10.0.0.1";
  res_status = 200;
  res_headers = [];
  res_body = [];
  vars = ("role", "admin") ∷ [];
  rejected = none;
}

admin_path : starts_with (codes "/admin/") (as_bytes "/admin/users") ≡ true
unfolding starts_with as_bytes
admin_path = refl

admin_passes : (run_script same_text Authz.on_request by_admin).1.rejected ≡ none
unfolding run_script apply Authz.on_request lookup starts_with as_bytes has_role find_rule str_eq
admin_passes = refl

on_request-guards_example :
    (lookup "auth_method" by_admin.vars ≡ some "public")
    ⊎ (lookup "role" by_admin.vars ≡ some "admin")
on_request-guards_example = on_request-guards same_text by_admin refl admin_path admin_passes

abbrev pub stranger : RequestCtx
stranger = record by_admin { req_path = "/api/v3/items"; vars = [] }

no_role_set : lookup "role" stranger.vars ≡ none
unfolding lookup
no_role_set = refl

not_public : lookup "auth_method" stranger.vars ≢ some "public"
unfolding lookup
not_public e = cc

on_request-no_role_example :
    ((run_script same_text Authz.on_request stranger).1.rejected ≡ none) ↔ (
      (stranger.req_path ≡ "/health")
      ⊎ (starts_with (codes "/public/") (as_bytes stranger.req_path) ≡ true))
on_request-no_role_example = on_request-no_role same_text stranger refl no_role_set not_public

abbrev one_word : ℕ → String
one_word n = "n"

-- The bucket of the address is empty.
abbrev buckets : StrMap Bucket
buckets = ("10.0.0.1", record { tokens = 0; last = 7 }) ∷ []

abbrev limiter : StrMap String
limiter = ("rate_limit.lua", "text") ∷ []

limiter_there : lookup "rate_limit.lua" limiter ≡ some "text"
unfolding lookup str_eq
limiter_there = refl

run_on_request-unlimited_example :
    (run_on_request same_text
      (rate_limit_vm one_word 7 7)
      (record { pipeline = "rate_limit.lua" ∷ []; sources = limiter })
      (buckets, stranger)).1.rejected
    ≡ none
run_on_request-unlimited_example =
    run_on_request-unlimited same_text one_word 7 7 limiter "text" buckets stranger limiter_there
      refl
