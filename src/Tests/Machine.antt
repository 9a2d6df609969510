-- ===== src/Tests/Machine.antt =====
-- Examples of requests that the five plugins handle on one machine.
use dgsw_class_pg_proxy.Prelude.{
  ℕ, ◌≡◌, ◌⊎◌, refl, inl, String, true, false, none, some, [], ◌∷◌, arith, str_eq, if◌then◌else◌,
}
use dgsw_class_pg_proxy.Prelude.Maps.{StrMap, lookup, insert}
use dgsw_class_pg_proxy.Prelude.Run.{returned}
use dgsw_class_pg_proxy.Prelude.Text.{Bytes, codes, as_bytes}
use dgsw_class_pg_proxy.Lua.Context.{RequestCtx, run_script, req_field, new_ctx}
use dgsw_class_pg_proxy.Lua.Engine.{run_on_request, run_on_route, run_on_response}
use dgsw_class_pg_proxy.Lua.Engine.Pipeline.{with_pipeline}
use dgsw_class_pg_proxy.Metrics.{no_metrics, inc, observe}
use dgsw_class_pg_proxy.Handler.{Request, collect_headers, Reads, handle_request}
use dgsw_class_pg_proxy.Handler.Errors.{json_error}
use dgsw_class_pg_proxy.Plugins.Patterns.{starts_with}
use dgsw_class_pg_proxy.Plugins.Auth.{Settings, is_public, key_role}
use dgsw_class_pg_proxy.Plugins.Auth.Logins.{KeyRole, Proves}
use dgsw_class_pg_proxy.Plugins.Authz.{rules, find_rule, has_role}
use dgsw_class_pg_proxy.Plugins.Authz.Access.{allowed}
use dgsw_class_pg_proxy.Plugins.Transform
use dgsw_class_pg_proxy.Plugins.Transform.Headers.{or_else, on_request-hides}
use dgsw_class_pg_proxy.Plugins.Machine.{Globals, Outside, sample_pipeline, sample_vm}
use dgsw_class_pg_proxy.Plugins.Machine.Stages.{Fresh, headers_of}
use dgsw_class_pg_proxy.Plugins.Machine.Access.{AllThere}
use dgsw_class_pg_proxy.Plugins.Machine.Guarded.{handle_request-guards}
use dgsw_class_pg_proxy.Plugins.Machine.Requests.{run_on_request-admits}
use dgsw_class_pg_proxy.Plugins.Machine.Routing.{run_on_route-sample}
use dgsw_class_pg_proxy.Plugins.Machine.Responses.{run_on_response-hardens}
use dgsw_class_pg_proxy.Plugins.Machine.Handled.{context_of, handle_request-forbids}
use dgsw_class_pg_proxy.Tests.{same_text, hash, lossy, http, http_laws, pool, reads}
use dgsw_class_pg_proxy.Tests.Scripts.{by_admin}
use dgsw_class_pg_proxy.Tests.Tokens.{whole_numbers, short_hmac}

abbrev one_text : Bytes → String
one_text s = "text"

abbrev one_word : ℕ → String
one_word n = "n"

abbrev settings : Settings
settings = record {
  env_secret = none;
  jwt_lib = true;
  numbers = whole_numbers;
  hmac = short_hmac;
  now = 10;
  later = 10;
  rust_text = one_text;
}

abbrev pub outside : Outside
outside = record {
  blocklist = [];
  allowlist = [];
  tostring = one_word;
  now = 10;
  later = 10;
  settings = settings;
  req_id = "id-1";
}

abbrev files : StrMap String
files =
    ("ip_filter.lua", "1")
    ∷ ("rate_limit.lua", "2")
    ∷ ("auth.lua", "3")
    ∷ ("authz.lua", "4")
    ∷ ("transform.lua", "5")
    ∷ []

pub files_there : AllThere same_text outside files
unfolding lookup str_eq
files_there = (("1", refl), (("2", refl), (("3", refl), (("4", refl), (("5", refl), tt)))))

-- A machine that has handled a request before.
abbrev pub used : Globals
used = record { on_request = none; transforms = true; buckets = [] }

abbrev with_key : RequestCtx
with_key = record by_admin {
  req_headers = ("x-api-key", "test-api-key-admin") ∷ ("x-user-id", "root") ∷ [];
  vars = [];
}

key_proof : KeyRole (headers_of same_text outside files with_key) "admin"
unfolding req_field key_role lookup insert str_eq as_bytes
key_proof = (codes "test-api-key-admin", refl, inl refl)

fresh : Fresh same_text outside files with_key
unfolding lookup str_eq starts_with as_bytes
fresh = (refl, refl, λ e. absurd (ground arith), refl)

rule_allows : allowed (some "admin") (find_rule rules "/admin/users") ≡ true
unfolding find_rule has_role starts_with as_bytes str_eq
rule_allows = refl

run_on_request-admits_example :
    (run_on_request same_text
      (sample_vm outside)
      (with_pipeline sample_pipeline files)
      (used, with_key)).1.rejected
    ≡ none
run_on_request-admits_example =
    run_on_request-admits same_text outside files used with_key "admin" files_there refl
      (λ l. absurd l.1, inl refl) fresh.3 key_proof rule_allows

-- What a client says of itself in "x-user-id" is forwarded where nobody has logged in.
abbrev spoofing : RequestCtx
spoofing = record with_key { req_path = "/public/page" }

on_request-hides_example :
    let d = (run_script same_text (Transform.on_request "id-1") spoofing).1 in
    (lookup "authorization" d.req_headers ≡ some "")
    × (lookup "x-api-key" d.req_headers ≡ some "")
    × (lookup "x-request-id" d.req_headers ≡ some "id-1")
    × (lookup "x-user-id" d.req_headers
        ≡ or_else (lookup "user_id" spoofing.vars) (lookup "x-user-id" spoofing.req_headers))
    × (lookup "request_id" d.vars ≡ some "id-1")
    × (d.rejected ≡ none)
on_request-hides_example =
    on_request-hides same_text (refl, (refl, (refl, (refl, (refl, tt))))) "id-1" spoofing

spoofed :
    or_else (lookup "user_id" spoofing.vars) (lookup "x-user-id" spoofing.req_headers) ≡ some "root"
unfolding lookup str_eq
spoofed = refl

run_on_route-sample_example :
    (run_on_route same_text
      (sample_vm outside)
      (with_pipeline sample_pipeline files)
      (used, with_key)).0
    ≡ some
        (if starts_with (codes "/api/v2/") (as_bytes "/admin/users") then "api_v2" else "default")
run_on_route-sample_example = run_on_route-sample same_text outside files used with_key files_there

-- What an upstream answered to a request with an id, and with a server of its own.
abbrev answered_ctx : RequestCtx
answered_ctx = record with_key {
  vars = ("request_id", "id-7") ∷ [];
  res_headers = ("server", "nginx") ∷ [];
}

run_on_response-hardens_example :
    let d =
      (run_on_response same_text
        (sample_vm outside)
        (with_pipeline sample_pipeline files)
        (used, answered_ctx)).1 in
    (lookup "server" d.res_headers ≡ some "proxy")
    × (lookup "x-frame-options" d.res_headers ≡ some "DENY")
    × (lookup "x-request-id" d.res_headers ≡ some "id-7")
    × (d.res_status ≡ answered_ctx.res_status)
unfolding lookup str_eq
run_on_response-hardens_example =
    run_on_response-hardens same_text outside files
      (refl, (refl, (refl, (refl, (refl, (refl, (refl, (refl, tt)))))))) used answered_ctx "id-7"
      files_there refl

-- A request as in test.sh, without credentials.
abbrev pub bare : Request
bare = record { method = "GET"; path = "/api/v1/data"; headers = []; body = some [] }

abbrev pub sample_reads : Reads
sample_reads = record (reads []) { on_request = with_pipeline sample_pipeline files }

bare_closed : is_public "/api/v1/data" ≡ false
unfolding starts_with as_bytes str_eq
bare_closed = refl

bare_headers :
    (lookup "x-api-key" (
        headers_of same_text outside files
          (context_of same_text hash lossy outside http http_laws bare [] "10.0.0.1"))
      ≡ none)
    × (lookup "authorization" (
          headers_of same_text outside files
            (context_of same_text hash lossy outside http http_laws bare [] "10.0.0.1"))
        ≡ none)
unfolding lookup req_field new_ctx collect_headers
bare_headers = (refl, refl)

handle_request-forbids_example :
    (msg : String) × (machine' : Globals) × (handle_request same_text hash lossy
        (sample_vm outside)
        http
        sample_reads
        (some no_metrics)
        used
        bare
        "10.0.0.1"
      ≡ returned (record {
        response = some (json_error 403 msg);
        machine = machine';
        pool = pool;
        metrics = observe (inc "rejected" (inc "GET" no_metrics));
      }))
handle_request-forbids_example =
    handle_request-forbids same_text hash lossy outside http http_laws sample_reads no_metrics used
      bare "10.0.0.1" [] refl files_there refl bare_closed bare_headers.0 bare_headers.1

handle_request-guards_example :
    ((r : String) × Proves settings
        (headers_of same_text outside files
          (context_of same_text hash lossy outside http http_laws bare [] "10.0.0.1"))
        r
      × (allowed (some r) (find_rule rules "/api/v1/data") ≡ true))
    ⊎ ((status : ℕ) × (msg : String) × (machine' : Globals) × ((status ≡ 401) ⊎ (status ≡ 403))
        × (handle_request same_text hash lossy
              (sample_vm outside)
              http
              sample_reads
              (some no_metrics)
              used
              bare
              "10.0.0.1"
            ≡ returned (record {
              response = some (json_error status msg);
              machine = machine';
              pool = pool;
              metrics = observe (inc "rejected" (inc "GET" no_metrics));
            })))
handle_request-guards_example =
    handle_request-guards same_text hash lossy outside http http_laws sample_reads no_metrics used
      bare "10.0.0.1" [] refl files_there refl bare_closed
