-- ===== src/Plugins/Transform.antt =====
-- src/plugins/transform.lua: the headers of the request and of the response, and the upstream. The
-- text of `uuid.v4` is a parameter.
pub mod Headers
pub mod Responses
use dgsw_class_pg_proxy.Prelude.{String, Option, none, some, if◌then◌else◌}
use dgsw_class_pg_proxy.Prelude.Maps.{lookup}
use dgsw_class_pg_proxy.Lua.Context.{
  Answer, text, req_table, Script, finish, access, req, get_var, set_var, set_req_header,
  set_res_header, upstream,
}
use dgsw_class_pg_proxy.Lua.Engine
use dgsw_class_pg_proxy.Lua.Engine.{Outcome, nothing, raised}
use dgsw_class_pg_proxy.Plugins.Patterns.{begins, matches}

abbrev text_or : String → Answer → String
text_or default (text s) = s
text_or default _ = default

-- `on_request` from the headers that are hidden on.
abbrev pub hide : String → Script Outcome
hide req_id = access (set_req_header "authorization" "") (λ a.
    access (set_req_header "x-api-key" "") (λ b.
      access (set_req_header "x-request-id" req_id)
        (λ c. access (set_var "request_id" req_id) (λ d. finish nothing))))

abbrev pub pass_user : String → Answer → Answer → Script Outcome
pass_user req_id (text user_id) role =
    access (set_req_header "x-user-id" user_id)
      (λ a. access (set_req_header "x-user-role" (text_or "anonymous" role)) (λ b. hide req_id))
pass_user req_id _ role = hide req_id

unfoldable pub on_request : String → Script Outcome
on_request req_id =
    access (get_var "user_id") (λ user_id. access (get_var "role") (pass_user req_id user_id))

abbrev to_upstream : String → Script Outcome
to_upstream name = access (upstream name) (λ a. finish (Engine.text name))

abbrev pub route_of : String → String
route_of path = if matches (begins "/api/v2/") path then "api_v2" else "default"

unfoldable pub on_route : Script Outcome
on_route =
    access req
      (λ answer. elim answer [ req_table t ↦ to_upstream (route_of t.path) | _ ↦ finish raised ])

-- `on_response` from the echo of the request's id on.
abbrev echo : Answer → Script Outcome
echo (text req_id) =
    access (set_res_header "x-request-id" req_id)
      (λ a. access (set_res_header "server" "proxy") (λ b. finish nothing))
echo _ = access (set_res_header "server" "proxy") (λ b. finish nothing)

abbrev finish_response : Script Outcome
finish_response = access (get_var "request_id") echo

abbrev cors : Option String → Script Outcome
cors none = finish_response
cors (some origin) =
    access (set_res_header "access-control-allow-origin" origin)
      (λ a. access (set_res_header "vary" "Origin") (λ b. finish_response))

unfoldable pub on_response : Script Outcome
on_response = access (set_res_header "x-proxy" "rust-lua-proxy/0.1") (λ a.
    access (set_res_header "x-frame-options" "DENY") (λ b.
      access (set_res_header "x-content-type-options" "nosniff") (λ c.
        access (set_res_header "referrer-policy" "strict-origin-when-cross-origin") (λ d.
          access req (λ answer. elim answer [
            | req_table t ↦ cors (lookup "origin" t.headers)
            | _ ↦ finish raised
          ])))))
