-- ===== src/Plugins/Transform/Responses.antt =====
-- transform.lua: the upstream that it chooses, and the headers of a response.
use dgsw_class_pg_proxy.Prelude.{
  ◌≡◌, refl, ap, ◌∙◌, String, Option, none, some, List, [], ◌∷◌, str_eq,
}
use dgsw_class_pg_proxy.Prelude.Maps.{StrMap, lookup, insert, lookup-insert}
use dgsw_class_pg_proxy.Lua.Context.{
  RequestCtx, of_option, upstream_var, run_script, apply, req_field,
}
use dgsw_class_pg_proxy.Lua.Engine
use dgsw_class_pg_proxy.Plugins.Transform.{route_of, echo, cors, on_route, on_response}
use dgsw_class_pg_proxy.Plugins.Transform.Headers.{Fixes, or_else}

abbrev pub response_headers : List String
response_headers =
    "x-proxy" ∷ "x-frame-options" ∷ "x-content-type-options" ∷ "referrer-policy"
    ∷ "access-control-allow-origin" ∷ "vary" ∷ "x-request-id" ∷ "server" ∷ []

abbrev common : StrMap String → StrMap String
common headers = insert "referrer-policy" "strict-origin-when-cross-origin" (
    insert "x-content-type-options" "nosniff"
      (insert "x-frame-options" "DENY" (insert "x-proxy" "rust-lua-proxy/0.1" headers)))

abbrev for_origin : Option String → StrMap String → StrMap String
for_origin none headers = headers
for_origin (some origin) headers =
    insert "vary" "Origin" (insert "access-control-allow-origin" origin headers)

abbrev with_id : Option String → StrMap String → StrMap String
with_id none headers = headers
with_id (some req_id) headers = insert "x-request-id" req_id headers

module _ (lower : String → String) where
  -- The upstream is chosen by the path alone, and is the one that the variable names too.
  pub on_route_run :
      (c : RequestCtx)
      → run_script lower on_route c ≡ (
        Engine.text (route_of c.req_path),
        record c { vars = insert upstream_var (route_of c.req_path) c.vars },
      )
  unfolding on_route run_script apply req_field
  on_route_run c = refl

  module _ (fixes : Fixes lower response_headers) where
    abbrev pub changed : StrMap String → RequestCtx → RequestCtx
    changed headers c = record c { res_headers = headers }

    echo_run :
        (req_id : Option String) (c : RequestCtx)
        → (run_script lower (echo (of_option req_id)) c).1
          ≡ changed (insert "server" "proxy" (with_id req_id c.res_headers)) c
    unfolding run_script apply
    echo_run none c = let (f₁, (f₂, (f₃, (f₄, (f₅, (f₆, (f₇, (f₈, rest)))))))) = fixes in rw f₈ refl
    echo_run (some req_id) c =
        let (f₁, (f₂, (f₃, (f₄, (f₅, (f₆, (f₇, (f₈, rest)))))))) = fixes in rw (f₇, f₈) refl

    cors_run :
        (origin : Option String) (c : RequestCtx)
        → (run_script lower (cors origin) c).1
          ≡ changed
              (insert "server" "proxy"
                (with_id (lookup "request_id" c.vars) (for_origin origin c.res_headers)))
              c
    unfolding run_script apply lookup insert
    cors_run none c = echo_run (lookup "request_id" c.vars) c
    cors_run (some origin) c =
        let (f₁, (f₂, (f₃, (f₄, (f₅, (f₆, (f₇, (f₈, rest)))))))) = fixes in
        rw (f₅, f₆)
          (echo_run (lookup "request_id" c.vars)
            (changed (for_origin (some origin) c.res_headers) c))

    abbrev origin_of : RequestCtx → Option String
    origin_of c = lookup "origin" (req_field lower c).headers

    pub on_response_run :
        (c : RequestCtx)
        → (run_script lower on_response c).1
          ≡ changed
              (insert "server" "proxy" (
                with_id
                  (lookup "request_id" c.vars)
                  (for_origin (origin_of c) (common c.res_headers))))
              c
    unfolding on_response run_script apply req_field lookup insert
    on_response_run c =
        let (f₁, (f₂, (f₃, (f₄, rest)))) = fixes in
        rw (f₁, f₂, f₃, f₄) (cors_run (origin_of c) (changed (common c.res_headers) c))

    kept :
        (origin req_id : Option String) (headers : StrMap String)
        → let all = insert "server" "proxy" (with_id req_id (for_origin origin (common headers))) in
          (lookup "server" all ≡ some "proxy")
          × (lookup "x-frame-options" all ≡ some "DENY")
          × (lookup "x-request-id" all ≡ or_else req_id (lookup "x-request-id" headers))
          × (lookup "access-control-allow-origin" all
              ≡ or_else origin (lookup "access-control-allow-origin" headers))
    unfolding str_eq
    kept none none headers =
        (simp lookup-insert, simp lookup-insert, simp lookup-insert, simp lookup-insert)
    kept none (some req_id) headers =
        (simp lookup-insert, simp lookup-insert, simp lookup-insert, simp lookup-insert)
    kept (some origin) none headers =
        (simp lookup-insert, simp lookup-insert, simp lookup-insert, simp lookup-insert)
    kept (some origin) (some req_id) headers =
        (simp lookup-insert, simp lookup-insert, simp lookup-insert, simp lookup-insert)

    -- A response says "proxy" for the upstream's server and forbids frames, whatever the upstream
    -- said; it has the id of the request and allows the origin that the request names, and where
    -- there is none the upstream's headers of these names stay.
    pub on_response-headers :
        (c : RequestCtx)
        → let d = (run_script lower on_response c).1 in
          (lookup "server" d.res_headers ≡ some "proxy")
          × (lookup "x-frame-options" d.res_headers ≡ some "DENY")
          × (lookup "x-request-id" d.res_headers
              ≡ or_else (lookup "request_id" c.vars) (lookup "x-request-id" c.res_headers))
          × (lookup "access-control-allow-origin" d.res_headers
              ≡ or_else
                  (lookup "origin" (req_field lower c).headers)
                  (lookup "access-control-allow-origin" c.res_headers))
          × (d.res_status ≡ c.res_status)
    on_response-headers c =
        let run = on_response_run c in
        let at = λ (name : String). ap (λ (d : RequestCtx). lookup name d.res_headers) run in
        let (server, frames, id, origin) =
          kept (origin_of c) (lookup "request_id" c.vars) c.res_headers in
        (
          at "server" ∙ server,
          at "x-frame-options" ∙ frames,
          at "x-request-id" ∙ id,
          at "access-control-allow-origin" ∙ origin,
          ap (λ (d : RequestCtx). d.res_status) run,
        )
