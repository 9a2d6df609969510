-- ===== src/Plugins/Transform/Headers.antt =====
-- transform.lua: the headers of a request and of a response, and the upstream.
use dgsw_class_pg_proxy.Prelude.{
  ◌≡◌, refl, ap, ◌∙◌, String, Option, none, some, List, [], ◌∷◌, All, str_eq,
}
use dgsw_class_pg_proxy.Prelude.Maps.{StrMap, lookup, insert, lookup-insert}
use dgsw_class_pg_proxy.Lua.Context.{RequestCtx, of_option, run_script, apply}
use dgsw_class_pg_proxy.Plugins.Transform.{pass_user, on_request}

-- `to_lowercase` leaves a name as it is.
abbrev pub Fixes : (String → String) → List String → Type 0
Fixes lower names = All (λ name. lower name ≡ name) names

abbrev pub request_headers : List String
request_headers = "authorization" ∷ "x-api-key" ∷ "x-request-id" ∷ "x-user-id" ∷ "x-user-role" ∷ []

-- The first text that is there.
abbrev pub or_else : Option String → Option String → Option String
or_else none b = b
or_else (some a) b = some a

-- The headers of the login, and the headers that are hidden.
abbrev with_user : Option String → Option String → StrMap String → StrMap String
with_user none role headers = headers
with_user (some user_id) none headers =
    insert "x-user-role" "anonymous" (insert "x-user-id" user_id headers)
with_user (some user_id) (some role) headers =
    insert "x-user-role" role (insert "x-user-id" user_id headers)

abbrev hidden : String → StrMap String → StrMap String
hidden req_id headers =
    insert "x-request-id" req_id (insert "x-api-key" "" (insert "authorization" "" headers))

pass_user-rejected :
    (lower : String → String) (req_id : String) (user_id role : Option String) (c : RequestCtx)
    → (run_script lower (pass_user req_id (of_option user_id) (of_option role)) c).1.rejected
      ≡ c.rejected
unfolding run_script apply
pass_user-rejected lower req_id none role c = refl
pass_user-rejected lower req_id (some user_id) role c = refl

-- Nothing is rejected, whatever `to_lowercase` does.
pub on_request-rejected :
    (lower : String → String) (req_id : String) (c : RequestCtx)
    → (run_script lower (on_request req_id) c).1.rejected ≡ c.rejected
unfolding on_request run_script apply
on_request-rejected lower req_id c =
    pass_user-rejected lower req_id (lookup "user_id" c.vars) (lookup "role" c.vars) c

module _ (lower : String → String) (fixes : Fixes lower request_headers) (req_id : String) where
  after : RequestCtx → RequestCtx
  after c = (run_script lower (on_request req_id) c).1

  abbrev changed : StrMap String → RequestCtx → RequestCtx
  changed headers c = record c { req_headers = headers; vars = insert "request_id" req_id c.vars }

  pass_user_run :
      (user_id role : Option String) (c : RequestCtx)
      → (run_script lower (pass_user req_id (of_option user_id) (of_option role)) c).1
        ≡ changed (hidden req_id (with_user user_id role c.req_headers)) c
  unfolding run_script apply
  pass_user_run none none c = let (a, (b, (d, (e, (f, rest))))) = fixes in rw (a, b, d) refl
  pass_user_run none (some role) c = let (a, (b, (d, (e, (f, rest))))) = fixes in rw (a, b, d) refl
  pass_user_run (some user_id) none c =
      let (a, (b, (d, (e, (f, rest))))) = fixes in rw (a, b, d, e, f) refl
  pass_user_run (some user_id) (some role) c =
      let (a, (b, (d, (e, (f, rest))))) = fixes in rw (a, b, d, e, f) refl

  after_run :
      (c : RequestCtx)
      → after c
        ≡ changed
            (hidden req_id
              (with_user (lookup "user_id" c.vars) (lookup "role" c.vars) c.req_headers))
            c
  unfolding after on_request run_script apply
  after_run c = pass_user_run (lookup "user_id" c.vars) (lookup "role" c.vars) c

  user_kept :
      (user_id role : Option String) (headers : StrMap String)
      → lookup "x-user-id" (with_user user_id role headers)
        ≡ or_else user_id (lookup "x-user-id" headers)
  unfolding str_eq
  user_kept none role headers = refl
  user_kept (some user_id) none headers = simp lookup-insert
  user_kept (some user_id) (some role) headers = simp lookup-insert

  hidden_lem :
      (headers : StrMap String)
      → (lookup "authorization" (hidden req_id headers) ≡ some "")
        × (lookup "x-api-key" (hidden req_id headers) ≡ some "")
        × (lookup "x-request-id" (hidden req_id headers) ≡ some req_id)
        × (lookup "x-user-id" (hidden req_id headers) ≡ lookup "x-user-id" headers)
  unfolding str_eq
  hidden_lem headers =
      (simp lookup-insert, simp lookup-insert, simp lookup-insert, simp lookup-insert)

  -- If lower case keeps the names of the headers that it sets: after transform.lua both credentials
  -- of the client are empty, the request has the new id, and its "x-user-id" is the user who has
  -- logged in; where nobody has, it is the client's own. It does not reject.
  pub on_request-hides :
      (c : RequestCtx)
      → let d = (run_script lower (on_request req_id) c).1 in
        (lookup "authorization" d.req_headers ≡ some "")
        × (lookup "x-api-key" d.req_headers ≡ some "")
        × (lookup "x-request-id" d.req_headers ≡ some req_id)
        × (lookup "x-user-id" d.req_headers
            ≡ or_else (lookup "user_id" c.vars) (lookup "x-user-id" c.req_headers))
        × (lookup "request_id" d.vars ≡ some req_id)
        × (d.rejected ≡ c.rejected)
  unfolding after str_eq
  on_request-hides c =
      let user_id = lookup "user_id" c.vars in
      let role = lookup "role" c.vars in
      let run = after_run c in
      let at = λ (name : String). ap (λ (d : RequestCtx). lookup name d.req_headers) run in
      let (auth, key, id, user) = hidden_lem (with_user user_id role c.req_headers) in
      (
        at "authorization" ∙ auth,
        at "x-api-key" ∙ key,
        at "x-request-id" ∙ id,
        at "x-user-id" ∙ user ∙ user_kept user_id role c.req_headers,
        ap (λ (d : RequestCtx). lookup "request_id" d.vars) run
            ∙ lookup-insert "request_id" "request_id" req_id c.vars,
        ap (λ (d : RequestCtx). d.rejected) run,
      )
