-- ===== src/Plugins/Auth/Access.antt =====
-- auth.lua: where the role of a request comes from, and whom the plugin lets pass.
use dgsw_class_pg_proxy.Prelude.{
  ◌≡◌, ◌⊎◌, refl, sym, ◌∙◌, inl, inr, String, true, false, Option, none, some, arith, str_eq,
  if◌then◌else◌, Bool-cases,
}
use dgsw_class_pg_proxy.Prelude.Maps.{StrMap, lookup, insert, lookup-insert}
use dgsw_class_pg_proxy.Lua.Context.{
  RequestCtx, Script, finish, access, set_var, run_script, apply, req_field,
}
use dgsw_class_pg_proxy.Lua.Engine.{Outcome, nothing, raised}
use dgsw_class_pg_proxy.Plugins.Auth.Logins.{Proves, login_sound}
use dgsw_class_pg_proxy.Plugins.Auth.{
  Settings, is_public, Login, fails, refuses, logged_in, login, by_login, on_request,
}

-- What stands under a name in the variables.
abbrev pub var : String → RequestCtx → Option String
var name c = lookup name c.vars

module _ (lower : String → String) (settings : Settings) where
  abbrev after : Script Outcome → RequestCtx → RequestCtx
  after script c = (run_script lower script c).1

  abbrev headers_of : RequestCtx → StrMap String
  headers_of c = (req_field lower c).headers

  pub on_request_run :
      (c : RequestCtx)
      → run_script lower (on_request settings) c
        ≡ run_script lower
            (if is_public c.req_path
              then access (set_var "auth_method" "public") (λ a. finish nothing)
              else by_login settings (login settings (headers_of c)))
            c
  unfolding on_request run_script apply req_field
  on_request_run c = refl

  -- A request that has neither of the two headers, and whose path is not public, makes the plugin
  -- fail before it changes anything: it is not rejected.
  pub on_request-bare :
      (c : RequestCtx)
      → is_public c.req_path ≡ false
      → lookup "x-api-key" (headers_of c) ≡ none
      → lookup "authorization" (headers_of c) ≡ none
      → run_script lower (on_request settings) c ≡ (raised, c)
  unfolding run_script login
  on_request-bare c closed no_key no_auth =
      on_request_run c ∙ rw (closed, login, no_key, no_auth) refl

  abbrev Ended : Login settings → String → String → Type 0
  Ended l r m = (u : Option String) × (l ≡ logged_in u (some r) m)

  by_login_role :
      (l : Login settings) (c : RequestCtx) (r : String)
      → var "role" (after (by_login settings l) c) ≡ some r
      → (var "role" c ≡ some r) ⊎ ((m : String) × Ended l r m)
  unfolding run_script apply str_eq
  by_login_role fails c r e = inl e
  by_login_role (refuses message) c r e = inl e
  by_login_role (logged_in none s m) c r e = inl e
  by_login_role (logged_in (some u) none m) c r e =
      inl (sym (lookup-insert "user_id" "role" u c.vars) ∙ e)
  by_login_role (logged_in (some u) (some s) m) c r e =
      let with_user = insert "user_id" u c.vars in
      let with_role = insert "role" s with_user in
      let there : some s ≡ some r =
        sym (lookup-insert "role" "role" s with_user)
        ∙ sym (lookup-insert "auth_method" "role" m with_role)
        ∙ e in
      let same : s ≡ r = ground arith in inr (m, (some u, rw same refl))

  by_login_marks :
      (l : Login settings) (c : RequestCtx)
      → var "auth_method" (after (by_login settings l) c) ≡ some "public"
      → (var "auth_method" c ≡ some "public") ⊎ ((r : String) × Ended l r "public")
  unfolding run_script apply str_eq
  by_login_marks fails c e = inl e
  by_login_marks (refuses message) c e = inl e
  by_login_marks (logged_in none s m) c e = inl e
  by_login_marks (logged_in (some u) none m) c e =
      inl (sym (lookup-insert "user_id" "auth_method" u c.vars) ∙ e)
  by_login_marks (logged_in (some u) (some s) m) c e =
      let with_role = insert "role" s (insert "user_id" u c.vars) in
      let there : some m ≡ some "public" =
        sym (lookup-insert "auth_method" "auth_method" m with_role) ∙ e in
      let same : m ≡ "public" = ground arith in inr (s, (some u, rw same refl))

  -- A role that a request has after auth.lua is the one that it had before, or the request proves
  -- it: by a key of the list, or by a token that holds under the secret.
  pub on_request-role :
      (c : RequestCtx) (r : String)
      → var "role" (run_script lower (on_request settings) c).1 ≡ some r
      → (var "role" c ≡ some r) ⊎ Proves settings (headers_of c) r
  unfolding run_script apply str_eq
  on_request-role c r e = elim (Bool-cases (is_public c.req_path)) [
    | inl open_path ↦ inl (
        sym (lookup-insert "auth_method" "role" "public" c.vars)
        ∙ (rw (on_request_run c, open_path) at e))
    | inr closed ↦
        elim (by_login_role (login settings (headers_of c)) c r
          (rw (on_request_run c, closed) at e)) [
            | inl before ↦ inl before
            | inr (m, (u, l)) ↦ inr (login_sound settings (headers_of c) u r m l).0
          ]
  ]

  -- Only a request for a public path is marked public, if it was not before.
  pub on_request-marks :
      (c : RequestCtx)
      → var "auth_method" (run_script lower (on_request settings) c).1 ≡ some "public"
      → (var "auth_method" c ≡ some "public") ⊎ (is_public c.req_path ≡ true)
  on_request-marks c e = elim (Bool-cases (is_public c.req_path)) [
    | inl open_path ↦ inr open_path
    | inr closed ↦
        elim (by_login_marks (login settings (headers_of c)) c
          (rw (on_request_run c, closed) at e)) [
            | inl before ↦ inl before
            | inr (r, (u, l)) ↦ absurd ((login_sound settings (headers_of c) u r "public" l).1 refl)
          ]
  ]
