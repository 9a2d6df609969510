-- ===== src/Plugins/Auth/Keys.antt =====
-- auth.lua: a request with a key of the list.
use dgsw_class_pg_proxy.Prelude.{
  In, inl, inr, sym, subst, some, ◌≡◌, refl, ap, ◌∙◌, String, false, some, str_eq, concat, take,
}
use dgsw_class_pg_proxy.Prelude.Maps.{StrMap, lookup, insert, lookup-insert}
use dgsw_class_pg_proxy.Prelude.Text.{Bytes}
use dgsw_class_pg_proxy.Plugins.Patterns.{same_bytes}
use dgsw_class_pg_proxy.Lua.Context.{RequestCtx, run_script, apply, req_field}
use dgsw_class_pg_proxy.Plugins.Auth.{
  api_keys, key_role, Settings, is_public, Login, logged_in, login, by_login, on_request,
}
use dgsw_class_pg_proxy.Plugins.Auth.Logins.{KeyRole}
use dgsw_class_pg_proxy.Plugins.Auth.Access.{on_request_run}

-- Each key of the list has one role.
key_role_complete :
    (key : Bytes) (role : String) → In (key, role) api_keys → key_role api_keys key ≡ some role
unfolding key_role same_bytes
key_role_complete key role (inl e) =
    subst (λ (k : Bytes × String). key_role api_keys k.0 ≡ some k.1) (sym e) refl
key_role_complete key role (inr (inl e)) =
    subst (λ (k : Bytes × String). key_role api_keys k.0 ≡ some k.1) (sym e) refl
key_role_complete key role (inr (inr none_left)) = elim none_left [ ]

module _ (settings : Settings) where
  abbrev pub by_key : (headers : StrMap String) (r : String) → KeyRole headers r → Login settings
  by_key headers r (key, has, role) =
      logged_in (some (concat "apikey:" (settings.rust_text (take 8 key)))) (some r) "api_key"

  login-key :
      (headers : StrMap String) (r : String) (proof : KeyRole headers r)
      → login settings headers ≡ by_key headers r proof
  unfolding login
  login-key headers r (key, has, role) = rw (login, has, key_role_complete key r role) refl

  -- The key's role becomes that of the request, and nothing is rejected.
  pub on_request-key :
      (lower : String → String) (c : RequestCtx) (r : String)
      → is_public c.req_path ≡ false
      → KeyRole (req_field lower c).headers r
      → let d = (run_script lower (on_request settings) c).1 in
        (lookup "role" d.vars ≡ some r) × (d.rejected ≡ c.rejected) × (d.req_path ≡ c.req_path)
  unfolding run_script apply str_eq
  on_request-key lower c r closed proof =
      let user = concat "apikey:" (settings.rust_text (take 8 proof.0)) in
      let with_role = insert "role" r (insert "user_id" user c.vars) in
      let run : run_script lower (on_request settings) c
          ≡ run_script lower (by_login settings (by_key (req_field lower c).headers r proof)) c =
        on_request_run lower settings c
        ∙ rw (closed, login-key (req_field lower c).headers r proof) refl in
      (
        ap (λ t. lookup "role" t.1.vars) run
            ∙ lookup-insert "auth_method" "role" "api_key" with_role
            ∙ lookup-insert "role" "role" r (insert "user_id" user c.vars),
        ap (λ t. t.1.rejected) run,
        ap (λ t. t.1.req_path) run,
      )
