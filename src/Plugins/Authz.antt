-- ===== src/Plugins/Authz.antt =====
-- src/plugins/authz.lua, whose `on_request` rejects what a role may not reach. The lines of the
-- log are left out.
pub mod Access
pub mod Forbids
use dgsw_class_pg_proxy.Prelude.{
  ℕ, String, Bool, true, false, ◌&&◌, Option, none, some, List, [], ◌∷◌, any, ◌==◌, str_eq,
  if◌then◌else◌,
}
use dgsw_class_pg_proxy.Prelude.Text.{Bytes, codes, as_bytes}
use dgsw_class_pg_proxy.Plugins.Patterns.{Pattern, begins, whole, matches, starts_with}
use dgsw_class_pg_proxy.Lua.Context.{
  Answer, text, req_table, Script, finish, access, req, get_var, reject,
}
use dgsw_class_pg_proxy.Lua.Engine.{Outcome, nothing, raised}

pub record Rule : Type 0 where
  pub pattern : Pattern
  pub roles : Option (List String)

abbrev pub rules : List Rule
rules =
    record { pattern = begins "/admin/"; roles = some ("admin" ∷ []) }
    ∷ record { pattern = begins "/reload"; roles = some ("admin" ∷ []) }
    ∷ record { pattern = begins "/metrics"; roles = some ("admin" ∷ "ops" ∷ []) }
    ∷ record { pattern = begins "/api/v1/"; roles = some ("admin" ∷ "user" ∷ "reader" ∷ []) }
    ∷ record { pattern = begins "/api/v2/"; roles = some ("admin" ∷ "user" ∷ []) }
    ∷ record { pattern = whole "/health"; roles = none }
    ∷ record { pattern = begins "/public/"; roles = none }
    ∷ []

-- `nil` stands for every role among the allowed ones, and for none as the user's.
unfoldable pub has_role : Option String → Option (List String) → Bool
has_role user_role none = true
has_role none (some allowed_roles) = false
has_role (some user_role) (some allowed_roles) = any (λ r. str_eq r user_role) allowed_roles

unfoldable pub find_rule : List Rule → String → Option Rule
find_rule [] path = none
find_rule (rule ∷ more) path = if matches rule.pattern path then some rule else find_rule more path

abbrev pub forbid : String → Script Outcome
forbid msg = access (reject 403 msg) (λ answer. finish nothing)

abbrev pub by_rule : Option String → Option Rule → Script Outcome
by_rule none none = forbid "Forbidden: authentication required"
by_rule (some user_role) none = finish nothing
by_rule user_role (some rule) =
    if has_role user_role rule.roles
    then finish nothing
    else forbid "Forbidden: insufficient privileges"

abbrev pub is_public : Option String → Bool
is_public none = false
is_public (some auth_meth) = str_eq auth_meth "public"

abbrev text_of : Answer → Option String
text_of (text s) = some s
text_of _ = none

abbrev with_path : Answer → (String → Script Outcome) → Script Outcome
with_path (req_table t) k = k t.path
with_path _ k = finish raised

unfoldable pub on_request : Script Outcome
unfolding has_role find_rule starts_with
on_request = access req (λ table. with_path table (λ path. access (get_var "role") (λ user_role.
    access (get_var "auth_method") (λ auth_meth.
      if is_public (text_of auth_meth)
      then finish nothing
      else by_rule (text_of user_role) (find_rule rules path)))))
