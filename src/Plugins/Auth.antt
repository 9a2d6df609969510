-- ===== src/Plugins/Auth.antt =====
-- src/plugins/auth.lua: whom it lets in, by a key or by a token. The settings are the variable
-- `JWT_SECRET` of the table `ENV`, whether plugins/lib/jwt.lua could be loaded, and what that
-- library takes. `rust_text` is how a text of Lua becomes one of Rust. `ctx.req` is read once, as
-- nothing changes it in between. The lines of the log are left out.
pub mod Logins
pub mod Access
pub mod Keys
use dgsw_class_pg_proxy.Prelude.{
  ℕ, String, Bool, true, false, ◌||◌, Option, none, some, List, [], ◌∷◌, any, take, concat,
  if◌then◌else◌,
}
use dgsw_class_pg_proxy.Prelude.Maps.{StrMap, lookup}
use dgsw_class_pg_proxy.Prelude.Text.{Bytes, codes, as_bytes}
use dgsw_class_pg_proxy.Lua.Context.{
  Answer, ReqTable, req_table, Script, finish, access, req, set_var, set_res_header, reject,
}
use dgsw_class_pg_proxy.Lua.Engine.{Outcome, nothing, raised}
use dgsw_class_pg_proxy.Plugins.Patterns.{
  Pattern, begins, whole, matches, after_word, after_spaces, same_bytes, is_space,
}
use dgsw_class_pg_proxy.Plugins.Claims.{LuaNumbers, Value, text, number, boolean, Fields, field}
use dgsw_class_pg_proxy.Plugins.Jwt
use dgsw_class_pg_proxy.Plugins.Jwt.{Verdict, refused, verified, bearer, verify}

pub record Settings : Type 1 where
  pub env_secret : Option Bytes
  pub jwt_lib : Bool
  pub numbers : LuaNumbers
  pub hmac : Bytes → Bytes → Bytes
  pub now : ℕ
  pub later : ℕ
  pub rust_text : Bytes → String

abbrev pub public_paths : List Pattern
public_paths = whole "/health" ∷ whole "/metrics" ∷ begins "/public/" ∷ []

abbrev pub is_public : String → Bool
is_public path = any (λ pattern. matches pattern path) public_paths

abbrev pub api_keys : List (Bytes × String)
api_keys = (codes "test-api-key-admin", "admin") ∷ (codes "test-api-key-reader", "reader") ∷ []

unfoldable pub key_role : List (Bytes × String) → Bytes → Option String
unfolding same_bytes
key_role [] key = none
key_role ((known, role) ∷ more) key = if same_bytes known key then some role else key_role more key

-- `auth:match("^ApiKey%s+(.+)")`.
abbrev api_key_in : String → Option Bytes
api_key_in auth = elim (after_word (codes "ApiKey") (as_bytes auth)) [
  | none ↦ none
  | some rest ↦ after_spaces rest
]

-- The key of a request, if it has one; without either header, the match raises an error. The second
-- look at the header finds what the first did.
abbrev pub api_key : StrMap String → Option (Option Bytes)
api_key headers = elim (lookup "x-api-key" headers) [
  | some key ↦ some (some (as_bytes key))
  | none ↦ elim (lookup "authorization" headers) [
    | none ↦ none
    | some auth ↦ some (api_key_in auth)
  ]
]

-- `auth:match("^[Bb]earer%s+")`.
abbrev begins_with_space : Option Bytes → Bool
begins_with_space (some (c ∷ s)) = is_space c
begins_with_space _ = false

abbrev pub is_bearer : Bytes → Bool
is_bearer auth = begins_with_space (bearer auth)

module _ (settings : Settings) where
  open settings use {env_secret, jwt_lib, numbers, hmac, now, later, rust_text}

  abbrev pub jwt_secret : Bytes
  jwt_secret = elim env_secret [
    | none ↦ codes "my-super-secret-change-in-production"
    | some secret ↦ secret
  ]

  -- How a login ends: with an error of Lua, with a message, or with what the variables "user_id",
  -- "role" and "auth_method" are set to, where `none` is no text, which raises an error.
  pub data Login : Type 0 where
    fails : Login
    refuses : String → Login
    logged_in : Option String → Option String → String → Login

  -- `claim or default`, as a text for Rust; `none` if it cannot be one.
  abbrev pub claim_or : String → Option (Value numbers) → Option String
  claim_or default none = some default
  claim_or default (some (boolean false)) = some default
  claim_or default (some (boolean true)) = none
  claim_or default (some (text t)) = some (rust_text t)
  claim_or default (some (number n)) = some (rust_text (numbers.number_text n))

  abbrev by_verdict : Verdict numbers → Login
  by_verdict Jwt.raised = fails
  by_verdict (refused message) = refuses (rust_text message)
  by_verdict (verified claims) =
      logged_in (claim_or "unknown" (field numbers (codes "sub") claims))
        (claim_or "user" (field numbers (codes "role") claims)) "jwt"

  abbrev try_jwt : StrMap String → Login
  try_jwt headers = elim (lookup "authorization" headers) [
    | none ↦ refuses "no authorization header"
    | some auth ↦
        if is_bearer (as_bytes auth)
        then (if jwt_lib
            then by_verdict (verify numbers now later hmac (as_bytes auth) jwt_secret)
            else refuses "jwt lib unavailable")
        else refuses "not bearer token"
  ]

  abbrev try_api_key : StrMap String → Bytes → Login
  try_api_key headers key = elim (key_role api_keys key) [
    | none ↦ try_jwt headers
    | some role ↦ logged_in (some (concat "apikey:" (rust_text (take 8 key)))) (some role) "api_key"
  ]

  unfoldable pub login : StrMap String → Login
  unfolding key_role after_word after_spaces verify
  login headers = elim (api_key headers) [
    | none ↦ fails
    | some none ↦ try_jwt headers
    | some (some key) ↦ try_api_key headers key
  ]

  abbrev pub by_login : Login → Script Outcome
  by_login fails = finish raised
  by_login (logged_in none role method) = finish raised
  by_login (logged_in (some user_id) none method) =
      access (set_var "user_id" user_id) (λ a. finish raised)
  by_login (logged_in (some user_id) (some role) method) = access (set_var "user_id" user_id) (λ a.
      access (set_var "role" role)
        (λ b. access (set_var "auth_method" method) (λ c. finish nothing)))
  by_login (refuses message) =
      access (set_res_header "www-authenticate" "Bearer realm=\"proxy\"")
        (λ a. access (reject 401 (concat "Unauthorized: " message)) (λ b. finish nothing))

  abbrev pub with_table : ReqTable → Script Outcome
  with_table t =
      if is_public t.path
      then access (set_var "auth_method" "public") (λ a. finish nothing)
      else by_login (login t.headers)

  unfoldable pub on_request : Script Outcome
  unfolding login
  on_request = access req (λ answer. elim answer [ req_table t ↦ with_table t | _ ↦ finish raised ])
