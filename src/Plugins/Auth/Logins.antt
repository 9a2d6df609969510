-- ===== src/Plugins/Auth/Logins.antt =====
-- auth.lua: what a login that ends well proves.
use dgsw_class_pg_proxy.Prelude.{
  In, List, [], ◌∷◌, ◌≡◌, ◌≢◌, ◌⊎◌, refl, sym, ◌∙◌, inl, inr, String, Option, none, some, arith,
  Bool-cases, Option-cases, concat, take,
}
use dgsw_class_pg_proxy.Prelude.Maps.{StrMap, lookup}
use dgsw_class_pg_proxy.Prelude.Text.{Bytes, codes, as_bytes}
use dgsw_class_pg_proxy.Lua.Context.{}
use dgsw_class_pg_proxy.Plugins.Patterns.{same_bytes}
use dgsw_class_pg_proxy.Plugins.Jwt.Split.{same_bytes_sound}
use dgsw_class_pg_proxy.Plugins.Claims.{Fields, field}
use dgsw_class_pg_proxy.Plugins.Jwt
use dgsw_class_pg_proxy.Plugins.Jwt.{Verdict, refused, verified, verify}
use dgsw_class_pg_proxy.Plugins.Jwt.Verified.{Holds, verify_iff}
use dgsw_class_pg_proxy.Plugins.Auth.{
  Settings, api_keys, key_role, api_key, is_bearer, jwt_secret, Login, fails, refuses, logged_in,
  claim_or, by_verdict, try_jwt, try_api_key, login,
}

-- The request has a key of the list, and the key's role is this one.
abbrev pub KeyRole : StrMap String → String → Type 0
KeyRole headers role = (key : Bytes) × (api_key headers ≡ some (some key)) × In (key, role) api_keys

key_role_sound :
    (keys : List (Bytes × String)) (key : Bytes) (role : String)
    → key_role keys key ≡ some role
    → In (key, role) keys
unfolding key_role
key_role_sound [] key role e = absurd (ground arith)
key_role_sound ((known, r) ∷ more) key role e = elim (Bool-cases (same_bytes known key)) [
  | inl k ↦
      let same = same_bytes_sound known key k in
      let e' : some r ≡ some role = rw k at e in
      let same' : r ≡ role = ground arith in inl (λ i. (sym same i, sym same' i))
  | inr k ↦ inr (key_role_sound more key role (rw k at e))
]

text_differs : ¬ (◌≡◌ {A = String} "jwt" "public")
text_differs e = cc

key_differs : ¬ (◌≡◌ {A = String} "api_key" "public")
key_differs e = cc

module _ (settings : Settings) where
  open settings use {numbers, hmac, now, later}

  -- The request has a token that holds under the secret, and this is the role among its claims, or
  -- "user" where they name none.
  abbrev pub TokenRole : StrMap String → String → Type 0
  TokenRole headers role =
      (auth : String) × (claims : Fields numbers) × (lookup "authorization" headers ≡ some auth)
      × Holds numbers now later hmac (as_bytes auth) (jwt_secret settings) claims
      × (claim_or settings "user" (field numbers (codes "role") claims) ≡ some role)

  abbrev pub Proves : StrMap String → String → Type 0
  Proves headers role = KeyRole headers role ⊎ TokenRole headers role

  abbrev ended : Option String → Option String → String → Login settings
  ended u r m = logged_in u r m

  by_verdict_sound :
      (v : Verdict numbers) (u r : Option String) (m : String)
      → by_verdict settings v ≡ ended u r m
      → (claims : Fields numbers) × (v ≡ verified claims)
        × (claim_or settings "user" (field numbers (codes "role") claims) ≡ r)
        × (m ≡ "jwt")
  by_verdict_sound Jwt.raised u r m e = absurd (ground arith)
  by_verdict_sound (refused message) u r m e = absurd (ground arith)
  by_verdict_sound (verified claims) u r m e = (claims, refl, ground arith, ground arith)

  token_sound :
      (headers : StrMap String) (auth : String) (u : Option String) (r m : String)
      → lookup "authorization" headers ≡ some auth
      → by_verdict settings (verify numbers now later hmac (as_bytes auth) (jwt_secret settings))
        ≡ ended u (some r) m
      → TokenRole headers r × (m ≡ "jwt")
  token_sound headers auth u r m at e =
      let (claims, valid, role, method) =
        by_verdict_sound (verify numbers now later hmac (as_bytes auth) (jwt_secret settings)) u
          (some r) m e in
      (
        (
          auth,
          claims,
          at,
          (verify_iff numbers now later hmac (as_bytes auth) (jwt_secret settings) claims).0 valid,
          role,
        ),
        method,
      )

  try_jwt_sound :
      (headers : StrMap String) (u : Option String) (r m : String)
      → try_jwt settings headers ≡ ended u (some r) m
      → TokenRole headers r × (m ≡ "jwt")
  try_jwt_sound headers u r m e = elim (Option-cases (lookup "authorization" headers)) [
    | inl k ↦ absurd (
        let e' : refuses "no authorization header" ≡ ended u (some r) m = rw (k, try_jwt) at e in
        ground arith)
    | inr (auth, k) ↦ elim (Bool-cases (is_bearer (as_bytes auth))) [
      | inr l ↦ absurd (
          let e' : refuses "not bearer token" ≡ ended u (some r) m = rw (k, try_jwt, l) at e in
          ground arith)
      | inl l ↦ elim (Bool-cases settings.jwt_lib) [
        | inr n ↦ absurd (
            let e' : refuses "jwt lib unavailable" ≡ ended u (some r) m =
              rw (k, try_jwt, l, n) at e in
            ground arith)
        | inl n ↦ token_sound headers auth u r m k (rw (k, try_jwt, l, n) at e)
      ]
    ]
  ]

  by_token :
      (headers : StrMap String) (u : Option String) (r m : String)
      → try_jwt settings headers ≡ ended u (some r) m
      → Proves headers r × (m ≢ "public")
  by_token headers u r m e =
      let (proof, method) = try_jwt_sound headers u r m e in
      (inr proof, λ k. text_differs (sym method ∙ k))

  try_api_key_sound :
      (headers : StrMap String) (key : Bytes) (u : Option String) (r m : String)
      → api_key headers ≡ some (some key)
      → try_api_key settings headers key ≡ ended u (some r) m
      → Proves headers r × (m ≢ "public")
  try_api_key_sound headers key u r m has e = elim (Option-cases (key_role api_keys key)) [
    | inl k ↦ by_token headers u r m (rw (k, try_api_key) at e)
    | inr (role, k) ↦
        let user : Option String = some (concat "apikey:" (settings.rust_text (take 8 key))) in
        let e' : ended user (some role) "api_key" ≡ ended u (some r) m = rw (k, try_api_key) at e in
        let same : role ≡ r = ground arith in
        let method : "api_key" ≡ m = ground arith in
        (
          inl (key, has, key_role_sound api_keys key r (rw (← same) k)),
          λ p. key_differs (method ∙ p),
        )
  ]

  -- A login that sets a role has a proof of it, and is not marked public.
  pub login_sound :
      (headers : StrMap String) (u : Option String) (r m : String)
      → login settings headers ≡ ended u (some r) m
      → Proves headers r × (m ≢ "public")
  unfolding login
  login_sound headers u r m e = elim (Option-cases (api_key headers)) [
    | inl k ↦ absurd (let e' : fails ≡ ended u (some r) m = rw (k, login) at e in ground arith)
    | inr (none, k) ↦ by_token headers u r m (rw (k, login) at e)
    | inr (some key, k) ↦ try_api_key_sound headers key u r m k (rw (k, login) at e)
  ]
