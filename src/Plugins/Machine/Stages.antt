-- ===== src/Plugins/Machine/Stages.antt =====
-- The five plugins on the machine: what each of them does to a request that the ones before let
-- pass.
use dgsw_class_pg_proxy.Prelude.{
  ◌≡◌, ◌≢◌, ◌⊎◌, refl, sym, ap, ◌∙◌, subst, inl, inr, String, true, false, ◌&&◌, not, none, some,
  List, [], ◌∷◌, arith, length, ltb, Bool-cases,
}
use dgsw_class_pg_proxy.Prelude.Maps.{StrMap, lookup}
use dgsw_class_pg_proxy.Lua.Context.{
  RequestCtx, is_rejected, run_script, apply, req_field, set_lowercase,
}
use dgsw_class_pg_proxy.Lua.Engine.{Outcome}
use dgsw_class_pg_proxy.Plugins.IpFilter
use dgsw_class_pg_proxy.Plugins.IpFilter.{ip_matches, check_ip}
use dgsw_class_pg_proxy.Plugins.RateLimit.{Bucket, get_bucket, refill, spend}
use dgsw_class_pg_proxy.Plugins.RateLimit.Limits.{key_of, on_request_run, new_passes}
use dgsw_class_pg_proxy.Plugins.Auth.{is_public}
use dgsw_class_pg_proxy.Plugins.Auth.Logins.{Proves}
use dgsw_class_pg_proxy.Plugins.Authz.{rules, find_rule}
use dgsw_class_pg_proxy.Plugins.Authz.Access.{allowed}
use dgsw_class_pg_proxy.Plugins.Machine.{Plugin, ip_filter, rate_limit, Globals, Outside, plugin_of}
use dgsw_class_pg_proxy.Plugins.Machine.Steps.{There, result, pass, pass-rejected, pass-on}

-- What the first two plugins keep of a context, and that they reject with 403 if at all.
pub record Same (c d : RequestCtx) : Type 0 where
  pub vars : d.vars ≡ c.vars
  pub headers : d.req_headers ≡ c.req_headers
  pub path : d.req_path ≡ c.req_path

abbrev pub Forbidden : RequestCtx → Type 0
Forbidden c = (msg : String) × (c.rejected ≡ some (403, msg))

pub not_rejected : (c : RequestCtx) → is_rejected c ≡ false → c.rejected ≡ none
not_rejected c e = ground arith

module _ (lower : String → String) (outside : Outside) (sources : StrMap String) where
  open outside use {blocklist, allowlist, tostring, now, later, settings, req_id}

  abbrev pub filtered : RequestCtx → RequestCtx
  filtered c = result lower outside sources ip_filter c

  abbrev pub limited_to : RequestCtx → RequestCtx
  limited_to c = result lower outside sources rate_limit c

  abbrev pub Filters : RequestCtx → RequestCtx → Type 0
  Filters c d = Same c d × ((d.rejected ≡ none) ⊎ Forbidden d)

  check_lem :
      (c : RequestCtx)
      → c.rejected ≡ none
      → Filters c (run_script lower (check_ip blocklist allowlist c.client_ip) c).1
  unfolding run_script apply
  check_lem c h =
      let blocked = ltb 0 (length blocklist) && ip_matches c.client_ip blocklist in
      let unlisted = ltb 0 (length allowlist) && not (ip_matches c.client_ip allowlist) in
      elim (Bool-cases blocked) [
        | inl e ↦ rw e (
          record { vars = refl; headers = refl; path = refl },
          inr ("Forbidden: your IP is blocked", refl),
        )
        | inr e ↦ elim (Bool-cases unlisted) [
          | inl k ↦
              rw (e, k)
                (
                  record { vars = refl; headers = refl; path = refl },
                  inr ("Forbidden: IP not allowed", refl),
                )
          | inr k ↦ rw (e, k) (record { vars = refl; headers = refl; path = refl }, inl h)
        ]
      ]

  pub filter_lem : (c : RequestCtx) → c.rejected ≡ none → Filters c (filtered c)
  unfolding IpFilter.on_request run_script apply req_field
  filter_lem c h = check_lem c h

  spend-Same :
      (buckets : StrMap Bucket) (key : String) (bucket : Bucket) (c : RequestCtx)
      → Same c (run_script lower (spend tostring now later buckets key bucket) c).1
  unfolding run_script apply
  spend-Same buckets key bucket c = elim (Bool-cases (ltb bucket.tokens 1)) [
    | inl e ↦ rw e (record { vars = refl; headers = refl; path = refl })
    | inr e ↦ rw e (record { vars = refl; headers = refl; path = refl })
  ]

  pub limit_lem :
      (c : RequestCtx)
      → c.rejected ≡ none
      → Same c (limited_to c) × ((limited_to c).rejected ≡ none)
  limit_lem c h =
      let bucket = refill (get_bucket later (key_of c) []) now in
      (
        subst (λ (r : (StrMap Bucket × Outcome) × RequestCtx). Same c r.1)
            (sym (on_request_run lower tostring now later [] c))
            (spend-Same [] (key_of c) bucket c),
        new_passes lower tostring now later c h,
      )

  abbrev pub headers_of : RequestCtx → StrMap String
  headers_of c = (req_field lower c).headers

  abbrev pub final : List String → Globals → RequestCtx → RequestCtx
  final names g c = (pass lower outside sources names (g, c)).1

  -- If the pipeline does not reject in the end, its first plugin does not, and the others go on.
  pub goes_on :
      (name : String) (names : List String) (p : Plugin) (g : Globals) (c : RequestCtx)
      → plugin_of name ≡ some p
      → There sources name
      → (final (name ∷ names) g c).rejected ≡ none
      → ((result lower outside sources p c).rejected ≡ none)
        × ((g' : Globals) × (final (name ∷ names) g c
              ≡ final names g' (result lower outside sources p c))
            × ((final names g' (result lower outside sources p c)).rejected ≡ none))
  goes_on name names p g c known there passes =
      let c' = result lower outside sources p c in
      elim (Bool-cases (is_rejected c')) [
        | inl e ↦
            let same = pass-rejected lower outside sources name names p g c known there e in
            absurd (let passes' : c'.rejected ≡ none = rw same at passes in ground arith)
        | inr e ↦
            let (g', run) = pass-on lower outside sources name names p g c known there e in
            let same = ap (λ (st : Globals × RequestCtx). st.1) run in
            (not_rejected c' e, (g', same, ap (λ (d : RequestCtx). d.rejected) (sym same) ∙ passes))
      ]

  -- From a context without a role or a mark, for a path that auth.lua does not hold public.
  abbrev pub Fresh : RequestCtx → Type 0
  Fresh c =
      (c.rejected ≡ none)
      × (lookup "role" c.vars ≡ none)
      × (lookup "auth_method" c.vars ≢ some "public")
      × (is_public c.req_path ≡ false)

  pub Same-Fresh : (c d : RequestCtx) → Same c d → d.rejected ≡ none → Fresh c → Fresh d
  Same-Fresh c d same h (h', role, unmarked, closed) = (
    h,
    ap (lookup "role") same.vars ∙ role,
    λ m. unmarked (ap (lookup "auth_method") (sym same.vars) ∙ m),
    ap is_public same.path ∙ closed,
  )

  pub Same-headers : (c d : RequestCtx) → Same c d → headers_of d ≡ headers_of c
  unfolding req_field
  Same-headers c d same = ap (λ hs. set_lowercase lower hs []) same.headers

  pub Same-Proves :
      (c d : RequestCtx) (r : String)
      → Same c d
      → Proves settings (headers_of d) r
      → Proves settings (headers_of c) r
  unfolding req_field
  Same-Proves c d r same h =
      subst (λ hs. Proves settings (set_lowercase lower hs []) r) same.headers h

  abbrev pub Allows : RequestCtx → String → Type 0
  Allows c r =
      Proves settings (headers_of c) r × (allowed (some r) (find_rule rules c.req_path) ≡ true)

  pub Same-Allows : (c d : RequestCtx) (r : String) → Same c d → Allows d r → Allows c r
  Same-Allows c d r same (proof, by) = (
    Same-Proves c d r same proof,
    subst (λ path. allowed (some r) (find_rule rules path) ≡ true) same.path by,
  )
