-- ===== src/Plugins/RateLimit/Limits.antt =====
-- rate_limit.lua and engine.rs: when the limit rejects a request.
use dgsw_class_pg_proxy.Prelude.{
  ℕ, ◌≡◌, refl, ap, ◌∙◌, ◌↔◌, String, false, Option, none, some, [], ◌∷◌, arith, ltb, str_eq, inl,
  inr, Bool-cases,
}
use dgsw_class_pg_proxy.Prelude.Maps.{StrMap, lookup}
use dgsw_class_pg_proxy.Lua.Context.{RequestCtx, run_script, apply, of_option}
use dgsw_class_pg_proxy.Lua.Engine.{Vm, run_on_request, attempt, load_plugin, call_function}
use dgsw_class_pg_proxy.Lua.Engine.Pipeline.{run_on_request_one}
use dgsw_class_pg_proxy.Plugins.RateLimit.{
  Bucket, get_bucket, refill, spend, limited, by_user, on_request, rate_limit_vm,
}

abbrev or_ip : Option String → RequestCtx → String
or_ip none c = c.client_ip
or_ip (some user_id) c = user_id

-- Whose bucket a request uses.
abbrev pub key_of : RequestCtx → String
key_of c = or_ip (lookup "user_id" c.vars) c

module _ (lower : String → String) (tostring : ℕ → String) (now later : ℕ) where
  pub by_user_run :
      (o : Option String) (buckets : StrMap Bucket) (c : RequestCtx)
      → run_script lower (by_user tostring now later buckets (of_option o)) c
        ≡ run_script lower (limited tostring now later buckets (or_ip o c)) c
  unfolding run_script apply
  by_user_run none buckets c = refl
  by_user_run (some user_id) buckets c = refl

  pub on_request_run :
      (buckets : StrMap Bucket) (c : RequestCtx)
      → run_script lower (on_request tostring now later buckets) c
        ≡ run_script lower (limited tostring now later buckets (key_of c)) c
  unfolding on_request run_script apply
  on_request_run buckets c = by_user_run (lookup "user_id" c.vars) buckets c

  spend_iff :
      (buckets : StrMap Bucket) (key : String) (bucket : Bucket) (c : RequestCtx)
      → c.rejected ≡ none
      → ((run_script lower (spend tostring now later buckets key bucket) c).1.rejected ≡ none)
        ↔ (ltb bucket.tokens 1 ≡ false)
  unfolding run_script apply
  spend_iff buckets key bucket c h = elim (Bool-cases (ltb bucket.tokens 1)) [
    | inl empty ↦ rw empty (λ e. absurd (ground arith), λ e. absurd (ground arith))
    | inr more ↦ rw more (λ e. refl, λ e. h)
  ]

  -- With the buckets that it keeps, `on_request` lets a request pass exactly if its bucket, the
  -- user's or else the address's, has a token after the refill.
  on_request-passes_iff :
      (buckets : StrMap Bucket) (c : RequestCtx)
      → c.rejected ≡ none
      → ((run_script lower (on_request tostring now later buckets) c).1.rejected ≡ none)
        ↔ (ltb (refill (get_bucket later (key_of c) buckets) now).tokens 1 ≡ false)
  on_request-passes_iff buckets c h =
      rw (on_request_run buckets c)
        (spend_iff buckets (key_of c) (refill (get_bucket later (key_of c) buckets) now) c h)

  new_bucket : (key : String) → ltb (refill (get_bucket later key []) now).tokens 1 ≡ false
  unfolding lookup
  new_bucket key = ground arith

  pub new_passes :
      (c : RequestCtx)
      → c.rejected ≡ none
      → (run_script lower (on_request tostring now later []) c).1.rejected ≡ none
  new_passes c h = (on_request-passes_iff [] c h).1 (new_bucket (key_of c))

  abbrev machine : Vm
  machine = rate_limit_vm tostring now later

  -- The plugin is loaded, which makes new buckets, and called.
  attempt_run :
      (sources : StrMap String) (src : String) (buckets : StrMap Bucket) (c : RequestCtx)
      → lookup "rate_limit.lua" sources ≡ some src
      → (attempt lower machine "on_request" "rate_limit.lua" sources (buckets, c)).1.1
        ≡ (run_script lower (on_request tostring now later []) c).1
  unfolding attempt load_plugin call_function run_script str_eq
  attempt_run sources src buckets c at = rw (at, attempt) refl

  -- The engine runs the chunk of a plugin before each call of its hook, so whatever buckets the
  -- requests before have left, and whatever the time: a pipeline of rate_limit.lua alone lets every
  -- request pass that was not rejected before.
  pub run_on_request-unlimited :
      (sources : StrMap String) (src : String) (buckets : StrMap Bucket) (c : RequestCtx)
      → lookup "rate_limit.lua" sources ≡ some src
      → c.rejected ≡ none
      → (run_on_request lower
          (rate_limit_vm tostring now later)
          (record { pipeline = "rate_limit.lua" ∷ []; sources = sources })
          (buckets, c)).1.rejected
        ≡ none
  run_on_request-unlimited sources src buckets c at h =
      ap (λ (st : StrMap Bucket × RequestCtx). st.1.rejected)
        (run_on_request_one lower machine sources "rate_limit.lua" (buckets, c))
      ∙ ap (λ (d : RequestCtx). d.rejected) (attempt_run sources src buckets c at)
      ∙ new_passes c h
