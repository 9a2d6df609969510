-- ===== src/Plugins/RateLimit.antt =====
-- src/plugins/rate_limit.lua: a bucket of tokens for each key, and the machine that runs it. Tokens
-- are whole and never below 0. The clock is a parameter: `now` is the time that `on_request` reads,
-- `later` that of a new bucket. `tostring` is one of Lua. The line of the log is left out.
pub mod Limits
use dgsw_class_pg_proxy.Prelude.{
  ℕ, ◌+◌, ◌-◌, ◌*◌, ◌/◌, String, Bool, true, false, Option, none, some, List, [], ◌∷◌, ltb, str_eq,
  if◌then◌else◌,
}
use dgsw_class_pg_proxy.Prelude.Maps.{StrMap, lookup, insert}
use dgsw_class_pg_proxy.Lua.Context.{
  Answer, text, req_table, Script, finish, access, req, get_var, reject, set_res_header,
}
use dgsw_class_pg_proxy.Lua.Engine.{Vm, Outcome, nothing, raised}

pub record Bucket : Type 0 where
  pub tokens : ℕ
  pub last : ℕ

abbrev pub capacity : ℕ
capacity = 100

abbrev pub refill_rate : ℕ
refill_rate = 10

abbrev pub get_bucket : ℕ → String → StrMap Bucket → Bucket
get_bucket later key buckets = elim (lookup key buckets) [
  | none ↦ record { tokens = capacity; last = later }
  | some bucket ↦ bucket
]

abbrev pub at_most_capacity : ℕ → ℕ
at_most_capacity n = if ltb capacity n then capacity else n

abbrev pub refill : Bucket → ℕ → Bucket
refill bucket now =
    if ltb bucket.last now
    then record {
      tokens = at_most_capacity (bucket.tokens + (now - bucket.last) * refill_rate);
      last = now;
    }
    else bucket

module _ (tostring : ℕ → String) (now later : ℕ) where
  -- The rest of `on_request`, with the key and its bucket after the refill.
  abbrev pub spend : StrMap Bucket → String → Bucket → Script (StrMap Bucket × Outcome)
  spend buckets key bucket =
      if ltb bucket.tokens 1
      then access (set_res_header "retry-after" (tostring ((1 - bucket.tokens + 9) / 10))) (λ a.
        access (reject 429 "Too Many Requests") (λ b. finish (insert key bucket buckets, nothing)))
      else let spent = record bucket { tokens = bucket.tokens - 1 } in
        access (set_res_header "x-ratelimit-remaining" (tostring spent.tokens)) (λ a.
          access (set_res_header "x-ratelimit-limit" (tostring capacity))
            (λ b. finish (insert key spent buckets, nothing)))

  abbrev pub limited : StrMap Bucket → String → Script (StrMap Bucket × Outcome)
  limited buckets key = spend buckets key (refill (get_bucket later key buckets) now)

  abbrev by_ip : StrMap Bucket → Answer → Script (StrMap Bucket × Outcome)
  by_ip buckets (req_table t) = limited buckets t.ip
  by_ip buckets _ = finish (buckets, raised)

  abbrev by_user : StrMap Bucket → Answer → Script (StrMap Bucket × Outcome)
  by_user buckets (text user_id) = limited buckets user_id
  by_user buckets _ = access req (by_ip buckets)

  unfoldable pub on_request : StrMap Bucket → Script (StrMap Bucket × Outcome)
  on_request buckets = access (get_var "user_id") (by_user buckets)

  -- The machine of a connection that runs this plugin only. Its chunk begins with
  -- `local buckets = {}`, so each run of it makes a new table, which its `on_request` then has.
  abbrev pub rate_limit_vm : Vm
  rate_limit_vm = record {
    State = StrMap Bucket;
    Function = Unit {0};
    exec = λ name src buckets. finish ([], true);
    get_function = λ hook buckets. if str_eq hook "on_request" then some tt else none;
    call = λ f buckets. on_request buckets;
  }
