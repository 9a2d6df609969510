-- ===== src/Plugins/Machine.antt =====
-- src/plugins: the machine of a connection that runs the five plugins of the repository, under the
-- names that its configuration gives them. A file of another name does not load. The table of
-- rate_limit.lua is new at each run of its chunk, and only the `on_request` of that run has it.
-- What the plugins take from outside, the clock and the ids among it, is the same for all calls.
pub mod Steps
pub mod Stages
pub mod Roles
pub mod Access
pub mod Rejections
pub mod Guarded
pub mod Served
pub mod Routing
pub mod Responses
pub mod Requests
pub mod Handled
use dgsw_class_pg_proxy.Prelude.{
  ℕ, String, Bool, true, false, Option, none, some, List, [], ◌∷◌, str_eq, if◌then◌else◌,
}
use dgsw_class_pg_proxy.Prelude.Maps.{StrMap}
use dgsw_class_pg_proxy.Lua.Context.{Script, finish, access}
use dgsw_class_pg_proxy.Lua.Engine.{Vm, Outcome}
use dgsw_class_pg_proxy.Plugins.IpFilter
use dgsw_class_pg_proxy.Plugins.RateLimit
use dgsw_class_pg_proxy.Plugins.RateLimit.{Bucket}
use dgsw_class_pg_proxy.Plugins.Auth
use dgsw_class_pg_proxy.Plugins.Auth.{Settings}
use dgsw_class_pg_proxy.Plugins.Authz
use dgsw_class_pg_proxy.Plugins.Transform

pub data Plugin : Type 0 where
  ip_filter rate_limit auth authz transform : Plugin

-- The global functions that the plugins define.
pub data Function : Type 0 where
  request : Plugin → Function
  route response : Function

-- Whose `on_request` is the global one, whether transform.lua has defined its other two hooks, and
-- the table of buckets.
pub record Globals : Type 0 where
  pub on_request : Option Plugin
  pub transforms : Bool
  pub buckets : StrMap Bucket

-- What the plugins take from outside: the two lists, the clock and the numbers of the limit, what
-- auth.lua takes, and the text of `uuid.v4`.
pub record Outside : Type 1 where
  pub blocklist : List String
  pub allowlist : List String
  pub tostring : ℕ → String
  pub now : ℕ
  pub later : ℕ
  pub settings : Settings
  pub req_id : String

abbrev pub sample_pipeline : List String
sample_pipeline =
    "ip_filter.lua" ∷ "rate_limit.lua" ∷ "auth.lua" ∷ "authz.lua" ∷ "transform.lua" ∷ []

unfoldable pub plugin_of : String → Option Plugin
plugin_of name =
    if str_eq name "ip_filter.lua"
    then some ip_filter
    else if str_eq name "rate_limit.lua"
    then some rate_limit
    else if str_eq name "auth.lua"
    then some auth
    else if str_eq name "authz.lua"
    then some authz
    else if str_eq name "transform.lua"
    then some transform
    else none

abbrev hooks_after : Plugin → Bool → Bool
hooks_after transform before = true
hooks_after _ before = before

abbrev buckets_after : Plugin → StrMap Bucket → StrMap Bucket
buckets_after rate_limit before = []
buckets_after _ before = before

-- Running a plugin's chunk.
abbrev pub define : Plugin → Globals → Globals
define p g = record {
  on_request = some p;
  transforms = hooks_after p g.transforms;
  buckets = buckets_after p g.buckets;
}

unfoldable pub map_script : {A B : Type 0} → (A → B) → Script A → Script B
map_script f (finish a) = finish (f a)
map_script f (access m k) = access m (λ answer. map_script f (k answer))

abbrev run_chunk : Option Plugin → Globals → Script (Globals × Bool)
run_chunk none g = finish (g, false)
run_chunk (some p) g = finish (define p g, true)

abbrev function_of : Option Plugin → Option Function
function_of none = none
function_of (some p) = some (request p)

unfoldable pub global : String → Globals → Option Function
global hook g =
    if str_eq hook "on_request"
    then function_of g.on_request
    else if str_eq hook "on_route"
    then (if g.transforms then some route else none)
    else if str_eq hook "on_response"
    then (if g.transforms then some response else none)
    else none

module _ (outside : Outside) where
  open outside use {blocklist, allowlist, tostring, now, later, settings, req_id}

  abbrev keeps : Globals → Script Outcome → Script (Globals × Outcome)
  keeps g script = map_script (λ o. (g, o)) script

  unfoldable pub call_of : Function → Globals → Script (Globals × Outcome)
  unfolding map_script
  call_of (request ip_filter) g = keeps g (IpFilter.on_request blocklist allowlist)
  call_of (request rate_limit) g =
      map_script (λ r. (record g { buckets = r.0 }, r.1))
        (RateLimit.on_request tostring now later g.buckets)
  call_of (request auth) g = keeps g (Auth.on_request settings)
  call_of (request authz) g = keeps g Authz.on_request
  call_of (request transform) g = keeps g (Transform.on_request req_id)
  call_of route g = keeps g Transform.on_route
  call_of response g = keeps g Transform.on_response

  abbrev pub sample_vm : Vm
  sample_vm = record {
    State = Globals;
    Function = Function;
    exec = λ name src g. run_chunk (plugin_of name) g;
    get_function = global;
    call = call_of;
  }
