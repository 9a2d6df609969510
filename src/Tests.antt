-- ===== src/Tests.antt =====
-- Small values that the examples share: backends, an HTTP library, and a machine whose plugins are
-- single words.
mod Balancing
mod Plugins
mod Handling
mod Programs
mod Globals
mod Running
mod Serving
mod Scripts
mod Tokens
mod Machine
mod Connected
mod Relaying
use dgsw_class_pg_proxy.Prelude.{
  ℕ, ◌≡◌, refl, ◌≤◌, ◌<◌, ◌↔◌, String, Bool, true, false, ◌&&◌, Option, none, some, List, [], ◌∷◌,
  leb, ltb, arith, Bool-cases, inl, inr, str_eq, if◌then◌else◌,
}
use dgsw_class_pg_proxy.Prelude.Maps.{StrMap}
use dgsw_class_pg_proxy.Prelude.Text.{Bytes}
use dgsw_class_pg_proxy.Upstream.Balancer.{
  Target, Balancer, round_robin, least_conn, consistent_hash,
}
use dgsw_class_pg_proxy.Upstream.Pool.{UpstreamPool}
use dgsw_class_pg_proxy.Lua.Base64.{is_utf8, utf8_from}
use dgsw_class_pg_proxy.Lua.Context.{
  RequestCtx, new_ctx, Script, finish, access, reject, set_var, set_res_status,
}
use dgsw_class_pg_proxy.Lua.Sources.{PluginSources}
use dgsw_class_pg_proxy.Lua.Engine.{Vm, Outcome, nothing, text}
use dgsw_class_pg_proxy.Handler.{Http, Request, Reads, UpstreamResponse}
use dgsw_class_pg_proxy.Handler.Laws.{HttpLaws, LossyLaws}

abbrev pub same_text : String → String
same_text s = s

abbrev pub hash : String → ℕ
hash s = 7

abbrev pub one : Target
one = record { url = "http://one"; alive = true; active = 0 }

abbrev pub dead : Target
dead = record { url = "http://dead"; alive = false; active = 0 }

abbrev pub two : Target
two = record { url = "http://two"; alive = true; active = 0 }

abbrev pub backends : List Target
backends = one ∷ dead ∷ two ∷ []

abbrev pub pool : UpstreamPool
pool = ("default", round_robin backends 0) ∷ ("red", least_conn backends) ∷ []

abbrev pub replacement : Bytes
replacement = 0xef ∷ 0xbf ∷ 0xbd ∷ []

abbrev pub lossy : Bytes → Bytes
lossy bs = if is_utf8 bs then bs else replacement

pub lossy_laws : LossyLaws lossy
unfolding utf8_from
lossy_laws = record {
  keeps = λ bs h. rw h;
  is_text = λ bs. elim (Bool-cases (is_utf8 bs)) [ inl e ↦ rw e e | inr e ↦ rw e refl ];
  nonempty = λ bs. elim (Bool-cases (is_utf8 bs)) [
    | inl e ↦ λ h. ground arith
    | inr e ↦ λ h. absurd (ground arith)
  ];
}

-- An upstream that answers every request with 200 and no header, except at one address.
abbrev pub http : Http
http = record {
  parses_uri = λ uri. true;
  valid_header = λ name value. true;
  valid_status = λ status. leb 100 status && ltb status 1000;
  send = λ method uri headers body.
      if str_eq uri "http://one/gone"
      then none
      else some (record { status = 200; headers = []; body = some (104 ∷ 105 ∷ []) });
}

pub http_laws : HttpLaws http
http_laws = record { status_iff = λ s. ground arith; json_header = refl }

-- The plugin loaded last is every hook; an empty source defines none, and `broken` does not load.
abbrev pub call_word : String → Option String → Script (Option String × Outcome)
call_word f s =
    if str_eq f "deny"
    then access (reject 403 "no") (λ answer. finish (s, nothing))
    else if str_eq f "bad"
    then access (reject 99 "no") (λ answer. finish (s, nothing))
    else if str_eq f "red"
    then finish (s, text "red")
    else access (set_var "seen" f) (λ answer. finish (s, nothing))

abbrev pub vm : Vm
vm = record {
  State = Option String;
  Function = String;
  exec = λ name src s.
      if str_eq src ""
      then finish (s, true)
      else if str_eq src "broken"
      then finish (s, false)
      else finish (some src, true);
  get_function = λ hook s. s;
  call = call_word;
}

abbrev pub sources : StrMap String
sources =
    ("log.lua", "log")
    ∷ ("deny.lua", "deny")
    ∷ ("bad.lua", "bad")
    ∷ ("red.lua", "red")
    ∷ ("empty.lua", "")
    ∷ []

abbrev pub plugins : List String → PluginSources
plugins names = record { pipeline = names; sources = sources }

abbrev pub ctx : RequestCtx
ctx = new_ctx "GET" "/" [] [] "10.0.0.1"

abbrev pub reads : List String → Reads
reads names = record {
  on_request = plugins names;
  on_route = plugins names;
  on_transform = plugins names;
  on_response = plugins names;
  pool = pool;
}

abbrev pub request : Request
request = record {
  method = "GET";
  path = "/gone";
  headers = ("Host", some "h") ∷ [];
  body = some [];
}
