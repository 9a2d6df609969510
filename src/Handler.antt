-- ===== src/Handler.antt =====
-- src/handler.rs. A request is handled by one function of its stages, each of which is a function
-- here. What other threads may change meanwhile comes in by `Reads`: the plugins' sources at each
-- of the four hooks, and the pool when the upstream is chosen. The HTTP library is a parameter, and
-- so are the replacement of bytes that are no UTF-8 and the lower case of Unicode.
pub mod Laws
pub mod Bodies
pub mod Errors
pub mod Outcomes
pub mod Counts
pub mod Rejections
pub mod Relay
use dgsw_class_pg_proxy.Prelude.{
  ℕ, ◌≤◌, ◌<◌, ◌≡◌, ◌↔◌, String, Bool, true, false, ◌&&◌, Option, none, some, List, [], ◌∷◌, ◌++◌,
  concat, if◌then◌else◌,
}
use dgsw_class_pg_proxy.Prelude.Maps.{StrMap, lookup, insert}
use dgsw_class_pg_proxy.Prelude.Run.{Run, returned, panicked, unwrap, ◌>>=◌}
use dgsw_class_pg_proxy.Prelude.Text.{Bytes, codes, as_bytes, decimal, trim_end_slashes}
use dgsw_class_pg_proxy.Upstream.Pool.{UpstreamPool, next_url}
use dgsw_class_pg_proxy.Lua.Context.{RequestCtx, new_ctx}
use dgsw_class_pg_proxy.Lua.Sources.{PluginSources}
use dgsw_class_pg_proxy.Lua.Engine.{
  Vm, Session, run_on_request, run_on_route, run_on_transform, run_on_response,
}
use dgsw_class_pg_proxy.Metrics.{Metrics, inc, observe}

-- Header fields in their order, as the HTTP library keeps them; `none` where `to_str` fails.
abbrev pub RawHeaders : Type 0
RawHeaders = List (String × Option String)

-- `body` is what `collect` gives, `none` on an error.
pub record Request : Type 0 where
  pub method : String
  pub path : String
  pub headers : RawHeaders
  pub body : Option Bytes

pub record Response : Type 0 where
  pub status : ℕ
  pub headers : StrMap String
  pub body : Bytes

pub record UpstreamResponse : Type 0 where
  pub status : ℕ
  pub headers : RawHeaders
  pub body : Option Bytes

-- The HTTP library: which texts and numbers it takes, and what a request to an upstream gives.
pub record Http : Type 0 where
  pub parses_uri : String → Bool
  pub valid_header : String → String → Bool
  pub valid_status : ℕ → Bool
  pub send : String → String → StrMap String → Bytes → Option UpstreamResponse

pub record Reads : Type 0 where
  pub on_request : PluginSources
  pub on_route : PluginSources
  pub on_transform : PluginSources
  pub on_response : PluginSources
  pub pool : UpstreamPool

abbrev pub all_headers : (String → String → Bool) → StrMap String → Bool
all_headers valid [] = true
all_headers valid ((k, v) ∷ headers) = valid k v && all_headers valid headers

-- `builder.status(…)`, `header(…)` for each header, `body(…)`: `none` is the error.
unfoldable pub build_response : Http → ℕ → StrMap String → Bytes → Option Response
build_response http status headers body =
    if http.valid_status status && all_headers http.valid_header headers
    then some (record { status = status; headers = headers; body = body })
    else none

unfoldable pub error_body : ℕ → String → Bytes
unfolding as_bytes decimal
error_body status msg =
    codes "{\"error\":\""
    ++ (as_bytes msg ++ (codes "\",\"status\":" ++ (decimal status ++ codes "}")))

abbrev pub json_headers : StrMap String
json_headers = ("content-type", "application/json") ∷ []

-- The `unwrap` panics at a status that is none.
unfoldable pub error_response : Http → ℕ → String → Run Response
unfolding build_response error_body
error_response http status msg =
    unwrap (build_response http status json_headers (error_body status msg))

module _ (to_lowercase : String → String) where
  -- The loops over the headers of a request and of an upstream's answer.
  unfoldable pub collect_headers : RawHeaders → StrMap String → StrMap String
  collect_headers [] headers = headers
  collect_headers ((k, none) ∷ raw) headers = collect_headers raw headers
  collect_headers ((k, some v) ∷ raw) headers =
      collect_headers raw (insert (to_lowercase k) v headers)

  abbrev answer_of : UpstreamResponse → Option Bytes → Option (ℕ × StrMap String × Bytes)
  answer_of r none = none
  answer_of r (some body) = some (r.status, collect_headers r.headers [], body)

  abbrev pub answered : Option UpstreamResponse → Option (ℕ × StrMap String × Bytes)
  answered none = none
  answered (some r) = answer_of r r.body

  unfoldable pub forward_request :
      Http → String → String → StrMap String → Bytes → Option (ℕ × StrMap String × Bytes)
  unfolding collect_headers
  forward_request http method url headers body =
      if http.parses_uri url && all_headers http.valid_header headers
      then answered (http.send method url headers body)
      else none

-- The address that the proxy goes by: `x-real-ip`, else `x-forwarded-for`, else the peer's.
unfoldable pub client_ip_of : StrMap String → String → String
client_ip_of headers peer = elim (lookup "x-real-ip" headers) [
  | some h ↦ h
  | none ↦ elim (lookup "x-forwarded-for" headers) [ some h ↦ h | none ↦ peer ]
]

unfoldable pub forward_headers : String → StrMap String → StrMap String
forward_headers ip headers =
    insert "x-proxy" "rust-lua-proxy/0.1" (insert "x-forwarded-for" ip headers)

abbrev pub or_default : Option String → String
or_default (some name) = name
or_default none = "default"

-- What the handler has read of a request before the plugins run.
pub record Parsed : Type 0 where
  pub method : String
  pub path : String
  pub headers : StrMap String
  pub ip : String
  pub body : Bytes

-- The body of the response: the context's, or the upstream's if that is empty.
abbrev pub choose_body : Bytes → Bytes → Bytes
choose_body [] upstream_body = upstream_body
choose_body (b ∷ bs) upstream_body = b ∷ bs

module _ (to_lowercase : String → String) (hash_key : String → ℕ) (from_utf8_lossy : Bytes → Bytes)
    (vm : Vm) (http : Http) where
  -- What handling a request leaves: the response, `none` where the handler answers an error, the
  -- machine, the pool and the metrics.
  pub record Handled : Type 0 where
    pub response : Option Response
    pub machine : vm.State
    pub pool : UpstreamPool
    pub metrics : Metrics

  -- The end of a request: the timer is observed.
  abbrev end : Option Response → vm.State → UpstreamPool → Metrics → Handled
  end response machine pool metrics = record {
    response = response;
    machine = machine;
    pool = pool;
    metrics = observe metrics;
  }

  abbrev pub end_with : Run Response → vm.State → UpstreamPool → Metrics → Run Handled
  end_with response machine pool metrics = do
    r ← response
    returned (end (some r) machine pool metrics)

  -- The answer of the upstream enters the context, `on_response` runs, the response is put
  -- together.
  unfoldable pub respond :
      Reads → UpstreamPool → Metrics → Session to_lowercase vm → ℕ × StrMap String × Bytes → Handled
  respond reads pool metrics (s, c) (status, headers, body) =
      let answered = record c {
        res_status = status;
        res_headers = headers;
        res_body = from_utf8_lossy body;
      } in
      let (s', final) = run_on_response to_lowercase vm reads.on_response (s, answered) in
      end (build_response http final.res_status final.res_headers (choose_body final.res_body body))
        s' pool metrics

  abbrev pub forwarded :
      Reads
      → UpstreamPool
      → Metrics
      → Session to_lowercase vm
      → Option (ℕ × StrMap String × Bytes)
      → Run Handled
  forwarded reads pool metrics st none =
      end_with (error_response http 502 "Bad Gateway") st.0 pool metrics
  forwarded reads pool metrics st (some answer) = returned (respond reads pool metrics st answer)

  -- Stage 6, with the URL that the pool gives.
  unfoldable pub forward :
      Reads
      → UpstreamPool
      → Metrics
      → Session to_lowercase vm
      → Parsed
      → Option String
      → Run Handled
  forward reads pool metrics st req none =
      end_with (error_response http 503 "Service Unavailable") st.0 pool metrics
  forward reads pool metrics (s, c) req (some target) =
      forwarded reads pool metrics (s, c)
        (forward_request to_lowercase http req.method (concat (trim_end_slashes target) req.path)
          (forward_headers req.ip c.req_headers) req.body)

  -- Stages 4 to 8, after `on_request` has let the request pass.
  unfoldable pub proceed : Reads → Metrics → Session to_lowercase vm → Parsed → Run Handled
  proceed reads metrics st req =
      let (upstream, routed) = run_on_route to_lowercase vm reads.on_route st in
      let transformed = run_on_transform to_lowercase vm reads.on_transform routed in
      do
        (url, pool) ← next_url hash_key (or_default upstream) (some req.ip) reads.pool
        forward reads pool metrics transformed req url

  abbrev pub decide :
      Reads → Metrics → Session to_lowercase vm → Parsed → Option (ℕ × String) → Run Handled
  decide reads metrics st req none = proceed reads metrics st req
  decide reads metrics st req (some (status, msg)) =
      end_with (error_response http status msg) st.0 reads.pool (inc "rejected" metrics)

  -- The context after stages 2 and 3.
  unfoldable pub after_on_request : Reads → vm.State → Parsed → Session to_lowercase vm
  after_on_request reads machine req =
      run_on_request to_lowercase vm reads.on_request
        (machine, new_ctx req.method req.path req.headers (from_utf8_lossy req.body) req.ip)

  unfoldable pub admit : Reads → Metrics → vm.State → Parsed → Run Handled
  admit reads metrics machine req =
      let st = after_on_request reads machine req in decide reads metrics st req st.1.rejected

  -- Stage 1, once the body is there.
  unfoldable pub parse : Request → Bytes → String → Parsed
  parse req body peer =
      let headers = collect_headers to_lowercase req.headers [] in
      record {
        method = req.method;
        path = req.path;
        headers = headers;
        ip = client_ip_of headers peer;
        body = body;
      }

  abbrev pub collected : Reads → Metrics → vm.State → Request → String → Option Bytes → Run Handled
  collected reads metrics machine req peer none = returned (end none machine reads.pool metrics)
  collected reads metrics machine req peer (some body) =
      admit reads metrics machine (parse req body peer)

  unfoldable pub handle_request : Reads → Option Metrics → vm.State → Request → String → Run Handled
  handle_request reads metrics machine req peer = do
    m ← unwrap metrics
    collected reads (inc req.method m) machine req peer req.body
