-- ===== src/Handler/Relay.antt =====
-- handler.rs without plugins: the handler as a reverse proxy.
use dgsw_class_pg_proxy.Prelude.{ℕ, String, ◌&&◌, Option, none, some, [], concat, if◌then◌else◌}
use dgsw_class_pg_proxy.Prelude.Maps.{StrMap, insert}
use dgsw_class_pg_proxy.Prelude.Run.{Run}
use dgsw_class_pg_proxy.Prelude.Text.{Bytes, trim_end_slashes}
use dgsw_class_pg_proxy.Upstream.Pool.{UpstreamPool}
use dgsw_class_pg_proxy.Lua.Sources.{PluginSources}
use dgsw_class_pg_proxy.Lua.Engine.{Vm}
use dgsw_class_pg_proxy.Metrics.{Metrics, observe}
use dgsw_class_pg_proxy.Handler
use dgsw_class_pg_proxy.Handler.{
  Http, Request, Response, UpstreamResponse, Reads, Parsed, Handled, all_headers, collect_headers,
  decide,
}
use dgsw_class_pg_proxy.Handler.Laws.{HttpLaws, LossyLaws}
use dgsw_class_pg_proxy.Handler.Errors.{json_error}

-- The sources of a pipeline that holds no plugin, and what a request reads then.
abbrev pub no_plugins : PluginSources
no_plugins = record { pipeline = []; sources = [] }

abbrev pub without_plugins : UpstreamPool → Reads
without_plugins pool = record {
  on_request = no_plugins;
  on_route = no_plugins;
  on_transform = no_plugins;
  on_response = no_plugins;
  pool = pool;
}

module _ (lower : String → String) (lossy : Bytes → Bytes) (http : Http) where
  -- What a client gets of the answer of an upstream: its status, its headers under names in lower
  -- case, and its body with a mark for what is no UTF-8; 502 where the body breaks off. An answer
  -- that the HTTP library does not take is the error of the handler.
  abbrev pub relayed_body : UpstreamResponse → Option Bytes → Option Response
  relayed_body r none = some (json_error 502 "Bad Gateway")
  relayed_body r (some body) =
      let headers = collect_headers lower r.headers [] in
      if http.valid_status r.status && all_headers http.valid_header headers
      then some (record { status = r.status; headers = headers; body = lossy body })
      else none

  abbrev pub relayed : Option UpstreamResponse → Option Response
  relayed none = some (json_error 502 "Bad Gateway")
  relayed (some r) = relayed_body r r.body

  -- A reverse proxy: the request goes to the URL as it came, with its headers under names in lower
  -- case and two more, and there is 503 without a URL and 502 where the request cannot be made.
  abbrev pub relay : Request → Bytes → StrMap String → String → Option String → Option Response
  relay req body headers ip none = some (json_error 503 "Service Unavailable")
  relay req body headers ip (some target) =
      let url = concat (trim_end_slashes target) req.path in
      let sent = insert "x-proxy" "rust-lua-proxy/0.1" (insert "x-forwarded-for" ip headers) in
      if http.parses_uri url && all_headers http.valid_header sent
      then relayed (http.send req.method url sent body)
      else some (json_error 502 "Bad Gateway")

module _ (lower : String → String) (hash_key : String → ℕ) (lossy : Bytes → Bytes)
    (lossy_laws : LossyLaws lossy) (vm : Vm) (http : Http) (laws : HttpLaws http)
    (pool : UpstreamPool) (m : Metrics) where
  abbrev End : Type 0
  End = Handled lower hash_key lossy vm http

  abbrev reads : Reads
  reads = without_plugins pool

  abbrev ends : Option Response → vm.State → UpstreamPool → End
  ends response machine pool' = record {
    response = response;
    machine = machine;
    pool = pool';
    metrics = observe m;
  }
