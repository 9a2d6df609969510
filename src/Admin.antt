-- ===== src/Admin.antt =====
-- src/admin.rs: the requests of the admin API. The state is what the handler shares with the rest
-- of the program: the plugins' sources, the TLS acceptor if there is one, and the metrics.
pub mod Routes
pub mod Serving
use mathlib.Core.Logic.{ite}
use dgsw_class_pg_proxy.Prelude.{
  ℕ, String, Bool, true, false, ◌&&◌, Option, none, some, List, [], ◌∷◌, ◌++◌, str_eq,
  if◌then◌else◌,
}
use dgsw_class_pg_proxy.Prelude.Maps.{StrMap}
use dgsw_class_pg_proxy.Prelude.Run.{Run, returned, unwrap, ◌>>=◌}
use dgsw_class_pg_proxy.Prelude.Text.{Bytes, codes, as_bytes}
use dgsw_class_pg_proxy.Config.{PluginsConfig}
use dgsw_class_pg_proxy.Lua.Sources.{PluginSources, load}
use dgsw_class_pg_proxy.Metrics.{Metrics, gather}
use dgsw_class_pg_proxy.Handler.{Http, Response, build_response, json_headers}
use dgsw_class_pg_proxy.Tls.{TlsLib, TlsError, Result, ok, err, HotTlsAcceptor, reload}

unfoldable pub ok_json : Http → Bytes → Option Response
ok_json http body = build_response http 200 json_headers body

-- `join(",")` of the quoted names.
unfoldable pub quoted_names : List String → Bytes
unfolding as_bytes
quoted_names [] = []
quoted_names (name ∷ []) = codes "\"" ++ (as_bytes name ++ codes "\"")
quoted_names (name ∷ next ∷ names) =
    codes "\"" ++ (as_bytes name ++ (codes "\"," ++ quoted_names (next ∷ names)))

unfoldable pub plugins_body : List String → Bytes
unfolding quoted_names
plugins_body pipeline = codes "{\"plugins\":[" ++ (quoted_names pipeline ++ codes "]}")

abbrev pub reloaded_body : Bytes
reloaded_body = codes "{\"status\":\"ok\",\"message\":\"plugins reloaded\"}"

abbrev pub tls_reloaded_body : Bytes
tls_reloaded_body = codes "{\"status\":\"ok\",\"message\":\"TLS reloaded\"}"

abbrev pub tls_disabled_body : Bytes
tls_disabled_body = codes "{\"status\":\"error\",\"message\":\"TLS not enabled\"}"

abbrev pub health_body : Bytes
health_body = codes "{\"status\":\"ok\"}"

abbrev pub not_found_body : Bytes
not_found_body = codes "{\"error\":\"not found\"}"

abbrev pub text_headers : StrMap String
text_headers = ("content-type", "text/plain; version=0.0.4") ∷ []

unfoldable pub error_json : Bytes → Bytes
error_json message = codes "{\"status\":\"error\",\"message\":\"" ++ (message ++ codes "\"}")

-- The routes of the `match` on the method and the path, in its order.
pub data Route : Type 0 where
  reload_plugins reload_tls get_metrics health list_plugins not_found : Route

unfoldable pub route_of : String → String → Route
route_of method path =
    if str_eq method "POST" && str_eq path "/reload"
    then reload_plugins
    else if str_eq method "POST" && str_eq path "/reload/tls"
    then reload_tls
    else if str_eq method "GET" && str_eq path "/metrics"
    then get_metrics
    else if str_eq method "GET" && str_eq path "/health"
    then health
    else if str_eq method "GET" && str_eq path "/plugins"
    then list_plugins
    else not_found

-- `show` is the text of an error, `encode` that of the metrics, `read_to_string` and `open_file`
-- are the files as they are at the request.
module _ (http : Http) (tls_lib : TlsLib) (show : TlsError → Bytes) (encode : Metrics → Bytes) where
  pub record AdminState : Type 0 where
    pub sources : PluginSources
    pub tls : Option (HotTlsAcceptor tls_lib)
    pub metrics : Option Metrics

  abbrev reload_answer : Result (Unit {0}) → Option Response
  reload_answer (ok u) = ok_json http tls_reloaded_body
  reload_answer (err e) = ok_json http (error_json (show e))

  abbrev on_tls :
      (String → Option Bytes)
      → Option (HotTlsAcceptor tls_lib)
      → Option Response × Option (HotTlsAcceptor tls_lib)
  on_tls open_file none = (ok_json http tls_disabled_body, none)
  on_tls open_file (some acceptor) =
      let (result, acceptor') = reload tls_lib open_file acceptor in
      (reload_answer result, some acceptor')

  unfoldable pub handle_route :
      (String → Option String)
      → (String → Option Bytes)
      → PluginsConfig
      → Route
      → AdminState
      → Run (Option Response × AdminState)
  handle_route read_to_string open_file cfg reload_plugins st =
      returned (ok_json http reloaded_body, record st { sources = load read_to_string cfg })
  handle_route read_to_string open_file cfg reload_tls st =
      let (response, tls) = on_tls open_file st.tls in returned (response, record st { tls = tls })
  handle_route read_to_string open_file cfg get_metrics st = do
    body ← gather encode st.metrics
    returned (build_response http 200 text_headers body, st)
  handle_route read_to_string open_file cfg health st = returned (ok_json http health_body, st)
  handle_route read_to_string open_file cfg list_plugins st =
      returned (ok_json http (plugins_body st.sources.pipeline), st)
  handle_route read_to_string open_file cfg not_found st =
      returned (build_response http 404 json_headers not_found_body, st)

  unfoldable pub handle_admin :
      (String → Option String)
      → (String → Option Bytes)
      → PluginsConfig
      → String
      → String
      → AdminState
      → Run (Option Response × AdminState)
  unfolding handle_route route_of
  handle_admin read_to_string open_file cfg method path st =
      handle_route read_to_string open_file cfg (route_of method path) st
