-- ===== src/Tests/Programs.antt =====
-- Examples of the reloads, of the watch, of the admin API and of the start.
use dgsw_class_pg_proxy.Prelude.{
  ◌≡◌, ◌⊎◌, refl, String, true, false, Option, none, some, [], ◌∷◌, str_eq,
}
use dgsw_class_pg_proxy.Prelude.Run.{Run, returned}
use dgsw_class_pg_proxy.Prelude.Text.{Bytes, codes}
use dgsw_class_pg_proxy.Config.{
  Config, ConfigError, ConfigResult, loaded, failed, TlsConfig, PluginsConfig, RawConfig, config_of,
}
use dgsw_class_pg_proxy.Config
use dgsw_class_pg_proxy.Lua.Sources.{PluginSources}
use dgsw_class_pg_proxy.Metrics.{Metrics, no_metrics}
use dgsw_class_pg_proxy.Handler.{Response, Handled, handle_request, json_headers, build_response}
use dgsw_class_pg_proxy.Tls.{TlsLib, TlsError, HotTlsAcceptor}
use dgsw_class_pg_proxy.Watcher.{Event, create, relevant, is_lua, extension, run}
use dgsw_class_pg_proxy.Watcher.Debounce.{Window, is_touched, all_signals, fresh, run-fresh}
use dgsw_class_pg_proxy.Admin.{AdminState, handle_admin, not_found_body}
use dgsw_class_pg_proxy.Server.{
  System, Started, started, stopped, bad_config, no_watcher, servers, start,
}
use dgsw_class_pg_proxy.Server.Serving.{Watched, Listens, start_lem}
use dgsw_class_pg_proxy.Tests.{same_text, hash, lossy, http, vm, reads, request}

-- A library whose certificates, keys and acceptors are bytes.
abbrev tls_lib : TlsLib
tls_lib = record {
  Cert = Bytes;
  Key = Bytes;
  Acceptor = Bytes;
  parse_certs = λ bs. some (bs ∷ []);
  parse_keys = λ bs. some (bs ∷ []);
  with_single_cert = λ certs key. some key;
}

abbrev tls_config : TlsConfig
tls_config = record { cert = "cert.pem"; key = "key.pem" }

abbrev no_files : String → Option Bytes
no_files path = none

abbrev new_files : String → Option Bytes
new_files path = some (1 ∷ [])

abbrev acceptor : HotTlsAcceptor tls_lib
acceptor = record { inner = 0 ∷ []; cfg = tls_config }

abbrev plugins_config : PluginsConfig
plugins_config = record { dir = "plugins"; pipeline = "log.lua" ∷ [] }

abbrev texts : String → Option String
texts path = some "text"

abbrev lua_event : Event
lua_event = record { kind = create; paths = codes "plugins/log.lua" ∷ [] }

abbrev window : Window
window = record { events = lua_event ∷ lua_event ∷ []; files = texts }

abbrev first_sources : PluginSources
first_sources = record { pipeline = "log.lua" ∷ []; sources = [] }

touched : is_touched window ≡ true
unfolding relevant is_lua extension
touched = refl

run-fresh_example :
    run plugins_config
      (all_signals plugins_config (window ∷ window ∷ []))
      (record { pending = false; sources = first_sources })
    ≡ record {
      pending = false;
      sources = fresh plugins_config (window ∷ window ∷ []) first_sources;
    }
run-fresh_example = run-fresh plugins_config (window ∷ window ∷ []) first_sources

abbrev show : TlsError → Bytes
show e = codes "error"

abbrev encode : Metrics → Bytes
encode m = codes "metrics"

abbrev State : Type 0
State = AdminState http tls_lib show encode

abbrev state : State
state = record { sources = first_sources; tls = none; metrics = some no_metrics }

abbrev not_found_answer : Response
not_found_answer = record { status = 404; headers = json_headers; body = not_found_body }

abbrev method : String
method = "GET"

abbrev path : String
path = "/reload"

not_found_returns :
    handle_admin http tls_lib show encode texts no_files plugins_config method path state
    ≡ returned (some not_found_answer, state)
unfolding handle_admin build_response str_eq
not_found_returns = refl

abbrev raw : RawConfig
raw = record {
  listener = record { addr = "0.0.0.0:443"; http_addr = "0.0.0.0:80"; workers = none };
  tls = tls_config;
  admin = record { addr = "127.0.0.1:9090" };
  plugins = plugins_config;
  upstream = [];
}

-- Only the address of the admin API is free.
abbrev system : System
system = record {
  argument = none;
  read_to_string = texts;
  from_str = λ text. some raw;
  exists = λ path. true;
  open_file = new_files;
  notify = record { creates = true; watch = λ dir. true };
  binds = λ l addr. str_eq addr "127.0.0.1:9090";
}

start_lem_example :
    ((e : ConfigError) × (Config.load texts (λ text. some raw) "proxy.toml" ≡ failed e)
      × (start tls_lib system ≡ stopped (bad_config e)))
    ⊎ ((cfg : Config) × (Config.load texts (λ text. some raw) "proxy.toml" ≡ loaded cfg)
        × (((¬ Watched tls_lib system cfg) × (start tls_lib system ≡ stopped no_watcher))
            ⊎ (Watched tls_lib system cfg
                × ((s : Started tls_lib) × (start tls_lib system ≡ started s)
                    × Listens tls_lib system cfg s))))
start_lem_example = start_lem tls_lib system

-- The program goes on without HTTP and HTTPS where their addresses are taken.
unbound : (servers tls_lib system (config_of raw)).http ≡ none
unfolding servers str_eq config_of
unbound = refl

abbrev handled : Run (Handled same_text hash lossy vm http)
handled =
    handle_request same_text hash lossy vm http (reads []) (some no_metrics) none request "peer"
