-- ===== src/Server.antt =====
-- src/main.rs: the start of the program, and what a connection makes of the handler's result. The
-- command line, the sockets, the runtime and the watch of the files are parameters.
pub mod Serving
pub mod Connections
pub mod Tasks
use dgsw_class_pg_proxy.Prelude.{
  ℕ, String, Bool, true, false, Option, none, some, List, [], ◌∷◌, if◌then◌else◌,
}
use dgsw_class_pg_proxy.Prelude.Run.{Run, returned, panicked, ◌>>=◌}
use dgsw_class_pg_proxy.Prelude.Text.{Bytes}
use dgsw_class_pg_proxy.Config.{
  Config, TlsConfig, PluginsConfig, RawConfig, ConfigError, ConfigResult, loaded, failed, load,
}
use dgsw_class_pg_proxy.Lua.Sources
use dgsw_class_pg_proxy.Lua.Sources.{PluginSources}
use dgsw_class_pg_proxy.Lua.Engine.{Vm}
use dgsw_class_pg_proxy.Lua.Context.{is_some}
use dgsw_class_pg_proxy.Watcher.{Notify, spawn_watcher}
use dgsw_class_pg_proxy.Metrics
use dgsw_class_pg_proxy.Metrics.{Metrics}
use dgsw_class_pg_proxy.Upstream.Pool
use dgsw_class_pg_proxy.Upstream.Pool.{UpstreamPool, new_pool}
use dgsw_class_pg_proxy.Handler.{
  Http, Request, Response, Reads, Handled, handle_request, error_response,
}
use dgsw_class_pg_proxy.Tls.{TlsLib, TlsError, Result, ok, err, HotTlsAcceptor, new_acceptor}

pub data Listener : Type 0 where
  admin_api http_proxy https_proxy : Listener

-- What the program is given: its argument, and how the system behaves while it starts. `binds` is
-- whether a listener's `bind` to an address succeeds.
pub record System : Type 0 where
  pub argument : Option String
  pub read_to_string : String → Option String
  pub from_str : String → Option RawConfig
  pub exists : String → Bool
  pub open_file : String → Option Bytes
  pub notify : Notify
  pub binds : Listener → String → Bool

abbrev pub config_path : Option String → String
config_path none = "proxy.toml"
config_path (some path) = path

pub data StartError : Type 0 where
  bad_config : ConfigError → StartError
  no_watcher : StartError

module _ (tls_lib : TlsLib) where
  -- The servers that listen, at their addresses. A server whose `bind` fails has ended with a line
  -- in the log, and the program goes on without it; the one for HTTPS is started with an acceptor
  -- only.
  pub record Started : Type 0 where
    pub cfg : Config
    pub sources : PluginSources
    pub metrics : Option Metrics
    pub pool : UpstreamPool
    pub admin : Option String
    pub http : Option String
    pub https : Option (String × HotTlsAcceptor tls_lib)

  pub data Startup : Type 0 where
    started : Started → Startup
    stopped : StartError → Startup

  abbrev accepted : Result (HotTlsAcceptor tls_lib) → Option (HotTlsAcceptor tls_lib)
  accepted (ok a) = some a
  accepted (err e) = none

  unfoldable pub tls_acceptor : System → TlsConfig → Option (HotTlsAcceptor tls_lib)
  tls_acceptor sys cfg =
      if sys.exists cfg.cert then accepted (new_acceptor tls_lib sys.open_file cfg) else none

  -- A server's task, up to its loop.
  abbrev listening : System → Listener → String → Option String
  listening sys l addr = if sys.binds l addr then some addr else none

  abbrev https_of :
      System → String → Option (HotTlsAcceptor tls_lib) → Option (String × HotTlsAcceptor tls_lib)
  https_of sys addr none = none
  https_of sys addr (some a) = if sys.binds https_proxy addr then some (addr, a) else none

  unfoldable pub servers : System → Config → Started
  unfolding tls_acceptor
  servers sys cfg = record {
    cfg = cfg;
    sources = Sources.load sys.read_to_string cfg.plugins;
    metrics = Metrics.init none;
    pool = Pool.init cfg.upstream new_pool;
    admin = listening sys admin_api cfg.admin.addr;
    http = listening sys http_proxy cfg.listener.http_addr;
    https = https_of sys cfg.listener.addr (tls_acceptor sys cfg.tls);
  }

  -- Whether the watch of the files stands.
  unfoldable pub watches : System → Config → Bool
  unfolding spawn_watcher
  watches sys cfg =
      is_some (spawn_watcher sys.notify cfg.plugins (Sources.load sys.read_to_string cfg.plugins))

  -- The watch of the files is the only step after the configuration that ends the program.
  abbrev start_with : System → Config → Startup
  start_with sys cfg = if watches sys cfg then started (servers sys cfg) else stopped no_watcher

  abbrev configured : System → ConfigResult → Startup
  configured sys (failed e) = stopped (bad_config e)
  configured sys (loaded cfg) = start_with sys cfg

  -- `main`, up to the signal that it waits for.
  unfoldable pub start : System → Startup
  unfolding servers
  start sys = configured sys (load sys.read_to_string sys.from_str (config_path sys.argument))

module _ (to_lowercase : String → String) (hash_key : String → ℕ) (from_utf8_lossy : Bytes → Bytes)
    (vm : Vm) (http : Http) where
  abbrev answer :
      Handled to_lowercase hash_key from_utf8_lossy vm http
      → Option Response
      → Run (Response × Handled to_lowercase hash_key from_utf8_lossy vm http)
  answer h (some r) = returned (r, h)
  answer h none = do r ← error_response http 500 "Internal Server Error"; returned (r, h)

  -- `service_fn` of both servers.
  unfoldable pub service :
      Reads
      → Option Metrics
      → vm.State
      → Request
      → String
      → Run (Response × Handled to_lowercase hash_key from_utf8_lossy vm http)
  service reads metrics machine req peer = do
    h ← handle_request to_lowercase hash_key from_utf8_lossy vm http reads metrics machine req peer
    answer h h.response
