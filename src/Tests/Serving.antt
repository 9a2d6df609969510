-- ===== src/Tests/Serving.antt =====
-- Examples of connections and of the admin API's server.
use dgsw_class_pg_proxy.Prelude.{
  ℕ, ◌≡◌, ◌⊎◌, refl, String, true, false, Option, none, some, List, [], ◌∷◌, ◌++◌, length, In,
  str_eq,
}
use dgsw_class_pg_proxy.Prelude.Maps.{StrMap}
use dgsw_class_pg_proxy.Prelude.Run.{Run, returned, panicked}
use dgsw_class_pg_proxy.Prelude.Text.{Bytes}
use dgsw_class_pg_proxy.Config.{TlsConfig, PluginsConfig}
use dgsw_class_pg_proxy.Lua.Globals.{Vars, Global, setup_globals}
use dgsw_class_pg_proxy.Metrics.{Metrics, no_metrics}
use dgsw_class_pg_proxy.Handler.{Response}
use dgsw_class_pg_proxy.Tls.{TlsLib, TlsError, HotTlsAcceptor}
use dgsw_class_pg_proxy.Tls.Reload.{last_built}
use dgsw_class_pg_proxy.Admin.{AdminState}
use dgsw_class_pg_proxy.Admin.Serving.{AdminEvent, asked, exchanged, serve_admin}
use dgsw_class_pg_proxy.Admin.Serving.Routing.{reloaded}
use dgsw_class_pg_proxy.Admin.Serving.Effects.{asked_in, last_sources, tls_reloads, serve_admin_lem}
use dgsw_class_pg_proxy.Server.Connections.{
  TlsEvent, incoming, broken, reloading, run_https_server, Exchange, connection,
}
use dgsw_class_pg_proxy.Server.Connections.Acceptors.{reloads_of, run_https_server-acceptor}
use dgsw_class_pg_proxy.Server.Connections.Answers.{Answered, connection_lem}
use dgsw_class_pg_proxy.Tests.{same_text, hash, lossy, http, http_laws, vm, plugins, reads, request}

other_label : str_eq "rejected" "GET" ≡ false
unfolding str_eq
other_label = refl

-- A library whose certificates, keys and acceptors are bytes.
abbrev tls_lib : TlsLib
tls_lib = record {
  Cert = Bytes;
  Key = Bytes;
  Acceptor = Bytes;
  parse_certs = λ bs. some (bs ∷ []);
  parse_keys = λ bs. some (bs ∷ []);
  with_single_cert = λ certs key. some key;
}

abbrev tls_config : TlsConfig
tls_config = record { cert = "cert.pem"; key = "key.pem" }

abbrev new_files : String → Option Bytes
new_files path = some (1 ∷ [])

abbrev acceptor : HotTlsAcceptor tls_lib
acceptor = record { inner = 0 ∷ []; cfg = tls_config }

abbrev before : List (TlsEvent tls_lib ℕ)
before = incoming 1 "first" ∷ reloading new_files ∷ []

run_https_server-acceptor_example :
    ((¬ In broken before)
      × ((more : List (Bytes × ℕ × String)) × ((run_https_server tls_lib ℕ true acceptor
              (before ++ (incoming 2 "second" ∷ broken ∷ []))).0
            ≡ (run_https_server tls_lib ℕ true acceptor before).0
              ++ ((
                last_built tls_lib tls_config (reloads_of tls_lib ℕ before) (0 ∷ []),
                2,
                "second",
              )
                  ∷ more))))
    ⊎ (In broken before
        × (run_https_server tls_lib ℕ true acceptor (before ++ (incoming 2 "second" ∷ broken ∷ []))
            ≡ ((run_https_server tls_lib ℕ true acceptor before).0, true)))
run_https_server-acceptor_example =
    run_https_server-acceptor tls_lib ℕ acceptor before (broken ∷ []) 2 "second"

abbrev vars : Vars
vars = some ("HOME", "/root") ∷ []

abbrev no_plugin : StrMap Global → Option (Option String)
no_plugin globals = some none

abbrev requests : List Exchange
requests =
    record { reads = reads ("log.lua" ∷ []); req = request }
    ∷ record { reads = reads ("deny.lua" ∷ []); req = request }
    ∷ []

abbrev connected : List Response × Run (Option Metrics)
connected =
    connection same_text hash lossy vm http no_plugin vars [] (some no_metrics) "peer" requests

connection_lem_example :
    (In none vars × (connected ≡ ([], panicked)))
    ⊎ ((made : StrMap Global) × (setup_globals vars [] ≡ returned made)
        × (((no_plugin made ≡ none) × (connected ≡ ([], returned (some no_metrics))))
            ⊎ Answered same_text hash lossy vm http http_laws "GET" no_metrics requests connected))
connection_lem_example =
    connection_lem same_text hash lossy vm http http_laws no_plugin vars [] "GET" "peer" requests
      no_metrics other_label

abbrev show : TlsError → Bytes
show e = []

abbrev encode : Metrics → Bytes
encode m = []

abbrev plugins_config : PluginsConfig
plugins_config = record { dir = "plugins"; pipeline = "log.lua" ∷ [] }

abbrev texts : String → Option String
texts path = some "text"

abbrev admin_state : AdminState http tls_lib show encode
admin_state = record {
  sources = plugins ("log.lua" ∷ []);
  tls = some acceptor;
  metrics = some no_metrics;
}

abbrev events : List AdminEvent
events =
    asked "POST" "/reload/tls" texts new_files
    ∷ exchanged (plugins ("deny.lua" ∷ []))
    ∷ asked "POST" "/reload" texts new_files
    ∷ asked "GET" "/metrics" texts new_files
    ∷ []

serve_admin_lem_example :
    (length (serve_admin http tls_lib show encode plugins_config events admin_state).0
      ≡ asked_in events)
    × ((st' : AdminState http tls_lib show encode) × ((serve_admin http tls_lib show encode
            plugins_config events admin_state).1
          ≡ returned st')
        × (st'.sources ≡ last_sources plugins_config events (plugins ("log.lua" ∷ [])))
        × (st'.tls ≡ reloaded tls_lib (tls_reloads events) (some acceptor))
        × (st'.metrics ≡ some no_metrics))
serve_admin_lem_example =
    serve_admin_lem http http_laws tls_lib show encode plugins_config refl events admin_state
      no_metrics refl
