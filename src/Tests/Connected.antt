-- ===== src/Tests/Connected.antt =====
-- Examples of connections whose machine runs the five plugins.
use dgsw_class_pg_proxy.Prelude.{◌≡◌, refl, Option, some, List, [], ◌∷◌, All}
use dgsw_class_pg_proxy.Prelude.Maps.{StrMap}
use dgsw_class_pg_proxy.Prelude.Run.{returned}
use dgsw_class_pg_proxy.Lua.Globals.{Global, setup_globals}
use dgsw_class_pg_proxy.Metrics.{Metrics, no_metrics}
use dgsw_class_pg_proxy.Handler.{Response}
use dgsw_class_pg_proxy.Server.Connections.{Exchange, new_engine, connection}
use dgsw_class_pg_proxy.Plugins.Machine.{Globals, sample_vm}
use dgsw_class_pg_proxy.Plugins.Machine.Served.{Each, Ready, Guarded, connection-guards}
use dgsw_class_pg_proxy.Tests.{same_text, hash, lossy, http, http_laws}
use dgsw_class_pg_proxy.Tests.Machine.{outside, used, bare, sample_reads, files_there}

-- A request without credentials, and one with a key.
abbrev two_requests : List Exchange
two_requests =
    record { reads = sample_reads; req = bare }
    ∷ record {
      reads = sample_reads;
      req = record bare { headers = ("x-api-key", some "test-api-key-admin") ∷ [] };
    }
    ∷ []

abbrev always_used : StrMap Global → Option Globals
always_used made = some used

two-Ready : All (Ready same_text hash lossy outside http http_laws "10.0.0.1") two_requests
two-Ready = ((refl, files_there), ((refl, files_there), tt))

engine_made :
    new_engine same_text hash lossy (sample_vm outside) http always_used [] []
    ≡ returned (some used)
unfolding new_engine setup_globals
engine_made = refl

connection-guards_example :
    (answers : List Response) × (m' : Metrics) × (connection same_text hash lossy
        (sample_vm outside)
        http
        always_used
        []
        []
        (some no_metrics)
        "10.0.0.1"
        two_requests
      ≡ (answers, returned (some m')))
    × Each (Guarded same_text hash lossy outside http http_laws "10.0.0.1") two_requests answers
connection-guards_example =
    connection-guards same_text hash lossy outside http http_laws "10.0.0.1" always_used [] []
      no_metrics used two_requests engine_made two-Ready
