-- ===== src/Tests/Running.antt =====
-- Examples of requests that run at the same time.
use dgsw_class_pg_proxy.Prelude.{
  ◌+◌, ◌≡◌, refl, String, true, false, none, some, List, [], ◌∷◌, str_eq,
}
use dgsw_class_pg_proxy.Config.{UpstreamConfig}
use dgsw_class_pg_proxy.Metrics.{no_metrics, count}
use dgsw_class_pg_proxy.Upstream.Pool.{HealthClient, init, new_pool}
use dgsw_class_pg_proxy.Handler.{handle_request, Parsed, after_on_request}
use dgsw_class_pg_proxy.Server.Tasks.{
  Shared, Phase, waiting, targeted, step, Task, World, arrive, advance, Reach, here, after,
}
use dgsw_class_pg_proxy.Server.Tasks.Sums.{sum}
use dgsw_class_pg_proxy.Server.Tasks.Refinement.{reads_at, outcome, run, run-handle_request}
use dgsw_class_pg_proxy.Server.Tasks.Totals.{over_task, Reach-totals}
use dgsw_class_pg_proxy.Server.Tasks.Adds.{counted}
use dgsw_class_pg_proxy.Lua.Engine.{Session, run_on_request, run_on_route}
use dgsw_class_pg_proxy.Lua.Context.{new_ctx}
use dgsw_class_pg_proxy.Upstream.Balancer.{new_target, make_balancer, next, round_robin_next}
use dgsw_class_pg_proxy.Upstream.Pool.{resolve, next_url}
use dgsw_class_pg_proxy.Prelude.Maps.{lookup, insert}
use dgsw_class_pg_proxy.Server.Tasks.Targets.{IsConfigured, Reach-configured}
use dgsw_class_pg_proxy.Tests.{same_text, hash, lossy, http, vm, plugins, pool, request}

abbrev shared : List String → Shared
shared names = record { sources = plugins names; pool = pool; metrics = no_metrics }

abbrev quiet : Shared
quiet = shared ("log.lua" ∷ [])

-- The sources are exchanged between the second step and the third.
abbrev later : Shared
later = shared ("red.lua" ∷ [])

run-handle_request_example :
    run same_text hash lossy vm http request "peer"
      (quiet ∷ quiet ∷ later ∷ later ∷ later ∷ later ∷ later ∷ [])
      (waiting none)
    ≡ outcome same_text hash lossy vm http (
        handle_request same_text hash lossy vm http
          (reads_at quiet later later later later)
          (some no_metrics)
          none
          request
          "peer")
run-handle_request_example =
    run-handle_request same_text hash lossy vm http request "peer" no_metrics none quiet quiet later
      later later later later

other_label : str_eq "rejected" "GET" ≡ false
unfolding str_eq
other_label = refl

abbrev client : HealthClient
client = record { parses = λ url. true; head = λ url. some 200 }

abbrev world : World same_text hash lossy vm http
world = record { shared = quiet; tasks = [] }

abbrev task : Task same_text hash lossy vm http
task = record { req = request; peer = "peer"; phase = waiting none }

abbrev stepped : Phase same_text hash lossy vm http × Shared
stepped = step same_text hash lossy vm http request "peer" quiet (waiting none)

abbrev world' : World same_text hash lossy vm http
world' = record { shared = stepped.1; tasks = record task { phase = stepped.0 } ∷ [] }

-- A request comes in and makes its first step.
abbrev row : Reach same_text hash lossy vm http client world world'
row = after (after here (arrive request "peer" none)) (advance 0 task refl)

Reach-totals_example :
    (stepped.1.metrics.req_duration ≡ 0 + sum (over_task same_text hash lossy vm http) world'.tasks)
    × (count "GET" stepped.1.metrics
        ≡ count "GET" no_metrics + sum (counted same_text hash lossy vm http "GET") world'.tasks)
Reach-totals_example =
    Reach-totals same_text hash lossy vm http client world world' "GET" refl other_label row

-- A request comes in and makes five steps, up to the choice of its URL.
abbrev configs : List UpstreamConfig
configs =
    record {
      name = "default";
      targets = "http://two" ∷ [];
      lb = "round_robin";
      health_check_path = "/health";
      health_check_interval = 10;
    }
    ∷ []

abbrev at_start : World same_text hash lossy vm http
at_start = record {
  shared = record { sources = plugins []; pool = init configs new_pool; metrics = no_metrics };
  tasks = [];
}

abbrev Point : Type 0
Point = Phase same_text hash lossy vm http × Shared

abbrev point : Point → World same_text hash lossy vm http
point (ph, sh) = record { shared = sh; tasks = record task { phase = ph } ∷ [] }

abbrev turn : Point → Point
turn (ph, sh) = step same_text hash lossy vm http request "peer" sh ph

turned :
    (q : Point)
    → Reach same_text hash lossy vm http client at_start (point q)
    → Reach same_text hash lossy vm http client at_start (point (turn q))
turned (ph, sh) r = after r (advance 0 (record task { phase = ph }) refl)

abbrev first : Point
first = (waiting none, at_start.shared)

abbrev fifth : Point
fifth = turn (turn (turn (turn (turn first))))

fifth_reached : Reach same_text hash lossy vm http client at_start (point fifth)
fifth_reached =
    turned _
      (turned _ (turned _ (turned _ (turned first (after here (arrive request "peer" none))))))

stands : (st : Session same_text vm) × (p : Parsed) × (fifth.0 ≡ targeted (some "http://two") st p)
unfolding step init lookup insert new_target make_balancer str_eq resolve next_url next
    round_robin_next after_on_request run_on_request run_on_route new_ctx
stands = (_, _, refl)

Reach-configured_example : IsConfigured configs "http://two"
Reach-configured_example =
    Reach-configured configs same_text hash lossy vm http client at_start (point fifth) 0
      (record task { phase = fifth.0 }) "http://two" stands.0 stands.1 refl refl fifth_reached refl
      stands.2
