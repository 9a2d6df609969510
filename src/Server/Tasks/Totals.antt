-- ===== src/Server/Tasks/Totals.antt =====
-- metrics.rs and handler.rs: the counters of the running program, whatever the order of its steps.
use dgsw_class_pg_proxy.Prelude.{ℕ, ◌+◌, ◌≡◌, ap, String, false, [], arith, str_eq}
use dgsw_class_pg_proxy.Prelude.Text.{Bytes}
use dgsw_class_pg_proxy.Upstream.Pool.{HealthClient}
use dgsw_class_pg_proxy.Lua.Engine.{Vm}
use dgsw_class_pg_proxy.Metrics.{Metrics, count}
use dgsw_class_pg_proxy.Handler.{Http}
use dgsw_class_pg_proxy.Server.Tasks.{
  waiting, step, Task, World, WorldStep, arrive, advance, exchange, check, Reach, here, after,
}
use dgsw_class_pg_proxy.Server.Tasks.Sums.{sum, sum_nil, sum_cons, sum-set}
use dgsw_class_pg_proxy.Server.Tasks.Adds.{over, counted, step-Adds}

module _ (lower : String → String) (hash_key : String → ℕ) (lossy : Bytes → Bytes) (vm : Vm)
    (http : Http) where
  abbrev Job : Type 0
  Job = Task lower hash_key lossy vm http

  abbrev Whole : Type 0
  Whole = World lower hash_key lossy vm http

  abbrev pub over_task : Job → ℕ
  over_task t = over lower hash_key lossy vm http t.phase

  -- The observations are those of the start and one for each ended task; the counters likewise.
  abbrev Totals : Metrics → Whole → Type 0
  Totals m w =
      (w.shared.metrics.req_duration ≡ m.req_duration + sum over_task w.tasks)
      × ((l : String)
          → str_eq "rejected" l ≡ false
          → count l w.shared.metrics
            ≡ count l m + sum (counted lower hash_key lossy vm http l) w.tasks)

  WorldStep-Totals :
      (client : HealthClient) (m : Metrics) (w w' : Whole)
      → WorldStep lower hash_key lossy vm http client w w'
      → Totals m w
      → Totals m w'
  WorldStep-Totals client m w w' (arrive req peer s) (a, b) = (
    omega (
      arith,
      a,
      sum_cons over_task (record { req = req; peer = peer; phase = waiting s }) w.tasks,
    ),
    λ l h. omega (
      arith,
      b l h,
      sum_cons (counted lower hash_key lossy vm http l)
          (record { req = req; peer = peer; phase = waiting s }) w.tasks,
    ),
  )
  WorldStep-Totals client m w w' (advance i t at) (a, b) =
      let t' : Job = record t {
        phase = (step lower hash_key lossy vm http t.req t.peer w.shared t.phase).0;
      } in
      let (c, d) = step-Adds lower hash_key lossy vm http t.req t.peer w.shared t.phase in
      (
        omega (arith, a, c, sum-set over_task w.tasks i t t' at),
        λ l h. omega (
          arith,
          b l h,
          d l h,
          sum-set (counted lower hash_key lossy vm http l) w.tasks i t t' at,
        ),
      )
  WorldStep-Totals client m w w' (exchange sources) (a, b) = (a, b)
  WorldStep-Totals client m w w' (check p) (a, b) = (a, b)

  Reach-Totals :
      (client : HealthClient) (start w : Whole)
      → start.tasks ≡ []
      → Reach lower hash_key lossy vm http client start w
      → Totals start.shared.metrics w
  Reach-Totals client start _ none_yet here = (
    omega (arith, sum_nil over_task, ap (sum over_task) none_yet),
    λ l h. omega (
      arith,
      sum_nil (counted lower hash_key lossy vm http l),
      ap (sum (counted lower hash_key lossy vm http l)) none_yet,
    ),
  )
  Reach-Totals client start w' none_yet (after {w} r s) =
      WorldStep-Totals client start.shared.metrics w w' s (Reach-Totals client start w none_yet r)

  -- From a start without tasks, whatever the order in which requests come in and take their steps,
  -- reloads exchange the sources and health checks end: at every point the histogram has one
  -- observation more than at the start for each task that has ended, in whatever way, and the
  -- counter of every label but "rejected" has grown by the number of tasks of that method that have
  -- begun.
  pub Reach-totals :
      (client : HealthClient) (start w : Whole) (l : String)
      → start.tasks ≡ []
      → str_eq "rejected" l ≡ false
      → Reach lower hash_key lossy vm http client start w
      → (w.shared.metrics.req_duration ≡ start.shared.metrics.req_duration + sum over_task w.tasks)
        × (count l w.shared.metrics
            ≡ count l start.shared.metrics + sum (counted lower hash_key lossy vm http l) w.tasks)
  Reach-totals client start w l none_yet h r =
      let (a, b) = Reach-Totals client start w none_yet r in (a, b l h)
