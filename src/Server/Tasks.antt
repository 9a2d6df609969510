-- ===== src/Server/Tasks.antt =====
-- src/handler.rs and src/main.rs: requests that run at the same time. A request is a task, and a
-- step of it is a stretch of `handle_request` that reads or writes what all tasks share at one
-- point at most: the metrics, the plugins' sources for the length of a hook, or the pool.
pub mod Refinement
pub mod Sums
pub mod Targets
pub mod Adds
pub mod Totals
use dgsw_class_pg_proxy.Prelude.{
  ℕ, ◌≡◌, String, Bool, true, false, Option, none, some, List, [], ◌∷◌, get_elem?, set, concat,
}
use dgsw_class_pg_proxy.Prelude.Maps.{StrMap}
use dgsw_class_pg_proxy.Prelude.Run.{Run, returned, panicked}
use dgsw_class_pg_proxy.Prelude.Text.{Bytes, trim_end_slashes}
use dgsw_class_pg_proxy.Upstream.Pool.{UpstreamPool, HealthClient, Probe, next_url, finish_probe}
use dgsw_class_pg_proxy.Lua.Sources.{PluginSources}
use dgsw_class_pg_proxy.Lua.Engine.{Vm, Session, run_on_route, run_on_transform}
use dgsw_class_pg_proxy.Metrics.{Metrics, inc, observe}
use dgsw_class_pg_proxy.Handler.{
  Http, Request, Response, Reads, Parsed, Handled, error_response, forward_request, forward_headers,
  respond, or_default, after_on_request, parse,
}

-- What all tasks share.
pub record Shared : Type 0 where
  pub sources : PluginSources
  pub pool : UpstreamPool
  pub metrics : Metrics

-- What a request reads that sees nothing but this.
abbrev pub reads_of : Shared → Reads
reads_of sh = record {
  on_request = sh.sources;
  on_route = sh.sources;
  on_transform = sh.sources;
  on_response = sh.sources;
  pool = sh.pool;
}

module _ (to_lowercase : String → String) (hash_key : String → ℕ) (from_utf8_lossy : Bytes → Bytes)
    (vm : Vm) (http : Http) where
  -- Where a task stands: before the first line, after the count of the method, rejected, after
  -- `on_request`, `on_route` and `on_transform`, after the choice of the URL, after the upstream's
  -- answer, at the end, and after a panic.
  pub data Phase : Type 0 where
    waiting received : vm.State → Phase
    refused : ℕ → String → vm.State → Phase
    admitted : Session to_lowercase vm → Parsed → Phase
    routed transformed targeted : Option String → Session to_lowercase vm → Parsed → Phase
    answered : Session to_lowercase vm → ℕ × StrMap String × Bytes → Phase
    finished : Option Response → vm.State → Phase
    crashed : Phase

  abbrev admit_or_refuse : Session to_lowercase vm → Parsed → Option (ℕ × String) → Phase
  admit_or_refuse st req none = admitted st req
  admit_or_refuse st req (some (status, msg)) = refused status msg st.0

  abbrev ended : Run Response → vm.State → Phase
  ended (returned r) s = finished (some r) s
  ended panicked s = crashed

  -- The stretch up to the check after `on_request`.
  abbrev begin : Shared → Request → String → vm.State → Option Bytes → Phase × Shared
  begin sh req peer s none = (finished none s, record sh { metrics = observe sh.metrics })
  begin sh req peer s (some body) =
      let parsed = parse to_lowercase hash_key from_utf8_lossy vm http req body peer in
      let st =
        after_on_request to_lowercase hash_key from_utf8_lossy vm http (reads_of sh) s parsed in
      (admit_or_refuse st parsed st.1.rejected, sh)

  abbrev choose :
      Shared
      → Session to_lowercase vm
      → Parsed
      → Run (Option String × UpstreamPool)
      → Phase × Shared
  choose sh st req (returned (url, pool)) = (targeted url st req, record sh { pool = pool })
  choose sh st req panicked = (crashed, record sh { metrics = observe sh.metrics })

  abbrev receive :
      Shared → Session to_lowercase vm → Option (ℕ × StrMap String × Bytes) → Phase × Shared
  receive sh st none = (
    ended (error_response http 502 "Bad Gateway") st.0,
    record sh { metrics = observe sh.metrics },
  )
  receive sh st (some answer) = (answered st answer, sh)

  unfoldable pub step : Request → String → Shared → Phase → Phase × Shared
  step req peer sh (waiting s) = (received s, record sh { metrics = inc req.method sh.metrics })
  step req peer sh (received s) = begin sh req peer s req.body
  step req peer sh (refused status msg s) = (
    ended (error_response http status msg) s,
    record sh { metrics = inc "rejected" (observe sh.metrics) },
  )
  step req peer sh (admitted st p) =
      let (upstream, st') = run_on_route to_lowercase vm sh.sources st in
      (routed upstream st' p, sh)
  step req peer sh (routed upstream st p) =
      (transformed upstream (run_on_transform to_lowercase vm sh.sources st) p, sh)
  step req peer sh (transformed upstream st p) =
      choose sh st p (next_url hash_key (or_default upstream) (some p.ip) sh.pool)
  step req peer sh (targeted none st p) = (
    ended (error_response http 503 "Service Unavailable") st.0,
    record sh { metrics = observe sh.metrics },
  )
  step req peer sh (targeted (some target) st p) = receive sh st (
      forward_request to_lowercase http p.method (concat (trim_end_slashes target) p.path)
        (forward_headers p.ip st.1.req_headers) p.body)
  step req peer sh (answered st answer) =
      let h =
        respond to_lowercase hash_key from_utf8_lossy vm http (reads_of sh) sh.pool sh.metrics st
          answer in
      (finished h.response h.machine, record sh { metrics = observe sh.metrics })
  step req peer sh (finished response s) = (finished response s, sh)
  step req peer sh crashed = (crashed, sh)

  pub record Task : Type 0 where
    pub req : Request
    pub peer : String
    pub phase : Phase

  -- The whole program: what is shared, and the tasks.
  pub record World : Type 0 where
    pub shared : Shared
    pub tasks : List Task

  -- A request comes in, a task makes a step, the sources are exchanged by a reload, or a health
  -- check ends.
  pub data WorldStep (client : HealthClient) (w : World) : World → Type 0 where
    arrive :
        (req : Request) (peer : String) (s : vm.State)
        → WorldStep client w
            (record w { tasks = record { req = req; peer = peer; phase = waiting s } ∷ w.tasks })
    advance :
        (i : ℕ) (t : Task)
        → get_elem? w.tasks i ≡ some t
        → WorldStep client w (record {
          shared = (step t.req t.peer w.shared t.phase).1;
          tasks = set w.tasks i (record t { phase = (step t.req t.peer w.shared t.phase).0 });
        })
    exchange :
        (sources : PluginSources)
        → WorldStep client w (record w { shared = record (w.shared) { sources = sources } })
    check :
        (p : Probe)
        → WorldStep client w
            (record w { shared = record (w.shared) { pool = finish_probe client p w.shared.pool } })

  pub data Reach (client : HealthClient) (start : World) : World → Type 0 where
    here : Reach client start start
    after : {w w' : World} → Reach client start w → WorldStep client w w' → Reach client start w'
