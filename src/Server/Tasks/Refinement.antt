-- ===== src/Server/Tasks/Refinement.antt =====
-- handler.rs: a task, whatever happens to the shared state between its steps, does what
-- `handle_request` says.
use dgsw_class_pg_proxy.Prelude.{ℕ, ◌≡◌, refl, String, Option, none, some, List, [], ◌∷◌}
use dgsw_class_pg_proxy.Prelude.Maps.{StrMap}
use dgsw_class_pg_proxy.Prelude.Run.{Run, returned, panicked, ◌>>=◌}
use dgsw_class_pg_proxy.Prelude.Text.{Bytes}
use dgsw_class_pg_proxy.Upstream.Pool.{UpstreamPool, next_url}
use dgsw_class_pg_proxy.Lua.Engine.{Vm, Session, run_on_route, run_on_transform}
use dgsw_class_pg_proxy.Metrics.{Metrics, inc}
use dgsw_class_pg_proxy.Handler.{
  Http, Request, Response, Reads, Parsed, Handled, end_with, error_response, respond, forwarded,
  forward, proceed, decide, admit, collected, handle_request, after_on_request, or_default,
}
use dgsw_class_pg_proxy.Server.Tasks.{
  Shared, Phase, waiting, admitted, targeted, answered, finished, crashed, step, begin, choose,
  receive, admit_or_refuse, ended,
}

-- What the steps read, put together.
abbrev pub reads_at : Shared → Shared → Shared → Shared → Shared → Reads
reads_at request route transform choice response = record {
  on_request = request.sources;
  on_route = route.sources;
  on_transform = transform.sources;
  on_response = response.sources;
  pool = choice.pool;
}

module _ (lower : String → String) (hash_key : String → ℕ) (lossy : Bytes → Bytes) (vm : Vm)
    (http : Http) where
  abbrev End : Type 0
  End = Handled lower hash_key lossy vm http

  abbrev Stage : Type 0
  Stage = Phase lower hash_key lossy vm http

  abbrev pub outcome : Run End → Stage
  outcome (returned h) = finished h.response h.machine
  outcome panicked = crashed

  -- The steps of a task, each with what is shared at that time.
  unfoldable pub run : Request → String → List Shared → Stage → Stage
  run req peer [] ph = ph
  run req peer (sh ∷ later) ph =
      run req peer later (step lower hash_key lossy vm http req peer sh ph).0

  module _ (req : Request) (peer : String) where
    abbrev runs : List Shared → Stage → Stage
    runs = run req peer

    runs-finished :
        (later : List Shared) (r : Option Response) (s : vm.State)
        → runs later (finished r s) ≡ finished r s
    unfolding run step
    runs-finished [] r s = refl
    runs-finished (sh ∷ later) r s = runs-finished later r s

    runs-crashed : (later : List Shared) → runs later crashed ≡ crashed
    unfolding run step
    runs-crashed [] = refl
    runs-crashed (sh ∷ later) = runs-crashed later

    runs-ended :
        (later : List Shared) (r : Run Response) (s : vm.State) (pool : UpstreamPool) (m : Metrics)
        → runs later (ended lower hash_key lossy vm http r s)
          ≡ outcome (end_with lower hash_key lossy vm http r s pool m)
    runs-ended later (returned r) s pool m = runs-finished later (some r) s
    runs-ended later panicked s pool m = runs-crashed later

    module _ (reads : Reads) (m : Metrics) (s₇ : Shared)
        (same : reads.on_response ≡ s₇.sources) where
      runs-answered :
          (pool : UpstreamPool) (st : Session lower vm) (answer : ℕ × StrMap String × Bytes)
          → runs (s₇ ∷ []) (answered st answer)
            ≡ outcome (returned (respond lower hash_key lossy vm http reads pool m st answer))
      unfolding run step respond
      runs-answered pool (s, c) (status, headers, body) = rw same refl

      runs_received :
          (pool : UpstreamPool) (sh : Shared) (st : Session lower vm)
          (answer : Option (ℕ × StrMap String × Bytes))
          → runs (s₇ ∷ []) (receive lower hash_key lossy vm http sh st answer).0
            ≡ outcome (forwarded lower hash_key lossy vm http reads pool m st answer)
      runs_received pool sh st none =
          runs-ended (s₇ ∷ []) (error_response http 502 "Bad Gateway") st.0 pool m
      runs_received pool sh st (some answer) = runs-answered pool st answer

      runs_targeted :
          (s₆ : Shared) (pool : UpstreamPool) (st : Session lower vm) (p : Parsed)
          (url : Option String)
          → runs (s₆ ∷ s₇ ∷ []) (targeted url st p)
            ≡ outcome (forward lower hash_key lossy vm http reads pool m st p url)
      unfolding run step forward
      runs_targeted s₆ pool st p none =
          runs-ended (s₇ ∷ []) (error_response http 503 "Service Unavailable") st.0 pool m
      runs_targeted s₆ pool (s, c) p (some target) = runs_received pool s₆ (s, c) _

      runs_chosen :
          (sh s₆ : Shared) (st : Session lower vm) (p : Parsed)
          (u : Run (Option String × UpstreamPool))
          → runs (s₆ ∷ s₇ ∷ []) (choose lower hash_key lossy vm http sh st p u).0
            ≡ outcome
                (u >>= (λ (url, pool). forward lower hash_key lossy vm http reads pool m st p url))
      runs_chosen sh s₆ st p (returned (url, pool)) = runs_targeted s₆ pool st p url
      runs_chosen sh s₆ st p panicked = runs-crashed (s₆ ∷ s₇ ∷ [])

    module _ (m : Metrics) (s₁ s₂ s₃ s₄ s₅ s₆ s₇ : Shared) where
      abbrev reads : Reads
      reads = reads_at s₂ s₃ s₄ s₅ s₇

      runs-admitted :
          (st : Session lower vm) (p : Parsed)
          → runs (s₃ ∷ s₄ ∷ s₅ ∷ s₆ ∷ s₇ ∷ []) (admitted st p)
            ≡ outcome (proceed lower hash_key lossy vm http reads m st p)
      unfolding run step proceed
      runs-admitted st p =
          let (upstream, st') = run_on_route lower vm s₃.sources st in
          runs_chosen reads m s₇ refl s₅ s₆ (run_on_transform lower vm s₄.sources st') p
            (next_url hash_key (or_default upstream) (some p.ip) s₅.pool)

      runs_decided :
          (st : Session lower vm) (p : Parsed) (r : Option (ℕ × String))
          → runs (s₃ ∷ s₄ ∷ s₅ ∷ s₆ ∷ s₇ ∷ []) (admit_or_refuse lower hash_key lossy vm http st p r)
            ≡ outcome (decide lower hash_key lossy vm http reads m st p r)
      unfolding run step
      runs_decided st p none = runs-admitted st p
      runs_decided st p (some (status, msg)) =
          runs-ended (s₄ ∷ s₅ ∷ s₆ ∷ s₇ ∷ []) (error_response http status msg) st.0 s₅.pool
            (inc "rejected" m)

      runs_begun :
          (s : vm.State) (body : Option Bytes)
          → runs
              (s₃ ∷ s₄ ∷ s₅ ∷ s₆ ∷ s₇ ∷ [])
              (begin lower hash_key lossy vm http s₂ req peer s body).0
            ≡ outcome (collected lower hash_key lossy vm http reads m s req peer body)
      unfolding admit after_on_request
      runs_begun s none = runs-finished (s₃ ∷ s₄ ∷ s₅ ∷ s₆ ∷ s₇ ∷ []) none s
      runs_begun s (some body) = runs_decided _ _ _

  -- Seven steps end a request, and whatever other tasks, reloads and health checks do to the shared
  -- state between them, its response and its machine are those of `handle_request` with the sources
  -- that the second, third, fourth and seventh step found and the pool that the fifth found; it
  -- panics exactly if `handle_request` does.
  pub run-handle_request :
      (req : Request) (peer : String) (m : Metrics) (s : vm.State) (s₁ s₂ s₃ s₄ s₅ s₆ s₇ : Shared)
      → run req peer (s₁ ∷ s₂ ∷ s₃ ∷ s₄ ∷ s₅ ∷ s₆ ∷ s₇ ∷ []) (waiting s)
        ≡ outcome (
            handle_request lower hash_key lossy vm http
              (reads_at s₂ s₃ s₄ s₅ s₇)
              (some m)
              s
              req
              peer)
  unfolding run step handle_request
  run-handle_request req peer m s s₁ s₂ s₃ s₄ s₅ s₆ s₇ =
      runs_begun req peer (inc req.method m) s₁ s₂ s₃ s₄ s₅ s₆ s₇ s req.body
