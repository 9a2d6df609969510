-- ===== src/Server/Tasks/Targets.antt =====
-- handler.rs, pool.rs and balancer.rs: where the requests of the running program go.
use dgsw_class_pg_proxy.Prelude.{
  ℕ, zero, suc, ◌≡◌, refl, sym, subst, String, Bool, Option, none, some, List, [], ◌∷◌, map, In,
  All, All_In, In-get_elem?, get_elem?, set, inl, inr,
}
use dgsw_class_pg_proxy.Prelude.Maps.{StrMap}
use dgsw_class_pg_proxy.Prelude.Run.{Run, returned, panicked}
use dgsw_class_pg_proxy.Prelude.Text.{Bytes}
use dgsw_class_pg_proxy.Config.{UpstreamConfig}
use dgsw_class_pg_proxy.Upstream.Balancer.{Target, new_target}
use dgsw_class_pg_proxy.Upstream.Pool.{UpstreamPool, HealthClient, new_pool, init}
use dgsw_class_pg_proxy.Upstream.Pool.Every.{
  IsEvery, Of, init-IsEvery, next_url-IsEvery, finish_probe-IsEvery,
}
use dgsw_class_pg_proxy.Lua.Engine.{Vm, Session}
use dgsw_class_pg_proxy.Handler.{Http, Request, Response, Parsed, or_default}
use dgsw_class_pg_proxy.Server.Tasks.{
  Shared, Phase, waiting, received, refused, admitted, routed, transformed, targeted, answered,
  finished, crashed, step, begin, choose, receive, admit_or_refuse, ended, Task, World, WorldStep,
  arrive, advance, exchange, check, Reach, here, after,
}

-- The URL stands in one of the configurations.
abbrev pub IsConfigured : List UpstreamConfig → String → Type 0
IsConfigured configs url = (cfg : UpstreamConfig) × In cfg configs × In url cfg.targets

module _ (configs : List UpstreamConfig) where
  abbrev Known : Target → Type 0
  Known t = IsConfigured configs t.url

  Known-stable : (v : Bool) (t : Target) → Known t → Known (record t { alive = v })
  Known-stable v t h = h

  Known-new :
      (cfg : UpstreamConfig) (urls : List String)
      → In cfg configs
      → ((url : String) → In url urls → In url cfg.targets)
      → All Known (map new_target urls)
  unfolding new_target
  Known-new cfg [] m all = tt
  Known-new cfg (u ∷ urls) m all =
      ((cfg, m, all u (inl refl)), Known-new cfg urls m (λ v n. all v (inr n)))

  abbrev IsKnown : UpstreamPool → Type 0
  IsKnown = IsEvery Known Known-stable

  init-IsKnown : IsKnown (init configs new_pool)
  init-IsKnown =
      init-IsEvery Known Known-stable configs (λ cfg m. Known-new cfg cfg.targets m (λ url n. n))

  module _ (lower : String → String) (hash_key : String → ℕ) (lossy : Bytes → Bytes) (vm : Vm)
      (http : Http) where
    abbrev Stage : Type 0
    Stage = Phase lower hash_key lossy vm http

    -- A task that is about to forward its request has a URL that is configured.
    abbrev Goes : Stage → Type 0
    Goes (targeted (some url) st p) = IsConfigured configs url
    Goes _ = Unit {0}

    module _ (req : Request) (peer : String) (sh : Shared) (every : IsKnown sh.pool) where
      abbrev Kept : Stage × Shared → Type 0
      Kept (ph, sh') = IsKnown sh'.pool × Goes ph

      Goes-ended : (r : Run Response) (s : vm.State) → Goes (ended lower hash_key lossy vm http r s)
      Goes-ended (returned r) s = tt
      Goes-ended panicked s = tt

      Goes-admit :
          (st : Session lower vm) (p : Parsed) (r : Option (ℕ × String))
          → Goes (admit_or_refuse lower hash_key lossy vm http st p r)
      Goes-admit st p none = tt
      Goes-admit st p (some r) = tt

      Kept-begin :
          (s : vm.State) (body : Option Bytes)
          → Kept (begin lower hash_key lossy vm http sh req peer s body)
      Kept-begin s none = (every, tt)
      Kept-begin s (some body) = (every, Goes-admit _ _ _)

      Kept-chosen :
          (st : Session lower vm) (p : Parsed) (url : Option String) (pool : UpstreamPool)
          → IsKnown pool
          → Of Known Known-stable url
          → Kept (choose lower hash_key lossy vm http sh st p (returned (url, pool)))
      Kept-chosen st p none pool known of_url = (known, tt)
      Kept-chosen st p (some url) pool known (t, of_t, same) =
          (known, subst (IsConfigured configs) (sym same) of_t)

      Kept-receive :
          (st : Session lower vm) (answer : Option (ℕ × StrMap String × Bytes))
          → Kept (receive lower hash_key lossy vm http sh st answer)
      Kept-receive st none = (every, Goes-ended _ _)
      Kept-receive st (some answer) = (every, tt)

      Kept-step : (ph : Stage) → Kept (step lower hash_key lossy vm http req peer sh ph)
      unfolding step
      Kept-step (waiting s) = (every, tt)
      Kept-step (received s) = Kept-begin s req.body
      Kept-step (refused status msg s) = (every, Goes-ended _ _)
      Kept-step (admitted st p) = (every, tt)
      Kept-step (routed up st p) = (every, tt)
      Kept-step (transformed up st p) =
          let (url, pool, r, known, of_url) =
            next_url-IsEvery Known Known-stable hash_key sh.pool (or_default up) (some p.ip)
              every in
          rw r (Kept-chosen st p url pool known of_url)
      Kept-step (targeted none st p) = (every, Goes-ended _ _)
      Kept-step (targeted (some target) st p) = Kept-receive st _
      Kept-step (answered st answer) = (every, tt)
      Kept-step (finished r s) = (every, tt)
      Kept-step crashed = (every, tt)

    abbrev Whole : Type 0
    Whole = World lower hash_key lossy vm http

    abbrev Job : Type 0
    Job = Task lower hash_key lossy vm http

    abbrev Runs : Job → Type 0
    Runs t = Goes t.phase

    All-set : (ts : List Job) (i : ℕ) (t : Job) → All Runs ts → Runs t → All Runs (set ts i t)
    All-set [] i t h k = h
    All-set (x ∷ ts) zero t h k = (k, h.1)
    All-set (x ∷ ts) (suc i) t h k = (h.0, All-set ts i t h.1 k)

    abbrev Holds : Whole → Type 0
    Holds w = IsKnown w.shared.pool × All Runs w.tasks

    module _ (client : HealthClient) where
      WorldStep-Holds :
          (w w' : Whole) → WorldStep lower hash_key lossy vm http client w w' → Holds w → Holds w'
      WorldStep-Holds w w' (arrive req peer s) (known, all) = (known, (tt, all))
      WorldStep-Holds w w' (advance i t at) (known, all) =
          let (known', goes) = Kept-step t.req t.peer w.shared known t.phase in
          (known', All-set w.tasks i _ all goes)
      WorldStep-Holds w w' (exchange sources) (known, all) = (known, all)
      WorldStep-Holds w w' (check p) (known, all) =
          (finish_probe-IsEvery Known Known-stable client p w.shared.pool known, all)

      Reach-Holds :
          (start w : Whole)
          → Reach lower hash_key lossy vm http client start w
          → Holds start
          → Holds w
      Reach-Holds start _ here h = h
      Reach-Holds start w' (after {w} r s) h = WorldStep-Holds w w' s (Reach-Holds start w r h)

      -- From a start without tasks, with the pool of the configurations: in whatever order requests
      -- take their steps, health checks end and plugins are exchanged, and whatever the plugins do,
      -- a request is forwarded to a URL of the configurations only.
      pub Reach-configured :
          (start w : Whole) (i : ℕ) (t : Job) (url : String) (st : Session lower vm) (p : Parsed)
          → start.tasks ≡ []
          → start.shared.pool ≡ init configs new_pool
          → Reach lower hash_key lossy vm http client start w
          → get_elem? w.tasks i ≡ some t
          → t.phase ≡ targeted (some url) st p
          → (cfg : UpstreamConfig) × In cfg configs × In url cfg.targets
      Reach-configured start w i t url st p none_yet pool r at stands =
          let (known, all) =
            Reach-Holds start w r
              (subst IsKnown (sym pool) init-IsKnown, subst (All Runs) (sym none_yet) tt) in
          subst Goes stands (All_In Runs w.tasks t all (In-get_elem? w.tasks i t at))
