-- ===== src/Server/Tasks/Adds.antt =====
-- metrics.rs and handler.rs: what one step of a task counts.
use dgsw_class_pg_proxy.Prelude.{
  ℕ, ◌+◌, ◌≡◌, refl, ap, String, Bool, true, false, Option, none, some, arith, str_eq,
}
use dgsw_class_pg_proxy.Prelude.Maps.{StrMap}
use dgsw_class_pg_proxy.Prelude.Run.{Run, returned, panicked}
use dgsw_class_pg_proxy.Prelude.Text.{Bytes}
use dgsw_class_pg_proxy.Upstream.Pool.{UpstreamPool}
use dgsw_class_pg_proxy.Lua.Engine.{Vm, Session}
use dgsw_class_pg_proxy.Metrics.{Metrics, count, inc, observe}
use dgsw_class_pg_proxy.Handler.{Http, Request, Response, Parsed, respond}
use dgsw_class_pg_proxy.Handler.Counts.{one_if, count-inc}
use dgsw_class_pg_proxy.Server.Tasks.{
  Shared, reads_of, Phase, waiting, received, refused, admitted, routed, transformed, targeted,
  answered, finished, crashed, step, begin, choose, receive, admit_or_refuse, ended, Task,
}

observe-adds : (m : Metrics) → (observe m).req_duration ≡ m.req_duration + 1
unfolding observe
observe-adds m = refl

inc-keeps : (l : String) (m : Metrics) → (inc l m).req_duration ≡ m.req_duration
unfolding inc
inc-keeps l m = refl

observe-keeps : (l : String) (m : Metrics) → count l (observe m) ≡ count l m
unfolding observe
observe-keeps l m = refl

module _ (lower : String → String) (hash_key : String → ℕ) (lossy : Bytes → Bytes) (vm : Vm)
    (http : Http) where
  abbrev Stage : Type 0
  Stage = Phase lower hash_key lossy vm http

  abbrev Job : Type 0
  Job = Task lower hash_key lossy vm http

  -- One for a task that has ended, in whatever way.
  abbrev pub over : Stage → ℕ
  over (finished r s) = 1
  over crashed = 1
  over _ = 0

  abbrev pub begun : Stage → Bool
  begun (waiting s) = false
  begun _ = true

  -- One for a task of a method that has begun.
  abbrev pub counted : String → Job → ℕ
  counted l t = elim (begun t.phase) [ true ↦ one_if (str_eq t.req.method l) | false ↦ 0 ]

  -- A step adds to the observations what it adds to the ended tasks, and to the counter of a label,
  -- other than "rejected", what it adds to the tasks of that method that have begun.
  abbrev pub Adds : Request → Shared → Stage → Stage × Shared → Type 0
  Adds req sh ph (ph', sh') =
      (sh'.metrics.req_duration + over ph ≡ sh.metrics.req_duration + over ph')
      × ((l : String)
          → str_eq "rejected" l ≡ false
          → count l sh'.metrics
              + elim (begun ph) [ true ↦ one_if (str_eq req.method l) | false ↦ 0 ]
            ≡ count l sh.metrics
              + elim (begun ph') [ true ↦ one_if (str_eq req.method l) | false ↦ 0 ])

  module _ (req : Request) (peer : String) (sh : Shared) where
    observed :
        (ph ph' : Stage)
        → over ph ≡ 0
        → over ph' ≡ 1
        → begun ph ≡ true
        → begun ph' ≡ true
        → Adds req sh ph (ph', record sh { metrics = observe sh.metrics })
    observed ph ph' a b c d = (
      omega (arith, observe-adds sh.metrics),
      λ l h. rw (c, d) (omega (arith, observe-keeps l sh.metrics)),
    )

    unobserved :
        (ph ph' : Stage)
        → over ph ≡ 0
        → over ph' ≡ 0
        → begun ph ≡ true
        → begun ph' ≡ true
        → Adds req sh ph (ph', sh)
    unobserved ph ph' a b c d = (omega arith, λ l h. rw (c, d) refl)

    over-ended :
        (r : Run Response) (s : vm.State)
        → (over (ended lower hash_key lossy vm http r s) ≡ 1)
          × (begun (ended lower hash_key lossy vm http r s) ≡ true)
    over-ended (returned r) s = (refl, refl)
    over-ended panicked s = (refl, refl)

    error-Adds :
        (ph : Stage) (r : Run Response) (s : vm.State)
        → over ph ≡ 0
        → begun ph ≡ true
        → Adds req sh ph
            (ended lower hash_key lossy vm http r s, record sh { metrics = observe sh.metrics })
    error-Adds ph r s a c = let (b, d) = over-ended r s in observed ph _ a b c d

    refused-Adds :
        (status : ℕ) (msg : String) (s : vm.State) (r : Run Response)
        → Adds req sh (refused status msg s) (
          ended lower hash_key lossy vm http r s,
          record sh { metrics = inc "rejected" (observe sh.metrics) },
        )
    refused-Adds status msg s r =
        let (b, d) = over-ended r s in
        (
          omega (arith, b, observe-adds sh.metrics, inc-keeps "rejected" (observe sh.metrics)),
          λ l h. rw d (
              omega (
                arith,
                count-inc "rejected" l (observe sh.metrics),
                observe-keeps l sh.metrics,
                ap one_if h,
              )),
        )

    admit-Adds :
        (s : vm.State) (st : Session lower vm) (p : Parsed) (r : Option (ℕ × String))
        → Adds req sh (received s) (admit_or_refuse lower hash_key lossy vm http st p r, sh)
    admit-Adds s st p none = unobserved (received s) (admitted st p) refl refl refl refl
    admit-Adds s st p (some (status, msg)) =
        unobserved (received s) (refused status msg st.0) refl refl refl refl

    begin-Adds :
        (s : vm.State) (body : Option Bytes)
        → Adds req sh (received s) (begin lower hash_key lossy vm http sh req peer s body)
    begin-Adds s none = observed (received s) (finished none s) refl refl refl refl
    begin-Adds s (some body) = admit-Adds s _ _ _

    choose-Adds :
        (up : Option String) (st : Session lower vm) (p : Parsed)
        (u : Run (Option String × UpstreamPool))
        → Adds req sh (transformed up st p) (choose lower hash_key lossy vm http sh st p u)
    choose-Adds up st p (returned (url, pool)) =
        unobserved (transformed up st p) (targeted url st p) refl refl refl refl
    choose-Adds up st p panicked = observed (transformed up st p) crashed refl refl refl refl

    receive-Adds :
        (target : String) (st : Session lower vm) (p : Parsed)
        (answer : Option (ℕ × StrMap String × Bytes))
        → Adds req sh
            (targeted (some target) st p)
            (receive lower hash_key lossy vm http sh st answer)
    receive-Adds target st p none = error-Adds (targeted (some target) st p) _ st.0 refl refl
    receive-Adds target st p (some answer) =
        unobserved (targeted (some target) st p) (answered st answer) refl refl refl refl

    pub step-Adds : (ph : Stage) → Adds req sh ph (step lower hash_key lossy vm http req peer sh ph)
    unfolding step
    step-Adds (waiting s) = (
      omega (arith, inc-keeps req.method sh.metrics),
      λ l h. omega (arith, count-inc req.method l sh.metrics),
    )
    step-Adds (received s) = begin-Adds s req.body
    step-Adds (refused status msg s) = refused-Adds status msg s _
    step-Adds (admitted st p) = (refl, λ l h. refl)
    step-Adds (routed up st p) = (refl, λ l h. refl)
    step-Adds (transformed up st p) = choose-Adds up st p _
    step-Adds (targeted none st p) = error-Adds (targeted none st p) _ st.0 refl refl
    step-Adds (targeted (some target) st p) = receive-Adds target st p _
    step-Adds (answered st answer) =
        let h = respond lower hash_key lossy vm http (reads_of sh) sh.pool sh.metrics st answer in
        observed (answered st answer) (finished h.response h.machine) refl refl refl refl
    step-Adds (finished r s) = (refl, λ l h. refl)
    step-Adds crashed = (refl, λ l h. refl)
