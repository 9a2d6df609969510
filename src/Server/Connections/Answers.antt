-- ===== src/Server/Connections/Answers.antt =====
-- main.rs: the answers that a connection gets, and what it counts.
use dgsw_class_pg_proxy.Prelude.{
  ℕ, ◌+◌, ◌*◌, ◌<◌, ◌≡◌, refl, ap, ◌∙◌, ◌⊎◌, inl, inr, String, false, Option, none, some, List, [],
  ◌∷◌, length, In, arith, str_eq,
}
use native.Mathlib.Numerals.{unary_clauses}
use dgsw_class_pg_proxy.Prelude.Maps.{StrMap}
use dgsw_class_pg_proxy.Prelude.Run.{Run, returned, panicked}
use dgsw_class_pg_proxy.Prelude.Text.{Bytes}
use dgsw_class_pg_proxy.Lua.Engine.{Vm}
use dgsw_class_pg_proxy.Lua.Globals.{Vars, Global, setup_globals}
use dgsw_class_pg_proxy.Lua.Globals.Laws.{setup_globals_lem}
use dgsw_class_pg_proxy.Metrics.{Metrics, count}
use dgsw_class_pg_proxy.Handler.{Http, Request, Response, Reads, Handled}
use dgsw_class_pg_proxy.Handler.Laws.{HttpLaws}
use dgsw_class_pg_proxy.Handler.Counts.{one_if, handle_request-counts}
use dgsw_class_pg_proxy.Server.{service}
use dgsw_class_pg_proxy.Server.Serving.{or_internal_error, service_lem}
use dgsw_class_pg_proxy.Server.Tasks.Sums.{sum, sum_nil, sum_cons}
use dgsw_class_pg_proxy.Server.Connections.{
  Exchange, new_engine, serve_connection, with_engine, connection,
}

no_more : (n m a k z : ℕ) → n ≡ m + a + k * z → z ≡ 0 → n ≡ m + a
no_more n m a k z e h = e ∙ rw h (simp unary_clauses refl)

-- One for a request of a method.
abbrev pub of_method : String → Exchange → ℕ
of_method l x = one_if (str_eq x.req.method l)

module _ (lower : String → String) (hash_key : String → ℕ) (lossy : Bytes → Bytes) (vm : Vm)
    (http : Http) (laws : HttpLaws http) where
  -- The service panics, or it answers and has counted the request.
  abbrev Served : Metrics → Request → Run (Response × Handled lower hash_key lossy vm http) → Type 0
  Served m req r =
      (r ≡ panicked)
      ⊎ ((a : Response) × (h : Handled lower hash_key lossy vm http) × (r ≡ returned (a, h))
          × (h.metrics.req_duration ≡ m.req_duration + 1)
          × ((l : String)
              → str_eq "rejected" l ≡ false
              → count l h.metrics ≡ count l m + one_if (str_eq req.method l)))

  service-Served :
      (reads : Reads) (m : Metrics) (machine : vm.State) (req : Request) (peer : String)
      → Served m req (service lower hash_key lossy vm http reads (some m) machine req peer)
  service-Served reads m machine req peer =
      elim (service_lem lower hash_key lossy vm http laws reads (some m) machine req peer) [
        | inl (p, q) ↦ inl q
        | inr (h, e, q) ↦
            let (a, b) =
              handle_request-counts lower hash_key lossy vm http reads m machine req peer h e in
            inr
              (or_internal_error h.response, h, q, a, λ l n. no_more _ _ _ _ _ (b l) (ap one_if n))
      ]

  -- A panic has cut the connection off, or it has all its answers and has counted them.
  abbrev pub Answered :
      String → Metrics → List Exchange → List Response × Run (Option Metrics) → Type 0
  Answered l m requests (answers, left) =
      ((left ≡ panicked) × (length answers < length requests))
      ⊎ ((m' : Metrics) × (left ≡ returned (some m'))
          × (length answers ≡ length requests)
          × (m'.req_duration ≡ m.req_duration + length requests)
          × (count l m' ≡ count l m + sum (of_method l) requests))

  serve-Answered :
      (l : String) (peer : String) (requests : List Exchange) (m : Metrics) (machine : vm.State)
      → str_eq "rejected" l ≡ false
      → Answered l m requests
          (serve_connection lower hash_key lossy vm http (some m) machine peer requests)
  unfolding serve_connection
  serve-Answered l peer [] m machine n =
      inr (m, refl, refl, omega arith, omega (arith, sum_nil (of_method l)))
  serve-Answered l peer (x ∷ later) m machine n =
      from (service lower hash_key lossy vm http x.reads (some m) machine x.req peer)
        (service-Served x.reads m machine x.req peer)
        (λ h. serve-Answered l peer later h.metrics h.machine n)
    where
      onward :
          Run (Response × Handled lower hash_key lossy vm http)
          → List Response × Run (Option Metrics)
      onward r = elim r [
        | panicked ↦ ([], panicked)
        | returned (a, h) ↦
            let (answers, left) =
              serve_connection lower hash_key lossy vm http (some h.metrics) h.machine peer later in
            (a ∷ answers, left)
      ]

      from :
          (r : Run (Response × Handled lower hash_key lossy vm http))
          → Served m x.req r
          → ((h : Handled lower hash_key lossy vm http)
              → Answered l h.metrics later (
                  serve_connection lower hash_key lossy vm http
                    (some h.metrics)
                    h.machine
                    peer
                    later))
          → Answered l m (x ∷ later) (onward r)
      from r (inl e) ih = rw e (inl (refl, omega arith))
      from r (inr (a, h, e, d, c)) ih = rw e (elim (ih h) [
        | inl (p, lt) ↦ inl (p, omega arith)
        | inr (m', p, len, d', c') ↦
            inr (
              m',
              p,
              omega arith,
              omega arith,
              omega (arith, c l n, sum_cons (of_method l) x later),
            )
      ])

  with_engine-Answered :
      (l : String) (peer : String) (requests : List Exchange) (m : Metrics) (o : Option vm.State)
      → str_eq "rejected" l ≡ false
      → ((o ≡ none)
          × (with_engine lower hash_key lossy vm http (returned o) (some m) peer requests
              ≡ ([], returned (some m))))
        ⊎ Answered l m requests
            (with_engine lower hash_key lossy vm http (returned o) (some m) peer requests)
  with_engine-Answered l peer requests m none n = inl (refl, refl)
  with_engine-Answered l peer requests m (some machine) n =
      inr (serve-Answered l peer requests m machine n)

  -- A connection, whatever its requests: if a variable of the environment is no Unicode, it panics
  -- without an answer; if Lua cannot set up the machine, it ends without one and counts nothing;
  -- else it has one answer for each request, and the histogram and the counter of every label but
  -- "rejected" have grown by its requests and by those of that method, or a panic has cut it off
  -- before the last answer.
  pub connection_lem :
      (fresh : StrMap Global → Option vm.State) (vars : Vars) (globals : StrMap Global)
      (l peer : String) (requests : List Exchange) (m : Metrics)
      → str_eq "rejected" l ≡ false
      → (In none vars
          × (connection lower hash_key lossy vm http fresh vars globals (some m) peer requests
              ≡ ([], panicked)))
        ⊎ ((made : StrMap Global) × (setup_globals vars globals ≡ returned made)
            × (((fresh made ≡ none)
                  × (connection lower hash_key lossy vm http fresh vars globals
                        (some m)
                        peer
                        requests
                      ≡ ([], returned (some m))))
                ⊎ Answered l m requests (
                    connection lower hash_key lossy vm http fresh vars globals
                      (some m)
                      peer
                      requests)))
  unfolding connection new_engine
  connection_lem fresh vars globals l peer requests m n = elim (setup_globals_lem vars globals) [
    | inl (i, e) ↦ inl (i, rw e refl)
    | inr (i, (made, env, e, reads, stands)) ↦
        inr (made, e, rw e (with_engine-Answered l peer requests m (fresh made) n))
  ]
