-- ===== src/Handler/Outcomes.antt =====
-- handler.rs: which response a request ends with, on every path.
use dgsw_class_pg_proxy.Prelude.{
  ℕ, ◌≤◌, ◌<◌, ◌≡◌, refl, sym, ap, ◌∙◌, ◌↔◌, String, inl, inr, Option, none, some, [], arith,
  concat,
}
use dgsw_class_pg_proxy.Prelude.Run.{Run, returned, panicked, ◌>>=◌}
use dgsw_class_pg_proxy.Prelude.Text.{Bytes, trim_end_slashes}
use dgsw_class_pg_proxy.Upstream.Pool.{UpstreamPool, next_url}
use dgsw_class_pg_proxy.Lua.Engine.{Vm, Session, run_on_route, run_on_transform}
use dgsw_class_pg_proxy.Metrics.{Metrics, inc, observe}
use dgsw_class_pg_proxy.Handler.{
  Http, Request, Reads, Parsed, Handled, end, end_with, error_response, forward_request,
  forward_headers, collect_headers, client_ip_of, forwarded, forward, proceed, decide,
  after_on_request, admit, parse, collected, handle_request, or_default,
}
use dgsw_class_pg_proxy.Handler.Laws.{HttpLaws}
use dgsw_class_pg_proxy.Handler.Errors.{
  json_error, error_response_lem, error_end, end_with_error, proceed-returns,
}

module _ (lower : String → String) (hash_key : String → ℕ) (lossy : Bytes → Bytes) (vm : Vm)
    (http : Http) (laws : HttpLaws http) where
  abbrev End : Type 0
  End = Handled lower hash_key lossy vm http

  abbrev pub ends : ℕ → String → Session lower vm → UpstreamPool → Metrics → End
  ends = error_end lower hash_key lossy vm http laws

  errors :
      (status : ℕ) (msg : String) (st : Session lower vm) (pool : UpstreamPool) (m : Metrics)
      → 100 ≤ status
      → status < 1000
      → end_with lower hash_key lossy vm http (error_response http status msg) st.0 pool m
        ≡ returned (ends status msg st pool m)
  errors = end_with_error lower hash_key lossy vm http laws

  abbrev InRange : ℕ → Type 0
  InRange status = (100 ≤ status) × (status < 1000)

  module _ (reads : Reads) (m : Metrics) (machine : vm.State) (req : Request) (peer : String) where
    abbrev handled : Run End
    handled = handle_request lower hash_key lossy vm http reads (some m) machine req peer

    abbrev parsed : Bytes → Parsed
    parsed body = parse lower hash_key lossy vm http req body peer

    -- The session after `on_request`.
    abbrev after : Bytes → Session lower vm
    after body = after_on_request lower hash_key lossy vm http reads machine (parsed body)

    abbrev counted : Metrics
    counted = inc req.method m

    abbrev decided : Bytes → Option (ℕ × String) → Run End
    decided body r = decide lower hash_key lossy vm http reads counted (after body) (parsed body) r

    handled_of_body :
        (body : Bytes) → req.body ≡ some body → handled ≡ decided body (after body).1.rejected
    unfolding handle_request admit
    handled_of_body body e =
        ap (collected lower hash_key lossy vm http reads counted machine req peer) e

    handled_without_body :
        req.body ≡ none
        → handled ≡ returned (end lower hash_key lossy vm http none machine reads.pool counted)
    unfolding handle_request
    handled_without_body e =
        ap (collected lower hash_key lossy vm http reads counted machine req peer) e

    abbrev Refused : Type 0
    Refused =
        (body : Bytes) × (status : ℕ) × (msg : String) × (req.body ≡ some body)
        × ((after body).1.rejected ≡ some (status, msg))
        × (¬ InRange status)

    refused_of_decided :
        (body : Bytes) (r : Option (ℕ × String))
        → req.body ≡ some body
        → (after body).1.rejected ≡ r
        → decided body r ≡ panicked
        → Refused
    refused_of_decided body none eb er h =
        let (end', e) =
          proceed-returns lower hash_key lossy vm http laws reads counted (parsed body)
            (after body) in
        let bad : returned end' ≡ panicked = sym e ∙ h in cc
    refused_of_decided body (some (status, msg)) eb er h =
        elim (error_response_lem http laws status msg) [
          | inl (lo, hi, e) ↦
              let e' = errors status msg (after body) reads.pool (inc "rejected" counted) lo hi in
              let bad : returned (ends status msg (after body) reads.pool (inc "rejected" counted))
                  ≡ panicked =
                sym e' ∙ h in
              cc
          | inr (out, e) ↦ (body, status, msg, eb, er, out)
        ]

    refused_of_panic : handled ≡ panicked → Refused
    refused_of_panic h = from req.body refl
      where
        from : (o : Option Bytes) → req.body ≡ o → Refused
        from none e =
            let bad : returned (end lower hash_key lossy vm http none machine reads.pool counted)
                ≡ panicked =
              sym (handled_without_body e) ∙ h in
            cc
        from (some body) e =
            refused_of_decided body (after body).1.rejected e refl
              (sym (handled_of_body body e) ∙ h)

    panic_of_refused : Refused → handled ≡ panicked
    panic_of_refused (body, status, msg, eb, er, out) =
        elim (error_response_lem http laws status msg) [
          | inl (lo, hi, e) ↦ absurd (out (lo, hi))
          | inr (_, e) ↦ handled_of_body body eb ∙ ap (decided body) er ∙ rw e
        ]

    -- With its metrics at hand the handler panics exactly if the body has been read and
    -- `on_request` has rejected the request with a number that is no status of HTTP. On every other
    -- path it returns.
    pub handle_request-panics_iff :
        (handle_request lower hash_key lossy vm http reads (some m) machine req peer ≡ panicked) ↔ (
          (body : Bytes) × (status : ℕ) × (msg : String) × (req.body ≡ some body)
          × ((after_on_request lower hash_key lossy vm http reads machine
                (parse lower hash_key lossy vm http req body peer)).1.rejected
              ≡ some (status, msg))
          × (¬ ((100 ≤ status) × (status < 1000))))
    handle_request-panics_iff = (refused_of_panic, panic_of_refused)

    -- A request that `on_request` rejects with a status of HTTP is answered with that status and an
    -- error body of the message. The upstream is not asked: the pool stays as it was read and the
    -- machine as `on_request` left it.
    pub handle_request-rejected :
        (body : Bytes) (status : ℕ) (msg : String)
        → req.body ≡ some body
        → (after_on_request lower hash_key lossy vm http reads machine
            (parse lower hash_key lossy vm http req body peer)).1.rejected
          ≡ some (status, msg)
        → 100 ≤ status
        → status < 1000
        → handle_request lower hash_key lossy vm http reads (some m) machine req peer
          ≡ returned (record {
            response = some (json_error status msg);
            machine =
                (after_on_request lower hash_key lossy vm http reads machine
                  (parse lower hash_key lossy vm http req body peer)).0;
            pool = reads.pool;
            metrics = observe (inc "rejected" (inc req.method m));
          })
    handle_request-rejected body status msg eb er lo hi =
        handled_of_body body eb
        ∙ ap (decided body) er
        ∙ errors status msg (after body) reads.pool (inc "rejected" counted) lo hi

    -- The session when the request is sent: after `on_route` and `on_transform`.
    abbrev pub sending : Bytes → Option String × Session lower vm
    sending body =
        let (upstream, routed) = run_on_route lower vm reads.on_route (after body) in
        (upstream, run_on_transform lower vm reads.on_transform routed)

    abbrev sends : Bytes → UpstreamPool → Option String → Run End
    sends body pool url =
        forward lower hash_key lossy vm http reads pool counted (sending body).1 (parsed body) url

    -- A request that `on_request` lets pass, but for whose upstream the pool has no URL, is
    -- answered 503. The upstream is the one that `on_route` has chosen, or "default" where it has
    -- chosen none.
    pub handle_request-unroutable :
        (body : Bytes) (pool : UpstreamPool)
        → req.body ≡ some body
        → (after body).1.rejected ≡ none
        → next_url hash_key
            (or_default (sending body).0)
            (some (client_ip_of (collect_headers lower req.headers []) peer))
            reads.pool
          ≡ returned (none, pool)
        → handled ≡ returned (ends 503 "Service Unavailable" (sending body).1 pool counted)
    unfolding proceed forward parse
    handle_request-unroutable body pool eb er en =
        handled_of_body body eb
        ∙ ap (decided body) er
        ∙ ap (λ r. r >>= (λ (u, p). sends body p u)) en
        ∙ errors 503 "Service Unavailable" (sending body).1 pool counted (omega arith) (omega arith)

    -- A request that `on_request` lets pass, and for whose upstream the pool has a URL, is answered
    -- 502 if sending it there fails.
    pub handle_request-bad_gateway :
        (body : Bytes) (target : String) (pool : UpstreamPool)
        → req.body ≡ some body
        → (after body).1.rejected ≡ none
        → next_url hash_key
            (or_default (sending body).0)
            (some (client_ip_of (collect_headers lower req.headers []) peer))
            reads.pool
          ≡ returned (some target, pool)
        → forward_request lower http req.method
            (concat (trim_end_slashes target) req.path)
            (forward_headers
              (client_ip_of (collect_headers lower req.headers []) peer)
              (sending body).1.1.req_headers)
            body
          ≡ none
        → handled ≡ returned (ends 502 "Bad Gateway" (sending body).1 pool counted)
    unfolding proceed forward parse
    handle_request-bad_gateway body target pool eb er en failed =
        handled_of_body body eb
        ∙ ap (decided body) er
        ∙ ap (λ r. r >>= (λ (u, p). sends body p u)) en
        ∙ ap (forwarded lower hash_key lossy vm http reads pool counted (sending body).1) failed
        ∙ errors 502 "Bad Gateway" (sending body).1 pool counted (omega arith) (omega arith)
