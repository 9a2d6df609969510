-- ===== src/Handler/Errors.antt =====
-- handler.rs: error responses, and that the stages after `on_request` return.
use dgsw_class_pg_proxy.Prelude.{
  ℕ, ◌≤◌, ◌<◌, ◌≡◌, refl, String, ◌⊎◌, inl, inr, Option, none, some, arith, Bool-cases,
}
use dgsw_class_pg_proxy.Prelude.Maps.{StrMap}
use dgsw_class_pg_proxy.Prelude.Run.{returned, panicked}
use dgsw_class_pg_proxy.Prelude.Text.{Bytes}
use dgsw_class_pg_proxy.Upstream.Balancer.{Balancer}
use dgsw_class_pg_proxy.Upstream.Pool.{UpstreamPool, resolve, next_url}
use dgsw_class_pg_proxy.Upstream.Pool.Lookup.{Asks, next_url-Asks}
use dgsw_class_pg_proxy.Lua.Engine.{Vm, Session, run_on_route, run_on_transform}
use dgsw_class_pg_proxy.Metrics.{Metrics}
use dgsw_class_pg_proxy.Handler.{
  Http, Response, Reads, Parsed, Handled, end, end_with, build_response, error_response, error_body,
  json_headers, forwarded, forward, proceed, or_default,
}
use dgsw_class_pg_proxy.Handler.Laws.{HttpLaws}

abbrev pub json_error : ℕ → String → Response
json_error status msg = record {
  status = status;
  headers = json_headers;
  body = error_body status msg;
}

-- An error response is made at a status of HTTP, and panics at any other.
pub error_response_lem :
    (http : Http) (laws : HttpLaws http) (status : ℕ) (msg : String)
    → ((100 ≤ status)
        × (status < 1000)
        × (error_response http status msg ≡ returned (json_error status msg)))
      ⊎ ((¬ ((100 ≤ status) × (status < 1000))) × (error_response http status msg ≡ panicked))
unfolding error_response build_response
error_response_lem http laws status msg = elim (Bool-cases (http.valid_status status)) [
  | inl e ↦
      let range = (laws.status_iff status).0 e in inl (range.0, range.1, rw (e, laws.json_header))
  | inr e ↦ inr (λ range. ground (arith, (laws.status_iff status).1 range), rw e)
]

pub error_response_valid :
    (http : Http) (laws : HttpLaws http) (status : ℕ) (msg : String)
    → 100 ≤ status
    → status < 1000
    → error_response http status msg ≡ returned (json_error status msg)
error_response_valid http laws status msg lo hi = elim (error_response_lem http laws status msg) [
  | inl (_, _, e) ↦ e
  | inr (n, _) ↦ absurd (n (lo, hi))
]

pub next_url-returns :
    (hash_key : String → ℕ) (key : Option String) (pool : UpstreamPool) (name : String)
    → (url : Option String) × (pool' : UpstreamPool) × (next_url hash_key name key pool
        ≡ returned (url, pool'))
next_url-returns hash_key key pool name =
    from (resolve name pool) (next_url-Asks hash_key key pool name)
  where
    from :
        (o : Option (String × Balancer))
        → Asks hash_key pool o (next_url hash_key name key pool)
        → (url : Option String) × (pool' : UpstreamPool) × (next_url hash_key name key pool
            ≡ returned (url, pool'))
    from none e = (none, pool, e)
    from (some (k, b)) (url, b', e, p) = (url, _, e)

module _ (lower : String → String) (hash_key : String → ℕ) (lossy : Bytes → Bytes) (vm : Vm)
    (http : Http) (laws : HttpLaws http) where
  abbrev pub End : Type 0
  End = Handled lower hash_key lossy vm http

  abbrev pub error_end : ℕ → String → Session lower vm → UpstreamPool → Metrics → End
  error_end status msg st pool m =
      end lower hash_key lossy vm http (some (json_error status msg)) st.0 pool m

  pub end_with_error :
      (status : ℕ) (msg : String) (st : Session lower vm) (pool : UpstreamPool) (m : Metrics)
      → 100 ≤ status
      → status < 1000
      → end_with lower hash_key lossy vm http (error_response http status msg) st.0 pool m
        ≡ returned (error_end status msg st pool m)
  end_with_error status msg st pool m lo hi = rw (error_response_valid http laws status msg lo hi)

  module _ (reads : Reads) (m : Metrics) (req : Parsed) where
    forwarded-returns :
        (pool : UpstreamPool) (st : Session lower vm) (answer : Option (ℕ × StrMap String × Bytes))
        → (h : End) × (forwarded lower hash_key lossy vm http reads pool m st answer ≡ returned h)
    forwarded-returns pool st none = (
      error_end 502 "Bad Gateway" st pool m,
      end_with_error 502 "Bad Gateway" st pool m (omega arith) (omega arith),
    )
    forwarded-returns pool st (some answer) = (_, refl)

    forward-returns :
        (pool : UpstreamPool) (st : Session lower vm) (url : Option String)
        → (h : End) × (forward lower hash_key lossy vm http reads pool m st req url ≡ returned h)
    unfolding forward
    forward-returns pool st none = (
      error_end 503 "Service Unavailable" st pool m,
      end_with_error 503 "Service Unavailable" st pool m (omega arith) (omega arith),
    )
    forward-returns pool (s, c) (some target) = forwarded-returns pool (s, c) _

    pub proceed-returns :
        (st : Session lower vm)
        → (h : End) × (proceed lower hash_key lossy vm http reads m st req ≡ returned h)
    unfolding proceed
    proceed-returns st =
        let (upstream, routed) = run_on_route lower vm reads.on_route st in
        let transformed = run_on_transform lower vm reads.on_transform routed in
        let (url, pool, e) =
          next_url-returns hash_key (some req.ip) reads.pool (or_default upstream) in
        let (h, r) = forward-returns pool transformed url in (h, rw e r)
