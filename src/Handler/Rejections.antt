-- ===== src/Handler/Rejections.antt =====
-- handler.rs: a rejection after `on_request` has no effect.
use dgsw_class_pg_proxy.Prelude.{ℕ, ◌≡◌, refl, ap, ◌∙◌, String, Option, none, some}
use dgsw_class_pg_proxy.Prelude.Maps.{StrMap}
use dgsw_class_pg_proxy.Prelude.Run.{Run, returned, panicked, ◌>>=◌}
use dgsw_class_pg_proxy.Prelude.Text.{Bytes}
use dgsw_class_pg_proxy.Upstream.Pool.{UpstreamPool, next_url}
use dgsw_class_pg_proxy.Lua.Engine.{Vm, Session, run_on_route, run_on_transform}
use dgsw_class_pg_proxy.Lua.Engine.Rejections.{Rejection, mark, hooks-mark}
use dgsw_class_pg_proxy.Metrics.{Metrics}
use dgsw_class_pg_proxy.Handler.{
  Http, Reads, Parsed, Handled, end, build_response, choose_body, respond, forwarded, forward,
  proceed, or_default,
}

module _ (lower : String → String) (hash_key : String → ℕ) (lossy : Bytes → Bytes) (vm : Vm)
    (http : Http) where
  abbrev End : Type 0
  End = Handled lower hash_key lossy vm http

  abbrev marked : Rejection → Session lower vm → Session lower vm
  marked r (s, c) = (s, mark r c)

  module _ (reads : Reads) (pool : UpstreamPool) (m : Metrics) (st : Session lower vm)
      (r : Rejection) where
    respond-mark :
        (answer : ℕ × StrMap String × Bytes)
        → respond lower hash_key lossy vm http reads pool m (marked r st) answer
          ≡ respond lower hash_key lossy vm http reads pool m st answer
    unfolding respond
    respond-mark (status, headers, body) =
        let answered = record (st.1) {
          res_status = status;
          res_headers = headers;
          res_body = lossy body;
        } in
        ap {B = End}
          (λ (s : Session lower vm).
            end lower hash_key lossy vm http
              (build_response http s.1.res_status s.1.res_headers (choose_body s.1.res_body body))
              s.0 pool m)
          (hooks-mark lower vm reads.on_response (st.0, answered) r).2.1

    forwarded-mark :
        (answer : Option (ℕ × StrMap String × Bytes))
        → forwarded lower hash_key lossy vm http reads pool m (marked r st) answer
          ≡ forwarded lower hash_key lossy vm http reads pool m st answer
    forwarded-mark none = refl
    forwarded-mark (some answer) = ap returned (respond-mark answer)

    forward-mark :
        (req : Parsed) (url : Option String)
        → forward lower hash_key lossy vm http reads pool m (marked r st) req url
          ≡ forward lower hash_key lossy vm http reads pool m st req url
    unfolding forward
    forward-mark req none = refl
    forward-mark req (some target) = forwarded-mark _

  -- Once `on_request` has let a request pass, nothing that is handled later depends on whether it
  -- is rejected: with any other rejection in the context the run ends in the same response,
  -- machine, pool and metrics.
  pub proceed-mark :
      (reads : Reads) (m : Metrics) (st : Session lower vm) (req : Parsed) (r : Rejection)
      → proceed lower hash_key lossy vm http reads m (st.0, mark r st.1) req
        ≡ proceed lower hash_key lossy vm http reads m st req
  unfolding proceed
  proceed-mark reads m st req r =
      let x = run_on_route lower vm reads.on_route st in
      let (r', e) = (hooks-mark lower vm reads.on_route st r).0 in
      let (r'', e') = (hooks-mark lower vm reads.on_transform x.1 r').1 in
      ap after_route e
      ∙ ap (after_transform x.0) e'
      ∙ asked x.0 (run_on_transform lower vm reads.on_transform x.1) r''
    where
      after_transform : Option String → Session lower vm → Run End
      after_transform up t =
          next_url hash_key (or_default up) (some req.ip) reads.pool
          >>= (λ (url, pool). forward lower hash_key lossy vm http reads pool m t req url)

      after_route : Option String × Session lower vm → Run End
      after_route y = after_transform y.0 (run_on_transform lower vm reads.on_transform y.1)

      bound :
          (t : Session lower vm) (r : Rejection) (u : Run (Option String × UpstreamPool))
          → (u >>= (λ (url, pool).
              forward lower hash_key lossy vm http reads pool m (marked r t) req url))
            ≡ (u >>= (λ (url, pool). forward lower hash_key lossy vm http reads pool m t req url))
      bound t r (returned (url, pool)) = forward-mark reads pool m t r req url
      bound t r panicked = refl

      asked :
          (up : Option String) (t : Session lower vm) (r : Rejection)
          → after_transform up (marked r t) ≡ after_transform up t
      asked up t r = bound t r (next_url hash_key (or_default up) (some req.ip) reads.pool)
