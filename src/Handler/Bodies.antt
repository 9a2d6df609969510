-- ===== src/Handler/Bodies.antt =====
-- handler.rs: which body a forwarded request is answered with.
use dgsw_class_pg_proxy.Prelude.{
  ℕ, ◌≡◌, refl, sym, ap, ◌∙◌, subst, ◌↔◌, String, true, some, [], ◌∷◌, arith,
}
use dgsw_class_pg_proxy.Prelude.Maps.{StrMap}
use dgsw_class_pg_proxy.Prelude.Text.{Bytes}
use dgsw_class_pg_proxy.Upstream.Pool.{UpstreamPool}
use dgsw_class_pg_proxy.Lua.Base64.{is_utf8}
use dgsw_class_pg_proxy.Lua.Engine.{Vm, Session}
use dgsw_class_pg_proxy.Lua.Engine.Frame.{hooks-Extends}
use dgsw_class_pg_proxy.Metrics.{Metrics}
use dgsw_class_pg_proxy.Handler.{Http, Response, Reads, build_response, choose_body, respond}
use dgsw_class_pg_proxy.Handler.Laws.{LossyLaws}

choose_body_self : (bs : Bytes) → choose_body bs bs ≡ bs
choose_body_self [] = refl
choose_body_self (b ∷ bs) = refl

choose_body-lossy :
    (lossy : Bytes → Bytes) (laws : LossyLaws lossy) (bs : Bytes)
    → (choose_body (lossy bs) bs ≡ bs) ↔ (is_utf8 bs ≡ true)
choose_body-lossy lossy laws bs = (from (lossy bs) refl, to)
  where
    to : is_utf8 bs ≡ true → choose_body (lossy bs) bs ≡ bs
    to h = rw (laws.keeps bs h) (choose_body_self bs)

    from : (l : Bytes) → lossy bs ≡ l → choose_body l bs ≡ bs → is_utf8 bs ≡ true
    from [] e h =
        let empty = laws.nonempty bs e in
        subst (λ (z : Bytes). is_utf8 z ≡ true) (e ∙ sym empty) (laws.is_text bs)
    from (b ∷ l) e h = subst (λ (z : Bytes). is_utf8 z ≡ true) (e ∙ h) (laws.is_text bs)

build_response-body :
    (http : Http) (status : ℕ) (headers : StrMap String) (body : Bytes) (r : Response)
    → build_response http status headers body ≡ some r
    → r.body ≡ body
unfolding build_response
build_response-body http status headers body r h = ground arith

-- Whatever the plugins of `on_response` do, a response that is put together from an upstream's
-- answer has the upstream's body exactly if that body is UTF-8. Any other body is changed.
pub respond-body_iff :
    (lower : String → String) (hash_key : String → ℕ) (lossy : Bytes → Bytes) (vm : Vm)
    (http : Http) (laws : LossyLaws lossy) (reads : Reads) (pool : UpstreamPool) (m : Metrics)
    (st : Session lower vm) (status : ℕ) (headers : StrMap String) (body : Bytes) (r : Response)
    → (respond lower hash_key lossy vm http reads pool m st (status, headers, body)).response
      ≡ some r
    → (r.body ≡ body) ↔ (is_utf8 body ≡ true)
unfolding respond
respond-body_iff lower hash_key lossy vm http laws reads pool m (s, c) status headers body r h =
    let answered = record c { res_status = status; res_headers = headers; res_body = lossy body } in
    let kept = (hooks-Extends lower vm reads.on_response (s, answered)).3.res_body in
    let e : r.body ≡ choose_body (lossy body) body =
      build_response-body http _ _ _ r h ∙ ap (λ z. choose_body z body) kept in
    let (from, to) = choose_body-lossy lossy laws body in
    (λ same. from (sym e ∙ same), λ text. e ∙ to text)
