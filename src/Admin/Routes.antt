-- ===== src/Admin/Routes.antt =====
-- admin.rs: what each route answers and changes.
use dgsw_class_pg_proxy.Prelude.{
  ℕ, ◌≤◌, ◌<◌, ◌≡◌, refl, ◌∙◌, ap, sym, ◌≢◌, ◌⊎◌, inl, inr, String, Option, none, some, str_eq,
  str_eq_iff, arith,
}
use dgsw_class_pg_proxy.Prelude.Run.{Run, returned, panicked, ◌>>=◌}
use dgsw_class_pg_proxy.Prelude.Text.{Bytes}
use dgsw_class_pg_proxy.Config.{PluginsConfig}
use dgsw_class_pg_proxy.Lua.Sources.{load}
use dgsw_class_pg_proxy.Metrics.{Metrics, gather}
use dgsw_class_pg_proxy.Handler.{Http, Response, build_response, json_headers}
use dgsw_class_pg_proxy.Handler.Laws.{HttpLaws}
use dgsw_class_pg_proxy.Tls.{TlsLib, TlsError}
use dgsw_class_pg_proxy.Admin.{
  ok_json, Route, reload_plugins, reload_tls, get_metrics, health, list_plugins, not_found,
  route_of, AdminState, handle_route, handle_admin, text_headers, on_tls, reloaded_body,
}

-- Only the two routes of POST change anything.
route-changes :
    (method path : String)
    → ((route_of method path ≡ reload_plugins) × (method ≡ "POST") × (path ≡ "/reload"))
      ⊎ ((route_of method path ≡ reload_tls) × (method ≡ "POST") × (path ≡ "/reload/tls"))
      ⊎ ((route_of method path ≢ reload_plugins) × (route_of method path ≢ reload_tls))
unfolding route_of
route-changes method path =
    ground
      (arith, str_eq_iff method "POST", str_eq_iff path "/reload", str_eq_iff path "/reload/tls")

json_valid :
    (http : Http) (laws : HttpLaws http) (status : ℕ) (body : Bytes)
    → 100 ≤ status
    → status < 1000
    → build_response http status json_headers body
      ≡ some (record { status = status; headers = json_headers; body = body })
unfolding build_response
json_valid http laws status body lo hi = rw ((laws.status_iff status).1 (lo, hi), laws.json_header)

module _ (http : Http) (laws : HttpLaws http) (tls_lib : TlsLib) (show : TlsError → Bytes)
    (encode : Metrics → Bytes) (files : String → Option String) (open_file : String → Option Bytes)
    (cfg : PluginsConfig) where
  abbrev State : Type 0
  State = AdminState http tls_lib show encode

  abbrev handle : String → String → State → Run (Option Response × State)
  handle = handle_admin http tls_lib show encode files open_file cfg

  metrics_keep :
      (st st' : State) (r : Option Response)
      → handle_route http tls_lib show encode files open_file cfg get_metrics st ≡ returned (r, st')
      → st' ≡ st
  unfolding handle_route gather
  metrics_keep st st' r e = from st.metrics refl
    where
      result : Option Metrics → Run (Option Response × State)
      result m =
          gather encode m >>= (λ body. returned (build_response http 200 text_headers body, st))

      from : (o : Option Metrics) → st.metrics ≡ o → st' ≡ st
      from none em =
          let bad : ◌≡◌ {A = Run (Option Response × State)} panicked (returned (r, st')) =
            sym (ap result em) ∙ e in
          cc
      from (some m) em =
          let good : ◌≡◌ {A = Run (Option Response × State)}
              (returned (build_response http 200 text_headers (encode m), st)) (returned (r, st')) =
            sym (ap result em) ∙ e in
          cc

  route_keeps :
      (route : Route) (st st' : State) (r : Option Response)
      → route ≢ reload_plugins
      → route ≢ reload_tls
      → handle_route http tls_lib show encode files open_file cfg route st ≡ returned (r, st')
      → st' ≡ st
  unfolding handle_route gather
  route_keeps reload_plugins st st' r p q e = absurd (p refl)
  route_keeps reload_tls st st' r p q e = absurd (q refl)
  route_keeps get_metrics st st' r p q e = metrics_keep st st' r e
  route_keeps health st st' r p q e = ground arith
  route_keeps list_plugins st st' r p q e = ground arith
  route_keeps not_found st st' r p q e = ground arith

  reload_changes :
      (st st' : State) (r : Option Response)
      → handle_route http tls_lib show encode files open_file cfg reload_plugins st
        ≡ returned (r, st')
      → st' ≡ record st { sources = load files cfg }
  unfolding handle_route
  reload_changes st st' r e = ground arith

  tls_changes :
      (st st' : State) (r : Option Response)
      → handle_route http tls_lib show encode files open_file cfg reload_tls st ≡ returned (r, st')
      → st' ≡ record st { tls = (on_tls http tls_lib show encode open_file st.tls).1 }
  unfolding handle_route
  tls_changes st st' r e = ground arith

  -- `POST /reload` always answers 200, and puts the sources that the files of the moment give in
  -- place of the old ones, whichever of them could be read; nothing else changes.
  handle_admin-reload :
      (st : State)
      → handle_admin http tls_lib show encode files open_file cfg "POST" "/reload" st
        ≡ returned (
          some (record { status = 200; headers = json_headers; body = reloaded_body }),
          record st { sources = load files cfg },
        )
  unfolding handle_admin handle_route ok_json route_of str_eq
  handle_admin-reload st =
      ap (λ (r : Option Response). returned (r, record st { sources = load files cfg }))
        (json_valid http laws 200 reloaded_body (omega arith) (omega arith))

  -- Whatever a request to the admin API is, the sources change at `POST /reload` only and the TLS
  -- acceptor at `POST /reload/tls` only, and the metrics never.
  handle_admin-changes :
      (method path : String) (st st' : State) (r : Option Response)
      → handle_admin http tls_lib show encode files open_file cfg method path st ≡ returned (r, st')
      → ((st'.sources ≡ st.sources) ⊎ ((method ≡ "POST") × (path ≡ "/reload")))
        × ((st'.tls ≡ st.tls) ⊎ ((method ≡ "POST") × (path ≡ "/reload/tls")))
        × (st'.metrics ≡ st.metrics)
  unfolding handle_admin handle_route
  handle_admin-changes method path st st' r e = elim (route-changes method path) [
    | inl (er, m, p) ↦
        let same : st' ≡ record st { sources = load files cfg } = reload_changes st st' r (
          sym (ap (λ rt. handle_route http tls_lib show encode files open_file cfg rt st) er)
          ∙ e) in
        (inr (m, p), inl (ap (λ (s : State). s.tls) same), ap (λ (s : State). s.metrics) same)
    | inr (inl (er, m, p)) ↦
        let same : st' ≡ record st { tls = (on_tls http tls_lib show encode open_file st.tls).1 } =
          tls_changes st st' r (
            sym (ap (λ rt. handle_route http tls_lib show encode files open_file cfg rt st) er)
            ∙ e) in
        (inl (ap (λ (s : State). s.sources) same), inr (m, p), ap (λ (s : State). s.metrics) same)
    | inr (inr (p, q)) ↦
        let same = route_keeps (route_of method path) st st' r p q e in
        (
          inl (ap (λ (s : State). s.sources) same),
          inl (ap (λ (s : State). s.tls) same),
          ap (λ (s : State). s.metrics) same,
        )
  ]
