-- ===== src/Admin/Serving/Effects.antt =====
-- admin.rs: what the requests of a connection leave behind.
use dgsw_class_pg_proxy.Prelude.{
  ℕ, ◌+◌, ◌≡◌, refl, ap, ◌∙◌, String, Bool, true, false, Option, none, some, List, [], ◌∷◌, length,
  arith, if◌then◌else◌,
}
use dgsw_class_pg_proxy.Prelude.Run.{Run, returned}
use dgsw_class_pg_proxy.Prelude.Text.{Bytes}
use dgsw_class_pg_proxy.Config.{PluginsConfig}
use dgsw_class_pg_proxy.Lua.Sources.{PluginSources, load}
use dgsw_class_pg_proxy.Metrics.{Metrics}
use dgsw_class_pg_proxy.Handler.{Http, Response}
use dgsw_class_pg_proxy.Handler.Laws.{HttpLaws}
use dgsw_class_pg_proxy.Tls.{TlsLib, TlsError, HotTlsAcceptor}
use dgsw_class_pg_proxy.Tls.Reload.{reloads}
use dgsw_class_pg_proxy.Admin.{route_of, AdminState, handle_admin}
use dgsw_class_pg_proxy.Admin.Serving.{AdminEvent, asked, exchanged, serve_admin}
use dgsw_class_pg_proxy.Admin.Serving.Routing.{
  is_post_to, reloaded, changed, changed_metrics, handle_route_lem, route_of-Means,
}

-- The requests of a row of events.
pub asked_in : List AdminEvent → ℕ
asked_in [] = 0
asked_in (asked method path files open_file ∷ events) = asked_in events + 1
asked_in (exchanged sources ∷ events) = asked_in events

-- The sources that were put in place last: those of the watch, or what the files gave at the last
-- `POST /reload`.
pub last_sources : PluginsConfig → List AdminEvent → PluginSources → PluginSources
last_sources cfg [] old = old
last_sources cfg (asked method path files open_file ∷ events) old =
    last_sources cfg events (if is_post_to "/reload" method path then load files cfg else old)
last_sources cfg (exchanged sources ∷ events) old = last_sources cfg events sources

-- The files at each `POST /reload/tls`.
pub tls_reloads : List AdminEvent → List (String → Option Bytes)
tls_reloads [] = []
tls_reloads (asked method path files open_file ∷ events) =
    let later = tls_reloads events in
    if is_post_to "/reload/tls" method path then open_file ∷ later else later
tls_reloads (exchanged sources ∷ events) = tls_reloads events

module _ (http : Http) (laws : HttpLaws http) (tls_lib : TlsLib) (show : TlsError → Bytes)
    (encode : Metrics → Bytes) (cfg : PluginsConfig)
    (text_header : http.valid_header "content-type" "text/plain; version=0.0.4" ≡ true) where
  abbrev State : Type 0
  State = AdminState http tls_lib show encode

  -- After a connection: one answer for each request; the sources that were put in place last; the
  -- acceptor after the reloads of the certificate in their order; and the metrics as they were.
  abbrev Effect : State → List AdminEvent → List Response × Run State → Type 0
  Effect st events (answers, left) =
      (length answers ≡ asked_in events)
      × ((st' : State) × (left ≡ returned st')
          × (st'.sources ≡ last_sources cfg events st.sources)
          × (st'.tls ≡ reloaded tls_lib (tls_reloads events) st.tls)
          × (st'.metrics ≡ st.metrics))

  reloaded_nil : (tls : Option (HotTlsAcceptor tls_lib)) → tls ≡ reloaded tls_lib [] tls
  unfolding reloads
  reloaded_nil none = refl
  reloaded_nil (some a) = refl

  reloaded_cons :
      (b : Bool) (open_file : String → Option Bytes) (row : List (String → Option Bytes))
      (tls : Option (HotTlsAcceptor tls_lib))
      → reloaded tls_lib row (if b then reloaded tls_lib (open_file ∷ []) tls else tls)
        ≡ reloaded tls_lib (if b then open_file ∷ row else row) tls
  unfolding reloads
  reloaded_cons true open_file row none = refl
  reloaded_cons true open_file row (some a) = refl
  reloaded_cons false open_file row tls = refl

  serve-Effect :
      (events : List AdminEvent) (st : State) (m : Metrics)
      → st.metrics ≡ some m
      → Effect st events (serve_admin http tls_lib show encode cfg events st)
  unfolding serve_admin asked_in last_sources tls_reloads handle_admin
  serve-Effect [] st m h = (refl, (st, refl, refl, reloaded_nil st.tls, refl))
  serve-Effect (exchanged sources ∷ later) st m h =
      serve-Effect later (record st { sources = sources }) m h
  serve-Effect (asked method path files open_file ∷ later) st m h =
      let route = route_of method path in
      let st₁ : State =
        changed http laws tls_lib show encode cfg text_header files open_file route st in
      let (r, e) =
        handle_route_lem http laws tls_lib show encode cfg text_header files open_file route st m
          h in
      let (sources, tls) =
        route_of-Means http laws tls_lib show encode cfg text_header method path files open_file
          st in
      let same =
        changed_metrics http laws tls_lib show encode cfg text_header files open_file route st in
      let (len, (st', left, sources', tls', metrics')) = serve-Effect later st₁ m (same ∙ h) in
      rw (e, serve_admin, handle_admin)
        (
          omega (arith, len),
          (
            st',
            left,
            sources' ∙ ap (last_sources cfg later) sources,
            tls'
                ∙ ap (reloaded tls_lib (tls_reloads later)) tls
                ∙ reloaded_cons (is_post_to "/reload/tls" method path) open_file (tls_reloads later)
                    st.tls,
            metrics' ∙ same,
          ),
        )

  -- Once the metrics are set up, and if the header of their text is valid, as documented, a
  -- connection to the admin API has an answer for each request, whatever they are and whatever the
  -- watch exchanges meanwhile. After it the sources are those that were put in place last, by the
  -- watch or by a `POST /reload`, the acceptor, if there is one, has been reloaded at each `POST
  -- /reload/tls` in their order, and the metrics are as they were.
  pub serve_admin_lem :
      (events : List AdminEvent) (st : State) (m : Metrics)
      → st.metrics ≡ some m
      → (length (serve_admin http tls_lib show encode cfg events st).0 ≡ asked_in events)
        × ((st' : State) × ((serve_admin http tls_lib show encode cfg events st).1 ≡ returned st')
            × (st'.sources ≡ last_sources cfg events st.sources)
            × (st'.tls ≡ reloaded tls_lib (tls_reloads events) st.tls)
            × (st'.metrics ≡ st.metrics))
  serve_admin_lem = serve-Effect
