-- ===== src/Admin/Serving/Routing.antt =====
-- admin.rs: what a route answers and leaves behind, and what the line of a request means.
use dgsw_class_pg_proxy.Prelude.{
  ℕ, ◌≡◌, refl, String, Bool, true, false, ◌&&◌, Option, none, some, List, [], ◌∷◌, arith, str_eq,
  str_eq_iff, if◌then◌else◌,
}
use dgsw_class_pg_proxy.Prelude.Run.{returned}
use dgsw_class_pg_proxy.Prelude.Text.{Bytes}
use dgsw_class_pg_proxy.Config.{PluginsConfig}
use dgsw_class_pg_proxy.Lua.Sources.{load}
use dgsw_class_pg_proxy.Metrics.{Metrics, gather}
use dgsw_class_pg_proxy.Handler.{Http, Response, build_response, json_headers}
use dgsw_class_pg_proxy.Handler.Laws.{HttpLaws}
use dgsw_class_pg_proxy.Tls.{TlsLib, TlsError, Result, ok, err, HotTlsAcceptor, reload}
use dgsw_class_pg_proxy.Tls.Reload.{reloads}
use dgsw_class_pg_proxy.Admin.{
  ok_json, Route, reload_plugins, reload_tls, get_metrics, health, list_plugins, not_found,
  route_of, AdminState, handle_route, text_headers, on_tls, reload_answer, not_found_body,
  tls_disabled_body, reloaded_body, health_body, plugins_body,
}

differ : str_eq "/reload" "/reload/tls" ≡ false
unfolding str_eq
differ = refl

abbrev pub is_post_to : String → String → String → Bool
is_post_to target method path = str_eq method "POST" && str_eq path target

module _ (lib : TlsLib) where
  abbrev pub reloaded :
      List (String → Option Bytes) → Option (HotTlsAcceptor lib) → Option (HotTlsAcceptor lib)
  reloaded row none = none
  reloaded row (some a) = some (reloads lib row a)

module _ (http : Http) (laws : HttpLaws http) (tls_lib : TlsLib) (show : TlsError → Bytes)
    (encode : Metrics → Bytes) (cfg : PluginsConfig)
    (text_header : http.valid_header "content-type" "text/plain; version=0.0.4" ≡ true) where
  abbrev State : Type 0
  State = AdminState http tls_lib show encode

  -- What a route leaves behind.
  abbrev pub changed : (String → Option String) → (String → Option Bytes) → Route → State → State
  changed files open_file reload_plugins st = record st { sources = load files cfg }
  changed files open_file reload_tls st = record st {
    tls = reloaded tls_lib (open_file ∷ []) st.tls;
  }
  changed files open_file _ st = st

  built :
      (status : ℕ) (body : Bytes)
      → http.valid_status status ≡ true
      → (r : Response) × (build_response http status json_headers body ≡ some r)
  unfolding build_response
  built status body h = (
    record { status = status; headers = json_headers; body = body },
    rw (h, laws.json_header) refl,
  )

  valid_200 : http.valid_status 200 ≡ true
  valid_200 = (laws.status_iff 200).1 (omega arith, omega arith)

  json : (body : Bytes) → (r : Response) × (ok_json http body ≡ some r)
  unfolding ok_json
  json body = built 200 body valid_200

  reload_answered :
      (result : Result (Unit {0}))
      → (r : Response) × (reload_answer http tls_lib show encode result ≡ some r)
  reload_answered (ok u) = json _
  reload_answered (err e) = json _

  on_tls_lem :
      (open_file : String → Option Bytes) (tls : Option (HotTlsAcceptor tls_lib))
      → (r : Response) × (on_tls http tls_lib show encode open_file tls
          ≡ (some r, reloaded tls_lib (open_file ∷ []) tls))
  unfolding reloads
  on_tls_lem open_file none = let (r, e) = json tls_disabled_body in (r, rw e refl)
  on_tls_lem open_file (some a) =
      let (r, e) = reload_answered (reload tls_lib open_file a).0 in (r, rw e refl)

  metrics_text :
      (body : Bytes) → (r : Response) × (build_response http 200 text_headers body ≡ some r)
  unfolding build_response
  metrics_text body = (
    record { status = 200; headers = text_headers; body = body },
    rw (valid_200, text_header) refl,
  )

  -- With metrics, every route answers.
  pub handle_route_lem :
      (files : String → Option String) (open_file : String → Option Bytes) (route : Route)
      (st : State) (m : Metrics)
      → st.metrics ≡ some m
      → (r : Response) × (handle_route http tls_lib show encode files open_file cfg route st
          ≡ returned (some r, changed files open_file route st))
  unfolding handle_route gather
  handle_route_lem files open_file reload_plugins st m h =
      let (r, e) = json reloaded_body in (r, rw e refl)
  handle_route_lem files open_file reload_tls st m h =
      let (r, e) = on_tls_lem open_file st.tls in (r, rw e refl)
  handle_route_lem files open_file get_metrics st m h =
      let (r, e) = metrics_text (encode m) in (r, rw (h, e) refl)
  handle_route_lem files open_file health st m h = let (r, e) = json health_body in (r, rw e refl)
  handle_route_lem files open_file list_plugins st m h =
      let (r, e) = json (plugins_body st.sources.pipeline) in (r, rw e refl)
  handle_route_lem files open_file not_found st m h =
      let (r, e) = built 404 not_found_body ((laws.status_iff 404).1 (omega arith, omega arith)) in
      (r, rw e refl)

  pub changed_metrics :
      (files : String → Option String) (open_file : String → Option Bytes) (route : Route)
      (st : State)
      → (changed files open_file route st).metrics ≡ st.metrics
  changed_metrics files open_file reload_plugins st = refl
  changed_metrics files open_file reload_tls st = refl
  changed_metrics files open_file get_metrics st = refl
  changed_metrics files open_file health st = refl
  changed_metrics files open_file list_plugins st = refl
  changed_metrics files open_file not_found st = refl

  -- What a route means that reloads the plugins, or the certificate, exactly if it is so said.
  abbrev pub Means : Bool → Bool → Route → Type 0
  Means plugins tls route =
      (files : String → Option String) (open_file : String → Option Bytes) (st : State)
      → ((changed files open_file route st).sources
          ≡ (if plugins then load files cfg else st.sources))
        × ((changed files open_file route st).tls
            ≡ (if tls then reloaded tls_lib (open_file ∷ []) st.tls else st.tls))

  tests-Means :
      (a b c d e : Bool)
      → (a ≡ true → b ≡ false)
      → Means a b (
          if a
          then reload_plugins
          else if b
          then reload_tls
          else if c
          then get_metrics
          else if d
          then health
          else if e
          then list_plugins
          else not_found)
  tests-Means true true c d e h = absurd (ground arith)
  tests-Means true false c d e h = λ files open_file st. (refl, refl)
  tests-Means false true c d e h = λ files open_file st. (refl, refl)
  tests-Means false false true d e h = λ files open_file st. (refl, refl)
  tests-Means false false false true e h = λ files open_file st. (refl, refl)
  tests-Means false false false false true h = λ files open_file st. (refl, refl)
  tests-Means false false false false false h = λ files open_file st. (refl, refl)

  pub route_of-Means :
      (method path : String)
      → Means
          (is_post_to "/reload" method path)
          (is_post_to "/reload/tls" method path)
          (route_of method path)
  unfolding route_of
  route_of-Means method path =
      tests-Means _ _ _ _ _ (λ h. ground (arith, str_eq_iff path "/reload", differ))
