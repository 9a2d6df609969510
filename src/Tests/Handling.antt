-- ===== src/Tests/Handling.antt =====
-- Examples of handled requests.
use dgsw_class_pg_proxy.Prelude.{
  ℕ, ◌*◌, ◌+◌, ◌≡◌, ◌≤◌, ◌<◌, ◌↔◌, refl, String, true, Option, none, some, List, [], ◌∷◌, arith,
  str_eq, concat,
}
use dgsw_class_pg_proxy.Prelude.Maps.{lookup, insert}
use dgsw_class_pg_proxy.Prelude.Run.{Run, returned, panicked}
use dgsw_class_pg_proxy.Prelude.Text.{Bytes, trim_end_slashes}
use dgsw_class_pg_proxy.Upstream.Pool.{UpstreamPool, next_url, resolve}
use dgsw_class_pg_proxy.Upstream.Balancer.{next, round_robin_next, round_robin, fetch_add}
use dgsw_class_pg_proxy.Lua.Base64.{is_utf8, utf8_from, utf8_step}
use dgsw_class_pg_proxy.Lua.Context.{new_ctx, is_some, apply, run_script}
use dgsw_class_pg_proxy.Lua.Engine.{
  Session, attempt, load_plugin, call_function, stops, run_on_request, run_on_route,
  run_on_transform, run_on_response, every_plugin,
}
use dgsw_class_pg_proxy.Metrics.{no_metrics, count, inc, observe}
use dgsw_class_pg_proxy.Handler.{
  Request, proceed, Response, Reads, RawHeaders, Handled, after_on_request, parse, handle_request,
  respond, client_ip_of, collect_headers, forward_headers, forward_request, or_default,
  build_response,
}
use dgsw_class_pg_proxy.Handler.Bodies.{respond-body_iff}
use dgsw_class_pg_proxy.Handler.Errors.{json_error}
use dgsw_class_pg_proxy.Handler.Outcomes.{handle_request-panics_iff, handle_request-rejected}
use dgsw_class_pg_proxy.Lua.Engine.Rejections.{mark}
use dgsw_class_pg_proxy.Handler.Rejections.{proceed-mark}
use dgsw_class_pg_proxy.Handler.Counts.{one_if, handle_request-counts}
use dgsw_class_pg_proxy.Tests.{
  same_text, hash, lossy, lossy_laws, http, http_laws, vm, backends, pool, reads, request,
}

abbrev peer : String
peer = "10.0.0.1"

abbrev Result : Type 0
Result = Handled same_text hash lossy vm http

abbrev handled : List String → Run Result
handled names =
    handle_request same_text hash lossy vm http (reads names) (some no_metrics) none request peer

-- The session after `on_request`.
abbrev passed : List String → Session same_text vm
passed names =
    after_on_request same_text hash lossy vm http (reads names) none
      (parse same_text hash lossy vm http request [] peer)

denied : (passed ("deny.lua" ∷ [])).1.rejected ≡ some (403, "no")
unfolding after_on_request parse run_on_request attempt load_plugin call_function run_script apply
    lookup str_eq stops new_ctx utf8_from
denied = refl

handle_request-rejected_example :
    handled ("deny.lua" ∷ [])
    ≡ returned (record {
      response = some (json_error 403 "no");
      machine = (passed ("deny.lua" ∷ [])).0;
      pool = pool;
      metrics = observe (inc "rejected" (inc "GET" no_metrics));
    })
handle_request-rejected_example =
    handle_request-rejected same_text hash lossy vm http http_laws (reads ("deny.lua" ∷ []))
      no_metrics none request peer [] 403 "no" refl denied (omega arith) (omega arith)

handle_request-panics_iff_example : (handled ("bad.lua" ∷ []) ≡ panicked) ↔ (
    (body : Bytes) × (status : ℕ) × (msg : String) × (request.body ≡ some body)
    × ((after_on_request same_text hash lossy vm http
          (reads ("bad.lua" ∷ []))
          none
          (parse same_text hash lossy vm http request body peer)).1.rejected
        ≡ some (status, msg))
    × (¬ ((100 ≤ status) × (status < 1000))))
handle_request-panics_iff_example =
    handle_request-panics_iff same_text hash lossy vm http http_laws (reads ("bad.lua" ∷ []))
      no_metrics none request peer

bad_rejected : (passed ("bad.lua" ∷ [])).1.rejected ≡ some (99, "no")
unfolding after_on_request parse run_on_request attempt load_plugin call_function run_script apply
    lookup str_eq stops new_ctx utf8_from
bad_rejected = refl

bad_panics : handled ("bad.lua" ∷ []) ≡ panicked
bad_panics =
    handle_request-panics_iff_example.1
      ([], 99, "no", refl, bad_rejected, λ range. absurd (omega (arith, range)))

log_passed : (passed ("log.lua" ∷ [])).1.rejected ≡ none
unfolding after_on_request parse run_on_request attempt load_plugin call_function run_script apply
    lookup str_eq stops new_ctx utf8_from
log_passed = refl

abbrev routed : Reads → List String → Option String × Session same_text vm
routed r names = run_on_route same_text vm r.on_route (
    after_on_request same_text hash lossy vm http r none
      (parse same_text hash lossy vm http request [] peer))

abbrev sent : Reads → List String → Session same_text vm
sent r names = run_on_transform same_text vm r.on_transform (routed r names).1

abbrev log : List String
log = "log.lua" ∷ []

abbrev no_pool : Reads
no_pool = record (reads log) { pool = [] }

no_pool_passed :
    (after_on_request same_text hash lossy vm http no_pool none
      (parse same_text hash lossy vm http request [] peer)).1.rejected
    ≡ none
unfolding after_on_request parse run_on_request attempt load_plugin call_function run_script apply
    lookup str_eq stops new_ctx utf8_from
no_pool_passed = refl

nowhere :
    next_url hash
      (or_default (routed no_pool log).0)
      (some (client_ip_of (collect_headers same_text request.headers []) peer))
      []
    ≡ returned (none, [])
unfolding next_url resolve lookup
nowhere = refl

abbrev pool_after : UpstreamPool
pool_after = insert "default" (round_robin backends 1) pool

to_one :
    next_url hash
      (or_default (routed (reads log) log).0)
      (some (client_ip_of (collect_headers same_text request.headers []) peer))
      pool
    ≡ returned (some "http://one", pool_after)
unfolding next_url resolve lookup insert next round_robin_next fetch_add after_on_request parse
    run_on_request run_on_route attempt load_plugin call_function run_script apply str_eq stops
    new_ctx utf8_from
to_one = refl

send_fails :
    forward_request same_text http "GET"
      (concat (trim_end_slashes "http://one") "/gone")
      (forward_headers
        (client_ip_of (collect_headers same_text request.headers []) peer)
        (sent (reads log) log).1.req_headers)
      []
    ≡ none
unfolding forward_request concat trim_end_slashes str_eq forward_headers insert run_on_transform
    attempt lookup run_script apply run_on_route after_on_request run_on_request stops new_ctx parse
send_fails = refl

abbrev home : Request
home = record request { path = "/" }

abbrev home_passed : Session same_text vm
home_passed =
    after_on_request same_text hash lossy vm http (reads log) none
      (parse same_text hash lossy vm http home [] peer)

abbrev counted : Result
counted = record {
  response = some (json_error 403 "no");
  machine = (passed ("deny.lua" ∷ [])).0;
  pool = pool;
  metrics = observe (inc "rejected" (inc "GET" no_metrics));
}

handle_request-counts_example :
    (counted.metrics.req_duration ≡ 1)
    × ((l : String)
        → count l counted.metrics
          ≡ count l no_metrics
            + one_if (str_eq "GET" l)
            + one_if (is_some (passed ("deny.lua" ∷ [])).1.rejected) * one_if (str_eq "rejected" l))
handle_request-counts_example =
    handle_request-counts same_text hash lossy vm http (reads ("deny.lua" ∷ [])) no_metrics none
      request peer counted handle_request-rejected_example

abbrev answer : Response
answer = record { status = 200; headers = []; body = 104 ∷ 105 ∷ [] }

abbrev start : Session same_text vm
start = (none, new_ctx "GET" "/" [] [] peer)

answered :
    (respond same_text hash lossy vm http
      (reads [])
      pool
      no_metrics
      start
      (200, [], 104 ∷ 105 ∷ [])).response
    ≡ some answer
unfolding respond run_on_response every_plugin build_response utf8_from utf8_step new_ctx
answered = refl

respond-body_iff_example : (answer.body ≡ 104 ∷ 105 ∷ []) ↔ (is_utf8 (104 ∷ 105 ∷ []) ≡ true)
respond-body_iff_example =
    respond-body_iff same_text hash lossy vm http lossy_laws (reads []) pool no_metrics start 200 []
      (104 ∷ 105 ∷ []) answer answered

abbrev raw : RawHeaders
raw = ("host", some "a") ∷ ("cookie", none) ∷ ("host", some "b") ∷ []

proceed-mark_example :
    proceed same_text hash lossy vm http
      (reads log)
      no_metrics
      (none, mark (some (403, "late")) home_passed.1)
      (parse same_text hash lossy vm http home [] peer)
    ≡ proceed same_text hash lossy vm http
        (reads log)
        no_metrics
        (none, home_passed.1)
        (parse same_text hash lossy vm http home [] peer)
proceed-mark_example =
    proceed-mark same_text hash lossy vm http (reads log) no_metrics (none, home_passed.1)
      (parse same_text hash lossy vm http home [] peer) (some (403, "late"))
