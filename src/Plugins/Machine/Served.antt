-- ===== src/Plugins/Machine/Served.antt =====
-- main.rs with the five plugins on the machine: the requests of a connection.
use dgsw_class_pg_proxy.Prelude.{
  ℕ, ◌≡◌, ◌⊎◌, refl, sym, ap, ◌∙◌, inl, inr, String, true, Option, none, some, List, [], ◌∷◌, All,
  Bool-cases, Option-cases,
}
use dgsw_class_pg_proxy.Prelude.Maps.{StrMap}
use dgsw_class_pg_proxy.Prelude.Run.{Run, returned, panicked}
use dgsw_class_pg_proxy.Prelude.Text.{Bytes}
use dgsw_class_pg_proxy.Lua.Globals.{Vars, Global}
use dgsw_class_pg_proxy.Metrics.{Metrics}
use dgsw_class_pg_proxy.Handler.{Http, Response, Handled, handle_request}
use dgsw_class_pg_proxy.Handler.Laws.{HttpLaws}
use dgsw_class_pg_proxy.Handler.Errors.{json_error}
use dgsw_class_pg_proxy.Server.{service}
use dgsw_class_pg_proxy.Server.Serving.{or_internal_error, service_lem}
use dgsw_class_pg_proxy.Server.Connections.{Exchange, new_engine, serve_connection, connection}
use dgsw_class_pg_proxy.Plugins.Auth.{is_public}
use dgsw_class_pg_proxy.Plugins.Auth.Logins.{Proves}
use dgsw_class_pg_proxy.Plugins.Authz.{rules, find_rule}
use dgsw_class_pg_proxy.Plugins.Authz.Access.{allowed}
use dgsw_class_pg_proxy.Plugins.Machine.{Globals, Outside, sample_pipeline, sample_vm}
use dgsw_class_pg_proxy.Plugins.Machine.Stages.{headers_of}
use dgsw_class_pg_proxy.Plugins.Machine.Access.{AllThere}
use dgsw_class_pg_proxy.Plugins.Machine.Handled.{context_of}
use dgsw_class_pg_proxy.Plugins.Machine.Guarded.{handle_request-guards, handle_request-returns}

-- Each request has its own answer, in the same order.
abbrev pub Each : (Exchange → Response → Type 0) → List Exchange → List Response → Type 0
Each R [] [] = Unit {0}
Each R (x ∷ xs) (a ∷ answers) = R x a × Each R xs answers
Each R [] (a ∷ answers) = ⊥
Each R (x ∷ xs) [] = ⊥

module _ (lower : String → String) (hash_key : String → ℕ) (lossy : Bytes → Bytes)
    (outside : Outside) (http : Http) (laws : HttpLaws http) (peer : String) where
  abbrev End : Type 0
  End = Handled lower hash_key lossy (sample_vm outside) http

  -- The plugins that a request finds are those of the configuration, and their files have been read.
  abbrev pub Ready : Exchange → Type 0
  Ready x =
      (x.reads.on_request.pipeline ≡ sample_pipeline)
      × AllThere lower outside x.reads.on_request.sources

  -- A request that has been read proves a role that the rule for its path permits.
  abbrev pub Admitted : Exchange → Type 0
  Admitted x =
      (body : Bytes) × (r : String) × (x.req.body ≡ some body)
      × Proves outside.settings
          (headers_of lower outside x.reads.on_request.sources
            (context_of lower hash_key lossy outside http laws x.req body peer))
          r
      × (allowed (some r) (find_rule rules x.req.path) ≡ true)

  abbrev pub Denial : Response → Type 0
  Denial a =
      (status : ℕ) × (msg : String) × ((status ≡ 401) ⊎ (status ≡ 403))
      × (a ≡ json_error status msg)

  -- The answer to a request is a denial, unless the request has not been read, is for a path that is
  -- public, or is admitted.
  abbrev pub Guarded : Exchange → Response → Type 0
  Guarded x a = (x.req.body ≡ none) ⊎ ((is_public x.req.path ≡ true) ⊎ (Admitted x ⊎ Denial a))

  abbrev handled : Metrics → Globals → Exchange → Run End
  handled m machine x =
      handle_request lower hash_key lossy (sample_vm outside) http x.reads (some m) machine x.req
        peer

  abbrev response_of : Run End → Option Response
  response_of (returned h) = h.response
  response_of panicked = none

  handled-Guarded :
      (m : Metrics) (machine : Globals) (x : Exchange) (h : End)
      → Ready x
      → handled m machine x ≡ returned h
      → Guarded x (or_internal_error h.response)
  handled-Guarded m machine x h (names, there) e = elim (Option-cases x.req.body) [
    | inl unread ↦ inl unread
    | inr (body, read) ↦ elim (Bool-cases (is_public x.req.path)) [
      | inl open_path ↦ inr (inl open_path)
      | inr closed ↦
          elim (handle_request-guards lower hash_key lossy outside http laws x.reads m machine x.req
            peer body names there read closed) [
              | inl (r, proof, by) ↦ inr (inr (inl (body, r, read, proof, by)))
              | inr (status, msg, machine', code, denied) ↦
                  let same = ap or_internal_error (ap response_of (sym e ∙ denied)) in
                  inr (inr (inr (status, msg, code, same)))
            ]
    ]
  ]

  service-Guarded :
      (m : Metrics) (machine : Globals) (x : Exchange)
      → Ready x
      → (a : Response) × (h : End) × (service lower hash_key lossy
            (sample_vm outside)
            http
            x.reads
            (some m)
            machine
            x.req
            peer
          ≡ returned (a, h))
        × Guarded x a
  service-Guarded m machine x (names, there) =
      let (h, e) =
        handle_request-returns lower hash_key lossy outside http laws x.reads m machine x.req peer
          names there in
      elim (service_lem lower hash_key lossy (sample_vm outside) http laws x.reads (some m) machine
        x.req peer) [
          | inl (p, q) ↦ absurd (let bad = sym e ∙ p in cc)
          | inr (h', e', q) ↦ (
            or_internal_error h'.response,
            h',
            q,
            handled-Guarded m machine x h' (names, there) e',
          )
        ]

  -- The connection goes on to its end, with an answer for each request.
  serve-Guarded :
      (m : Metrics) (machine : Globals) (requests : List Exchange)
      → All Ready requests
      → (answers : List Response) × (m' : Metrics) × (serve_connection lower hash_key lossy
            (sample_vm outside)
            http
            (some m)
            machine
            peer
            requests
          ≡ (answers, returned (some m')))
        × Each Guarded requests answers
  unfolding serve_connection
  serve-Guarded m machine [] ready = ([], m, refl, tt)
  serve-Guarded m machine (x ∷ later) (ready, more) =
      let (a, h, e, guarded) = service-Guarded m machine x ready in
      let (answers, m', run, each) = serve-Guarded h.metrics h.machine later more in
      (
        a ∷ answers,
        m',
        rw (e, serve_connection)
            (ap (λ (r : List Response × Run (Option Metrics)). (a ∷ r.0, r.1)) run),
        (guarded, each),
      )

  -- A connection whose machine can be set up, with its metrics at hand, and whose requests all find
  -- the plugins of the configuration with their files read, while the clock stands still: whatever
  -- the requests are and whatever else changes between them, it does not panic, and each request has
  -- its answer, in their order. The answer is 401 or 403 and a message, unless the request has not
  -- been read, its path is one that auth.lua holds public, or it proves a role, by a key or by a
  -- token that holds, that the rule of authz.lua for its path, if there is one, permits.
  pub connection-guards :
      (fresh : StrMap Global → Option Globals) (vars : Vars) (globals : StrMap Global) (m : Metrics)
      (machine : Globals) (requests : List Exchange)
      → new_engine lower hash_key lossy (sample_vm outside) http fresh vars globals
        ≡ returned (some machine)
      → All Ready requests
      → (answers : List Response) × (m' : Metrics) × (connection lower hash_key lossy
            (sample_vm outside)
            http
            fresh
            vars
            globals
            (some m)
            peer
            requests
          ≡ (answers, returned (some m')))
        × Each Guarded requests answers
  unfolding connection
  connection-guards fresh vars globals m machine requests made ready =
      let (answers, m', run, each) = serve-Guarded m machine requests ready in
      (answers, m', rw made run, each)
