-- ===== src/Plugins/Machine/Guarded.antt =====
-- handler.rs with the five plugins on the machine: every request is answered, and none is forwarded
-- without a proof of its role.
use dgsw_class_pg_proxy.Prelude.{
  ℕ, ◌≤◌, ◌<◌, ◌≡◌, ◌≢◌, ◌⊎◌, refl, sym, ap, ◌∙◌, subst, inl, inr, String, true, false, some, arith,
}
use dgsw_class_pg_proxy.Prelude.Run.{Run, returned, panicked}
use dgsw_class_pg_proxy.Prelude.Text.{Bytes}
use dgsw_class_pg_proxy.Lua.Context.{RequestCtx, new_ctx}
use dgsw_class_pg_proxy.Lua.Engine.{run_on_request}
use dgsw_class_pg_proxy.Lua.Engine.Pipeline.{with_pipeline}
use dgsw_class_pg_proxy.Metrics.{Metrics, inc, observe}
use dgsw_class_pg_proxy.Handler.{
  Http, Request, Reads, Handled, after_on_request, parse, handle_request,
}
use dgsw_class_pg_proxy.Handler.Laws.{HttpLaws}
use dgsw_class_pg_proxy.Handler.Errors.{json_error}
use dgsw_class_pg_proxy.Handler.Outcomes.{handle_request-rejected, handle_request-panics_iff}
use dgsw_class_pg_proxy.Plugins.Auth.{is_public}
use dgsw_class_pg_proxy.Plugins.Auth.Logins.{Proves}
use dgsw_class_pg_proxy.Plugins.Authz.{rules, find_rule}
use dgsw_class_pg_proxy.Plugins.Authz.Access.{allowed}
use dgsw_class_pg_proxy.Plugins.Machine.{Globals, Outside, sample_pipeline, sample_vm}
use dgsw_class_pg_proxy.Plugins.Machine.Stages.{headers_of}
use dgsw_class_pg_proxy.Plugins.Machine.Access.{AllThere, run_on_request-Proves}
use dgsw_class_pg_proxy.Plugins.Machine.Rejections.{Rejection, Sound, run_on_request-Sound}
use dgsw_class_pg_proxy.Plugins.Machine.Handled.{context_of, context_Fresh}

-- What does not panic returns.
returned_lem : {A : Type 0} → (r : Run A) → r ≢ panicked → (a : A) × (r ≡ returned a)
returned_lem (returned a) h = (a, refl)
returned_lem panicked h = absurd (h refl)

in_range : (status : ℕ) → (status ≡ 401) ⊎ (status ≡ 403) → (100 ≤ status) × (status < 1000)
in_range status (inl e) = rw e (omega arith, omega arith)
in_range status (inr e) = rw e (omega arith, omega arith)

module _ (lower : String → String) (hash_key : String → ℕ) (lossy : Bytes → Bytes)
    (outside : Outside) (http : Http) (laws : HttpLaws http) (reads : Reads) (m : Metrics)
    (machine : Globals) (req : Request) (peer : String) where
  abbrev found : Bytes → RequestCtx
  found body = context_of lower hash_key lossy outside http laws req body peer

  -- What `on_request` leaves as a rejection.
  abbrev rejection : Bytes → Rejection
  rejection body =
      (after_on_request lower hash_key lossy (sample_vm outside) http reads machine
        (parse lower hash_key lossy (sample_vm outside) http req body peer)).1.rejected

  abbrev of_pipeline : Bytes → Rejection
  of_pipeline body =
      (run_on_request lower (sample_vm outside)
        (with_pipeline sample_pipeline reads.on_request.sources) (machine, found body)).1.rejected

  rejection_lem :
      (body : Bytes)
      → reads.on_request.pipeline ≡ sample_pipeline
      → rejection body ≡ of_pipeline body
  unfolding after_on_request parse
  rejection_lem body names =
      ap
        (λ l.
          (run_on_request lower (sample_vm outside) (with_pipeline l reads.on_request.sources)
            (machine, found body)).1.rejected)
        names

  rejection-Sound :
      (body : Bytes)
      → reads.on_request.pipeline ≡ sample_pipeline
      → AllThere lower outside reads.on_request.sources
      → Sound (rejection body)
  unfolding new_ctx
  rejection-Sound body names there =
      subst Sound (sym (rejection_lem body names)) (
        run_on_request-Sound lower outside reads.on_request.sources machine (found body) there refl)

  abbrev handled : Run (Handled lower hash_key lossy (sample_vm outside) http)
  handled =
      handle_request lower hash_key lossy (sample_vm outside) http reads (some m) machine req peer

  -- With its metrics at hand, and with the plugins of the configuration, whose files have all been
  -- read, no request makes the handler panic, whatever its path and whether its body is read or
  -- not, and whatever requests the machine has handled before.
  pub handle_request-returns :
      reads.on_request.pipeline ≡ sample_pipeline
      → AllThere lower outside reads.on_request.sources
      → (handled' : Handled lower hash_key lossy (sample_vm outside) http) × (handle_request lower
            hash_key lossy
            (sample_vm outside)
            http
            reads
            (some m)
            machine
            req
            peer
          ≡ returned handled')
  handle_request-returns names there = returned_lem handled (λ e.
      let (body, status, msg, read, denied, out) =
        (handle_request-panics_iff lower hash_key lossy (sample_vm outside) http laws reads m
            machine req peer).0
          e in
      elim (rejection-Sound body names there) [
        | inl passes ↦ let bad = sym passes ∙ denied in ground arith
        | inr (status', msg', denied', code) ↦
            let same = sym denied' ∙ denied in
            let known : status' ≡ status = ground arith in
            out (subst (λ n. (100 ≤ n) × (n < 1000)) known (in_range status' code))
      ])

  -- With the plugins of the configuration, whose files have all been read, a request whose body has
  -- been read, for a path that auth.lua does not hold public: either it proves a role, by a key or
  -- by a token that holds, and the rule of authz.lua for its path, if there is one, permits that
  -- role; or it is answered with 401 or 403 and the message of one of the plugins, no upstream is
  -- asked, and the pool stays as it is.
  pub handle_request-guards :
      (body : Bytes)
      → reads.on_request.pipeline ≡ sample_pipeline
      → AllThere lower outside reads.on_request.sources
      → req.body ≡ some body
      → is_public req.path ≡ false
      → ((r : String) × Proves outside.settings
            (headers_of lower outside reads.on_request.sources
              (context_of lower hash_key lossy outside http laws req body peer))
            r
          × (allowed (some r) (find_rule rules req.path) ≡ true))
        ⊎ ((status : ℕ) × (msg : String) × (machine' : Globals) × ((status ≡ 401) ⊎ (status ≡ 403))
            × (handle_request lower hash_key lossy
                  (sample_vm outside)
                  http
                  reads
                  (some m)
                  machine
                  req
                  peer
                ≡ returned (record {
                  response = some (json_error status msg);
                  machine = machine';
                  pool = reads.pool;
                  metrics = observe (inc "rejected" (inc req.method m));
                })))
  unfolding new_ctx
  handle_request-guards body names there read closed =
      let sources = reads.on_request.sources in
      elim (rejection-Sound body names there) [
        | inl passes ↦ inl (
            run_on_request-Proves lower outside sources machine (found body) there
              (context_Fresh lower hash_key lossy outside http laws sources req body peer closed)
              (sym (rejection_lem body names) ∙ passes))
        | inr (status, msg, e, code) ↦ inr (
          status,
          msg,
          _,
          code,
          let (low, high) = in_range status code in
              handle_request-rejected lower hash_key lossy (sample_vm outside) http laws reads m
                machine req peer body status msg read e low high,
        )
      ]
