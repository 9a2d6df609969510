-- ===== src/Plugins/Machine/Handled.antt =====
-- handler.rs with the five plugins on the machine: a request without credentials.
use dgsw_class_pg_proxy.Prelude.{ℕ, ◌≡◌, refl, ap, ◌∙◌, String, false, none, some, [], arith}
use dgsw_class_pg_proxy.Prelude.Maps.{StrMap, lookup}
use dgsw_class_pg_proxy.Prelude.Run.{returned}
use dgsw_class_pg_proxy.Prelude.Text.{Bytes}
use dgsw_class_pg_proxy.Lua.Context.{RequestCtx, new_ctx}
use dgsw_class_pg_proxy.Lua.Engine.{run_on_request}
use dgsw_class_pg_proxy.Lua.Engine.Pipeline.{with_pipeline}
use dgsw_class_pg_proxy.Metrics.{Metrics, inc, observe}
use dgsw_class_pg_proxy.Handler.{
  Http, Request, Reads, after_on_request, parse, collect_headers, client_ip_of, handle_request,
}
use dgsw_class_pg_proxy.Handler.Laws.{HttpLaws}
use dgsw_class_pg_proxy.Handler.Errors.{json_error}
use dgsw_class_pg_proxy.Handler.Outcomes.{handle_request-rejected}
use dgsw_class_pg_proxy.Plugins.Auth.{is_public}
use dgsw_class_pg_proxy.Plugins.Machine.{Globals, Outside, sample_pipeline, sample_vm}
use dgsw_class_pg_proxy.Plugins.Machine.Stages.{Fresh, headers_of}
use dgsw_class_pg_proxy.Plugins.Machine.Access.{AllThere, run_on_request-forbids}

module _ (lower : String → String) (hash_key : String → ℕ) (lossy : Bytes → Bytes)
    (outside : Outside) (http : Http) (laws : HttpLaws http) where
  -- The context in which the plugins find a request.
  abbrev pub context_of : Request → Bytes → String → RequestCtx
  context_of req body peer =
      let headers = collect_headers lower req.headers [] in
      new_ctx req.method req.path headers (lossy body) (client_ip_of headers peer)

  pub context_Fresh :
      (sources : StrMap String) (req : Request) (body : Bytes) (peer : String)
      → is_public req.path ≡ false
      → Fresh lower outside sources (context_of req body peer)
  unfolding new_ctx lookup
  context_Fresh sources req body peer closed = (refl, refl, λ e. absurd (ground arith), closed)

  -- With the plugins of the configuration, whose files have all been read, a request whose body has
  -- been read, but that has neither of the headers "x-api-key" and "authorization", for a path that
  -- auth.lua does not hold public, is answered with 403 and the message of one of the plugins: no
  -- upstream is asked, and the pool stays as it is.
  pub handle_request-forbids :
      (reads : Reads) (m : Metrics) (machine : Globals) (req : Request) (peer : String)
      (body : Bytes)
      → reads.on_request.pipeline ≡ sample_pipeline
      → AllThere lower outside reads.on_request.sources
      → req.body ≡ some body
      → is_public req.path ≡ false
      → lookup "x-api-key"
          (headers_of lower outside reads.on_request.sources (context_of req body peer))
        ≡ none
      → lookup "authorization"
          (headers_of lower outside reads.on_request.sources (context_of req body peer))
        ≡ none
      → (msg : String) × (machine' : Globals) × (handle_request lower hash_key lossy
            (sample_vm outside)
            http
            reads
            (some m)
            machine
            req
            peer
          ≡ returned (record {
            response = some (json_error 403 msg);
            machine = machine';
            pool = reads.pool;
            metrics = observe (inc "rejected" (inc req.method m));
          }))
  unfolding after_on_request parse
  handle_request-forbids reads m machine req peer body names there read closed no_key no_auth =
      let sources = reads.on_request.sources in
      let c = context_of req body peer in
      let (msg, e) =
        run_on_request-forbids lower outside sources machine c there
          (context_Fresh sources req body peer closed) no_key no_auth in
      let st =
        after_on_request lower hash_key lossy (sample_vm outside) http reads machine
          (parse lower hash_key lossy (sample_vm outside) http req body peer) in
      let same =
        ap
          (λ l.
            (run_on_request lower (sample_vm outside) (with_pipeline l sources)
              (machine, c)).1.rejected)
          names in
      (
        msg,
        st.0,
        handle_request-rejected lower hash_key lossy (sample_vm outside) http laws reads m machine
            req peer body 403 msg read (same ∙ e) (omega arith) (omega arith),
      )
