-- ===== src/Server/Serving.antt =====
-- main.rs: when the servers run and with what, and that requests are answered.
use dgsw_class_pg_proxy.Prelude.{
  ℕ, ◌≡◌, refl, ◌∙◌, ap, ◌↔◌, ◌⊎◌, inl, inr, String, true, ◌&&◌, Option, none, some, arith,
  Bool-cases,
}
use dgsw_class_pg_proxy.Prelude.Maps.{lookup}
use dgsw_class_pg_proxy.Prelude.Run.{Run, returned, panicked, ◌>>=◌}
use dgsw_class_pg_proxy.Prelude.Text.{Bytes}
use dgsw_class_pg_proxy.Config.{Config, ConfigError, TlsConfig, ConfigResult, loaded, failed, load}
use dgsw_class_pg_proxy.Watcher.{spawn_watcher}
use dgsw_class_pg_proxy.Upstream.Pool.{new_pool}
use dgsw_class_pg_proxy.Upstream.Pool.Lookup.{configured, last_named, lookup-init}
use dgsw_class_pg_proxy.Lua.Engine.{Vm}
use dgsw_class_pg_proxy.Metrics.{Metrics}
use dgsw_class_pg_proxy.Handler.{Http, Request, Response, Reads, Handled, handle_request}
use dgsw_class_pg_proxy.Handler.Laws.{HttpLaws}
use dgsw_class_pg_proxy.Handler.Errors.{json_error, error_response_valid}
use dgsw_class_pg_proxy.Tls.{TlsLib, Result, ok, err, HotTlsAcceptor, new_acceptor}
use dgsw_class_pg_proxy.Server
use dgsw_class_pg_proxy.Server.{
  Listener, admin_api, http_proxy, https_proxy, listening, System, config_path, StartError,
  bad_config, no_watcher, Started, Startup, started, stopped, tls_acceptor, accepted, https_of,
  watches, servers, start, answer, service,
}

module _ (tls_lib : TlsLib) (sys : System) where
  accepted_iff :
      (r : Result (HotTlsAcceptor tls_lib)) (a : HotTlsAcceptor tls_lib)
      → (accepted tls_lib r ≡ some a) ↔ (r ≡ ok a)
  accepted_iff (ok b) a = (λ e. ground arith, λ e. ground arith)
  accepted_iff (err x) a = (λ e. ground arith, λ e. ground arith)

  https_iff :
      (addr : String) (o : Option (HotTlsAcceptor tls_lib)) (a : HotTlsAcceptor tls_lib)
      → (https_of tls_lib sys addr o ≡ some (addr, a))
        ↔ ((sys.binds https_proxy addr ≡ true) × (o ≡ some a))
  https_iff addr none a = (λ e. ground arith, λ e. ground arith)
  https_iff addr (some b) a = (λ e. ground arith, λ e. ground arith)

  listening_iff :
      (l : Listener) (addr : String)
      → (listening tls_lib sys l addr ≡ some addr) ↔ (sys.binds l addr ≡ true)
  listening_iff l addr = (λ e. ground arith, λ e. ground arith)

  tls_acceptor_iff :
      (cfg : TlsConfig) (a : HotTlsAcceptor tls_lib)
      → (tls_acceptor tls_lib sys cfg ≡ some a)
        ↔ ((sys.exists cfg.cert ≡ true) × (new_acceptor tls_lib sys.open_file cfg ≡ ok a))
  unfolding tls_acceptor
  tls_acceptor_iff cfg a = ground (arith, accepted_iff (new_acceptor tls_lib sys.open_file cfg) a)

  abbrev read : ConfigResult
  read = load sys.read_to_string sys.from_str (config_path sys.argument)

  watches_iff :
      (cfg : Config)
      → (watches tls_lib sys cfg ≡ true)
        ↔ ((sys.notify.creates ≡ true) × (sys.notify.watch cfg.plugins.dir ≡ true))
  unfolding watches spawn_watcher
  watches_iff cfg = elim (Bool-cases (sys.notify.creates && sys.notify.watch cfg.plugins.dir)) [
    | inl both ↦ rw both (λ e. ground arith, λ e. refl)
    | inr other ↦ rw other (λ e. absurd (ground arith), λ e. absurd (ground arith))
  ]

  -- What listens: the admin API and HTTP exactly if their `bind` succeeds, and HTTPS exactly if its
  -- own does, the certificate's file exists and an acceptor can be built. A name stands for the last
  -- configuration that has it.
  abbrev pub Listens : Config → Started tls_lib → Type 0
  Listens cfg s =
      ((s.admin ≡ some cfg.admin.addr) ↔ (sys.binds admin_api cfg.admin.addr ≡ true))
      × ((s.http ≡ some cfg.listener.http_addr)
          ↔ (sys.binds http_proxy cfg.listener.http_addr ≡ true))
      × ((a : HotTlsAcceptor tls_lib)
          → (s.https ≡ some (cfg.listener.addr, a)) ↔ (
              (sys.binds https_proxy cfg.listener.addr ≡ true)
              × (sys.exists cfg.tls.cert ≡ true)
              × (new_acceptor tls_lib sys.open_file cfg.tls ≡ ok a)))
      × ((name : String) → lookup name s.pool ≡ configured (last_named name cfg.upstream) none)

  servers-Listens : (cfg : Config) → Listens cfg (servers tls_lib sys cfg)
  unfolding servers lookup
  servers-Listens cfg = (
    listening_iff admin_api cfg.admin.addr,
    listening_iff http_proxy cfg.listener.http_addr,
    λ a.
        let one = https_iff cfg.listener.addr (tls_acceptor tls_lib sys cfg.tls) a in
        let two = tls_acceptor_iff cfg.tls a in
        (
          λ h.
              let (bound, made) = one.0 h in
              let (exists, built) = two.0 made in (bound, exists, built),
          λ (bound, exists, built). one.1 (bound, two.1 (exists, built)),
        ),
    λ name. lookup-init name cfg.upstream new_pool,
  )

  -- Whether the watch of the plugins' directory can be set up.
  abbrev pub Watched : Config → Type 0
  Watched cfg = (sys.notify.creates ≡ true) × (sys.notify.watch cfg.plugins.dir ≡ true)

  -- The program ends at once if its configuration cannot be read, or if the watch of the plugins'
  -- directory cannot be set up, with that error. Otherwise it goes on to wait for its signal,
  -- whichever of its servers can bind: the admin API and HTTP listen at their addresses exactly if
  -- their own `bind` succeeds, and HTTPS exactly if its `bind` does, the certificate's file exists
  -- and an acceptor can be built; an upstream's name stands for the last configuration that has it.
  pub start_lem :
      ((e : ConfigError) × (load sys.read_to_string sys.from_str (config_path sys.argument)
          ≡ failed e)
        × (start tls_lib sys ≡ stopped (bad_config e)))
      ⊎ ((cfg : Config) × (load sys.read_to_string sys.from_str (config_path sys.argument)
            ≡ loaded cfg)
          × (((¬ Watched cfg) × (start tls_lib sys ≡ stopped no_watcher))
              ⊎ (Watched cfg
                  × ((s : Started tls_lib) × (start tls_lib sys ≡ started s) × Listens cfg s))))
  unfolding start
  start_lem = from read refl
    where
      from :
          (r : ConfigResult)
          → read ≡ r
          → ((e : ConfigError) × (read ≡ failed e) × (start tls_lib sys ≡ stopped (bad_config e)))
            ⊎ ((cfg : Config) × (read ≡ loaded cfg)
                × (((¬ Watched cfg) × (start tls_lib sys ≡ stopped no_watcher))
                    ⊎ (Watched cfg
                        × ((s : Started tls_lib) × (start tls_lib sys ≡ started s)
                            × Listens cfg s))))
      from (failed e) h = inl (e, h, ap (Server.configured tls_lib sys) h)
      from (loaded cfg) h = inr (
        cfg,
        h,
        elim (Bool-cases (watches tls_lib sys cfg)) [
          | inl w ↦ inr (
            (watches_iff cfg).0 w,
            (
              servers tls_lib sys cfg,
              ap (Server.configured tls_lib sys) h ∙ rw w,
              servers-Listens cfg,
            ),
          )
          | inr w ↦ inl (
            λ both. let stands = (watches_iff cfg).1 both in cc,
            ap (Server.configured tls_lib sys) h ∙ rw w,
          )
        ],
      )

abbrev pub or_internal_error : Option Response → Response
or_internal_error (some r) = r
or_internal_error none = json_error 500 "Internal Server Error"

module _ (lower : String → String) (hash_key : String → ℕ) (lossy : Bytes → Bytes) (vm : Vm)
    (http : Http) (laws : HttpLaws http) (reads : Reads) (metrics : Option Metrics)
    (machine : vm.State) (req : Request) (peer : String) where
  -- Whenever the handler returns, the client gets an answer: the handler's, or a 500 of JSON where
  -- the handler ended in an error. A panic of the handler is one of the service.
  pub service_lem :
      ((handle_request lower hash_key lossy vm http reads metrics machine req peer ≡ panicked)
        × (service lower hash_key lossy vm http reads metrics machine req peer ≡ panicked))
      ⊎ ((h : Handled lower hash_key lossy vm http) × (handle_request lower hash_key lossy vm http
              reads metrics machine req peer
            ≡ returned h)
          × (service lower hash_key lossy vm http reads metrics machine req peer
              ≡ returned (or_internal_error h.response, h)))
  unfolding service
  service_lem =
      from (handle_request lower hash_key lossy vm http reads metrics machine req peer) refl
    where
      ended :
          Run (Handled lower hash_key lossy vm http)
          → Run (Response × Handled lower hash_key lossy vm http)
      ended r = r >>= (λ h. answer lower hash_key lossy vm http h h.response)

      answered :
          (h : Handled lower hash_key lossy vm http) (r : Option Response)
          → answer lower hash_key lossy vm http h r ≡ returned (or_internal_error r, h)
      answered h (some r) = refl
      answered h none =
          ap (λ r. r >>= (λ r. returned (r, h)))
            (error_response_valid http laws 500 "Internal Server Error" (omega arith) (omega arith))

      from :
          (r : Run (Handled lower hash_key lossy vm http))
          → handle_request lower hash_key lossy vm http reads metrics machine req peer ≡ r
          → ((handle_request lower hash_key lossy vm http reads metrics machine req peer ≡ panicked)
              × (service lower hash_key lossy vm http reads metrics machine req peer ≡ panicked))
            ⊎ ((h : Handled lower hash_key lossy vm http) × (handle_request lower hash_key lossy vm
                    http reads metrics machine req peer
                  ≡ returned h)
                × (service lower hash_key lossy vm http reads metrics machine req peer
                    ≡ returned (or_internal_error h.response, h)))
      from panicked e = inl (e, ap ended e)
      from (returned h) e = inr (h, e, ap ended e ∙ answered h h.response)
