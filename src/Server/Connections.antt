-- ===== src/Server/Connections.antt =====
-- src/main.rs, `run_http_server` and `run_https_server`, and `LuaEngine::new` of src/lua/engine.rs:
-- what the listeners hand out, and what becomes of a connection. The sockets, the TLS handshake and
-- the parser of HTTP are parameters: what they give is a list, up to some point of the run.
-- Requests of other connections come in by `Reads`; their counts are not in the metrics here.
pub mod Answers
pub mod Acceptors
use dgsw_class_pg_proxy.Prelude.{
  ℕ, String, Bool, true, false, Option, none, some, List, [], ◌∷◌, if◌then◌else◌,
}
use dgsw_class_pg_proxy.Prelude.Maps.{StrMap}
use dgsw_class_pg_proxy.Prelude.Run.{Run, returned, panicked, ◌>>=◌}
use dgsw_class_pg_proxy.Prelude.Text.{Bytes}
use dgsw_class_pg_proxy.Lua.Engine.{Vm}
use dgsw_class_pg_proxy.Lua.Globals.{Vars, Global, setup_globals}
use dgsw_class_pg_proxy.Metrics.{Metrics}
use dgsw_class_pg_proxy.Handler.{Http, Request, Response, Reads}
use dgsw_class_pg_proxy.Server.{service}
use dgsw_class_pg_proxy.Tls.{TlsLib, HotTlsAcceptor, get, reload}

-- The loop ends at the first connection that cannot be accepted: the connections for which it has
-- started a thread, and whether it has ended.
unfoldable pub accept_loop {ℓ} : {A : Type ℓ} → List (Option A) → List A × Bool
accept_loop [] = ([], false)
accept_loop (none ∷ events) = ([], true)
accept_loop (some connection ∷ events) =
    let (connections, over) = accept_loop events in (connection ∷ connections, over)

-- A connection is a stream and the address of the peer.
unfoldable pub run_http_server {ℓ} :
    {Stream : Type ℓ} → Bool → List (Option (Stream × String)) → List (Stream × String) × Bool
unfolding accept_loop
run_http_server bound events = if bound then accept_loop events else ([], true)

module _ (lib : TlsLib) (Stream : Type 0) where
  -- What happens to the loop for HTTPS: a connection, one that cannot be accepted, or a reload of
  -- the certificate by the admin API, at which the files are as the function says.
  pub data TlsEvent : Type 0 where
    incoming : Stream → String → TlsEvent
    broken : TlsEvent
    reloading : (String → Option Bytes) → TlsEvent

  -- `acceptor.get()` stands in the loop, so a connection has the acceptor of the time at which it
  -- is accepted.
  unfoldable pub tls_loop :
      HotTlsAcceptor lib → List TlsEvent → List (lib.Acceptor × Stream × String) × Bool
  tls_loop acceptor [] = ([], false)
  tls_loop acceptor (incoming stream peer ∷ events) =
      let (connections, over) = tls_loop acceptor events in
      ((get lib acceptor, stream, peer) ∷ connections, over)
  tls_loop acceptor (broken ∷ events) = ([], true)
  tls_loop acceptor (reloading files ∷ events) = tls_loop (reload lib files acceptor).1 events

  unfoldable pub run_https_server :
      Bool → HotTlsAcceptor lib → List TlsEvent → List (lib.Acceptor × Stream × String) × Bool
  unfolding tls_loop
  run_https_server bound acceptor events = if bound then tls_loop acceptor events else ([], true)

-- A request of a connection, with what its handling reads.
pub record Exchange : Type 0 where
  pub reads : Reads
  pub req : Request

module _ (to_lowercase : String → String) (hash_key : String → ℕ) (from_utf8_lossy : Bytes → Bytes)
    (vm : Vm) (http : Http) where
  -- `LuaEngine::new`: `fresh` is the machine with these globals, `none` an error of Lua.
  unfoldable pub new_engine :
      (StrMap Global → Option vm.State) → Vars → StrMap Global → Run (Option vm.State)
  new_engine fresh vars globals = do made ← setup_globals vars globals; returned (fresh made)

  -- `serve_connection`: the requests of a connection one after another, on the connection's
  -- machine. The answers that are sent, and the metrics after the last, or a panic of the thread.
  unfoldable pub serve_connection :
      Option Metrics → vm.State → String → List Exchange → List Response × Run (Option Metrics)
  serve_connection metrics machine peer [] = ([], returned metrics)
  serve_connection metrics machine peer (x ∷ later) =
      elim (service to_lowercase hash_key from_utf8_lossy vm http x.reads metrics machine x.req
        peer) [
          | panicked ↦ ([], panicked)
          | returned (r, h) ↦
              let (answers, left) = serve_connection (some h.metrics) h.machine peer later in
              (r ∷ answers, left)
        ]

  abbrev with_engine :
      Run (Option vm.State)
      → Option Metrics
      → String
      → List Exchange
      → List Response × Run (Option Metrics)
  with_engine panicked metrics peer requests = ([], panicked)
  with_engine (returned none) metrics peer requests = ([], returned metrics)
  with_engine (returned (some machine)) metrics peer requests =
      serve_connection metrics machine peer requests

  -- The thread of a connection for HTTP.
  unfoldable pub connection :
      (StrMap Global → Option vm.State)
      → Vars
      → StrMap Global
      → Option Metrics
      → String
      → List Exchange
      → List Response × Run (Option Metrics)
  unfolding new_engine serve_connection
  connection fresh vars globals metrics peer requests =
      with_engine (new_engine fresh vars globals) metrics peer requests

  -- The thread of a connection for HTTPS: the handshake comes before the engine.
  unfoldable pub tls_connection :
      Bool
      → (StrMap Global → Option vm.State)
      → Vars
      → StrMap Global
      → Option Metrics
      → String
      → List Exchange
      → List Response × Run (Option Metrics)
  unfolding connection
  tls_connection handshake fresh vars globals metrics peer requests =
      if handshake
      then connection fresh vars globals metrics peer requests
      else ([], returned metrics)
