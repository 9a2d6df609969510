-- ===== src/Admin/Serving.antt =====
-- admin.rs, `AdminServer`: the server of the admin API. The sockets are a parameter, and so is the
-- parser of HTTP: what they give is a list, up to some point of the run.
pub mod Routing
pub mod Effects
use dgsw_class_pg_proxy.Prelude.{
  ℕ, String, Bool, true, false, Option, none, some, List, [], ◌∷◌, if◌then◌else◌,
}
use dgsw_class_pg_proxy.Prelude.Run.{Run, returned, panicked}
use dgsw_class_pg_proxy.Prelude.Text.{Bytes}
use dgsw_class_pg_proxy.Config.{PluginsConfig}
use dgsw_class_pg_proxy.Lua.Sources.{PluginSources}
use dgsw_class_pg_proxy.Metrics.{Metrics}
use dgsw_class_pg_proxy.Handler.{Http, Response}
use dgsw_class_pg_proxy.Admin.{AdminState, handle_admin}
use dgsw_class_pg_proxy.Server.Connections.{accept_loop}
use dgsw_class_pg_proxy.Tls.{TlsLib, TlsError}

-- The configuration of the server; what it shares is the state of its handler.
pub record AdminServer : Type 0 where
  pub addr : String
  pub plugins_cfg : PluginsConfig

-- The loop of `run`: the connections that it serves, and whether it has ended in an error.
unfoldable pub run {ℓ} :
    {Stream : Type ℓ}
    → (String → Bool)
    → AdminServer
    → List (Option (Stream × String))
    → List (Stream × String) × Bool
unfolding accept_loop
run binds server events = if binds server.addr then accept_loop events else ([], true)

-- A request on a connection, with the files as they are then, or an exchange of the sources by the
-- watch of the files between two requests.
pub data AdminEvent : Type 0 where
  asked : String → String → (String → Option String) → (String → Option Bytes) → AdminEvent
  exchanged : PluginSources → AdminEvent

module _ (http : Http) (tls_lib : TlsLib) (show : TlsError → Bytes) (encode : Metrics → Bytes) where
  abbrev State : Type 0
  State = AdminState http tls_lib show encode

  -- A connection: the answers that are sent, and the state after it. An error of the handler ends
  -- the connection without an answer.
  unfoldable pub serve_admin : PluginsConfig → List AdminEvent → State → List Response × Run State
  serve_admin cfg [] st = ([], returned st)
  serve_admin cfg (exchanged sources ∷ later) st =
      serve_admin cfg later (record st { sources = sources })
  serve_admin cfg (asked method path read_to_string open_file ∷ later) st =
      elim (handle_admin http tls_lib show encode read_to_string open_file cfg method path st) [
        | panicked ↦ ([], panicked)
        | returned (none, st') ↦ ([], returned st')
        | returned (some r, st') ↦
            let (answers, left) = serve_admin cfg later st' in (r ∷ answers, left)
      ]
