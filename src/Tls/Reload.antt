-- ===== src/Tls/Reload.antt =====
-- tls.rs: the acceptor after a row of reloads.
use dgsw_class_pg_proxy.Prelude.{◌≡◌, refl, ◌∙◌, ap, String, Option, List, [], ◌∷◌}
use dgsw_class_pg_proxy.Prelude.Text.{Bytes}
use dgsw_class_pg_proxy.Config.{TlsConfig}
use dgsw_class_pg_proxy.Tls.{TlsLib, Result, ok, err, HotTlsAcceptor, build_acceptor, get, reload}

module _ (lib : TlsLib) where
  -- Reloads at which the files are as the functions say.
  unfoldable pub reloads : List (String → Option Bytes) → HotTlsAcceptor lib → HotTlsAcceptor lib
  reloads [] a = a
  reloads (files ∷ later) a = reloads later (reload lib files a).1

  abbrev pub or_keep : Result lib.Acceptor → lib.Acceptor → lib.Acceptor
  or_keep (ok new) old = new
  or_keep (err e) old = old

  -- The acceptor that was built last, or the first one if none was.
  pub last_built : TlsConfig → List (String → Option Bytes) → lib.Acceptor → lib.Acceptor
  last_built cfg [] old = old
  last_built cfg (files ∷ later) old =
      last_built cfg later (or_keep (build_acceptor lib files cfg) old)

  reload_lem :
      (files : String → Option Bytes) (a : HotTlsAcceptor lib)
      → ((reload lib files a).1.inner ≡ or_keep (build_acceptor lib files a.cfg) a.inner)
        × ((reload lib files a).1.cfg ≡ a.cfg)
  unfolding reload
  reload_lem files a = from (build_acceptor lib files a.cfg) refl
    where
      from :
          (r : Result lib.Acceptor)
          → build_acceptor lib files a.cfg ≡ r
          → ((reload lib files a).1.inner ≡ or_keep (build_acceptor lib files a.cfg) a.inner)
            × ((reload lib files a).1.cfg ≡ a.cfg)
      from (ok new) e = (rw (e, reload), rw (e, reload))
      from (err x) e = (rw (e, reload), rw (e, reload))

  -- After any row of reloads, whatever the files were at each, connections get the acceptor that
  -- was built last: a reload that fails leaves the one before in place.
  pub get-reloads :
      (row : List (String → Option Bytes)) (a : HotTlsAcceptor lib)
      → get lib (reloads row a) ≡ last_built a.cfg row a.inner
  unfolding reloads last_built
  get-reloads [] a = refl
  get-reloads (files ∷ later) a =
      let (inner, cfg) = reload_lem files a in
      get-reloads later (reload lib files a).1
      ∙ ap (λ c. last_built c later (reload lib files a).1.inner) cfg
      ∙ ap (last_built a.cfg later) inner
