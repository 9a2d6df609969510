-- ===== src/Server/Connections/Acceptors.antt =====
-- main.rs and tls.rs: the acceptors that the connections for HTTPS get.
use dgsw_class_pg_proxy.Prelude.{
  ◌≡◌, refl, sym, ap, ◌∙◌, ◌⊎◌, inl, inr, String, Bool, true, false, Option, List, [], ◌∷◌, ◌++◌,
  In, arith,
}
use dgsw_class_pg_proxy.Prelude.Text.{Bytes}
use dgsw_class_pg_proxy.Tls.{TlsLib, HotTlsAcceptor, get, reload}
use dgsw_class_pg_proxy.Tls.Reload.{reloads, last_built, get-reloads}
use dgsw_class_pg_proxy.Server.Connections.{
  TlsEvent, incoming, broken, reloading, tls_loop, run_https_server,
}

module _ (lib : TlsLib) (Stream : Type 0) where
  -- The reloads of a row of events.
  pub reloads_of : List (TlsEvent lib Stream) → List (String → Option Bytes)
  reloads_of [] = []
  reloads_of (incoming stream peer ∷ events) = reloads_of events
  reloads_of (broken ∷ events) = reloads_of events
  reloads_of (reloading files ∷ events) = files ∷ reloads_of events

  -- The loop over a row of events is that over its beginning, and then, unless it has ended there,
  -- that over the rest with the acceptor that the reloads have left.
  abbrev go_on :
      List (lib.Acceptor × Stream × String) × Bool
      → List (lib.Acceptor × Stream × String) × Bool
      → List (lib.Acceptor × Stream × String) × Bool
  go_on (connections, true) rest = (connections, true)
  go_on (connections, false) (more, over) = (connections ++ more, over)

  go_on-cons :
      (c : lib.Acceptor × Stream × String) (a b : List (lib.Acceptor × Stream × String) × Bool)
      → go_on (c ∷ a.0, a.1) b ≡ (c ∷ (go_on a b).0, (go_on a b).1)
  go_on-cons c (connections, true) b = refl
  go_on-cons c (connections, false) (more, over) = refl

  tls_loop-append :
      (before later : List (TlsEvent lib Stream)) (a : HotTlsAcceptor lib)
      → tls_loop lib Stream a (before ++ later)
        ≡ go_on
            (tls_loop lib Stream a before)
            (tls_loop lib Stream (reloads lib (reloads_of before) a) later)
  unfolding tls_loop reloads_of reloads
  tls_loop-append [] later a = refl
  tls_loop-append (incoming stream peer ∷ before) later a =
      ap
        (λ (r : List (lib.Acceptor × Stream × String) × Bool).
          ((get lib a, stream, peer) ∷ r.0, r.1))
        (tls_loop-append before later a)
      ∙ sym (go_on-cons (get lib a, stream, peer) (tls_loop lib Stream a before) _)
  tls_loop-append (broken ∷ before) later a = refl
  tls_loop-append (reloading files ∷ before) later a =
      tls_loop-append before later (reload lib files a).1

  tls_loop_over :
      (events : List (TlsEvent lib Stream)) (a : HotTlsAcceptor lib)
      → ((¬ In broken events) × ((tls_loop lib Stream a events).1 ≡ false))
        ⊎ (In broken events × ((tls_loop lib Stream a events).1 ≡ true))
  unfolding tls_loop
  tls_loop_over [] a = inl ((λ m. m), refl)
  tls_loop_over (incoming stream peer ∷ events) a = elim (tls_loop_over events a) [
    | inl (n, e) ↦ inl ((λ z. elim z [ inl bad ↦ absurd (ground arith) | inr later ↦ n later ]), e)
    | inr (m, e) ↦ inr (inr m, e)
  ]
  tls_loop_over (broken ∷ events) a = inr (inl refl, refl)
  tls_loop_over (reloading files ∷ events) a = elim (tls_loop_over events (reload lib files a).1) [
    | inl (n, e) ↦ inl ((λ z. elim z [ inl bad ↦ absurd (ground arith) | inr later ↦ n later ]), e)
    | inr (m, e) ↦ inr (inr m, e)
  ]

  go_on-false :
      (r b : List (lib.Acceptor × Stream × String) × Bool)
      → r.1 ≡ false
      → (go_on r b).0 ≡ r.0 ++ b.0
  go_on-false (connections, true) b e = absurd (ground arith)
  go_on-false (connections, false) b e = refl

  go_on-true :
      (r b : List (lib.Acceptor × Stream × String) × Bool) → r.1 ≡ true → go_on r b ≡ (r.0, true)
  go_on-true (connections, true) b e = refl
  go_on-true (connections, false) b e = absurd (ground arith)

  -- A connection for HTTPS that comes in after any row of connections and reloads gets the acceptor
  -- that was built last by then, a failed reload changing nothing; the connections before it keep
  -- theirs, whatever comes later. But if an accept failed before, it gets none: that has ended the
  -- server, and no later event starts a connection.
  pub run_https_server-acceptor :
      (a : HotTlsAcceptor lib) (before later : List (TlsEvent lib Stream)) (stream : Stream)
      (peer : String)
      → ((¬ In broken before)
          × ((more : List (lib.Acceptor × Stream × String)) × ((run_https_server lib Stream true a
                  (before ++ (incoming stream peer ∷ later))).0
                ≡ (run_https_server lib Stream true a before).0
                  ++ ((last_built lib a.cfg (reloads_of before) a.inner, stream, peer) ∷ more))))
        ⊎ (In broken before
            × (run_https_server lib Stream true a (before ++ (incoming stream peer ∷ later))
                ≡ ((run_https_server lib Stream true a before).0, true)))
  unfolding run_https_server
  run_https_server-acceptor a before later stream peer =
      let left = reloads lib (reloads_of before) a in
      let split = tls_loop-append before (incoming stream peer ∷ later) a in
      elim (tls_loop_over before a) [
        | inl (n, e) ↦ inl (
          n,
          (
            (tls_loop lib Stream left later).0,
            ap (λ (r : List (lib.Acceptor × Stream × String) × Bool). r.0) split
                ∙ go_on-false (tls_loop lib Stream a before) _ e
                ∙ ap
                    (λ c.
                      (tls_loop lib Stream a before).0
                      ++ ((c, stream, peer) ∷ (tls_loop lib Stream left later).0))
                    (get-reloads lib (reloads_of before) a),
          ),
        )
        | inr (m, e) ↦ inr (m, split ∙ go_on-true (tls_loop lib Stream a before) _ e)
      ]
