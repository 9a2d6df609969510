-- ===== src/Handler/Counts.antt =====
-- handler.rs and metrics.rs: what a request adds to the metrics.
use dgsw_class_pg_proxy.Prelude.{
  ℕ, ◌+◌, ◌*◌, ◌≡◌, refl, ap, ◌∙◌, String, Bool, true, false, Option, none, some, arith, str_eq,
  str_eq_iff,
}
use dgsw_class_pg_proxy.Prelude.Maps.{StrMap, lookup-insert}
use dgsw_class_pg_proxy.Prelude.Run.{Run, returned, panicked, ◌>>=◌}
use dgsw_class_pg_proxy.Prelude.Text.{Bytes}
use dgsw_class_pg_proxy.Upstream.Pool.{UpstreamPool, next_url}
use dgsw_class_pg_proxy.Lua.Context.{is_some}
use dgsw_class_pg_proxy.Lua.Engine.{Vm, Session, run_on_route, run_on_transform}
use dgsw_class_pg_proxy.Metrics.{Metrics, count, inc, observe}
use dgsw_class_pg_proxy.Handler.{
  Http, Request, Response, Reads, Parsed, Handled, end_with, error_response, respond, forwarded,
  forward, proceed, decide, after_on_request, admit, parse, collected, handle_request, or_default,
}

-- One for a test that holds.
abbrev pub one_if : Bool → ℕ
one_if true = 1
one_if false = 0

abbrev count_of : Option ℕ → ℕ
count_of none = 0
count_of (some n) = n

pub count-inc : (k l : String) (m : Metrics) → count l (inc k m) ≡ count l m + one_if (str_eq k l)
unfolding inc
count-inc k l m = ground (arith, lookup-insert k l (count k m + 1) m.req_counter, str_eq_iff k l)

module _ (lower : String → String) (hash_key : String → ℕ) (lossy : Bytes → Bytes) (vm : Vm)
    (http : Http) where
  abbrev End : Type 0
  End = Handled lower hash_key lossy vm http

  -- If the run returns, it has the metrics.
  abbrev Leaves : Run End → Metrics → Type 0
  Leaves r m = (h : End) → r ≡ returned h → h.metrics ≡ m

  end_with-Leaves :
      (r : Run Response) (s : vm.State) (pool : UpstreamPool) (m : Metrics)
      → Leaves (end_with lower hash_key lossy vm http r s pool m) (observe m)
  end_with-Leaves (returned r) s pool m h e = ground arith
  end_with-Leaves panicked s pool m h e = cc

  forwarded-Leaves :
      (reads : Reads) (pool : UpstreamPool) (m : Metrics) (st : Session lower vm)
      (answer : Option (ℕ × StrMap String × Bytes))
      → Leaves (forwarded lower hash_key lossy vm http reads pool m st answer) (observe m)
  unfolding respond
  forwarded-Leaves reads pool m st none h e =
      end_with-Leaves (error_response http 502 "Bad Gateway") st.0 pool m h e
  forwarded-Leaves reads pool m (s, c) (some (status, headers, body)) h e = ground arith

  forward-Leaves :
      (reads : Reads) (pool : UpstreamPool) (m : Metrics) (st : Session lower vm) (req : Parsed)
      (url : Option String)
      → Leaves (forward lower hash_key lossy vm http reads pool m st req url) (observe m)
  unfolding forward
  forward-Leaves reads pool m st req none = end_with-Leaves _ st.0 pool m
  forward-Leaves reads pool m (s, c) req (some target) = forwarded-Leaves reads pool m (s, c) _

  proceed-Leaves :
      (reads : Reads) (m : Metrics) (st : Session lower vm) (req : Parsed)
      → Leaves (proceed lower hash_key lossy vm http reads m st req) (observe m)
  unfolding proceed
  proceed-Leaves reads m st req =
      let (upstream, routed) = run_on_route lower vm reads.on_route st in
      let transformed = run_on_transform lower vm reads.on_transform routed in
      from transformed (next_url hash_key (or_default upstream) (some req.ip) reads.pool)
    where
      from :
          (st : Session lower vm) (r : Run (Option String × UpstreamPool))
          → Leaves
              (r >>= (λ (url, pool). forward lower hash_key lossy vm http reads pool m st req url))
              (observe m)
      from st (returned (url, pool)) h e = forward-Leaves reads pool m st req url h e
      from st panicked h e = cc

  abbrev adds_rejection : Option (ℕ × String) → Metrics → Metrics
  adds_rejection none m = m
  adds_rejection (some r) m = inc "rejected" m

  decide-Leaves :
      (reads : Reads) (m : Metrics) (st : Session lower vm) (req : Parsed) (r : Option (ℕ × String))
      → Leaves (decide lower hash_key lossy vm http reads m st req r) (observe (adds_rejection r m))
  decide-Leaves reads m st req none = proceed-Leaves reads m st req
  decide-Leaves reads m st req (some (status, msg)) =
      end_with-Leaves _ st.0 reads.pool (inc "rejected" m)

  module _ (reads : Reads) (m : Metrics) (machine : vm.State) (req : Request) (peer : String) where
    -- What `on_request` has rejected the request with, if the body could be read.
    abbrev rejection : Option Bytes → Option (ℕ × String)
    rejection none = none
    rejection (some body) =
        (after_on_request lower hash_key lossy vm http reads machine
          (parse lower hash_key lossy vm http req body peer)).1.rejected

    collected-Leaves :
        (o : Option Bytes)
        → Leaves
            (collected lower hash_key lossy vm http reads (inc req.method m) machine req peer o)
            (observe (adds_rejection (rejection o) (inc req.method m)))
    unfolding admit
    collected-Leaves none h e = ground arith
    collected-Leaves (some body) h e =
        decide-Leaves reads (inc req.method m)
          (after_on_request lower hash_key lossy vm http reads machine
            (parse lower hash_key lossy vm http req body peer))
          _ _ h e

    count-adds_rejection :
        (l : String) (r : Option (ℕ × String)) (m : Metrics)
        → count l (adds_rejection r m)
          ≡ count l m + one_if (is_some r) * one_if (str_eq "rejected" l)
    count-adds_rejection l none m = omega arith
    count-adds_rejection l (some r) m = omega (arith, count-inc "rejected" l m)

    -- Every request whose handling returns, on every path, adds one observation to the histogram
    -- and one to the counter of its method; a request that `on_request` rejects adds another to the
    -- counter of the label "rejected", and no other counter changes.
    pub handle_request-counts :
        (h : Handled lower hash_key lossy vm http)
        → handle_request lower hash_key lossy vm http reads (some m) machine req peer ≡ returned h
        → (h.metrics.req_duration ≡ m.req_duration + 1)
          × ((l : String)
              → count l h.metrics
                ≡ count l m
                  + one_if (str_eq req.method l)
                  + one_if (is_some (rejection req.body)) * one_if (str_eq "rejected" l))
    unfolding handle_request observe
    handle_request-counts h e =
        let r = rejection req.body in
        let left = collected-Leaves req.body h e in
        (
          ap (λ (n : Metrics). n.req_duration) left ∙ durations r,
          λ l.
              ap (λ (n : Metrics). count l n) left
              ∙ omega
                  (arith, count-adds_rejection l r (inc req.method m), count-inc req.method l m),
        )
      where
        durations :
            (r : Option (ℕ × String))
            → (observe (adds_rejection r (inc req.method m))).req_duration ≡ m.req_duration + 1
        durations none = unfold inc in refl
        durations (some r) = unfold inc in refl
