-- ===== src/Upstream/Pool/Names.antt =====
-- pool.rs: every name keeps the URLs of its configuration while the program runs.
use dgsw_class_pg_proxy.Prelude.{
  ℕ, zero, suc, ◌≡◌, refl, sym, ap, ◌∙◌, inl, inr, Bool, String, Option, none, some, List, [], ◌∷◌,
  map, arith, str_eq, str_eq_iff, subst, Bool-cases, Option-cases,
}
use mathlib.Core.Option
use dgsw_class_pg_proxy.Prelude.Maps.{lookup, insert, lookup-insert}
use dgsw_class_pg_proxy.Prelude.Run.{returned}
use dgsw_class_pg_proxy.Config.{UpstreamConfig}
use dgsw_class_pg_proxy.Upstream.Balancer.{Target, new_target, Balancer, targets}
use dgsw_class_pg_proxy.Upstream.Pool.{
  UpstreamPool, HealthClient, Probe, new_pool, init, resolve, next_url, set_alive, finish_probe,
  reqwest_health_check, store_alive,
}
use dgsw_class_pg_proxy.Upstream.Pool.Lookup.{
  last_named, configured, lookup-init, Asks, next_url-Asks,
}
use dgsw_class_pg_proxy.Upstream.Pool.Health.{targets-store_alive}
use dgsw_class_pg_proxy.Upstream.Pool.Every.{targets-make_balancer, resolve_sound, Picks-targets}
use dgsw_class_pg_proxy.Upstream.Pool.Idle.{request, probe, Reach, here, after}

abbrev pub urls_of : Balancer → List String
urls_of b = map (λ (t : Target). t.url) (targets b)

-- Every name stands for a balancer with the URLs of its last configuration, or for nothing.
abbrev pub IsConfigured : List UpstreamConfig → UpstreamPool → Type 0
IsConfigured configs pool =
    (name : String)
    → Option.map urls_of (lookup name pool)
      ≡ Option.map (λ (cfg : UpstreamConfig). cfg.targets) (last_named name configs)

urls-new : (urls : List String) → map (λ (t : Target). t.url) (map new_target urls) ≡ urls
unfolding new_target
urls-new [] = refl
urls-new (u ∷ urls) = ap (λ us. u ∷ us) (urls-new urls)

urls-set_alive :
    (i : ℕ) (v : Bool) (ts : List Target)
    → map (λ (t : Target). t.url) (set_alive i v ts) ≡ map (λ (t : Target). t.url) ts
unfolding set_alive
urls-set_alive i v [] = refl
urls-set_alive zero v (t ∷ ts) = refl
urls-set_alive (suc i) v (t ∷ ts) = ap (λ us. t.url ∷ us) (urls-set_alive i v ts)

init-IsConfigured : (configs : List UpstreamConfig) → IsConfigured configs (init configs new_pool)
unfolding lookup
init-IsConfigured configs name =
    ap (Option.map urls_of) (lookup-init name configs new_pool) ∙ from (last_named name configs)
  where
    from :
        (o : Option UpstreamConfig)
        → Option.map urls_of (configured o none)
          ≡ Option.map (λ (cfg : UpstreamConfig). cfg.targets) o
    from none = refl
    from (some cfg) =
        let made = targets-make_balancer cfg.lb (map new_target cfg.targets) in
        rw made (ap some (urls-new cfg.targets))

module _ (configs : List UpstreamConfig) where
  -- Another balancer with the same URLs takes the place of one.
  insert-IsConfigured :
      (k : String) (b b' : Balancer) (pool : UpstreamPool)
      → lookup k pool ≡ some b
      → urls_of b' ≡ urls_of b
      → IsConfigured configs pool
      → IsConfigured configs (insert k b' pool)
  insert-IsConfigured k b b' pool at same stands name = elim (Bool-cases (str_eq k name)) [
    | inl found ↦
        let e : lookup name (insert k b' pool) ≡ some b' =
          ground (arith, lookup-insert k name b' pool) in
        let f : lookup name pool ≡ some b = ground (arith, str_eq_iff k name) in
        ap (Option.map urls_of) e ∙ ap some same ∙ ap (Option.map urls_of) (sym f) ∙ stands name
    | inr other ↦
        let e : lookup name (insert k b' pool) ≡ lookup name pool =
          ground (arith, lookup-insert k name b' pool) in
        ap (Option.map urls_of) e ∙ stands name
  ]

  finish_probe-IsConfigured :
      (client : HealthClient) (p : Probe) (pool : UpstreamPool)
      → IsConfigured configs pool
      → IsConfigured configs (finish_probe client p pool)
  unfolding finish_probe
  finish_probe-IsConfigured client p pool stands = elim (Option-cases (lookup p.name pool)) [
    | inl e ↦ rw (e, finish_probe) stands
    | inr (b, e) ↦
        let v = reqwest_health_check client p.url in
        rw (e, finish_probe)
          (insert-IsConfigured p.name b (store_alive p.position v b) pool e
            (ap (map (λ (t : Target). t.url)) (targets-store_alive p.position v b)
              ∙ urls-set_alive p.position v (targets b))
            stands)
  ]

  module _ (hash_key : String → ℕ) where
    asked-IsConfigured :
        (pool pool' : UpstreamPool) (name : String) (key url : Option String)
        → next_url hash_key name key pool ≡ returned (url, pool')
        → IsConfigured configs pool
        → IsConfigured configs pool'
    asked-IsConfigured pool pool' name key url h stands =
        from (resolve name pool) refl (next_url-Asks hash_key key pool name)
      where
        from :
            (o : Option (String × Balancer))
            → resolve name pool ≡ o
            → Asks hash_key pool o (next_url hash_key name key pool)
            → IsConfigured configs pool'
        from none e r =
            let both = sym r ∙ h in
            let same : pool ≡ pool' = ground arith in subst (IsConfigured configs) same stands
        from (some (k, b)) e (url', b', r, p) =
            let both = sym r ∙ h in
            let same : insert k b' pool ≡ pool' = ground arith in
            subst (IsConfigured configs) same (
              insert-IsConfigured k b b' pool (resolve_sound name k b pool e)
                (ap (map (λ (t : Target). t.url)) (Picks-targets b b' url' p)) stands)

    module _ (client : HealthClient) where
      pub Reach-IsConfigured :
          (pool : UpstreamPool)
          → Reach hash_key client (init configs new_pool) pool
          → IsConfigured configs pool
      Reach-IsConfigured _ here = init-IsConfigured configs
      Reach-IsConfigured pool' (after {pool} r (request name key url e)) =
          asked-IsConfigured pool pool' name key url e (Reach-IsConfigured pool r)
      Reach-IsConfigured pool' (after {pool} r (probe p e)) =
          rw e (finish_probe-IsConfigured client p pool (Reach-IsConfigured pool r))
