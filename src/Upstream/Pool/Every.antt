-- ===== src/Upstream/Pool/Every.antt =====
-- pool.rs: what holds of every target after `init` and does not depend on whether it is alive holds
-- of every target for good.
use dgsw_class_pg_proxy.Prelude.{
  ℕ, zero, suc, ◌≡◌, refl, sym, ◌∙◌, Bool, String, inl, inr, Option, none, some, List, [], ◌∷◌, map,
  In, All, All_In, arith, str_eq, Option-cases, Bool-cases,
}
use dgsw_class_pg_proxy.Prelude.Maps.{lookup, insert, lookup-insert}
use dgsw_class_pg_proxy.Prelude.Run.{returned}
use dgsw_class_pg_proxy.Config.{UpstreamConfig}
use dgsw_class_pg_proxy.Upstream.Balancer.{Target, new_target, Balancer, targets, make_balancer}
use dgsw_class_pg_proxy.Upstream.Balancer.Selection.{Picks}
use dgsw_class_pg_proxy.Upstream.Pool.{
  UpstreamPool, HealthClient, Probe, new_pool, balancer_of, init, resolve, next_url, set_alive,
  finish_probe, reqwest_health_check,
}
use dgsw_class_pg_proxy.Upstream.Pool.Lookup.{
  last_named, last_named_sound, configured, lookup-init, Asks, next_url-Asks,
}
use dgsw_class_pg_proxy.Upstream.Pool.Health.{targets-store_alive}

pub targets-make_balancer : (lb : String) (ts : List Target) → targets (make_balancer lb ts) ≡ ts
unfolding make_balancer
targets-make_balancer lb ts = ground arith

pub resolve_sound :
    (name k : String) (b : Balancer) (pool : UpstreamPool)
    → resolve name pool ≡ some (k, b)
    → lookup k pool ≡ some b
unfolding resolve
resolve_sound name k b pool h = elim (Option-cases (lookup name pool)) [
  | inl e ↦ ground arith
  | inr (b', e) ↦ ground arith
]

pub Picks-targets :
    (b b' : Balancer) (url : Option String) → Picks b (returned (url, b')) → targets b' ≡ targets b
Picks-targets b b' url (inl (d, e)) = let e' : b' ≡ b = ground arith in rw e'
Picks-targets b b' url (inr (t, c, m, up, same, e)) = let e' : b' ≡ c = ground arith in rw e' same

module _ (Q : Target → Type 0)
    (stable : (v : Bool) (t : Target) → Q t → Q (record t { alive = v })) where
  -- It holds of every target of every balancer.
  abbrev pub IsEvery : UpstreamPool → Type 0
  IsEvery pool = (name : String) (b : Balancer) → lookup name pool ≡ some b → All Q (targets b)

  All-set_alive : (i : ℕ) (v : Bool) (ts : List Target) → All Q ts → All Q (set_alive i v ts)
  unfolding set_alive
  All-set_alive i v [] h = tt
  All-set_alive zero v (t ∷ ts) h = (stable v t h.0, h.1)
  All-set_alive (suc i) v (t ∷ ts) h = (h.0, All-set_alive i v ts h.1)

  insert-IsEvery :
      (k : String) (b : Balancer) (pool : UpstreamPool)
      → IsEvery pool
      → All Q (targets b)
      → IsEvery (insert k b pool)
  insert-IsEvery k b pool every h name b' e = elim (Bool-cases (str_eq k name)) [
    | inl same ↦ let e' : b ≡ b' = ground (arith, lookup-insert k name b pool) in rw (← e') h
    | inr other ↦ every name b' (ground (arith, lookup-insert k name b pool))
  ]

  -- If it holds of the targets of every configuration, it holds after `init`.
  pub init-IsEvery :
      (configs : List UpstreamConfig)
      → ((cfg : UpstreamConfig) → In cfg configs → All Q (map new_target cfg.targets))
      → IsEvery (init configs new_pool)
  unfolding lookup
  init-IsEvery configs all name b h =
      from (last_named name configs) refl (sym (lookup-init name configs new_pool) ∙ h)
    where
      from :
          (o : Option UpstreamConfig)
          → last_named name configs ≡ o
          → configured o (lookup name new_pool) ≡ some b
          → All Q (targets b)
      from none found e = cc
      from (some cfg) found e =
          let e' : balancer_of cfg ≡ b = ground arith in
          rw (← e') (
            rw (targets-make_balancer cfg.lb (map new_target cfg.targets))
              (all cfg (last_named_sound name configs cfg found)))

  -- The URL that is answered is one of a target of which it holds.
  abbrev pub Of : Option String → Type 0
  Of none = Unit {0}
  Of (some url) = (t : Target) × Q t × (url ≡ t.url)

  Of-Picks :
      (b b' : Balancer) (url : Option String)
      → All Q (targets b)
      → Picks b (returned (url, b'))
      → Of url
  Of-Picks b b' none every p = tt
  Of-Picks b b' (some u) every (inl (d, e)) = cc
  Of-Picks b b' (some u) every (inr (t, c, m, up, same, e)) =
      (t, All_In Q (targets b) t every m, ground arith)

  pub next_url-IsEvery :
      (hash_key : String → ℕ) (pool : UpstreamPool) (name : String) (key : Option String)
      → IsEvery pool
      → (url : Option String) × (pool' : UpstreamPool) × (next_url hash_key name key pool
          ≡ returned (url, pool'))
        × IsEvery pool'
        × Of url
  next_url-IsEvery hash_key pool name key every =
      from (resolve name pool) refl (next_url-Asks hash_key key pool name)
    where
      from :
          (o : Option (String × Balancer))
          → resolve name pool ≡ o
          → Asks hash_key pool o (next_url hash_key name key pool)
          → (url : Option String) × (pool' : UpstreamPool) × (next_url hash_key name key pool
              ≡ returned (url, pool'))
            × IsEvery pool'
            × Of url
      from none e r = (none, pool, r, every, tt)
      from (some (k, b)) e (url, b', r, p) =
          let of_b = every k b (resolve_sound name k b pool e) in
          (
            url,
            insert k b' pool,
            r,
            insert-IsEvery k b' pool every (rw (Picks-targets b b' url p) of_b),
            Of-Picks b b' url of_b p,
          )

  pub finish_probe-IsEvery :
      (client : HealthClient) (p : Probe) (pool : UpstreamPool)
      → IsEvery pool
      → IsEvery (finish_probe client p pool)
  unfolding finish_probe
  finish_probe-IsEvery client p pool every = elim (Option-cases (lookup p.name pool)) [
    | inl e ↦ rw (e, finish_probe) every
    | inr (b, e) ↦
        let v = reqwest_health_check client p.url in
        rw (e, finish_probe)
          (insert-IsEvery p.name _ pool every (
            rw (targets-store_alive p.position v b)
              (All-set_alive p.position v (targets b) (every p.name b e))))
  ]
