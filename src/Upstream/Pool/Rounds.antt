-- ===== src/Upstream/Pool/Rounds.antt =====
-- pool.rs: a whole round of health checks.
use dgsw_class_pg_proxy.Prelude.{
  ℕ, zero, suc, ◌+◌, ◌≡◌, refl, sym, ap, ◌∙◌, subst, Bool, ◌⊎◌, inl, inr, some, List, [], ◌∷◌, ◌++◌,
  In, get_elem?, arith, concat,
}
use dgsw_class_pg_proxy.Prelude.Maps.{lookup}
use dgsw_class_pg_proxy.Config.{UpstreamConfig}
use dgsw_class_pg_proxy.Upstream.Balancer.{Target}
use dgsw_class_pg_proxy.Upstream.Pool.{
  UpstreamPool, HealthClient, Probe, reqwest_health_check, probes_of, targets_under, probe_round,
}
use dgsw_class_pg_proxy.Upstream.Pool.Health.{
  target_at, checked, finish_all, finish_all-sets, set_to,
}

-- The task that checks the target `t` at the position `i` under a configuration.
abbrev pub probe_for : UpstreamConfig → ℕ → Target → Probe
probe_for cfg i t = record {
  name = cfg.name;
  position = i;
  url = concat t.url cfg.health_check_path;
}

In-append_left : (p : Probe) (xs ys : List Probe) → In p xs → In p (xs ++ ys)
In-append_left p [] ys m = absurd m
In-append_left p (x ∷ xs) ys (inl e) = inl e
In-append_left p (x ∷ xs) ys (inr m) = inr (In-append_left p xs ys m)

In-append_right : (p : Probe) (xs ys : List Probe) → In p ys → In p (xs ++ ys)
In-append_right p [] ys m = m
In-append_right p (x ∷ xs) ys m = inr (In-append_right p xs ys m)

In-append : (p : Probe) (xs ys : List Probe) → In p (xs ++ ys) → In p xs ⊎ In p ys
In-append p [] ys m = inr m
In-append p (x ∷ xs) ys (inl e) = inl (inl e)
In-append p (x ∷ xs) ys (inr m) = elim (In-append p xs ys m) [ inl l ↦ inl (inr l) | inr r ↦ inr r ]

probes_of_complete :
    (cfg : UpstreamConfig) (k i : ℕ) (t : Target) (ts : List Target)
    → get_elem? ts i ≡ some t
    → In (probe_for cfg (k + i) t) (probes_of cfg.name cfg.health_check_path k ts)
unfolding probes_of
probes_of_complete cfg k i t [] e = cc
probes_of_complete cfg k zero t (u ∷ ts) e =
    let e' : k + 0 ≡ k = omega arith in let e'' : t ≡ u = ground arith in inl (rw (e', e''))
probes_of_complete cfg k (suc i) t (u ∷ ts) e =
    let e' : suc k + i ≡ k + suc i = omega arith in
    inr (
      subst (λ j. In (probe_for cfg j t) (probes_of cfg.name cfg.health_check_path (suc k) ts)) e'
        (probes_of_complete cfg (suc k) i t ts e))

probes_of_sound :
    (cfg : UpstreamConfig) (k : ℕ) (p : Probe) (ts : List Target)
    → In p (probes_of cfg.name cfg.health_check_path k ts)
    → (i : ℕ) × (t : Target) × (get_elem? ts i ≡ some t) × (p ≡ probe_for cfg (k + i) t)
unfolding probes_of
probes_of_sound cfg k p [] m = absurd m
probes_of_sound cfg k p (u ∷ ts) (inl e) =
    let e' : k ≡ k + 0 = omega arith in (0, u, refl, e ∙ ap (λ j. probe_for cfg j u) e')
probes_of_sound cfg k p (u ∷ ts) (inr m) =
    let (i, t, at, e) = probes_of_sound cfg (suc k) p ts m in
    let e' : suc k + i ≡ k + suc i = omega arith in
    (suc i, t, at, e ∙ ap (λ j. probe_for cfg j t) e')

-- A round has a task for each target of each configured upstream, and no other.
probe_round_complete :
    (pool : UpstreamPool) (cfg : UpstreamConfig) (configs : List UpstreamConfig) (i : ℕ)
    (t : Target)
    → In cfg configs
    → target_at pool cfg.name i ≡ some t
    → In (probe_for cfg i t) (probe_round configs pool)
unfolding probe_round
probe_round_complete pool cfg [] i t m at = absurd m
probe_round_complete pool cfg (c ∷ configs) i t (inl e) at =
    let e' : 0 + i ≡ i = omega arith in
    In-append_left _ _ _ (
      subst
        (λ (c : UpstreamConfig).
          In (probe_for cfg i t)
            (probes_of c.name c.health_check_path 0 (targets_under (lookup c.name pool))))
        e
        (subst
          (λ j.
            In (probe_for cfg j t)
              (probes_of cfg.name cfg.health_check_path 0 (targets_under (lookup cfg.name pool))))
          e' (probes_of_complete cfg 0 i t _ at)))
probe_round_complete pool cfg (c ∷ configs) i t (inr m) at =
    In-append_right _ _ _ (probe_round_complete pool cfg configs i t m at)

probe_round_sound :
    (pool : UpstreamPool) (configs : List UpstreamConfig) (p : Probe)
    → In p (probe_round configs pool)
    → (cfg : UpstreamConfig) × (i : ℕ) × (t : Target) × In cfg configs
      × (target_at pool cfg.name i ≡ some t)
      × (p ≡ probe_for cfg i t)
unfolding probe_round
probe_round_sound pool [] p m = absurd m
probe_round_sound pool (c ∷ configs) p m =
    elim (In-append p (probes_of c.name c.health_check_path 0 (targets_under (lookup c.name pool)))
      (probe_round configs pool) m) [
        | inl l ↦
            let (i, t, at, e) = probes_of_sound c 0 p _ l in
            let e' : 0 + i ≡ i = omega arith in
            (c, i, t, inl refl, at, e ∙ ap (λ j. probe_for c j t) e')
        | inr r ↦
            let (cfg, i, t, mem, at, e) = probe_round_sound pool configs p r in
            (cfg, i, t, inr mem, at, e)
      ]

-- Configurations that share a name agree on the path of the health check.
abbrev pub Agree : List UpstreamConfig → Type 0
Agree configs =
    (c d : UpstreamConfig)
    → In c configs
    → In d configs
    → c.name ≡ d.name
    → c.health_check_path ≡ d.health_check_path

-- After a round of health checks, whose tasks end in any order with nothing else between them,
-- every target of every configured upstream is alive exactly if its own check succeeded, and keeps
-- its URL and its count of connections, provided that configurations of one name agree on the path.
pub finish_all-round :
    (client : HealthClient) (configs : List UpstreamConfig) (pool : UpstreamPool) (ps : List Probe)
    (cfg : UpstreamConfig) (i : ℕ) (t : Target)
    → Agree configs
    → ((p : Probe) → In p ps → In p (probe_round configs pool))
    → ((p : Probe) → In p (probe_round configs pool) → In p ps)
    → In cfg configs
    → target_at pool cfg.name i ≡ some t
    → target_at (finish_all client ps pool) cfg.name i
      ≡ some (checked (reqwest_health_check client (concat t.url cfg.health_check_path)) t)
finish_all-round client configs pool ps cfg i t agree only every m at =
    finish_all-sets client ps pool cfg.name i verdict (probe_for cfg i t) same
      (every _ (probe_round_complete pool cfg configs i t m at)) (refl, refl)
    ∙ ap (set_to client verdict) at
  where
    verdict : Bool
    verdict = reqwest_health_check client (concat t.url cfg.health_check_path)

    same :
        (q : Probe)
        → In q ps
        → (q.name ≡ cfg.name) × (q.position ≡ i)
        → reqwest_health_check client q.url ≡ verdict
    same q mq s =
        let (d, j, u, md, atd, e) = probe_round_sound pool configs q (only q mq) in
        let name : d.name ≡ cfg.name = sym (ap (λ (r : Probe). r.name) e) ∙ s.0 in
        let place : j ≡ i = sym (ap (λ (r : Probe). r.position) e) ∙ s.1 in
        let path = agree d cfg md m name in
        let at' : target_at pool cfg.name i ≡ some u =
          subst (λ k. target_at pool cfg.name k ≡ some u) place
            (subst (λ n. target_at pool n j ≡ some u) name atd) in
        let same_target : u ≡ t = cc in rw (e, same_target, path)
