-- ===== src/Upstream/Pool/Health.antt =====
-- pool.rs: the health checks of a round, as tasks that end in any order.
use mathlib.Core.Option
use native.Mathlib.Decide.{ℕ_discrete}
use dgsw_class_pg_proxy.Prelude.{
  ℕ, zero, suc, ◌≡◌, refl, ap, ◌∙◌, subst, String, Bool, ◌⊎◌, inl, inr, ◌≢◌, Option, none, some,
  List, [], ◌∷◌, In, get_elem?, arith, str_eq, str_eq_iff, if◌then◌else◌, Option-cases, Bool-cases,
}
use dgsw_class_pg_proxy.Prelude.Maps.{lookup, lookup-insert}
use dgsw_class_pg_proxy.Upstream.Balancer.{
  Target, Balancer, round_robin, least_conn, consistent_hash, targets,
}
use dgsw_class_pg_proxy.Upstream.Pool.{
  UpstreamPool, HealthClient, Probe, reqwest_health_check, targets_under, set_alive, store_alive,
  finish_probe,
}

-- The target at a position of an upstream.
abbrev pub target_at : UpstreamPool → String → ℕ → Option Target
target_at pool name i = get_elem? (targets_under (lookup name pool)) i

-- What a task's end does to the target at a position.
abbrev pub checked : Bool → Target → Target
checked alive t = record t { alive = alive }

set_alive_self :
    (i : ℕ) (v : Bool) (ts : List Target)
    → get_elem? (set_alive i v ts) i ≡ Option.map (checked v) (get_elem? ts i)
unfolding set_alive
set_alive_self i v [] = refl
set_alive_self zero v (t ∷ ts) = refl
set_alive_self (suc i) v (t ∷ ts) = set_alive_self i v ts

set_alive-other :
    (i j : ℕ) (v : Bool) (ts : List Target)
    → i ≢ j
    → get_elem? (set_alive i v ts) j ≡ get_elem? ts j
unfolding set_alive
set_alive-other i j v [] h = refl
set_alive-other zero zero v (t ∷ ts) h = absurd (h refl)
set_alive-other zero (suc j) v (t ∷ ts) h = refl
set_alive-other (suc i) zero v (t ∷ ts) h = refl
set_alive-other (suc i) (suc j) v (t ∷ ts) h = set_alive-other i j v ts (λ e. h (ap suc e))

pub targets-store_alive :
    (i : ℕ) (v : Bool) (b : Balancer) → targets (store_alive i v b) ≡ set_alive i v (targets b)
unfolding store_alive
targets-store_alive i v (round_robin ts c) = refl
targets-store_alive i v (least_conn ts) = refl
targets-store_alive i v (consistent_hash ts) = refl

module _ (client : HealthClient) where
  abbrev pub verdict : Probe → Bool
  verdict p = reqwest_health_check client p.url

  abbrev Same : Probe → String → ℕ → Type 0
  Same p name i = (p.name ≡ name) × (p.position ≡ i)

  pub lookup-finish_probe :
      (p : Probe) (pool : UpstreamPool) (name : String)
      → lookup name (finish_probe client p pool) ≡ (
          if str_eq p.name name
          then Option.map (store_alive p.position (verdict p)) (lookup name pool)
          else lookup name pool)
  unfolding finish_probe
  lookup-finish_probe p pool name = elim (Option-cases (lookup p.name pool)) [
    | inl e ↦ ground (arith, str_eq_iff p.name name)
    | inr (b, e) ↦
        let v = reqwest_health_check client p.url in
        ground (
          arith,
          str_eq_iff p.name name,
          lookup-insert p.name name (store_alive p.position v b) pool,
        )
  ]

  targets-map :
      (p : Probe) (o : Option Balancer)
      → targets_under (Option.map (store_alive p.position (verdict p)) o)
        ≡ set_alive p.position (verdict p) (targets_under o)
  unfolding set_alive
  targets-map p none = refl
  targets-map p (some b) = targets-store_alive p.position (verdict p) b

  pub target_at-finish_probe :
      (p : Probe) (pool : UpstreamPool) (name : String) (i : ℕ)
      → (Same p name i
          × (target_at (finish_probe client p pool) name i
              ≡ Option.map (checked (verdict p)) (target_at pool name i)))
        ⊎ ((¬ Same p name i)
            × (target_at (finish_probe client p pool) name i ≡ target_at pool name i))
  target_at-finish_probe p pool name i =
      rw (lookup-finish_probe p pool name) (elim (Bool-cases (str_eq p.name name)) [
        | inr other ↦ rw other (inr (ground (arith, str_eq_iff p.name name), refl))
        | inl same ↦ rw same (
            rw (targets-map p (lookup name pool)) (elim (ℕ_discrete p.position i) [
              | yes e ↦ inl (((str_eq_iff _ _).0 same, e), rw e (set_alive_self i (verdict p) _))
              | no ne ↦ inr ((λ s. ne s.1), set_alive-other p.position i (verdict p) _ ne)
            ]))
      ])

  -- The tasks in the order in which they end.
  unfoldable pub finish_all : List Probe → UpstreamPool → UpstreamPool
  finish_all [] pool = pool
  finish_all (p ∷ ps) pool = finish_all ps (finish_probe client p pool)

  -- No task concerns the target: it keeps its state.
  finish_all-none :
      (ps : List Probe) (pool : UpstreamPool) (name : String) (i : ℕ)
      → ((p : Probe) → In p ps → ¬ Same p name i)
      → target_at (finish_all ps pool) name i ≡ target_at pool name i
  unfolding finish_all
  finish_all-none [] pool name i h = refl
  finish_all-none (p ∷ ps) pool name i h =
      finish_all-none ps (finish_probe client p pool) name i (λ q m. h q (inr m))
      ∙ elim (target_at-finish_probe p pool name i) [
        | inl (s, e) ↦ absurd (h p (inl refl) s)
        | inr (n, e) ↦ e
      ]

  abbrev pub set_to : Bool → Option Target → Option Target
  set_to v = Option.map (checked v)

  -- All tasks that concern the target agree, and it has their verdict already.
  finish_all-keeps :
      (ps : List Probe) (pool : UpstreamPool) (name : String) (i : ℕ) (v : Bool) (o : Option Target)
      → ((p : Probe) → In p ps → Same p name i → verdict p ≡ v)
      → target_at pool name i ≡ set_to v o
      → target_at (finish_all ps pool) name i ≡ set_to v o
  unfolding finish_all
  finish_all-keeps [] pool name i v o h e = e
  finish_all-keeps (p ∷ ps) pool name i v o h e =
      finish_all-keeps ps (finish_probe client p pool) name i v o (λ q m. h q (inr m))
        (elim (target_at-finish_probe p pool name i) [
          | inl (s, e') ↦ rw (e', e, h p (inl refl) s) (again o)
          | inr (n, e') ↦ e' ∙ e
        ])
    where
      again : (o : Option Target) → set_to v (set_to v o) ≡ set_to v o
      again none = refl
      again (some t) = refl

  pub finish_all-sets :
      (ps : List Probe) (pool : UpstreamPool) (name : String) (i : ℕ) (v : Bool) (p : Probe)
      → ((q : Probe) → In q ps → Same q name i → verdict q ≡ v)
      → In p ps
      → Same p name i
      → target_at (finish_all ps pool) name i ≡ set_to v (target_at pool name i)
  unfolding finish_all
  finish_all-sets [] pool name i v p h m s = absurd m
  finish_all-sets (q ∷ ps) pool name i v p h m s = elim (target_at-finish_probe q pool name i) [
    | inl (sq, e) ↦
        finish_all-keeps ps (finish_probe client q pool) name i v (target_at pool name i)
          (λ r mr. h r (inr mr)) (rw (e, h q (inl refl) sq))
    | inr (n, e) ↦
        let later : In p ps = elim m [
          | inl e' ↦ absurd (n (subst (λ r. Same r name i) e' s))
          | inr m' ↦ m'
        ] in
        finish_all-sets ps (finish_probe client q pool) name i v p (λ r mr. h r (inr mr)) later s
        ∙ ap (set_to v) e
  ]
