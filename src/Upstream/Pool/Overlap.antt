-- ===== src/Upstream/Pool/Overlap.antt =====
-- pool.rs: health checks of rounds that overlap, with requests between them.
use dgsw_class_pg_proxy.Prelude.{
  ℕ, ◌≡◌, refl, ap, ◌∙◌, String, Bool, true, false, ◌&&◌, ◌==◌, inl, inr, Option, none, some, List,
  [], ◌∷◌, arith, str_eq, str_eq_iff, if◌then◌else◌, Bool-cases, get_elem?,
}
use mathlib.Core.Option
use dgsw_class_pg_proxy.Prelude.Maps.{lookup, insert, lookup-insert}
use dgsw_class_pg_proxy.Prelude.Run.{Run, returned, panicked}
use dgsw_class_pg_proxy.Upstream.Balancer.{Target, Balancer, targets}
use dgsw_class_pg_proxy.Upstream.Pool.{
  UpstreamPool, HealthClient, Probe, resolve, next_url, finish_probe, reqwest_health_check,
}
use dgsw_class_pg_proxy.Upstream.Pool.Lookup.{Asks, next_url-Asks}
use dgsw_class_pg_proxy.Upstream.Pool.Health.{target_at, checked, target_at-finish_probe}
use dgsw_class_pg_proxy.Upstream.Pool.Every.{resolve_sound, Picks-targets}

-- What reaches the pool: the end of a check, with what the network gave at that check, or a request
-- for an upstream with a key.
pub data PoolEvent : Type 0 where
  ended : HealthClient → Probe → PoolEvent
  asked : String → Option String → PoolEvent

abbrev pub or_old : Run (Option String × UpstreamPool) → UpstreamPool → UpstreamPool
or_old panicked old = old
or_old (returned (url, pool)) old = pool

abbrev pub is_about : String → ℕ → Probe → Bool
is_about name i p = str_eq p.name name && (p.position == i)

-- The verdict of the last check of a target that has ended.
pub last_verdict : String → ℕ → List PoolEvent → Option Bool → Option Bool
last_verdict name i [] old = old
last_verdict name i (ended client p ∷ events) old =
    last_verdict name i events
      (if is_about name i p then some (reqwest_health_check client p.url) else old)
last_verdict name i (asked upstream key ∷ events) old = last_verdict name i events old

abbrev pub stored : Option Bool → Option Target → Option Target
stored none o = o
stored (some v) o = Option.map (checked v) o

stored_again :
    (v : Bool) (old : Option Bool) (o : Option Target)
    → Option.map (checked v) (stored old o) ≡ stored (some v) o
stored_again v none o = refl
stored_again v (some w) none = refl
stored_again v (some w) (some t) = refl

module _ (hash_key : String → ℕ) where
  abbrev happens : PoolEvent → UpstreamPool → UpstreamPool
  happens (ended client p) pool = finish_probe client p pool
  happens (asked name key) pool = or_old (next_url hash_key name key pool) pool

  pub happen : List PoolEvent → UpstreamPool → UpstreamPool
  happen [] pool = pool
  happen (e ∷ events) pool = happen events (happens e pool)

  target_at-insert :
      (k name : String) (i : ℕ) (b b' : Balancer) (pool : UpstreamPool)
      → lookup k pool ≡ some b
      → targets b' ≡ targets b
      → target_at (insert k b' pool) name i ≡ target_at pool name i
  target_at-insert k name i b b' pool at same = elim (Bool-cases (str_eq k name)) [
    | inl here ↦
        let e : lookup name (insert k b' pool) ≡ some b' =
          ground (arith, lookup-insert k name b' pool) in
        let f : lookup name pool ≡ some b = ground (arith, str_eq_iff k name) in
        rw (e, f) (ap (λ ts. get_elem? ts i) same)
    | inr other ↦
        let e : lookup name (insert k b' pool) ≡ lookup name pool =
          ground (arith, lookup-insert k name b' pool) in
        rw e refl
  ]

  target_at-asked :
      (upstream : String) (key : Option String) (pool : UpstreamPool) (name : String) (i : ℕ)
      → target_at (happens (asked upstream key) pool) name i ≡ target_at pool name i
  target_at-asked upstream key pool name i =
      from (resolve upstream pool) refl (next_url-Asks hash_key key pool upstream)
    where
      from :
          (o : Option (String × Balancer))
          → resolve upstream pool ≡ o
          → Asks hash_key pool o (next_url hash_key upstream key pool)
          → target_at (or_old (next_url hash_key upstream key pool) pool) name i
            ≡ target_at pool name i
      from none e r = rw r refl
      from (some (k, b)) e (url, b', r, p) = rw r (
          target_at-insert k name i b b' pool (resolve_sound upstream k b pool e)
            (Picks-targets b b' url p))

  target_at-ended :
      (client : HealthClient) (p : Probe) (pool : UpstreamPool) (name : String) (i : ℕ)
      → target_at (finish_probe client p pool) name i ≡ (
          if is_about name i p
          then Option.map (checked (reqwest_health_check client p.url)) (target_at pool name i)
          else target_at pool name i)
  target_at-ended client p pool name i = elim (target_at-finish_probe client p pool name i) [
    | inl (s, e) ↦
        let about : is_about name i p ≡ true = ground (arith, str_eq_iff p.name name) in rw about e
    | inr (n, e) ↦
        let about : is_about name i p ≡ false = ground (arith, str_eq_iff p.name name) in rw about e
  ]

  happen_from :
      (events : List PoolEvent) (pool : UpstreamPool) (name : String) (i : ℕ) (old : Option Bool)
      (o : Option Target)
      → target_at pool name i ≡ stored old o
      → target_at (happen events pool) name i ≡ stored (last_verdict name i events old) o
  unfolding happen last_verdict
  happen_from [] pool name i old o h = h
  happen_from (asked upstream key ∷ events) pool name i old o h =
      happen_from events (happens (asked upstream key) pool) name i old o
        (target_at-asked upstream key pool name i ∙ h)
  happen_from (ended client p ∷ events) pool name i old o h =
      happen_from events (finish_probe client p pool) name i
        (if is_about name i p then some (reqwest_health_check client p.url) else old) o
        (target_at-ended client p pool name i ∙ elim (Bool-cases (is_about name i p)) [
          | inl about ↦ rw (about, h) (stored_again (reqwest_health_check client p.url) old o)
          | inr other ↦ rw (other, h) refl
        ])

  -- Whatever the order in which checks of the same round or of several end and requests come in,
  -- and whatever the network gives at each check: a target is alive exactly if the last of its
  -- checks that has ended succeeded, and as before if none has; its URL and its count of
  -- connections stay.
  pub target_at-happen :
      (events : List PoolEvent) (pool : UpstreamPool) (name : String) (i : ℕ)
      → target_at (happen events pool) name i
        ≡ stored (last_verdict name i events none) (target_at pool name i)
  target_at-happen events pool name i =
      happen_from events pool name i none (target_at pool name i) refl
