-- ===== src/Upstream/Pool/Lookup.antt =====
-- pool.rs: the pool after `init`, and which balancer `next_url` asks.
use dgsw_class_pg_proxy.Prelude.{
  ℕ, ◌≡◌, refl, String, inl, inr, Option, none, some, List, [], ◌∷◌, In, Bool-cases, Option-cases,
  arith, str_eq, if◌then◌else◌, subst,
}
use dgsw_class_pg_proxy.Prelude.Maps.{lookup, insert, lookup-insert}
use dgsw_class_pg_proxy.Prelude.Run.{Run, returned}
use dgsw_class_pg_proxy.Config.{UpstreamConfig}
use dgsw_class_pg_proxy.Upstream.Balancer.{Balancer, next}
use dgsw_class_pg_proxy.Upstream.Balancer.Selection.{Picks, next-Picks}
use dgsw_class_pg_proxy.Upstream.Pool.{UpstreamPool, balancer_of, init, resolve, next_url}

-- The last of the configurations that has a name.
unfoldable pub last_named : String → List UpstreamConfig → Option UpstreamConfig
last_named name [] = none
last_named name (cfg ∷ configs) = elim (last_named name configs) [
  | some later ↦ some later
  | none ↦ if str_eq cfg.name name then some cfg else none
]

pub last_named_sound :
    (name : String) (configs : List UpstreamConfig) (cfg : UpstreamConfig)
    → last_named name configs ≡ some cfg
    → In cfg configs
unfolding last_named
last_named_sound name [] cfg h = cc
last_named_sound name (c ∷ configs) cfg h = elim (Option-cases (last_named name configs)) [
  | inl e ↦ elim (Bool-cases (str_eq c.name name)) [
    | inl same ↦ inl (ground arith)
    | inr other ↦ absurd (ground arith)
  ]
  | inr (later, e) ↦ inr (last_named_sound name configs cfg (ground arith))
]

abbrev pub configured : Option UpstreamConfig → Option Balancer → Option Balancer
configured none old = old
configured (some cfg) old = some (balancer_of cfg)

-- After `init` a name stands for the last configuration that has it, or, if none has, for what it
-- stood for before.
pub lookup-init :
    (name : String) (configs : List UpstreamConfig) (pool : UpstreamPool)
    → lookup name (init configs pool) ≡ configured (last_named name configs) (lookup name pool)
unfolding init last_named
lookup-init name [] pool = refl
lookup-init name (cfg ∷ configs) pool = ground (
  arith,
  lookup-init name configs (insert cfg.name (balancer_of cfg) pool),
  lookup-insert cfg.name name (balancer_of cfg) pool,
)

-- What a call of `next_url` does, by the balancer that it asks.
abbrev pub Asks :
    (String → ℕ)
    → UpstreamPool
    → Option (String × Balancer)
    → Run (Option String × UpstreamPool)
    → Type 0
Asks hash_key pool none r = r ≡ returned (none, pool)
Asks hash_key pool (some (k, b)) r =
    (url : Option String) × (b' : Balancer) × (r ≡ returned (url, insert k b' pool))
    × Picks b (returned (url, b'))

resolve-default :
    (pool : UpstreamPool) (name : String)
    → lookup name pool ≡ none
    → resolve name pool ≡ resolve "default" pool
unfolding resolve
resolve-default pool name e = ground arith

module _ (hash_key : String → ℕ) (key : Option String) (pool : UpstreamPool) where
  Picks-returns :
      (b : Balancer) (r : Run (Option String × Balancer))
      → Picks b r
      → (url : Option String) × (b' : Balancer) × (r ≡ returned (url, b'))
  Picks-returns b r (inl (d, e)) = (none, b, e)
  Picks-returns b r (inr (t, b', m, up, same, e)) = (some t.url, b', e)

  -- `next_url` never panics. Without a balancer under the name or under "default" it answers
  -- `none` and changes nothing; otherwise the answer is that balancer's, `none` if none of its
  -- targets is alive and else the URL of one that is, and only that balancer's entry is replaced.
  pub next_url-Asks :
      (name : String) → Asks hash_key pool (resolve name pool) (next_url hash_key name key pool)
  unfolding next_url
  next_url-Asks name = from (resolve name pool) refl
    where
      from :
          (o : Option (String × Balancer))
          → resolve name pool ≡ o
          → Asks hash_key pool o (next_url hash_key name key pool)
      from none e = rw (e, next_url)
      from (some (k, b)) e =
          let p = next-Picks hash_key key b in
          let (url, b', r) = Picks-returns b (next hash_key key b) p in
          (url, b', rw (e, next_url) (rw r), subst (Picks b) r p)

  -- A name that no upstream has is served by the upstream "default", and no more than it.
  pub next_url-default :
      (name : String)
      → lookup name pool ≡ none
      → next_url hash_key name key pool ≡ next_url hash_key "default" key pool
  unfolding next_url
  next_url-default name e = let same = resolve-default pool name e in rw (same, next_url)
