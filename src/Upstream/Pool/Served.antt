-- ===== src/Upstream/Pool/Served.antt =====
-- pool.rs: by which configuration a name is served, in every state of the running program.
use dgsw_class_pg_proxy.Prelude.{
  ℕ, ◌≡◌, refl, sym, ap, ◌∙◌, inl, inr, String, Option, none, some, List, arith, subst,
  Option-cases,
}
use mathlib.Core.Option
use dgsw_class_pg_proxy.Prelude.Maps.{lookup, insert}
use dgsw_class_pg_proxy.Prelude.Run.{returned}
use dgsw_class_pg_proxy.Config.{UpstreamConfig}
use dgsw_class_pg_proxy.Upstream.Balancer.{Balancer}
use dgsw_class_pg_proxy.Upstream.Balancer.Selection.{Picks}
use dgsw_class_pg_proxy.Upstream.Pool.{
  UpstreamPool, HealthClient, new_pool, init, resolve, next_url,
}
use dgsw_class_pg_proxy.Upstream.Pool.Lookup.{last_named, Asks, next_url-Asks}
use dgsw_class_pg_proxy.Upstream.Pool.Idle.{Reach}
use dgsw_class_pg_proxy.Upstream.Pool.Names.{urls_of, IsConfigured, Reach-IsConfigured}

-- The configuration that serves a name, and the name that it has: the last one of that name, or, if
-- there is none, the last one named "default".
unfoldable pub serving : List UpstreamConfig → String → Option (String × UpstreamConfig)
serving configs name = elim (last_named name configs) [
  | some cfg ↦ some (name, cfg)
  | none ↦ elim (last_named "default" configs) [ some cfg ↦ some ("default", cfg) | none ↦ none ]
]

module _ (configs : List UpstreamConfig) (hash_key : String → ℕ) (client : HealthClient) where
  -- How a name is answered by the configuration that serves it.
  abbrev pub Answers :
      String → Option String → UpstreamPool → Option (String × UpstreamConfig) → Type 0
  Answers name key pool none = next_url hash_key name key pool ≡ returned (none, pool)
  Answers name key pool (some (k, cfg)) =
      (b : Balancer) × (url : Option String) × (b' : Balancer) × (lookup k pool ≡ some b)
      × (urls_of b ≡ cfg.targets)
      × (next_url hash_key name key pool ≡ returned (url, insert k b' pool))
      × Picks b (returned (url, b'))

  stands_for :
      (name : String) (pool : UpstreamPool) (cfg : UpstreamConfig)
      → IsConfigured configs pool
      → last_named name configs ≡ some cfg
      → (b : Balancer) × (lookup name pool ≡ some b) × (urls_of b ≡ cfg.targets)
  stands_for name pool cfg stands named = elim (Option-cases (lookup name pool)) [
    | inl e ↦ absurd (
        let bad =
          sym (ap (Option.map urls_of) e)
          ∙ stands name
          ∙ ap (Option.map (λ (c : UpstreamConfig). c.targets)) named in
        ground arith)
    | inr (b, e) ↦
        let same =
          sym (ap (Option.map urls_of) e)
          ∙ stands name
          ∙ ap (Option.map (λ (c : UpstreamConfig). c.targets)) named in
        (b, e, ground arith)
  ]

  stands_for_none :
      (name : String) (pool : UpstreamPool)
      → IsConfigured configs pool
      → last_named name configs ≡ none
      → lookup name pool ≡ none
  stands_for_none name pool stands named = elim (Option-cases (lookup name pool)) [
    | inl e ↦ e
    | inr (b, e) ↦ absurd (
        let bad =
          sym (ap (Option.map urls_of) e)
          ∙ stands name
          ∙ ap (Option.map (λ (c : UpstreamConfig). c.targets)) named in
        ground arith)
  ]

  by_config :
      (name k : String) (key : Option String) (pool : UpstreamPool) (cfg : UpstreamConfig)
      (b : Balancer)
      → lookup k pool ≡ some b
      → urls_of b ≡ cfg.targets
      → resolve name pool ≡ some (k, b)
      → Answers name key pool (some (k, cfg))
  by_config name k key pool cfg b at urls e =
      let asks =
        subst (λ o. Asks hash_key pool o (next_url hash_key name key pool)) e
          (next_url-Asks hash_key key pool name) in
      let (url, b', r, p) = asks in (b, url, b', at, urls, r, p)

  by_default :
      (name : String) (key : Option String) (pool : UpstreamPool)
      → IsConfigured configs pool
      → last_named name configs ≡ none
      → Answers name key pool (serving configs name)
  unfolding serving resolve
  by_default name key pool stands missing =
      let gone = stands_for_none name pool stands missing in
      elim (Option-cases (last_named "default" configs)) [
        | inl e ↦
            let no_default = stands_for_none "default" pool stands e in
            let nobody : resolve name pool ≡ none = rw (gone, resolve, no_default) refl in
            let chosen : serving configs name ≡ none = rw (missing, serving, e) refl in
            subst (Answers name key pool) (sym chosen) (
              subst (λ o. Asks hash_key pool o (next_url hash_key name key pool)) nobody
                (next_url-Asks hash_key key pool name))
        | inr (cfg, e) ↦
            let (b, at, urls) = stands_for "default" pool cfg stands e in
            let found : resolve name pool ≡ some ("default", b) = rw (gone, resolve, at) refl in
            let chosen : serving configs name ≡ some ("default", cfg) =
              rw (missing, serving, e) refl in
            subst (Answers name key pool) (sym chosen)
              (by_config name "default" key pool cfg b at urls found)
      ]

  -- In every state that requests and health checks reach after `init`, `next_url` does not
  -- panic, and a name is served by the last configuration that has it, or, if none has, by the
  -- last one named "default": the balancer that it is asked of has the URLs of that
  -- configuration, and answers `none` if none of its targets is alive and else the URL of one
  -- that is. No other balancer changes. Without either configuration the answer is `none` and
  -- nothing changes.
  pub next_url-configured :
      (pool : UpstreamPool) (name : String) (key : Option String)
      → Reach hash_key client (init configs new_pool) pool
      → Answers name key pool (serving configs name)
  unfolding serving resolve
  next_url-configured pool name key reached =
      let stands = Reach-IsConfigured configs hash_key client pool reached in
      elim (Option-cases (last_named name configs)) [
        | inl missing ↦ by_default name key pool stands missing
        | inr (cfg, e) ↦
            let (b, at, urls) = stands_for name pool cfg stands e in
            let found : resolve name pool ≡ some (name, b) = rw (at, resolve) refl in
            let chosen : serving configs name ≡ some (name, cfg) = rw (e, serving) refl in
            subst (Answers name key pool) (sym chosen)
              (by_config name name key pool cfg b at urls found)
      ]
