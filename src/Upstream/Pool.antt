-- ===== src/Upstream/Pool.antt =====
-- src/upstream/pool.rs. The map behind the lock is a value that each operation returns anew. The
-- HTTP client that a health check uses is a parameter.
pub mod Lookup
pub mod Health
pub mod Rounds
pub mod Every
pub mod Overlap
pub mod Idle
pub mod Names
pub mod Served
use mathlib.Core.Option
use dgsw_class_pg_proxy.Prelude.{
  ℕ, zero, suc, ◌+◌, String, Bool, false, ◌&&◌, ◌||◌, Option, none, some, List, [], ◌∷◌, ◌++◌, map,
  leb, ltb, ◌==◌, concat, if◌then◌else◌,
}
use dgsw_class_pg_proxy.Prelude.Maps.{StrMap, lookup, insert}
use dgsw_class_pg_proxy.Prelude.Run.{Run, returned, ◌>>=◌}
use dgsw_class_pg_proxy.Config.{UpstreamConfig}
use dgsw_class_pg_proxy.Upstream.Balancer.{
  Target, new_target, Balancer, round_robin, least_conn, consistent_hash, targets, next,
  make_balancer,
}

-- `inner`: an upstream's name and its balancer.
abbrev pub UpstreamPool : Type 0
UpstreamPool = StrMap Balancer

abbrev pub new_pool : UpstreamPool
new_pool = []

abbrev pub balancer_of : UpstreamConfig → Balancer
balancer_of cfg = make_balancer cfg.lb (map new_target cfg.targets)

unfoldable pub init : List UpstreamConfig → UpstreamPool → UpstreamPool
init [] pool = pool
init (cfg ∷ configs) pool = init configs (insert cfg.name (balancer_of cfg) pool)

-- `map.get(name).or_else(|| map.get("default"))`, with the key under which the balancer stands.
unfoldable pub resolve : String → UpstreamPool → Option (String × Balancer)
resolve name pool = elim (lookup name pool) [
  | some b ↦ some (name, b)
  | none ↦ Option.map (λ (b : Balancer). ("default", b)) (lookup "default" pool)
]

module _ (hash_key : String → ℕ) where
  unfoldable pub next_url :
      String → Option String → UpstreamPool → Run (Option String × UpstreamPool)
  unfolding resolve
  next_url name key pool = elim (resolve name pool) [
    | none ↦ returned (none, pool)
    | some (k, b) ↦ do (url, b') ← next hash_key key b; returned (url, insert k b' pool)
  ]

-- A `HEAD` request: the status of the answer, `none` on an error.
pub record HealthClient : Type 0 where
  pub parses : String → Bool
  pub head : String → Option ℕ

abbrev pub is_success : ℕ → Bool
is_success status = leb 200 status && ltb status 300

abbrev healthy : Option ℕ → Bool
healthy none = false
healthy (some status) = is_success status || status == 404

unfoldable pub reqwest_health_check : HealthClient → String → Bool
reqwest_health_check client url = if client.parses url then healthy (client.head url) else false

-- One task of a round of health checks: the target at a position of an upstream, and the URL.
pub record Probe : Type 0 where
  pub name : String
  pub position : ℕ
  pub url : String

unfoldable pub probes_of : String → String → ℕ → List Target → List Probe
unfolding concat
probes_of name path i [] = []
probes_of name path i (t ∷ ts) =
    record { name = name; position = i; url = concat t.url path } ∷ probes_of name path (suc i) ts

abbrev targets_under : Option Balancer → List Target
targets_under none = []
targets_under (some b) = targets b

-- The tasks that one round of `spawn_health_checks` spawns.
unfoldable pub probe_round : List UpstreamConfig → UpstreamPool → List Probe
unfolding probes_of
probe_round [] pool = []
probe_round (cfg ∷ configs) pool =
    probes_of cfg.name cfg.health_check_path 0 (targets_under (lookup cfg.name pool))
    ++ probe_round configs pool

unfoldable pub set_alive : ℕ → Bool → List Target → List Target
set_alive i alive [] = []
set_alive zero alive (t ∷ ts) = record t { alive = alive } ∷ ts
set_alive (suc i) alive (t ∷ ts) = t ∷ set_alive i alive ts

unfoldable pub store_alive : ℕ → Bool → Balancer → Balancer
unfolding set_alive
store_alive i alive (round_robin ts counter) = round_robin (set_alive i alive ts) counter
store_alive i alive (least_conn ts) = least_conn (set_alive i alive ts)
store_alive i alive (consistent_hash ts) = consistent_hash (set_alive i alive ts)

-- What a task does: `alive_ref.store` of its verdict.
unfoldable pub finish_probe : HealthClient → Probe → UpstreamPool → UpstreamPool
unfolding store_alive
finish_probe client p pool = elim (lookup p.name pool) [
  | none ↦ pool
  | some b ↦ insert p.name (store_alive p.position (reqwest_health_check client p.url) b) pool
]
