-- ===== src/Upstream/Pool/Idle.antt =====
-- pool.rs and balancer.rs: the connection counts in the running program. Requests and health checks
-- take turns in any order, and nothing else reaches the pool after `init`.
use dgsw_class_pg_proxy.Prelude.{
  ℕ, ◌≡◌, refl, subst, Bool, String, false, inl, inr, Option, some, List, [], ◌∷◌, map, All, arith,
  ltb, filter, Bool-cases,
}
use dgsw_class_pg_proxy.Prelude.Maps.{lookup}
use dgsw_class_pg_proxy.Prelude.Run.{returned}
use dgsw_class_pg_proxy.Config.{UpstreamConfig}
use dgsw_class_pg_proxy.Upstream.Balancer.{
  Target, new_target, is_alive, least_conn, min_by_active, least_conn_next, next,
}
use dgsw_class_pg_proxy.Upstream.Balancer.Selection.{alive_of}
use dgsw_class_pg_proxy.Upstream.Pool.{
  UpstreamPool, HealthClient, Probe, new_pool, init, next_url, finish_probe,
}
use dgsw_class_pg_proxy.Upstream.Pool.Every.{
  IsEvery, init-IsEvery, next_url-IsEvery, finish_probe-IsEvery,
}

pub data Step (hash_key : String → ℕ) (client : HealthClient) (pool pool' : UpstreamPool)
    : Type 0 where
  request :
      (name : String) (key url : Option String)
      → next_url hash_key name key pool ≡ returned (url, pool')
      → Step hash_key client pool pool'
  probe : (p : Probe) → pool' ≡ finish_probe client p pool → Step hash_key client pool pool'

pub data Reach (hash_key : String → ℕ) (client : HealthClient) (start : UpstreamPool)
    : UpstreamPool → Type 0 where
  here : Reach hash_key client start start
  after :
      {pool pool' : UpstreamPool}
      → Reach hash_key client start pool
      → Step hash_key client pool pool'
      → Reach hash_key client start pool'

abbrev HasNone : Target → Type 0
HasNone t = t.active ≡ 0

abbrev Idle : List Target → Type 0
Idle ts = All HasNone ts

HasNone-stable : (v : Bool) (t : Target) → HasNone t → HasNone (record t { alive = v })
HasNone-stable v t h = h

abbrev IsIdle : UpstreamPool → Type 0
IsIdle = IsEvery HasNone HasNone-stable

Idle-filter : (p : Target → Bool) (ts : List Target) → Idle ts → Idle (filter p ts)
Idle-filter p [] h = tt
Idle-filter p (t ∷ ts) h = elim (Bool-cases (p t)) [
  | inl keep ↦ rw keep (h.0, Idle-filter p ts h.1)
  | inr out ↦ rw out (Idle-filter p ts h.1)
]

Idle-new : (urls : List String) → Idle (map new_target urls)
unfolding new_target
Idle-new [] = tt
Idle-new (u ∷ urls) = (refl, Idle-new urls)

init-IsIdle : (configs : List UpstreamConfig) → IsIdle (init configs new_pool)
init-IsIdle configs = init-IsEvery HasNone HasNone-stable configs (λ cfg m. Idle-new cfg.targets)

module _ (hash_key : String → ℕ) (client : HealthClient) where
  request-IsIdle :
      (pool pool' : UpstreamPool) (name : String) (key url : Option String)
      → next_url hash_key name key pool ≡ returned (url, pool')
      → IsIdle pool
      → IsIdle pool'
  request-IsIdle pool pool' name key url h idle =
      let (url₁, pool₁, r, idle₁, of_url) =
        next_url-IsEvery HasNone HasNone-stable hash_key pool name key idle in
      let same : pool₁ ≡ pool' = ground arith in subst IsIdle same idle₁

  Reach-IsIdle :
      {start pool : UpstreamPool} → IsIdle start → Reach hash_key client start pool → IsIdle pool
  Reach-IsIdle idle here = idle
  Reach-IsIdle idle (after {pool} {pool'} r (request name key url h)) =
      request-IsIdle pool pool' name key url h (Reach-IsIdle idle r)
  Reach-IsIdle idle (after {pool} r (probe p e)) =
      rw e (finish_probe-IsEvery HasNone HasNone-stable client p pool (Reach-IsIdle idle r))

min_of_Idle : (t : Target) (ts : List Target) → t.active ≡ 0 → Idle ts → min_by_active t ts ≡ t
unfolding min_by_active
min_of_Idle t [] h i = refl
min_of_Idle t (u ∷ ts) h i =
    let same : ltb u.active t.active ≡ false = ground (arith, i.0) in
    rw (same, min_by_active) (min_of_Idle t ts h i.1)

-- No step of the running program changes a count of connections. So in every state that requests
-- and health checks reach after `init`, a balancer for the least connections always answers the
-- first live target, whatever requests are under way.
pub least_conn-first_alive :
    (hash_key : String → ℕ) (client : HealthClient) (configs : List UpstreamConfig)
    (pool : UpstreamPool) (name : String) (key : Option String) (ts : List Target) (t : Target)
    (rest : List Target)
    → Reach hash_key client (init configs new_pool) pool
    → lookup name pool ≡ some (least_conn ts)
    → alive_of ts ≡ t ∷ rest
    → next hash_key key (least_conn ts) ≡ returned (some t.url, least_conn ts)
unfolding next least_conn_next
least_conn-first_alive hash_key client configs pool name key ts t rest r at alive =
    let idle = Reach-IsIdle hash_key client (init-IsIdle configs) r name (least_conn ts) at in
    let idle' : Idle (t ∷ rest) = subst Idle alive (Idle-filter is_alive ts idle) in
    rw (alive, min_of_Idle t rest idle'.0 idle'.1)
