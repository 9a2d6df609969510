-- ===== src/Tests/Balancing.antt =====
-- Examples of the balancers and of the pool.
use dgsw_class_pg_proxy.Prelude.{
  ◌+◌, ◌≡◌, refl, inl, inr, String, true, false, Option, none, some, List, [], ◌∷◌, concat, length,
  In, arith, ◌-◌, ◌^◌, if◌then◌else◌, str_eq,
}
use dgsw_class_pg_proxy.Prelude.Maps.{lookup, insert}
use dgsw_class_pg_proxy.Prelude.Run.{returned}
use dgsw_class_pg_proxy.Config.{UpstreamConfig}
use dgsw_class_pg_proxy.Upstream.Balancer.{
  Target, round_robin, least_conn, next, new_target, make_balancer, round_robin_next, fetch_add,
  least_conn_next, min_by_active,
}
use dgsw_class_pg_proxy.Upstream.Balancer.Selection.{alive_of, Picks, next-Picks}
use dgsw_class_pg_proxy.Upstream.Balancer.Fairness.{calls, calls-IsFair}
use dgsw_class_pg_proxy.Upstream.Pool.{
  Probe, UpstreamPool, HealthClient, new_pool, init, resolve, next_url, probe_round,
  reqwest_health_check,
}
use dgsw_class_pg_proxy.Upstream.Pool.Lookup.{last_named}
use dgsw_class_pg_proxy.Upstream.Pool.Served.{serving, Answers, next_url-configured}
use dgsw_class_pg_proxy.Upstream.Pool.Health.{target_at, checked, finish_all}
use dgsw_class_pg_proxy.Upstream.Pool.Overlap.{
  PoolEvent, ended, asked, happen, stored, last_verdict, target_at-happen,
}
use dgsw_class_pg_proxy.Upstream.Pool.Rounds.{Agree, finish_all-round}
use dgsw_class_pg_proxy.Upstream.Pool.Idle.{here, after, request, least_conn-first_alive}
use dgsw_class_pg_proxy.Tests.{hash, two, backends}

next_wraps :
    next hash none (round_robin backends (2 ^ 64 - 1))
    ≡ returned (some "http://two", round_robin backends 0)
unfolding next round_robin_next fetch_add
next_wraps = refl

next-Picks_example : Picks (round_robin backends 5) (next hash none (round_robin backends 5))
next-Picks_example = next-Picks hash none (round_robin backends 5)

calls-IsFair_example :
    (urls : List (Option String)) × (calls hash
        (length (alive_of backends))
        none
        (round_robin backends 3)
      ≡ returned (urls, round_robin backends (3 + length (alive_of backends))))
    × (length urls ≡ length (alive_of backends))
    × In (some "http://two") urls
calls-IsFair_example = calls-IsFair hash none backends 3 two (inr (inl refl)) (omega arith)

abbrev config : UpstreamConfig
config = record {
  name = "default";
  targets = "http://one" ∷ "http://two" ∷ [];
  lb = "least_conn";
  health_check_path = "/health";
  health_check_interval = 5;
}

abbrev configs : List UpstreamConfig
configs = config ∷ []

-- Only the first of the two backends answers its check.
abbrev client : HealthClient
client = record {
  parses = λ url. true;
  head = λ url. if str_eq url "http://one/health" then some 204 else none;
}

configs-Agree : Agree configs
configs-Agree c d (inl e) (inl f) same = cc
configs-Agree c d (inl e) (inr m) same = absurd m
configs-Agree c d (inr m) n same = absurd m

abbrev started : UpstreamPool
started = init configs new_pool

second_at : target_at started "default" 1 ≡ some (new_target "http://two")
unfolding init lookup insert new_target make_balancer str_eq
second_at = refl

finish_all-round_example :
    target_at (finish_all client (probe_round configs started) started) "default" 1
    ≡ some (
        checked
          (reqwest_health_check client (concat "http://two" "/health"))
          (new_target "http://two"))
unfolding new_target
finish_all-round_example =
    finish_all-round client configs started (probe_round configs started) config 1
      (new_target "http://two") configs-Agree (λ p m. m) (λ p m. m) (inl refl) second_at

abbrev second_probe : Probe
second_probe = record { name = "default"; position = 1; url = "http://two/health" }

abbrev network : HealthClient
network = record { parses = λ url. true; head = λ url. some 200 }

-- The second backend fails a check, and passes one of the next round that ends after a request.
abbrev turns : List PoolEvent
turns = ended client second_probe ∷ asked "default" none ∷ ended network second_probe ∷ []

target_at-happen_example :
    target_at (happen hash turns started) "default" 1
    ≡ stored (last_verdict "default" 1 turns none) (target_at started "default" 1)
target_at-happen_example = target_at-happen hash turns started "default" 1

second_down : reqwest_health_check client (concat "http://two" "/health") ≡ false
unfolding reqwest_health_check concat str_eq
second_down = refl

abbrev fresh_targets : List Target
fresh_targets = new_target "http://one" ∷ new_target "http://two" ∷ []

default_at : lookup "default" started ≡ some (least_conn fresh_targets)
unfolding init lookup insert new_target make_balancer str_eq
default_at = refl

all_alive : alive_of fresh_targets ≡ fresh_targets
unfolding new_target
all_alive = refl

other_asked : next_url hash "other" none started ≡ returned (some "http://one", started)
unfolding next_url resolve init lookup insert new_target make_balancer str_eq next least_conn_next
    min_by_active
other_asked = refl

least_conn-first_alive_example :
    next hash none (least_conn fresh_targets)
    ≡ returned (some (new_target "http://one").url, least_conn fresh_targets)
least_conn-first_alive_example =
    least_conn-first_alive hash client configs started "default" none fresh_targets
      (new_target "http://one") (new_target "http://two" ∷ [])
      (after here (request "other" none (some "http://one") other_asked)) default_at all_alive

-- A name without a configuration, after a request.
next_url-configured_example :
    Answers configs hash network "blue" none started (serving configs "blue")
next_url-configured_example =
    next_url-configured configs hash network started "blue" none
      (after here (request "other" none (some "http://one") other_asked))

blue_served : serving configs "blue" ≡ some ("default", config)
unfolding serving last_named str_eq
blue_served = refl
