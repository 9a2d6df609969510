-- ===== src/Upstream/Balancer.antt =====
-- src/upstream/balancer.rs. A target's atomics are fields of its record, and a balancer that `next`
-- changes is returned. `usize` has 64 bits. The hash of the standard library's `DefaultHasher`,
-- whose algorithm is left open by its documentation, is a parameter.
pub mod Selection
pub mod Fairness
use dgsw_class_pg_proxy.Prelude.{
  ℕ, ◌+◌, ◌%◌, ◌^◌, String, Bool, true, Option, none, some, List, [], ◌∷◌, filter, length, ltb,
  ◌==◌, if◌then◌else◌, str_eq,
}
use dgsw_class_pg_proxy.Prelude.Run.{Run, returned, index, ◌>>=◌}

pub record Target : Type 0 where
  pub url : String
  pub alive : Bool
  pub active : ℕ

unfoldable pub new_target : String → Target
new_target url = record { url = url; alive = true; active = 0 }

abbrev pub is_alive : Target → Bool
is_alive t = t.alive

-- One constructor for each implementation of the trait `Balancer`.
pub data Balancer : Type 0 where
  round_robin : List Target → ℕ → Balancer
  least_conn : List Target → Balancer
  consistent_hash : List Target → Balancer

abbrev pub targets : Balancer → List Target
targets (round_robin ts counter) = ts
targets (least_conn ts) = ts
targets (consistent_hash ts) = ts

abbrev pub usize_mod : ℕ
usize_mod = 2 ^ 64

-- `fetch_add(1)` returns the old value and wraps.
unfoldable pub fetch_add : ℕ → ℕ
fetch_add c = (c + 1) % usize_mod

unfoldable pub round_robin_next : List Target → ℕ → Run (Option String × Balancer)
unfolding fetch_add
round_robin_next ts counter =
    let alive = filter is_alive ts in
    if length alive == 0 then returned (none, round_robin ts counter) else do
      t ← index alive (counter % length alive)
      returned (some t.url, round_robin ts (fetch_add counter))

-- `Iterator::min_by_key` on the number of connections: of equal targets the first stays.
unfoldable pub min_by_active : Target → List Target → Target
min_by_active best [] = best
min_by_active best (t ∷ ts) = min_by_active (if ltb t.active best.active then t else best) ts

abbrev url_of_min : List Target → Option String
url_of_min [] = none
url_of_min (t ∷ ts) = some (min_by_active t ts).url

unfoldable pub least_conn_next : List Target → Run (Option String × Balancer)
unfolding min_by_active
least_conn_next ts = returned (url_of_min (filter is_alive ts), least_conn ts)

abbrev pub unwrap_or_default : Option String → String
unwrap_or_default none = "default"
unwrap_or_default (some key) = key

module _ (hash_key : String → ℕ) where
  unfoldable pub consistent_hash_next : List Target → Option String → Run (Option String × Balancer)
  consistent_hash_next ts key =
      let alive = filter is_alive ts in
      if length alive == 0 then returned (none, consistent_hash ts) else do
        t ← index alive (hash_key (unwrap_or_default key) % usize_mod % length alive)
        returned (some t.url, consistent_hash ts)

  unfoldable pub next : Option String → Balancer → Run (Option String × Balancer)
  next key (round_robin ts counter) = round_robin_next ts counter
  next key (least_conn ts) = least_conn_next ts
  next key (consistent_hash ts) = consistent_hash_next ts key

unfoldable pub make_balancer : String → List Target → Balancer
unfolding str_eq
make_balancer lb ts =
    if str_eq lb "least_conn"
    then least_conn ts
    else if str_eq lb "consistent_hash"
    then consistent_hash ts
    else round_robin ts 0
