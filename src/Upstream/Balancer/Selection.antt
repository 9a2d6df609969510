-- ===== src/Upstream/Balancer/Selection.antt =====
-- balancer.rs: what `next` answers, for each of the three balancers.
use native.Mathlib.Nat.{le_trans}
use dgsw_class_pg_proxy.Prelude.{
  Bool, ℕ, ◌%◌, ◌≤◌, ◌≡◌, refl, String, true, false, ◌⊎◌, inl, inr, Option, none, some, List, [],
  ◌∷◌, filter, length, In, All, get_elem?-some_of_lt, filter_sound, filter-nil, In-get_elem?, arith,
  Bool-cases, ltb, ◌==◌, if◌then◌else◌,
}
use dgsw_class_pg_proxy.Prelude.Run.{Run, returned}
use dgsw_class_pg_proxy.Upstream.Balancer.{
  Target, is_alive, Balancer, round_robin, least_conn, consistent_hash, targets, usize_mod,
  unwrap_or_default, round_robin_next, fetch_add, min_by_active, least_conn_next,
  consistent_hash_next, next,
}

abbrev pub alive_of : List Target → List Target
alive_of = filter is_alive

-- The balancer answers `none` and stays as it is because no target is alive, or answers the URL of
-- a target that is alive and keeps its targets.
abbrev pub Picks : Balancer → Run (Option String × Balancer) → Type 0
Picks b r =
    (All (λ t. t.alive ≡ false) (targets b) × (r ≡ returned (none, b)))
    ⊎ ((t : Target) × (b' : Balancer) × In t (targets b)
        × (t.alive ≡ true)
        × (targets b' ≡ targets b)
        × (r ≡ returned (some t.url, b')))

length-zero : (xs : List Target) → length xs ≡ 0 → xs ≡ []
length-zero [] h = refl
length-zero (x ∷ xs) h = absurd (omega arith)

either :
    (c : Bool) (t best m : Target) (ts : List Target)
    → In m ((if c then t else best) ∷ ts)
    → In m (best ∷ t ∷ ts)
either true t best m ts h = inr h
either false t best m ts (inl e) = inl e
either false t best m ts (inr h) = inr (inr h)

smaller_le :
    (t best : Target)
    → let s = if ltb t.active best.active then t else best in
      (s.active ≤ best.active) × (s.active ≤ t.active)
smaller_le t best = ground arith

-- The least number of connections, and one of the targets.
pub min_by_active-least :
    (best : Target) (ts : List Target)
    → In (min_by_active best ts) (best ∷ ts)
      × All (λ t. (min_by_active best ts).active ≤ t.active) (best ∷ ts)
unfolding min_by_active
min_by_active-least best [] = (inl refl, omega arith)
min_by_active-least best (t ∷ ts) =
    let r = min_by_active-least (if ltb t.active best.active then t else best) ts in
    let s = smaller_le t best in
    (
      either (ltb t.active best.active) t best _ ts r.0,
      (le_trans r.1.0 s.0, (le_trans r.1.0 s.1, r.1.1)),
    )

round_robin_next-Picks :
    (ts : List Target) (counter : ℕ) → Picks (round_robin ts counter) (round_robin_next ts counter)
unfolding round_robin_next
round_robin_next-Picks ts counter = elim (Bool-cases (length (alive_of ts) == 0)) [
  | inl empty ↦ inl (filter-nil is_alive ts (length-zero (alive_of ts) (ground arith)), rw empty)
  | inr more ↦
      let (t, at) =
        get_elem?-some_of_lt (alive_of ts) (counter % length (alive_of ts)) (ground arith) in
      let (member, up) = filter_sound is_alive t ts (In-get_elem? _ _ t at) in
      inr (t, round_robin ts (fetch_add counter), member, up, refl, rw (more, at))
]

least_conn_next-Picks : (ts : List Target) → Picks (least_conn ts) (least_conn_next ts)
unfolding least_conn_next
least_conn_next-Picks ts = from (alive_of ts) refl
  where
    from : (xs : List Target) → alive_of ts ≡ xs → Picks (least_conn ts) (least_conn_next ts)
    from [] e = inl (filter-nil is_alive ts e, rw e)
    from (x ∷ xs) e =
        let (member, up) =
          filter_sound is_alive (min_by_active x xs) ts (rw e (min_by_active-least x xs).0) in
        inr (min_by_active x xs, least_conn ts, member, up, refl, rw e)

module _ (hash_key : String → ℕ) where
  consistent_hash_next-Picks :
      (ts : List Target) (key : Option String)
      → Picks (consistent_hash ts) (consistent_hash_next hash_key ts key)
  unfolding consistent_hash_next
  consistent_hash_next-Picks ts key = elim (Bool-cases (length (alive_of ts) == 0)) [
    | inl empty ↦ inl (filter-nil is_alive ts (length-zero (alive_of ts) (ground arith)), rw empty)
    | inr more ↦
        let i = hash_key (unwrap_or_default key) % usize_mod in
        let (t, at) =
          get_elem?-some_of_lt (alive_of ts) (i % length (alive_of ts)) (ground arith) in
        let (member, up) = filter_sound is_alive t ts (In-get_elem? _ _ t at) in
        inr (t, consistent_hash ts, member, up, refl, rw (more, at))
  ]

  -- Each of the three balancers, at every key and in every state, returns without a panic: either
  -- no target is alive, the answer is `none` and the balancer is unchanged, or the answer is the
  -- URL of one of its targets that is alive, and the targets are kept.
  pub next-Picks : (key : Option String) (b : Balancer) → Picks b (next hash_key key b)
  unfolding next
  next-Picks key (round_robin ts counter) = round_robin_next-Picks ts counter
  next-Picks key (least_conn ts) = least_conn_next-Picks ts
  next-Picks key (consistent_hash ts) = consistent_hash_next-Picks ts key
