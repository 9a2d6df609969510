-- ===== src/Upstream/Balancer/Fairness.antt =====
-- balancer.rs: what a row of calls of `next` answers: turns of the round robin, a fixed target for
-- the hash, the idlest target for the least connections.
use mathlib.Core.Option
use native.Mathlib.Nat.{mod-lt, mod-add-mod, mod-eq_of_lt, add-mod_left}
use dgsw_class_pg_proxy.Prelude.{
  ℕ, zero, suc, ◌+◌, ◌-◌, ◌%◌, ◌<◌, ◌≤◌, ◌≡◌, refl, String, false, inl, inr, Option, none, some,
  List, [], ◌∷◌, length, In, All, replicate, In-get_elem?, get_elem?, get_elem?-some_of_lt, arith,
  Bool-cases, ◌==◌, ap, ltb, sym, ◌∙◌, subst,
}
use dgsw_class_pg_proxy.Prelude.Run.{Run, returned, ◌>>=◌}
use dgsw_class_pg_proxy.Upstream.Balancer.{
  Target, Balancer, round_robin, least_conn, consistent_hash, unwrap_or_default, usize_mod,
  round_robin_next, min_by_active, least_conn_next, consistent_hash_next, next,
}
use dgsw_class_pg_proxy.Upstream.Balancer.Selection.{alive_of, min_by_active-least}

module _ (hash_key : String → ℕ) where
  -- `n` calls in a row, with nothing between them.
  pub calls : ℕ → Option String → Balancer → Run (List (Option String) × Balancer)
  calls zero key b = returned ([], b)
  calls (suc n) key b = do
    (url, b') ← next hash_key key b
    (urls, b'') ← calls n key b'
    returned (url ∷ urls, b'')

-- The answers that the counter `c` and those after it stand for.
turn : List Target → ℕ → Option String
turn alive c = Option.map (λ (t : Target). t.url) (get_elem? alive (c % length alive))

turns : List Target → ℕ → ℕ → List (Option String)
turns alive c zero = []
turns alive c (suc k) = turn alive c ∷ turns alive (c + 1) k

length-turns : (alive : List Target) (c k : ℕ) → length (turns alive c k) ≡ k
unfolding turns
length-turns alive c zero = refl
length-turns alive c (suc k) = ap suc (length-turns alive (c + 1) k)

round_robin_next_lem :
    (ts : List Target) (c : ℕ)
    → 0 < length (alive_of ts)
    → c + 1 < usize_mod
    → round_robin_next ts c ≡ returned (turn (alive_of ts) c, round_robin ts (c + 1))
unfolding round_robin_next turn
round_robin_next_lem ts c some_alive small =
    let (t, at) =
      get_elem?-some_of_lt (alive_of ts) (c % length (alive_of ts)) (mod-lt c some_alive) in
    let busy : (length (alive_of ts) == 0) ≡ false = ground arith in
    let fits : (c + 1) % usize_mod ≡ c + 1 = omega arith in rw (busy, at, fits)

calls-turns :
    (hash_key : String → ℕ) (key : Option String) (ts : List Target) (k c : ℕ)
    → 0 < length (alive_of ts)
    → c + k < usize_mod
    → calls hash_key k key (round_robin ts c)
      ≡ returned (turns (alive_of ts) c k, round_robin ts (c + k))
unfolding calls turns next
calls-turns hash_key key ts zero c a h = let e : c ≡ c + 0 = omega arith in rw (← e)
calls-turns hash_key key ts (suc k) c a h =
    let e : c + 1 + k ≡ c + suc k = omega arith in
    rw (round_robin_next_lem ts c a (omega arith))
      (rw (calls-turns hash_key key ts k (c + 1) a (omega arith)) (rw e))

In-turns : (alive : List Target) (k c i : ℕ) → i < k → In (turn alive (c + i)) (turns alive c k)
unfolding turns
In-turns alive zero c i h = absurd (omega arith)
In-turns alive (suc k) c zero h = let e : c + 0 ≡ c = omega arith in inl (rw e)
In-turns alive (suc k) c (suc i) h =
    let e : c + 1 + i ≡ c + suc i = omega arith in
    inr (
      subst (λ m. In (turn alive m) (turns alive (c + 1) k)) e
        (In-turns alive k (c + 1) i (omega arith)))

-- Any `n` numbers in a row have all the remainders by `n`.
hits : (n c j : ℕ) → j < n → (i : ℕ) × (i < n) × ((c + i) % n ≡ j)
hits n c j h = elim (Bool-cases (ltb j (c % n))) [
  | inl less ↦
      let r : c % n < n = mod-lt c (omega arith) in
      let e : c % n + (n - c % n + j) ≡ n + j = omega arith in
      (
        n - c % n + j,
        ground arith,
        sym (mod-add-mod c n (n - c % n + j))
            ∙ ap (λ m. m % n) e
            ∙ add-mod_left n j
            ∙ mod-eq_of_lt h,
      )
  | inr more ↦
      let e : c % n + (j - c % n) ≡ j = ground arith in
      (
        j - c % n,
        omega arith,
        sym (mod-add-mod c n (j - c % n)) ∙ ap (λ m. m % n) e ∙ mod-eq_of_lt h,
      )
]

In-pos : (t : Target) (xs : List Target) → In t xs → 0 < length xs
In-pos t [] m = absurd m
In-pos t (x ∷ xs) m = omega arith

-- A balancer that one call leaves alone gives that call's answer again and again.
calls-same :
    (hash_key : String → ℕ) (key : Option String) (b : Balancer) (url : Option String) (n : ℕ)
    → next hash_key key b ≡ returned (url, b)
    → calls hash_key n key b ≡ returned (replicate n url, b)
unfolding calls
calls-same hash_key key b url zero e = refl
calls-same hash_key key b url (suc n) e = rw e (rw (calls-same hash_key key b url n e))

In-position :
    (t : Target) (xs : List Target)
    → In t xs
    → (j : ℕ) × (j < length xs) × (get_elem? xs j ≡ some t)
In-position t [] m = absurd m
In-position t (x ∷ xs) (inl e) = (0, omega arith, rw e)
In-position t (x ∷ xs) (inr m) = let (j, h, e) = In-position t xs m in (suc j, omega arith, e)

-- Round robin, with a counter that does not wrap meanwhile: as many calls in a row as there are
-- live targets return without a panic, as many answers, and each live target is among them.
pub calls-IsFair :
    (hash_key : String → ℕ) (key : Option String) (ts : List Target) (c : ℕ) (t : Target)
    → In t (alive_of ts)
    → c + length (alive_of ts) < usize_mod
    → (urls : List (Option String)) × (calls hash_key (length (alive_of ts)) key (round_robin ts c)
        ≡ returned (urls, round_robin ts (c + length (alive_of ts))))
      × (length urls ≡ length (alive_of ts))
      × In (some t.url) urls
unfolding turn
calls-IsFair hash_key key ts c t m h =
    let n = length (alive_of ts) in
    let (j, below, at) = In-position t (alive_of ts) m in
    let (i, early, hit) = hits n c j below in
    let answer : turn (alive_of ts) (c + i) ≡ some t.url = rw (hit, at) in
    (
      turns (alive_of ts) c n,
      calls-turns hash_key key ts n c (omega arith) h,
      length-turns (alive_of ts) c n,
      subst (λ (u : Option String). In u (turns (alive_of ts) c n)) answer
          (In-turns (alive_of ts) n c i early),
    )

-- Least connections: while some target is alive, the answer is the URL of a live target, the
-- balancer stays as it is, and no live target has fewer connections than the one answered.
least_conn-IsLeast :
    (hash_key : String → ℕ) (key : Option String) (ts : List Target) (u : Target)
    → In u (alive_of ts)
    → (t : Target) × In t (alive_of ts)
      × (next hash_key key (least_conn ts) ≡ returned (some t.url, least_conn ts))
      × All (λ v. t.active ≤ v.active) (alive_of ts)
unfolding next least_conn_next
least_conn-IsLeast hash_key key ts u m = from (alive_of ts) refl
  where
    from :
        (xs : List Target)
        → alive_of ts ≡ xs
        → (t : Target) × In t (alive_of ts)
          × (least_conn_next ts ≡ returned (some t.url, least_conn ts))
          × All (λ v. t.active ≤ v.active) (alive_of ts)
    from [] e = absurd (subst (In u) e m)
    from (x ∷ xs) e =
        let l = min_by_active-least x xs in (min_by_active x xs, rw e l.0, rw e, rw e l.1)

-- Consistent hash: while the live targets stay the same, one key is always answered by one and the
-- same live target, whatever calls were made before, and no key is the key "default".
pub consistent_hash-IsSticky :
    (hash_key : String → ℕ) (key : Option String) (ts : List Target) (u : Target)
    → In u (alive_of ts)
    → (t : Target) × In t (alive_of ts)
      × ((n : ℕ)
          → calls hash_key n key (consistent_hash ts)
            ≡ returned (replicate n (some t.url), consistent_hash ts))
      × (next hash_key none (consistent_hash ts)
          ≡ next hash_key (some "default") (consistent_hash ts))
unfolding next consistent_hash_next
consistent_hash-IsSticky hash_key key ts u m =
    let i = hash_key (unwrap_or_default key) % usize_mod % length (alive_of ts) in
    let (t, at) = get_elem?-some_of_lt (alive_of ts) i (mod-lt _ (In-pos u (alive_of ts) m)) in
    let busy : (length (alive_of ts) == 0) ≡ false = ground (arith, In-pos u (alive_of ts) m) in
    (
      t,
      In-get_elem? _ i t at,
      (λ n. calls-same hash_key key (consistent_hash ts) (some t.url) n (rw (busy, at))),
      refl,
    )
