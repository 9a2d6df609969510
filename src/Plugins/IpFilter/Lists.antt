-- ===== src/Plugins/IpFilter/Lists.antt =====
-- ip_filter.lua: which addresses its lists name, and whom it lets pass.
use dgsw_class_pg_proxy.Prelude.{
  ℕ, zero, suc, ◌-◌, ◌≡◌, ◌↔◌, ◌⊎◌, refl, sym, ap, ◌∙◌, subst, inl, inr, String, Bool, true, false,
  not, ◌&&◌, none, List, [], ◌∷◌, ◌++◌, In, take, drop, length, length-append, ltb, arith,
  Bool-cases,
}
use dgsw_class_pg_proxy.Prelude.Text.{Bytes, codes, as_bytes}
use dgsw_class_pg_proxy.Lua.Context.{RequestCtx, run_script, apply, req_field}
use dgsw_class_pg_proxy.Plugins.Patterns.{same_bytes}
use dgsw_class_pg_proxy.Plugins.Jwt.Split.{same_bytes_sound, same_bytes_refl}
use dgsw_class_pg_proxy.Plugins.IpFilter.{
  last_byte, without_last, ip_matches_one, ip_matches, check_ip, on_request,
}

-- An address is the pattern, or begins with what stands before the star at the pattern's end.
abbrev pub Names : Bytes → Bytes → Type 0
Names pattern ip =
    (ip ≡ pattern)
    ⊎ ((prefix : Bytes) × (rest : Bytes) × (pattern ≡ prefix ++ 42 ∷ []) × (ip ≡ prefix ++ rest))

abbrev pub Listed : String → List String → Type 0
Listed ip list = (pattern : String) × In pattern list × Names (as_bytes pattern) (as_bytes ip)

take-drop : (n : ℕ) (s : Bytes) → take n s ++ drop n s ≡ s
take-drop zero s = refl
take-drop (suc n) [] = refl
take-drop (suc n) (c ∷ s) = ap (λ t. c ∷ t) (take-drop n s)

take_front : (a b : Bytes) → take (length a) (a ++ b) ≡ a
take_front [] b = refl
take_front (c ∷ a) b = ap (λ t. c ∷ t) (take_front a b)

drop_front : (a b : Bytes) → drop (length a) (a ++ b) ≡ b
drop_front [] b = refl
drop_front (c ∷ a) b = drop_front a b

starred : (prefix : Bytes) → length (prefix ++ 42 ∷ []) - 1 ≡ length prefix
starred prefix = omega (arith, length-append {0} prefix (42 ∷ []))

by_prefix : (pattern ip : Bytes) → Bool
by_prefix pattern ip =
    same_bytes (last_byte pattern) (codes "*")
    && same_bytes (take (length (without_last pattern)) ip) (without_last pattern)

by_prefix_sound : (pattern ip : Bytes) → by_prefix pattern ip ≡ true → Names pattern ip
unfolding by_prefix
by_prefix_sound pattern ip h =
    let n = length pattern - 1 in
    let star = same_bytes_sound (last_byte pattern) (codes "*") (ground arith) in
    let front =
      same_bytes_sound (take (length (without_last pattern)) ip) (without_last pattern)
        (ground arith) in
    inr (
      without_last pattern,
      drop (length (without_last pattern)) ip,
      sym (take-drop n pattern) ∙ ap (λ t. without_last pattern ++ t) star,
      sym (take-drop (length (without_last pattern)) ip)
          ∙ ap (λ t. t ++ drop (length (without_last pattern)) ip) front,
    )

by_prefix_complete : (prefix rest : Bytes) → by_prefix (prefix ++ 42 ∷ []) (prefix ++ rest) ≡ true
unfolding by_prefix same_bytes
by_prefix_complete prefix rest =
    rw
      (
        starred prefix,
        take_front prefix (42 ∷ []),
        drop_front prefix (42 ∷ []),
        take_front prefix rest,
      )
      (same_bytes_refl prefix)

one_iff : (pattern ip : Bytes) → (ip_matches_one ip pattern ≡ true) ↔ Names pattern ip
unfolding by_prefix
one_iff pattern ip = (
  λ e. elim (Bool-cases (same_bytes ip pattern)) [
    | inl k ↦ inl (same_bytes_sound ip pattern k)
    | inr k ↦ by_prefix_sound pattern ip (ground arith)
  ],
  λ e. elim e [
    | inl same ↦
        let k : same_bytes ip pattern ≡ true = rw same (same_bytes_refl pattern) in ground arith
    | inr (prefix, rest, p, q) ↦
        let k : by_prefix pattern ip ≡ true = rw (p, q) (by_prefix_complete prefix rest) in
        ground arith
  ],
)

ip_matches_iff : (ip : String) (list : List String) → (ip_matches ip list ≡ true) ↔ Listed ip list
unfolding ip_matches
ip_matches_iff ip [] = (λ e. absurd (ground arith), λ e. absurd e.1)
ip_matches_iff ip (p ∷ list) =
    let (there, back) = ip_matches_iff ip list in
    let (sound, complete) = one_iff (as_bytes p) (as_bytes ip) in
    (
      λ e. elim (Bool-cases (ip_matches_one (as_bytes ip) (as_bytes p))) [
        | inl k ↦ (p, inl refl, sound k)
        | inr k ↦ let (q, m, n) = there (rw k at e) in (q, inr m, n)
      ],
      λ (q, m, n). elim m [
        | inl same ↦
            let k = complete (subst (λ t. Names (as_bytes t) (as_bytes ip)) same n) in rw k refl
        | inr m' ↦ let k = back (q, m', n) in ground arith
      ],
    )

-- Whom the two lists let pass.
abbrev pub Passes : List String → List String → String → Type 0
Passes blocklist allowlist ip = (¬ Listed ip blocklist) × ((allowlist ≡ []) ⊎ Listed ip allowlist)

nothing_listed : (list : List String) → ltb 0 (length list) ≡ false → list ≡ []
nothing_listed [] h = refl
nothing_listed (p ∷ list) h = absurd (ground arith)

some-Listed : (ip : String) (list : List String) → Listed ip list → ltb 0 (length list) ≡ true
some-Listed ip [] (p, m, n) = absurd m
some-Listed ip (p ∷ list) h = ground arith

module _ (blocklist allowlist : List String) where
  blocked_iff :
      (ip : String)
      → ((ltb 0 (length blocklist) && ip_matches ip blocklist) ≡ true) ↔ Listed ip blocklist
  blocked_iff ip =
      let (there, back) = ip_matches_iff ip blocklist in
      (
        λ e. there (ground arith),
        λ l. let k = some-Listed ip blocklist l in let m = back l in rw (k, m) refl,
      )

  allowed_iff :
      (ip : String)
      → ((ltb 0 (length allowlist) && not (ip_matches ip allowlist)) ≡ false)
        ↔ ((allowlist ≡ []) ⊎ Listed ip allowlist)
  allowed_iff ip =
      let (there, back) = ip_matches_iff ip allowlist in
      (
        λ e. elim (Bool-cases (ltb 0 (length allowlist))) [
          | inl k ↦ inr (there (ground arith))
          | inr k ↦ inl (nothing_listed allowlist k)
        ],
        λ e. elim e [
          | inl none_there ↦
              let k : ltb 0 (length allowlist) ≡ false = rw none_there refl in rw k refl
          | inr l ↦ let m = back l in ground arith
        ],
      )

  check_iff :
      (lower : String → String) (c : RequestCtx)
      → c.rejected ≡ none
      → ((run_script lower (check_ip blocklist allowlist c.client_ip) c).1.rejected ≡ none)
        ↔ Passes blocklist allowlist c.client_ip
  unfolding run_script apply
  check_iff lower c h =
      let ip = c.client_ip in
      elim (Bool-cases (ltb 0 (length blocklist) && ip_matches ip blocklist)) [
        | inl e ↦ rw e (λ k. absurd (ground arith), λ k. absurd (k.0 ((blocked_iff ip).0 e)))
        | inr e ↦
            let free : ¬ Listed ip blocklist = λ l. let k = (blocked_iff ip).1 l in cc in
            elim (Bool-cases (ltb 0 (length allowlist) && not (ip_matches ip allowlist))) [
              | inl k ↦
                  rw (e, k)
                    (λ m. absurd (ground arith), λ m. absurd (let n = (allowed_iff ip).1 m.1 in cc))
              | inr k ↦ rw (e, k) (λ m. (free, (allowed_iff ip).0 k), λ m. h)
            ]
      ]

  -- A request that no plugin has rejected before passes ip_filter.lua exactly if no pattern of the
  -- blocklist names its address, and the allowlist is empty or one of its patterns does. A pattern
  -- names its own text, and if it ends in a star the texts that begin as it does before the star; so
  -- an entry in CIDR notation names nothing but itself, and no address of its range.
  pub on_request-Passes_iff :
      (lower : String → String) (c : RequestCtx)
      → c.rejected ≡ none
      → ((run_script lower (on_request blocklist allowlist) c).1.rejected ≡ none)
        ↔ Passes blocklist allowlist c.client_ip
  unfolding on_request run_script apply req_field
  on_request-Passes_iff lower c h = check_iff lower c h
