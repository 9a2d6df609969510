-- ===== src/Plugins/Authz/Access.antt =====
-- authz.lua: whom it lets pass.
use dgsw_class_pg_proxy.Prelude.{
  ◌≡◌, ◌≢◌, refl, sym, ap, ◌∙◌, ◌↔◌, ◌⊎◌, inl, inr, subst, String, Bool, true, false, ◌||◌, Option,
  none, some, [], ◌∷◌, ◌==◌, arith, str_eq, str_eq_iff, if◌then◌else◌, Bool-cases,
}
use dgsw_class_pg_proxy.Prelude.Maps.{lookup}
use dgsw_class_pg_proxy.Prelude.Text.{Bytes, codes, as_bytes}
use dgsw_class_pg_proxy.Lua.Context.{RequestCtx, Script, finish, run_script, apply, of_option}
use dgsw_class_pg_proxy.Lua.Engine.{Outcome, nothing}
use dgsw_class_pg_proxy.Plugins.Patterns.{begins, whole, starts_with}
use dgsw_class_pg_proxy.Plugins.Authz.{
  Rule, rules, has_role, find_rule, by_rule, forbid, is_public, text_of, on_request,
}

-- What stands under a name in the variables.
abbrev pub var : String → RequestCtx → Option String
var name c = lookup name c.vars

text_of-option : (o : Option String) → text_of (of_option o) ≡ o
text_of-option none = refl
text_of-option (some s) = refl

-- Whether a role, or none, passes by a rule, or none.
abbrev pub allowed : Option String → Option Rule → Bool
allowed none none = false
allowed (some user_role) none = true
allowed user_role (some rule) = has_role user_role rule.roles

pub public_iff : (m : Option String) → (is_public m ≡ true) ↔ (m ≡ some "public")
public_iff none = (λ e. ground arith, λ e. ground arith)
public_iff (some auth_meth) = ground (arith, str_eq_iff auth_meth "public")

admin_iff :
    (role : Option String) → has_role role (some ("admin" ∷ [])) ≡ true → role ≡ some "admin"
unfolding has_role
admin_iff none h = ground arith
admin_iff (some user_role) h = ground (arith, str_eq_iff "admin" user_role)

-- No path begins as those that are public and as one that is not.
apart :
    (s : Bytes)
    → starts_with (codes "/public/") s ≡ true
    → (starts_with (codes "/admin/") s ≡ false)
      × (starts_with (codes "/reload") s ≡ false)
      × (starts_with (codes "/metrics") s ≡ false)
      × (starts_with (codes "/api/v1/") s ≡ false)
      × (starts_with (codes "/api/v2/") s ≡ false)
unfolding starts_with
apart [] h = absurd (ground arith)
apart (a ∷ []) h = absurd (ground arith)
apart (a ∷ b ∷ s) h =
    let first : b == 112 ≡ true = ground arith in
    let same : b ≡ 112 = ground arith in
    (
      rw same (ground arith),
      rw same (ground arith),
      rw same (ground arith),
      rw same (ground arith),
      rw same (ground arith),
    )

-- Without a role a path passes by the two rules that name none, and by no other.
no_role :
    (a b c d e f g : Bool)
    → allowed none (
        if a
        then some (record { pattern = begins "/admin/"; roles = some ("admin" ∷ []) })
        else if b
        then some (record { pattern = begins "/reload"; roles = some ("admin" ∷ []) })
        else if c
        then some (record { pattern = begins "/metrics"; roles = some ("admin" ∷ "ops" ∷ []) })
        else if d
        then some (record {
          pattern = begins "/api/v1/";
          roles = some ("admin" ∷ "user" ∷ "reader" ∷ []);
        })
        else if e
        then some (record { pattern = begins "/api/v2/"; roles = some ("admin" ∷ "user" ∷ []) })
        else if f
        then some (record { pattern = whole "/health"; roles = none })
        else if g
        then some (record { pattern = begins "/public/"; roles = none })
        else none)
      ≡ (if a || b || c || d || e then false else f || g)
unfolding has_role
no_role true b c d e f g = refl
no_role false true c d e f g = refl
no_role false false true d e f g = refl
no_role false false false true e f g = refl
no_role false false false false true f g = refl
no_role false false false false false true g = refl
no_role false false false false false false true = refl
no_role false false false false false false false = refl

health_passes : allowed none (find_rule rules "/health") ≡ true
unfolding find_rule starts_with as_bytes str_eq has_role
health_passes = refl

pub allowed_iff :
    (path : String)
    → (allowed none (find_rule rules path) ≡ true)
      ↔ ((path ≡ "/health") ⊎ (starts_with (codes "/public/") (as_bytes path) ≡ true))
unfolding find_rule
allowed_iff path =
    let bytes = as_bytes path in
    let sorted =
      no_role (starts_with (codes "/admin/") bytes) (starts_with (codes "/reload") bytes)
        (starts_with (codes "/metrics") bytes) (starts_with (codes "/api/v1/") bytes)
        (starts_with (codes "/api/v2/") bytes) (str_eq path "/health")
        (starts_with (codes "/public/") bytes) in
    (
      λ e. let by = sym sorted ∙ e in ground (arith, str_eq_iff path "/health"),
      λ e. elim e [
        | inl health ↦
            subst (λ p. allowed none (find_rule rules p) ≡ true) (sym health) health_passes
        | inr open_path ↦
            let (admin, reload, metrics, first, second) = apart bytes open_path in
            sorted ∙ ground arith
      ],
    )

module _ (lower : String → String) where
  abbrev after : Script Outcome → RequestCtx → RequestCtx
  after script c = (run_script lower script c).1

  pub on_request_run :
      (c : RequestCtx)
      → run_script lower on_request c
        ≡ run_script lower
            (if is_public (var "auth_method" c)
              then finish nothing
              else by_rule (var "role" c) (find_rule rules c.req_path))
            c
  unfolding on_request run_script apply lookup
  on_request_run c = rw (text_of-option (var "auth_method" c), text_of-option (var "role" c)) refl

  pub forbid_lem :
      (msg : String) (c : RequestCtx) → (after (forbid msg) c).rejected ≡ some (403, msg)
  unfolding run_script apply
  forbid_lem msg c = refl

  pub by_rule_iff :
      (role : Option String) (o : Option Rule) (c : RequestCtx)
      → c.rejected ≡ none
      → ((after (by_rule role o) c).rejected ≡ none) ↔ (allowed role o ≡ true)
  unfolding run_script
  by_rule_iff none none c h =
      (λ e. let f = forbid_lem "Forbidden: authentication required" c in cc, λ e. ground arith)
  by_rule_iff (some user_role) none c h = (λ e. refl, λ e. h)
  by_rule_iff role (some rule) c h = elim (Bool-cases (has_role role rule.roles)) [
    | inl passes ↦ rw passes (λ e. refl, λ e. h)
    | inr other ↦
        rw other
          (λ e. let f = forbid_lem "Forbidden: insufficient privileges" c in cc, λ e. ground arith)
  ]

  pub passes_iff :
      (c : RequestCtx)
      → c.rejected ≡ none
      → ((after on_request c).rejected ≡ none) ↔ (
          (var "auth_method" c ≡ some "public")
          ⊎ (allowed (var "role" c) (find_rule rules c.req_path) ≡ true))
  unfolding run_script
  passes_iff c h = elim (Bool-cases (is_public (var "auth_method" c))) [
    | inl open_path ↦
        let same : after on_request c ≡ c = ap (λ r. r.1) (on_request_run c) ∙ rw open_path refl in
        (
          λ e. inl ((public_iff (var "auth_method" c)).0 open_path),
          λ e. ap (λ (d : RequestCtx). d.rejected) same ∙ h,
        )
    | inr other ↦
        let script = by_rule (var "role" c) (find_rule rules c.req_path) in
        let same : after on_request c ≡ after script c =
          ap (λ r. r.1) (on_request_run c) ∙ rw other refl in
        let (there, back) = by_rule_iff (var "role" c) (find_rule rules c.req_path) c h in
        (
          λ e. inr (there (sym (ap (λ (d : RequestCtx). d.rejected) same) ∙ e)),
          λ e. elim e [
            | inl m ↦ absurd (let m' = (public_iff (var "auth_method" c)).1 m in cc)
            | inr ok' ↦ ap (λ (d : RequestCtx). d.rejected) same ∙ back ok'
          ],
        )
  ]

  -- A request that no plugin has rejected before, and whose path begins with "/admin/", passes
  -- authz.lua only if it is marked public or has the role "admin".
  pub on_request-guards :
      (c : RequestCtx)
      → c.rejected ≡ none
      → starts_with (codes "/admin/") (as_bytes c.req_path) ≡ true
      → (run_script lower on_request c).1.rejected ≡ none
      → (lookup "auth_method" c.vars ≡ some "public") ⊎ (lookup "role" c.vars ≡ some "admin")
  unfolding find_rule
  on_request-guards c h admin passes = elim ((passes_iff c h).0 passes) [
    | inl m ↦ inl m
    | inr ok' ↦ inr (admin_iff (var "role" c) (rw admin at ok'))
  ]

  -- A request that no plugin has rejected before, that has no role and is not marked public, passes
  -- authz.lua exactly if its path is "/health" or begins with "/public/": every other one is
  -- rejected, whether a rule names its path or none does.
  pub on_request-no_role :
      (c : RequestCtx)
      → c.rejected ≡ none
      → lookup "role" c.vars ≡ none
      → lookup "auth_method" c.vars ≢ some "public"
      → ((run_script lower on_request c).1.rejected ≡ none)
        ↔ ((c.req_path ≡ "/health") ⊎ (starts_with (codes "/public/") (as_bytes c.req_path) ≡ true))
  on_request-no_role c h role other =
      let (there, back) = passes_iff c h in
      let (into, from) = allowed_iff c.req_path in
      (
        λ e. elim (there e) [ inl m ↦ absurd (other m) | inr passes ↦ into (rw role at passes) ],
        λ e. back (inr (rw role (from e))),
      )
