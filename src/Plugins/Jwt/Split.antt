-- ===== src/Plugins/Jwt/Split.antt =====
-- lib/jwt.lua: cutting a token at its dots, and comparing texts.
use dgsw_class_pg_proxy.Prelude.{
  ℕ, ◌≡◌, refl, ap, ◌∙◌, subst, inl, inr, true, false, not, ◌&&◌, Option, none, some, [], ◌∷◌, ◌++◌,
  ◌==◌, arith, Bool-cases, Option-cases,
}
use dgsw_class_pg_proxy.Prelude.Text.{Bytes}
use dgsw_class_pg_proxy.Plugins.Patterns.{is_empty, until, free_of, same_bytes}
use dgsw_class_pg_proxy.Plugins.Jwt.{first, second, third, split_dots}

pub same_bytes_refl : (s : Bytes) → same_bytes s s ≡ true
unfolding same_bytes
same_bytes_refl [] = refl
same_bytes_refl (a ∷ s) = ground (arith, same_bytes_refl s)

pub same_bytes_sound : (s t : Bytes) → same_bytes s t ≡ true → s ≡ t
unfolding same_bytes
same_bytes_sound [] [] h = refl
same_bytes_sound [] (b ∷ t) h = absurd (ground arith)
same_bytes_sound (a ∷ s) [] h = absurd (ground arith)
same_bytes_sound (a ∷ s) (b ∷ t) h =
    let first : a ≡ b = ground arith in
    let rest : same_bytes s t ≡ true = ground arith in let same = same_bytes_sound s t rest in cc

abbrev cut : Bytes → Bytes → Option (Bytes × Bytes)
cut a b = some (a, b)

until_sound :
    (q : ℕ) (s a b : Bytes) → until q s ≡ cut a b → (s ≡ a ++ q ∷ b) × (free_of q a ≡ true)
unfolding until
until_sound q [] a b h = absurd (ground arith)
until_sound q (c ∷ s) a b h = elim (Bool-cases (c == q)) [
  | inl e ↦
      let h' : cut [] s ≡ cut a b = rw e at h in
      let same : c ≡ q = ground arith in
      let none_before : [] ≡ a = ground arith in
      let after : s ≡ b = ground arith in
      (rw (← none_before, same, after) refl, rw (← none_before) refl)
  | inr e ↦ elim (Option-cases (until q s)) [
    | inl e' ↦ absurd (let h' = rw (e, e') at h in ground arith)
    | inr ((a', b'), e') ↦
        let h' : cut (c ∷ a') b' ≡ cut a b = rw (e, e') at h in
        let (whole, free) = until_sound q s a' b' e' in
        let front : c ∷ a' ≡ a = ground arith in
        let back : b' ≡ b = ground arith in
        (rw (← front, ← back) (ap (λ t. c ∷ t) whole), rw (← front) (rw (e, free) refl))
  ]
]

pub until_complete : (q : ℕ) (a b : Bytes) → free_of q a ≡ true → until q (a ++ q ∷ b) ≡ some (a, b)
unfolding until
until_complete q [] b h = let e : (q == q) ≡ true = ground arith in rw e refl
until_complete q (c ∷ a) b h =
    let e : (c == q) ≡ false = ground arith in
    let h' : free_of q a ≡ true = ground arith in rw (e, until_complete q a b h') refl

-- The three parts of a token put together.
abbrev pub dotted : Bytes → Bytes → Bytes → Bytes
dotted h p s = (h ++ 46 ∷ p) ++ 46 ∷ s

-- A part between dots: not empty, and without a dot.
abbrev pub IsPart : Bytes → Type 0
IsPart s = (is_empty s ≡ false) × (free_of 46 s ≡ true)

abbrev parts : Bytes → Bytes → Bytes → Option (Bytes × Bytes × Bytes)
parts h p s = some (h, p, s)

rearrange : (h p s : Bytes) → h ++ 46 ∷ (p ++ 46 ∷ s) ≡ dotted h p s
rearrange [] p s = refl
rearrange (c ∷ h) p s = ap (λ t. c ∷ t) (rearrange h p s)

third_sound :
    (a b c h p s : Bytes)
    → third a b c ≡ parts h p s
    → (a ≡ h) × (b ≡ p) × (c ≡ s) × (is_empty c ≡ false) × (free_of 46 c ≡ true)
third_sound a b c h p s e = elim (Bool-cases (not (is_empty c) && free_of 46 c)) [
  | inl k ↦ let e' : parts a b c ≡ parts h p s = rw k at e in ground arith
  | inr k ↦ absurd (let e' : none ≡ parts h p s = rw k at e in ground arith)
]

second_sound :
    (a h p s : Bytes) (o : Option (Bytes × Bytes))
    → second a o ≡ parts h p s
    → (a ≡ h) × (o ≡ cut p s) × (is_empty p ≡ false) × (is_empty s ≡ false) × (free_of 46 s ≡ true)
second_sound a h p s none e = absurd (ground arith)
second_sound a h p s (some (b, c)) e = elim (Bool-cases (is_empty b)) [
  | inl k ↦ absurd (let e' : none ≡ parts h p s = rw k at e in ground arith)
  | inr k ↦
      let (x, y, z, m, n) = third_sound a b c h p s (rw k at e) in
      (
        x,
        rw (y, z) refl,
        subst (λ t. is_empty t ≡ false) y k,
        subst (λ t. is_empty t ≡ false) z m,
        subst (λ t. free_of 46 t ≡ true) z n,
      )
]

first_sound :
    (h p s : Bytes) (o : Option (Bytes × Bytes))
    → first o ≡ parts h p s
    → (rest : Bytes) × (o ≡ cut h rest)
      × (until 46 rest ≡ cut p s)
      × (is_empty h ≡ false)
      × (is_empty p ≡ false)
      × IsPart s
first_sound h p s none e = absurd (ground arith)
first_sound h p s (some (a, rest)) e = elim (Bool-cases (is_empty a)) [
  | inl k ↦ absurd (let e' : none ≡ parts h p s = rw k at e in ground arith)
  | inr k ↦
      let (x, y, m, n, r) = second_sound a h p s (until 46 rest) (rw k at e) in
      (rest, rw x refl, y, subst (λ t. is_empty t ≡ false) x k, m, (n, r))
]

-- What is cut at its dots is the parts with a dot between them, none of them empty or with a dot.
pub split_dots_sound :
    (raw h p s : Bytes)
    → split_dots raw ≡ some (h, p, s)
    → (raw ≡ dotted h p s) × IsPart h × IsPart p × IsPart s
unfolding split_dots
split_dots_sound raw h p s e =
    let (rest, k, l, m, n, r) = first_sound h p s (until 46 raw) e in
    let (whole, free) = until_sound 46 raw h rest k in
    let (whole', free') = until_sound 46 rest p s l in
    (whole ∙ ap (λ t. h ++ 46 ∷ t) whole' ∙ rearrange h p s, (m, free), (n, free'), r)

-- Parts that are not empty and have no dot are what the text with dots between them is cut to.
pub split_dots_complete :
    (h p s : Bytes) → IsPart h → IsPart p → IsPart s → split_dots (dotted h p s) ≡ some (h, p, s)
unfolding split_dots
split_dots_complete h p s (h', fh) (p', fp) (s', fs) =
    subst (λ raw. split_dots raw ≡ parts h p s) (rearrange h p s)
      (rw (until_complete 46 h (p ++ 46 ∷ s) fh, h', until_complete 46 p s fp, p', s', fs) refl)
