-- ===== src/Lua/Uuid/Shape.antt =====
-- engine.rs: the widths of the groups of `uuid_v4`, and what they say.
use dgsw_class_pg_proxy.Prelude.{
  ℕ, zero, suc, ◌+◌, ◌-◌, ◌*◌, ◌/◌, ◌%◌, ◌^◌, ◌≤◌, ◌<◌, ◌≡◌, refl, ap, ◌∙◌, ◌↔◌, ◌⊎◌, inl, inr,
  true, false, some, [], ◌∷◌, ◌++◌, length, length-append, replicate, get_elem?, ltb, Bool-cases,
  arith,
}
use dgsw_class_pg_proxy.Prelude.Text.{Bytes}
use dgsw_class_pg_proxy.Lua.Uuid.{
  hex_digit, hex_from, hex, hex_padded, u64_mod, multiplier, uuid_v4,
}

-- How many numbers have at most `w` digits.
abbrev pub bound : ℕ → ℕ
bound zero = 1
bound (suc w) = 16 * bound w

bound_pos : (w : ℕ) → 1 ≤ bound w
bound_pos zero = omega arith
bound_pos (suc w) = omega (arith, bound_pos w)

length-hex_from_le : (w fuel n : ℕ) → n < bound (suc w) → length (hex_from fuel n) ≤ suc w
unfolding hex_from
length-hex_from_le w zero n h = omega arith
length-hex_from_le zero (suc fuel) n h =
    let small : ltb n 16 ≡ true = ground arith in rw small (omega arith)
length-hex_from_le (suc w) (suc fuel) n h = elim (Bool-cases (ltb n 16)) [
  | inl small ↦ rw small (omega arith)
  | inr big ↦ rw big (
      omega (
        arith,
        length-append (hex_from fuel (n / 16)) (hex_digit (n % 16) ∷ []),
        length-hex_from_le w fuel (n / 16) (omega arith),
      ))
]

length-hex_from_pos : (fuel n : ℕ) → 1 ≤ length (hex_from (suc fuel) n)
unfolding hex_from
length-hex_from_pos fuel n = elim (Bool-cases (ltb n 16)) [
  | inl small ↦ rw small (omega arith)
  | inr big ↦
      rw big (omega (arith, length-append (hex_from fuel (n / 16)) (hex_digit (n % 16) ∷ [])))
]

length-hex_from_gt :
    (w fuel n : ℕ) → bound (suc w) ≤ n → suc w < fuel → suc w < length (hex_from fuel n)
unfolding hex_from
length-hex_from_gt w zero n h enough = absurd (omega arith)
length-hex_from_gt w (suc zero) n h enough = absurd (omega arith)
length-hex_from_gt zero (suc (suc fuel)) n h enough =
    let big : ltb n 16 ≡ false = ground arith in
    rw big (
      omega (
        arith,
        length-append (hex_from (suc fuel) (n / 16)) (hex_digit (n % 16) ∷ []),
        length-hex_from_pos fuel (n / 16),
      ))
length-hex_from_gt (suc w) (suc (suc fuel)) n h enough =
    let below : bound (suc w) ≤ n / 16 = omega arith in
    let big : ltb n 16 ≡ false = ground (arith, bound_pos w) in
    rw big (
      omega (
        arith,
        length-append (hex_from (suc fuel) (n / 16)) (hex_digit (n % 16) ∷ []),
        length-hex_from_gt w (suc fuel) (n / 16) below (omega arith),
      ))

length-replicate : (n b : ℕ) → length (replicate n b) ≡ n
length-replicate zero b = refl
length-replicate (suc n) b = ap suc (length-replicate n b)

length-padded : (w n : ℕ) → length (hex_padded w n) ≡ w - length (hex n) + length (hex n)
unfolding hex_padded
length-padded w n =
    length-append (replicate (w - length (hex n)) b'0') (hex n)
    ∙ ap (λ k. k + length (hex n)) (length-replicate (w - length (hex n)) b'0')

-- A group is as wide as its pad if the number has no more digits than that.
pub group_width : (w n : ℕ) → n < bound (suc w) → length (hex_padded (suc w) n) ≡ suc w
group_width w n h = omega (arith, length-padded (suc w) n, length-hex_from_le w 16 n h)

abbrev node : ℕ → Bytes
node ns = hex_padded 12 (ns * multiplier % u64_mod)

node_width :
    (ns : ℕ)
    → (12 ≤ length (node ns))
      × (length (node ns) ≤ 16)
      × ((length (node ns) ≡ 12) ↔ (ns * multiplier % u64_mod < 2 ^ 48))
node_width ns =
    let n = ns * multiplier % u64_mod in
    let width = length-padded 12 n in
    let most = length-hex_from_le 15 16 n (omega arith) in
    (
      omega (arith, width),
      omega (arith, width, most),
      (
        λ e. elim (Bool-cases (ltb n (2 ^ 48))) [
          | inl small ↦ ground arith
          | inr big ↦
              absurd
                (omega (arith, width, e, length-hex_from_gt 11 16 n (ground arith) (omega arith)))
        ],
        λ h. group_width 11 n h,
      ),
    )

abbrev joined : Bytes → Bytes → Bytes → Bytes → Bytes → Bytes
joined a b c d e = a ++ (b'-' ∷ (b ++ (b'-' ∷ b'4' ∷ (c ++ (b'-' ∷ (d ++ (b'-' ∷ e)))))))

length-joined :
    (a b c d e : Bytes)
    → length (joined a b c d e) ≡ length a + length b + length c + length d + length e + 5
length-joined a b c d e = omega (
  arith,
  length-append a (b'-' ∷ (b ++ (b'-' ∷ b'4' ∷ (c ++ (b'-' ∷ (d ++ (b'-' ∷ e))))))),
  length-append b (b'-' ∷ b'4' ∷ (c ++ (b'-' ∷ (d ++ (b'-' ∷ e))))),
  length-append c (b'-' ∷ (d ++ (b'-' ∷ e))),
  length-append d (b'-' ∷ e),
)

-- For every time within a second, the text has 36 to 40 characters; it has the 36 of a UUID exactly
-- if the product of the time and the multiplier, modulo `2 ^ 64`, has no more than twelve digits.
pub length-uuid_v4 :
    (ns : ℕ)
    → ns < 10 ^ 9
    → (36 ≤ length (uuid_v4 ns))
      × (length (uuid_v4 ns) ≤ 40)
      × ((length (uuid_v4 ns) ≡ 36) ↔ (ns * multiplier % u64_mod < 2 ^ 48))
unfolding uuid_v4
length-uuid_v4 ns h =
    let (low, most, exact) = node_width ns in
    let total : length (uuid_v4 ns) ≡ 24 + length (node ns) = omega (
      arith,
      length-joined (hex_padded 8 ns) (hex_padded 4 (ns / 2 ^ 16 % 2 ^ 16))
          (hex_padded 3 (ns / 2 ^ 4 % 2 ^ 12)) (hex_padded 4 (0x8000 + ns / 2 ^ 2 % 2 ^ 14))
          (node ns),
      group_width 7 ns (omega arith),
      group_width 3 (ns / 2 ^ 16 % 2 ^ 16) (omega arith),
      group_width 2 (ns / 2 ^ 4 % 2 ^ 12) (omega arith),
      group_width 3 (0x8000 + ns / 2 ^ 2 % 2 ^ 14) (omega arith),
    ) in
    (omega arith, omega arith, (λ e. exact.0 (omega arith), λ e. omega (arith, exact.1 e)))

-- The place `i` after `n` more.
abbrev after : ℕ → ℕ → ℕ
after zero i = i
after (suc n) i = suc (after n i)

get_elem?-append :
    (xs ys : Bytes) (n i : ℕ) → length xs ≡ n → get_elem? (xs ++ ys) (after n i) ≡ get_elem? ys i
get_elem?-append [] ys zero i e = refl
get_elem?-append [] ys (suc n) i e = absurd (omega arith)
get_elem?-append (x ∷ xs) ys zero i e = absurd (omega arith)
get_elem?-append (x ∷ xs) ys (suc n) i e = get_elem?-append xs ys n i (omega arith)

-- Of a number of four digits the first one.
first_digit :
    (n : ℕ) (ys : Bytes)
    → 0x1000 ≤ n
    → n < 0x10000
    → get_elem? (hex_padded 4 n ++ ys) 0 ≡ some (hex_digit (n / 16 / 16 / 16))
unfolding hex_padded hex_from
first_digit n ys lo hi =
    let a : ltb n 16 ≡ false = ground arith in
    let b : ltb (n / 16) 16 ≡ false = ground arith in
    let c : ltb (n / 16 / 16) 16 ≡ false = ground arith in
    let d : ltb (n / 16 / 16 / 16) 16 ≡ true = ground arith in rw (a, b, c, d) refl

joined_places :
    (a b c d e : Bytes)
    → length a ≡ 8
    → length b ≡ 4
    → length c ≡ 3
    → (get_elem? (joined a b c d e) 14 ≡ some b'4')
      × (get_elem? (joined a b c d e) 19 ≡ get_elem? (d ++ (b'-' ∷ e)) 0)
joined_places a b c d e ha hb hc =
    let last = b'-' ∷ (d ++ (b'-' ∷ e)) in
    let rest = b'-' ∷ b'4' ∷ (c ++ last) in
    let first = get_elem?-append a (b'-' ∷ (b ++ rest)) 8 in
    (
      first 6 ha ∙ get_elem?-append b rest 4 1 hb,
      first 11 ha ∙ get_elem?-append b rest 4 6 hb ∙ get_elem?-append c last 3 1 hc,
    )

variant_digit :
    (q : ℕ)
    → 8 ≤ q
    → q < 12
    → (hex_digit q ≡ b'8') ⊎ (hex_digit q ≡ b'9') ⊎ (hex_digit q ≡ b'a') ⊎ (hex_digit q ≡ b'b')
variant_digit q lo hi = elim (Bool-cases (ltb q 10)) [
  | inl below ↦ rw below (ground arith)
  | inr above ↦ rw above (ground arith)
]

-- For every time within a second, the text has the digit of version 4 in its place, and in the
-- place of the variant one of the four digits that RFC 4122 allows there.
uuid_v4-version :
    (ns : ℕ)
    → ns < 10 ^ 9
    → (get_elem? (uuid_v4 ns) 14 ≡ some b'4')
      × ((v : ℕ) × (get_elem? (uuid_v4 ns) 19 ≡ some v)
          × ((v ≡ b'8') ⊎ (v ≡ b'9') ⊎ (v ≡ b'a') ⊎ (v ≡ b'b')))
unfolding uuid_v4
uuid_v4-version ns h =
    let n = 0x8000 + ns / 2 ^ 2 % 2 ^ 14 in
    let (version, place) =
      joined_places (hex_padded 8 ns) (hex_padded 4 (ns / 2 ^ 16 % 2 ^ 16))
        (hex_padded 3 (ns / 2 ^ 4 % 2 ^ 12)) (hex_padded 4 n) (node ns)
        (group_width 7 ns (omega arith)) (group_width 3 (ns / 2 ^ 16 % 2 ^ 16) (omega arith))
        (group_width 2 (ns / 2 ^ 4 % 2 ^ 12) (omega arith)) in
    let q : 8 ≤ n / 16 / 16 / 16 = omega arith in
    let q' : n / 16 / 16 / 16 < 12 = omega arith in
    (
      version,
      (
        hex_digit (n / 16 / 16 / 16),
        place ∙ first_digit n (b'-' ∷ node ns) (omega arith) (omega arith),
        variant_digit (n / 16 / 16 / 16) q q',
      ),
    )
