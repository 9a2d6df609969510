-- ===== src/Lua/Uuid/Recover.antt =====
-- engine.rs: the time of which `uuid_v4` made a text.
use dgsw_class_pg_proxy.Prelude.{
  ℕ, zero, suc, ◌+◌, ◌-◌, ◌*◌, ◌/◌, ◌%◌, ◌^◌, ◌<◌, ◌≡◌, refl, ap, ◌∙◌, inl, inr, [], ◌∷◌, ◌++◌,
  length, replicate, take, ltb, Bool-cases, if◌then◌else◌, arith,
}
use dgsw_class_pg_proxy.Prelude.Text.{Bytes}
use dgsw_class_pg_proxy.Lua.Uuid.{hex_digit, hex_from, hex, hex_padded, uuid_v4}
use dgsw_class_pg_proxy.Lua.Uuid.Shape.{bound, group_width}

-- What a digit stands for.
digit_value : ℕ → ℕ
digit_value c = if ltb c 97 then c - 48 else c - 87

-- The number that a row of hexadecimal digits stands for.
pub from_hex : ℕ → Bytes → ℕ
unfolding digit_value
from_hex acc [] = acc
from_hex acc (c ∷ cs) = from_hex (acc * 16 + digit_value c) cs

from_hex-append :
    (acc : ℕ) (xs ys : Bytes) → from_hex acc (xs ++ ys) ≡ from_hex (from_hex acc xs) ys
unfolding from_hex
from_hex-append acc [] ys = refl
from_hex-append acc (x ∷ xs) ys = from_hex-append (acc * 16 + digit_value x) xs ys

digit_value-hex_digit : (d : ℕ) → d < 16 → digit_value (hex_digit d) ≡ d
unfolding digit_value
digit_value-hex_digit d h = ground arith

from_hex-hex_from : (fuel n : ℕ) → n < bound fuel → from_hex 0 (hex_from fuel n) ≡ n
unfolding from_hex hex_from
from_hex-hex_from zero n h = omega arith
from_hex-hex_from (suc fuel) n h = elim (Bool-cases (ltb n 16)) [
  | inl small ↦ rw small (omega (arith, digit_value-hex_digit n (ground arith)))
  | inr big ↦
      let rest = from_hex-hex_from fuel (n / 16) (omega arith) in
      let last = digit_value-hex_digit (n % 16) (omega arith) in
      rw big (
        from_hex-append 0 (hex_from fuel (n / 16)) (hex_digit (n % 16) ∷ [])
        ∙ rw (rest, last) (omega arith))
]

from_hex-replicate : (k : ℕ) (xs : Bytes) → from_hex 0 (replicate k b'0' ++ xs) ≡ from_hex 0 xs
unfolding from_hex digit_value
from_hex-replicate zero xs = refl
from_hex-replicate (suc k) xs = from_hex-replicate k xs

take-append : (xs ys : Bytes) (n : ℕ) → length xs ≡ n → take n (xs ++ ys) ≡ xs
take-append [] ys zero e = refl
take-append [] ys (suc n) e = absurd (omega arith)
take-append (x ∷ xs) ys zero e = absurd (omega arith)
take-append (x ∷ xs) ys (suc n) e = ap (λ zs. x ∷ zs) (take-append xs ys n (omega arith))

-- For every time within a second, the first group of the text is that time, in hexadecimal digits.
from_hex-uuid_v4 : (ns : ℕ) → ns < 10 ^ 9 → from_hex 0 (take 8 (uuid_v4 ns)) ≡ ns
unfolding uuid_v4
from_hex-uuid_v4 ns h =
    ap (from_hex 0) (take-append (hex_padded 8 ns) _ 8 (group_width 7 ns (omega arith))) ∙ padded
  where
    padded : from_hex 0 (hex_padded 8 ns) ≡ ns
    padded =
        unfold hex_padded in
        (from_hex-replicate (8 - length (hex ns)) (hex ns) ∙ from_hex-hex_from 16 ns (omega arith))
