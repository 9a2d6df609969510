-- ===== src/Lua/Base64/RoundTrip.antt =====
-- engine.rs: decoding what `base64_encode` makes.
use mathlib.Core.Option.{some-injective}
use dgsw_class_pg_proxy.Prelude.{
  ℕ, ◌+◌, ◌*◌, ◌/◌, ◌%◌, ◌^◌, ◌<◌, ◌≡◌, refl, sym, ◌∙◌, subst, Bool, true, false, ◌&&◌, not, ◌≢◌,
  Option, none, some, [], ◌∷◌, All, length, holds_from, holds_from_sound, arith, ◌==◌,
}
use dgsw_class_pg_proxy.Prelude.Text.{Bytes}
use dgsw_class_pg_proxy.Lua.Base64.{
  pad, char_of, sextet, pack, base64_encode, value_of, decode_group, decode_groups, is_utf8,
  base64_decode, checked_utf8,
}

abbrev is_value : Option ℕ → ℕ → Bool
is_value none i = false
is_value (some v) i = v == i

-- At each of the 64 values the tables undo one another, and `=` is no character of a value.
inverse_table :
    holds_from (λ i. is_value (value_of (char_of i)) i && not (char_of i == pad)) 0 64 ≡ true
unfolding holds_from value_of char_of
inverse_table = refl

value_of-char_of : (i : ℕ) → i < 64 → (value_of (char_of i) ≡ some i) × ((char_of i == pad) ≡ false)
value_of-char_of i h = ground (
  arith,
  holds_from_sound (λ x. is_value (value_of (char_of x)) x && not (char_of x == pad)) 0 64 i
      (omega arith) h inverse_table,
)

-- The whole chunks of three bytes, without the one or two bytes that may be left over.
unfoldable pub whole : Bytes → Bytes
whole (a ∷ b ∷ c ∷ rest) = a ∷ b ∷ c ∷ whole rest
whole _ = []

repack :
    (a b c : ℕ)
    → a < 256
    → b < 256
    → c < 256
    → let n = pack a b c in
      let m = sextet n 18 * 2 ^ 18 + sextet n 12 * 2 ^ 12 + sextet n 6 * 2 ^ 6 + sextet n 0 in
      (m / 2 ^ 16 % 256 ≡ a) × (m / 2 ^ 8 % 256 ≡ b) × (m % 256 ≡ c)
repack a b c ha hb hc = omega arith

pub sextet-lt : (n k : ℕ) → sextet n k < 64
sextet-lt n k = omega arith

decode_group-chars :
    (a b c : ℕ)
    → a < 256
    → b < 256
    → c < 256
    → let n = pack a b c in
      decode_group
        (char_of (sextet n 18))
        (char_of (sextet n 12))
        (char_of (sextet n 6))
        (char_of (sextet n 0))
      ≡ some (a ∷ b ∷ c ∷ [])
unfolding decode_group
decode_group-chars a b c ha hb hc =
    let n = pack a b c in
    let (x, y, z) = repack a b c ha hb hc in
    rw
      (
        (value_of-char_of (sextet n 18) (sextet-lt n 18)).0,
        (value_of-char_of (sextet n 12) (sextet-lt n 12)).0,
        (value_of-char_of (sextet n 6) (sextet-lt n 6)).0,
        (value_of-char_of (sextet n 0) (sextet-lt n 0)).0,
      )
      (λ i. some (x i ∷ y i ∷ z i ∷ []))

whole_of_size : (bs : Bytes) → length bs % 3 ≡ 0 → whole bs ≡ bs
unfolding whole
whole_of_size [] h = refl
whole_of_size (a ∷ []) h = absurd (omega arith)
whole_of_size (a ∷ b ∷ []) h = absurd (omega arith)
whole_of_size (a ∷ b ∷ c ∷ rest) h = rw (whole_of_size rest (omega arith))

size_of_whole : (bs : Bytes) → length (whole bs) % 3 ≡ 0
unfolding whole
size_of_whole [] = refl
size_of_whole (a ∷ []) = refl
size_of_whole (a ∷ b ∷ []) = refl
size_of_whole (a ∷ b ∷ c ∷ rest) = omega (arith, size_of_whole rest)

no_pad : (n k : ℕ) → (char_of (sextet n k) == pad) ≡ false
no_pad n k = (value_of-char_of (sextet n k) (sextet-lt n k)).1

-- What the loop makes of an encoding: the whole chunks. A last group that was padded is dropped.
pub decode_groups-encode :
    (bs : Bytes) → All (λ b. b < 256) bs → decode_groups (base64_encode bs) ≡ some (whole bs)
unfolding decode_groups base64_encode whole
decode_groups-encode [] h = refl
decode_groups-encode (a ∷ []) h = rw (no_pad (pack a 0 0) 18, no_pad (pack a 0 0) 12) refl
decode_groups-encode (a ∷ b ∷ []) h =
    rw (no_pad (pack a b 0) 18, no_pad (pack a b 0) 12, no_pad (pack a b 0) 6) refl
decode_groups-encode (a ∷ b ∷ c ∷ rest) (ha, (hb, (hc, h))) =
    let n = pack a b c in
    rw (no_pad n 18, no_pad n 12, no_pad n 6, no_pad n 0)
      (rw (decode_group-chars a b c ha hb hc, decode_groups-encode rest h) refl)

-- Decoding an encoding gives the bytes back if their number is a multiple of three and they are the
-- UTF-8 of a text.
pub base64_decode-encode :
    (bs : Bytes)
    → All (λ b. b < 256) bs
    → is_utf8 bs ≡ true
    → length bs % 3 ≡ 0
    → base64_decode (base64_encode bs) ≡ some bs
unfolding base64_decode
base64_decode-encode bs h text size =
    rw (decode_groups-encode bs h, whole_of_size bs size) (rw text)

checked_utf8_sound : (o : Option Bytes) (bs : Bytes) → checked_utf8 o ≡ some bs → o ≡ some bs
checked_utf8_sound none bs e = e
checked_utf8_sound (some out) bs e = ground arith

-- Whatever bytes are encoded, if their number is no multiple of three, decoding does not give them
-- back.
pub base64_decode-loses :
    (bs : Bytes)
    → All (λ b. b < 256) bs
    → length bs % 3 ≢ 0
    → base64_decode (base64_encode bs) ≢ some bs
unfolding base64_decode
base64_decode-loses bs h size e =
    let e' = checked_utf8_sound (decode_groups (base64_encode bs)) bs e in
    let same : whole bs ≡ bs = some-injective _ _ (sym (decode_groups-encode bs h) ∙ e') in
    size (subst (λ (l : Bytes). length l % 3 ≡ 0) same (size_of_whole bs))

-- Four characters for each chunk of three bytes that is begun.
length-base64_encode : (bs : Bytes) → length (base64_encode bs) ≡ 4 * ((length bs + 2) / 3)
unfolding base64_encode
length-base64_encode [] = refl
length-base64_encode (a ∷ []) = refl
length-base64_encode (a ∷ b ∷ []) = refl
length-base64_encode (a ∷ b ∷ c ∷ rest) = omega (arith, length-base64_encode rest)
