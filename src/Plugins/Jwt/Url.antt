-- ===== src/Plugins/Jwt/Url.antt =====
-- lib/jwt.lua: the letters of `b64url_encode`, and decoding what it makes.
use dgsw_class_pg_proxy.Prelude.{
  ℕ, suc, ◌+◌, ◌*◌, ◌<◌, ◌/◌, ◌%◌, ◌≡◌, refl, ap, ◌∙◌, Bool, true, false, not, ◌&&◌, [], ◌∷◌,
  length, all, ◌++◌, replicate, ◌-◌, holds_from, holds_from_sound, arith, ◌==◌, if◌then◌else◌,
}
use dgsw_class_pg_proxy.Prelude.Text.{Bytes}
use dgsw_class_pg_proxy.Lua.Base64.{pad, char_of, sextet, pack, base64_encode, lua_base64_decode}
use dgsw_class_pg_proxy.Lua.Base64.RoundTrip.{sextet-lt}
use dgsw_class_pg_proxy.Plugins.Patterns.{is_space, free_of, is_empty}
use dgsw_class_pg_proxy.Plugins.Jwt.{replace, strip_pad, b64url_encode, b64url_decode}
use dgsw_class_pg_proxy.Plugins.Jwt.Split.{IsPart}

-- What the two replacements make of a character, and back.
abbrev to_url : ℕ → ℕ
to_url c = let d = if c == 43 then 45 else c in if d == 47 then 95 else d

abbrev from_url : ℕ → ℕ
from_url c = let d = if c == 45 then 43 else c in if d == 95 then 47 else d

abbrev pub is_letter : ℕ → Bool
is_letter c = not (c == pad) && not (c == 46) && not (is_space c)

url_table :
    holds_from
      (λ i. is_letter (to_url (char_of i)) && (from_url (to_url (char_of i)) == char_of i))
      0
      64
    ≡ true
unfolding holds_from char_of
url_table = refl

letter : ℕ → ℕ → ℕ
letter n k = to_url (char_of (sextet n k))

letter_lem :
    (n k : ℕ) → (is_letter (letter n k) ≡ true) × (from_url (letter n k) ≡ char_of (sextet n k))
unfolding letter
letter_lem n k = ground (
  arith,
  holds_from_sound
      (λ i. is_letter (to_url (char_of i)) && (from_url (to_url (char_of i)) == char_of i)) 0 64
      (sextet n k) (omega arith) (sextet-lt n k) url_table,
)

strip_pad_keeps : (c : ℕ) (s : Bytes) → is_letter c ≡ true → strip_pad (c ∷ s) ≡ c ∷ strip_pad s
unfolding strip_pad
strip_pad_keeps c s h = let e : (c == pad) ≡ false = ground arith in rw e refl

-- A text of which no padding is left once `strip_pad` has gone through the rest.
more : (n k : ℕ) (s t : Bytes) → strip_pad s ≡ t → strip_pad (letter n k ∷ s) ≡ letter n k ∷ t
more n k s t e = strip_pad_keeps (letter n k) s (letter_lem n k).0 ∙ ap (λ t. letter n k ∷ t) e

only_pads : (strip_pad (pad ∷ pad ∷ []) ≡ []) × (strip_pad (pad ∷ []) ≡ [])
unfolding strip_pad
only_pads = (refl, refl)

-- The characters of a chunk of three bytes, and of what is left over at the end.
encode_chunk :
    (a b c : ℕ) (rest : Bytes)
    → let n = pack a b c in
      b64url_encode (a ∷ b ∷ c ∷ rest)
      ≡ letter n 18 ∷ letter n 12 ∷ letter n 6 ∷ letter n 0 ∷ b64url_encode rest
unfolding b64url_encode base64_encode letter
encode_chunk a b c rest =
    let n = pack a b c in
    let s = replace 47 95 (replace 43 45 (base64_encode rest)) in
    let t = b64url_encode rest in
    let s₁ = letter n 0 ∷ s in
    let s₂ = letter n 6 ∷ s₁ in
    let t₁ = letter n 0 ∷ t in
    let t₂ = letter n 6 ∷ t₁ in
    more n 18 (letter n 12 ∷ s₂) (letter n 12 ∷ t₂)
      (more n 12 s₂ t₂ (more n 6 s₁ t₁ (more n 0 s t refl)))

encode_two :
    (a b : ℕ)
    → let n = pack a b 0 in b64url_encode (a ∷ b ∷ []) ≡ letter n 18 ∷ letter n 12 ∷ letter n 6 ∷ []
unfolding b64url_encode base64_encode letter
encode_two a b =
    let n = pack a b 0 in
    let s = letter n 6 ∷ pad ∷ [] in
    let t = letter n 6 ∷ [] in
    more n 18 (letter n 12 ∷ s) (letter n 12 ∷ t)
      (more n 12 s t (more n 6 (pad ∷ []) [] only_pads.1))

encode_one : (a : ℕ) → let n = pack a 0 0 in b64url_encode (a ∷ []) ≡ letter n 18 ∷ letter n 12 ∷ []
unfolding b64url_encode base64_encode letter
encode_one a =
    let n = pack a 0 0 in
    let s = pad ∷ pad ∷ [] in
    more n 18 (letter n 12 ∷ s) (letter n 12 ∷ []) (more n 12 s [] only_pads.0)

encode_nil : b64url_encode [] ≡ []
unfolding b64url_encode base64_encode strip_pad
encode_nil = refl

-- Four characters for every three bytes, rounded up.
pub length-b64url_encode : (s : Bytes) → length (b64url_encode s) ≡ (4 * length s + 2) / 3
length-b64url_encode [] = rw encode_nil refl
length-b64url_encode (a ∷ []) = rw (encode_one a) refl
length-b64url_encode (a ∷ b ∷ []) = rw (encode_two a b) refl
length-b64url_encode (a ∷ b ∷ c ∷ rest) =
    rw (encode_chunk a b c rest) (omega (arith, length-b64url_encode rest))

pub b64url_encode-letters : (s : Bytes) → all is_letter (b64url_encode s) ≡ true
b64url_encode-letters [] = rw encode_nil refl
b64url_encode-letters (a ∷ []) =
    let n = pack a 0 0 in rw (encode_one a, (letter_lem n 18).0, (letter_lem n 12).0) refl
b64url_encode-letters (a ∷ b ∷ []) =
    let n = pack a b 0 in
    rw (encode_two a b, (letter_lem n 18).0, (letter_lem n 12).0, (letter_lem n 6).0) refl
b64url_encode-letters (a ∷ b ∷ c ∷ rest) =
    let n = pack a b c in
    rw
      (
        encode_chunk a b c rest,
        (letter_lem n 18).0,
        (letter_lem n 12).0,
        (letter_lem n 6).0,
        (letter_lem n 0).0,
      )
      (b64url_encode-letters rest)

pub letters_free : (s : Bytes) → all is_letter s ≡ true → free_of 46 s ≡ true
letters_free [] h = refl
letters_free (c ∷ s) h = ground (arith, letters_free s)

longer : (s : Bytes) → 0 < length s → is_empty s ≡ false
longer [] h = absurd (omega arith)
longer (c ∷ s) h = refl

shorter : (s : Bytes) → is_empty s ≡ false → 0 < length s
shorter [] h = absurd (ground arith)
shorter (c ∷ s) h = omega arith

-- The characters replaced back, with the padding that `b64url_decode` adds.
abbrev padded : Bytes → Bytes
padded s = let s' = replace 95 47 (replace 45 43 s) in s' ++ replicate ((4 - length s' % 4) % 4) pad

-- The padding depends on the length only, and a whole group of four does not change it.
padding : (n : ℕ) → (4 - suc (suc (suc (suc n))) % 4) % 4 ≡ (4 - n % 4) % 4
padding n = omega arith

encode_back : (s : Bytes) → padded (b64url_encode s) ≡ base64_encode s
unfolding base64_encode
encode_back [] = rw encode_nil refl
encode_back (a ∷ []) =
    let n = pack a 0 0 in rw (encode_one a, (letter_lem n 18).1, (letter_lem n 12).1) refl
encode_back (a ∷ b ∷ []) =
    let n = pack a b 0 in
    rw (encode_two a b, (letter_lem n 18).1, (letter_lem n 12).1, (letter_lem n 6).1) refl
encode_back (a ∷ b ∷ c ∷ rest) =
    let n = pack a b c in
    rw
      (
        encode_chunk a b c rest,
        (letter_lem n 18).1,
        (letter_lem n 12).1,
        (letter_lem n 6).1,
        (letter_lem n 0).1,
      )
      (ap
        (λ s.
          char_of (sextet n 18)
          ∷ char_of (sextet n 12)
          ∷ char_of (sextet n 6)
          ∷ char_of (sextet n 0)
          ∷ s)
        (rw (padding (length (replace 95 47 (replace 45 43 (b64url_encode rest)))))
          (encode_back rest)))

-- Decoding what `b64url_encode` makes is decoding the base64 of the same bytes.
pub b64url_decode-encode :
    (s : Bytes) → b64url_decode (b64url_encode s) ≡ lua_base64_decode (base64_encode s)
unfolding b64url_decode
b64url_decode-encode s = ap lua_base64_decode (encode_back s)

pub b64url_encode-IsPart : (s : Bytes) → is_empty s ≡ false → IsPart (b64url_encode s)
b64url_encode-IsPart s h = (
  longer (b64url_encode s) (rw (length-b64url_encode s) (omega (arith, shorter s h))),
  letters_free (b64url_encode s) (b64url_encode-letters s),
)
