-- ===== src/Lua/Base64.antt =====
-- src/lua/engine.rs, `base64_encode` and `base64_decode`. A text is the list of its bytes. A sum
-- stands for `|` where the bits do not overlap, `/` and `%` stand for shifts to the right and
-- masks.
pub mod RoundTrip
use dgsw_class_pg_proxy.Prelude.{
  ℕ, zero, suc, ◌+◌, ◌*◌, ◌/◌, ◌%◌, ◌^◌, ◌<◌, String, Bool, true, false, ◌&&◌, Option, none, some,
  List, [], ◌∷◌, ◌++◌, any, set, get_or, replicate, leb, ltb, ◌==◌, if◌then◌else◌,
}
use dgsw_class_pg_proxy.Prelude.Text.{Bytes, codes}

unfoldable pub chars : Bytes
chars = codes "ABCDEFGHIJKLMNOPQRSTUVWXYZabcdefghijklmnopqrstuvwxyz0123456789+/"

abbrev pub pad : ℕ
pad = b'='

-- `CHARS[i]`; the masks keep `i` below 64.
unfoldable pub char_of : ℕ → ℕ
unfolding chars
char_of i = get_or chars i 0

-- The four indices that the 24 bits of a chunk are cut into.
abbrev pub sextet : ℕ → ℕ → ℕ
sextet n k = n / 2 ^ k % 64

abbrev pub pack : ℕ → ℕ → ℕ → ℕ
pack a b c = a * 2 ^ 16 + b * 2 ^ 8 + c

unfoldable pub base64_encode : Bytes → Bytes
unfolding char_of
base64_encode [] = []
base64_encode (a ∷ []) =
    let n = pack a 0 0 in char_of (sextet n 18) ∷ char_of (sextet n 12) ∷ pad ∷ pad ∷ []
base64_encode (a ∷ b ∷ []) =
    let n = pack a b 0 in
    char_of (sextet n 18) ∷ char_of (sextet n 12) ∷ char_of (sextet n 6) ∷ pad ∷ []
base64_encode (a ∷ b ∷ c ∷ rest) =
    let n = pack a b c in
    char_of (sextet n 18)
    ∷ char_of (sextet n 12)
    ∷ char_of (sextet n 6)
    ∷ char_of (sextet n 0)
    ∷ base64_encode rest

-- The loop that fills the table `DECODE`; `none` stands for -1.
fill : ℕ → Bytes → List (Option ℕ) → List (Option ℕ)
fill i [] table = table
fill i (c ∷ cs) table = fill (suc i) cs (set table c (some i))

unfoldable pub decode_table : List (Option ℕ)
unfolding fill chars
decode_table = fill 0 chars (replicate 128 none)

unfoldable pub value_of : ℕ → Option ℕ
unfolding decode_table
value_of b = if ltb b 128 then get_or decode_table b none else none

infixl 5 ◌>>=◌
abbrev ◌>>=◌ {ℓ κ} : {A : Type ℓ} {B : Type κ} → Option A → (A → Option B) → Option B
none >>= f = none
some a >>= f = f a

-- The three bytes of a group of four characters, `none` if one of them has no value.
unfoldable pub decode_group : ℕ → ℕ → ℕ → ℕ → Option Bytes
unfolding value_of
decode_group a b c d = do
  v₀ ← value_of a
  v₁ ← value_of b
  v₂ ← value_of c
  v₃ ← value_of d
  let n = v₀ * 2 ^ 18 + v₁ * 2 ^ 12 + v₂ * 2 ^ 6 + v₃
  some (n / 2 ^ 16 % 256 ∷ n / 2 ^ 8 % 256 ∷ n % 256 ∷ [])

-- The loop of `base64_decode`. A group with a `=` ends it.
unfoldable pub decode_groups : Bytes → Option Bytes
unfolding decode_group
decode_groups (a ∷ b ∷ c ∷ d ∷ rest) =
    if any (λ x. x == pad) (a ∷ b ∷ c ∷ d ∷ [])
    then some []
    else do out ← decode_group a b c d; more ← decode_groups rest; some (out ++ more)
decode_groups _ = some []

-- `String::from_utf8`: where the decoder stands in a character.
pub data Utf8State : Type 0 where
  start tail_one tail_two tail_three after_e0 after_ed after_f0 after_f4 invalid : Utf8State

abbrev within : ℕ → ℕ → ℕ → Bool
within lo hi b = leb lo b && leb b hi

unfoldable pub utf8_step : Utf8State → ℕ → Utf8State
utf8_step start b =
    if ltb b 0x80
    then start
    else if within 0xc2 0xdf b
    then tail_one
    else if b == 0xe0
    then after_e0
    else if b == 0xed
    then after_ed
    else if within 0xe1 0xef b
    then tail_two
    else if b == 0xf0
    then after_f0
    else if within 0xf1 0xf3 b
    then tail_three
    else if b == 0xf4
    then after_f4
    else invalid
utf8_step tail_one b = if within 0x80 0xbf b then start else invalid
utf8_step tail_two b = if within 0x80 0xbf b then tail_one else invalid
utf8_step tail_three b = if within 0x80 0xbf b then tail_two else invalid
utf8_step after_e0 b = if within 0xa0 0xbf b then tail_one else invalid
utf8_step after_ed b = if within 0x80 0x9f b then tail_one else invalid
utf8_step after_f0 b = if within 0x90 0xbf b then tail_two else invalid
utf8_step after_f4 b = if within 0x80 0x8f b then tail_two else invalid
utf8_step invalid b = invalid

abbrev is_start : Utf8State → Bool
is_start start = true
is_start _ = false

unfoldable pub utf8_from : Utf8State → Bytes → Bool
unfolding utf8_step
utf8_from s [] = is_start s
utf8_from s (b ∷ bs) = utf8_from (utf8_step s b) bs

abbrev pub is_utf8 : Bytes → Bool
is_utf8 bs = utf8_from start bs

abbrev checked_utf8 : Option Bytes → Option Bytes
checked_utf8 none = none
checked_utf8 (some out) = if is_utf8 out then some out else none

unfoldable pub base64_decode : Bytes → Option Bytes
unfolding decode_groups
base64_decode s = checked_utf8 (decode_groups s)

-- The function `base64.decode` of the scripts: `unwrap_or_default`.
unfoldable pub lua_base64_decode : Bytes → Bytes
unfolding base64_decode
lua_base64_decode s = elim (base64_decode s) [ none ↦ [] | some out ↦ out ]
