-- ===== src/Lua/Json/Reader.antt =====
-- A reader of JSON as RFC 8259 describes it, independent of the writer: no white space, no escapes
-- but those of a quote, a backslash and a slash, no exponents, and zeros may lead a number.
use dgsw_class_pg_proxy.Prelude.{
  ℕ, zero, suc, Bool, true, false, ◌&&◌, ◌||◌, Option, none, some, [], ◌∷◌, all, leb, ltb, ◌==◌,
  if◌then◌else◌, length, ◌*◌, ◌+◌,
}
use dgsw_class_pg_proxy.Prelude.Text.{Bytes, codes}

mutual
  pub data Json : Type 0 where
    null : Json
    bool : Bool → Json
    num str : Bytes → Json
    array : Items → Json
    object : Fields → Json

  pub data Items : Type 0 where
    no_items : Items
    item : Json → Items → Items

  pub data Fields : Type 0 where
    no_fields : Fields
    field : Bytes → Json → Fields → Fields

infixl 5 ◌>>=◌
abbrev ◌>>=◌ {ℓ κ} : {A : Type ℓ} {B : Type κ} → Option A → (A → Option B) → Option B
none >>= f = none
some a >>= f = f a

-- The rest after a character.
unfoldable pub strip : ℕ → Bytes → Option Bytes
strip c [] = none
strip c (b ∷ bs) = if b == c then some bs else none

unfoldable pub word : Bytes → Json → Bytes → Option (Json × Bytes)
unfolding strip
word [] v bs = some (v, bs)
word (c ∷ cs) v bs = strip c bs >>= word cs v

abbrev pub escapable : ℕ → Bool
escapable c = c == b'"' || c == b'\\' || c == b'/'

abbrev pub cons_first : ℕ → Option (Bytes × Bytes) → Option (Bytes × Bytes)
cons_first c none = none
cons_first c (some (s, rest)) = some (c ∷ s, rest)

-- What follows a quote, up to the next one. A control character is refused.
unfoldable mutual
  pub read_chars : Bytes → Option (Bytes × Bytes)
  read_chars [] = none
  read_chars (c ∷ bs) =
      let more = read_chars bs in
      let escaped = read_escaped bs in
      if c == b'"'
      then some ([], bs)
      else if c == b'\\'
      then escaped
      else if ltb c 0x20
      then none
      else cons_first c more

  pub read_escaped : Bytes → Option (Bytes × Bytes)
  read_escaped [] = none
  read_escaped (c ∷ bs) =
      let more = read_chars bs in if escapable c then cons_first c more else none

abbrev pub is_digit : ℕ → Bool
is_digit c = leb b'0' c && leb c b'9'

abbrev pub is_number_char : ℕ → Bool
is_number_char c = is_digit c || c == b'-' || c == b'.'

unfoldable pub fraction : Bool → Bytes → Bool
fraction seen [] = seen
fraction seen (c ∷ cs) = is_digit c && fraction true cs

unfoldable pub unsigned : Bool → Bytes → Bool
unfolding fraction
unsigned seen [] = seen
unsigned seen (c ∷ cs) =
    if is_digit c then unsigned true cs else c == b'.' && seen && fraction false cs

unfoldable pub signed : Bytes → Bool
unfolding unsigned
signed [] = false
signed (c ∷ cs) = if c == b'-' then unsigned false cs else unsigned false (c ∷ cs)

abbrev pub is_number : Bytes → Bool
is_number t = all is_number_char t && signed t

abbrev cons_span : ℕ → Bytes × Bytes → Bytes × Bytes
cons_span c (t, rest) = (c ∷ t, rest)

-- The longest row of characters of a number.
unfoldable pub span_number : Bytes → Bytes × Bytes
span_number [] = ([], [])
span_number (c ∷ bs) =
    let more = span_number bs in if is_number_char c then cons_span c more else ([], c ∷ bs)

unfoldable pub read_number : Bytes → Option (Json × Bytes)
unfolding span_number signed
read_number bs = let (t, rest) = span_number bs in if is_number t then some (num t, rest) else none

abbrev pub separator : Bool → Bytes → Option Bytes
separator true bs = some bs
separator false bs = strip b',' bs

-- What a call leaves is no structural part of its input, so each call costs a unit of fuel.
unfoldable mutual
  unfolding strip word read_chars read_number

  pub read_value : ℕ → Bytes → Option (Json × Bytes)
  read_value zero bs = none
  read_value (suc f) [] = none
  read_value (suc f) (c ∷ bs) =
      let items = read_items f true bs in
      let fields = read_fields f true bs in
      if c == b'"'
      then read_chars bs >>= (λ (s, rest). some (str s, rest))
      else if c == b'['
      then items >>= (λ (xs, rest). some (array xs, rest))
      else if c == b'{'
      then fields >>= (λ (fs, rest). some (object fs, rest))
      else if c == b'n'
      then word (codes "ull") null bs
      else if c == b't'
      then word (codes "rue") (bool true) bs
      else if c == b'f'
      then word (codes "alse") (bool false) bs
      else read_number (c ∷ bs)

  pub read_items : ℕ → Bool → Bytes → Option (Items × Bytes)
  read_items zero first bs = none
  read_items (suc f) first bs =
      let more = do
        bs' ← separator first bs
        (v, rest) ← read_value f bs'
        (vs, rest') ← read_items f false rest
        some (item v vs, rest')
      in elim (strip b']' bs) [ some rest ↦ some (no_items, rest) | none ↦ more ]

  pub read_fields : ℕ → Bool → Bytes → Option (Fields × Bytes)
  read_fields zero first bs = none
  read_fields (suc f) first bs =
      let more = do
        bs' ← separator first bs
        quote ← strip b'"' bs'
        (key, rest) ← read_chars quote
        value ← strip b':' rest
        (v, rest') ← read_value f value
        (fs, rest'') ← read_fields f false rest'
        some (field key v fs, rest'')
      in elim (strip b'}' bs) [ some rest ↦ some (no_fields, rest) | none ↦ more ]

-- A whole text. Every call costs a unit and takes a character, or ends.
unfoldable pub read_json : Bytes → Option Json
unfolding read_value
read_json bs = elim (read_value (2 * length bs + 3) bs) [
  | some (v, []) ↦ some v
  | some (v, c ∷ rest) ↦ none
  | none ↦ none
]
