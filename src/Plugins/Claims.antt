-- ===== src/Plugins/Claims.antt =====
-- src/plugins/lib/jwt.lua, `parse_json_obj`: the claims of a token, by three patterns over its
-- text. Lua's numbers are a parameter.
use dgsw_class_pg_proxy.Prelude.{
  ℕ, zero, suc, ◌-◌, Bool, ◌&&◌, ◌||◌, Option, none, some, List, [], ◌∷◌, length, ◌==◌, leb,
  if◌then◌else◌,
}
use dgsw_class_pg_proxy.Prelude.Text.{Bytes, codes}
use dgsw_class_pg_proxy.Plugins.Patterns.{is_empty, skip_spaces, after_word, until, same_bytes}

-- What Lua does with numbers: `tonumber` of a text, `<` with whole numbers on either side, and the
-- text of a number.
pub record LuaNumbers : Type 1 where
  pub Number : Type 0
  pub tonumber : Bytes → Option Number
  pub less_than : Number → ℕ → Bool
  pub more_than : Number → ℕ → Bool
  pub number_text : Number → Bytes

-- A match of a pattern that has the captures `key` and `val`, and the text after it.
pub record Match : Type 0 where
  pub key : Bytes
  pub val : Bytes
  pub rest : Bytes

-- `"([^"]+)"%s*:%s*`: the key, and the text after the match.
abbrev colon : Bytes → Bytes → Option (Bytes × Bytes)
colon key [] = none
colon key (c ∷ s) = if c == 58 then some (key, skip_spaces s) else none

abbrev quoted : Option (Bytes × Bytes) → Option (Bytes × Bytes)
quoted none = none
quoted (some (key, s)) = if is_empty key then none else colon key (skip_spaces s)

unfoldable pub key_at : Bytes → Option (Bytes × Bytes)
unfolding until skip_spaces
key_at [] = none
key_at (c ∷ s) = if c == 34 then quoted (until 34 s) else none

-- `"([^"]*)"`.
abbrev text_val : Bytes × Bytes → Option Match
text_val (key, []) = none
text_val (key, c ∷ s) =
    if c == 34
    then elim (until 34 s) [
      | none ↦ none
      | some (val, rest) ↦ some (record { key = key; val = val; rest = rest })
    ]
    else none

-- `[%d%.%-]+`.
abbrev is_numeral : ℕ → Bool
is_numeral c = (leb 48 c && leb c 57) || (c == 46) || (c == 45)

unfoldable pub numerals : Bytes → Bytes × Bytes
numerals [] = ([], [])
numerals (c ∷ s) =
    let (run, rest) = numerals s in if is_numeral c then (c ∷ run, rest) else ([], c ∷ s)

abbrev number_val : Bytes × Bytes → Option Match
number_val (key, s) =
    let (run, rest) = numerals s in
    if is_empty run then none else some (record { key = key; val = run; rest = rest })

-- `(true|false)`: Lua has no alternatives, so this is a text of eleven characters.
abbrev boolean_val : Bytes × Bytes → Option Match
boolean_val (key, s) = elim (after_word (codes "true|false") s) [
  | none ↦ none
  | some rest ↦ some (record { key = key; val = codes "true|false"; rest = rest })
]

abbrev pair_at : (Bytes × Bytes → Option Match) → Bytes → Option Match
pair_at val s = elim (key_at s) [ none ↦ none | some found ↦ val found ]

-- The loop over `gmatch`: the matches from left to right. The number counts the bytes that are
-- still inside the last match.
unfoldable pub gmatch : (Bytes → Option Match) → ℕ → Bytes → List Match
gmatch at skip [] = []
gmatch at (suc skip) (c ∷ s) = gmatch at skip s
gmatch at zero (c ∷ s) = elim (at (c ∷ s)) [
  | none ↦ gmatch at 0 s
  | some m ↦ m ∷ gmatch at (length s - length m.rest) s
]

module _ (numbers : LuaNumbers) where
  open numbers use {Number, tonumber, less_than, more_than, number_text}

  pub data Value : Type 0 where
    text : Bytes → Value
    number : Number → Value
    boolean : Bool → Value

  -- A table as its assignments, the last one first; `none` stands for `nil`.
  abbrev pub Fields : Type 0
  Fields = List (Bytes × Option Value)

  unfoldable pub field : Bytes → Fields → Option Value
  unfolding same_bytes
  field key [] = none
  field key ((k, v) ∷ fields) = if same_bytes k key then v else field key fields

  unfoldable pub assign : (Bytes → Option Value) → List Match → Fields → Fields
  assign read [] fields = fields
  assign read (m ∷ ms) fields = assign read ms ((m.key, read m.val) ∷ fields)

  abbrev as_number : Bytes → Option Value
  as_number val = elim (tonumber val) [ none ↦ none | some n ↦ some (number n) ]

  unfoldable pub parse_json_obj : Bytes → Fields
  unfolding assign gmatch key_at numerals after_word
  parse_json_obj s =
      let texts = assign (λ val. some (text val)) (gmatch (pair_at text_val) 0 s) [] in
      let both = assign as_number (gmatch (pair_at number_val) 0 s) texts in
      assign (λ val. some (boolean (same_bytes val (codes "true"))))
        (gmatch (pair_at boolean_val) 0 s) both
