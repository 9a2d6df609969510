-- ===== src/Lua/Json/RoundTrip.antt =====
-- engine.rs: what `lua_value_to_json` writes is JSON, and reads as the value.
use dgsw_class_pg_proxy.Prelude.{
  ℕ, zero, suc, ◌+◌, ◌*◌, ◌≡◌, refl, sym, ap, ◌∙◌, subst, true, inl, inr, Option, some, List, [],
  ◌∷◌, ◌++◌, All, ltb, Bool-cases, if◌then◌else◌, arith, length, length-append,
}
use mathlib.Core.List.{append_assoc, append-nil}
use dgsw_class_pg_proxy.Prelude.Text.{Bytes, codes}
use dgsw_class_pg_proxy.Lua.Base64.{is_utf8}
use dgsw_class_pg_proxy.Lua.Json.{
  LuaValue, Pairs, nil, other, boolean, integer, number, string, table, no_pairs, pair, quoted,
  escape, integer_text, index_of, has_index, Entry, item_at, items_text, fields_text, table_text,
  lua_value_to_json, entries_of,
}
use dgsw_class_pg_proxy.Lua.Json.Reader.{Json, item, is_number, read_value, read_json}
use dgsw_class_pg_proxy.Lua.Json.Texts.{is_plain, is_number-integer_text}
use dgsw_class_pg_proxy.Lua.Json.Parts.{
  Reads, Reads-null, Reads-bool, Reads-quoted, Reads-number, more_text, items_from, read_all, Match,
  fields_of, read_first_fields,
}

-- The text of a key, where it is a text.
unfoldable pub key_text : LuaValue → Bytes
key_text (string s) = s
key_text _ = []

unfoldable pub value_at : List (Option ℕ × Json) → ℕ → Json
value_at [] i = Json.null
value_at ((j, v) ∷ members) i = if has_index i j then v else value_at members i

-- What a Lua value means in JSON: `nil` and what JSON has nothing for is null, a table with a
-- length is an array of its places from 1 on, and any other table is an object.
unfoldable mutual
  unfolding key_text value_at

  pub meaning : LuaValue → Json
  meaning nil = Json.null
  meaning other = Json.null
  meaning (boolean b) = Json.bool b
  meaning (integer i) = Json.num (integer_text i)
  meaning (number t) = Json.num t
  meaning (string s) = Json.str (if is_utf8 s then s else [])
  meaning (table zero ps) = Json.object (fields_of (named ps))
  meaning (table (suc n) ps) =
      Json.array (item (value_at (placed ps) 1) (items_from (value_at (placed ps)) 2 n))

  pub named : Pairs → List (Bytes × Json)
  named no_pairs = []
  named (pair k v ps) = (key_text k, meaning v) ∷ named ps

  pub placed : Pairs → List (Option ℕ × Json)
  placed no_pairs = []
  placed (pair k v ps) = (index_of k, meaning v) ∷ placed ps

abbrev pub PlainText : Bytes → Type 0
PlainText s = All (λ c. is_plain c ≡ true) s

abbrev PlainKey : LuaValue → Type 0
PlainKey (string s) = (is_utf8 s ≡ true) × PlainText s
PlainKey _ = ⊥

abbrev pub PlainKeys : Pairs → Type 0
PlainKeys no_pairs = Unit {0}
PlainKeys (pair k v ps) = PlainKey k × PlainKeys ps

-- Texts without backslashes and control characters, floats that are numbers of JSON, and texts for
-- the keys of every table that has no length.
unfoldable mutual
  pub IsPlain : LuaValue → Type 0
  IsPlain nil = Unit {0}
  IsPlain other = Unit {0}
  IsPlain (boolean b) = Unit {0}
  IsPlain (integer i) = Unit {0}
  IsPlain (number t) = is_number t ≡ true
  IsPlain (string s) = PlainText s
  IsPlain (table zero ps) = PlainKeys ps × PlainValues ps
  IsPlain (table (suc n) ps) = PlainValues ps

  pub PlainValues : Pairs → Type 0
  PlainValues no_pairs = Unit {0}
  PlainValues (pair k v ps) = IsPlain v × PlainValues ps

items_text-more :
    (es : List Entry) (i n : ℕ)
    → items_text es i (suc n) ≡ item_at es i ++ more_text (item_at es) (i + 1) n
unfolding items_text more_text
items_text-more es i zero = sym (append-nil (item_at es i))
items_text-more es i (suc n) = ap (λ z. item_at es i ++ (b',' ∷ z)) (items_text-more es (i + 1) n)

table_text-suc :
    (n : ℕ) (es : List Entry)
    → table_text (suc n) es ≡ b'[' ∷ (items_text es 1 (suc n) ++ (b']' ∷ []))
unfolding table_text
table_text-suc n es = let some_item : ltb 0 (suc n) ≡ true = ground arith in rw some_item

Reads-array :
    (es : List Entry) (value : ℕ → Json) (n : ℕ)
    → ((i : ℕ) → Reads (item_at es i) (value i))
    → Reads
        (b'[' ∷ (items_text es 1 (suc n) ++ (b']' ∷ [])))
        (Json.array (item (value 1) (items_from value 2 n)))
unfolding read_value
Reads-array es value n reads zero rest enough ends = absurd (omega arith)
Reads-array es value n reads (suc f) rest enough ends =
    let size = length-append (items_text es 1 (suc n)) (b']' ∷ []) in
    let first = length-append (item_at es 1) (more_text (item_at es) 2 n) in
    let text = items_text-more es 1 n in
    let inside =
      read_all (item_at es) value reads n 1 f rest
        (omega (arith, size, first, ap (λ (z : Bytes). length z) text)) in
    rw (append_assoc (items_text es 1 (suc n)) (b']' ∷ []) rest) (
      rw text (
        rw (append_assoc (item_at es 1) (more_text (item_at es) 2 n) (b']' ∷ rest))
          (rw inside refl)))

Reads-object :
    (es : List Entry) (ms : List (Bytes × Json))
    → Match es ms
    → Reads (table_text zero es) (Json.object (fields_of ms))
unfolding table_text read_value
Reads-object es ms m zero rest enough ends = absurd (omega arith)
Reads-object es ms m (suc f) rest enough ends =
    let size = length-append (fields_text es) (b'}' ∷ []) in
    let inside = read_first_fields es ms f rest m (omega (arith, size)) in
    rw (append_assoc (fields_text es) (b'}' ∷ []) rest) (rw inside refl)

Reads-cons :
    (j : Option ℕ) (key value : Bytes) (v : Json) (es : List Entry) (ms : List (Option ℕ × Json))
    → Reads value v
    → ((i : ℕ) → Reads (item_at es i) (value_at ms i))
    → (i : ℕ) → Reads (item_at ((j, key, value) ∷ es) i) (value_at ((j, v) ∷ ms) i)
unfolding item_at value_at
Reads-cons j key value v es ms first others i = elim (Bool-cases (has_index i j)) [
  | inl here ↦ rw here first
  | inr later ↦ rw later (others i)
]

Reads-text :
    (s : Bytes)
    → PlainText s
    → Reads (if is_utf8 s then quoted s else codes "\"\"") (Json.str (if is_utf8 s then s else []))
unfolding quoted escape
Reads-text s plain = elim (Bool-cases (is_utf8 s)) [
  | inl text ↦ rw text (Reads-quoted s plain)
  | inr bytes ↦ rw bytes (Reads-quoted [] tt)
]

mutual
  unfolding lua_value_to_json meaning IsPlain item_at value_at key_text

  Reads-value : (v : LuaValue) → IsPlain v → Reads (lua_value_to_json v) (meaning v)
  Reads-value nil h = Reads-null
  Reads-value other h = Reads-null
  Reads-value (boolean b) h = Reads-bool b
  Reads-value (integer i) h = Reads-number (integer_text i) (is_number-integer_text i)
  Reads-value (number t) h = Reads-number t h
  Reads-value (string s) h = Reads-text s h
  Reads-value (table zero ps) (keys, values) =
      Reads-object (entries_of ps) (named ps) (Match-named ps keys values)
  Reads-value (table (suc n) ps) h =
      subst (λ t. Reads t (meaning (table (suc n) ps))) (sym (table_text-suc n (entries_of ps)))
        (Reads-array (entries_of ps) (value_at (placed ps)) n (Reads-placed ps h))

  Match-named : (ps : Pairs) → PlainKeys ps → PlainValues ps → Match (entries_of ps) (named ps)
  Match-named no_pairs keys values = tt
  Match-named (pair (string s) v ps) ((text, plain), keys) (h, values) =
      (rw text refl, plain, Reads-value v h, Match-named ps keys values)
  Match-named (pair nil v ps) (key, keys) values = absurd key
  Match-named (pair other v ps) (key, keys) values = absurd key
  Match-named (pair (boolean b) v ps) (key, keys) values = absurd key
  Match-named (pair (integer i) v ps) (key, keys) values = absurd key
  Match-named (pair (number t) v ps) (key, keys) values = absurd key
  Match-named (pair (table n t) v ps) (key, keys) values = absurd key

  Reads-placed :
      (ps : Pairs)
      → PlainValues ps
      → (i : ℕ) → Reads (item_at (entries_of ps) i) (value_at (placed ps) i)
  Reads-placed no_pairs h i = Reads-null
  Reads-placed (pair k v ps) (h, hs) i =
      Reads-cons (index_of k) (lua_value_to_json k) (lua_value_to_json v) (meaning v)
        (entries_of ps) (placed ps) (Reads-value v h) (Reads-placed ps hs) i

-- A value is plain if its texts have neither backslashes nor control characters, its floats are
-- written as numbers of JSON, and its tables without a length have texts for keys. What is written
-- for a plain value is one whole text of JSON, and it is read as what the value means.
pub read_json-lua_value_to_json :
    (v : LuaValue) → IsPlain v → read_json (lua_value_to_json v) ≡ some (meaning v)
unfolding read_json
read_json-lua_value_to_json v h =
    let text = lua_value_to_json v in
    let whole : read_value (2 * length text + 3) text ≡ some (meaning v, []) =
      ap (read_value (2 * length text + 3)) (sym (append-nil text))
      ∙ Reads-value v h (2 * length text + 3) [] (omega arith) refl in
    rw (whole, read_json)
