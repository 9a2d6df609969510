-- ===== src/Lua/Json.antt =====
-- src/lua/engine.rs, `lua_value_to_json`. A Lua value is a tree: a table that holds itself, on
-- which the function does not end, is outside the model, and so are metatables. A text is the list
-- of its bytes.
pub mod Reader
pub mod Texts
pub mod Parts
pub mod RoundTrip
use dgsw_class_pg_proxy.Prelude.{
  ℕ, zero, suc, ◌+◌, Bool, true, false, Option, none, some, List, [], ◌∷◌, ◌++◌, ltb, ◌==◌,
  if◌then◌else◌,
}
use dgsw_class_pg_proxy.Prelude.Text.{Bytes, codes, decimal}
use dgsw_class_pg_proxy.Lua.Base64.{is_utf8}

-- A Lua integer; `negsuc n` is `- (n + 1)`.
pub data ℤ : Type 0 where
  pos negsuc : ℕ → ℤ

-- A float stands as the text that the standard library's `to_string` makes of it. A table has its
-- `raw_len` and its pairs in the order in which `pairs` goes through them.
mutual
  pub data LuaValue : Type 0 where
    nil other : LuaValue
    boolean : Bool → LuaValue
    integer : ℤ → LuaValue
    number string : Bytes → LuaValue
    table : ℕ → Pairs → LuaValue

  pub data Pairs : Type 0 where
    no_pairs : Pairs
    pair : LuaValue → LuaValue → Pairs → Pairs

-- `replace('"', "\\\"")`.
unfoldable pub escape : Bytes → Bytes
escape [] = []
escape (b ∷ bs) = if b == b'"' then b'\\' ∷ b'"' ∷ escape bs else b ∷ escape bs

unfoldable pub quoted : Bytes → Bytes
unfolding escape
quoted s = b'"' ∷ (escape s ++ (b'"' ∷ []))

unfoldable pub integer_text : ℤ → Bytes
integer_text (pos n) = decimal n
integer_text (negsuc n) = b'-' ∷ decimal (n + 1)

-- The place that a key is in a sequence.
abbrev pub index_of : LuaValue → Option ℕ
index_of (integer (pos i)) = some i
index_of _ = none

-- A pair with its key and its value as texts.
abbrev pub Entry : Type 0
Entry = Option ℕ × Bytes × Bytes

abbrev pub has_index : ℕ → Option ℕ → Bool
has_index i none = false
has_index i (some j) = j == i

-- The text of `t[i]`, which is `nil` where the table has no such key.
unfoldable pub item_at : List Entry → ℕ → Bytes
item_at [] i = codes "null"
item_at ((j, key, value) ∷ entries) i = if has_index i j then value else item_at entries i

-- `(1..=len)` from an index on.
unfoldable pub items_text : List Entry → ℕ → ℕ → Bytes
unfolding item_at
items_text entries i zero = []
items_text entries i (suc zero) = item_at entries i
items_text entries i (suc (suc n)) =
    item_at entries i ++ (b',' ∷ items_text entries (i + 1) (suc n))

unfoldable pub fields_text : List Entry → Bytes
fields_text [] = []
fields_text ((j, key, value) ∷ []) = key ++ (b':' ∷ value)
fields_text ((j, key, value) ∷ next ∷ entries) =
    key ++ (b':' ∷ (value ++ (b',' ∷ fields_text (next ∷ entries))))

unfoldable pub table_text : ℕ → List Entry → Bytes
unfolding items_text fields_text
table_text len entries =
    if ltb 0 len
    then b'[' ∷ (items_text entries 1 len ++ (b']' ∷ []))
    else b'{' ∷ (fields_text entries ++ (b'}' ∷ []))

unfoldable mutual
  unfolding quoted integer_text table_text

  pub lua_value_to_json : LuaValue → Bytes
  lua_value_to_json nil = codes "null"
  lua_value_to_json other = codes "null"
  lua_value_to_json (boolean b) = if b then codes "true" else codes "false"
  lua_value_to_json (integer i) = integer_text i
  lua_value_to_json (number text) = text
  lua_value_to_json (string s) = if is_utf8 s then quoted s else codes "\"\""
  lua_value_to_json (table len ps) = table_text len (entries_of ps)

  pub entries_of : Pairs → List Entry
  entries_of no_pairs = []
  entries_of (pair k v ps) = (index_of k, lua_value_to_json k, lua_value_to_json v) ∷ entries_of ps
