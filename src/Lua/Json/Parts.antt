-- ===== src/Lua/Json/Parts.antt =====
-- engine.rs: reading back the parts of what `lua_value_to_json` writes: words, texts, numbers,
-- arrays, objects.
use dgsw_class_pg_proxy.Prelude.{
  ℕ, zero, suc, ◌+◌, ◌*◌, ◌≤◌, ◌<◌, ◌≡◌, refl, sym, ap, Bool, true, false, inl, inr, Option, none,
  some, List, [], ◌∷◌, ◌++◌, All, ◌==◌, Bool-cases, if◌then◌else◌, arith, length, length-append,
}
use mathlib.Core.List.{append_assoc, append-nil}
use dgsw_class_pg_proxy.Prelude.Text.{Bytes, codes}
use dgsw_class_pg_proxy.Lua.Json.{escape, quoted, Entry, fields_text}
use dgsw_class_pg_proxy.Lua.Json.Reader
use dgsw_class_pg_proxy.Lua.Json.Reader.{
  Json, Items, Fields, no_items, item, no_fields, field, strip, word, is_number, is_number_char,
  read_value, read_items, read_fields, read_json, read_chars, read_number,
}
use dgsw_class_pg_proxy.Lua.Json.Texts.{is_plain, read_chars-escape, goes_on, read_number-append}

-- The text is read as the value off the front of any input that does not go on with a number.
abbrev pub Reads : Bytes → Json → Type 0
Reads text v =
    (f : ℕ) (rest : Bytes)
    → 2 * length text < f
    → goes_on rest ≡ false
    → read_value f (text ++ rest) ≡ some (v, rest)

Reads-word :
    (c : ℕ) (cs : Bytes) (v : Json)
    → ((f : ℕ) (rest : Bytes) → read_value (suc f) (c ∷ (cs ++ rest)) ≡ some (v, rest))
    → Reads (c ∷ cs) v
Reads-word c cs v h zero rest enough ends = absurd (omega arith)
Reads-word c cs v h (suc f) rest enough ends = h f rest

pub Reads-null : Reads (codes "null") Json.null
Reads-null =
    Reads-word b'n' (codes "ull") Json.null
      (λ f rest. unfold read_value in unfold word in unfold strip in refl)

pub Reads-bool : (b : Bool) → Reads (if b then codes "true" else codes "false") (Json.bool b)
Reads-bool true =
    Reads-word b't' (codes "rue") (Json.bool true)
      (λ f rest. unfold read_value in unfold word in unfold strip in refl)
Reads-bool false =
    Reads-word b'f' (codes "alse") (Json.bool false)
      (λ f rest. unfold read_value in unfold word in unfold strip in refl)

pub Reads-quoted : (s : Bytes) → All (λ c. is_plain c ≡ true) s → Reads (quoted s) (Json.str s)
unfolding quoted read_value
Reads-quoted s h zero rest enough ends = absurd (omega arith)
Reads-quoted s h (suc f) rest enough ends =
    rw (append_assoc (escape s) (b'"' ∷ []) rest) (rw (read_chars-escape s rest h) refl)

number_head : (c : ℕ) (cs : Bytes) → is_number (c ∷ cs) ≡ true → is_number_char c ≡ true
number_head c cs h = ground (arith, h)

pub Reads-number : (t : Bytes) → is_number t ≡ true → Reads t (Json.num t)
unfolding read_value Reader.signed
Reads-number t h zero rest enough ends = absurd (omega arith)
Reads-number [] h (suc f) rest enough ends = cc
Reads-number (c ∷ cs) h (suc f) rest enough ends =
    let head = number_head c cs h in
    let quote : (c == b'"') ≡ false = ground (arith, head) in
    let bracket : (c == b'[') ≡ false = ground (arith, head) in
    let brace : (c == b'{') ≡ false = ground (arith, head) in
    let n : (c == b'n') ≡ false = ground (arith, head) in
    let t : (c == b't') ≡ false = ground (arith, head) in
    let f : (c == b'f') ≡ false = ground (arith, head) in
    rw (quote, bracket, brace, n, t, f) (read_number-append (c ∷ cs) rest h ends)

-- A text that is read as a value has a first character, which closes no array.
Reads_pos : (text : Bytes) (v : Json) → Reads text v → 1 ≤ length text
unfolding read_value
Reads_pos [] v h = let e = h 1 [] (omega arith) refl in cc
Reads_pos (c ∷ text) v h = omega arith

not_closed :
    (f : ℕ) (bs : Bytes) (x : Json × Bytes) → read_value f bs ≡ some x → strip b']' bs ≡ none
unfolding read_value strip read_number Reader.span_number Reader.signed
not_closed zero bs x h = cc
not_closed (suc f) [] x h = refl
not_closed (suc f) (c ∷ bs) x h = elim (Bool-cases (c == b']')) [
  | inl close ↦
      let same : c ≡ b']' = ground arith in
      let bad : ◌≡◌ {A = Option (Json × Bytes)} none (some x) = rw same at h in cc
  | inr off ↦ rw off
]

-- The items of an array after the first one.
unfoldable pub more_text : (ℕ → Bytes) → ℕ → ℕ → Bytes
more_text text i zero = []
more_text text i (suc n) = b',' ∷ (text i ++ more_text text (i + 1) n)

-- The values at `n` places from `i` on.
unfoldable pub items_from : (ℕ → Json) → ℕ → ℕ → Items
items_from value i zero = no_items
items_from value i (suc n) = item (value i) (items_from value (i + 1) n)

module _ (text : ℕ → Bytes) (value : ℕ → Json) (reads : (i : ℕ) → Reads (text i) (value i)) where
  more-ends : (i n : ℕ) (rest : Bytes) → goes_on (more_text text i n ++ (b']' ∷ rest)) ≡ false
  unfolding more_text
  more-ends i zero rest = refl
  more-ends i (suc n) rest = refl

  read_more :
      (n i f : ℕ) (rest : Bytes)
      → 2 * length (more_text text i n) + 1 < f
      → read_items f false (more_text text i n ++ (b']' ∷ rest)) ≡ some (items_from value i n, rest)
  unfolding read_value more_text items_from strip
  read_more n i zero rest enough = absurd (omega arith)
  read_more zero i (suc f) rest enough = refl
  read_more (suc n) i (suc f) rest enough =
      let size = length-append (text i) (more_text text (i + 1) n) in
      let first =
        reads i f (more_text text (i + 1) n ++ (b']' ∷ rest)) (omega (arith, size))
          (more-ends (i + 1) n rest) in
      let others = read_more n (i + 1) f rest (omega (arith, size)) in
      rw (append_assoc (text i) (more_text text (i + 1) n) (b']' ∷ rest))
        (rw first (rw others refl))

  pub read_all :
      (n i f : ℕ) (rest : Bytes)
      → 2 * (length (text i) + length (more_text text (i + 1) n)) + 1 < f
      → read_items f true (text i ++ (more_text text (i + 1) n ++ (b']' ∷ rest)))
        ≡ some (item (value i) (items_from value (i + 1) n), rest)
  unfolding read_value
  read_all n i zero rest enough = absurd (omega arith)
  read_all n i (suc f) rest enough =
      let first =
        reads i f (more_text text (i + 1) n ++ (b']' ∷ rest)) (omega arith)
          (more-ends (i + 1) n rest) in
      let others =
        read_more n (i + 1) f rest (omega (arith, Reads_pos (text i) (value i) (reads i))) in
      let open_ = not_closed f (text i ++ (more_text text (i + 1) n ++ (b']' ∷ rest))) _ first in
      rw (open_, read_items) (rw first (rw others refl))

-- The entries of an object, and the keys and values that they stand for.
abbrev pub Match : List Entry → List (Bytes × Json) → Type 0
Match [] [] = Unit {0}
Match [] (m ∷ ms) = ⊥
Match (e ∷ es) [] = ⊥
Match ((j, key, value) ∷ es) ((k, v) ∷ ms) =
    (key ≡ quoted k) × All (λ c. is_plain c ≡ true) k × Reads value v × Match es ms

unfoldable pub fields_of : List (Bytes × Json) → Fields
fields_of [] = no_fields
fields_of ((k, v) ∷ ms) = field k v (fields_of ms)

pub more_fields : List Entry → Bytes
more_fields [] = []
more_fields ((j, key, value) ∷ es) = b',' ∷ (key ++ (b':' ∷ (value ++ more_fields es)))

fields-ends : (es : List Entry) (rest : Bytes) → goes_on (more_fields es ++ (b'}' ∷ rest)) ≡ false
unfolding more_fields
fields-ends [] rest = refl
fields-ends (e ∷ es) rest = refl

flat :
    (a b c d : Bytes)
    → ((a ++ (b'"' ∷ [])) ++ (b':' ∷ (b ++ c))) ++ d ≡ a ++ (b'"' ∷ b':' ∷ (b ++ (c ++ d)))
flat a b c d = simp append_assoc

read_more_fields :
    (es : List Entry) (ms : List (Bytes × Json)) (f : ℕ) (rest : Bytes)
    → Match es ms
    → 2 * length (more_fields es) + 1 < f
    → read_fields f false (more_fields es ++ (b'}' ∷ rest)) ≡ some (fields_of ms, rest)
unfolding read_value more_fields fields_of strip quoted
read_more_fields es ms zero rest m enough = absurd (omega arith)
read_more_fields [] [] (suc f) rest m enough = refl
read_more_fields [] (x ∷ ms) (suc f) rest m enough = absurd m
read_more_fields (e ∷ es) [] (suc f) rest m enough = absurd m
read_more_fields ((j, key, value) ∷ es) ((k, v) ∷ ms) (suc f) rest (ek, plain, reads, m) enough =
    let size = length-append value (more_fields es) in
    let size' = length-append key (b':' ∷ (value ++ more_fields es)) in
    let first =
      reads f (more_fields es ++ (b'}' ∷ rest)) (omega (arith, size, size'))
        (fields-ends es rest) in
    let others = read_more_fields es ms f rest m (omega (arith, size, size')) in
    rw ek (
      rw (flat (escape k) value (more_fields es) (b'}' ∷ rest))
        (rw (read_chars-escape k _ plain) (rw first (rw others refl))))

fields_text-cons :
    (j : Option ℕ) (key value : Bytes) (es : List Entry)
    → fields_text ((j, key, value) ∷ es) ≡ key ++ (b':' ∷ (value ++ more_fields es))
unfolding fields_text more_fields
fields_text-cons j key value [] = ap (λ z. key ++ (b':' ∷ z)) (sym (append-nil value))
fields_text-cons j key value ((j', key', value') ∷ es) =
    ap (λ z. key ++ (b':' ∷ (value ++ (b',' ∷ z)))) (fields_text-cons j' key' value' es)

-- The fields of an object from the first on.
pub read_first_fields :
    (es : List Entry) (ms : List (Bytes × Json)) (f : ℕ) (rest : Bytes)
    → Match es ms
    → 2 * length (fields_text es) + 1 < f
    → read_fields f true (fields_text es ++ (b'}' ∷ rest)) ≡ some (fields_of ms, rest)
unfolding read_value fields_of strip quoted
read_first_fields es ms zero rest m enough = absurd (omega arith)
read_first_fields [] [] (suc f) rest m enough = unfold fields_text in refl
read_first_fields [] (x ∷ ms) (suc f) rest m enough = absurd m
read_first_fields (e ∷ es) [] (suc f) rest m enough = absurd m
read_first_fields ((j, key, value) ∷ es) ((k, v) ∷ ms) (suc f) rest (ek, plain, reads, m) enough =
    let text = fields_text-cons j key value es in
    let enough' : 2 * length (key ++ (b':' ∷ (value ++ more_fields es))) < f =
      omega (arith, ap (λ (z : Bytes). length z) text) in
    let size = length-append value (more_fields es) in
    let size' = length-append key (b':' ∷ (value ++ more_fields es)) in
    let first =
      reads f (more_fields es ++ (b'}' ∷ rest)) (omega (arith, size, size'))
        (fields-ends es rest) in
    let others = read_more_fields es ms f rest m (omega (arith, size, size')) in
    rw text (
      rw ek (
        rw (flat (escape k) value (more_fields es) (b'}' ∷ rest))
          (rw (read_chars-escape k _ plain) (rw first (rw others refl)))))
