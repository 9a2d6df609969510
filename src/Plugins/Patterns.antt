-- ===== src/Plugins/Patterns.antt =====
-- src/plugins: what the plugins use of the patterns of Lua, on the bytes of a text. The classes
-- exclude the character that follows them, so each match is the greedy one without backtracking,
-- except in `%s+(.+)`, where it is written out.
use dgsw_class_pg_proxy.Prelude.{
  ℕ, String, Bool, true, false, not, ◌&&◌, ◌||◌, Option, none, some, [], ◌∷◌, ◌==◌, leb, str_eq,
  if◌then◌else◌,
}
use dgsw_class_pg_proxy.Prelude.Text.{Bytes, codes, as_bytes}

-- `^…` and `^…$`.
pub data Pattern : Type 0 where
  begins whole : String → Pattern

unfoldable pub starts_with : Bytes → Bytes → Bool
starts_with [] s = true
starts_with (p ∷ ps) [] = false
starts_with (p ∷ ps) (c ∷ s) = (c == p) && starts_with ps s

abbrev pub matches : Pattern → String → Bool
matches (begins p) path = starts_with (codes p) (as_bytes path)
matches (whole p) path = str_eq path p

-- `%s`, by `isspace` of the C locale.
abbrev pub is_space : ℕ → Bool
is_space c = (leb 9 c && leb c 13) || (c == 32)

abbrev pub is_empty : Bytes → Bool
is_empty [] = true
is_empty (c ∷ s) = false

-- `%s*` at the beginning: what is left after it.
unfoldable pub skip_spaces : Bytes → Bytes
skip_spaces [] = []
skip_spaces (c ∷ s) = let rest = skip_spaces s in if is_space c then rest else c ∷ s

unfoldable pub drop_spaces : Bytes → Bytes
drop_spaces [] = []
drop_spaces (c ∷ s) =
    let rest = drop_spaces s in if is_space c && is_empty rest then [] else c ∷ rest

-- `^%s*(.-)%s*$`.
unfoldable pub trim : Bytes → Bytes
unfolding skip_spaces drop_spaces
trim s = drop_spaces (skip_spaces s)

abbrev last : Bytes → Option Bytes
last [] = none
last (c ∷ []) = some (c ∷ [])
last (c ∷ d ∷ s) = last (d ∷ s)

abbrev or_last : Bytes → Bytes → Option Bytes
or_last [] s = last s
or_last (c ∷ rest) s = some (c ∷ rest)

-- `^%s+(.+)`. Where only spaces follow, `%s+` gives the last of them back.
unfoldable pub after_spaces : Bytes → Option Bytes
unfolding skip_spaces
after_spaces [] = none
after_spaces (c ∷ s) = if is_space c then or_last (skip_spaces s) s else none

-- What follows one of two first words, as `^ApiKey` and `^[Bb]earer`.
unfoldable pub after_word : Bytes → Bytes → Option Bytes
after_word [] s = some s
after_word (p ∷ ps) [] = none
after_word (p ∷ ps) (c ∷ s) = let rest = after_word ps s in if c == p then rest else none

-- `([^q]+)q` and `([^q]*)q`: the bytes before the first `q`, and those after it.
unfoldable pub until : ℕ → Bytes → Option (Bytes × Bytes)
until q [] = none
until q (c ∷ s) =
    let rest = until q s in
    if c == q then some ([], s) else elim rest [ none ↦ none | some (a, b) ↦ some (c ∷ a, b) ]

abbrev pub free_of : ℕ → Bytes → Bool
free_of q [] = true
free_of q (c ∷ s) = not (c == q) && free_of q s

-- `==` of two texts of Lua.
unfoldable pub same_bytes : Bytes → Bytes → Bool
same_bytes [] [] = true
same_bytes (a ∷ s) (b ∷ t) = (a == b) && same_bytes s t
same_bytes _ _ = false
