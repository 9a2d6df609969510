-- ===== src/Prelude/Text.antt =====
-- Texts and their bytes: ASCII literals, UTF-8, decimal numbers.
use Prim.Native.Nat.{ℕ, zero, suc, ◌+◌, ◌/◌, ◌%◌}
use Prim.Native.Char.{Char, code}
use Prim.Native.String.{String}
use mathlib.Core.List.{List, [], ◌∷◌, ◌++◌}
use dgsw_class_pg_proxy.Prelude.Tests.{ltb, ◌==◌, if◌then◌else◌}

abbrev pub Bytes : Type 0
Bytes = List ℕ

-- The bytes of a text of ASCII characters.
abbrev pub codes : String → Bytes
codes String.[] = []
codes (String.◌∷◌ c s) = code c ∷ codes s

unfoldable pub utf8_char : ℕ → Bytes
utf8_char c =
    if ltb c 0x80
    then c ∷ []
    else if ltb c 0x800
    then (0xc0 + c / 64) ∷ (0x80 + c % 64) ∷ []
    else if ltb c 0x10000
    then (0xe0 + c / 4096) ∷ (0x80 + c / 64 % 64) ∷ (0x80 + c % 64) ∷ []
    else (0xf0 + c / 262144) ∷ (0x80 + c / 4096 % 64) ∷ (0x80 + c / 64 % 64) ∷ (0x80 + c % 64) ∷ []

-- `s.as_bytes()`.
unfoldable pub as_bytes : String → Bytes
unfolding utf8_char
as_bytes String.[] = []
as_bytes (String.◌∷◌ c s) = utf8_char (code c) ++ as_bytes s

unfoldable pub decimal_from : ℕ → ℕ → Bytes
decimal_from zero n = []
decimal_from (suc fuel) n =
    let more = decimal_from fuel (n / 10) ++ (48 + n % 10) ∷ [] in
    if ltb n 10 then (48 + n) ∷ [] else more

-- `n.to_string()`: each round divides by ten, so `n + 1` rounds are enough.
unfoldable pub decimal : ℕ → Bytes
unfolding decimal_from
decimal n = decimal_from (suc n) n

strip_slash : Char → String → String
strip_slash c String.[] = if code c == b'/' then String.[] else String.◌∷◌ c String.[]
strip_slash c (String.◌∷◌ d t) = String.◌∷◌ c (String.◌∷◌ d t)

-- `s.trim_end_matches('/')`.
unfoldable pub trim_end_slashes : String → String
unfolding strip_slash
trim_end_slashes String.[] = String.[]
trim_end_slashes (String.◌∷◌ c s) = strip_slash c (trim_end_slashes s)
