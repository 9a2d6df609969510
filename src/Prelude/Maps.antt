-- ===== src/Prelude/Maps.antt =====
-- `HashMap<String, V>` as an association list in the order in which it would be iterated.
-- Rust leaves that order unspecified; no theorem of the development depends on it.
use Prim.Native.String.{String}
use mathlib.Core.Path.{◌≡◌, refl}
use mathlib.Core.Option.{Option, none, some}
use mathlib.Core.List.{List, [], ◌∷◌}
use native.Mathlib.Omega.{arith}
use dgsw_class_pg_proxy.Prelude.Tests.{if◌then◌else◌, str_eq, str_eq_iff}

abbrev pub StrMap {ℓ} : Type ℓ → Type ℓ
StrMap V = List (String × V)

module _ {ℓ} {V : Type ℓ} where
  unfoldable pub lookup : String → StrMap V → Option V
  lookup key [] = none
  lookup key ((name, value) ∷ entries) = if str_eq name key then some value else lookup key entries

  -- A new key goes to the end, and a known one keeps its place.
  unfoldable pub insert : String → V → StrMap V → StrMap V
  insert key value [] = (key, value) ∷ []
  insert key value ((name, old) ∷ entries) =
      if str_eq name key then (name, value) ∷ entries else (name, old) ∷ insert key value entries

  pub lookup-insert :
      (key asked : String) (value : V) (entries : StrMap V)
      → lookup asked (insert key value entries)
        ≡ (if str_eq key asked then some value else lookup asked entries)
  unfolding lookup insert
  lookup-insert key asked value [] = refl
  lookup-insert key asked value ((name, old) ∷ entries) =
      let rest = lookup-insert key asked value entries in
      ground (arith, rest, str_eq_iff name key, str_eq_iff name asked, str_eq_iff key asked)
