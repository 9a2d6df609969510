-- ===== src/Lua/Sources.antt =====
-- src/lua/engine.rs, `PluginSources`: the sources of the plugins of a pipeline. The file system is
-- a parameter that answers a file's text, or `none` on an error.
pub mod Laws
use Prim.Native.Char.{code}
use Prim.Native.String
use dgsw_class_pg_proxy.Prelude.{
  ℕ, String, Bool, true, false, ◌||◌, Option, none, some, List, [], ◌∷◌, ◌==◌, concat,
  if◌then◌else◌,
}
use dgsw_class_pg_proxy.Prelude.Maps.{StrMap, insert}
use dgsw_class_pg_proxy.Config.{PluginsConfig}

pub record PluginSources : Type 0 where
  pub pipeline : List String
  pub sources : StrMap String

abbrev is_absolute : String → Bool
is_absolute String.[] = false
is_absolute (String.◌∷◌ c s) = code c == b'/'

abbrev ends_in_slash : String → Bool
ends_in_slash String.[] = false
ends_in_slash (String.◌∷◌ c String.[]) = code c == b'/'
ends_in_slash (String.◌∷◌ c (String.◌∷◌ d s)) = ends_in_slash (String.◌∷◌ d s)

abbrev is_empty : String → Bool
is_empty String.[] = true
is_empty (String.◌∷◌ c s) = false

-- `PathBuf::from(dir).join(name)` on Unix: an absolute name replaces the directory.
unfoldable pub join : String → String → String
unfolding concat
join dir name =
    if is_absolute name
    then name
    else if is_empty dir || ends_in_slash dir
    then concat dir name
    else concat dir (concat "/" name)

module _ (read_to_string : String → Option String) where
  -- The loop of `load`: a file that cannot be read is passed over.
  unfoldable pub load_files : String → List String → StrMap String → StrMap String
  unfolding join
  load_files dir [] sources = sources
  load_files dir (name ∷ names) sources =
      load_files dir names (elim (read_to_string (join dir name)) [
        | some src ↦ insert name src sources
        | none ↦ sources
      ])

  -- `load` answers `Ok` on every path.
  unfoldable pub load : PluginsConfig → PluginSources
  unfolding load_files
  load cfg = record { pipeline = cfg.pipeline; sources = load_files cfg.dir cfg.pipeline [] }
