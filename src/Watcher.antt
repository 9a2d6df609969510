-- ===== src/Watcher.antt =====
-- src/watcher.rs: the task that reloads the plugins. `select!` takes events and ticks one at a
-- time, in any order, so the task is a fold over a list of signals. The library that watches is a
-- parameter. Paths are bytes. A tick comes with the files as they are then.
pub mod Debounce
use dgsw_class_pg_proxy.Prelude.{
  ℕ, String, Bool, true, false, ◌&&◌, Option, none, some, List, [], ◌∷◌, any, ◌==◌, if◌then◌else◌,
}
use dgsw_class_pg_proxy.Prelude.Text.{Bytes, codes}
use dgsw_class_pg_proxy.Config.{PluginsConfig}
use dgsw_class_pg_proxy.Lua.Sources.{PluginSources, load}

pub data EventKind : Type 0 where
  create modify remove access any_kind other : EventKind

pub record Event : Type 0 where
  pub kind : EventKind
  pub paths : List Bytes

pub bytes_eq : Bytes → Bytes → Bool
bytes_eq [] [] = true
bytes_eq (a ∷ as') (b ∷ bs) = (a == b) && bytes_eq as' bs
bytes_eq _ _ = false

-- What follows the last `/`.
file_name : Bytes → Bytes → Bytes
file_name current [] = current
file_name current (c ∷ s) = file_name (if c == b'/' then s else current) s

-- The parts before and after the last dot.
split_last_dot : Bytes → Option (Bytes × Bytes)
split_last_dot [] = none
split_last_dot (c ∷ s) = elim (split_last_dot s) [
  | some (before, after) ↦ some (c ∷ before, after)
  | none ↦ if c == b'.' then some ([], s) else none
]

abbrev extension_of : Option (Bytes × Bytes) → Option Bytes
extension_of none = none
extension_of (some ([], after)) = none
extension_of (some (b ∷ before, after)) = some after

-- `Path::extension`: none without a dot, and none where the only dot begins the name.
unfoldable pub extension : Bytes → Option Bytes
unfolding file_name split_last_dot
extension path = extension_of (split_last_dot (file_name path path))

abbrev is : Bytes → Option Bytes → Bool
is name none = false
is name (some e) = bytes_eq e name

unfoldable pub is_lua : Bytes → Bool
unfolding extension bytes_eq
is_lua path = is (codes "lua") (extension path)

abbrev is_change : EventKind → Bool
is_change create = true
is_change modify = true
is_change remove = true
is_change _ = false

-- The events that set `pending`.
unfoldable pub relevant : Event → Bool
unfolding is_lua
relevant e = is_change e.kind && any is_lua e.paths

pub record Watching : Type 0 where
  pub pending : Bool
  pub sources : PluginSources

pub data Signal : Type 0 where
  event : Event → Signal
  tick : (String → Option String) → Signal

module _ (cfg : PluginsConfig) where
  unfoldable pub on_event : Event → Watching → Watching
  on_event e st = if relevant e then record st { pending = true } else st

  unfoldable pub on_tick : (String → Option String) → Watching → Watching
  on_tick files st = if st.pending then record { pending = false; sources = load files cfg } else st

  abbrev pub step : Signal → Watching → Watching
  step (event e) st = on_event e st
  step (tick files) st = on_tick files st

  unfoldable pub run : List Signal → Watching → Watching
  unfolding on_event on_tick
  run [] st = st
  run (s ∷ signals) st = run signals (step s st)

-- What `RecommendedWatcher::new` and its `watch` of a directory give: whether they succeed.
pub record Notify : Type 0 where
  pub creates : Bool
  pub watch : String → Bool

-- The task at its start; `none` is an error. The timer of the plugins starts with nothing pending.
unfoldable pub spawn_watcher : Notify → PluginsConfig → PluginSources → Option Watching
spawn_watcher notify cfg sources =
    if notify.creates && notify.watch cfg.dir
    then some (record { pending = false; sources = sources })
    else none

-- The closure that sends the events: what the library reports as an error is left out.
unfoldable pub sent : List (Option Event) → List Signal
sent [] = []
sent (none ∷ results) = sent results
sent (some e ∷ results) = event e ∷ sent results
