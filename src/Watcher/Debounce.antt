-- ===== src/Watcher/Debounce.antt =====
-- watcher.rs: between two ticks, many events make one reload.
use mathlib.Core.Bool.{or-false}
use dgsw_class_pg_proxy.Prelude.{
  ◌≡◌, refl, ◌∙◌, ap, String, Bool, true, false, ◌||◌, Option, List, [], ◌∷◌, ◌++◌, map, any, inl,
  inr, if◌then◌else◌, Bool-cases,
}
use dgsw_class_pg_proxy.Config.{PluginsConfig}
use dgsw_class_pg_proxy.Lua.Sources.{PluginSources, load}
use dgsw_class_pg_proxy.Watcher.{
  Event, Watching, Signal, event, tick, relevant, on_event, on_tick, run,
}

-- A window: the events since the last tick, and the tick with its files.
pub record Window : Type 0 where
  pub events : List Event
  pub files : String → Option String

abbrev pub signals_of : Window → List Signal
signals_of w = map event w.events ++ tick w.files ∷ []

abbrev pub is_touched : Window → Bool
is_touched w = any relevant w.events

or_swap : (a b c : Bool) → (a || (b || c)) ≡ ((b || a) || c)
or_swap true true c = refl
or_swap true false c = refl
or_swap false true c = refl
or_swap false false c = refl

on_event_lem :
    (cfg : PluginsConfig) (e : Event) (st : Watching)
    → on_event cfg e st ≡ record { pending = relevant e || st.pending; sources = st.sources }
unfolding on_event
on_event_lem cfg e st = elim (Bool-cases (relevant e)) [
  | inl touched ↦ rw touched
  | inr other ↦ rw other
]

module _ (cfg : PluginsConfig) where
  run-append :
      (xs ys : List Signal) (st : Watching) → run cfg (xs ++ ys) st ≡ run cfg ys (run cfg xs st)
  unfolding run
  run-append [] ys st = refl
  run-append (x ∷ xs) ys st = run-append xs ys _

  run-events :
      (es : List Event) (st : Watching)
      → run cfg (map event es) st
        ≡ record { pending = any relevant es || st.pending; sources = st.sources }
  unfolding run
  run-events [] st = refl
  run-events (e ∷ es) st =
      ap (run cfg (map event es)) (on_event_lem cfg e st)
      ∙ run-events es (record { pending = relevant e || st.pending; sources = st.sources })
      ∙ ap {B = Watching} (λ b. record { pending = b; sources = st.sources })
          (or_swap (any relevant es) (relevant e) st.pending)

  -- One window: whatever was pending and whatever the events are, the tick reloads once if a plugin
  -- was touched or a reload was pending, and leaves nothing pending.
  run-window :
      (w : Window) (st : Watching)
      → run cfg (signals_of w) st ≡ record {
        pending = false;
        sources = if is_touched w || st.pending then load w.files cfg else st.sources;
      }
  unfolding run
  run-window w st =
      run-append (map event w.events) (tick w.files ∷ []) st
      ∙ ap (on_tick cfg w.files) (run-events w.events st)
      ∙ ticked (is_touched w || st.pending) st.sources
    where
      ticked :
          (b : Bool) (sources : PluginSources)
          → on_tick cfg w.files (record { pending = b; sources = sources })
            ≡ record { pending = false; sources = if b then load w.files cfg else sources }
      ticked true sources = refl
      ticked false sources = refl

  -- All windows in a row.
  unfoldable pub all_signals : List Window → List Signal
  all_signals [] = []
  all_signals (w ∷ ws) = signals_of w ++ all_signals ws

  -- What the plugins' sources should be: those of the files at the last tick before which a plugin
  -- was touched.
  unfoldable pub fresh : List Window → PluginSources → PluginSources
  fresh [] sources = sources
  fresh (w ∷ ws) sources = fresh ws (if is_touched w then load w.files cfg else sources)

  -- From a state in which nothing is pending, over any row of windows, in which events and ticks
  -- come as they may, the sources are those of the last window in which a `.lua` file was created,
  -- modified or removed, as the files were at its tick; where there is none, they are the first
  -- ones. Nothing is left pending.
  pub run-fresh :
      (ws : List Window) (sources : PluginSources)
      → run cfg (all_signals ws) (record { pending = false; sources = sources })
        ≡ record { pending = false; sources = fresh ws sources }
  unfolding run all_signals fresh
  run-fresh [] sources = refl
  run-fresh (w ∷ ws) sources =
      run-append (signals_of w) (all_signals ws) _
      ∙ ap (run cfg (all_signals ws)) (
          run-window w (record { pending = false; sources = sources })
          ∙ ap {B = Watching}
              (λ b. record { pending = false; sources = if b then load w.files cfg else sources })
              (or-false (is_touched w)))
      ∙ run-fresh ws _
