-- ===== src/Metrics.antt =====
-- src/metrics.rs. The four statics are set together by `init`, so one `Option` stands for them. A
-- counter of a float type counts by ones, and a number stands for it; of the histogram only the
-- number of observations is kept. The text encoder is a parameter.
use dgsw_class_pg_proxy.Prelude.{ℕ, ◌+◌, String, Option, none, some, []}
use dgsw_class_pg_proxy.Prelude.Maps.{StrMap, lookup, insert}
use dgsw_class_pg_proxy.Prelude.Run.{Run, unwrap, ◌>>=◌, returned}
use dgsw_class_pg_proxy.Prelude.Text.{Bytes}

pub record Metrics : Type 0 where
  pub req_counter : StrMap ℕ
  pub req_duration : ℕ
  pub active_conns : ℕ

abbrev pub no_metrics : Metrics
no_metrics = record { req_counter = []; req_duration = 0; active_conns = 0 }

-- `OnceLock::set` keeps the first value.
unfoldable pub init : Option Metrics → Option Metrics
init none = some no_metrics
init (some m) = some m

abbrev pub count : String → Metrics → ℕ
count label m = elim (lookup label m.req_counter) [ none ↦ 0 | some n ↦ n ]

-- `with_label_values(&[label]).inc()`.
unfoldable pub inc : String → Metrics → Metrics
inc label m = record m { req_counter = insert label (count label m + 1) m.req_counter }

-- `observe_duration` of a timer, and the end of a timer that was not observed.
unfoldable pub observe : Metrics → Metrics
observe m = record m { req_duration = m.req_duration + 1 }

-- `gather` panics before `init`.
unfoldable pub gather : (Metrics → Bytes) → Option Metrics → Run Bytes
gather encode metrics = do m ← unwrap metrics; returned (encode m)
