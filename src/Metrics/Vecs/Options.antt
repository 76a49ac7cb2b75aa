-- ===== src/Metrics/Vecs/Options.antt =====
-- internal/metrics/metrics.go: the options that `NewGaugeVec` and `NewCounterVec` are given.
use gcisco_exporter.Base.{String, List}
use gcisco_exporter.Metrics.{Metric, gauge, counter, Desc}

abbrev pub Vecs : Type 0
Vecs = List (Metric × Desc)

abbrev pub gauge_vec : String → List String → Desc
gauge_vec n ls = record { kind = gauge; name = n; label_names = ls }

abbrev pub counter_vec : String → List String → Desc
counter_vec n ls = record { kind = counter; name = n; label_names = ls }
