-- ===== src/Metrics/Registry.antt =====
-- The Prometheus client library (github.com/prometheus/client_golang), as the collector uses it: a
-- parameter, with the documented behaviour of `Set`, `Add` and of a scrape. The library panics on label
-- values that do not fit the vector and on an `Add` of a number below zero: the laws are about the other
-- calls.
pub mod Counters
use gcisco_exporter.Base.{◌≡◌, true, false, String, Option, none, some, List, [], ◌∷◌}
use gcisco_exporter.Float.{Float64}
use gcisco_exporter.Metrics.{Metric, set, add, Call, accepts}
use gcisco_exporter.Metrics.Vecs.{fits}

-- A series is a vector with label values.
abbrev pub Series : Type 0
Series = Metric × List String

abbrev pub series : {F : Type 0} → Call F → Series
series c = (c.metric, c.labels)

abbrev pub value_or_zero : {F : Type 0} ⦃fl : Float64 F⦄ → Option F → F
value_or_zero ⦃fl⦄ none = fl.of_nat 0
value_or_zero (some v) = v

module _ (F : Type 0) ⦃fl : Float64 F⦄ where
  pub record Prometheus (R : Type 0) : Type 0 where
    pub perform : Call F → R → R
    -- what a scrape shows of a series
    pub read : Series → R → Option F
    -- a series that is new starts at zero
    pub read-add :
        (c : Call F) (v : F) (r : R)
        → fits c ≡ true
        → c.op ≡ add v
        → fl.less v (fl.of_nat 0) ≡ false
        → read (series c) (perform c r) ≡ some (fl.plus (value_or_zero (read (series c) r)) v)
    pub read-other :
        (c : Call F) (s : Series) (r : R)
        → fits c ≡ true
        → accepts c.op ≡ true
        → ¬ (series c ≡ s)
        → read s (perform c r) ≡ read s r

module _ {F R : Type 0} ⦃fl : Float64 F⦄ (prom : Prometheus F R) where
  -- The registry after the calls of a run.
  unfoldable pub replay : List (Call F) → R → R
  replay [] r = r
  replay (c ∷ cs) r = replay cs (prom.perform c r)
