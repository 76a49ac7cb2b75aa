-- ===== src/Scheduler/Start.antt =====
-- `Start`: a cycle at once, and one for each tick until the context is cancelled. What the `select` of the
-- loop receives, one value after another, is a parameter.
pub mod Runs
use gcisco_exporter.Base.{
  ℕ, ◌+◌, String, Bool, true, false, Option, none, some, List, [], ◌∷◌, ltb, if◌then◌else◌,
}
use gcisco_exporter.Float.{Float64}
use gcisco_exporter.Int.{ℤ, pos, negsuc}
use gcisco_exporter.Config.{Config}
use gcisco_exporter.Scheduler.World.{Env, M, ◌>>=◌, pure, checked}
use gcisco_exporter.Scheduler.Cycle.{run_collection}

pub data Event : Type 0 where
  ticked ctx_done : Event

-- The interval in nanoseconds; `duration` is `time.ParseDuration`.
unfoldable pub interval : (String → Option ℤ) → Config → ℤ
interval duration cfg = elim (duration cfg.collection_interval) [
  | none ↦ pos 60_000_000_000
  | some d ↦ d
]

abbrev pub is_positive : ℤ → Bool
is_positive (pos n) = ltb 0 n
is_positive (negsuc n) = false

module _ {F : Type 0} ⦃fl : Float64 F⦄ (env : Env F) (cfg : Config) where
  -- the loop over what is received: the number of its cycles
  unfoldable pub loop : List Event → M F ℕ
  loop [] = pure 0
  loop (ctx_done ∷ events) = pure 0
  loop (ticked ∷ events) = do logged ← run_collection env cfg; n ← loop events; pure (n + 1)

  -- The goroutine of `Start`: the number of its cycles. `NewTicker` panics unless the interval is positive.
  unfoldable pub start : List Event → M F ℕ
  start events = do
    logged ← run_collection env cfg
    n ← (if is_positive (interval env.parse_duration cfg) then loop events else checked none)
    pure (n + 1)
