-- ===== src/Scheduler/Cycle.antt =====
-- `runCollection`: one collection from every device. The jobs run here one after another in the order
-- of their submission, which is one of the schedules of the worker pool.
pub mod Reach
pub mod Counts
use gcisco_exporter.Base.{
  ℕ, ◌+◌, Bool, true, false, Option, none, some, List, [], ◌∷◌, Map, insert, if◌then◌else◌, ◌/◌,
}
use gcisco_exporter.Float.{Float64}
use gcisco_exporter.Error.{Error}
use gcisco_exporter.Config.{Device, Config}
use gcisco_exporter.Metrics.Setters.Device.{
  set_collection_duration, set_collection_success, set_last_collection,
}
use gcisco_exporter.Scheduler.World.{Env, M, ◌>>=◌, ◌>>◌, pure, observe, emit_all}
use gcisco_exporter.Scheduler.Device.{collect_device}

unfoldable pub is_nil : Option Error → Bool
is_nil none = true
is_nil (some e) = false

-- the number of entries that are true
unfoldable pub success_count : Map Bool → ℕ
success_count [] = 0
success_count ((k, ok) ∷ m) = (if ok then 1 else 0) + success_count m

-- what is counted, unless the cycle was cut short
unfoldable pub counted : Option (Map Bool) → Option ℕ
counted none = none
counted (some results) = some (success_count results)

module _ {F : Type 0} ⦃fl : Float64 F⦄ (env : Env F) (cfg : Config) where
  -- `SetLastCollection` with `time.Now().Unix()`, unless there was an error
  unfoldable pub note_success : Device → Option Error → M F (Unit {0})
  note_success d none = do
    t ← observe env.now
    emit_all (set_last_collection d.name d.host (fl.of_nat (t / 1_000_000_000)) ∷ [])
  note_success d (some e) = pure tt

  -- what the job does after `collectDevice`: it began at `start`
  unfoldable pub report_job : Device → ℕ → Option Error → M F Bool
  report_job d start err = do
    end ← observe (λ t. t)
    emit_all (
        set_collection_duration d.name d.host (env.seconds_between start end)
        ∷ set_collection_success d.name d.host (is_nil err)
        ∷ [])
    note_success d err
    pure (is_nil err)

  -- the function that `Submit` is given; it returns what it writes to `results`
  unfoldable pub job : Device → M F Bool
  job d = do start ← observe (λ t. t); err ← collect_device env cfg d; report_job d start err

  -- the loop over the devices: `none` if the context was cancelled
  unfoldable pub run_jobs : List Device → Map Bool → M F (Option (Map Bool))
  run_jobs [] results = pure (some results)
  run_jobs (d ∷ ds) results = do
    done ← observe env.is_cancelled
    let rest = λ (ok : Bool). run_jobs ds (insert d.name ok results)
    if done then pure none else (job d >>= rest)

  -- the number of successes that the last line logs; `none` if the cycle was cut short
  unfoldable pub run_collection : M F (Option ℕ)
  unfolding counted
  run_collection = do results ← run_jobs cfg.devices []; pure (counted results)
